-- ===== src/Clipctl/Tests.antt =====
-- Runs of clipctl's parts, and the theorems about them at concrete inputs.
use clipmenu.Prelude.{◌≡◌, refl, false, some, List, [], ◌∷◌, arith}
use clipmenu.Text.{codes, streq, isspace}
use clipmenu.Machine.{ok}
use clipmenu.Util.{str_to_uint64}
use clipmenu.Daemon.Tests.{daemon}
use clipmenu.Daemon.Handlers.{written, handle_signalfd_event}
use clipmenu.Clipctl.{ProcEntry, get_clipmenud_pid, should_enable, wait_for, send_signal}
use clipmenu.Clipctl.Search.{get_clipmenud_pid_lem}
use clipmenu.Clipctl.Switch.{switch_lem}

abbrev proc : List ProcEntry
proc =
    record { d_name = codes "self"; comm = some (codes "clipmenud\n") }
    ∷ record { d_name = codes "1"; comm = some (codes "init\n") }
    ∷ record { d_name = codes "77"; comm = some (codes "clipmenud\n") }
    ∷ []

get_clipmenud_pid_lem_example : get_clipmenud_pid proc ≡ ok 77
unfolding str_to_uint64 streq isspace
get_clipmenud_pid_lem_example = get_clipmenud_pid_lem proc ((omega arith, omega arith), tt)

toggle_run :
    send_signal proc (some (codes "1")) (codes "toggle")
    ≡ ok (record { pid = 77; signo = 10; want = false })
unfolding send_signal str_to_uint64 streq isspace
toggle_run = refl

switch_lem_example :
    ((handle_signalfd_event (some 10) written daemon).1.enabled ≡ false)
    × (wait_for 1 (some (handle_signalfd_event (some 10) written daemon).1.status ∷ []) false
        ≡ ok 0)
unfolding should_enable streq
switch_lem_example = switch_lem daemon (codes "toggle") false 0 [] refl refl
