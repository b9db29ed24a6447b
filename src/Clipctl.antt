-- ===== src/Clipctl.antt =====
-- clipctl, src/clipctl.c: the search for the daemon among the entries of /proc, the command words,
-- the signal, and the wait for the daemon's status file. What /proc holds and what the file says at
-- each look are parameters.
pub mod Search
pub mod Switch
pub mod Tests
use clipmenu.Prelude.{
  ℕ, zero, suc, ◌+◌, ◌-◌, ◌*◌, ◌/◌, ◌%◌, ◌^◌, ◌≤◌, ◌<◌, bit_and, ◌≡◌, refl, sym, ap, ◌∙◌, subst,
  fun_ext, ◌≡⟨◌⟩◌, ◌∎, ◌≢◌, ◌↔◌, ◌⊎◌, inl, inr, Bool, true, false, not, ◌&&◌, ◌||◌, Option, none,
  some, List, [], ◌∷◌, ◌++◌, map, append_assoc, append-nil, map-append, reverse, reverse-append,
  reverse-reverse, reverse-cons, arith, ltb, leb, ◌==◌, if◌then◌else◌, ltb→lt, not-ltb→le,
  not-leb→lt, lt→ltb, le→not-ltb, le→leb, leb→le, lt→not-leb, ==_iff, ==_refl, Bool-cases, length,
  get_or, set, take, drop, replicate, length-append, get_or-append, set-append, take-append,
  take-append_le, take_all, take-append-drop, take-take, take-set_last, take-set, get_or-take,
  length-take_le, length-take_of_le, length-set, length-replicate, split_at, All, All-append,
  length-map, take-map, length-reverse, String,
}
use clipmenu.Text.{Bytes, codes, streq}
use clipmenu.Machine.{Outcome, ok, err, abort, eexist, enoent}
use clipmenu.Util.{str_to_uint64}
use clipmenu.Daemon.Handlers.{sigusr1, sigusr2}

-- fgetc(file) == '1'; `none` is a file that cannot be opened.
unfoldable pub is_enabled : Option Bytes → Outcome Bool
is_enabled none = abort
is_enabled (some []) = ok false
is_enabled (some (c ∷ status)) = ok (c == b'1')

-- An entry of /proc: its name, and the first line of its `comm`, if that can be read.
pub record ProcEntry : Type 0 where
  pub d_name : Bytes
  pub comm : Option Bytes

-- (pid_t)pid: the lower 32 bits, with a sign; `err e` is -e.
abbrev pub pid_of : ℕ → Outcome ℕ
pid_of pid = let low = pid % 2 ^ 32 in if ltb low (2 ^ 31) then ok low else err (2 ^ 32 - low)

abbrev pub is_daemon : Option Bytes → Bool
is_daemon none = false
is_daemon (some line) = streq line (codes "clipmenud\n")

-- `ret` after an entry whose name is that number.
abbrev pub found_pid : Outcome ℕ → Option Bytes → ℕ → Outcome ℕ
found_pid (err e) comm ret = ok ret
found_pid abort comm ret = ok ret
found_pid (ok pid) comm ret =
    if is_daemon comm then (if ret == 0 then pid_of pid else err eexist) else ok ret

abbrev pub go_on : Outcome ℕ → (ℕ → Outcome ℕ) → Outcome ℕ
go_on (ok ret) loop = loop ret
go_on (err e) loop = err e
go_on abort loop = abort

-- The loop over the entries, which ends where `ret` is below 0.
unfoldable pub find_pid : List ProcEntry → ℕ → Outcome ℕ
find_pid [] ret = if ret == 0 then err enoent else ok ret
find_pid (ent ∷ dir) ret = go_on (found_pid (str_to_uint64 ent.d_name) ent.comm ret) (find_pid dir)

unfoldable pub get_clipmenud_pid : List ProcEntry → Outcome ℕ
unfolding find_pid
get_clipmenud_pid dir = find_pid dir 0

abbrev pub negated : Outcome Bool → Outcome Bool
negated (ok b) = ok (not b)
negated (err e) = err e
negated abort = abort

unfoldable pub should_enable : Option Bytes → Bytes → Outcome Bool
unfolding is_enabled
should_enable enabled_file mode_str =
    if streq mode_str (codes "enable")
    then ok true
    else if streq mode_str (codes "disable")
    then ok false
    else if streq mode_str (codes "toggle")
    then negated (is_enabled enabled_file)
    else abort

-- The signal that main() sends.
abbrev pub signal_for : Bool → ℕ
signal_for want_enable = if want_enable then sigusr2 else sigusr1

abbrev pub max_state_retries : ℕ
max_state_retries = 20

abbrev same : Bool → Bool → Bool
same true b = b
same false b = not b

abbrev pub look : Outcome Bool → Bool → Outcome ℕ → Outcome ℕ
look (ok b) want rest = if same b want then ok 0 else rest
look (err e) want rest = err e
look abort want rest = abort

-- The loop of looks at the file, with `left` retries left; die() behind the last one.
unfoldable pub wait_for : ℕ → List (Option Bytes) → Bool → Outcome ℕ
unfolding is_enabled
wait_for zero looks want_enable = abort
wait_for (suc left) [] want_enable = abort
wait_for (suc left) (enabled_file ∷ looks) want_enable =
    look (is_enabled enabled_file) want_enable (wait_for left looks want_enable)

-- What clipctl sends: a signal and to whom.
pub record Sent : Type 0 where
  pub pid : ℕ
  pub signo : ℕ
  pub want : Bool

-- main() up to kill(), for a command that is not "status".
abbrev pub to_send : Outcome ℕ → Outcome Bool → Outcome Sent
to_send (ok pid) (ok want) =
    if pid == 0 then abort else ok (record { pid = pid; signo = signal_for want; want = want })
to_send (ok pid) (err e) = abort
to_send (ok pid) abort = abort
to_send (err e) want = abort
to_send abort want = abort

unfoldable pub send_signal : List ProcEntry → Option Bytes → Bytes → Outcome Sent
unfolding get_clipmenud_pid should_enable
send_signal dir enabled_file mode_str =
    to_send (get_clipmenud_pid dir) (should_enable enabled_file mode_str)
