-- ===== src/Clipctl/Switch.antt =====
-- clipctl of src/clipctl.c and the daemon's handler of signals together.
use clipmenu.Prelude.{
  ap, ℕ, suc, ◌≤◌, ◌≡◌, refl, ◌∙◌, Bool, true, false, not, Option, some, List, ◌∷◌, arith,
  if◌then◌else◌, length,
}
use clipmenu.Text.{Bytes, codes, streq}
use clipmenu.Machine.{Outcome, ok}
use clipmenu.Daemon.{Daemon}
use clipmenu.Daemon.Handlers.{written, switched, handle_signalfd_event}
use clipmenu.Daemon.Ignoring.{signal_lem}
use clipmenu.Clipctl.{is_enabled, should_enable, signal_for, wait_for, look}

-- The bytes that the daemon writes for a state.
abbrev pub status_of : Bool → Bytes
status_of b = if b then codes "1" else codes "0"

switched-signal_for : (want b : Bool) → switched (signal_for want) b ≡ want
switched-signal_for true b = refl
switched-signal_for false b = refl

is_enabled-status_of : (b : Bool) → is_enabled (some (status_of b)) ≡ ok b
unfolding is_enabled
is_enabled-status_of true = refl
is_enabled-status_of false = refl

-- The state that a command asks for.
abbrev pub target : Bytes → Bool → Bool
target mode b =
    if streq mode (codes "enable")
    then true
    else if streq mode (codes "disable")
    then false
    else not b

should_enable-target :
    (b : Bool) (mode : Bytes) (want : Bool)
    → should_enable (some (status_of b)) mode ≡ ok want
    → want ≡ target mode b
unfolding should_enable
should_enable-target b mode want h = ground (arith, is_enabled-status_of b)

look-status_of :
    (b : Bool) (rest : Outcome ℕ) → look (is_enabled (some (status_of b))) b rest ≡ ok 0
unfolding is_enabled
look-status_of true rest = refl
look-status_of false rest = refl

-- When the daemon, whose status file tells its state, has handled the signal that clipctl sends for a
-- command, and has written the file, it is in the state that the command asks for, and the next look of clipctl at the status
-- file ends its wait with success, whatever later looks would show.
pub switch_lem :
    (s : Daemon) (mode : Bytes) (want : Bool) (left : ℕ) (looks : List (Option Bytes))
    → s.status ≡ status_of s.enabled
    → should_enable (some s.status) mode ≡ ok want
    → ((handle_signalfd_event (some (signal_for want)) written s).1.enabled ≡ target mode s.enabled)
      × (wait_for
            (suc left)
            (some (handle_signalfd_event (some (signal_for want)) written s).1.status ∷ looks)
            want
          ≡ ok 0)
unfolding wait_for
switch_lem s mode want left looks told asked =
    let one = signal_lem (signal_for want) s (rw told (short s.enabled)) in
    let switch = switched-signal_for want s.enabled in
    (
      ap (λ (o : Outcome (Unit {0}) × Daemon). o.1.enabled) one
          ∙ switch
          ∙ should_enable-target s.enabled mode want (rw told at asked),
      rw (ap (λ (o : Outcome (Unit {0}) × Daemon). o.1.status) one, switch)
          (look-status_of want (wait_for left looks want)),
    )
  where
    short : (b : Bool) → length (status_of b) ≤ 1
    short true = omega arith
    short false = omega arith
