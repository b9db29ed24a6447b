-- ===== src/Daemon/Loop.antt =====
-- get_one_clip of src/clipmenud.c: the wait for signals and X events.
use clipmenu.Prelude.{
  ℕ, ◌≡◌, ap, ◌∙◌, Bool, true, false, Option, none, some, List, [], ◌∷◌, ◌++◌, if◌then◌else◌, All,
}
use clipmenu.Machine.{Outcome, ok, err, abort}
use clipmenu.Daemon.Selections.{Atoms}
use clipmenu.Daemon.{Config, Daemon, XEvent, D, after, ◌>>◌, pure}
use clipmenu.Daemon.Handlers.{
  StatusCalls, handle_signalfd_event, handle_x11_event, Handled, einprogress,
}
use clipmenu.Daemon.Ignoring.{disabled_drops_all}

-- What one select() gives: whether it reports anything, a signal to read, with what becomes of the
-- calls that handle it, and whether the connection can be read, with the events that it then holds.
pub record Wake : Type 0 where
  pub selected : Bool
  pub signal : Option (Option ℕ × StatusCalls)
  pub x_ready : Bool
  pub arrived : List XEvent

abbrev pub taken : Option (Option ℕ × StatusCalls) → D (Unit {0})
taken none s = (ok tt, s)
taken (some (signo, calls)) s = handle_signalfd_event signo calls s

abbrev pub die_unless_selected : Bool → D (Unit {0}) → D (Unit {0})
die_unless_selected true m s = m s
die_unless_selected false m s = (abort, s)

abbrev pub signalled : Wake → D (Unit {0})
signalled w = die_unless_selected w.selected (taken w.signal)

abbrev pub woken : Outcome (Unit {0}) → (Daemon → Option Handled) → Daemon → Option Handled
woken (ok _) next s = next s
woken (err e) next s = some (err e, [], s)
woken abort next s = some (abort, [], s)

-- The loop goes over what select() reports, round after round; `none` is a loop that still waits. The
-- first list holds the events that are pending before the first round.
unfoldable pub get_one_clip : Config → Atoms → List XEvent → List Wake → Daemon → Option Handled
get_one_clip cfg sels (evt ∷ pending) wakes s = some (handle_x11_event cfg sels (evt ∷ pending) s)
get_one_clip cfg sels [] [] s = none
get_one_clip cfg sels [] (w ∷ wakes) s =
    let rest = get_one_clip cfg sels [] wakes in
    let (r, s') = signalled w s in
    woken r (λ t. if w.x_ready then some (handle_x11_event cfg sels w.arrived t) else rest t) s'

-- Rounds that bring only signals.
abbrev pub OnlySignals : List Wake → Type 0
OnlySignals = All (λ w. w.x_ready ≡ false)

-- The signals of these rounds, one after the other.
abbrev pub all_signals : List Wake → D (Unit {0})
all_signals [] = pure tt
all_signals (w ∷ wakes) = signalled w >> all_signals wakes

-- What is left of the rounds behind a first one that ends well.
woken_ok :
    (o : Outcome (Unit {0}) × Daemon) (k : D (Unit {0})) (next : Daemon → Option Handled)
    (s' : Daemon) (h : Option Handled)
    → after o.0 (λ _. k) o.1 ≡ (ok tt, s')
    → ((s : Daemon) → k s ≡ (ok tt, s') → next s ≡ h)
    → woken o.0 next o.1 ≡ h
woken_ok (ok a, s) k next s' h e then_h = then_h s e
woken_ok (err x, s) k next s' h e then_h = absurd (cc e)
woken_ok (abort, s) k next s' h e then_h = absurd (cc e)

get_one_clip-signals :
    (cfg : Config) (sels : Atoms) (quiet : List Wake) (w : Wake) (wakes : List Wake) (s s' : Daemon)
    → OnlySignals quiet
    → w.x_ready ≡ true
    → all_signals (quiet ++ (w ∷ [])) s ≡ (ok tt, s')
    → get_one_clip cfg sels [] (quiet ++ (w ∷ wakes)) s
      ≡ some (handle_x11_event cfg sels w.arrived s')
unfolding get_one_clip
get_one_clip-signals cfg sels [] w wakes s s' h ready ran =
    woken_ok (signalled w s) (pure tt) _ s' _ ran (λ t e.
      rw ready (
        ap (λ (o : Outcome (Unit {0}) × Daemon). some (handle_x11_event cfg sels w.arrived o.1)) e))
get_one_clip-signals cfg sels (q ∷ quiet) w wakes s s' h ready ran =
    woken_ok (signalled q s) (all_signals (quiet ++ (w ∷ []))) _ s' _ ran
      (λ t e. rw (h.0) (get_one_clip-signals cfg sels quiet w wakes t s' h.1 ready e))

-- Where nothing is pending, all the signals that come before the events or in one round with them are
-- handled first; if the last of them left the daemon disabled, the events are dropped, and the state
-- is what the signals made of it, if none of them ended the daemon.
pub get_one_clip_disabled :
    (cfg : Config) (sels : Atoms) (quiet : List Wake) (w : Wake) (wakes : List Wake) (s s' : Daemon)
    → OnlySignals quiet
    → w.x_ready ≡ true
    → all_signals (quiet ++ (w ∷ [])) s ≡ (ok tt, s')
    → s'.enabled ≡ false
    → get_one_clip cfg sels [] (quiet ++ (w ∷ wakes)) s ≡ some (err einprogress, [], s')
get_one_clip_disabled cfg sels quiet w wakes s s' h ready ran off =
    get_one_clip-signals cfg sels quiet w wakes s s' h ready ran
    ∙ ap (λ r. some r) (disabled_drops_all cfg sels w.arrived s' off)
