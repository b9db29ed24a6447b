-- ===== src/Daemon/Keeps/Loop.antt =====
-- The loops of src/clipmenud.c over the events and the wake-ups, whatever system calls of the store
-- fail.
use clipmenu.Prelude.{ℕ, inl, inr, Bool, true, false, Option, none, some, List, [], ◌∷◌, Bool-cases}
use clipmenu.Machine.{Outcome, ok, err, abort}
use clipmenu.Daemon.Selections.{Atoms}
use clipmenu.Daemon.{Config, Daemon, XEvent}
use clipmenu.Daemon.Handlers.{
  StatusCalls, not_opened, not_written, written, write_status, switched, handle_signalfd_event,
  handle_one, decide, handle_x11_event, Handled,
}
use clipmenu.Daemon.Loop.{Wake, taken, die_unless_selected, signalled, woken, get_one_clip}
use clipmenu.Daemon.Keeps.{Ready, Stays, Serves-handle_one}

abbrev pub HandledStays : Handled → Type 0
HandledStays (r, rest, s) = Stays (r, s)

Stays-decide :
    (o : Outcome Bool × Daemon) (rest : List XEvent) (loop : Daemon → Handled)
    → Stays o
    → ((s : Daemon) → Ready s → HandledStays (loop s))
    → HandledStays (decide o.0 rest loop o.1)
Stays-decide (ok true, s) rest loop h stays = h
Stays-decide (ok false, s) rest loop h stays = stays s h
Stays-decide (err e, s) rest loop h stays = h
Stays-decide (abort, s) rest loop h stays = h

handle_x11_event-Stays :
    (cfg : Config) (sels : Atoms) (events : List XEvent) (s : Daemon)
    → Ready s
    → HandledStays (handle_x11_event cfg sels events s)
unfolding handle_x11_event
handle_x11_event-Stays cfg sels [] s h = h
handle_x11_event-Stays cfg sels (evt ∷ rest) s h =
    round s.enabled (handle_x11_event-Stays cfg sels rest)
  where
    round :
        (b : Bool)
        → ((s' : Daemon) → Ready s' → HandledStays (handle_x11_event cfg sels rest s'))
        → HandledStays (elim b [
          | false ↦ handle_x11_event cfg sels rest s
          | true ↦
              let (r, s') = handle_one cfg sels evt s in
              decide r rest (handle_x11_event cfg sels rest) s'
        ])
    round false stays = stays s h
    round true stays =
        Stays-decide (handle_one cfg sels evt s) rest (handle_x11_event cfg sels rest)
          (Serves-handle_one cfg sels evt s h) stays

Stays-write_status : (calls : StatusCalls) (s : Daemon) → Ready s → Stays (write_status calls s)
unfolding write_status
Stays-write_status not_opened s h = h.sound
Stays-write_status not_written s h = h
Stays-write_status written s h = h

Stays-signalled : (w : Wake) (s : Daemon) → Ready s → Stays (signalled w s)
unfolding handle_signalfd_event
Stays-signalled w s h = selects w.selected w.signal
  where
    selects :
        (b : Bool) (signal : Option (Option ℕ × StatusCalls))
        → Stays (die_unless_selected b (taken signal) s)
    selects false signal = h.sound
    selects true none = h
    selects true (some (none, calls)) = h.sound
    selects true (some (some signo, calls)) =
        Stays-write_status calls (record s { enabled = switched signo s.enabled }) h

abbrev pub ClipStays : Option Handled → Type 0
ClipStays none = Unit
ClipStays (some r) = HandledStays r

ClipStays-woken :
    (o : Outcome (Unit {0}) × Daemon) (next : Daemon → Option Handled)
    → Stays o
    → ((s : Daemon) → Ready s → ClipStays (next s))
    → ClipStays (woken o.0 next o.1)
ClipStays-woken (ok a, s) next h stays = stays s h
ClipStays-woken (err e, s) next h stays = h
ClipStays-woken (abort, s) next h stays = h

-- Whatever happens to the daemon in a call of get_one_clip().
pub get_one_clip-Stays :
    (cfg : Config) (sels : Atoms) (pending : List XEvent) (wakes : List Wake) (s : Daemon)
    → Ready s
    → ClipStays (get_one_clip cfg sels pending wakes s)
unfolding get_one_clip
get_one_clip-Stays cfg sels (evt ∷ pending) wakes s h =
    handle_x11_event-Stays cfg sels (evt ∷ pending) s h
get_one_clip-Stays cfg sels [] [] s h = tt
get_one_clip-Stays cfg sels [] (w ∷ wakes) s h =
    ClipStays-woken (signalled w s) _ (Stays-signalled w s h) (λ t h'. elim (Bool-cases w.x_ready) [
      | inl e ↦ rw e (handle_x11_event-Stays cfg sels w.arrived t h')
      | inr e ↦ rw e (get_one_clip-Stays cfg sels [] wakes t h')
    ])
