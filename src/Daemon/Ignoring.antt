-- ===== src/Daemon/Ignoring.antt =====
-- What the daemon of src/clipmenud.c does not store: while it is disabled, from windows that are
-- ignored, and text that is only white space; and what its status file says.
use clipmenu.Prelude.{
  ℕ, ◌≤◌, ◌≡◌, refl, ap, ◌≢◌, ◌⊎◌, inl, inr, Bool, true, false, none, some, List, [], ◌∷◌, ◌++◌,
  arith, if◌then◌else◌, length, All,
}
use clipmenu.Text.{Bytes, codes, is_salient_text}
use clipmenu.Machine.{ok, err}
use clipmenu.Daemon.Selections.{Atoms, all_selections, find_atom}
use clipmenu.Daemon.{Config, Daemon, XEvent, D, ◌>>◌, pure}
use clipmenu.Daemon.Handlers.{
  written, overwrite, switched, handle_signalfd_event, handle_text, handle_property_notify,
  handle_x11_event, einprogress,
}

-- While collection is disabled, every pending event is taken and dropped.
pub disabled_drops_all :
    (cfg : Config) (sels : Atoms) (evts : List XEvent) (s : Daemon)
    → s.enabled ≡ false
    → handle_x11_event cfg sels evts s ≡ (err einprogress, [], s)
unfolding handle_x11_event
disabled_drops_all cfg sels [] s e = refl
disabled_drops_all cfg sels (evt ∷ rest) s e = ground (arith, disabled_drops_all cfg sels rest s e)

overwrites :
    (b : Bool) (old : Bytes)
    → length old ≤ 1
    → overwrite (if b then codes "1" else codes "0") old ≡ (if b then codes "1" else codes "0")
overwrites true [] h = refl
overwrites false [] h = refl
overwrites true (c ∷ []) h = refl
overwrites false (c ∷ []) h = refl
overwrites b (c ∷ d ∷ old) h = absurd (omega arith)

abbrev pub told : Bool → Daemon → Daemon
told enabled s = record s { enabled = enabled; status = if enabled then codes "1" else codes "0" }

-- One signal, where the status file is written.
pub signal_lem :
    (signo : ℕ) (s : Daemon)
    → length s.status ≤ 1
    → handle_signalfd_event (some signo) written s ≡ (ok tt, told (switched signo s.enabled) s)
unfolding handle_signalfd_event
signal_lem signo s short =
    ap (λ status. (ok tt, record s { enabled = switched signo s.enabled; status = status }))
      (overwrites (switched signo s.enabled) s.status short)

-- These signals, in their order, where the status file is written each time.
abbrev pub all_handled : List ℕ → D (Unit {0})
all_handled [] = pure tt
all_handled (signo ∷ signos) = handle_signalfd_event (some signo) written >> all_handled signos

abbrev pub IsOther : ℕ → Type 0
IsOther signo = (signo ≢ 10) × (signo ≢ 12)

one_byte : (e : Bool) → length (if e then codes "1" else codes "0") ≤ 1
one_byte true = omega arith
one_byte false = omega arith

handled_others :
    (later : List ℕ) (b : Bool) (s : Daemon)
    → All IsOther later
    → all_handled later (told b s) ≡ (ok tt, told b s)
handled_others [] b s others = refl
handled_others (signo ∷ later) b s ((no_usr1, no_usr2), others) =
    let same : switched signo b ≡ b = ground (arith, no_usr1, no_usr2) in
    rw (signal_lem signo (told b s) (one_byte b), same) (handled_others later b s others)

handled_from :
    (earlier rest : List ℕ) (signo : ℕ) (b : Bool) (s : Daemon)
    → length s.status ≤ 1
    → ((e : Bool) → switched signo e ≡ b)
    → All IsOther rest
    → all_handled (earlier ++ (signo ∷ rest)) s ≡ (ok tt, told b s)
handled_from [] rest signo b s short sets others =
    rw (signal_lem signo s short, sets s.enabled) (handled_others rest b s others)
handled_from (first ∷ earlier) rest signo b s short sets others = rw (signal_lem first s short) (
    handled_from earlier rest signo b (told (switched first s.enabled) s)
      (one_byte (switched first s.enabled)) sets others)

-- Whatever signals come, the last SIGUSR1 or SIGUSR2 (10 and 12) decides: behind a SIGUSR1 collection
-- is disabled and the status file holds "0", behind a SIGUSR2 it is enabled and the file holds "1",
-- and nothing else of the daemon has changed, if the status file held one byte at most and is written
-- each time.
pub status_follows :
    (earlier later : List ℕ) (s : Daemon)
    → length s.status ≤ 1
    → All IsOther later
    → (all_handled (earlier ++ (10 ∷ later)) s
        ≡ (ok tt, record s { enabled = false; status = codes "0" }))
      × (all_handled (earlier ++ (12 ∷ later)) s
          ≡ (ok tt, record s { enabled = true; status = codes "1" }))
status_follows earlier later s short others = (
  handled_from earlier later 10 false s short (λ e. refl) others,
  handled_from earlier later 12 true s short (λ e. refl) others,
)

-- A property that is no selection's storage, or that was deleted, is refused, and text of white
-- space alone is passed over: in all these cases nothing changes.
pub handle_property_notify_ignores :
    (cfg : Config) (sels : Atoms) (atom : ℕ) (new_value : Bool) (text : Bytes) (now : ℕ)
    (s : Daemon)
    → (find_atom sels.storage atom all_selections ≡ none)
      ⊎ (new_value ≡ false)
      ⊎ (is_salient_text text ≡ false)
    → (handle_property_notify cfg sels atom new_value (some text) now s).1 ≡ s
unfolding handle_property_notify handle_text
handle_property_notify_ignores cfg sels atom new_value text now s (inl e) = rw e
handle_property_notify_ignores cfg sels atom new_value text now s (inr (inl e)) = ground arith
handle_property_notify_ignores cfg sels atom new_value text now s (inr (inr e)) = ground arith
