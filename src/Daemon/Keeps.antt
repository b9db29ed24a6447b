-- ===== src/Daemon/Keeps.antt =====
-- The handlers of src/clipmenud.c whatever system calls of the store fail: between two of them the
-- daemon holds no lock and its store is in order.
pub mod Loop
use clipmenu.Prelude.{
  ℕ, inl, inr, Bool, true, false, not, ◌||◌, Option, none, some, List, [], ◌∷◌, arith,
  if◌then◌else◌, Bool-cases,
}
use clipmenu.Text.{Bytes, is_salient_text}
use clipmenu.Machine.{Sys, Outcome, ok, err, abort, M, expect_ok, einval, enoent}
use clipmenu.Store.Snips.{newest_first}
use clipmenu.Store.Ops.{cs_add, cs_replace, cs_trim, cs_len}
use clipmenu.Store.Faults.{IsSound, IsFree, On, Ends, Keeps, Ends-expect}
use clipmenu.Store.Faults.Ops.{Keeps-cs_add, Keeps-cs_replace, Keeps-cs_trim, Keeps-cs_len}
use clipmenu.Daemon.Selections.{
  Atoms, all_selections, find_atom, selection_atom_to_selection_type,
  storage_atom_to_selection_type,
}
use clipmenu.Daemon.{
  Config, Daemon, XEvent, xfixes_selection_notify, property_notify, selection_notify, other_event,
  D, after, ◌>>=◌, pure, raise, on_store,
}
use clipmenu.Daemon.Handlers.{
  is_clipserve, is_ignored_window, handle_signalfd_event, is_some, int_gt, trim_after, maybe_trim,
  is_partial_of_last, store_clip, given, handle_xfixes_selection_notify, handle_selection_notify,
  own_selection, handle_text, handle_property_notify, handle_one, decide, goes_on_if_ok,
  returns_if_ok, handle_x11_event, Handled,
}
use clipmenu.Daemon.Loop.{Wake, signalled, get_one_clip}

-- The daemon's store is between two calls.
abbrev pub Ready : Daemon → Type 0
Ready s = On IsFree s.store

-- An action from a ready daemon to a ready one; if it ends the process, the file is still sound.
abbrev pub Stays : {A : Type 0} → Outcome A × Daemon → Type 0
Stays (ok a, s) = Ready s
Stays (err e, s) = Ready s
Stays (abort, s) = IsSound s.store.file

abbrev pub Serves : {A : Type 0} → D A → Type 0
Serves m = (s : Daemon) → Ready s → Stays (m s)

Stays-after :
    {A B : Type 0} (o : Outcome A × Daemon) (k : A → D B)
    → Stays o
    → ((a : A) → Serves (k a))
    → Stays (after o.0 k o.1)
Stays-after (ok a, s) k h serves = serves a s h
Stays-after (err e, s) k h serves = h
Stays-after (abort, s) k h serves = h

Serves-bind :
    {A B : Type 0} (m : D A) (k : A → D B) → Serves m → ((a : A) → Serves (k a)) → Serves (m >>= k)
Serves-bind m k hm hk s h = Stays-after (m s) k (hm s h) hk

Serves-if : {A : Type 0} (b : Bool) (m n : D A) → Serves m → Serves n → Serves (if b then m else n)
Serves-if true m n hm hn = hm
Serves-if false m n hm hn = hn

-- A call of the store.
Stays-store :
    {A : Type 0} (o : Outcome A × Sys) (s : Daemon)
    → Ends (λ _. On IsFree) (On IsFree) o
    → Stays (o.0, record s { store = o.1 })
Stays-store (ok a, t) s h = h
Stays-store (err e, t) s h = h
Stays-store (abort, t) s h = h

Serves-on_store : {A : Type 0} (m : M A) → Keeps (On IsFree) m → Serves (on_store m)
Serves-on_store m keeps s h = Stays-store (m s.store) s (keeps s.store h)

Keeps-expect_ok : {A : Type 0} (m : M A) → Keeps (On IsFree) m → Keeps (On IsFree) (expect_ok m)
Keeps-expect_ok m keeps s h =
    Ends-expect (λ _. On IsFree) (On IsFree) (On IsFree) (m s) (λ s' h'. h'.sound) (keeps s h)

Keeps-maybe_trim : (cfg : Config) → Keeps (On IsFree) (maybe_trim cfg)
unfolding maybe_trim
Keeps-maybe_trim cfg s h = trims (expect_ok cs_len s) (Keeps-expect_ok cs_len Keeps-cs_len s h)
  where
    trims :
        (o : Outcome ℕ × Sys)
        → Ends (λ _. On IsFree) (On IsFree) o
        → Ends (λ _. On IsFree) (On IsFree) (trim_after cfg o.0 o.1)
    trims (err e, t) h' = h'
    trims (abort, t) h' = h'
    trims (ok n, t) h' = elim (Bool-cases (int_gt n cfg.max_clips_batch)) [
      | inl e ↦ rw e (
          Keeps-expect_ok (cs_trim newest_first cfg.max_clips)
            (Keeps-cs_trim newest_first cfg.max_clips) t h')
      | inr e ↦ rw e h'
    ]

Serves-given : {A : Type 0} (o : Outcome A) → Serves (given o)
Serves-given (ok a) s h = h
Serves-given (err e) s h = h
Serves-given abort s h = h.sound

Serves-store_clip : (text : Bytes) (now : ℕ) → Serves (store_clip text now)
unfolding store_clip
Serves-store_clip text now s =
    Serves-bind _ _
      (Serves-on_store _
        (Keeps-expect_ok _ (clip (is_partial_of_last s.last_text s.last_text_time now text))))
      (λ hash s' h. h) s
  where
    clip :
        (b : Bool) → Keeps (On IsFree) (if b then cs_replace newest_first 0 text else cs_add text)
    clip true = Keeps-cs_replace newest_first 0 text
    clip false = Keeps-cs_add text

Serves-own_selection :
    (cfg : Config) (sels : Atoms) (atom hash : ℕ) → Serves (own_selection cfg sels atom hash)
unfolding own_selection
Serves-own_selection cfg sels atom hash =
    Serves-bind _ _ (Serves-given (storage_atom_to_selection_type atom sels))
      (λ sel s h. ground (arith, h))

Serves-handle_text :
    (cfg : Config) (sels : Atoms) (atom : ℕ) (text : Option Bytes) (now : ℕ)
    → Serves (handle_text cfg sels atom text now)
unfolding handle_text
Serves-handle_text cfg sels atom none now s h = h.sound
Serves-handle_text cfg sels atom (some text) now s h =
    Serves-if (is_salient_text text) _ _
      (Serves-bind _ _ (Serves-store_clip text now) (λ hash.
        Serves-bind _ _ (Serves-on_store (maybe_trim cfg) (Keeps-maybe_trim cfg))
          (λ _. Serves-own_selection cfg sels atom hash)))
      (λ s h. h) s h

Serves-handle_property_notify :
    (cfg : Config) (sels : Atoms) (atom : ℕ) (new_value : Bool) (text : Option Bytes) (now : ℕ)
    → Serves (handle_property_notify cfg sels atom new_value text now)
unfolding handle_property_notify
Serves-handle_property_notify cfg sels atom new_value text now =
    Serves-if (not (is_some (find_atom sels.storage atom all_selections)) || not new_value)
      (raise einval) (handle_text cfg sels atom text now) (λ s h. h)
      (Serves-handle_text cfg sels atom text now)

Serves-handle_xfixes :
    (cfg : Config) (sels : Atoms) (win_title : Option Bytes) (selection : ℕ)
    → Serves (handle_xfixes_selection_notify cfg sels win_title selection)
unfolding handle_xfixes_selection_notify
Serves-handle_xfixes cfg sels win_title selection =
    Serves-if (is_clipserve win_title) (pure tt) _ (λ s h. h)
      (Serves-bind (given (is_ignored_window cfg win_title)) _
        (Serves-given (is_ignored_window cfg win_title))
        (λ ignored.
          Serves-if ignored (pure tt) _ (λ s h. h)
            (Serves-bind (given (selection_atom_to_selection_type selection sels)) _
              (Serves-given (selection_atom_to_selection_type selection sels)) (λ sel s h. h))))

Serves-handle_selection_notify :
    (sels : Atoms) (property_none : Bool) (selection : ℕ)
    → Serves (handle_selection_notify sels property_none selection)
unfolding handle_selection_notify
Serves-handle_selection_notify sels property_none selection =
    Serves-if property_none
      (do _ ← given (selection_atom_to_selection_type selection sels); raise enoent) (pure tt)
      (Serves-bind (given (selection_atom_to_selection_type selection sels)) (λ _. raise enoent)
        (Serves-given (selection_atom_to_selection_type selection sels)) (λ sel s h. h))
      (λ s h. h)

Stays-goes_on : (o : Outcome (Unit {0}) × Daemon) → Stays o → Stays (goes_on_if_ok o.0, o.1)
Stays-goes_on (ok a, s) h = h
Stays-goes_on (err e, s) h = h
Stays-goes_on (abort, s) h = h

Stays-returns : (o : Outcome (Unit {0}) × Daemon) → Stays o → Stays (returns_if_ok o.0, o.1)
Stays-returns (ok a, s) h = h
Stays-returns (err e, s) h = h
Stays-returns (abort, s) h = h

pub Serves-handle_one :
    (cfg : Config) (sels : Atoms) (evt : XEvent) → Serves (handle_one cfg sels evt)
unfolding handle_one
Serves-handle_one cfg sels (xfixes_selection_notify win_title selection) s h =
    Stays-goes_on (handle_xfixes_selection_notify cfg sels win_title selection s)
      (Serves-handle_xfixes cfg sels win_title selection s h)
Serves-handle_one cfg sels (property_notify atom new_value text now) s h =
    Stays-returns (handle_property_notify cfg sels atom new_value text now s)
      (Serves-handle_property_notify cfg sels atom new_value text now s h)
Serves-handle_one cfg sels (selection_notify property_none selection) s h =
    Stays-goes_on (handle_selection_notify sels property_none selection s)
      (Serves-handle_selection_notify sels property_none selection s h)
Serves-handle_one cfg sels other_event s h = h
