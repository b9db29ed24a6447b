-- ===== src/Daemon/Handlers.antt =====
-- src/clipmenud.c: is_clipserve, is_ignored_window, write_status, the handlers of signals and
-- events, maybe_trim, store_clip and the loop over the pending X events.
use clipmenu.Prelude.{
  ℕ, ◌+◌, ◌%◌, ◌^◌, Bool, true, false, not, ◌&&◌, ◌||◌, Option, none, some, List, [], ◌∷◌, ◌++◌,
  ltb, leb, ◌==◌, if◌then◌else◌, length, drop,
}
use clipmenu.Text.{Bytes, codes, streq, is_possible_partial, is_salient_text}
use clipmenu.Machine.{Outcome, ok, err, abort, M, expect_ok, enoent, einval}
use clipmenu.Store.Snips.{newest_first}
use clipmenu.Store.Ops.{cs_add, cs_replace, cs_trim, cs_len}
use clipmenu.Daemon.Selections.{
  Selection, Atoms, all_selections, find_atom, or_die, selection_atom_to_selection_type,
  storage_atom_to_selection_type,
}
use clipmenu.Daemon.{
  Config, Daemon, XEvent, xfixes_selection_notify, property_notify, selection_notify, other_event,
  D, ◌>>=◌, ◌>>◌, pure, raise, on_store,
}

abbrev pub einprogress : ℕ
einprogress = 115

unfoldable pub is_clipserve : Option Bytes → Bool
is_clipserve none = false
is_clipserve (some win_title) = streq win_title (codes "clipserve")

abbrev matches : Option (Bytes → Option Bool) → Bytes → Option Bool
matches none win_title = some false
matches (some rgx) win_title = rgx win_title

unfoldable pub is_ignored_window : Config → Option Bytes → Outcome Bool
is_ignored_window cfg none = ok false
is_ignored_window cfg (some win_title) = or_die (matches cfg.ignore_window win_title)

-- dprintf(fd, "%d", enabled) at the start of a file that is not truncated.
abbrev pub overwrite : Bytes → Bytes → Bytes
overwrite new old = new ++ drop (length new) old

-- What becomes of open() and of dprintf(), whose result is not looked at.
pub data StatusCalls : Type 0 where
  not_opened not_written written : StatusCalls

unfoldable pub write_status : StatusCalls → D (Unit {0})
write_status not_opened s = (abort, s)
write_status not_written s = (ok tt, s)
write_status written s =
    (ok tt, record s { status = overwrite (if s.enabled then codes "1" else codes "0") s.status })

abbrev pub sigusr1 : ℕ
sigusr1 = 10

abbrev pub sigusr2 : ℕ
sigusr2 = 12

abbrev pub switched : ℕ → Bool → Bool
switched signo enabled =
    if signo == sigusr1 then false else if signo == sigusr2 then true else enabled

-- The signal that read() gives, `none` where it does not give one whole.
unfoldable pub handle_signalfd_event : Option ℕ → StatusCalls → D (Unit {0})
unfolding write_status
handle_signalfd_event none calls s = (abort, s)
handle_signalfd_event (some signo) calls s =
    (do λ s'. (ok tt, record s' { enabled = switched signo s'.enabled }); write_status calls) s

-- (int)cur_clips > cfg.max_clips_batch
abbrev pub int_gt : ℕ → ℕ → Bool
int_gt cur_clips batch = let w = cur_clips % 2 ^ 32 in ltb w (2 ^ 31) && ltb batch w

-- What follows cs_len().
abbrev pub trim_after : Config → Outcome ℕ → M (Unit {0})
trim_after cfg (ok cur_clips) s =
    (if int_gt cur_clips cfg.max_clips_batch
        then expect_ok (cs_trim newest_first cfg.max_clips)
        else λ t. (ok tt, t))
      s
trim_after cfg (err e) s = (err e, s)
trim_after cfg abort s = (abort, s)

unfoldable pub maybe_trim : Config → M (Unit {0})
maybe_trim cfg s = let (r, s') = expect_ok cs_len s in trim_after cfg r s'

abbrev pub partial_max_secs : ℕ
partial_max_secs = 2

-- last_text && difftime(current_time, last_text_time) <= 2 && is_possible_partial(last_text, text)
unfoldable pub is_partial_of_last : Option Bytes → ℕ → ℕ → Bytes → Bool
is_partial_of_last none last_time now text = false
is_partial_of_last (some last) last_time now text =
    leb now (last_time + partial_max_secs) && is_possible_partial last text

unfoldable pub store_clip : Bytes → ℕ → D ℕ
unfolding is_partial_of_last
store_clip text now s =
    (do
      hash ← on_store (
          expect_ok (
            if is_partial_of_last s.last_text s.last_text_time now text
            then cs_replace newest_first 0 text
            else cs_add text))
      λ s'. (ok hash, record s' { last_text = some text; last_text_time = now }))
      s

-- A `do` block of this outcome.
abbrev pub given : {A : Type 0} → Outcome A → D A
given r s = (r, s)

unfoldable pub handle_xfixes_selection_notify : Config → Atoms → Option Bytes → ℕ → D (Unit {0})
handle_xfixes_selection_notify cfg sels win_title selection =
    if is_clipserve win_title then pure tt else do
      ignored ← given (is_ignored_window cfg win_title)
      if ignored then pure tt else do
        sel ← given (selection_atom_to_selection_type selection sels)
        λ s. (ok tt, record s { converting = sel ∷ s.converting })

unfoldable pub handle_selection_notify : Atoms → Bool → ℕ → D (Unit {0})
handle_selection_notify sels property_none selection =
    if property_none
    then (do _ ← given (selection_atom_to_selection_type selection sels); raise enoent)
    else pure tt

-- The clipboard is taken over for the selections that are to be owned.
unfoldable pub own_selection : Config → Atoms → ℕ → ℕ → D (Unit {0})
own_selection cfg sels atom hash = do
  sel ← given (storage_atom_to_selection_type atom sels)
  λ s.
      if cfg.owned sel && cfg.own_clipboard
      then (ok tt, record s { serving = hash ∷ s.serving })
      else (ok tt, s)

-- `none` is a NULL from get_clipboard_text(), which first_line() reads through.
unfoldable pub handle_text : Config → Atoms → ℕ → Option Bytes → ℕ → D (Unit {0})
unfolding own_selection
handle_text cfg sels atom none now s = (abort, s)
handle_text cfg sels atom (some text) now s =
    (if is_salient_text text
        then (do
          hash ← store_clip text now
          on_store (maybe_trim cfg)
          own_selection cfg sels atom hash)
        else pure tt)
      s

abbrev pub is_some : Option Selection → Bool
is_some none = false
is_some (some sel) = true

unfoldable pub handle_property_notify : Config → Atoms → ℕ → Bool → Option Bytes → ℕ → D (Unit {0})
handle_property_notify cfg sels atom new_value text now =
    if not (is_some (find_atom sels.storage atom all_selections)) || not new_value
    then raise einval
    else handle_text cfg sels atom text now

-- One round of the loop over the pending events: `true` says that the loop returns 0.
abbrev pub returns_if_ok : Outcome (Unit {0}) → Outcome Bool
returns_if_ok (ok _) = ok true
returns_if_ok (err e) = ok false
returns_if_ok abort = abort

abbrev pub goes_on_if_ok : Outcome (Unit {0}) → Outcome Bool
goes_on_if_ok (ok _) = ok false
goes_on_if_ok (err e) = err e
goes_on_if_ok abort = abort

unfoldable pub handle_one : Config → Atoms → XEvent → D Bool
handle_one cfg sels (xfixes_selection_notify win_title selection) s =
    let (r, s') = handle_xfixes_selection_notify cfg sels win_title selection s in
    (goes_on_if_ok r, s')
handle_one cfg sels (property_notify atom new_value text now) s =
    let (r, s') = handle_property_notify cfg sels atom new_value text now s in (returns_if_ok r, s')
handle_one cfg sels (selection_notify property_none selection) s =
    let (r, s') = handle_selection_notify sels property_none selection s in (goes_on_if_ok r, s')
handle_one cfg sels other_event s = (ok false, s)

-- The result, the events still pending, and the state.
abbrev pub Handled : Type 0
Handled = Outcome (Unit {0}) × List XEvent × Daemon

abbrev pub decide : Outcome Bool → List XEvent → (Daemon → Handled) → Daemon → Handled
decide (ok true) rest loop s = (ok tt, rest, s)
decide (ok false) rest loop s = loop s
decide (err e) rest loop s = (err e, rest, s)
decide abort rest loop s = (abort, rest, s)

unfoldable pub handle_x11_event : Config → Atoms → List XEvent → Daemon → Handled
handle_x11_event cfg sels [] s = (err einprogress, [], s)
handle_x11_event cfg sels (evt ∷ rest) s = elim s.enabled [
  | false ↦ handle_x11_event cfg sels rest s
  | true ↦
      let (r, s') = handle_one cfg sels evt s in decide r rest (handle_x11_event cfg sels rest) s'
]
