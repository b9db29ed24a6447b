-- ===== src/Daemon.antt =====
-- The daemon, src/clipmenud.c: its state, and its handlers of signals and of X events. What the X
-- server, the clock and the regular expressions answer comes with the events and the configuration.
pub mod Selections
pub mod Handlers
pub mod Storing
pub mod Ignoring
pub mod Loop
pub mod Keeps
pub mod Startup
pub mod Service
pub mod ServiceTests
pub mod Tests
use clipmenu.Prelude.{ℕ, Bool, Option, List}
use clipmenu.Text.{Bytes}
use clipmenu.Machine.{Sys, Outcome, ok, err, abort, M}
use Selections.{Selection, Atoms}

-- What the daemon reads of struct config; `ignore_window` is its compiled expression, if one is set,
-- as what regexec() says of a title, `none` for an error.
pub record Config : Type 0 where
  pub max_clips : ℕ
  pub max_clips_batch : ℕ
  pub own_clipboard : Bool
  pub owned : Selection → Bool
  pub ignore_window : Option (Bytes → Option Bool)

-- The static variables; `status` is the file that get_enabled_path() names, `converting` the
-- selections that XConvertSelection() was called for, and `serving` the hashes of run_clipserve(),
-- the latest first.
pub record Daemon : Type 0 where
  pub store : Sys
  pub enabled : Bool
  pub status : Bytes
  pub last_text : Option Bytes
  pub last_text_time : ℕ
  pub converting : List Selection
  pub serving : List ℕ

-- An event with what the calls that its handler makes return: the window title of the new owner, or
-- the text of the property and the time.
pub data XEvent : Type 0 where
  xfixes_selection_notify : Option Bytes → ℕ → XEvent
  property_notify : ℕ → Bool → Option Bytes → ℕ → XEvent
  selection_notify : Bool → ℕ → XEvent
  other_event : XEvent

-- Actions on the daemon. `err e` is the result -e, and `abort` the end of the process.
abbrev pub D : Type 0 → Type 0
D A = Daemon → Outcome A × Daemon

abbrev pub after : {A B : Type 0} → Outcome A → (A → D B) → D B
after (ok a) f s = f a s
after (err e) f s = (err e, s)
after abort f s = (abort, s)

infixl 5 ◌>>=◌ ◌>>◌
abbrev pub ◌>>=◌ : {A B : Type 0} → D A → (A → D B) → D B
◌>>=◌ m f s = let (r, s') = m s in after r f s'

abbrev pub ◌>>◌ : {A B : Type 0} → D A → D B → D B
m >> k = m >>= λ _. k

abbrev pub pure : {A : Type 0} → A → D A
pure a s = (ok a, s)

abbrev pub raise : {A : Type 0} → ℕ → D A
raise e s = (err e, s)

-- An action on the clip store.
abbrev pub on_store : {A : Type 0} → M A → D A
on_store m s = let (r, t) = m s.store in (r, record s { store = t })
