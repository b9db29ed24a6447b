-- ===== src/Daemon/Startup.antt =====
-- setup_watches, run and main of src/clipmenud.c. What the calls of the libraries and of the kernel
-- give at the start comes as a record, and what happens later round by round.
use clipmenu.Prelude.{
  ℕ, Bool, true, false, ◌&&◌, Option, none, some, List, [], ◌∷◌, ◌==◌, if◌then◌else◌,
}
use clipmenu.Text.{Bytes}
use clipmenu.Machine.{SnipFile, Fate, Sys, Outcome, ok, err, abort, expect_ok}
use clipmenu.Store.State.{Dir}
use clipmenu.Store.Lock.{cs_init, cs_destroy}
use clipmenu.Daemon.Selections.{Selection, Atoms, all_selections, setup_selections}
use clipmenu.Daemon.{Config, Daemon, XEvent, D, ◌>>◌, on_store}
use clipmenu.Daemon.Handlers.{StatusCalls, write_status, Handled}
use clipmenu.Daemon.Loop.{Wake, get_one_clip}

-- One call of get_one_clip(): what other processes have made of the files before it, the fates of the
-- system calls in it, and what select() reports.
pub record Round : Type 0 where
  pub files : Option (SnipFile × Dir)
  pub fates : List Fate
  pub wakes : List Wake

abbrev pub changed : Option (SnipFile × Dir) → Sys → Sys
changed none s = s
changed (some (file, dir)) s = record s { file = file; dir = dir }

-- The daemon with the X events that are pending, and the selections that XFixesSelectSelectionInput()
-- was called for, the latest first.
pub record Running : Type 0 where
  pub daemon : Daemon
  pub pending : List XEvent
  pub watched : List Selection

abbrev pub begin : Round → Daemon → Daemon
begin round s = record s { store = record (changed round.files s.store) { fates = round.fates } }

-- `none` is a call that still waits. Its result is ignored, unless it ends the process.
abbrev pub Progress : Type 0
Progress = Option (Outcome (Unit {0}) × Running)

abbrev pub ignored : Running → Option Handled → Progress
ignored r none = none
ignored r (some (abort, pending, s)) = some (abort, record r { daemon = s; pending = pending })
ignored r (some (ok _, pending, s)) = some (ok tt, record r { daemon = s; pending = pending })
ignored r (some (err e, pending, s)) = some (ok tt, record r { daemon = s; pending = pending })

abbrev pub then_loop : Progress → (Running → Progress) → Progress
then_loop none loop = none
then_loop (some (ok _, r)) loop = loop r
then_loop (some (err e, r)) loop = some (err e, r)
then_loop (some (abort, r)) loop = some (abort, r)

module _ (cfg : Config) (sels : Atoms) where
  abbrev pub one_clip : Round → Running → Progress
  one_clip round r = ignored r (get_one_clip cfg sels r.pending round.wakes (begin round r.daemon))

  -- The state after these rounds of the endless loop.
  unfoldable pub run : List Round → Running → Progress
  run [] r = some (ok tt, r)
  run (round ∷ rounds) r = then_loop (one_clip round r) (run rounds)

  abbrev pub watch : Selection → Running → Running
  watch sel r = record r {
    daemon = record (r.daemon) { converting = sel ∷ r.daemon.converting };
    watched = sel ∷ r.watched;
  }

  -- The loop over the selections, and what follows it; with no round left it waits.
  unfoldable pub watch_all :
      (Selection → Bool)
      → List Selection
      → List Round
      → (List Round → Running → Progress)
      → Running
      → Progress
  watch_all active [] rounds next r = next rounds r
  watch_all active (sel ∷ more) [] next r =
      let rest = watch_all active more [] next r in if active sel then none else rest
  watch_all active (sel ∷ more) (round ∷ rounds) next r =
      let rest = watch_all active more (round ∷ rounds) next r in
      if active sel
      then then_loop (one_clip round (watch sel r)) (watch_all active more rounds next)
      else rest

  unfoldable pub setup_watches :
      (Selection → Bool) → List Round → (List Round → Running → Progress) → Running → Progress
  unfolding watch_all
  setup_watches active rounds next r = watch_all active all_selections rounds next r

-- The calls at the start: those for the status file, the descriptors, if they are opened, whether the display is opened and has
-- XFixes, and whether signals can be read.
pub record Start : Type 0 where
  pub argc : ℕ
  pub status : StatusCalls
  pub content_dir_fd : Option ℕ
  pub snip_fd : Option ℕ
  pub display : Bool
  pub signals : Bool
  pub xfixes : Bool
  pub intern_atom : Bytes → ℕ

-- What struct config says of the selections to watch, and whether the daemon ends after them.
pub record Settings : Type 0 where
  pub config : Config
  pub active : Selection → Bool
  pub oneshot : Bool

abbrev pub die_unless : Bool → D (Unit {0})
die_unless true s = (ok tt, s)
die_unless false s = (abort, s)

abbrev pub init_store : Option ℕ → Option ℕ → D (Unit {0})
init_store (some snip_fd) (some content_dir_fd) s =
    on_store (expect_ok (cs_init snip_fd content_dir_fd)) s
init_store (some snip_fd) none s = (abort, s)
init_store none content_dir_fd s = (abort, s)

unfoldable pub start_daemon : Start → D (Unit {0})
start_daemon start = do
  die_unless (start.argc == 1)
  write_status start.status
  init_store start.snip_fd start.content_dir_fd
  die_unless (start.display && start.signals && start.xfixes)

unfoldable pub end_daemon : Running → Progress
end_daemon r =
    let (o, s) = on_store (expect_ok cs_destroy) r.daemon in some (o, record r { daemon = s })

abbrev pub started : Outcome (Unit {0}) × Daemon → (Running → Progress) → Progress
started (ok _, s) next = next (record { daemon = s; pending = []; watched = [] })
started (err e, s) next = some (err e, record { daemon = s; pending = []; watched = [] })
started (abort, s) next = some (abort, record { daemon = s; pending = []; watched = [] })

unfoldable pub main : Settings → Start → List Round → Daemon → Progress
unfolding start_daemon setup_watches end_daemon
main cfg start rounds s =
    let sels = setup_selections start.intern_atom in
    started (start_daemon start s) (
      setup_watches cfg.config sels cfg.active rounds
        (λ rounds' r. if cfg.oneshot then end_daemon r else run cfg.config sels rounds' r))
