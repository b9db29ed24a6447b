-- ===== src/Daemon/Service.antt =====
-- The life of the daemon, main of src/clipmenud.c, whatever system calls of the store fail and whatever
-- other processes make of the shared files, as long as they leave the snip file sound.
use clipmenu.Prelude.{
  ℕ, ◌≡◌, inl, inr, Bool, true, false, ◌&&◌, Option, none, some, List, [], ◌∷◌, ◌==◌, if◌then◌else◌,
  Bool-cases, All,
}
use clipmenu.Machine.{SnipFile, Sys, Outcome, ok, err, abort, expect_ok}
use clipmenu.Machine.Calls.{munmap}
use clipmenu.Store.State.{Dir}
use clipmenu.Store.Lock.{cs_init, cs_destroy, set_ready}
use clipmenu.Store.Faults.{
  IsSound, IsFree, On, Ends, Ends-call, Ends-checked, Ends-expect, Ends-weaken,
}
use clipmenu.Store.Faults.Start.{IsShared, cs_init-Ready}
use clipmenu.Daemon.Selections.{Selection, Atoms, all_selections, setup_selections}
use clipmenu.Daemon.{Config, Daemon, D, after}
use clipmenu.Daemon.Handlers.{StatusCalls, not_opened, not_written, written, write_status, Handled}
use clipmenu.Daemon.Loop.{get_one_clip}
use clipmenu.Daemon.Keeps.{Ready}
use clipmenu.Daemon.Keeps.Loop.{ClipStays, get_one_clip-Stays}
use clipmenu.Daemon.Startup.{
  Round, changed, Running, begin, Progress, ignored, then_loop, one_clip, run, watch, watch_all,
  setup_watches, Start, Settings, die_unless, init_store, start_daemon, end_daemon, started, main,
}

-- Other processes leave a sound file.
abbrev pub SaneFiles : Option (SnipFile × Dir) → Type 0
SaneFiles none = Unit
SaneFiles (some (file, dir)) = IsSound file

abbrev pub Sane : List Round → Type 0
Sane = All (λ round. SaneFiles round.files)

-- What holds of the daemon as long as it runs, and of the file if it ends.
abbrev pub Lives : (Running → Type 0) → Progress → Type 0
Lives P none = Unit
Lives P (some (ok _, r)) = P r
Lives P (some (err e, r)) = On IsShared r.daemon.store
Lives P (some (abort, r)) = IsSound r.daemon.store.file

abbrev pub Serving : Running → Type 0
Serving r = Ready r.daemon

Ready-begin : (round : Round) (s : Daemon) → SaneFiles round.files → Ready s → Ready (begin round s)
Ready-begin round s sane h = by_files round.files sane
  where
    by_files :
        (files : Option (SnipFile × Dir))
        → SaneFiles files
        → On IsFree (record (changed files s.store) { fates = round.fates })
    by_files none sane = h
    by_files (some (file, dir)) sane = record {
      sound = sane;
      mapped = h.mapped;
      no_ref = h.no_ref;
      unlocked = h.unlocked;
    }

Lives-ignored : (r : Running) (o : Option Handled) → ClipStays o → Lives Serving (ignored r o)
Lives-ignored r none h = tt
Lives-ignored r (some (ok a, pending, s)) h = h
Lives-ignored r (some (err e, pending, s)) h = h
Lives-ignored r (some (abort, pending, s)) h = h

Lives-then_loop :
    (P : Running → Type 0) (p : Progress) (loop : Running → Progress)
    → Lives Serving p
    → ((r : Running) → Serving r → Lives P (loop r))
    → Lives P (then_loop p loop)
Lives-then_loop P none loop h lives = tt
Lives-then_loop P (some (ok a, r)) loop h lives = lives r h
Lives-then_loop P (some (err e, r)) loop h lives = h
Lives-then_loop P (some (abort, r)) loop h lives = h

module _ (cfg : Config) (sels : Atoms) where
  Lives-one_clip :
      (round : Round) (r : Running)
      → SaneFiles round.files
      → Serving r
      → Lives Serving (one_clip cfg sels round r)
  Lives-one_clip round r sane h =
      Lives-ignored r (get_one_clip cfg sels r.pending round.wakes (begin round r.daemon)) (
        get_one_clip-Stays cfg sels r.pending round.wakes (begin round r.daemon)
          (Ready-begin round r.daemon sane h))

  Lives-run :
      (rounds : List Round) (r : Running)
      → Sane rounds
      → Serving r
      → Lives Serving (run cfg sels rounds r)
  unfolding run
  Lives-run [] r sane h = h
  Lives-run (round ∷ rounds) r sane h =
      Lives-then_loop Serving (one_clip cfg sels round r) (run cfg sels rounds)
        (Lives-one_clip round r sane.0 h) (λ r' h'. Lives-run rounds r' sane.1 h')

  Lives-watch_all :
      (P : Running → Type 0) (active : Selection → Bool) (more : List Selection)
      (rounds : List Round) (next : List Round → Running → Progress) (r : Running)
      → ((rounds' : List Round) (r' : Running)
          → Sane rounds'
          → Serving r'
          → Lives P (next rounds' r'))
      → Sane rounds
      → Serving r
      → Lives P (watch_all cfg sels active more rounds next r)
  unfolding watch_all
  Lives-watch_all P active [] rounds next r lives sane h = lives rounds r sane h
  Lives-watch_all P active (sel ∷ more) [] next r lives sane h = elim (Bool-cases (active sel)) [
    | inl e ↦ rw e tt
    | inr e ↦ rw e (Lives-watch_all P active more [] next r lives sane h)
  ]
  Lives-watch_all P active (sel ∷ more) (round ∷ rounds) next r lives sane h =
      elim (Bool-cases (active sel)) [
        | inr e ↦ rw e (Lives-watch_all P active more (round ∷ rounds) next r lives sane h)
        | inl e ↦ rw e (
            Lives-then_loop P (one_clip cfg sels round (watch cfg sels sel r))
              (watch_all cfg sels active more rounds next)
              (Lives-one_clip round (watch cfg sels sel r) sane.0 h)
              (λ r' h'. Lives-watch_all P active more rounds next r' lives sane.1 h'))
      ]

cs_destroy-IsShared : (s : Sys) → On IsFree s → Ends (λ _. On IsShared) (On IsShared) (cs_destroy s)
unfolding cs_destroy munmap
cs_destroy-IsShared s h =
    Ends-checked (λ _. On IsShared) (On IsShared) _
      (Ends-call IsShared (λ _. On IsShared) _ (set_ready false s)
        (λ gs. record { sound = h.sound; unlocked = h.unlocked })
        (record { sound = h.sound; unlocked = h.unlocked }))

abbrev Shared : Running → Type 0
Shared r = On IsShared r.daemon.store

-- What the start comes to: a daemon that is ready, or the end of the process.
abbrev Starts : Outcome (Unit {0}) × Daemon → Type 0
Starts (ok _, s) = Ready s
Starts (err e, s) = On IsShared s.store
Starts (abort, s) = IsSound s.store.file

Starts-die_unless :
    (b : Bool) (k : Unit {0} → D (Unit {0})) (s : Daemon)
    → IsSound s.store.file
    → Starts (k tt s)
    → Starts (after (die_unless b s).0 k (die_unless b s).1)
Starts-die_unless true k s sound h = h
Starts-die_unless false k s sound h = sound

Starts-store :
    (o : Outcome (Unit {0}) × Sys) (s : Daemon)
    → Ends (λ _. On IsFree) (On IsShared) o
    → Starts (o.0, record s { store = o.1 })
Starts-store (ok a, t) s h = h
Starts-store (err e, t) s h = h
Starts-store (abort, t) s h = h

Starts-init_store :
    (snip_fd content_dir_fd : Option ℕ) (s : Daemon)
    → On IsShared s.store
    → Starts (init_store snip_fd content_dir_fd s)
Starts-init_store (some a) (some b) s h = Starts-store (expect_ok (cs_init a b) s.store) s (
    Ends-expect (λ _. On IsFree) (On IsShared) (On IsShared) (cs_init a b s.store)
      (λ t h'. h'.sound)
      (Ends-weaken (λ _ t. On IsFree t × (t.cs.ready ≡ true)) (On IsShared) (λ _. On IsFree)
        (On IsShared) (cs_init a b s.store) (λ _ t h'. h'.0) (λ t h'. h')
        (cs_init-Ready a b s.store h)))
Starts-init_store (some a) none s h = h.sound
Starts-init_store none b s h = h.sound

Starts-after :
    (b : Bool) (o : Outcome (Unit {0}) × Daemon)
    → Starts o
    → Starts (after o.0 (λ _. die_unless b) o.1)
Starts-after true (ok a, s) h = h
Starts-after false (ok a, s) h = h.sound
Starts-after b (err e, s) h = h
Starts-after b (abort, s) h = h

Starts-status :
    (calls : StatusCalls) (k : D (Unit {0})) (s : Daemon)
    → On IsShared s.store
    → ((s' : Daemon) → On IsShared s'.store → Starts (k s'))
    → Starts (after (write_status calls s).0 (λ _. k) (write_status calls s).1)
unfolding write_status
Starts-status not_opened k s h starts = h.sound
Starts-status not_written k s h starts = starts s h
Starts-status written k s h starts = starts _ h

start_daemon-Starts :
    (start : Start) (s : Daemon) → On IsShared s.store → Starts (start_daemon start s)
unfolding start_daemon
start_daemon-Starts start s h = Starts-die_unless (start.argc == 1) _ s h.sound (
    Starts-status start.status _ s h (λ s' h'.
      Starts-after (start.display && start.signals && start.xfixes)
        (init_store start.snip_fd start.content_dir_fd s')
        (Starts-init_store start.snip_fd start.content_dir_fd s' h')))

Lives-started :
    (P : Running → Type 0) (o : Outcome (Unit {0}) × Daemon) (next : Running → Progress)
    → Starts o
    → ((r : Running) → Serving r → Lives P (next r))
    → Lives P (started o next)
Lives-started P (ok a, s) next h lives = lives _ h
Lives-started P (err e, s) next h lives = h
Lives-started P (abort, s) next h lives = h

Lives-destroyed :
    (o : Outcome (Unit {0}) × Sys) (r : Running)
    → Ends (λ _. On IsShared) (On IsShared) o
    → Lives Shared (some (o.0, record r { daemon = record (r.daemon) { store = o.1 } }))
Lives-destroyed (ok a, t) r h = h
Lives-destroyed (err e, t) r h = h
Lives-destroyed (abort, t) r h = h

Lives-end_daemon : (r : Running) → Serving r → Lives Shared (end_daemon r)
unfolding end_daemon
Lives-end_daemon r h = Lives-destroyed (expect_ok cs_destroy r.daemon.store) r (
    Ends-expect (λ _. On IsShared) (On IsShared) (On IsShared) (cs_destroy r.daemon.store)
      (λ t h'. h'.sound) (cs_destroy-IsShared r.daemon.store h))

-- A daemon that goes on is between two calls of its store, and one that ends after the first clips
-- leaves a sound file with its lock free.
abbrev pub Kept : Bool → Running → Type 0
Kept true r = On IsShared r.daemon.store
Kept false r = Ready r.daemon

-- Whatever happens at the start and in any number of rounds, none of which waits for ever, whichever
-- system calls of the store fail, and whatever other processes make of the files before each round,
-- as long as they leave the snip file sound: the daemon is between two calls of its store after the
-- rounds, with its lock free; with the option `oneshot` it has ended with the lock free; or it has
-- been ended by a failure, and then the snip file is still sound.
pub main-Lives :
    (cfg : Settings) (start : Start) (rounds : List Round) (s : Daemon)
    → On IsShared s.store
    → Sane rounds
    → Lives (Kept cfg.oneshot) (main cfg start rounds s)
unfolding main setup_watches
main-Lives cfg start rounds s h sane =
    Lives-started (Kept cfg.oneshot) (start_daemon start s) _ (start_daemon-Starts start s h)
      (λ r h'.
        Lives-watch_all cfg.config (setup_selections start.intern_atom) (Kept cfg.oneshot)
          cfg.active all_selections rounds _ r (ends cfg.oneshot) sane h')
  where
    ends :
        (oneshot : Bool) (rounds' : List Round) (r' : Running)
        → Sane rounds'
        → Serving r'
        → Lives (Kept oneshot) (
            if oneshot
            then end_daemon r'
            else run cfg.config (setup_selections start.intern_atom) rounds' r')
    ends true rounds' r' sane' h' = Lives-end_daemon r' h'
    ends false rounds' r' sane' h' =
        Lives-run cfg.config (setup_selections start.intern_atom) rounds' r' sane' h'
