-- ===== src/Store/Faults/World.antt =====
-- Processes that share a clip store, with system calls that fail: a process that an expect() ends is
-- gone, and the kernel gives its lock back.
use clipmenu.Prelude.{
  ℕ, ◌≡◌, refl, sym, subst, inl, inr, Bool, false, Option, none, some, List, [], ◌∷◌, ◌==◌,
  if◌then◌else◌, Bool-cases,
}
use clipmenu.Machine.{SnipFile, ClipStore, Fate, Sys, Outcome, ok, err, abort}
use clipmenu.Store.State.{Dir}
use clipmenu.Store.Lock.{cs_init}
use clipmenu.Store.Ops.{cs_len}
use clipmenu.Store.Clips.History.{Op, add, replace, trim, remove, do_op, stateless}
use clipmenu.Store.Faults.{IsSound, IsMapped, IsFree, On, Ends, Keeps, Keeps-bind}
use clipmenu.Store.Faults.Start.{IsShared, Ready, cs_init-Ready}
use clipmenu.Store.Faults.Ops.{
  Keeps-pure, Keeps-cs_add, Keeps-cs_remove, Keeps-cs_trim, Keeps-cs_replace, Keeps-cs_len,
}

-- What a process does next. `open_store` is cs_init() with its two descriptors.
pub data Event : Type 0 where
  open_store : ℕ → ℕ → Event
  change : Op → Event
  ask_len : Event
  exit : Event

-- The shared files and lock; `none` for a process that has no clip store open.
pub record World : Type 0 where
  pub file : SnipFile
  pub dir : Dir
  pub locked : Bool
  pub procs : ℕ → Option ClipStore

-- A structure that nothing has been written to.
abbrev blank : ClipStore
blank = record {
  snip_fd = 0;
  content_dir_fd = 0;
  mapped = 0;
  refcount = 0;
  local_nr_snips = 0;
  local_nr_snips_alloc = 0;
  ready = false;
}

abbrev entering : World → List Fate → ClipStore → Sys
entering w fates c = record { file = w.file; dir = w.dir; fates = fates; locked = w.locked; cs = c }

abbrev left_by : ℕ → Bool → Option ClipStore → World → Sys → World
left_by p locked c w s = record {
  file = s.file;
  dir = s.dir;
  locked = locked;
  procs = λ q. if q == p then c else w.procs q;
}

-- The world after a call of `p`; a process whose cs_init() fails has no clip store.
abbrev after_init : ℕ → World → Outcome (Unit {0}) × Sys → World
after_init p w (ok a, s) = left_by p s.locked (some s.cs) w s
after_init p w (err e, s) = left_by p s.locked none w s
after_init p w (abort, s) = left_by p false none w s

abbrev after_call : {A : Type 0} → ℕ → World → Outcome A × Sys → World
after_call p w (ok a, s) = left_by p s.locked (some s.cs) w s
after_call p w (err e, s) = left_by p s.locked (some s.cs) w s
after_call p w (abort, s) = left_by p false none w s

-- A call by a process with this clip store, and these fates of its system calls.
abbrev happens_to : Option ClipStore → ℕ → Event → List Fate → World → World
happens_to none p (open_store snip_fd content_dir_fd) fates w =
    after_init p w (cs_init snip_fd content_dir_fd (entering w fates blank))
happens_to none p e fates w = w
happens_to (some c) p (change op) fates w = after_call p w (do_op op (entering w fates c))
happens_to (some c) p ask_len fates w = after_call p w (cs_len (entering w fates c))
happens_to (some c) p exit fates w = left_by p w.locked none w (entering w fates c)
happens_to (some c) p (open_store a b) fates w = w

abbrev pub happens : ℕ → Event → List Fate → World → World
happens p e fates w = happens_to (w.procs p) p e fates w

abbrev pub all_happen : List (ℕ × Event × List Fate) → World → World
all_happen [] w = w
all_happen ((p, e, fates) ∷ events) w = all_happen events (happens p e fates w)

-- A process is between two calls, with its structure in order.
abbrev IsRunning : Option ClipStore → Type 0
IsRunning none = Unit
IsRunning (some c) = IsMapped c × (c.refcount ≡ 0)

-- The snip file is sound, nobody holds the lock, and every process is in order.
pub record Stands (w : World) : Type 0 where
  pub sound : IsSound w.file
  pub unlocked : w.locked ≡ false
  pub running : (p : ℕ) → IsRunning (w.procs p)

left_by-Stands :
    (p : ℕ) (c : Option ClipStore) (w : World) (s : Sys)
    → Stands w
    → IsSound s.file
    → IsRunning c
    → Stands (left_by p false c w s)
left_by-Stands p c w s st sound r = record {
  sound = sound;
  unlocked = refl;
  running = λ q. elim (Bool-cases (q == p)) [ inl e ↦ rw e r | inr e ↦ rw e (st.running q) ];
}

free-Stands :
    (p : ℕ) (w : World) (s : Sys)
    → Stands w
    → On IsFree s
    → Stands (left_by p s.locked (some s.cs) w s)
free-Stands p w s st h =
    subst (λ l. Stands (left_by p l (some s.cs) w s)) (sym h.unlocked)
      (left_by-Stands p (some s.cs) w s st h.sound (h.mapped, h.no_ref))

module _ (p : ℕ) (w : World) (st : Stands w) where
  after_call-Stands :
      {A : Type 0} (o : Outcome A × Sys)
      → Ends (λ _. On IsFree) (On IsFree) o
      → Stands (after_call p w o)
  after_call-Stands (ok a, s) h = free-Stands p w s st h
  after_call-Stands (err e, s) h = free-Stands p w s st h
  after_call-Stands (abort, s) h = left_by-Stands p none w s st h tt

  after_init-Stands :
      (o : Outcome (Unit {0}) × Sys) → Ends (λ _. Ready) (On IsShared) o → Stands (after_init p w o)
  after_init-Stands (ok a, s) h = free-Stands p w s st h.0
  after_init-Stands (err e, s) h =
      subst (λ l. Stands (left_by p l none w s)) (sym h.unlocked)
        (left_by-Stands p none w s st h.sound tt)
  after_init-Stands (abort, s) h = left_by-Stands p none w s st h tt

Keeps-do_op : (op : Op) → Keeps (On IsFree) (do_op op)
Keeps-do_op (add t) = Keeps-bind (On IsFree) _ _ (Keeps-cs_add t) (λ _. Keeps-pure (On IsFree) tt)
Keeps-do_op (replace direction age t) =
    Keeps-bind (On IsFree) _ _ (Keeps-cs_replace direction age t) (λ _. Keeps-pure (On IsFree) tt)
Keeps-do_op (trim direction n) = Keeps-cs_trim direction n
Keeps-do_op (remove should direction) = Keeps-cs_remove (stateless should) direction tt

happens_to-Stands :
    (c : Option ClipStore) (p : ℕ) (e : Event) (fates : List Fate) (w : World)
    → Stands w
    → IsRunning c
    → Stands (happens_to c p e fates w)
happens_to-Stands none p (open_store a b) fates w st r =
    after_init-Stands p w st (cs_init a b (entering w fates blank)) (
      cs_init-Ready a b (entering w fates blank)
        (record { sound = st.sound; unlocked = st.unlocked }))
happens_to-Stands none p (change op) fates w st r = st
happens_to-Stands none p ask_len fates w st r = st
happens_to-Stands none p exit fates w st r = st
happens_to-Stands (some c) p (open_store a b) fates w st r = st
happens_to-Stands (some c) p (change op) fates w st r =
    after_call-Stands p w st (do_op op (entering w fates c)) (
      Keeps-do_op op (entering w fates c)
        (record { sound = st.sound; mapped = r.0; no_ref = r.1; unlocked = st.unlocked }))
happens_to-Stands (some c) p ask_len fates w st r =
    after_call-Stands p w st (cs_len (entering w fates c)) (
      Keeps-cs_len (entering w fates c)
        (record { sound = st.sound; mapped = r.0; no_ref = r.1; unlocked = st.unlocked }))
happens_to-Stands (some c) p exit fates w st r =
    subst (λ l. Stands (left_by p l none w (entering w fates c))) (sym st.unlocked)
      (left_by-Stands p none w (entering w fates c) st st.sound tt)

-- Whatever the processes do and whichever of their system calls fail, at each point between two
-- calls the snip file is sound, the lock is free, and every process that has the store open has
-- mapped what it knows of.
pub all_happen-Stands :
    (events : List (ℕ × Event × List Fate)) (w : World) → Stands w → Stands (all_happen events w)
all_happen-Stands [] w st = st
all_happen-Stands ((p, e, fates) ∷ events) w st =
    all_happen-Stands events (happens p e fates w)
      (happens_to-Stands (w.procs p) p e fates w st (st.running p))
