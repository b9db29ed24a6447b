-- ===== src/Store/Clips/History.antt =====
-- Processes that share one clip store: each has its own `struct clip_store` on the snip file and the
-- content directory, and they make the calls of src/store.c one after another.
use clipmenu.Prelude.{
  ℕ, ◌+◌, ◌<◌, ◌≡◌, refl, sym, subst, inl, inr, Bool, false, List, [], ◌∷◌, ◌++◌, ◌==◌,
  if◌then◌else◌, Bool-cases, length,
}
use clipmenu.Text.{Bytes}
use clipmenu.Machine.{SnipFile, ClipStore, Sys, Outcome, ok, err, abort, M, after, ◌>>◌, pure}
use clipmenu.Store.State.{Dir, sys, IsIdle}
use clipmenu.Store.Snips.{Direction}
use clipmenu.Store.Ops.Callbacks.{Action, Callback}
use clipmenu.Store.Ops.{cs_add, cs_replace, cs_trim, cs_remove}
use clipmenu.Store.Clips.{Represents, NoCollision, max_clips}
use clipmenu.Store.Clips.Add.{cs_add_lem}
use clipmenu.Store.Clips.Ages.{replaced_at, cs_replace_any}
use clipmenu.Store.Clips.Kept.{left}
use clipmenu.Store.Clips.Remove.{cs_remove_keeps}
use clipmenu.Store.Clips.Trim.{trimmed, cs_trim_lem}

-- A call that changes the store. The predicate of a removal has no private data here.
pub data Op : Type 0 where
  add : Bytes → Op
  replace : Direction → ℕ → Bytes → Op
  trim : Direction → ℕ → Op
  remove : (ℕ → Bytes → Action) → Direction → Op

abbrev pub stateless : (ℕ → Bytes → Action) → Callback (Unit {0})
stateless should p hash line = (should hash line, p)

abbrev pub do_op : Op → M (Unit {0})
do_op (add t) = do cs_add t; pure tt
do_op (replace direction age t) = do cs_replace direction age t; pure tt
do_op (trim direction n) = cs_trim direction n
do_op (remove should direction) = cs_remove (stateless should) direction tt

-- The shared files and lock, and the structure of each process.
pub record World : Type 0 where
  pub file : SnipFile
  pub dir : Dir
  pub locked : Bool
  pub procs : ℕ → ClipStore

-- The world after a call of process `p` that ended in `s`.
abbrev pub left_by : ℕ → World → Sys → World
left_by p w s = record {
  file = s.file;
  dir = s.dir;
  locked = s.locked;
  procs = λ q. if q == p then s.cs else w.procs q;
}

abbrev pub called : ℕ → Op → World → World
called p op w = left_by p w (do_op op (sys w.file w.dir w.locked (w.procs p))).1

abbrev pub all_called : List (ℕ × Op) → World → World
all_called [] w = w
all_called ((p, op) ∷ calls) w = all_called calls (called p op w)

-- What a call makes of the list of the texts.
abbrev pub effect : Op → List Bytes → List Bytes
effect (add t) ts = ts ++ (t ∷ [])
effect (replace direction age t) ts = replaced_at direction age t ts
effect (trim direction n) ts = trimmed direction n ts
effect (remove should direction) ts = left (stateless should) direction tt ts

abbrev pub effects : List (ℕ × Op) → List Bytes → List Bytes
effects [] ts = ts
effects ((p, op) ∷ calls) ts = effects calls (effect op ts)

-- There is room for one more text, and no other text has its hash.
abbrev pub Fits : Op → List Bytes → Type 0
Fits (add t) ts = (length ts + 1 < max_clips) × NoCollision t ts
Fits (replace direction age t) ts = NoCollision t ts
Fits (trim direction n) ts = Unit
Fits (remove should direction) ts = Unit

abbrev pub AllFit : List (ℕ × Op) → List Bytes → Type 0
AllFit [] ts = Unit
AllFit ((p, op) ∷ calls) ts = Fits op ts × AllFit calls (effect op ts)

-- The files hold these texts, nobody holds the lock, and every process is between two calls.
pub record Serves (ts : List Bytes) (w : World) : Type 0 where
  pub holds : Represents ts w.file w.dir
  pub free : w.locked ≡ false
  pub idle : (p : ℕ) → IsIdle (w.procs p)

-- One call leaves the files with the effect, its lock free and its process idle.
Done : Op → List Bytes → SnipFile → Dir → ClipStore → Type 0
Done op ts f d c =
    (r : Outcome (Unit {0})) × (f' : SnipFile) × (d' : Dir) × (c' : ClipStore) × (do_op op
        (sys f d false c)
      ≡ (r, sys f' d' false c'))
    × IsIdle c'
    × Represents (effect op ts) f' d'

-- A call whose result is not looked at.
abbrev forget : Outcome ℕ → Outcome (Unit {0})
forget (ok a) = ok tt
forget (err e) = err e
forget abort = abort

forget_lem : (o : Outcome ℕ) (s : Sys) → after o (λ _. pure tt) s ≡ (forget o, s)
forget_lem (ok a) s = refl
forget_lem (err e) s = refl
forget_lem abort s = refl

op-Done :
    (op : Op) (ts : List Bytes) (f : SnipFile) (d : Dir) (c : ClipStore)
    → Represents ts f d
    → IsIdle c
    → Fits op ts
    → Done op ts f d c
unfolding Done
op-Done (add t) ts f d c r i fits =
    let (f', d', (c', ran, idle), r') = cs_add_lem ts t f d c r i fits.0 fits.1 in
    (ok tt, f', d', c', rw ran, idle, r')
op-Done (replace direction age t) ts f d c r i fits =
    let (o, f', d', c', ran, idle, r') = cs_replace_any direction age t [] ts f d c r i fits in
    (forget o, f', d', c', rw ran (forget_lem o (sys f' d' false c')), idle, r')
op-Done (trim direction n) ts f d c r i fits =
    let (f', d', (c', ran, idle), r', _) = cs_trim_lem direction n ts f d c r i in
    (ok tt, f', d', c', ran, idle, r')
op-Done (remove should direction) ts f d c r i fits =
    let (f', d', (c', ran, idle), r', _) =
      cs_remove_keeps (stateless should) direction tt ts f d c r i in
    (_, f', d', c', ran, idle, r')

-- A call of any process has its effect on the list of the texts, for all the processes.
pub called-Serves :
    (p : ℕ) (op : Op) (ts : List Bytes) (w : World)
    → Serves ts w
    → Fits op ts
    → Serves (effect op ts) (called p op w)
unfolding Done
called-Serves p op ts w s fits =
    let (r, f', d', c', ran, idle, r') =
      op-Done op ts w.file w.dir (w.procs p) s.holds (s.idle p) fits in
    let from : do_op op (sys w.file w.dir w.locked (w.procs p)) ≡ (r, sys f' d' false c') =
      rw s.free ran in
    let served : Serves (effect op ts) (left_by p w (sys f' d' false c')) = record {
      holds = r';
      free = refl;
      idle = λ q. elim (Bool-cases (q == p)) [ inl e ↦ rw e idle | inr e ↦ rw e (s.idle q) ];
    } in
    subst (λ o. Serves (effect op ts) (left_by p w o.1)) (sym from) served

-- However the processes interleave their calls, the files hold the list of texts that the calls
-- make of it in their order, if each stored text finds room and meets no other text with its hash.
pub all_called-Serves :
    (calls : List (ℕ × Op)) (ts : List Bytes) (w : World)
    → Serves ts w
    → AllFit calls ts
    → Serves (effects calls ts) (all_called calls w)
all_called-Serves [] ts w s fits = s
all_called-Serves ((p, op) ∷ calls) ts w s fits =
    all_called-Serves calls (effect op ts) (called p op w) (called-Serves p op ts w s fits.0) fits.1
