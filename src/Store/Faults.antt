-- ===== src/Store/Faults.antt =====
-- What stays true of src/store.c whatever system calls fail: the snips in use lie within the file and
-- within the mapping, and the lock is held exactly within a reference. The states are those of Machine
-- with any list of fates.
pub mod Content
pub mod Tells
pub mod Guard
pub mod Agrees
pub mod Resize
pub mod Snips
pub mod Ops
pub mod Start
pub mod World
pub mod Stuck
pub mod Uncut
pub mod Leaves
pub mod Atomic
pub mod Tests
use clipmenu.Prelude.{
  ℕ, zero, suc, ◌+◌, ◌-◌, ◌*◌, ◌/◌, ◌%◌, ◌^◌, ◌≤◌, ◌<◌, bit_and, ◌≡◌, refl, sym, ap, ◌∙◌, subst,
  fun_ext, ◌≡⟨◌⟩◌, ◌∎, ◌≢◌, ◌↔◌, ◌⊎◌, inl, inr, Bool, true, false, not, ◌&&◌, ◌||◌, Option, none,
  some, List, [], ◌∷◌, ◌++◌, map, append_assoc, append-nil, map-append, reverse, reverse-append,
  reverse-reverse, reverse-cons, arith, ltb, leb, ◌==◌, if◌then◌else◌, ltb→lt, not-ltb→le,
  not-leb→lt, lt→ltb, le→not-ltb, le→leb, leb→le, lt→not-leb, ==_iff, ==_refl, Bool-cases, length,
  get_or, set, take, drop, replicate, length-append, get_or-append, set-append, take-append,
  take-append_le, take_all, take-append-drop, take-take, take-set_last, take-set, get_or-take,
  length-take_le, length-take_of_le, length-set, length-replicate, split_at, All, All-append,
  length-map, take-map, length-reverse, String,
}
use clipmenu.Machine.{
  SnipFile, ClipStore, Fate, pass, fail, short, Sys, Outcome, ok, err, abort, M, after, ◌>>=◌, ◌>>◌,
  errno_outcome, checked, expect_outcome, expect_ok,
}
use clipmenu.Machine.Calls.{cs_snip_size, call, fated}

-- The snips in use are allocated, and the allocated ones are in the file.
pub record IsSound (f : SnipFile) : Type 0 where
  pub used : f.header.nr_snips ≤ f.header.nr_snips_alloc
  pub inside : f.header.nr_snips_alloc ≤ length f.slots
  pub bounded : (f.header.nr_snips_alloc + 1) * cs_snip_size < 2 ^ 63
  pub begun : 0 < f.size

-- What was known of the header last is still mapped.
abbrev pub IsMapped : ClipStore → Type 0
IsMapped c = (c.local_nr_snips_alloc + 1) * cs_snip_size ≤ c.mapped

-- Between two calls of a process.
pub record IsFree (f : SnipFile) (locked : Bool) (c : ClipStore) : Type 0 where
  pub sound : IsSound f
  pub mapped : IsMapped c
  pub no_ref : c.refcount ≡ 0
  pub unlocked : locked ≡ false

-- Under the lock, with the mapping not looked at yet.
pub record IsLocked (f : SnipFile) (locked : Bool) (c : ClipStore) : Type 0 where
  pub sound : IsSound f
  pub mapped : IsMapped c
  pub one_ref : c.refcount ≡ 1
  pub locked_true : locked ≡ true

-- Under the lock, with all that the header allocates mapped.
pub record IsGuarded (f : SnipFile) (locked : Bool) (c : ClipStore) : Type 0 where
  pub sound : IsSound f
  pub mapped : IsMapped c
  pub current : c.local_nr_snips_alloc ≡ f.header.nr_snips_alloc
  pub one_ref : c.refcount ≡ 1
  pub locked_true : locked ≡ true

abbrev pub Parts : Type 1
Parts = SnipFile → Bool → ClipStore → Type 0

-- These parts of a state; the content directory and the fates are left open.
abbrev pub On : Parts → Sys → Type 0
On Q s = Q s.file s.locked s.cs

-- The outcome of an action: what holds if it returns, and if it gives an error. If the process ends,
-- the file is still sound.
abbrev pub Ends : {A : Type 0} → (A → Sys → Type 0) → (Sys → Type 0) → Outcome A × Sys → Type 0
Ends R E (ok a, s) = R a s
Ends R E (err e, s) = E s
Ends R E (abort, s) = IsSound s.file

abbrev pub Keeps : {A : Type 0} → (Sys → Type 0) → M A → Type 0
Keeps P m = (s : Sys) → P s → Ends (λ _. P) P (m s)

module _ {A B : Type 0} (R : A → Sys → Type 0) (R' : B → Sys → Type 0) (E : Sys → Type 0) where
  pub Ends-bind :
      (o : Outcome A × Sys) (k : A → M B)
      → Ends R E o
      → ((a : A) (s : Sys) → R a s → Ends R' E (k a s))
      → Ends R' E (after o.0 k o.1)
  Ends-bind (ok a, s) k h then_k = then_k a s h
  Ends-bind (err e, s) k h then_k = h
  Ends-bind (abort, s) k h then_k = h

module _ {A : Type 0} (R : A → Sys → Type 0) (E : Sys → Type 0) where
  pub Ends-checked : (o : Outcome A × Sys) → Ends R E o → Ends R E (errno_outcome o.0, o.1)
  Ends-checked (ok a, s) h = h
  Ends-checked (err e, s) h = h
  Ends-checked (abort, s) h = h

  -- An expect() turns an error into the end of the process.
  pub Ends-expect :
      (E' : Sys → Type 0) (o : Outcome A × Sys)
      → ((s : Sys) → E s → IsSound s.file)
      → Ends R E o
      → Ends R E' (expect_outcome o.0, o.1)
  Ends-expect E' (ok a, s) sound h = h
  Ends-expect E' (err e, s) sound h = sound s h
  Ends-expect E' (abort, s) sound h = h

  pub Ends-weaken :
      (R' : A → Sys → Type 0) (E' : Sys → Type 0) (o : Outcome A × Sys)
      → ((a : A) (s : Sys) → R a s → R' a s)
      → ((s : Sys) → E s → E' s)
      → Ends R E o
      → Ends R' E' o
  Ends-weaken R' E' (ok a, s) r e h = r a s h
  Ends-weaken R' E' (err x, s) r e h = e s h
  Ends-weaken R' E' (abort, s) r e h = h

module _ {A : Type 0} (Q : Parts) where
  -- A system call that fails changes nothing.
  pub Ends-fated :
      (R : A → Sys → Type 0) (m : M A) (fs : List Fate) (s : Sys)
      → ((gs : List Fate) → Ends R (On Q) (m (record s { fates = gs })))
      → On Q s
      → Ends R (On Q) (fated m fs (record s { fates = fs }))
  Ends-fated R m [] s h q = h []
  Ends-fated R m (pass ∷ fs) s h q = h fs
  Ends-fated R m (fail e ∷ fs) s h q = q
  Ends-fated R m (short n ∷ fs) s h q = h fs

  pub Ends-call :
      (R : A → Sys → Type 0) (m : M A) (s : Sys)
      → ((gs : List Fate) → Ends R (On Q) (m (record s { fates = gs })))
      → On Q s
      → Ends R (On Q) (call m s)
  Ends-call R m s h q = Ends-fated R m s.fates s h q

module _ (P : Sys → Type 0) where
  pub Keeps-bind :
      {A B : Type 0} (m : M A) (k : A → M B)
      → Keeps P m
      → ((a : A) → Keeps P (k a))
      → Keeps P (m >>= k)
  Keeps-bind m k hm hk s h = Ends-bind (λ _. P) (λ _. P) P (m s) k (hm s h) (λ a s' h'. hk a s' h')

  pub Keeps-then :
      {B : Type 0} (m : M (Unit {0})) (k : M B) → Keeps P m → Keeps P k → Keeps P (m >> k)
  Keeps-then m k hm hk = Keeps-bind m (λ _. k) hm (λ _. hk)

  pub Keeps-checked : {A : Type 0} (m : M A) → Keeps P m → Keeps P (checked m)
  Keeps-checked m hm s h = Ends-checked (λ _. P) P (m s) (hm s h)

  pub Keeps-if :
      {A : Type 0} (b : Bool) (m n : M A) → Keeps P m → Keeps P n → Keeps P (if b then m else n)
  Keeps-if true m n hm hn = hm
  Keeps-if false m n hm hn = hn
