-- ===== src/Store/Faults/Leaves.antt =====
-- What src/store.c does to take and give back its lock leaves the snip file as it is.
use clipmenu.Prelude.{
  ℕ, ◌≡◌, refl, sym, ◌∙◌, subst, inl, inr, Bool, true, false, List, [], ◌∷◌, arith, ◌==◌,
  if◌then◌else◌, Bool-cases,
}
use clipmenu.Machine.{
  SnipFile, Fate, pass, fail, short, Sys, Outcome, ok, err, abort, M, after, expect_ok, checked,
  raise,
}
use clipmenu.Machine.Calls.{call, fated, flock, fstat_size, remap}
use clipmenu.Store.Lock.{
  cs_file_size, cs_header_validate, cs_unref, take_ref, cs_ref_no_update, grow_mapping,
  update_mapping, cs_ref, with_guard,
}
use clipmenu.Store.Faults.{IsFree, IsLocked, IsGuarded, Parts, On, Ends, Ends-bind, Ends-weaken}
use clipmenu.Store.Faults.Guard.{
  Entered, cs_ref-Entered, cs_unref-Ends, drop_after-Ends, guarded-IsLocked,
}

abbrev Leaves : {A : Type 0} → M A → Type 0
Leaves m = (s : Sys) → (m s).1.file ≡ s.file

Leaves-after :
    {A B : Type 0} (f : SnipFile) (o : Outcome A × Sys) (k : A → M B)
    → o.1.file ≡ f
    → ((a : A) → Leaves (k a))
    → (after o.0 k o.1).1.file ≡ f
Leaves-after f (ok a, s) k e leaves = leaves a s ∙ e
Leaves-after f (err x, s) k e leaves = e
Leaves-after f (abort, s) k e leaves = e

Leaves-call : {A : Type 0} (m : M A) → Leaves m → Leaves (call m)
Leaves-call m leaves s = by_fate s.fates
  where
    by_fate : (fs : List Fate) → (fated m fs (record s { fates = fs })).1.file ≡ s.file
    by_fate [] = leaves (record s { fates = [] })
    by_fate (pass ∷ fs) = leaves (record s { fates = fs })
    by_fate (fail e ∷ fs) = refl
    by_fate (short n ∷ fs) = leaves (record s { fates = fs })

Leaves-flock : (b : Bool) → Leaves (flock b)
unfolding flock
Leaves-flock b = Leaves-call _ (λ s. refl)

Leaves-fstat_size : Leaves fstat_size
unfolding fstat_size
Leaves-fstat_size = Leaves-call _ (λ s. refl)

Leaves-remap : (size : ℕ) → Leaves (remap size)
unfolding remap
Leaves-remap size = Leaves-call _ (λ s. refl)

Leaves-validate : (size : ℕ) → Leaves (cs_header_validate size)
unfolding cs_header_validate
Leaves-validate size s = ground arith

Leaves-if : {A : Type 0} (b : Bool) (m n : M A) → Leaves m → Leaves n → Leaves (if b then m else n)
Leaves-if true m n hm hn = hm
Leaves-if false m n hm hn = hn

Leaves-take_ref : Leaves take_ref
unfolding take_ref
Leaves-take_ref s = ground arith

Leaves-cs_ref_no_update : Leaves cs_ref_no_update
unfolding cs_ref_no_update
Leaves-cs_ref_no_update s =
    Leaves-if (s.cs.refcount == 0) _ take_ref
      (λ s.
        Leaves-after s.file (expect_ok (flock true) s) _ (Leaves-flock true s)
          (λ _. Leaves-take_ref))
      Leaves-take_ref s

Leaves-grow_mapping : Leaves grow_mapping
unfolding grow_mapping
Leaves-grow_mapping s = ground (arith, Leaves-remap (cs_file_size s.file.header.nr_snips_alloc) s)

Leaves-update_mapping : Leaves update_mapping
unfolding update_mapping
Leaves-update_mapping s =
    Leaves-after s.file (checked fstat_size s) _ (Leaves-fstat_size s) (λ size s₁.
      Leaves-after s₁.file (cs_header_validate size s₁) _ (Leaves-validate size s₁)
        (λ _ s₂. Leaves-after s₂.file (grow_mapping s₂) _ (Leaves-grow_mapping s₂) (λ _ s₃. refl)))

pub Leaves-cs_ref : Leaves cs_ref
unfolding cs_ref
Leaves-cs_ref s =
    Leaves-after s.file (cs_ref_no_update s) _ (Leaves-cs_ref_no_update s)
      (λ _ s₁. ground (arith, Leaves-update_mapping s₁))

module _ {A : Type 0} (R R' : A → Sys → Type 0) (E E' : Sys → Type 0) where
  -- Two things that hold of the same outcome.
  pub Ends-and :
      (o : Outcome A × Sys)
      → Ends R E o
      → Ends R' E' o
      → Ends (λ a s. R a s × R' a s) (λ s. E s × E' s) o
  Ends-and (ok a, s) h h' = (h, h')
  Ends-and (err e, s) h h' = (h, h')
  Ends-and (abort, s) h h' = h

module _ {A : Type 0} (R : A → Sys → Type 0) (E : Sys → Type 0) (f : SnipFile) where
  pub Ends-leaves :
      (o : Outcome A × Sys)
      → Ends R E o
      → o.1.file ≡ f
      → Ends (λ a s. R a s × (s.file ≡ f)) (λ s. E s × (s.file ≡ f)) o
  Ends-leaves (ok a, s) h e = (h, e)
  Ends-leaves (err x, s) h e = (h, e)
  Ends-leaves (abort, s) h e = h

abbrev pub With : (SnipFile → Type 0) → Parts → Sys → Type 0
With G Q s = On Q s × G s.file

unref-With :
    (G : SnipFile → Type 0) (E : Sys → Type 0) (s : Sys)
    → With G IsLocked s
    → Ends (λ _. With G IsFree) E (cs_unref s)
unref-With G E s (h, g) = cs_unref-Ends (With G IsFree) E s h.sound h.one_ref (λ gs. (
  record { sound = h.sound; mapped = h.mapped; no_ref = omega (arith, h.one_ref); unlocked = refl },
  g,
))

-- What a body makes of the file under the lock is what the operation makes of it: G where it
-- returns, and G' where it gives an error, which the file is to have from the start.
module _ {A : Type 0} (body : M A) (G G' : SnipFile → Type 0) where
  status_body :
      (status : ℕ) (s : Sys)
      → (On IsGuarded s → Ends (λ _. With G IsGuarded) (With G' IsGuarded) (body s))
      → Entered status s
      → G' s.file
      → Ends
          (λ _. With G IsLocked)
          (With G' IsLocked)
          ((if status == 0 then body else raise status) s)
  status_body status s runs h g = elim (Bool-cases (status == 0)) [
    | inl e ↦ rw e (
        Ends-weaken (λ _. With G IsGuarded) (With G' IsGuarded) (λ _. With G IsLocked)
          (With G' IsLocked) (body s) (λ _ s' r. (guarded-IsLocked s' r.0, r.1))
          (λ s' r. (guarded-IsLocked s' r.0, r.1)) (runs (h.0 (ground (arith, e)))))
    | inr e ↦ rw e (h.1, g)
  ]

  pub with_guard-Ends :
      (s : Sys)
      → On IsFree s
      → G' s.file
      → ((s' : Sys)
          → s'.file ≡ s.file
          → On IsGuarded s'
          → Ends (λ _. With G IsGuarded) (With G' IsGuarded) (body s'))
      → Ends (λ _. With G IsFree) (With G' IsFree) (with_guard body s)
  unfolding with_guard
  with_guard-Ends s h g runs =
      let same : Sys → Type 0 = λ s'. s'.file ≡ s.file in
      Ends-bind (λ a s'. Entered a s' × same s') (λ _. With G IsFree) (With G' IsFree) (cs_ref s) _
        (Ends-weaken (λ a s'. Entered a s' × same s') (λ s'. On IsFree s' × same s')
          (λ a s'. Entered a s' × same s') (With G' IsFree) (cs_ref s) (λ a s' r. r)
          (λ s' r. (r.0, subst G' (sym r.1) g))
          (Ends-leaves Entered (On IsFree) s.file (cs_ref s) (cs_ref-Entered s h)
            (Leaves-cs_ref s)))
        (λ status s' (entered, e).
          drop_after-Ends (With G IsLocked) (With G' IsLocked) (With G IsFree) (With G' IsFree)
            ((if status == 0 then body else raise status) s')
            (status_body status s' (runs s' e) entered (subst G' (sym e) g))
            (unref-With G (With G' IsFree)) (unref-With G' (With G' IsFree)))
