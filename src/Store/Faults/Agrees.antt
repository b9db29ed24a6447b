-- ===== src/Store/Faults/Agrees.antt =====
-- Where the body of an operation of src/store.c is run.
use clipmenu.Prelude.{ℕ, ◌≡◌, refl, ap, inl, inr, arith, ◌==◌, if◌then◌else◌, Bool-cases}
use clipmenu.Machine.{Sys, Outcome, ok, err, abort, M, after, raise}
use clipmenu.Store.Lock.{cs_ref, drop_after, with_guard}
use clipmenu.Store.Faults.{IsFree, IsGuarded, On, Ends}
use clipmenu.Store.Faults.Guard.{Entered, cs_ref-Entered}

module _ {A : Type 0} where
  after_agrees :
      {B : Type 0} (R : B → Sys → Type 0) (E : Sys → Type 0) (o : Outcome B × Sys) (k k' : B → M A)
      → Ends R E o
      → ((b : B) (s : Sys) → R b s → k b s ≡ k' b s)
      → after o.0 k o.1 ≡ after o.0 k' o.1
  after_agrees R E (ok b, s) k k' h same = same b s h
  after_agrees R E (err e, s) k k' h same = refl
  after_agrees R E (abort, s) k k' h same = refl

  guarded_agrees :
      (status : ℕ) (body body' : M A) (s : Sys)
      → ((s : Sys) → On IsGuarded s → body s ≡ body' s)
      → Entered status s
      → (if status == 0 then body else raise status) s
        ≡ (if status == 0 then body' else raise status) s
  guarded_agrees status body body' s same h = elim (Bool-cases (status == 0)) [
    | inl e ↦ rw e (same s (h.0 (ground (arith, e))))
    | inr e ↦ rw e refl
  ]

  -- Whatever system calls fail, the body of an operation is run only where the process holds the
  -- lock, and has mapped all that the header allocates in a sound file: a body that is the same in
  -- those states gives the same operation.
  pub with_guard_agrees :
      (body body' : M A) (s : Sys)
      → ((s' : Sys) → On IsGuarded s' → body s' ≡ body' s')
      → On IsFree s
      → with_guard body s ≡ with_guard body' s
  unfolding with_guard
  with_guard_agrees body body' s same h =
      after_agrees Entered (On IsFree) (cs_ref s) _ _ (cs_ref-Entered s h) (λ status s' entered.
        ap (λ (o : Outcome A × Sys). drop_after o.0 o.1)
          (guarded_agrees status body body' s' same entered))
