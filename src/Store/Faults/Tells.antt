-- ===== src/Store/Faults/Tells.antt =====
-- The errors of src/store.c's update of the mapping have numbers that the status of a guard tells.
use clipmenu.Prelude.{ℕ, ◌<◌, inl, inr, arith, ltb, ltb→lt, Bool-cases}
use clipmenu.Machine.{
  Sys, Outcome, ok, err, abort, M, after, negative_errno, checked, errno_outcome,
}
use clipmenu.Machine.Calls.{fstat_size, remap}
use clipmenu.Store.Lock.{cs_file_size, cs_header_validate, grow_mapping, update_mapping}

-- An error's number is not 0, so that a status tells it.
abbrev pub Tells : {A : Type 0} → Outcome A × Sys → Type 0
Tells (ok a, s) = Unit
Tells (err e, s) = 0 < e
Tells (abort, s) = Unit

Tells-bind :
    {A B : Type 0} (o : Outcome A × Sys) (k : A → M B)
    → Tells o
    → ((a : A) (s : Sys) → Tells (k a s))
    → Tells (after o.0 k o.1)
Tells-bind (ok a, s) k h then_k = then_k a s
Tells-bind (err e, s) k h then_k = h
Tells-bind (abort, s) k h then_k = h

Tells-checked : {A : Type 0} (o : Outcome A × Sys) → Tells (errno_outcome o.0, o.1)
unfolding negative_errno
Tells-checked (ok a, s) = tt
Tells-checked (err e, s) = elim (Bool-cases (ltb 0 e)) [
  | inl p ↦ rw p (ltb→lt 0 e p)
  | inr p ↦ rw p (omega arith)
]
Tells-checked (abort, s) = tt

Tells-validate : (size : ℕ) (s : Sys) → Tells (cs_header_validate size s)
unfolding cs_header_validate
Tells-validate size s = ground arith

Tells-grow_mapping : (s : Sys) → Tells (grow_mapping s)
unfolding grow_mapping
Tells-grow_mapping s =
    elim (Bool-cases (ltb s.cs.local_nr_snips_alloc s.file.header.nr_snips_alloc)) [
      | inl e ↦ rw e (Tells-checked (remap (cs_file_size s.file.header.nr_snips_alloc) s))
      | inr e ↦ rw e tt
    ]

pub Tells-update_mapping : (s : Sys) → Tells (update_mapping s)
unfolding update_mapping
Tells-update_mapping s =
    Tells-bind (checked fstat_size s) _ (Tells-checked (fstat_size s)) (λ size s₁.
      Tells-bind (cs_header_validate size s₁) _ (Tells-validate size s₁)
        (λ _ s₂. Tells-bind (grow_mapping s₂) _ (Tells-grow_mapping s₂) (λ _ s₃. tt)))
