-- ===== src/Clipmenu/Refusal.antt =====
-- Output of the launcher that names no clip, as src/clipmenu.c reads it.
use clipmenu.Prelude.{
  ℕ, ◌+◌, ◌<◌, ◌≡◌, refl, ap, ◌∙◌, ◌⊎◌, inl, inr, [], ◌∷◌, ◌++◌, arith, ◌==◌, Bool-cases, length,
  length-append, length-replicate, All-append,
}
use clipmenu.Text.{Bytes, u64_mod, isspace}
use clipmenu.Machine.{ok, err, einval}
use clipmenu.Util.{uint64_to_str, str_to_uint64}
use clipmenu.Util.Decimal.{blanks, decimal, str_to_uint64-uint64_to_str}
use clipmenu.Clipmenu.{before, sel_idx_str}
use clipmenu.Clipmenu.Choice.{before-plain, IsPlain-blanks, IsPlain-decimal}

-- Nothing; a byte above '9', such as a letter, behind the first byte; or a number in brackets, with
-- blanks in front, that none of `n` clips has.
abbrev pub Unchosen : ℕ → Bytes → Type 0
Unchosen n output =
    (output ≡ [])
    ⊎ ((first c : ℕ) × (more : Bytes) × (57 < c) × (output ≡ first ∷ c ∷ more))
    ⊎ ((first j k : ℕ) × (more : Bytes) × (k < u64_mod)
        × (j + length (uint64_to_str k) < 20)
        × ((k ≡ 0) ⊎ (n < k))
        × (output ≡ first ∷ ((blanks j ++ uint64_to_str k) ++ (b']' ∷ more))))

no_number : (c : ℕ) (s : Bytes) → 57 < c → str_to_uint64 (c ∷ s) ≡ err einval
unfolding str_to_uint64 isspace
no_number c s h = ground (arith, h)

empty_refused : str_to_uint64 [] ≡ err einval
unfolding str_to_uint64
empty_refused = refl

letter :
    (first c : ℕ) (more : Bytes)
    → 57 < c
    → str_to_uint64 (sel_idx_str (first ∷ c ∷ more)) ≡ err einval
unfolding sel_idx_str before
letter first c more h = elim (Bool-cases (c == 0)) [
  | inl e ↦ rw e empty_refused
  | inr e ↦ elim (Bool-cases (c == b']')) [
    | inl e' ↦ rw (e, e') empty_refused
    | inr e' ↦ rw (e, e') (no_number c _ h)
  ]
]

-- The number is none, or none of a clip.
pub refused :
    (n : ℕ) (output : Bytes)
    → Unchosen n output
    → ((e : ℕ) × (str_to_uint64 (sel_idx_str output) ≡ err e))
      ⊎ ((k : ℕ) × (str_to_uint64 (sel_idx_str output) ≡ ok k) × ((k ≡ 0) ⊎ (n < k)))
unfolding sel_idx_str before
refused n output (inl e) = inl (einval, rw e empty_refused)
refused n output (inr (inl (first, c, more, above, e))) =
    inl (einval, ap (λ o. str_to_uint64 (sel_idx_str o)) e ∙ letter first c more above)
refused n output (inr (inr (first, j, k, more, lt, fits, bad, e))) = inr (
  k,
  ap (λ o. str_to_uint64 (sel_idx_str o)) e
      ∙ ap str_to_uint64 (
          before-plain 20 (blanks j ++ uint64_to_str k) more
            (All-append _ (blanks j) (uint64_to_str k) (IsPlain-blanks j)
              (IsPlain-decimal (uint64_to_str k) (decimal k)))
            (omega (
              arith,
              fits,
              length-append {0} (blanks j) (uint64_to_str k),
              length-replicate {A = ℕ} j 32,
            )))
      ∙ str_to_uint64-uint64_to_str k lt j,
  bad,
)
