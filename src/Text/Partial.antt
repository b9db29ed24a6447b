-- ===== src/Text/Partial.antt =====
-- is_possible_partial of src/clipmenud.c decides whether one text begins or ends the other.
use clipmenu.Prelude.{
  ℕ, ◌+◌, ◌-◌, ◌≤◌, ◌≡◌, refl, sym, ap, ◌∙◌, subst, ◌↔◌, ◌⊎◌, inl, inr, Bool, true, false, [], ◌∷◌,
  ◌++◌, append-nil, arith, ltb, if◌then◌else◌, ltb→lt, not-ltb→le, Bool-cases, length, take, drop,
  length-append, take-append-drop,
}
use clipmenu.Text.{Bytes, same_start, streq, is_possible_partial}

-- `s` is `p` with something behind it, or before it.
abbrev pub Begins : Bytes → Bytes → Type 0
Begins p s = (r : Bytes) × (p ++ r ≡ s)

abbrev pub Ends : Bytes → Bytes → Type 0
Ends p s = (r : Bytes) × (r ++ p ≡ s)

pub streq_iff : (a b : Bytes) → (streq a b ≡ true) ↔ (a ≡ b)
unfolding streq
streq_iff [] [] = (λ _. refl, λ _. refl)
streq_iff [] (d ∷ b) = (λ h. cc, λ h. cc)
streq_iff (c ∷ a) [] = (λ h. cc, λ h. cc)
streq_iff (c ∷ a) (d ∷ b) = ground (arith, streq_iff a b)

same_start_sound : (s t : Bytes) → same_start (length s) s t ≡ true → Begins s t
unfolding same_start
same_start_sound [] t h = (t, refl)
same_start_sound (c ∷ s) [] h = absurd (ground arith)
same_start_sound (c ∷ s) (d ∷ t) h =
    let (r, e) = same_start_sound s t (ground arith) in (r, ground arith)

same_start_complete : (s r : Bytes) → same_start (length s) s (s ++ r) ≡ true
unfolding same_start
same_start_complete [] [] = refl
same_start_complete [] (d ∷ r) = refl
same_start_complete (c ∷ s) r = ground (arith, same_start_complete s r)

same_start_comm : (n : ℕ) (s t : Bytes) → same_start n s t ≡ same_start n t s
unfolding same_start
same_start_comm n [] [] = refl
same_start_comm n [] (d ∷ t) = refl
same_start_comm n (c ∷ s) [] = refl
same_start_comm n (c ∷ s) (d ∷ t) = ground (arith, same_start_comm (n - 1) s t)

drop-append : (r s : Bytes) → drop (length r) (r ++ s) ≡ s
drop-append [] s = refl
drop-append (c ∷ r) s = drop-append r s

drop-Ends : (n : ℕ) (s : Bytes) → Ends (drop n s) s
drop-Ends n s = (take n s, take-append-drop n s)

shift : (a b : ℕ) → a ≡ a + b - b
shift a b = omega arith

-- The tail of the longer text that the code compares with the shorter one.
tail_sound : (p s : Bytes) → streq p (drop (length s - length p) s) ≡ true → Ends p s
tail_sound p s h =
    subst (λ q. Ends q s) (sym ((streq_iff p _).0 h)) (drop-Ends (length s - length p) s)

tail_complete : (p s : Bytes) → Ends p s → streq p (drop (length s - length p) s) ≡ true
tail_complete p s (r, e) = (streq_iff p _).1 (
    subst (λ t. p ≡ drop (length t - length p) t) e
      (rw (length-append r p)
        (subst (λ k. p ≡ drop k (r ++ p)) (shift (length r) (length p)) (sym (drop-append r p)))))

Begins-length : (p s : Bytes) → Begins p s → length p ≤ length s
Begins-length p s (r, e) = omega (arith, ap length e, length-append p r)

Ends-length : (p s : Bytes) → Ends p s → length p ≤ length s
Ends-length p s (r, e) = omega (arith, ap length e, length-append r p)

nil_of_length : (r : Bytes) → length r ≡ 0 → r ≡ []
nil_of_length [] h = refl
nil_of_length (c ∷ r) h = absurd (omega arith)

Begins-eq : (p s : Bytes) → length s ≤ length p → Begins p s → p ≡ s
Begins-eq p s h (r, e) =
    sym (append-nil p)
    ∙ ap (λ t. p ++ t) (sym (nil_of_length r (omega (arith, ap length e, length-append p r))))
    ∙ e

Ends-eq : (p s : Bytes) → length s ≤ length p → Ends p s → p ≡ s
Ends-eq p s h (r, e) =
    ap (λ t. t ++ p) (sym (nil_of_length r (omega (arith, ap length e, length-append r p)))) ∙ e

-- What the code tests once it knows which text is the shorter.
shorter_test : Bytes → Bytes → Bool
shorter_test p s =
    if same_start (length p) p s then true else streq p (drop (length s - length p) s)

shorter_test_sound : (p s : Bytes) → shorter_test p s ≡ true → Begins p s ⊎ Ends p s
unfolding shorter_test
shorter_test_sound p s h = elim (Bool-cases (same_start (length p) p s)) [
  | inl e ↦ inl (same_start_sound p s e)
  | inr e ↦ inr (tail_sound p s (rw e at h))
]

shorter_test-Begins : (p s : Bytes) → Begins p s → shorter_test p s ≡ true
unfolding shorter_test
shorter_test-Begins p s (r, e) =
    rw (subst (λ t. same_start (length p) p t ≡ true) e (same_start_complete p r))

shorter_test-Ends : (p s : Bytes) → Ends p s → shorter_test p s ≡ true
unfolding shorter_test
shorter_test-Ends p s h = ground (arith, tail_complete p s h)

partial_lt :
    (s1 s2 : Bytes)
    → ltb (length s1) (length s2) ≡ true
    → is_possible_partial s1 s2 ≡ shorter_test s1 s2
unfolding is_possible_partial shorter_test
partial_lt s1 s2 h = rw h

partial_ge :
    (s1 s2 : Bytes)
    → ltb (length s1) (length s2) ≡ false
    → is_possible_partial s1 s2 ≡ shorter_test s2 s1
unfolding is_possible_partial shorter_test
partial_ge s1 s2 h = rw (h, same_start_comm (length s2) s1 s2)

shorter_test_refl : (p s : Bytes) → p ≡ s → shorter_test s p ≡ true
shorter_test_refl p s e = shorter_test-Begins s p ([], append-nil s ∙ sym e)

-- Two texts are a possible partial exactly when one begins or ends with the other.
pub is_possible_partial_iff :
    (s1 s2 : Bytes)
    → (is_possible_partial s1 s2 ≡ true) ↔ (Begins s1 s2 ⊎ Ends s1 s2 ⊎ Begins s2 s1 ⊎ Ends s2 s1)
is_possible_partial_iff s1 s2 = elim (Bool-cases (ltb (length s1) (length s2))) [
  | inl lt ↦ rw (partial_lt s1 s2 lt) (
    λ h. elim (shorter_test_sound s1 s2 h) [ inl b ↦ inl b | inr e ↦ inr (inl e) ],
    λ h. elim h [
      | inl b ↦ shorter_test-Begins s1 s2 b
      | inr (inl e) ↦ shorter_test-Ends s1 s2 e
      | inr (inr (inl b)) ↦ absurd (omega (arith, ltb→lt _ _ lt, Begins-length s2 s1 b))
      | inr (inr (inr e)) ↦ absurd (omega (arith, ltb→lt _ _ lt, Ends-length s2 s1 e))
    ],
  )
  | inr ge ↦ rw (partial_ge s1 s2 ge) (
    λ h. elim (shorter_test_sound s2 s1 h) [
      | inl b ↦ inr (inr (inl b))
      | inr e ↦ inr (inr (inr e))
    ],
    λ h. elim h [
      | inl b ↦ shorter_test_refl s1 s2 (Begins-eq s1 s2 (not-ltb→le _ _ ge) b)
      | inr (inl e) ↦ shorter_test_refl s1 s2 (Ends-eq s1 s2 (not-ltb→le _ _ ge) e)
      | inr (inr (inl b)) ↦ shorter_test-Begins s2 s1 b
      | inr (inr (inr e)) ↦ shorter_test-Ends s2 s1 e
    ],
  )
]
