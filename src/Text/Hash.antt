-- ===== src/Text/Hash.antt =====
-- djb64_hash of src/store.c against the polynomial that it computes.
use clipmenu.Prelude.{
  ℕ, ◌+◌, ◌-◌, ◌*◌, ◌%◌, ◌≤◌, ◌<◌, ◌≡◌, refl, ap, sym, ◌∙◌, [], ◌∷◌, ◌++◌, arith,
}
use clipmenu.Text.{Bytes, u64_mod, hash_step, hash_loop, djb64_hash}

-- The hash with no bound on its size.
abbrev pub horner : Bytes → ℕ → ℕ
horner [] h = h
horner (c ∷ s) h = horner s (h * 33 + c)

hash_step-mod : (h c : ℕ) → hash_step (h % u64_mod) c ≡ (h * 33 + c) % u64_mod
unfolding hash_step
hash_step-mod h c = omega arith

hash_loop-mod : (s : Bytes) (h : ℕ) → hash_loop s (h % u64_mod) ≡ horner s h % u64_mod
unfolding hash_loop
hash_loop-mod [] h = refl
hash_loop-mod (c ∷ s) h = ap (hash_loop s) (hash_step-mod h c) ∙ hash_loop-mod s (h * 33 + c)

-- The hash of a text is the value of Horner's rule at 33 from 5381, modulo 2 ^ 64.
pub djb64_hash-eq-horner : (buf : Bytes) → djb64_hash buf ≡ horner buf 5381 % u64_mod
unfolding djb64_hash
djb64_hash-eq-horner buf = hash_loop-mod buf 5381

pub djb64_hash-lt : (buf : Bytes) → djb64_hash buf < u64_mod
djb64_hash-lt buf = omega (arith, djb64_hash-eq-horner buf)

horner-append : (s t : Bytes) (h : ℕ) → horner (s ++ t) h ≡ horner t (horner s h)
horner-append [] t h = refl
horner-append (c ∷ s) t h = horner-append s t (h * 33 + c)

horner_swap :
    (a b h : ℕ) (post : Bytes)
    → 33 ≤ b
    → horner (a ∷ b ∷ post) h ≡ horner ((a + 1) ∷ (b - 33) ∷ post) h
horner_swap a b h post le = ap (horner post) (omega arith)

-- Whatever stands around them, the bytes a, b and the bytes a + 1, b - 33 give the same hash.
pub djb64_hash_collision :
    (pre post : Bytes) (a b : ℕ)
    → 33 ≤ b
    → djb64_hash (pre ++ (a ∷ b ∷ post)) ≡ djb64_hash (pre ++ ((a + 1) ∷ (b - 33) ∷ post))
djb64_hash_collision pre post a b le =
    let same =
      horner-append pre (a ∷ b ∷ post) 5381
      ∙ horner_swap a b (horner pre 5381) post le
      ∙ sym (horner-append pre ((a + 1) ∷ (b - 33) ∷ post) 5381) in
    djb64_hash-eq-horner _ ∙ ap (λ n. n % u64_mod) same ∙ sym (djb64_hash-eq-horner _)
