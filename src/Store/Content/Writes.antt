-- ===== src/Store/Content/Writes.antt =====
-- The loop of cs_content_add of src/store.c that writes the content, however write() behaves.
use clipmenu.Prelude.{
  ℕ, zero, suc, ◌+◌, ◌≡◌, refl, sym, ap, ◌∙◌, ◌⊎◌, inl, inr, Option, some, List, [], ◌∷◌, ◌++◌,
  append_assoc, append-nil, arith, take, drop, take-append-drop,
}
use clipmenu.Text.{Bytes}
use clipmenu.Machine.{HashDir, Fate, pass, fail, short, Sys, Outcome, ok, err, negative_errno}
use clipmenu.Machine.Calls.{append_text}
use clipmenu.Store.Content.{write_loop}

abbrev pub link_to : Bytes → List ℕ → Option HashDir
link_to text names = some (record { text = text; names = names })

take_nil : (n : ℕ) → take {A = ℕ} n [] ≡ []
take_nil zero = refl
take_nil (suc n) = refl

take-drop : (n k : ℕ) (t : Bytes) → take n t ++ take k (drop n t) ≡ take (n + k) t
take-drop zero k t = ap (λ i. take i t) (zero_plus k)
  where
    zero_plus : (i : ℕ) → i ≡ 0 + i
    zero_plus i = omega arith
take-drop (suc n) zero [] = sym (take_nil (suc n + 0))
take-drop (suc n) (suc k) [] = sym (take_nil (suc n + suc k))
take-drop (suc n) k (c ∷ t) =
    ap (λ l. c ∷ l) (take-drop n k t) ∙ ap (λ i. take i (c ∷ t)) (suc_plus n k)
  where
    suc_plus : (i j : ℕ) → suc (i + j) ≡ suc i + j
    suc_plus i j = omega arith

-- The whole text behind what is there, or an error and a first part of it.
abbrev pub Written : Bytes → Bytes → List ℕ → ℕ → Outcome (Unit {0}) × Sys → Type 0
Written u t names h (r, s) =
    ((r ≡ ok tt) × (s.dir h ≡ link_to (u ++ t) names))
    ⊎ ((e : ℕ) × (k : ℕ) × (r ≡ err e) × (s.dir h ≡ link_to (u ++ take k t) names))

appended :
    (h : ℕ) (u t : Bytes) (names : List ℕ) (s : Sys)
    → s.dir h ≡ link_to u names
    → (append_text h t s).dir h ≡ link_to (u ++ t) names
appended h u t names s e = ground (arith, e)

Written-short :
    (n : ℕ) (u t : Bytes) (names : List ℕ) (h : ℕ) (o : Outcome (Unit {0}) × Sys)
    → Written (u ++ take n t) (drop n t) names h o
    → Written u t names h o
Written-short n u t names h o (inl (done, at)) = inl (
  done,
  at
      ∙ ap (λ l. link_to l names)
          (append_assoc u (take n t) (drop n t) ∙ ap (λ l. u ++ l) (take-append-drop n t)),
)
Written-short n u t names h o (inr (e, k, failed, at)) = inr (
  e,
  n + k,
  failed,
  at
      ∙ ap (λ l. link_to l names)
          (append_assoc u (take n t) (take k (drop n t)) ∙ ap (λ l. u ++ l) (take-drop n k t)),
)

-- However often write() stops short, the loop ends: it has then written the whole content behind what
-- was there, or it returns an error, and what it has written is a first part of the content.
pub write_loop_lem :
    (fs : List Fate) (h : ℕ) (u t : Bytes) (names : List ℕ) (s : Sys)
    → s.dir h ≡ link_to u names
    → Written u t names h (write_loop fs h t s)
unfolding write_loop
write_loop_lem [] h u [] names s e = inl (refl, rw append-nil e)
write_loop_lem (f ∷ fs) h u [] names s e = inl (refl, rw append-nil e)
write_loop_lem [] h u (c ∷ t) names s e = inl (refl, appended h u (c ∷ t) names s e)
write_loop_lem (pass ∷ fs) h u (c ∷ t) names s e = inl (refl, appended h u (c ∷ t) names s e)
write_loop_lem (fail x ∷ fs) h u (c ∷ t) names s e =
    inr (negative_errno x, 0, refl, rw append-nil e)
write_loop_lem (short n ∷ fs) h u (c ∷ t) names s e =
    Written-short n u (c ∷ t) names h
      (write_loop fs h (drop n (c ∷ t)) (append_text h (take n (c ∷ t)) s))
      (write_loop_lem fs h (u ++ take n (c ∷ t)) (drop n (c ∷ t)) names
        (append_text h (take n (c ∷ t)) s) (appended h u (take n (c ∷ t)) names s e))
