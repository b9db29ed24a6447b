-- ===== src/Store/Clips/Ages.antt =====
-- cs_replace of src/store.c for any age: the text that the age names is replaced, if there is one.
use clipmenu.Prelude.{
  ℕ, suc, ◌-◌, ◌<◌, ◌≡◌, sym, ap, ◌∙◌, subst, inl, inr, false, List, [], ◌∷◌, ◌++◌, arith, ltb,
  if◌then◌else◌, ltb→lt, not-ltb→le, Bool-cases, length, get_or, set, take, drop, set-append,
  length-take_of_le, split_at, All-append,
}
use clipmenu.Text.{Bytes}
use clipmenu.Machine.{SnipFile, ClipStore, Outcome, ok, err, erange}
use clipmenu.Store.State.{Dir, sys, IsIdle}
use clipmenu.Store.Snips.{Direction, newest_first, oldest_first}
use clipmenu.Store.Ops.{cs_replace}
use clipmenu.Store.Clips.{Holds, NoCollision}
use clipmenu.Store.Clips.Shelves.{All-left, All-right}
use clipmenu.Store.Clips.Replace.{Aged, cs_replace-Holds, cs_replace_range}
use clipmenu.Store.Clips.Trim.{length-drop}

-- The place of the text with this age, from the oldest on.
abbrev pub place : Direction → ℕ → ℕ → ℕ
place newest_first n age = n - age - 1
place oldest_first n age = age

abbrev pub replaced_at : Direction → ℕ → Bytes → List Bytes → List Bytes
replaced_at direction age t ts =
    if ltb age (length ts) then set ts (place direction (length ts) age) t else ts

All-drop :
    (t : Bytes) (pending pre post : List Bytes) (o : Bytes)
    → NoCollision t (pending ++ (pre ++ (o ∷ post)))
    → NoCollision t (pending ++ (pre ++ post))
All-drop t pending pre post o h =
    let rest = All-right _ pending (pre ++ (o ∷ post)) h in
    All-append _ pending (pre ++ post) (All-left _ pending (pre ++ (o ∷ post)) h)
      (All-append _ pre post (All-left _ pre (o ∷ post) rest) (All-right _ pre (o ∷ post) rest).1)

place-lt : (direction : Direction) (n age : ℕ) → age < n → place direction n age < n
place-lt newest_first n age h = omega arith
place-lt oldest_first n age h = h

place-Aged :
    (direction : Direction) (age : ℕ) (ts : List Bytes)
    → age < length ts
    → Aged direction age
        (take (place direction (length ts) age) ts)
        (drop (suc (place direction (length ts) age)) ts)
place-Aged newest_first age ts h = omega (arith, length-drop (suc (length ts - age - 1)) ts)
place-Aged oldest_first age ts h = sym (length-take_of_le age ts (omega arith))

-- What cs_replace() makes of the texts; with no text of this age it gives an error.
pub cs_replace_any :
    (direction : Direction) (age : ℕ) (t : Bytes) (pending ts : List Bytes) (f : SnipFile) (d : Dir)
    (c : ClipStore)
    → Holds pending ts f d
    → IsIdle c
    → NoCollision t (pending ++ ts)
    → (o : Outcome ℕ) × (f' : SnipFile) × (d' : Dir) × (c' : ClipStore) × (cs_replace direction age
          t
          (sys f d false c)
        ≡ (o, sys f' d' false c'))
      × IsIdle c'
      × Holds pending (replaced_at direction age t ts) f' d'
cs_replace_any direction age t pending ts f d c r i free = elim (Bool-cases (ltb age (length ts))) [
  | inr e ↦
      let (c', refused, idle) =
        cs_replace_range direction age t pending ts f d c r i (not-ltb→le _ _ e) in
      (err erange, f, d, c', refused, idle, rw e r)
  | inl e ↦
      let k = place direction (length ts) age in
      let lt : k < length ts = place-lt direction (length ts) age (ltb→lt _ _ e) in
      let pre = take k ts in
      let post = drop (suc k) ts in
      let o = get_or ts k [] in
      let seam : ts ≡ pre ++ (o ∷ post) = split_at k ts [] lt in
      let at_k : length pre ≡ k = length-take_of_le k ts (omega arith) in
      let free' = subst (λ l. NoCollision t (pending ++ l)) seam free in
      let (f', d', (c', ran, idle), r') =
        cs_replace-Holds direction age pending pre post o t f d c
          (subst (λ l. Holds pending l f d) seam r) i (place-Aged direction age ts (ltb→lt _ _ e))
          (All-drop t pending pre post o free') in
      let put : pre ++ (t ∷ post) ≡ set ts k t =
        sym (set-append pre post o t)
        ∙ ap (λ n. set (pre ++ (o ∷ post)) n t) at_k
        ∙ ap (λ l. set l k t) (sym seam) in
      (ok _, f', d', c', ran, idle, rw e (subst (λ l. Holds pending l f' d') put r'))
]
