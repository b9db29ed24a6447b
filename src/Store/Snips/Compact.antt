-- ===== src/Store/Snips/Compact.antt =====
-- cs_snip_remove_doomed of src/store.c: the snips that stay move down in their order.
use clipmenu.Prelude.{
  ℕ, zero, suc, ◌+◌, ◌-◌, ◌≤◌, ◌<◌, ◌≡◌, refl, sym, ap, ◌∙◌, inl, inr, true, false, Option, none,
  some, List, [], ◌∷◌, ◌++◌, append_assoc, append-nil, arith, if◌then◌else◌, lt→ltb, Bool-cases,
  length, take, drop, length-append, get_or-append, set-append, take-append, take-append-drop,
  length-take_of_le,
}
use clipmenu.Machine.{Snip, SnipFile, ClipStore, Sys}
use clipmenu.Machine.Calls.{zero_snip}
use native.Mathlib.Nat.{add-zero, zero-add}
use native.Mathlib.Numerals.{add-one}
use clipmenu.Store.State.{Dir, sys, live}
use clipmenu.Store.Snips.{remove_doomed, cs_snip_remove_doomed, slot, shift_slot}

-- The snips that are not marked, and the number of those that are.
abbrev pub undoomed : List Snip → List Snip
undoomed [] = []
undoomed (x ∷ xs) = if x.doomed then undoomed xs else x ∷ undoomed xs

abbrev pub nr_doomed : List Snip → ℕ
nr_doomed [] = 0
nr_doomed (x ∷ xs) = (if x.doomed then 1 else 0) + nr_doomed xs

pub length-undoomed : (xs : List Snip) → length (undoomed xs) + nr_doomed xs ≡ length xs
length-undoomed [] = omega arith
length-undoomed (x ∷ xs) = ground (arith, length-undoomed xs)

abbrev pub with_slots : List Snip → SnipFile → SnipFile
with_slots xs f = record f { slots = xs }

-- Moving `x` down over a gap of one or more slots leaves a gap of the same length behind it.
abbrev next_gap : List Snip → Snip → List Snip
next_gap [] x = []
next_gap (g ∷ gap) x = gap ++ (x ∷ [])

length-next_gap : (gap : List Snip) (x : Snip) → length (next_gap gap x) ≡ length gap
length-next_gap [] x = refl
length-next_gap (g ∷ gap) x = omega (arith, length-append {0} gap (x ∷ []))

back : (a b : ℕ) → a + b - b ≡ a
back a b = omega arith

regroup :
    (kept : List Snip) (x : Snip) (gap rest : List Snip)
    → kept ++ (x ∷ (gap ++ (x ∷ rest))) ≡ (kept ++ (x ∷ [])) ++ ((gap ++ (x ∷ [])) ++ rest)
regroup kept x gap rest = simp append_assoc

module _ (f : SnipFile) (d : Dir) (c : ClipStore) (kept : List Snip) (x : Snip)
    (rest : List Snip) where
  slot_at_gap :
      (gap : List Snip)
      → slot (length kept + length gap) (sys (with_slots (kept ++ (gap ++ (x ∷ rest))) f) d true c)
        ≡ x
  slot_at_gap gap =
      rw (← append_assoc kept gap (x ∷ rest))
        (rw (← length-append kept gap) (get_or-append (kept ++ gap) rest x zero_snip))

  shift-next_gap :
      (gap : List Snip)
      → shift_slot
          (length kept + length gap)
          (length gap)
          (sys (with_slots (kept ++ (gap ++ (x ∷ rest))) f) d true c)
        ≡ sys (with_slots ((kept ++ (x ∷ [])) ++ (next_gap gap x ++ rest)) f) d true c
  shift-next_gap [] = rw append_assoc
  shift-next_gap (g ∷ gap) = rw (slot_at_gap (g ∷ gap)) (
      rw (lt→ltb 0 (suc (length gap)) (omega arith), back (length kept) (length (g ∷ gap)))
        (ap (λ l. sys (with_slots l f) d true c)
          (set-append kept (gap ++ (x ∷ rest)) g x ∙ regroup kept x gap rest)))

module _ (fuel p n : ℕ) (s : Sys) where
  pub doomed_end : s.file.header.nr_snips ≤ p → remove_doomed (suc fuel) (some p) n s ≡ (some n, s)
  unfolding remove_doomed
  doomed_end h = ground arith

  pub doomed_skip :
      p < s.file.header.nr_snips
      → (slot p s).doomed ≡ true
      → remove_doomed (suc fuel) (some p) n s ≡ remove_doomed fuel (some (p + 1)) (n + 1) s
  unfolding remove_doomed
  doomed_skip h e = ground (arith, back p 1)

  pub doomed_keep :
      p < s.file.header.nr_snips
      → (slot p s).doomed ≡ false
      → remove_doomed (suc fuel) (some p) n s
        ≡ remove_doomed fuel (some (p + 1)) n (shift_slot p n s)
  unfolding remove_doomed
  doomed_keep h e = ground (arith, back p 1)

-- With enough fuel the loop ends, with the snips that stay in front and the marked ones counted.
module _ (tail : List Snip) (f : SnipFile) (d : Dir) (c : ClipStore) where
  abbrev at_slots : List Snip → Sys
  at_slots l = sys (with_slots l f) d true c

  abbrev Compacts : ℕ → ℕ → ℕ → Sys → List Snip → List Snip → Type 0
  Compacts fuel p n s kept xs =
      (junk : List Snip) × (remove_doomed fuel (some p) n s
        ≡ (some (n + nr_doomed xs), at_slots ((kept ++ undoomed xs) ++ (junk ++ tail))))
      × (length junk ≡ n + nr_doomed xs)

  remove_doomed_lem :
      (xs kept gap : List Snip) (fuel p n : ℕ) (s : Sys)
      → length xs < fuel
      → f.header.nr_snips ≡ p + length xs
      → p ≡ length kept + length gap
      → n ≡ length gap
      → s ≡ at_slots (kept ++ (gap ++ (xs ++ tail)))
      → Compacts fuel p n s kept xs
  remove_doomed_lem xs kept gap zero p n s lt nr ep en es = absurd (omega arith)
  remove_doomed_lem [] kept gap (suc fuel) p n s lt nr ep en es = (gap, step ∙ ends, omega arith)
    where
      nr_s : s.file.header.nr_snips ≡ p
      nr_s = ap (λ (t : Sys). t.file.header.nr_snips) es ∙ omega arith

      step : remove_doomed (suc fuel) (some p) n s ≡ (some n, s)
      step = doomed_end fuel p n s (omega (arith, nr_s))

      ends :
          ◌≡◌ {A = Option ℕ × Sys}
            (some n, s)
            (some (n + 0), at_slots ((kept ++ []) ++ (gap ++ tail)))
      ends = rw (add-zero, append-nil, es)
  remove_doomed_lem (x ∷ xs) kept gap (suc fuel) p n s lt nr ep en es = elim (Bool-cases x.doomed) [
    | inl e ↦
        let (junk, ends, len) =
          remove_doomed_lem xs kept (gap ++ (x ∷ [])) fuel (p + 1) (n + 1) s (omega arith)
            (omega arith) (omega (arith, length-append {0} gap (x ∷ [])))
            (omega (arith, length-append {0} gap (x ∷ []))) (es ∙ skipped) in
        (
          junk,
          doomed_skip fuel p n s (omega (arith, nr_s)) (ap (λ (y : Snip). y.doomed) here ∙ e)
              ∙ ends
              ∙ ground arith,
          ground arith,
        )
    | inr e ↦
        let (junk, ends, len) =
          remove_doomed_lem xs (kept ++ (x ∷ [])) (next_gap gap x) fuel (p + 1) n (shift_slot p n s)
            (omega arith) (omega arith)
            (omega (arith, length-append {0} kept (x ∷ []), length-next_gap gap x))
            (omega (arith, length-next_gap gap x)) moved in
        (
          junk,
          doomed_keep fuel p n s (omega (arith, nr_s)) (ap (λ (y : Snip). y.doomed) here ∙ e)
              ∙ ends
              ∙ ground (arith, append_assoc kept (x ∷ []) (undoomed xs)),
          ground arith,
        )
  ]
    where
      nr_s : s.file.header.nr_snips ≡ p + length (x ∷ xs)
      nr_s = ap (λ (t : Sys). t.file.header.nr_snips) es ∙ nr

      here : slot p s ≡ x
      here = rw (es, ep) (slot_at_gap f d c kept x (xs ++ tail) gap)

      skipped :
          at_slots (kept ++ (gap ++ (x ∷ (xs ++ tail))))
          ≡ at_slots (kept ++ ((gap ++ (x ∷ [])) ++ (xs ++ tail)))
      skipped = simp append_assoc

      moved : shift_slot p n s ≡ at_slots ((kept ++ (x ∷ [])) ++ (next_gap gap x ++ (xs ++ tail)))
      moved = rw (es, ep, en) (shift-next_gap f d c kept x (xs ++ tail) gap)

count_from_zero : (k : ℕ) (s : Sys) → ◌≡◌ {A = Option ℕ × Sys} (some (0 + k), s) (some k, s)
count_from_zero k s = rw (zero-add k)

pub from_null :
    (fuel : ℕ) (s : Sys) → remove_doomed (suc fuel) none 0 s ≡ remove_doomed (suc fuel) (some 0) 0 s
unfolding remove_doomed
from_null fuel s = refl

-- Compaction leaves the snips that are not marked in front, in their order.
pub cs_snip_remove_doomed_lem :
    (f : SnipFile) (d : Dir) (c : ClipStore)
    → f.header.nr_snips ≤ length f.slots
    → (slots' : List Snip) × (cs_snip_remove_doomed (sys f d true c)
        ≡ (some (nr_doomed (live f)), sys (with_slots slots' f) d true c))
      × (take (length (undoomed (live f))) slots' ≡ undoomed (live f))
      × (length slots' ≡ length f.slots)
unfolding cs_snip_remove_doomed
cs_snip_remove_doomed_lem f d c h =
    let n = f.header.nr_snips in
    let (junk, ends, len) =
      remove_doomed_lem (drop n f.slots) f d c (live f) [] [] (suc n) 0 0 (sys f d true c)
        (omega (arith, length-take_of_le n f.slots h))
        (omega (arith, length-take_of_le n f.slots h)) (omega arith) (omega arith)
        (ap (λ l. sys (with_slots l f) d true c) (sym (take-append-drop n f.slots))) in
    (
      undoomed (live f) ++ (junk ++ drop n f.slots),
      rw add-one (from_null n (sys f d true c) ∙ ends ∙ count_from_zero _ _),
      take-append (undoomed (live f)) (junk ++ drop n f.slots),
      omega (
        arith,
        len,
        length-append {0} (undoomed (live f)) (junk ++ drop n f.slots),
        length-append {0} junk (drop n f.slots),
        length-undoomed (live f),
        length-take_of_le n f.slots h,
        ap length (take-append-drop n f.slots),
        length-append {0} (take n f.slots) (drop n f.slots),
      ),
    )
