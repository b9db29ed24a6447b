-- ===== src/Store/Ops/Order.antt =====
-- The order in which cs_remove of src/store.c visits the snips, and the snips that its sweep leaves.
use clipmenu.Prelude.{
  ◌≤◌, ◌<◌, ◌≡◌, refl, true, false, List, [], ◌∷◌, ◌++◌, append-nil, reverse, reverse-reverse,
  reverse-cons, arith, length, All, All-append, length-reverse,
}
use clipmenu.Machine.{Snip}
use clipmenu.Store.Snips.{Direction, newest_first, oldest_first}
use clipmenu.Store.Snips.Compact.{undoomed}
use clipmenu.Store.Ops.Callbacks.{Callback}
use clipmenu.Store.Ops.Sweep.{private_after, marked, survivors, found_after}

-- The snips in the order of the visits, and back.
abbrev pub order : Direction → List Snip → List Snip
order oldest_first xs = xs
order newest_first xs = reverse xs

abbrev pub Undoomed : List Snip → Type 0
Undoomed = All (λ x. x.doomed ≡ false)

undoomed_id : (xs : List Snip) → Undoomed xs → undoomed xs ≡ xs
undoomed_id [] h = refl
undoomed_id (x ∷ xs) h = ground (arith, undoomed_id xs h.1)

undoomed-append : (xs ys : List Snip) → undoomed (xs ++ ys) ≡ undoomed xs ++ undoomed ys
undoomed-append [] ys = refl
undoomed-append (x ∷ xs) ys = ground (arith, undoomed-append xs ys)

undoomed-reverse : (xs : List Snip) → undoomed (reverse xs) ≡ reverse (undoomed xs)
undoomed-reverse [] = refl
undoomed-reverse (x ∷ xs) = ground (
  arith,
  undoomed-reverse xs,
  reverse-cons x xs,
  reverse-cons x (undoomed xs),
  undoomed-append (reverse xs) (x ∷ []),
  append-nil (undoomed (reverse xs)),
)

Undoomed-reverse : (xs : List Snip) → Undoomed xs → Undoomed (reverse xs)
Undoomed-reverse [] h = tt
Undoomed-reverse (x ∷ xs) h =
    rw reverse-cons
      (All-append (λ y. y.doomed ≡ false) (reverse xs) (x ∷ []) (Undoomed-reverse xs h.1) (h.0, tt))

module _ {P : Type 0} (should_remove : Callback P) where
  pub undoomed-marked :
      (p : P) (xs : List Snip)
      → Undoomed xs
      → undoomed (marked should_remove p xs) ≡ survivors should_remove p xs
  undoomed-marked p [] h = refl
  undoomed-marked p (x ∷ xs) h =
      ground (arith, undoomed-marked (private_after should_remove p x) xs h.1, undoomed_id xs h.1)

  -- Once something is found, that stays.
  found_stays : (p : P) (xs : List Snip) → found_after should_remove p true xs ≡ true
  found_stays p [] = refl
  found_stays p (x ∷ xs) = ground (arith, found_stays (private_after should_remove p x) xs)

  pub nothing_found :
      (p : P) (xs : List Snip)
      → found_after should_remove p false xs ≡ false
      → (marked should_remove p xs ≡ xs) × (survivors should_remove p xs ≡ xs)
  nothing_found p [] h = (refl, refl)
  nothing_found p (x ∷ xs) h = ground (
    arith,
    nothing_found (private_after should_remove p x) xs,
    found_stays (private_after should_remove p x) xs,
  )

  survivors-le : (p : P) (xs : List Snip) → length (survivors should_remove p xs) ≤ length xs
  survivors-le p [] = omega arith
  survivors-le p (x ∷ xs) = ground (arith, survivors-le (private_after should_remove p x) xs)

  pub something_found :
      (p : P) (xs : List Snip)
      → found_after should_remove p false xs ≡ true
      → length (survivors should_remove p xs) < length xs
  something_found p [] h = cc
  something_found p (x ∷ xs) h = ground (
    arith,
    something_found (private_after should_remove p x) xs,
    survivors-le (private_after should_remove p x) xs,
  )

pub length-order :
    (direction : Direction) (xs : List Snip) → length (order direction xs) ≡ length xs
length-order oldest_first xs = refl
length-order newest_first xs = length-reverse xs

pub undoomed-order :
    (direction : Direction) (xs : List Snip)
    → undoomed (order direction xs) ≡ order direction (undoomed xs)
undoomed-order oldest_first xs = refl
undoomed-order newest_first xs = undoomed-reverse xs

pub Undoomed-order :
    (direction : Direction) (xs : List Snip) → Undoomed xs → Undoomed (order direction xs)
Undoomed-order oldest_first xs h = h
Undoomed-order newest_first xs h = Undoomed-reverse xs h

pub order-order :
    (direction : Direction) (xs : List Snip) → order direction (order direction xs) ≡ xs
order-order oldest_first xs = refl
order-order newest_first xs = reverse-reverse xs
