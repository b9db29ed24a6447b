-- ===== src/Store/Ops/Loop.antt =====
-- The loop of cs_remove, in both directions: with a call of the content removal that finds its link
-- at each victim, the loop ends, with its victims marked.
use clipmenu.Prelude.{
  ℕ, zero, suc, ◌+◌, ◌-◌, ◌^◌, ◌≤◌, ◌<◌, ◌≡◌, sym, ap, ◌∙◌, ◌⊎◌, inl, inr, Bool, true, false, ◌||◌,
  some, List, [], ◌∷◌, ◌++◌, append_assoc, reverse, reverse-cons, arith, if◌then◌else◌, Bool-cases,
  length, length-append, get_or-append, set-append, length-reverse,
}
use clipmenu.Text.{Bytes}
use clipmenu.Machine.{Snip, SnipFile, ClipStore, Sys, ok}
use clipmenu.Machine.Calls.{zero_snip}
use clipmenu.Store.State.{Dir, sys}
use clipmenu.Store.Snips.{slot, Direction, newest_first, oldest_first, Pointer, next_pointer}
use clipmenu.Store.Snips.Compact.{with_slots}
use clipmenu.Store.Content.Links.{shelf, put, cs_content_remove_lem}
use clipmenu.Store.Ops.Callbacks.{Action, Callback}
use clipmenu.Store.Ops.Sweep.{
  removes, stops, mark, action_on, private_after, marked, victims, found_after, private_end,
  victims_after, RemovesAll,
}
use clipmenu.Store.Ops.{remove_content, remove_loop}

module _ {P : Type 0} (should_remove : Callback P) (f : SnipFile) (c : ClipStore) where
  abbrev pub at_slots : List Snip → Dir → Sys
  at_slots l d = sys (with_slots l f) d true c

  module _ (a : Action) (pre post : List Snip) (x : Snip) (d : Dir) where
    remove_content_keep :
        removes a ≡ false
        → remove_content should_remove a (length pre) (at_slots (pre ++ (x ∷ post)) d)
          ≡ (ok tt, at_slots (pre ++ (mark a x ∷ post)) d)
    unfolding remove_content
    remove_content_keep e = ground arith

    remove_content_go :
        (n : ℕ) (u : Bytes)
        → removes a ≡ true
        → suc n < 2 ^ 32
        → d x.hash ≡ shelf (suc n) u
        → remove_content should_remove a (length pre) (at_slots (pre ++ (x ∷ post)) d)
          ≡ (ok tt, at_slots (pre ++ (mark a x ∷ post)) (put x.hash (shelf n u) d))
    unfolding remove_content
    remove_content_go n u e lt link = ground (
      arith,
      get_or-append pre post x zero_snip,
      set-append pre post x (record x { doomed = true }),
      cs_content_remove_lem (with_slots (pre ++ (x ∷ post)) f) true c x.hash n u d lt link,
    )

  -- One removal, or none, and what is to be removed after it.
  round :
      (p : P) (pre post : List Snip) (x : Snip) (xs : List Snip) (d d' : Dir)
      → RemovesAll (victims should_remove p (x ∷ xs)) d d'
      → (d₁ : Dir) × (remove_content should_remove
            (action_on should_remove p x)
            (length pre)
            (at_slots (pre ++ (x ∷ post)) d)
          ≡ (ok tt, at_slots (pre ++ (mark (action_on should_remove p x) x ∷ post)) d₁))
        × RemovesAll (victims_after should_remove p x xs) d₁ d'
  round p pre post x xs d d' all = elim (Bool-cases (removes (action_on should_remove p x))) [
    | inl e ↦
        let (n, u, lt, link, rest) = with_victim e all in
        (
          put x.hash (shelf n u) d,
          remove_content_go (action_on should_remove p x) pre post x d n u e lt link,
          rest,
        )
    | inr e ↦
        (d, remove_content_keep (action_on should_remove p x) pre post x d e, without_victim e all)
  ]
    where
      with_victim :
          removes (action_on should_remove p x) ≡ true
          → RemovesAll (victims should_remove p (x ∷ xs)) d d'
          → RemovesAll (x.hash ∷ victims_after should_remove p x xs) d d'
      with_victim e h = rw e at h

      without_victim :
          removes (action_on should_remove p x) ≡ false
          → RemovesAll (victims should_remove p (x ∷ xs)) d d'
          → RemovesAll (victims_after should_remove p x xs) d d'
      without_victim e h = rw e at h

index_suc : (i : ℕ) → suc i - 1 ≡ i
index_suc i = omega arith

module _ {P : Type 0} (should_remove : Callback P) (fuel : ℕ) (direction : Direction) where
  module _ (snip : Pointer) (p : P) (found : Bool) (s : Sys) where
    loop_end :
        (next_pointer direction s.file.header.nr_snips snip ≡ 0)
          ⊎ (s.file.header.nr_snips < next_pointer direction s.file.header.nr_snips snip)
        → remove_loop should_remove (suc fuel) direction snip p found s ≡ (ok (found, p), s)
    unfolding remove_loop
    loop_end (inl e) = ground arith
    loop_end (inr e) = ground arith

    loop_step :
        (i : ℕ) (x : Snip) (s' : Sys)
        → next_pointer direction s.file.header.nr_snips snip ≡ suc i
        → i < s.file.header.nr_snips
        → slot i s ≡ x
        → remove_content should_remove (action_on should_remove p x) i s ≡ (ok tt, s')
        → remove_loop should_remove (suc fuel) direction snip p found s ≡ (
            let found' = found || removes (action_on should_remove p x) in
            if stops (action_on should_remove p x)
            then (ok (found', private_after should_remove p x), s')
            else remove_loop should_remove fuel direction
                (some (suc i))
                (private_after should_remove p x)
                found'
                s')
    unfolding remove_loop
    loop_step i x s' it lt here made = ground (arith, index_suc i)

-- The loop returns `found`, with its marks in `slots'`.
module _ {P : Type 0} (should_remove : Callback P) (f : SnipFile) (c : ClipStore) where
  abbrev pub Loops :
      ℕ → Direction → Pointer → P → Bool → List Snip → Dir → List Snip → List Snip → Dir → Type 0
  Loops fuel direction snip p found slots d xs slots' d' =
      remove_loop should_remove fuel direction snip p found (at_slots should_remove f c slots d) ≡ (
        ok (found_after should_remove p found xs, private_end should_remove p xs),
        at_slots should_remove f c slots' d',
      )

  module _ (p : P) (x : Snip) (xs : List Snip) (d₁ d' : Dir) where
    rest_stop :
        stops (action_on should_remove p x) ≡ true
        → RemovesAll (victims_after should_remove p x xs) d₁ d'
        → d₁ ≡ d'
    rest_stop e h = rw e at h

    rest_go :
        stops (action_on should_remove p x) ≡ false
        → RemovesAll (victims_after should_remove p x xs) d₁ d'
        → RemovesAll (victims should_remove (private_after should_remove p x) xs) d₁ d'
    rest_go e h = rw e at h

  oldest_pointer : (k nr : ℕ) → next_pointer oldest_first nr (some (suc k)) ≡ suc (suc k)
  unfolding next_pointer
  oldest_pointer k nr = omega arith

  newest_pointer : (k nr : ℕ) → next_pointer newest_first nr (some (suc k)) ≡ k
  unfolding next_pointer
  newest_pointer k nr = omega arith

  pub loop_oldest :
      (xs kept tail : List Snip) (fuel : ℕ) (snip : Pointer) (p : P) (found : Bool) (d d' : Dir)
      → length xs < fuel
      → f.header.nr_snips ≡ length kept + length xs
      → next_pointer oldest_first f.header.nr_snips snip ≡ suc (length kept)
      → RemovesAll (victims should_remove p xs) d d'
      → Loops fuel oldest_first snip p found
          (kept ++ (xs ++ tail))
          d
          xs
          (kept ++ (marked should_remove p xs ++ tail))
          d'
  loop_oldest xs kept tail zero snip p found d d' lt nr it all = absurd (omega arith)
  loop_oldest [] kept tail (suc fuel) snip p found d d' lt nr it all =
      loop_end should_remove fuel oldest_first snip p found _ (inr (omega arith))
      ∙ ap (λ e. (ok (found, p), at_slots should_remove f c (kept ++ tail) e)) all
  loop_oldest (x ∷ xs) kept tail (suc fuel) snip p found d d' lt nr it all =
      let (d₁, made, rest) = round should_remove f c p kept (xs ++ tail) x xs d d' all in
      let a = action_on should_remove p x in
      let p' = private_after should_remove p x in
      let y = mark a x in
      let step =
        loop_step should_remove fuel oldest_first snip p found _ (length kept) x _ it (omega arith)
          (get_or-append kept (xs ++ tail) x zero_snip) made in
      elim (Bool-cases (stops a)) [
        | inl e ↦ step ∙ ground (arith, rest_stop p x xs d₁ d' e rest)
        | inr e ↦
            step
            ∙ ground (
              arith,
              loop_oldest xs (kept ++ (y ∷ [])) tail fuel (some (suc (length kept))) p'
                  (found || removes a) d₁ d' (omega arith)
                  (omega (arith, length-append {0} kept (y ∷ [])))
                  (omega (
                    arith,
                    length-append {0} kept (y ∷ []),
                    oldest_pointer (length kept) f.header.nr_snips,
                  ))
                  (rest_go p x xs d₁ d' e rest),
              append_assoc kept (y ∷ []) (xs ++ tail),
              append_assoc kept (y ∷ []) (marked should_remove p' xs ++ tail),
            )
      ]

  reverse_seam :
      (x : Snip) (xs post : List Snip) → reverse (x ∷ xs) ++ post ≡ reverse xs ++ (x ∷ post)
  reverse_seam x xs post = rw reverse-cons (append_assoc (reverse xs) (x ∷ []) post)

  pub loop_newest :
      (xs post : List Snip) (fuel : ℕ) (snip : Pointer) (p : P) (found : Bool) (d d' : Dir)
      → length xs < fuel
      → length xs ≤ f.header.nr_snips
      → next_pointer newest_first f.header.nr_snips snip ≡ length xs
      → RemovesAll (victims should_remove p xs) d d'
      → Loops fuel newest_first snip p found
          (reverse xs ++ post)
          d
          xs
          (reverse (marked should_remove p xs) ++ post)
          d'
  loop_newest xs post zero snip p found d d' lt nr it all = absurd (omega arith)
  loop_newest [] post (suc fuel) snip p found d d' lt nr it all =
      loop_end should_remove fuel newest_first snip p found _ (inl it)
      ∙ ap (λ e. (ok (found, p), at_slots should_remove f c post e)) all
  loop_newest (x ∷ xs) post (suc fuel) snip p found d d' lt nr it all =
      let (d₁, made, rest) = round should_remove f c p (reverse xs) post x xs d d' all in
      let a = action_on should_remove p x in
      let p' = private_after should_remove p x in
      let y = mark a x in
      let step =
        loop_step should_remove fuel newest_first snip p found
          (at_slots should_remove f c (reverse xs ++ (x ∷ post)) d) (length (reverse xs)) x _
          (it ∙ ap suc (sym (length-reverse xs))) (omega (arith, length-reverse {0} xs))
          (get_or-append (reverse xs) post x zero_snip) made in
      rw (reverse_seam x xs post) (elim (Bool-cases (stops a)) [
        | inl e ↦ step ∙ ground (arith, rest_stop p x xs d₁ d' e rest, reverse_seam y xs post)
        | inr e ↦
            step
            ∙ ground (
              arith,
              loop_newest xs (y ∷ post) fuel (some (suc (length (reverse xs)))) p'
                  (found || removes a) d₁ d' (omega arith) (omega arith)
                  (newest_pointer (length (reverse xs)) f.header.nr_snips ∙ length-reverse xs)
                  (rest_go p x xs d₁ d' e rest),
              reverse_seam y (marked should_remove p' xs) post,
            )
      ])
