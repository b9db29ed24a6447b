-- ===== src/Store/Ops/Sweep.antt =====
-- What the loop of cs_remove does to the snips that it visits, in the order of its visits.
use clipmenu.Prelude.{
  ℕ, suc, ◌^◌, ◌<◌, ◌≡◌, refl, Bool, true, ◌||◌, List, [], ◌∷◌, arith, if◌then◌else◌, length,
}
use clipmenu.Text.{Bytes}
use clipmenu.Machine.{Snip}
use clipmenu.Store.State.{Dir}
use clipmenu.Store.Content.Links.{shelf, put}
use clipmenu.Store.Ops.Callbacks.{Action, cs_action_remove, cs_action_stop, has_action, Callback}

-- May this action remove, or end the loop?
abbrev pub removes : Action → Bool
removes a = has_action a cs_action_remove

abbrev pub stops : Action → Bool
stops a = has_action a cs_action_stop

abbrev pub mark : Action → Snip → Snip
mark a x = if removes a then record x { doomed = true } else x

module _ {P : Type 0} (should_remove : Callback P) where
  abbrev pub action_on : P → Snip → Action
  action_on p x = (should_remove p x.hash x.line).0

  abbrev pub private_after : P → Snip → P
  private_after p x = (should_remove p x.hash x.line).1

  -- The snips after the loop, the removed ones marked.
  abbrev pub marked : P → List Snip → List Snip
  marked p [] = []
  marked p (x ∷ xs) =
      let rest = marked (private_after p x) xs in
      mark (action_on p x) x ∷ (if stops (action_on p x) then xs else rest)

  -- The hashes whose content is removed, in order.
  abbrev pub victims : P → List Snip → List ℕ
  victims p [] = []
  victims p (x ∷ xs) =
      let rest = if stops (action_on p x) then [] else victims (private_after p x) xs in
      if removes (action_on p x) then x.hash ∷ rest else rest

  -- The snips that are left.
  abbrev pub survivors : P → List Snip → List Snip
  survivors p [] = []
  survivors p (x ∷ xs) =
      let rest = if stops (action_on p x) then xs else survivors (private_after p x) xs in
      if removes (action_on p x) then rest else x ∷ rest

  pub length-marked : (p : P) (xs : List Snip) → length (marked p xs) ≡ length xs
  length-marked p [] = refl
  length-marked p (x ∷ xs) = ground (arith, length-marked (private_after p x) xs)

-- Each removal finds a link to take away, one after the other; `d'` is what is left.
abbrev pub RemovesAll : List ℕ → Dir → Dir → Type 0
RemovesAll [] d d' = d ≡ d'
RemovesAll (h ∷ hs) d d' =
    (n : ℕ) × (u : Bytes) × (suc n < 2 ^ 32)
    × (d h ≡ shelf (suc n) u)
    × RemovesAll hs (put h (shelf n u) d) d'

module _ {P : Type 0} (should_remove : Callback P) where
  -- `found` after the loop.
  abbrev pub found_after : P → Bool → List Snip → Bool
  found_after p found [] = found
  found_after p found (x ∷ xs) =
      let found' = found || removes (action_on should_remove p x) in
      let rest = found_after (private_after should_remove p x) found' xs in
      if stops (action_on should_remove p x) then found' else rest

  abbrev pub victims_after : P → Snip → List Snip → List ℕ
  victims_after p x xs =
      if stops (action_on should_remove p x)
      then []
      else victims should_remove (private_after should_remove p x) xs

  -- The private data after the loop.
  abbrev pub private_end : P → List Snip → P
  private_end p [] = p
  private_end p (x ∷ xs) =
      let p' = private_after should_remove p x in
      let rest = private_end p' xs in if stops (action_on should_remove p x) then p' else rest
