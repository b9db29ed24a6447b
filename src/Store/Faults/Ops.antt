-- ===== src/Store/Faults/Ops.antt =====
-- cs_add, cs_remove, cs_trim, cs_replace and cs_len of src/store.c whatever system calls fail.
use clipmenu.Prelude.{
  ℕ, zero, suc, ◌+◌, inl, inr, Bool, true, false, ◌||◌, none, leb, if◌then◌else◌, Bool-cases,
}
use clipmenu.Text.{Bytes, djb64_hash, first_line}
use clipmenu.Machine.{Sys, ok, ◌>>◌, pure}
use clipmenu.Store.Snips.{
  set_slot, slot, cs_snip_update, Direction, Pointer, cs_snip_iter, index_of,
}
use clipmenu.Store.Ops.{
  cs_add, remove_content, remove_loop, compact, remove_snips, cs_remove, trim_callback, cs_trim,
  replace_index, replace_at, replace_snip, cs_replace, cs_len,
}
use clipmenu.Store.Ops.Callbacks.{Action, cs_action_remove, cs_action_stop, has_action, Callback}
use clipmenu.Store.Faults.{IsFree, IsGuarded, On, Ends, Keeps, Keeps-bind, Keeps-then, Keeps-if}
use clipmenu.Store.Faults.Guard.{Keeps-with_guard}
use clipmenu.Store.Faults.Snips.{Keeps-cs_snip_add, Keeps-compact, set_slot-IsGuarded}
use clipmenu.Store.Faults.Content.{Keeps-cs_content_add, Keeps-cs_content_remove}

pub Keeps-pure : {A : Type 0} (P : Sys → Type 0) (a : A) → Keeps P (pure a)
Keeps-pure P a s h = h

pub Keeps-cs_add : (content : Bytes) → Keeps (On IsFree) (cs_add content)
unfolding cs_add
Keeps-cs_add content =
    Keeps-then (On IsFree) _ _ (Keeps-cs_content_add IsFree (djb64_hash content) content)
      (Keeps-then (On IsFree) _ _ (Keeps-cs_snip_add (djb64_hash content) _ _) (λ s h. h))

module _ {P : Type 0} (should_remove : Callback P) where
  Keeps-remove_content :
      (action : Action) (i : ℕ) → Keeps (On IsGuarded) (remove_content should_remove action i)
  unfolding remove_content
  Keeps-remove_content action i s g = elim (Bool-cases (has_action action cs_action_remove)) [
    | inl e ↦ rw e (
        Keeps-then (On IsGuarded) _ _ (Keeps-cs_content_remove IsGuarded (slot i s).hash)
          (λ s' g'. set_slot-IsGuarded i _ s' g') s g)
    | inr e ↦ rw e g
  ]

  Keeps-remove_loop :
      (fuel : ℕ) (direction : Direction) (snip : Pointer) (private : P) (found : Bool)
      → Keeps (On IsGuarded) (remove_loop should_remove fuel direction snip private found)
  unfolding remove_loop
  Keeps-remove_loop zero direction snip private found s g = g.sound
  Keeps-remove_loop (suc fuel) direction snip private found s g =
      let r = cs_snip_iter 0 direction s.file.header.nr_snips snip in
      let i = index_of r.1 in
      let a = should_remove private (slot i s).hash (slot i s).line in
      let found' = found || has_action a.0 cs_action_remove in
      visit r.0 r.1 a.0 a.1 found' (Keeps-remove_loop fuel direction r.1 a.1 found')
    where
      visit :
          (more : Bool) (snip' : Pointer) (action : Action) (private' : P) (found' : Bool)
          → Keeps (On IsGuarded) (remove_loop should_remove fuel direction snip' private' found')
          → Ends {A = Bool × P}
              (λ _. On IsGuarded)
              (On IsGuarded)
              (elim more [
                | false ↦ (ok (found, private), s)
                | true ↦
                    (do
                      remove_content should_remove action (index_of snip')
                      if has_action action cs_action_stop
                          then pure (found', private')
                          else remove_loop should_remove fuel direction snip' private' found')
                      s
              ])
      visit false snip' action private' found' rest = g
      visit true snip' action private' found' rest =
          Keeps-then (On IsGuarded) _ _ (Keeps-remove_content action (index_of snip'))
            (Keeps-if (On IsGuarded) (has_action action cs_action_stop) _ _ (λ s g. g) rest) s g

  pub Keeps-cs_remove :
      (direction : Direction) (private : P)
      → Keeps (On IsFree) (cs_remove should_remove direction private)
  unfolding cs_remove remove_snips
  Keeps-cs_remove direction private = Keeps-with_guard _ (
      Keeps-bind (On IsGuarded) _ _
        (λ s. Keeps-remove_loop (s.file.header.nr_snips + 1) direction none private false s)
        (λ r.
          Keeps-then (On IsGuarded) _ _
            (Keeps-if (On IsGuarded) r.0 compact (pure tt) Keeps-compact
              (Keeps-pure (On IsGuarded) tt))
            (Keeps-pure (On IsGuarded) r.1)))

pub Keeps-cs_trim :
    (direction : Direction) (nr_keep : ℕ) → Keeps (On IsFree) (cs_trim direction nr_keep)
unfolding cs_trim
Keeps-cs_trim direction nr_keep s h =
    Keeps-if (On IsFree) (leb s.file.header.nr_snips nr_keep) _ _ (Keeps-pure (On IsFree) tt)
      (Keeps-bind (On IsFree) _ _ (Keeps-cs_remove trim_callback direction nr_keep)
        (λ _. Keeps-pure (On IsFree) tt))
      s h

Keeps-replace_at : (idx : ℕ) (content : Bytes) → Keeps (On IsGuarded) (replace_at idx content)
unfolding replace_at
Keeps-replace_at idx content =
    let new = cs_snip_update (djb64_hash content) (first_line content).1 (first_line content).0 in
    Keeps-then (On IsGuarded) _ _ (λ s. Keeps-cs_content_remove IsGuarded (slot idx s).hash s)
      (Keeps-then (On IsGuarded) (λ s. (ok tt, set_slot idx new s)) _ (set_slot-IsGuarded idx new)
        (Keeps-then (On IsGuarded) _ _ (Keeps-cs_content_add IsGuarded (djb64_hash content) content)
          (Keeps-pure (On IsGuarded) (djb64_hash content))))

pub Keeps-cs_replace :
    (direction : Direction) (age : ℕ) (content : Bytes)
    → Keeps (On IsFree) (cs_replace direction age content)
unfolding cs_replace replace_snip
Keeps-cs_replace direction age content = Keeps-with_guard _ (λ s.
    Keeps-if (On IsGuarded) (leb s.file.header.nr_snips age) _ _ (λ s g. g)
      (Keeps-replace_at (replace_index direction s.file.header.nr_snips age) content) s)

pub Keeps-cs_len : Keeps (On IsFree) cs_len
unfolding cs_len
Keeps-cs_len = Keeps-with_guard _ (λ s g. g)
