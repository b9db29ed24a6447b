-- ===== src/Store/Faults/Snips.antt =====
-- The snips of src/store.c whatever system calls fail: cs_file_resize, cs_snip_add and the compaction.
use clipmenu.Prelude.{
  ℕ, zero, suc, ◌+◌, ◌-◌, ◌%◌, ◌≤◌, ◌≡◌, refl, sym, ◌∙◌, subst, inl, inr, Option, none, some, arith,
  ltb, ltb→lt, not-ltb→le, Bool-cases, length-set,
}
use clipmenu.Text.{Bytes, add64, u64_mod}
use clipmenu.Machine.{Snip, Sys}
use clipmenu.Store.Snips.{
  set_slot, slot, cs_file_resize, write_last, add_last, cs_snip_add, shift_slot, remove_doomed,
  cs_snip_remove_doomed,
}
use clipmenu.Store.Ops.{compact, resize_after}
use clipmenu.Store.Snips.Compact.{doomed_end, doomed_skip, doomed_keep, from_null}
use clipmenu.Store.Faults.{IsFree, IsGuarded, On, Ends, Keeps, Ends-bind}
use clipmenu.Store.Faults.Guard.{Keeps-with_guard}
use native.Mathlib.Numerals.{add-one}
use clipmenu.Store.Faults.Resize.{cs_file_resize-IsGuarded}

-- Writing a snip changes nothing that the header says.
pub set_slot-IsGuarded :
    (i : ℕ) (x : Snip) (s : Sys) → On IsGuarded s → On IsGuarded (set_slot i x s)
set_slot-IsGuarded i x s g = record {
  sound = record {
    used = g.sound.used;
    inside = omega (arith, g.sound.inside, length-set s.file.slots i x);
    bounded = g.sound.bounded;
    begun = g.sound.begun;
  };
  mapped = g.mapped;
  current = g.current;
  one_ref = g.one_ref;
  locked_true = g.locked_true;
}

pub Keeps-cs_snip_add :
    (hash : ℕ) (line : Bytes) (nr_lines : ℕ) → Keeps (On IsFree) (cs_snip_add hash line nr_lines)
unfolding cs_snip_add add_last write_last
Keeps-cs_snip_add hash line nr_lines = Keeps-with_guard _ (λ s g.
    Ends-bind (λ _. On IsGuarded) (λ _. On IsGuarded) (On IsGuarded)
      (cs_file_resize (add64 s.file.header.nr_snips 1) s) _
      (cs_file_resize-IsGuarded (add64 s.file.header.nr_snips 1) s g (omega arith))
      (λ _ s' g'. set_slot-IsGuarded (s'.file.header.nr_snips - 1) _ s' g'))

shift_slot-IsGuarded : (i n : ℕ) (s : Sys) → On IsGuarded s → On IsGuarded (shift_slot i n s)
shift_slot-IsGuarded i n s g = elim (Bool-cases (ltb 0 n)) [
  | inl e ↦ rw e (set_slot-IsGuarded (i - n) (slot i s) s g)
  | inr e ↦ rw e g
]

-- What the compaction of these snips leaves: fewer doomed ones were counted than there are snips.
abbrev Swept : ℕ → Option ℕ × Sys → Type 0
Swept n (none, s) = On IsGuarded s
Swept n (some nr_doomed, s) = On IsGuarded s × (s.file.header.nr_snips ≡ n) × (nr_doomed ≤ n)

shift_slot_nr :
    (i k : ℕ) (s : Sys) → (shift_slot i k s).file.header.nr_snips ≡ s.file.header.nr_snips
shift_slot_nr i k s = ground arith

remove_doomed-Swept :
    (fuel p k n : ℕ) (s : Sys)
    → On IsGuarded s
    → s.file.header.nr_snips ≡ n
    → k ≤ p
    → k ≤ n
    → Swept n (remove_doomed fuel (some p) k s)
unfolding remove_doomed
remove_doomed-Swept zero p k n s g e at le = g
remove_doomed-Swept (suc fuel) p k n s g e at le =
    elim (Bool-cases (ltb p s.file.header.nr_snips)) [
      | inr f ↦ subst (Swept n) (sym (doomed_end fuel p k s (not-ltb→le _ _ f))) (g, e, le)
      | inl m ↦
          let lt = ltb→lt _ _ m in
          elim (Bool-cases (slot p s).doomed) [
            | inl d ↦
                subst (Swept n) (sym (doomed_skip fuel p k s lt d))
                  (remove_doomed-Swept fuel (p + 1) (k + 1) n s g e (omega arith) (omega arith))
            | inr d ↦ subst (Swept n) (sym (doomed_keep fuel p k s lt d)) (
                remove_doomed-Swept fuel (p + 1) k n (shift_slot p k s)
                  (shift_slot-IsGuarded p k s g) (shift_slot_nr p k s ∙ e) (omega arith) le)
          ]
    ]

-- Each snip that the compaction counts is one of the snips in use.
pub Keeps-compact : Keeps (On IsGuarded) compact
unfolding compact cs_snip_remove_doomed
Keeps-compact s g = cut _ (subst (Swept s.file.header.nr_snips) (sym (started s)) swept)
  where
    started :
        (s : Sys)
        → remove_doomed (s.file.header.nr_snips + 1) none 0 s
          ≡ remove_doomed (s.file.header.nr_snips + 1) (some 0) 0 s
    started s = rw (add-one s.file.header.nr_snips) (from_null s.file.header.nr_snips s)

    swept : Swept s.file.header.nr_snips (remove_doomed (s.file.header.nr_snips + 1) (some 0) 0 s)
    swept =
        remove_doomed-Swept (s.file.header.nr_snips + 1) 0 0 s.file.header.nr_snips s g refl
          (omega arith) (omega arith)

    cut :
        (o : Option ℕ × Sys)
        → Swept s.file.header.nr_snips o
        → Ends (λ _. On IsGuarded) (On IsGuarded) (resize_after o.0 o.1)
    cut (none, s') g' = g'.sound
    cut (some k, s') (g', e, le) =
        cs_file_resize-IsGuarded ((s'.file.header.nr_snips + u64_mod - k) % u64_mod) s' g'
          (omega (arith, g'.sound.bounded, g'.sound.used))
