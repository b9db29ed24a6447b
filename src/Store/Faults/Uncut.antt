-- ===== src/Store/Faults/Uncut.antt =====
-- cs_remove of src/store.c where the ftruncate() behind its compaction fails.
use clipmenu.Prelude.{
  ℕ, zero, suc, ◌+◌, ◌-◌, ◌%◌, ◌≤◌, ◌<◌, ◌≡◌, refl, sym, ap, ◌∙◌, inl, inr, true, false, Option,
  none, some, List, ◌∷◌, arith, ltb, leb, ltb→lt, not-ltb→le, lt→not-leb, Bool-cases, length, take,
  take-take, length-take_of_le,
}
use clipmenu.Text.{u64_mod}
use clipmenu.Machine.{Snip, SnipFile, ClipStore, Fate, fail, Sys, err, negative_errno}
use clipmenu.Machine.Calls.{ftruncate}
use clipmenu.Store.State.{Dir, sys, IsValid, live}
use clipmenu.Store.Snips.{
  slot, shift_slot, remove_doomed, cs_snip_remove_doomed, resize_file, cs_file_resize,
}
use clipmenu.Store.Snips.Compact.{
  with_slots, undoomed, nr_doomed, length-undoomed, doomed_end, doomed_skip, doomed_keep, from_null,
  cs_snip_remove_doomed_lem,
}
use clipmenu.Store.Ops.{compact}
use native.Mathlib.Numerals.{add-one}

abbrev fated_sys : List Fate → Sys → Sys
fated_sys fs s = record s { fates = fs }

shift_slot-fated_sys :
    (i k : ℕ) (fs : List Fate) (s : Sys)
    → shift_slot i k (fated_sys fs s) ≡ fated_sys fs (shift_slot i k s)
shift_slot-fated_sys i k fs s = ground arith

-- The compaction makes no system call.
abbrev Fateless : ℕ → ℕ → ℕ → List Fate → Sys → Type 0
Fateless fuel p k fs s =
    remove_doomed fuel (some p) k (fated_sys fs s)
    ≡ ((remove_doomed fuel (some p) k s).0, fated_sys fs (remove_doomed fuel (some p) k s).1)

remove_doomed-Fateless : (fuel p k : ℕ) (fs : List Fate) (s : Sys) → Fateless fuel p k fs s
unfolding remove_doomed
remove_doomed-Fateless zero p k fs s = refl
remove_doomed-Fateless (suc fuel) p k fs s = elim (Bool-cases (ltb p s.file.header.nr_snips)) [
  | inr e ↦
      let past = not-ltb→le _ _ e in
      doomed_end fuel p k (fated_sys fs s) past
      ∙ ap (λ (o : Option ℕ × Sys). (o.0, fated_sys fs o.1)) (sym (doomed_end fuel p k s past))
  | inl e ↦
      let lt = ltb→lt _ _ e in
      elim (Bool-cases (slot p s).doomed) [
        | inl d ↦
            doomed_skip fuel p k (fated_sys fs s) lt d
            ∙ remove_doomed-Fateless fuel (p + 1) (k + 1) fs s
            ∙ ap (λ (o : Option ℕ × Sys). (o.0, fated_sys fs o.1))
                (sym (doomed_skip fuel p k s lt d))
        | inr d ↦
            doomed_keep fuel p k (fated_sys fs s) lt d
            ∙ ap (remove_doomed fuel (some (p + 1)) k) (shift_slot-fated_sys p k fs s)
            ∙ remove_doomed-Fateless fuel (p + 1) k fs (shift_slot p k s)
            ∙ ap (λ (o : Option ℕ × Sys). (o.0, fated_sys fs o.1))
                (sym (doomed_keep fuel p k s lt d))
      ]
]

module _ (f : SnipFile) (d : Dir) (c : ClipStore) (v : IsValid f) (fs : List Fate) where
  swept_fates :
      (slots' : List Snip)
      → cs_snip_remove_doomed (sys f d true c)
        ≡ (some (nr_doomed (live f)), sys (with_slots slots' f) d true c)
      → cs_snip_remove_doomed (fated_sys fs (sys f d true c))
        ≡ (some (nr_doomed (live f)), fated_sys fs (sys (with_slots slots' f) d true c))
  unfolding cs_snip_remove_doomed
  swept_fates slots' e =
      let n = f.header.nr_snips in
      let from : remove_doomed (n + 1) (some 0) 0 (sys f d true c)
          ≡ (some (nr_doomed (live f)), sys (with_slots slots' f) d true c) =
        sym (null_start (sys f d true c)) ∙ e in
      null_start (fated_sys fs (sys f d true c))
      ∙ remove_doomed-Fateless (n + 1) 0 0 fs (sys f d true c)
      ∙ ap (λ (o : Option ℕ × Sys). (o.0, fated_sys fs o.1)) from
    where
      null_start :
          (s : Sys)
          → remove_doomed (f.header.nr_snips + 1) none 0 s
            ≡ remove_doomed (f.header.nr_snips + 1) (some 0) 0 s
      null_start s = rw (add-one f.header.nr_snips) (from_null f.header.nr_snips s)

  length-live : length (live f) ≡ f.header.nr_snips
  length-live = length-take_of_le f.header.nr_snips f.slots (omega (arith, v.used, v.slots_alloc))

  -- The shrinking resize stops at its ftruncate().
  not_cut :
      (e k : ℕ) (slots' : List Snip)
      → 0 < k
      → k ≤ f.header.nr_snips
      → cs_file_resize
          ((f.header.nr_snips + u64_mod - k) % u64_mod)
          (fated_sys (fail e ∷ fs) (sys (with_slots slots' f) d true c))
        ≡ (err (negative_errno e), fated_sys fs (sys (with_slots slots' f) d true c))
  unfolding cs_file_resize resize_file ftruncate
  not_cut e k slots' lo le =
      let shrinks : leb f.header.nr_snips ((f.header.nr_snips + u64_mod - k) % u64_mod) ≡ false =
        lt→not-leb _ _ (omega (arith, v.used, v.size_alloc, v.size_lt)) in
      rw shrinks refl

-- Where snips are marked and the ftruncate() behind the compaction fails, the error is given with the
-- kept snips moved to the front, in their order, but the header counts as many snips as before: as
-- many as were marked stay listed behind them.
pub compact_uncut :
    (f : SnipFile) (d : Dir) (c : ClipStore) (e : ℕ) (fs : List Fate)
    → IsValid f
    → 0 < nr_doomed (live f)
    → (f' : SnipFile) × (compact (record (sys f d true c) { fates = fail e ∷ fs })
        ≡ (err (negative_errno e), record (sys f' d true c) { fates = fs }))
      × (f'.header ≡ f.header)
      × (take (length (undoomed (live f))) (live f') ≡ undoomed (live f))
      × (length (live f') ≡ length (undoomed (live f)) + nr_doomed (live f))
unfolding compact
compact_uncut f d c e fs v lo =
    let le : f.header.nr_snips ≤ length f.slots = omega (arith, v.used, v.slots_alloc) in
    let (slots', swept, kept, len) = cs_snip_remove_doomed_lem f d c le in
    let sizes : length (undoomed (live f)) + nr_doomed (live f) ≡ f.header.nr_snips =
      length-undoomed (live f) ∙ length-live f d c v fs in
    (
      with_slots slots' f,
      rw (swept_fates f d c v (fail e ∷ fs) slots' swept)
          (not_cut f d c v fs e (nr_doomed (live f)) slots' lo (omega (arith, sizes))),
      refl,
      take-take (length (undoomed (live f))) f.header.nr_snips slots' (omega (arith, sizes)) ∙ kept,
      omega (arith, sizes, length-take_of_le f.header.nr_snips slots' (omega (arith, len, le))),
    )
