-- ===== src/Store/Snips/Add.antt =====
-- cs_snip_add of src/store.c: the new snip is the last, behind all that were there.
use clipmenu.Prelude.{
  ℕ, suc, ◌+◌, ◌-◌, ◌<◌, ◌≡◌, ap, ◌∙◌, inl, inr, [], ◌∷◌, ◌++◌, arith, leb, if◌then◌else◌,
  not-leb→lt, leb→le, Bool-cases, length, set, take, take-set_last, length-set,
}
use clipmenu.Text.{Bytes, add64}
use clipmenu.Machine.{Snip, SnipFile, ClipStore}
use clipmenu.Store.State.{Dir, IsValid, IsIdle, IsHeld, live}
use clipmenu.Store.Guard.{Runs, Returns, with_guard-Returns}
use clipmenu.Store.Snips.{
  cs_snip_alloc_batch, round_up, cs_file_resize, cs_snip_update, add_last, cs_snip_add,
}
use clipmenu.Store.Snips.Resize.{
  round_up_bounds, max_snips, with_nr, resized, take-resize, resized-IsValid, resize_fast,
  resize_grow,
}

-- The file once it has room for one more, and then with the snip in its place.
unfoldable pub grown : SnipFile → SnipFile
grown f =
    let n = f.header.nr_snips + 1 in
    if leb n f.header.nr_snips_alloc
    then with_nr n f
    else resized n (round_up n cs_snip_alloc_batch) f

abbrev pub with_last : Snip → SnipFile → SnipFile
with_last x f = record f { slots = set f.slots (f.header.nr_snips - 1) x }

pub added : Snip → SnipFile → SnipFile
added x f = with_last x (grown f)

module _ (f : SnipFile) (v : IsValid f) where
  grown_nr : (grown f).header.nr_snips ≡ f.header.nr_snips + 1
  unfolding grown
  grown_nr = ground arith

  grown_slots : f.header.nr_snips < max_snips - 1 → take f.header.nr_snips (grown f).slots ≡ live f
  unfolding grown
  grown_slots lt = elim (Bool-cases (leb (f.header.nr_snips + 1) f.header.nr_snips_alloc)) [
    | inl e ↦ rw e
    | inr e ↦ rw e (
        take-resize f.header.nr_snips _ f.slots
          (omega (arith, round_up_bounds (f.header.nr_snips + 1)))
          (omega (arith, v.used, v.slots_alloc)))
  ]

  grown-IsValid : f.header.nr_snips < max_snips - 1025 → IsValid (grown f)
  unfolding grown
  grown-IsValid lt = elim (Bool-cases (leb (f.header.nr_snips + 1) f.header.nr_snips_alloc)) [
    | inl e ↦ rw e (ground arith)
    | inr e ↦ rw e (
        resized-IsValid f _ _ (omega (arith, round_up_bounds (f.header.nr_snips + 1)))
          (omega (arith, round_up_bounds (f.header.nr_snips + 1))))
  ]

module _ (f : SnipFile) (v : IsValid f) (x : Snip) (lt : f.header.nr_snips < max_snips - 1025) where
  pub added-IsValid : IsValid (added x f)
  unfolding added
  added-IsValid =
      let g = grown-IsValid f v lt in
      record {
        used = g.used;
        slots_alloc = length-set (grown f).slots ((grown f).header.nr_snips - 1) x ∙ g.slots_alloc;
        size_alloc = g.size_alloc;
        size_lt = g.size_lt;
      }

  pub live-added : live (added x f) ≡ live f ++ (x ∷ [])
  unfolding added
  live-added =
      let g = grown-IsValid f v lt in
      let n = f.header.nr_snips in
      let last : (grown f).header.nr_snips ≡ suc n = omega (arith, grown_nr f v) in
      let short : n < length (grown f).slots = omega (arith, g.used, g.slots_alloc, grown_nr f v) in
      rw last (
        rw (pred_suc n) (
          take-set_last n (grown f).slots x short
          ∙ ap (λ l. l ++ (x ∷ [])) (grown_slots f v (omega arith))))
    where
      pred_suc : (n : ℕ) → suc n - 1 ≡ n
      pred_suc n = omega arith

  pub nr-added : (added x f).header.nr_snips ≡ f.header.nr_snips + 1
  unfolding added
  nr-added = grown_nr f v

module _ (f : SnipFile) (d : Dir) (c : ClipStore) (v : IsValid f) where
  resize_grown :
      IsHeld c f
      → f.header.nr_snips < max_snips - 1025
      → Runs (cs_file_resize (add64 f.header.nr_snips 1)) f d c tt (grown f) d
  unfolding grown
  resize_grown h lt = elim (Bool-cases (leb (f.header.nr_snips + 1) f.header.nr_snips_alloc)) [
    | inl e ↦
        rw (e, no_wrap) (resize_fast f d c v h (f.header.nr_snips + 1) (omega arith) (leb→le _ _ e))
    | inr e ↦
        rw (e, no_wrap)
          (resize_grow f d c v h (f.header.nr_snips + 1) (not-leb→lt _ _ e) (omega arith))
  ]
    where
      no_wrap : add64 f.header.nr_snips 1 ≡ f.header.nr_snips + 1
      no_wrap = omega arith

module _ (f : SnipFile) (d : Dir) (hash : ℕ) (line : Bytes) (nr_lines : ℕ) where
  abbrev snip : Snip
  snip = cs_snip_update hash line nr_lines

  add_last_quiet :
      (c : ClipStore)
      → IsValid f
      → IsHeld c f
      → f.header.nr_snips < max_snips - 1025
      → Runs (add_last hash line nr_lines) f d c tt (added snip f) d
  unfolding add_last added
  add_last_quiet c v h lt =
      let (c', e, h') = resize_grown f d c v h lt in
      (
        c',
        rw e,
        record { one_ref = h'.one_ref; local_alloc = h'.local_alloc; mapped_file = h'.mapped_file },
      )

  pub cs_snip_add_lem :
      (c : ClipStore)
      → IsValid f
      → IsIdle c
      → f.header.nr_snips < max_snips - 1025
      → Returns (cs_snip_add hash line nr_lines) f d c tt (added snip f) d
  unfolding cs_snip_add
  cs_snip_add_lem c v i lt =
      with_guard-Returns (add_last hash line nr_lines) f d c tt (added snip f) d v i
        (added-IsValid f v snip lt) (λ c₁ h. add_last_quiet c₁ v h lt)
