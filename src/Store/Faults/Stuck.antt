-- ===== src/Store/Faults/Stuck.antt =====
-- cs_file_resize of src/store.c where mremap() fails behind an ftruncate() that has made the file longer.
use clipmenu.Prelude.{
  ℕ, ◌+◌, ◌*◌, ◌%◌, ◌^◌, ◌<◌, ◌≡◌, refl, ap, ◌≢◌, inr, true, false, List, ◌∷◌, arith, ltb, ◌==◌,
  lt→ltb, le→leb, lt→not-leb,
}
use clipmenu.Text.{u64_mod}
use clipmenu.Machine.{Header, SnipFile, ClipStore, Fate, pass, fail, err, einval, negative_errno}
use clipmenu.Machine.Calls.{cs_snip_size, truncated, ftruncate, remap}
use clipmenu.Store.State.{Dir, sys, IsValid}
use clipmenu.Store.Lock.{cs_file_size, cs_init}
use clipmenu.Store.Guard.{cs_file_size_lem}
use clipmenu.Store.Init.{cs_init_refuses}
use clipmenu.Store.Snips.{cs_snip_alloc_batch, round_up, resize_file, cs_file_resize}
use clipmenu.Store.Snips.Resize.{round_up_bounds, max_snips}

module _ (f : SnipFile) (d : Dir) (c : ClipStore) (e : ℕ) (fs : List Fate) where
  abbrev batch : ℕ
  batch = round_up (f.header.nr_snips + 1) cs_snip_alloc_batch

  abbrev longer : SnipFile
  longer = truncated (cs_file_size batch) f

  unmapped :
      IsValid f
      → f.header.nr_snips ≡ f.header.nr_snips_alloc
      → f.header.nr_snips + 1 < max_snips
      → cs_file_resize
          (f.header.nr_snips + 1)
          (record (sys f d true c) { fates = pass ∷ fail e ∷ fs })
        ≡ (err (negative_errno e), record (sys longer d true c) { fates = fs })
  unfolding cs_file_resize resize_file ftruncate remap
  unmapped v full few =
      let (lo, hi, _) = round_up_bounds (f.header.nr_snips + 1) (omega arith) in
      let fits : ltb (cs_file_size batch) (2 ^ 63) ≡ true =
        lt→ltb _ _ (omega (arith, cs_file_size_lem batch)) in
      rw (le→leb f.header.nr_snips (f.header.nr_snips + 1) (omega arith)) (
        rw (lt→not-leb (f.header.nr_snips + 1) f.header.nr_snips_alloc (omega arith))
          (rw fits refl))

  header-longer : IsValid f → longer.header ≡ f.header
  header-longer v = let z : (f.size == 0) ≡ false = ground (arith, v.size_alloc) in rw z refl

  longer-mismatch :
      IsValid f
      → f.header.nr_snips ≡ f.header.nr_snips_alloc
      → f.header.nr_snips + 1 < max_snips
      → (longer.header.nr_snips_alloc + 1) * cs_snip_size % u64_mod ≢ longer.size
  longer-mismatch v full few eq =
      let (lo, hi, _) = round_up_bounds (f.header.nr_snips + 1) (omega arith) in
      absurd (
        omega (
          arith,
          cs_file_size_lem batch,
          ap (λ (h : Header). h.nr_snips_alloc) (header-longer v),
          eq,
        ))

  -- Where every allocated snip is in use, one more snip makes the file longer. If mremap() then
  -- fails, the resize gives its error and the header is as before, but the file keeps its new size:
  -- cs_init() of any process refuses the store from then on, whatever else has happened to the
  -- content directory.
  pub cs_file_resize_strands :
      IsValid f
      → f.header.nr_snips ≡ f.header.nr_snips_alloc
      → f.header.nr_snips + 1 < max_snips
      → (f' : SnipFile) × (cs_file_resize
            (f.header.nr_snips + 1)
            (record (sys f d true c) { fates = pass ∷ fail e ∷ fs })
          ≡ (err (negative_errno e), record (sys f' d true c) { fates = fs }))
        × (f'.header ≡ f.header)
        × ((snip_fd content_dir_fd : ℕ) (d' : Dir) (c' : ClipStore)
            → (c'' : ClipStore) × (cs_init snip_fd content_dir_fd (sys f' d' false c')
                ≡ (err einval, sys f' d' false c''))
              × (c''.ready ≡ false))
  cs_file_resize_strands v full few =
      let (lo, hi, _) = round_up_bounds (f.header.nr_snips + 1) (omega arith) in
      (
        longer,
        unmapped v full few,
        header-longer v,
        λ snip_fd content_dir_fd d' c'.
            cs_init_refuses snip_fd content_dir_fd d' c' longer
              (λ z. absurd (omega (arith, cs_file_size_lem batch, z)))
              (inr (inr (longer-mismatch v full few))),
      )
