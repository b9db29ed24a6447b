-- ===== src/Store/Ops/Compaction.antt =====
-- The end of cs_remove of src/store.c: the doomed snips leave the file, which is cut to the rest.
use clipmenu.Prelude.{◌+◌, ◌-◌, ◌%◌, ◌<◌, ◌≡◌, refl, ◌∙◌, arith, length, length-take_of_le}
use clipmenu.Text.{u64_mod}
use clipmenu.Machine.{SnipFile, ClipStore}
use clipmenu.Store.State.{Dir, IsValid, IsHeld, live}
use clipmenu.Store.Guard.{Runs}
use clipmenu.Store.Snips.Resize.{resized, take-resize, resized-IsValid, resize_shrink}
use clipmenu.Store.Snips.Compact.{
  with_slots, undoomed, nr_doomed, length-undoomed, cs_snip_remove_doomed_lem,
}
use clipmenu.Store.Ops.{compact}

-- After compaction the file holds what is left, and no slot more.
pub compact_lem :
    (f : SnipFile) (d : Dir) (c : ClipStore)
    → IsValid f
    → IsHeld c f
    → length (undoomed (live f)) < f.header.nr_snips
    → (f' : SnipFile) × Runs compact f d c tt f' d
      × IsValid f'
      × (live f' ≡ undoomed (live f))
      × (f'.header.nr_snips_alloc ≡ f'.header.nr_snips)
unfolding compact
compact_lem f d c v h less =
    let n = length (undoomed (live f)) in
    let (slots', moved, kept, len) =
      cs_snip_remove_doomed_lem f d c (omega (arith, v.used, v.slots_alloc)) in
    let v' : IsValid (with_slots slots' f) = record {
      used = v.used;
      slots_alloc = len ∙ v.slots_alloc;
      size_alloc = v.size_alloc;
      size_lt = v.size_lt;
    } in
    let h' : IsHeld c (with_slots slots' f) = record {
      one_ref = h.one_ref;
      local_alloc = h.local_alloc;
      mapped_file = h.mapped_file;
    } in
    let (c', ran, held) = resize_shrink (with_slots slots' f) d c v' h' n less in
    let left : (f.header.nr_snips + u64_mod - nr_doomed (live f)) % u64_mod ≡ n = omega (
      arith,
      length-undoomed (live f),
      length-take_of_le {0} f.header.nr_snips f.slots (omega (arith, v.used, v.slots_alloc)),
      v.used,
      v.size_alloc,
      v.size_lt,
    ) in
    (
      resized n n (with_slots slots' f),
      (c', rw (moved, left) ran, held),
      resized-IsValid (with_slots slots' f) n n (omega arith)
          (omega (arith, v.used, v.size_alloc, v.size_lt)),
      take-resize n n slots' (omega arith) (omega (arith, len, v.used, v.slots_alloc)) ∙ kept,
      refl,
    )
