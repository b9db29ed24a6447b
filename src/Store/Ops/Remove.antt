-- ===== src/Store/Ops/Remove.antt =====
-- cs_remove of src/store.c: what is left are the survivors of the sweep, and nothing of the others
-- stays in the file.
use clipmenu.Prelude.{
  ◌<◌, ◌≡◌, refl, sym, ap, ◌∙◌, ◌⊎◌, inl, inr, true, false, List, ◌++◌, arith, Bool-cases, length,
  take, drop, length-append, take-append, take-append-drop, length-take_of_le,
}
use clipmenu.Machine.{Snip, SnipFile, ClipStore}
use clipmenu.Store.State.{Dir, IsValid, IsIdle, IsHeld, live}
use clipmenu.Store.Guard.{Runs, Returns, with_guard_exists}
use clipmenu.Store.Snips.{Direction}
use clipmenu.Store.Snips.Compact.{undoomed}
use clipmenu.Store.Ops.Callbacks.{Callback}
use clipmenu.Store.Ops.Sweep.{
  marked, victims, survivors, found_after, private_end, length-marked, RemovesAll,
}
use clipmenu.Store.Ops.{remove_snips, cs_remove}
use clipmenu.Store.Ops.Order.{
  undoomed-marked, nothing_found, something_found, length-order, undoomed-order, Undoomed-order,
  order-order, order, Undoomed,
}
use clipmenu.Store.Ops.Compaction.{compact_lem}
use clipmenu.Store.Ops.Visits.{marked_file, loop_lem}

length-live : (f : SnipFile) → IsValid f → length (live f) ≡ f.header.nr_snips
length-live f v = length-take_of_le f.header.nr_snips f.slots (omega (arith, v.used, v.slots_alloc))

module _ {P : Type 0} (should_remove : Callback P) (direction : Direction) (p : P) (f : SnipFile)
    (v : IsValid f) where
  abbrev visited : List Snip
  visited = order direction (live f)

  abbrev left_over : List Snip
  left_over = order direction (survivors should_remove p visited)

  length-marked_live : length (order direction (marked should_remove p visited)) ≡ f.header.nr_snips
  length-marked_live =
      length-order direction (marked should_remove p visited)
      ∙ length-marked should_remove p visited
      ∙ length-order direction (live f)
      ∙ length-live f v

  marked_file-IsValid : IsValid (marked_file should_remove direction p f)
  unfolding marked_file
  marked_file-IsValid = record {
    used = v.used;
    slots_alloc = omega (
      arith,
      v.slots_alloc,
      length-marked_live,
      length-live f v,
      length-append {0} (order direction (marked should_remove p visited))
          (drop f.header.nr_snips f.slots),
      length-append {0} (live f) (drop f.header.nr_snips f.slots),
      ap length (take-append-drop f.header.nr_snips f.slots),
    );
    size_alloc = v.size_alloc;
    size_lt = v.size_lt;
  }

  live-marked_file :
      live (marked_file should_remove direction p f)
      ≡ order direction (marked should_remove p visited)
  unfolding marked_file
  live-marked_file =
      ap
        (λ n.
          take n
            (order direction (marked should_remove p visited) ++ drop f.header.nr_snips f.slots))
        (sym length-marked_live)
      ∙ take-append (order direction (marked should_remove p visited))
          (drop f.header.nr_snips f.slots)

  undoomed-marked_file :
      Undoomed (live f) → undoomed (live (marked_file should_remove direction p f)) ≡ left_over
  undoomed-marked_file fresh =
      ap undoomed live-marked_file
      ∙ undoomed-order direction (marked should_remove p visited)
      ∙ ap (order direction)
          (undoomed-marked should_remove p visited (Undoomed-order direction (live f) fresh))

  abbrev pub Removed : SnipFile → Type 0
  Removed f' =
      IsValid f'
      × (live f' ≡ left_over)
      × ((f'.header.nr_snips_alloc ≡ f'.header.nr_snips) ⊎ (left_over ≡ live f))

  module _ (d d' : Dir) (fresh : Undoomed (live f))
      (all : RemovesAll (victims should_remove p visited) d d') where
    marked_file-IsHeld :
        (c : ClipStore) → IsHeld c f → IsHeld c (marked_file should_remove direction p f)
    unfolding marked_file
    marked_file-IsHeld c h = record {
      one_ref = h.one_ref;
      local_alloc = h.local_alloc;
      mapped_file = h.mapped_file;
    }

    left_all : survivors should_remove p visited ≡ visited → left_over ≡ live f
    left_all e = ap (order direction) e ∙ order-order direction (live f)

    live_all :
        marked should_remove p visited ≡ visited
        → live (marked_file should_remove direction p f) ≡ live f
    live_all e = live-marked_file ∙ ap (order direction) e ∙ order-order direction (live f)

    -- Nothing was found: the file is as it was.
    remove_nothing :
        (c : ClipStore)
        → IsHeld c f
        → found_after should_remove p false visited ≡ false
        → (f' : SnipFile) × Runs
            (remove_snips should_remove direction p)
            f
            d
            c
            (private_end should_remove p visited)
            f'
            d'
          × Removed f'
    unfolding remove_snips
    remove_nothing c h e =
        let (same_marked, same_left) = nothing_found should_remove p visited e in
        (
          marked_file should_remove direction p f,
          (
            c,
            ground (arith, loop_lem should_remove direction p f d d' c v all),
            marked_file-IsHeld c h,
          ),
          (
            marked_file-IsValid,
            live_all same_marked ∙ sym (left_all same_left),
            inr (left_all same_left),
          ),
        )

    nr_marked_file : (marked_file should_remove direction p f).header.nr_snips ≡ f.header.nr_snips
    unfolding marked_file
    nr_marked_file = refl

    fewer :
        found_after should_remove p false visited ≡ true
        → length (undoomed (live (marked_file should_remove direction p f)))
          < (marked_file should_remove direction p f).header.nr_snips
    fewer e = rw (undoomed-marked_file fresh) (
        omega (
          arith,
          nr_marked_file,
          length-order direction (survivors should_remove p visited),
          something_found should_remove p visited e,
          length-order direction (live f),
          length-live f v,
        ))

    remove_some :
        (c : ClipStore)
        → IsHeld c f
        → found_after should_remove p false visited ≡ true
        → (f' : SnipFile) × Runs
            (remove_snips should_remove direction p)
            f
            d
            c
            (private_end should_remove p visited)
            f'
            d'
          × Removed f'
    unfolding remove_snips
    remove_some c h e =
        let (f', (c', ran, held), v', kept, exact) =
          compact_lem (marked_file should_remove direction p f) d' c marked_file-IsValid
            (marked_file-IsHeld c h) (fewer e) in
        (
          f',
          (c', ground (arith, loop_lem should_remove direction p f d d' c v all), held),
          (v', kept ∙ undoomed-marked_file fresh, inl exact),
        )

    -- cs_remove() leaves the snips that the predicate lets stay, in their order, and their file has
    -- no slot more, unless nothing was removed.
    pub cs_remove_lem :
        (c : ClipStore)
        → IsIdle c
        → (f' : SnipFile) × Returns
            (cs_remove should_remove direction p)
            f
            d
            c
            (private_end should_remove p visited)
            f'
            d'
          × Removed f'
    unfolding cs_remove
    cs_remove_lem c i =
        with_guard_exists (remove_snips should_remove direction p) f d c
          (private_end should_remove p visited) d' Removed v i (λ f' q. q.0)
          (λ c₁ h. elim (Bool-cases (found_after should_remove p false visited)) [
            | inl e ↦ remove_some c₁ h e
            | inr e ↦ remove_nothing c₁ h e
          ])
