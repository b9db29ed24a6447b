-- ===== src/Store/Ops/Visits.antt =====
-- The loop of cs_remove of src/store.c over the whole file, from its null pointer on.
use clipmenu.Prelude.{
  ◌+◌, ◌≡◌, refl, sym, ap, ◌∙◌, true, false, none, [], ◌++◌, reverse, reverse-reverse, arith, drop,
  take-append-drop, length-take_le, length-take_of_le, length-reverse,
}
use clipmenu.Machine.{SnipFile, ClipStore, ok}
use clipmenu.Store.State.{Dir, sys, IsValid, live}
use clipmenu.Store.Snips.{Direction, newest_first, oldest_first, next_pointer}
use clipmenu.Store.Snips.Compact.{with_slots}
use clipmenu.Store.Ops.Callbacks.{Callback}
use clipmenu.Store.Ops.Sweep.{marked, victims, found_after, private_end, RemovesAll}
use clipmenu.Store.Ops.Loop.{loop_oldest, loop_newest}
use clipmenu.Store.Ops.{remove_loop}
use clipmenu.Store.Ops.Order.{order}

module _ {P : Type 0} (should_remove : Callback P) where
  -- What the loop leaves, in the file's order.
  unfoldable pub marked_file : Direction → P → SnipFile → SnipFile
  marked_file direction p f =
      with_slots
        (order direction (marked should_remove p (order direction (live f)))
          ++ drop f.header.nr_snips f.slots)
        f

  pub loop_lem :
      (direction : Direction) (p : P) (f : SnipFile) (d d' : Dir) (c : ClipStore)
      → IsValid f
      → RemovesAll (victims should_remove p (order direction (live f))) d d'
      → remove_loop should_remove (f.header.nr_snips + 1) direction none p false (sys f d true c)
        ≡ (
          ok (
            found_after should_remove p false (order direction (live f)),
            private_end should_remove p (order direction (live f)),
          ),
          sys (marked_file direction p f) d' true c,
        )
  unfolding marked_file
  loop_lem oldest_first p f d d' c v all =
      ap
        (λ l.
          remove_loop should_remove (f.header.nr_snips + 1) oldest_first none p false
            (sys (with_slots l f) d true c))
        (sym (take-append-drop f.header.nr_snips f.slots))
      ∙ loop_oldest should_remove f c (live f) [] (drop f.header.nr_snips f.slots)
          (f.header.nr_snips + 1) none p false d d'
          (omega (arith, length-take_le {0} f.header.nr_snips f.slots))
          (omega (
            arith,
            length-take_of_le {0} f.header.nr_snips f.slots (omega (arith, v.used, v.slots_alloc)),
          ))
          oldest_null all
    where
      oldest_null : next_pointer oldest_first f.header.nr_snips none ≡ 1
      oldest_null = unfold next_pointer in refl
  loop_lem newest_first p f d d' c v all =
      ap
        (λ l.
          remove_loop should_remove (f.header.nr_snips + 1) newest_first none p false
            (sys (with_slots l f) d true c))
        (sym (take-append-drop f.header.nr_snips f.slots)
          ∙ ap (λ l. l ++ drop f.header.nr_snips f.slots) (sym (reverse-reverse (live f))))
      ∙ loop_newest should_remove f c (reverse (live f)) (drop f.header.nr_snips f.slots)
          (f.header.nr_snips + 1) none p false d d'
          (omega (arith, length-reverse {0} (live f), length-take_le {0} f.header.nr_snips f.slots))
          (omega (arith, length-reverse {0} (live f), length-take_le {0} f.header.nr_snips f.slots))
          (newest_null
            ∙ sym (
                length-reverse (live f)
                ∙ length-take_of_le f.header.nr_snips f.slots
                    (omega (arith, v.used, v.slots_alloc))))
          all
    where
      newest_null : next_pointer newest_first f.header.nr_snips none ≡ f.header.nr_snips
      newest_null = unfold next_pointer in refl
