-- ===== src/Store/Clips/Remove.antt =====
-- cs_remove of src/store.c against the list of the stored texts.
use clipmenu.Prelude.{
  ◌<◌, ◌≡◌, sym, ap, ◌∙◌, subst, ◌⊎◌, inl, inr, false, List, [], ◌++◌, arith, length, length-append,
  length-map,
}
use clipmenu.Text.{Bytes}
use clipmenu.Machine.{SnipFile, ClipStore, ok}
use clipmenu.Store.State.{Dir, sys, IsIdle}
use clipmenu.Store.Guard.{Returns}
use clipmenu.Store.Snips.{Direction}
use clipmenu.Store.Ops.Callbacks.{Callback}
use clipmenu.Store.Ops.Sweep.{victims, survivors, private_end, RemovesAll}
use clipmenu.Store.Ops.Order.{order, Undoomed}
use clipmenu.Store.Ops.Remove.{cs_remove_lem}
use clipmenu.Store.Ops.{cs_remove}
use clipmenu.Store.Clips.{snip_of, Holds, Represents, max_clips}
use clipmenu.Store.Clips.Kept.{
  text_order, keep, private_left, left, order-map, length-text_order, Shelved-order, Undoomed-map,
  survivors-map, private_end-map, removals, length-keep,
}

module _ {P : Type 0} (should_remove : Callback P) (direction : Direction) (p : P)
    (pending ts : List Bytes) (f : SnipFile) (d : Dir) (c : ClipStore) where
  -- What cs_remove() comes to where other processes have contents with no snip yet.
  pub cs_remove-Holds :
      Holds pending ts f d
      → IsIdle c
      → (f' : SnipFile) × (d' : Dir) × Returns
          (cs_remove should_remove direction p)
          f
          d
          c
          (private_left should_remove p (text_order direction ts))
          f'
          d'
        × Holds pending (left should_remove direction p ts) f' d'
        × ((f'.header.nr_snips_alloc ≡ f'.header.nr_snips)
            ⊎ (length (left should_remove direction p ts) ≡ length ts))
  cs_remove-Holds r i =
      let visits = ap (order direction) r.snips ∙ order-map direction ts in
      let fits : length (pending ++ text_order direction ts) < max_clips = omega (
        arith,
        r.few,
        length-append {0} pending ts,
        length-append {0} pending (text_order direction ts),
        length-text_order direction ts,
      ) in
      let (d', all, s') =
        removals should_remove (text_order direction ts) pending p d
          (Shelved-order direction pending ts d r.shelved) fits in
      let (f', ran, (v', lives, exact)) =
        cs_remove_lem should_remove direction p f r.valid d d'
          (subst Undoomed (sym r.snips) (Undoomed-map ts))
          (subst (λ l. RemovesAll (victims should_remove p l) d d') (sym visits) all) c i in
      let ends =
        ap (private_end should_remove p) visits
        ∙ private_end-map should_remove p (text_order direction ts) in
      let kept = keep should_remove p (text_order direction ts) in
      let kept_snips =
        ap (λ l. order direction (survivors should_remove p l)) visits
        ∙ ap (order direction) (survivors-map should_remove p (text_order direction ts))
        ∙ order-map direction kept in
      (
        f',
        d',
        (ran.0, ran.1 ∙ ap (λ (q : P). (ok q, sys f' d' false ran.0)) ends, ran.2),
        record {
          valid = v';
          snips = lives ∙ kept_snips;
          shelved = Shelved-order direction pending kept d' s';
          few = omega (
            arith,
            r.few,
            length-append {0} pending ts,
            length-append {0} pending (text_order direction kept),
            length-text_order direction ts,
            length-text_order direction kept,
            length-keep should_remove p (text_order direction ts),
          );
        },
        elim exact [
          | inl e ↦ inl e
          | inr e ↦ inr (
              sym (length-map snip_of (left should_remove direction p ts))
              ∙ ap length (sym kept_snips ∙ e ∙ r.snips)
              ∙ length-map snip_of ts)
        ],
      )

module _ {P : Type 0} (should_remove : Callback P) (direction : Direction) (p : P) (ts : List Bytes)
    (f : SnipFile) (d : Dir) (c : ClipStore) where
  -- cs_remove() keeps the texts that the predicate, asked in the given direction until it says
  -- stop, does not remove, in their order. Unless that is all of them, no slot is left behind them.
  pub cs_remove_keeps :
      Represents ts f d
      → IsIdle c
      → (f' : SnipFile) × (d' : Dir) × Returns
          (cs_remove should_remove direction p)
          f
          d
          c
          (private_left should_remove p (text_order direction ts))
          f'
          d'
        × Represents (left should_remove direction p ts) f' d'
        × ((f'.header.nr_snips_alloc ≡ f'.header.nr_snips)
            ⊎ (length (left should_remove direction p ts) ≡ length ts))
  cs_remove_keeps r i = cs_remove-Holds should_remove direction p [] ts f d c r i
