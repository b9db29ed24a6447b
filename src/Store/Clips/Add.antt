-- ===== src/Store/Clips/Add.antt =====
-- cs_init, cs_add, cs_len and cs_content_get of src/store.c against the list of the stored texts.
use clipmenu.Prelude.{
  ◌+◌, ◌-◌, ◌<◌, ◌≡◌, sym, ap, ◌∙◌, true, false, List, [], ◌∷◌, ◌++◌, append-nil, map-append, arith,
  length, length-append, length-take_of_le, length-map,
}
use clipmenu.Text.{Bytes, djb64_hash, first_line}
use clipmenu.Machine.{SnipFile, ClipStore, ok}
use clipmenu.Store.State.{Dir, sys, IsIdle}
use clipmenu.Store.Guard.{Returns, with_guard-Returns}
use clipmenu.Store.Snips.Resize.{max_snips}
use clipmenu.Store.Snips.Add.{added, added-IsValid, live-added, cs_snip_add_lem}
use clipmenu.Store.Ops.{cs_add, cs_len}
use clipmenu.Store.Clips.{snip_of, Holds, Represents, NoCollision, max_clips}
use clipmenu.Store.Clips.Shelves.{content_added}

-- The number of snips in the header is that of the texts.
pub nr_snips-Holds :
    (pending ts : List Bytes) (f : SnipFile) (d : Dir)
    → Holds pending ts f d
    → f.header.nr_snips ≡ length ts
nr_snips-Holds pending ts f d r =
    sym (
      length-take_of_le f.header.nr_snips f.slots
        (omega (arith, r.valid.used, r.valid.slots_alloc)))
    ∙ ap length r.snips
    ∙ length-map snip_of ts

pub nr_snips-Represents :
    (ts : List Bytes) (f : SnipFile) (d : Dir) → Represents ts f d → f.header.nr_snips ≡ length ts
nr_snips-Represents ts f d r = nr_snips-Holds [] ts f d r

-- cs_add() returns the hash of the content and stores it behind all that is stored, if no other
-- text with its hash is stored.
pub cs_add_lem :
    (ts : List Bytes) (t : Bytes) (f : SnipFile) (d : Dir) (c : ClipStore)
    → Represents ts f d
    → IsIdle c
    → length ts + 1 < max_clips
    → NoCollision t ts
    → (f' : SnipFile) × (d' : Dir) × Returns (cs_add t) f d c (djb64_hash t) f' d'
      × Represents (ts ++ (t ∷ [])) f' d'
unfolding cs_add
cs_add_lem ts t f d c r i few free =
    let (d', stored, s') =
      content_added ts [] t d f false c (rw append-nil r.shelved) (rw append-nil r.few)
        (rw append-nil free) in
    let lt : f.header.nr_snips < max_snips - 1025 = omega (arith, nr_snips-Represents ts f d r) in
    let (c', made, idle) =
      cs_snip_add_lem f d' (djb64_hash t) (first_line t).1 (first_line t).0 c r.valid i lt in
    (
      added (snip_of t) f,
      d',
      (c', rw (stored, made), idle),
      record {
        valid = added-IsValid f r.valid (snip_of t) lt;
        snips =
            live-added f r.valid (snip_of t) lt
            ∙ ap (λ l. l ++ (snip_of t ∷ [])) r.snips
            ∙ sym (map-append snip_of ts (t ∷ []));
        shelved = s';
        few = omega (arith, length-append {0} ts (t ∷ []));
      },
    )

-- cs_len() gives the number of the stored texts, and changes nothing of them.
pub cs_len_lem :
    (ts : List Bytes) (f : SnipFile) (d : Dir) (c : ClipStore)
    → Represents ts f d
    → IsIdle c
    → Returns cs_len f d c (length ts) f d
unfolding cs_len
cs_len_lem ts f d c r i =
    with_guard-Returns _ f d c (length ts) f d r.valid i r.valid
      (λ c₁ h. (c₁, ap (λ n. (ok n, sys f d true c₁)) (nr_snips-Represents ts f d r), h))
