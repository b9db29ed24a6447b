-- ===== src/Store/Clips/Replace.antt =====
-- cs_replace of src/store.c against the list of the stored texts.
use clipmenu.Prelude.{
  ℕ, suc, ◌+◌, ◌≤◌, ◌<◌, ◌≡◌, sym, ap, ◌∙◌, true, false, List, [], ◌∷◌, ◌++◌, map, append_assoc,
  map-append, arith, le→leb, lt→not-leb, length, get_or, set, length-append, get_or-append,
  set-append, take-set, get_or-take, length-set, length-map,
}
use clipmenu.Text.{Bytes, djb64_hash}
use clipmenu.Machine.{Snip, SnipFile, ClipStore, Sys, ok, err, erange}
use clipmenu.Machine.Calls.{zero_snip}
use clipmenu.Store.State.{Dir, sys, IsValid, IsIdle, IsHeld, live}
use clipmenu.Store.Guard.{Runs, Returns, with_guard_raises, with_guard_stores}
use clipmenu.Store.Snips.{Direction, newest_first, oldest_first, set_slot, slot}
use clipmenu.Store.Snips.Compact.{with_slots}
use clipmenu.Store.Content.{cs_content_add, cs_content_remove}
use clipmenu.Store.Ops.{replace_index, replace_at, replace_snip, cs_replace}
use clipmenu.Store.Clips.{snip_of, hash-snip_of, Shelved, Holds, Represents, NoCollision, max_clips}
use clipmenu.Store.Clips.Shelves.{content_added, content_removed}
use clipmenu.Store.Clips.Add.{nr_snips-Holds}

-- An age that no stored text has is refused, and nothing changes.
pub cs_replace_range :
    (direction : Direction) (age : ℕ) (t : Bytes) (pending ts : List Bytes) (f : SnipFile) (d : Dir)
    (c : ClipStore)
    → Holds pending ts f d
    → IsIdle c
    → length ts ≤ age
    → (c' : ClipStore) × (cs_replace direction age t (sys f d false c)
        ≡ (err erange, sys f d false c'))
      × IsIdle c'
unfolding cs_replace replace_snip
cs_replace_range direction age t pending ts f d c r i old =
    with_guard_raises (replace_snip direction age t) f d c erange r.valid i
      (λ c₁ h. rw (le→leb f.header.nr_snips age (omega (arith, nr_snips-Holds pending ts f d r))))

replace_at_steps :
    (idx : ℕ) (t : Bytes) (s s₁ s₂ : Sys) (old : ℕ)
    → (slot idx s).hash ≡ old
    → cs_content_remove old s ≡ (ok tt, s₁)
    → cs_content_add (djb64_hash t) t (set_slot idx (snip_of t) s₁) ≡ (ok tt, s₂)
    → replace_at idx t s ≡ (ok (djb64_hash t), s₂)
unfolding replace_at
replace_at_steps idx t s s₁ s₂ old e gone stored = rw (e, gone, stored)

module _ (pending pre post : List Bytes) (o t : Bytes) (f : SnipFile) (d : Dir)
    (r : Holds pending (pre ++ (o ∷ post)) f d) where
  replaced : SnipFile
  replaced = with_slots (set f.slots (length pre) (snip_of t)) f

  nr : f.header.nr_snips ≡ length pre + suc (length post)
  nr = nr_snips-Holds pending (pre ++ (o ∷ post)) f d r ∙ length-append pre (o ∷ post)

  replaced-IsValid : IsValid replaced
  unfolding replaced
  replaced-IsValid = record {
    used = r.valid.used;
    slots_alloc = length-set f.slots (length pre) (snip_of t) ∙ r.valid.slots_alloc;
    size_alloc = r.valid.size_alloc;
    size_lt = r.valid.size_lt;
  }

  split : live f ≡ map snip_of pre ++ (snip_of o ∷ map snip_of post)
  split = r.snips ∙ map-append snip_of pre (o ∷ post)

  live-replaced : live replaced ≡ map snip_of (pre ++ (t ∷ post))
  unfolding replaced
  live-replaced =
      take-set f.header.nr_snips (length pre) f.slots (snip_of t) (omega (arith, nr))
      ∙ ap (λ l. set l (length pre) (snip_of t)) split
      ∙ ap (λ n. set (map snip_of pre ++ (snip_of o ∷ map snip_of post)) n (snip_of t))
          (sym (length-map snip_of pre))
      ∙ set-append (map snip_of pre) (map snip_of post) (snip_of o) (snip_of t)
      ∙ sym (map-append snip_of pre (t ∷ post))

  pub slot-old : get_or f.slots (length pre) zero_snip ≡ snip_of o
  slot-old =
      sym (get_or-take f.header.nr_snips (length pre) f.slots zero_snip (omega (arith, nr)))
      ∙ ap (λ l. get_or l (length pre) zero_snip) split
      ∙ ap (λ n. get_or (map snip_of pre ++ (snip_of o ∷ map snip_of post)) n zero_snip)
          (sym (length-map snip_of pre))
      ∙ get_or-append (map snip_of pre) (map snip_of post) (snip_of o) zero_snip

  replace_at_lem :
      (c : ClipStore)
      → IsHeld c f
      → NoCollision t (pending ++ (pre ++ post))
      → (d' : Dir) × Runs (replace_at (length pre) t) f d c (djb64_hash t) replaced d'
        × Shelved (pending ++ (pre ++ (t ∷ post))) d'
  unfolding replaced
  replace_at_lem c h free =
      let (d₁, gone, s₁) =
        content_removed (pending ++ pre) post o d f true c
          (rw (append_assoc pending pre (o ∷ post)) r.shelved)
          (rw (append_assoc pending pre (o ∷ post)) r.few) in
      let few : length ((pending ++ pre) ++ post) < max_clips = omega (
        arith,
        r.few,
        length-append {0} pending (pre ++ (o ∷ post)),
        length-append {0} pre (o ∷ post),
        length-append {0} (pending ++ pre) post,
        length-append {0} pending pre,
      ) in
      let (d₂, stored, s₂) =
        content_added (pending ++ pre) post t d₁
          (with_slots (set f.slots (length pre) (snip_of t)) f) true c s₁ few
          (rw (append_assoc pending pre post) free) in
      (
        d₂,
        (
          c,
          replace_at_steps (length pre) t (sys f d true c) _ _ (djb64_hash o)
              (ap (λ (x : Snip). x.hash) slot-old ∙ hash-snip_of o) gone stored,
          record { one_ref = h.one_ref; local_alloc = h.local_alloc; mapped_file = h.mapped_file },
        ),
        rw (append_assoc pending pre (t ∷ post)) at s₂,
      )

-- The text that an age names, with those before and behind it, for each direction.
abbrev pub Aged : Direction → ℕ → List Bytes → List Bytes → Type 0
Aged newest_first age pre post = age ≡ length post
Aged oldest_first age pre post = age ≡ length pre

replace_snip_at :
    (direction : Direction) (age idx : ℕ) (t : Bytes) (s : Sys)
    → (age < s.file.header.nr_snips) × (replace_index direction s.file.header.nr_snips age ≡ idx)
    → replace_snip direction age t s ≡ replace_at idx t s
unfolding replace_snip
replace_snip_at direction age idx t s (lt, e) = rw (lt→not-leb s.file.header.nr_snips age lt, e)

index_of_age :
    (direction : Direction) (age : ℕ) (pending pre post : List Bytes) (o : Bytes) (f : SnipFile)
    (d : Dir)
    → Holds pending (pre ++ (o ∷ post)) f d
    → Aged direction age pre post
    → (age < f.header.nr_snips) × (replace_index direction f.header.nr_snips age ≡ length pre)
unfolding replace_index
index_of_age newest_first age pending pre post o f d r aged =
    let e = nr_snips-Holds pending (pre ++ (o ∷ post)) f d r ∙ length-append pre (o ∷ post) in
    (omega arith, omega arith)
index_of_age oldest_first age pending pre post o f d r aged =
    let e = nr_snips-Holds pending (pre ++ (o ∷ post)) f d r ∙ length-append pre (o ∷ post) in
    (omega arith, omega arith)

-- What cs_replace() comes to where other processes have contents with no snip yet.
pub cs_replace-Holds :
    (direction : Direction) (age : ℕ) (pending pre post : List Bytes) (o t : Bytes) (f : SnipFile)
    (d : Dir) (c : ClipStore)
    → Holds pending (pre ++ (o ∷ post)) f d
    → IsIdle c
    → Aged direction age pre post
    → NoCollision t (pending ++ (pre ++ post))
    → (f' : SnipFile) × (d' : Dir) × Returns (cs_replace direction age t) f d c (djb64_hash t) f' d'
      × Holds pending (pre ++ (t ∷ post)) f' d'
unfolding cs_replace
cs_replace-Holds direction age pending pre post o t f d c r i aged free =
    with_guard_stores (replace_snip direction age t) f d c (djb64_hash t)
      (Holds pending (pre ++ (t ∷ post))) r.valid i (λ f' d' q. q.valid)
      (λ c₁ h.
        let (d', (c₂, ran, held), s') = replace_at_lem pending pre post o t f d r c₁ h free in
        (
          replaced pending pre post o t f d r,
          d',
          (
            c₂,
            replace_snip_at direction age (length pre) t (sys f d true c₁)
                  (index_of_age direction age pending pre post o f d r aged)
                ∙ ran,
            held,
          ),
          record {
            valid = replaced-IsValid pending pre post o t f d r;
            snips = live-replaced pending pre post o t f d r;
            shelved = s';
            few = omega (
              arith,
              r.few,
              length-append {0} pending (pre ++ (o ∷ post)),
              length-append {0} pending (pre ++ (t ∷ post)),
              length-append {0} pre (o ∷ post),
              length-append {0} pre (t ∷ post),
            );
          },
        ))

-- cs_replace() puts the new text in the place of the one with the given age, counted from the end
-- where the given direction begins, if no other stored text has its hash.
pub cs_replace_lem :
    (direction : Direction) (age : ℕ) (pre post : List Bytes) (o t : Bytes) (f : SnipFile) (d : Dir)
    (c : ClipStore)
    → Represents (pre ++ (o ∷ post)) f d
    → IsIdle c
    → Aged direction age pre post
    → NoCollision t (pre ++ post)
    → (f' : SnipFile) × (d' : Dir) × Returns (cs_replace direction age t) f d c (djb64_hash t) f' d'
      × Represents (pre ++ (t ∷ post)) f' d'
cs_replace_lem direction age pre post o t f d c r i aged free =
    cs_replace-Holds direction age [] pre post o t f d c r i aged free
