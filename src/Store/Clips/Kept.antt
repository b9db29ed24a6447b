-- ===== src/Store/Clips/Kept.antt =====
-- The texts that a predicate of cs_remove, src/store.c, lets stay, and what its removals leave of the
-- content directory.
use clipmenu.Prelude.{
  ℕ, ◌-◌, ◌≤◌, ◌<◌, ◌≡◌, refl, sym, ap, ◌∙◌, inl, inr, Bool, true, false, List, [], ◌∷◌, ◌++◌, map,
  append_assoc, map-append, reverse, reverse-cons, arith, if◌then◌else◌, Bool-cases, length, take,
  length-append, length-reverse, All-append,
}
use clipmenu.Text.{Bytes, djb64_hash, first_line, cs_snip_line_size}
use clipmenu.Store.State.{Dir}
use clipmenu.Store.Snips.{Direction, newest_first, oldest_first, cs_snip_update}
use clipmenu.Store.Ops.Callbacks.{Callback}
use clipmenu.Store.Ops.Sweep.{removes, stops, victims, survivors, private_end, RemovesAll}
use clipmenu.Store.Ops.Order.{order, Undoomed}
use clipmenu.Store.Clips.{
  snip_of, doomed-snip_of, count, count-le, count-append, count-reverse, Shelved, max_clips,
}
use clipmenu.Store.Clips.Shelves.{
  Shelved-remove, Shelved-same, link_of, All-left, All-right, All-reverse,
}

-- The line that is shown of a text.
abbrev pub stored_line : Bytes → Bytes
stored_line t = take (cs_snip_line_size - 1) (first_line t).1

-- The texts in the order of the visits, and back.
abbrev pub text_order : Direction → List Bytes → List Bytes
text_order oldest_first ts = ts
text_order newest_first ts = reverse ts

stop_or_go :
    (b : Bool) (vs : List ℕ) (ts us kept : List Bytes) (d : Dir)
    → Shelved (kept ++ ts) d
    → ((d' : Dir) × RemovesAll vs d d' × Shelved (kept ++ us) d')
    → (d' : Dir) × RemovesAll (if b then [] else vs) d d'
      × Shelved (kept ++ (if b then ts else us)) d'
stop_or_go true vs ts us kept d s rest = (d, refl, s)
stop_or_go false vs ts us kept d s rest = rest

module _ {P : Type 0} (should_remove : Callback P) where
  -- The texts that the predicate lets stay, asked in order until it says stop.
  abbrev pub keep : P → List Bytes → List Bytes
  keep p [] = []
  keep p (t ∷ ts) =
      let (action, p') = should_remove p (djb64_hash t) (stored_line t) in
      let rest = if stops action then ts else keep p' ts in
      if removes action then rest else t ∷ rest

  pub survivors-map :
      (p : P) (ts : List Bytes)
      → survivors should_remove p (map snip_of ts) ≡ map snip_of (keep p ts)
  unfolding cs_snip_update
  survivors-map p [] = refl
  survivors-map p (t ∷ ts) =
      ground (arith, survivors-map (should_remove p (djb64_hash t) (stored_line t)).1 ts)

  -- The private data after the calls.
  abbrev pub private_left : P → List Bytes → P
  private_left p [] = p
  private_left p (t ∷ ts) =
      let (action, p') = should_remove p (djb64_hash t) (stored_line t) in
      let rest = private_left p' ts in if stops action then p' else rest

  pub private_end-map :
      (p : P) (ts : List Bytes) → private_end should_remove p (map snip_of ts) ≡ private_left p ts
  unfolding cs_snip_update
  private_end-map p [] = refl
  private_end-map p (t ∷ ts) =
      ground (arith, private_end-map (should_remove p (djb64_hash t) (stored_line t)).1 ts)

  -- The removals of a sweep find their links, and leave the content of the texts that stay.
  pub removals :
      (ts kept : List Bytes) (p : P) (d : Dir)
      → Shelved (kept ++ ts) d
      → length (kept ++ ts) < max_clips
      → (d' : Dir) × RemovesAll (victims should_remove p (map snip_of ts)) d d'
        × Shelved (kept ++ keep p ts) d'
  unfolding cs_snip_update
  removals [] kept p d s few = (d, refl, s)
  removals (t ∷ ts) kept p d s few =
      let a = (should_remove p (djb64_hash t) (stored_line t)).0 in
      let p' = (should_remove p (djb64_hash t) (stored_line t)).1 in
      let fewer : length (kept ++ ts) < max_clips =
        omega (arith, few, length-append {0} kept (t ∷ ts), length-append {0} kept ts) in
      elim (Bool-cases (removes a)) [
        | inl e ↦
            let gone = Shelved-remove kept ts t d s in
            let (d', all, s') =
              stop_or_go (stops a) (victims should_remove p' (map snip_of ts)) ts (keep p' ts) kept
                _ gone (removals ts kept p' _ gone fewer) in
            rw e (
              d',
              (
                count (djb64_hash t) (kept ++ ts),
                s.body (djb64_hash t),
                omega (arith, count-le (djb64_hash t) (kept ++ ts)),
                link_of kept ts t d s,
                all,
              ),
              s',
            )
        | inr e ↦
            let here : Shelved ((kept ++ (t ∷ [])) ++ ts) d =
              rw (append_assoc kept (t ∷ []) ts) s in
            let room : length ((kept ++ (t ∷ [])) ++ ts) < max_clips =
              rw (append_assoc kept (t ∷ []) ts) few in
            let (d', all, s') =
              stop_or_go (stops a) (victims should_remove p' (map snip_of ts)) ts (keep p' ts)
                (kept ++ (t ∷ [])) d here (removals ts (kept ++ (t ∷ [])) p' d here room) in
            rw e
              (d', all, rw (append_assoc kept (t ∷ []) (if stops a then ts else keep p' ts)) at s')
      ]

  pub length-keep : (p : P) (ts : List Bytes) → length (keep p ts) ≤ length ts
  length-keep p [] = omega arith
  length-keep p (t ∷ ts) =
      ground (arith, length-keep (should_remove p (djb64_hash t) (stored_line t)).1 ts)

  -- What cs_remove() leaves of the stored texts.
  abbrev pub left : Direction → P → List Bytes → List Bytes
  left direction p ts = text_order direction (keep p (text_order direction ts))

pub map-reverse : (ts : List Bytes) → map snip_of (reverse ts) ≡ reverse (map snip_of ts)
map-reverse [] = refl
map-reverse (t ∷ ts) =
    ap (map snip_of) (reverse-cons t ts)
    ∙ map-append snip_of (reverse ts) (t ∷ [])
    ∙ ap (λ l. l ++ (snip_of t ∷ [])) (map-reverse ts)
    ∙ sym (reverse-cons (snip_of t) (map snip_of ts))

pub order-map :
    (direction : Direction) (ts : List Bytes)
    → order direction (map snip_of ts) ≡ map snip_of (text_order direction ts)
order-map oldest_first ts = refl
order-map newest_first ts = sym (map-reverse ts)

pub length-text_order :
    (direction : Direction) (ts : List Bytes) → length (text_order direction ts) ≡ length ts
length-text_order oldest_first ts = refl
length-text_order newest_first ts = length-reverse ts

pub Shelved-order :
    (direction : Direction) (pending ts : List Bytes) (d : Dir)
    → Shelved (pending ++ ts) d
    → Shelved (pending ++ text_order direction ts) d
Shelved-order oldest_first pending ts d s = s
Shelved-order newest_first pending ts d s =
    Shelved-same (pending ++ ts) (pending ++ reverse ts) d
      (λ h.
        omega (
          arith,
          count-append h pending ts,
          count-append h pending (reverse ts),
          count-reverse h ts,
        ))
      (λ P all.
        All-append P pending (reverse ts) (All-left P pending ts all)
          (All-reverse P ts (All-right P pending ts all)))
      s

pub Undoomed-map : (ts : List Bytes) → Undoomed (map snip_of ts)
Undoomed-map [] = tt
Undoomed-map (t ∷ ts) = (doomed-snip_of t, Undoomed-map ts)
