-- ===== src/Store/Clips/Parts/Interleaving.antt =====
-- That the parts of calls of src/store.c keep the files in step with the list of the stored texts.
use clipmenu.Prelude.{
  ℕ, suc, ◌+◌, ◌-◌, ◌<◌, ◌≡◌, refl, sym, ap, ◌∙◌, subst, inl, inr, false, Option, none, some, List,
  [], ◌∷◌, ◌++◌, map-append, arith, ◌==◌, Bool-cases, length, length-append, All-append,
}
use clipmenu.Text.{Bytes, djb64_hash, first_line}
use clipmenu.Machine.{SnipFile, ClipStore, Outcome, ok, M}
use clipmenu.Store.State.{Dir, sys, IsIdle}
use clipmenu.Store.Snips.{Direction}
use clipmenu.Store.Snips.Resize.{max_snips}
use clipmenu.Store.Snips.Add.{added, added-IsValid, live-added, cs_snip_add_lem}
use clipmenu.Store.Ops.Callbacks.{Callback}
use clipmenu.Store.Ops.{cs_replace, cs_remove, trim_callback}
use clipmenu.Store.Clips.{snip_of, count-append, Shelved, Holds, NoCollision, max_clips}
use clipmenu.Store.Clips.Shelves.{content_added, Shelved-same, All-left, All-right}
use clipmenu.Store.Clips.Add.{nr_snips-Holds}
use clipmenu.Store.Clips.Ages.{cs_replace_any}
use clipmenu.Store.Clips.Kept.{left}
use clipmenu.Store.Clips.Remove.{cs_remove-Holds}
use clipmenu.Store.Clips.Trim.{left-trim_any}
use clipmenu.Store.Clips.History.{left_by, stateless}
use clipmenu.Store.Clips.Parts.{
  Part, store_content, store_snip, replace_text, trim_locked, remove_texts, Midway, find, without,
  runs, add_content, add_snip, part_of, part, all_parts, View, texts_of, effect_of, part_effect,
  part_effects, Room, AllRoom, Shows,
}

-- An action that comes to these pending and stored texts.
abbrev Comes : {A : Type 0} → M A → SnipFile → Dir → ClipStore → List Bytes → List Bytes → Type 0
Comes {A = A} m f d c pending ts =
    (o : Outcome A) × (f' : SnipFile) × (d' : Dir) × (c' : ClipStore) × (m (sys f d false c)
      ≡ (o, sys f' d' false c'))
    × IsIdle c'
    × Holds pending ts f' d'

runs-Shows :
    {A : Type 0} (p : ℕ) (m : M A) (adding next : List (ℕ × Bytes)) (ts : List Bytes) (v : View)
    (s : Midway)
    → Shows v s
    → adding ≡ next
    → Comes m s.world.file s.world.dir (s.world.procs p) (texts_of next) ts
    → Shows (next, ts) (record { world = runs p m s.world; adding = adding })
runs-Shows p m adding next ts v s h e (o, f', d', c', ran, idle, r) =
    let w = s.world in
    let from : m (sys w.file w.dir w.locked (w.procs p)) ≡ (o, sys f' d' false c') =
      rw h.free ran in
    let shown : Shows (next, ts)
        (record { world = left_by p w (sys f' d' false c'); adding = adding }) =
      record {
        same = e;
        holds = r;
        free = refl;
        idle = λ q. elim (Bool-cases (q == p)) [ inl x ↦ rw x idle | inr x ↦ rw x (h.idle q) ];
      } in
    subst (λ x. Shows (next, ts) (record { world = left_by p w x.1; adding = adding })) (sym from)
      shown

module _ (t : Bytes) (f : SnipFile) (d : Dir) (c : ClipStore) where
  content-Comes :
      (pending ts : List Bytes)
      → Holds pending ts f d
      → IsIdle c
      → length (pending ++ ts) + 1 < max_clips
      → NoCollision t (pending ++ ts)
      → Comes (add_content t) f d c (t ∷ pending) ts
  content-Comes pending ts r i room free =
      let (d', stored, s') = content_added [] (pending ++ ts) t d f false c r.shelved r.few free in
      (
        ok tt,
        f,
        d',
        c,
        stored,
        i,
        record { valid = r.valid; snips = r.snips; shelved = s'; few = omega arith },
      )

  -- The content of one that is added becomes that of a stored text.
  Shelved-stored :
      (pre post ts : List Bytes)
      → Shelved ((pre ++ (t ∷ post)) ++ ts) d
      → Shelved ((pre ++ post) ++ (ts ++ (t ∷ []))) d
  Shelved-stored pre post ts s =
      Shelved-same ((pre ++ (t ∷ post)) ++ ts) ((pre ++ post) ++ (ts ++ (t ∷ []))) d
        (λ h. omega (
          arith,
          count-append h (pre ++ (t ∷ post)) ts,
          count-append h pre (t ∷ post),
          count-append h (pre ++ post) (ts ++ (t ∷ [])),
          count-append h pre post,
          count-append h ts (t ∷ []),
        ))
        (λ P all.
          let front = All-left P (pre ++ (t ∷ post)) ts all in
          let back = All-right P pre (t ∷ post) front in
          All-append P (pre ++ post) (ts ++ (t ∷ []))
            (All-append P pre post (All-left P pre (t ∷ post) front) back.1)
            (All-append P ts (t ∷ []) (All-right P (pre ++ (t ∷ post)) ts all) (back.0, tt)))
        s

  snip-Comes :
      (pre post ts : List Bytes)
      → Holds (pre ++ (t ∷ post)) ts f d
      → IsIdle c
      → Comes (add_snip t) f d c (pre ++ post) (ts ++ (t ∷ []))
  snip-Comes pre post ts r i =
      let sizes : length ((pre ++ (t ∷ post)) ++ ts) ≡ length pre + suc (length post) + length ts =
        omega (arith, length-append {0} (pre ++ (t ∷ post)) ts, length-append {0} pre (t ∷ post)) in
      let lt : f.header.nr_snips < max_snips - 1025 =
        omega (arith, nr_snips-Holds (pre ++ (t ∷ post)) ts f d r, r.few, sizes) in
      let (c', made, idle) =
        cs_snip_add_lem f d (djb64_hash t) (first_line t).1 (first_line t).0 c r.valid i lt in
      (
        ok tt,
        added (snip_of t) f,
        d,
        c',
        made,
        idle,
        record {
          valid = added-IsValid f r.valid (snip_of t) lt;
          snips =
              live-added f r.valid (snip_of t) lt
              ∙ ap (λ l. l ++ (snip_of t ∷ [])) r.snips
              ∙ sym (map-append snip_of ts (t ∷ []));
          shelved = Shelved-stored pre post ts r.shelved;
          few = omega (
            arith,
            r.few,
            sizes,
            length-append {0} (pre ++ post) (ts ++ (t ∷ [])),
            length-append {0} pre post,
            length-append {0} ts (t ∷ []),
          );
        },
      )

-- What a process has begun to add is among the pending texts.
found_among :
    (p : ℕ) (t : Bytes) (adding : List (ℕ × Bytes))
    → find p adding ≡ some t
    → (pre : List Bytes) × (post : List Bytes) × (texts_of adding ≡ pre ++ (t ∷ post))
      × (texts_of (without p adding) ≡ pre ++ post)
found_among p t [] e = cc
found_among p t ((q, u) ∷ adding) e = elim (Bool-cases (q == p)) [
  | inl y ↦
      let same : u ≡ t = cc (rw y at e) in
      ([], texts_of adding, ap (λ x. x ∷ texts_of adding) same, rw y refl)
  | inr n ↦
      let (pre, post, is, rest) = found_among p t adding (rw n at e) in
      (u ∷ pre, post, ap (λ l. u ∷ l) is, rw n (ap (λ l. u ∷ l) rest))
]

part-Shows :
    (p : ℕ) (a : Part) (v : View) (s : Midway)
    → Shows v s
    → Room a v
    → Shows (part_effect p a v) (part p a s)
part-Shows p a (adding, ts) s h room =
    subst (λ l. Shows (effect_of (find p adding) p a (adding, ts)) (part_of (find p l) p a s))
      (sym h.same) (by_state (find p adding) refl a room)
  where
    removal-Comes :
        {P : Type 0} (should_remove : Callback P) (direction : Direction) (private : P)
        → Comes
            (cs_remove should_remove direction private)
            s.world.file
            s.world.dir
            (s.world.procs p)
            (texts_of adding)
            (left should_remove direction private ts)
    removal-Comes should_remove direction private =
        let (f', d', (c', ran, idle), r', _) =
          cs_remove-Holds should_remove direction private (texts_of adding) ts s.world.file
            s.world.dir (s.world.procs p) h.holds (h.idle p) in
        (_, f', d', c', ran, idle, r')

    by_state :
        (b : Option Bytes)
        → find p adding ≡ b
        → (a : Part) → Room a (adding, ts)
        → Shows (effect_of b p a (adding, ts)) (part_of b p a s)
    by_state none e (store_content t) room =
        runs-Shows p (add_content t) ((p, t) ∷ s.adding) ((p, t) ∷ adding) ts (adding, ts) s h
          (ap (λ l. (p, t) ∷ l) h.same)
          (content-Comes t s.world.file s.world.dir (s.world.procs p) (texts_of adding) ts h.holds
            (h.idle p) room.0 room.1)
    by_state none e (replace_text direction age t) room =
        runs-Shows p (cs_replace direction age t) s.adding adding _ (adding, ts) s h h.same
          (cs_replace_any direction age t (texts_of adding) ts s.world.file s.world.dir
            (s.world.procs p) h.holds (h.idle p) room)
    by_state none e (trim_locked direction n) room =
        runs-Shows p (cs_remove trim_callback direction n) s.adding adding _ (adding, ts) s h h.same
          (subst
            (Comes (cs_remove trim_callback direction n) s.world.file s.world.dir (s.world.procs p)
              (texts_of adding))
            (left-trim_any direction n ts) (removal-Comes trim_callback direction n))
    by_state none e (remove_texts should direction) room =
        runs-Shows p (cs_remove (stateless should) direction tt) s.adding adding _ (adding, ts) s h
          h.same (removal-Comes (stateless should) direction tt)
    by_state none e store_snip room = h
    by_state (some t) e store_snip room =
        let (pre, post, is, rest) = found_among p t adding e in
        runs-Shows p (add_snip t) (without p s.adding) (without p adding) _ (adding, ts) s h
          (ap (without p) h.same)
          (subst
            (λ l. Comes (add_snip t) s.world.file s.world.dir (s.world.procs p) l (ts ++ (t ∷ [])))
            (sym rest)
            (snip-Comes t s.world.file s.world.dir (s.world.procs p) pre post ts
              (subst (λ l. Holds l ts s.world.file s.world.dir) is h.holds) (h.idle p)))
    by_state (some t) e (store_content u) room = h
    by_state (some t) e (replace_text direction age u) room = h
    by_state (some t) e (trim_locked direction n) room = h
    by_state (some t) e (remove_texts should direction) room = h

-- However the processes interleave their calls, with an addition's content and its snip apart: the
-- files hold the stored texts that the parts make of them in their order, and the contents of the
-- additions that are under way; in the end the lock is free and every process is between two parts.
-- Where a content is stored there is to be room for it, and no other text with its hash may be stored
-- or under way.
pub all_parts-Shows :
    (parts : List (ℕ × Part)) (v : View) (s : Midway)
    → Shows v s
    → AllRoom parts v
    → Shows (part_effects parts v) (all_parts parts s)
all_parts-Shows [] v s h room = h
all_parts-Shows ((p, a) ∷ parts) v s h room =
    all_parts-Shows parts (part_effect p a v) (part p a s) (part-Shows p a v s h room.0) room.1
