-- ===== src/Store/Clips/Shelves.antt =====
-- cs_content_add and cs_content_remove of src/store.c keep the content directory in step with the
-- list of the stored texts.
use clipmenu.Prelude.{
  ℕ, zero, suc, ◌+◌, ◌<◌, ◌≡◌, refl, sym, ap, ◌∙◌, subst, ◌≢◌, inl, inr, Bool, List, [], ◌∷◌, ◌++◌,
  reverse, reverse-cons, arith, ◌==◌, if◌then◌else◌, ==_iff, Bool-cases, length, length-append, All,
  All-append,
}
use clipmenu.Text.{Bytes, djb64_hash}
use clipmenu.Machine.{SnipFile, ClipStore, ok}
use clipmenu.Store.State.{Dir, sys}
use clipmenu.Store.Content.{cs_content_add, cs_content_remove, cs_content_get}
use clipmenu.Store.Content.Links.{
  shelf, put, cs_content_add_new, cs_content_add_link, cs_content_remove_lem, cs_content_get_lem,
}
use clipmenu.Store.Clips.{
  count, Shelved, NoCollision, count-append, count-le, count-reverse, max_clips,
}

module _ {A : Type 0} (P : A → Type 0) where
  pub All-left : (xs ys : List A) → All P (xs ++ ys) → All P xs
  All-left [] ys h = tt
  All-left (x ∷ xs) ys h = (h.0, All-left xs ys h.1)

  pub All-right : (xs ys : List A) → All P (xs ++ ys) → All P ys
  All-right [] ys h = h
  All-right (x ∷ xs) ys h = All-right xs ys h.1

  pub All-reverse : (xs : List A) → All P xs → All P (reverse xs)
  All-reverse [] h = tt
  All-reverse (x ∷ xs) h =
      rw reverse-cons (All-append P (reverse xs) (x ∷ []) (All-reverse xs h.1) (h.0, tt))

abbrev TextAt : (ℕ → Bytes) → Bytes → Type 0
TextAt body t = body (djb64_hash t) ≡ t

count-middle :
    (h : ℕ) (pre post : List Bytes) (t : Bytes)
    → count h (pre ++ (t ∷ post)) ≡ (if djb64_hash t == h then 1 else 0) + count h (pre ++ post)
count-middle h pre post t = omega (arith, count-append h pre (t ∷ post), count-append h pre post)

-- The text that is there under a hash is `t`, if something is there and nothing else collides.
body_of_count :
    (t : Bytes) (body : ℕ → Bytes) (ts : List Bytes)
    → 0 < count (djb64_hash t) ts
    → All (TextAt body) ts
    → NoCollision t ts
    → body (djb64_hash t) ≡ t
body_of_count t body [] lt texts free = absurd (omega arith)
body_of_count t body (u ∷ ts) lt texts free = elim (Bool-cases (djb64_hash u == djb64_hash t)) [
  | inl e ↦
      let same = (==_iff (djb64_hash u) (djb64_hash t)).0 e in
      ap body (sym same) ∙ texts.0 ∙ free.0 same
  | inr e ↦ body_of_count t body ts (ground arith) texts.1 free.1
]

abbrev updated : (ℕ → Bytes) → Bytes → ℕ → Bytes
updated body t k = if k == djb64_hash t then t else body k

texts_put :
    (body : ℕ → Bytes) (t : Bytes) (ts : List Bytes)
    → All (TextAt body) ts
    → NoCollision t ts
    → All (TextAt (updated body t)) ts
texts_put body t [] texts free = tt
texts_put body t (u ∷ ts) texts free = (ground arith, texts_put body t ts texts.1 free.1)

module _ (pre post : List Bytes) (t : Bytes) (d : Dir) where
  abbrev h : ℕ
  h = djb64_hash t

  pub Shelved-add :
      (s : Shelved (pre ++ post) d)
      → NoCollision t (pre ++ post)
      → Shelved (pre ++ (t ∷ post)) (put h (shelf (suc (count h (pre ++ post))) t) d)
  Shelved-add s free =
      let all = texts_put s.body t (pre ++ post) s.texts free in
      record {
        body = updated s.body t;
        shelves = λ k. ground (arith, s.shelves k, count-middle k pre post t);
        texts =
            All-append (TextAt (updated s.body t)) pre (t ∷ post)
              (All-left (TextAt (updated s.body t)) pre post all)
              (ground arith, All-right (TextAt (updated s.body t)) pre post all);
      }

  pub Shelved-remove :
      (s : Shelved (pre ++ (t ∷ post)) d)
      → Shelved (pre ++ post) (put h (shelf (count h (pre ++ post)) (s.body h)) d)
  Shelved-remove s = record {
    body = s.body;
    shelves = λ k. ground (arith, s.shelves k, count-middle k pre post t);
    texts =
        All-append (TextAt s.body) pre post (All-left (TextAt s.body) pre (t ∷ post) s.texts)
          (All-right (TextAt s.body) pre (t ∷ post) s.texts).1;
  }

  -- Adding a text anywhere in the list, where no other text of the list collides with it.
  pub content_added :
      (f : SnipFile) (held : Bool) (c : ClipStore)
      → Shelved (pre ++ post) d
      → length (pre ++ post) < max_clips
      → NoCollision t (pre ++ post)
      → (d' : Dir) × (cs_content_add h t (sys f d held c) ≡ (ok tt, sys f d' held c))
        × Shelved (pre ++ (t ∷ post)) d'
  content_added f held c s few free = (
    put h (shelf (suc (count h (pre ++ post))) t) d,
    by_count (count h (pre ++ post)) refl,
    Shelved-add s free,
  )
    where
      by_count :
          (n : ℕ)
          → count h (pre ++ post) ≡ n
          → cs_content_add h t (sys f d held c)
            ≡ (ok tt, sys f (put h (shelf (suc (count h (pre ++ post))) t) d) held c)
      by_count zero e =
          rw e (cs_content_add_new f held c h t d (s.shelves h ∙ ap (λ k. shelf k (s.body h)) e))
      by_count (suc n) e = rw e (
          cs_content_add_link f held c h n t t d (omega (arith, count-le h (pre ++ post))) (
            s.shelves h
            ∙ ap (λ k. shelf k (s.body h)) e
            ∙ ap (shelf (suc n)) (body_of_count t s.body (pre ++ post) (omega arith) s.texts free)))

  -- A text of the list finds its link to take away.
  pub link_of :
      (s : Shelved (pre ++ (t ∷ post)) d) → d h ≡ shelf (suc (count h (pre ++ post))) (s.body h)
  link_of s = ground (arith, s.shelves h, count-middle h pre post t)

  pub content_removed :
      (f : SnipFile) (held : Bool) (c : ClipStore)
      → Shelved (pre ++ (t ∷ post)) d
      → length (pre ++ (t ∷ post)) < max_clips
      → (d' : Dir) × (cs_content_remove h (sys f d held c) ≡ (ok tt, sys f d' held c))
        × Shelved (pre ++ post) d'
  content_removed f held c s few = (
    put h (shelf (count h (pre ++ post)) (s.body h)) d,
    cs_content_remove_lem f held c h (count h (pre ++ post)) (s.body h) d
        (omega (
          arith,
          count-le h (pre ++ post),
          length-append {0} pre (t ∷ post),
          length-append {0} pre post,
        ))
        (link_of s),
    Shelved-remove s,
  )

  -- What cs_content_get() reads under the hash of a stored text is that text.
  pub content_read :
      (f : SnipFile) (held : Bool) (c : ClipStore)
      → Shelved (pre ++ (t ∷ post)) d
      → t ≢ []
      → cs_content_get h (sys f d held c)
        ≡ (ok (record { bytes = t; size = length t }), sys f d held c)
  content_read f held c s ne =
      cs_content_get_lem f held c h (count h (pre ++ post)) t d
        (link_of s
          ∙ ap (shelf (suc (count h (pre ++ post))))
              (All-right (TextAt s.body) pre (t ∷ post) s.texts).0)
        ne

pub Shelved-reverse : (ts : List Bytes) (d : Dir) → Shelved ts d → Shelved (reverse ts) d
Shelved-reverse ts d s = record {
  body = s.body;
  shelves = λ k. rw count-reverse (s.shelves k);
  texts = All-reverse (TextAt s.body) ts s.texts;
}

-- The content directory forgets the order of the texts.
pub Shelved-same :
    (us vs : List Bytes) (d : Dir)
    → ((h : ℕ) → count h us ≡ count h vs)
    → ((P : Bytes → Type 0) → All P us → All P vs)
    → Shelved us d
    → Shelved vs d
Shelved-same us vs d counts all s = record {
  body = s.body;
  shelves = λ h. subst (λ n. d h ≡ shelf n (s.body h)) (counts h) (s.shelves h);
  texts = all (TextAt s.body) s.texts;
}
