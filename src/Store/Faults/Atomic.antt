-- ===== src/Store/Faults/Atomic.antt =====
-- cs_add of src/store.c whatever system calls fail: the snips in use gain the new one, or stay as they
-- are.
use clipmenu.Prelude.{
  ℕ, ◌+◌, ◌-◌, ◌*◌, ◌/◌, ◌^◌, ◌≤◌, ◌<◌, ◌≡◌, refl, sym, ap, ◌∙◌, subst, inl, inr, Bool, true, false,
  List, [], ◌∷◌, ◌++◌, arith, ltb, leb, ◌==◌, not-leb→lt, le→leb, Bool-cases, take, take-set_last,
}
use clipmenu.Text.{Bytes, add64, u64_mod, djb64_hash, first_line}
use clipmenu.Machine.{
  Snip, SnipFile, ClipStore, Sys, Outcome, ok, err, abort, checked, errno_outcome,
}
use clipmenu.Machine.Calls.{cs_snip_size, ftruncate, remap}
use clipmenu.Store.State.{live}
use clipmenu.Store.Lock.{cs_file_size}
use clipmenu.Store.Guard.{cs_file_size_lem}
use clipmenu.Store.Snips.{
  cs_snip_alloc_batch, round_up, resize_file, cs_file_resize, cs_snip_update, write_last, add_last,
  cs_snip_add,
}
use clipmenu.Store.Snips.Resize.{round_up_bounds, length-resize, take-resize}
use clipmenu.Store.Content.{cs_content_add}
use clipmenu.Store.Ops.{cs_add}
use clipmenu.Store.Clips.{snip_of}
use clipmenu.Store.Faults.{
  IsSound, IsFree, IsGuarded, Parts, On, Ends, Keeps, Ends-bind, Ends-weaken, Ends-call,
}
use clipmenu.Store.Faults.Resize.{cs_file_resize-IsGuarded}
use clipmenu.Store.Faults.Snips.{set_slot-IsGuarded}
use clipmenu.Store.Faults.Content.{Keeps-cs_content_add}
use native.Mathlib.Numerals.{add-one}
use clipmenu.Store.Faults.Leaves.{Ends-and, With, with_guard-Ends}

-- The header counts n snips, and the first k are those of `xs`.
record Begins (xs : List Snip) (k n : ℕ) (f : SnipFile) (locked : Bool) (c : ClipStore)
    : Type 0 where
  sound : IsSound f
  counts : f.header.nr_snips ≡ n
  first : take k f.slots ≡ xs

module _ (xs : List Snip) (k n : ℕ) where
  ftruncate-Begins :
      (alloc : ℕ) (s : Sys)
      → (alloc + 1) * cs_snip_size < u64_mod
      → On (Begins xs k n) s
      → k ≤ s.file.header.nr_snips_alloc
      → s.file.header.nr_snips_alloc ≤ alloc
      → Ends (λ _. On (Begins xs k n)) (On (Begins xs k n)) (ftruncate (cs_file_size alloc) s)
  unfolding ftruncate
  ftruncate-Begins alloc s small b le le' =
      let z : (s.file.size == 0) ≡ false = ground (arith, b.sound.begun) in
      let room : cs_file_size alloc / cs_snip_size - 1 ≡ alloc =
        omega (arith, cs_file_size_lem alloc small) in
      Ends-call (Begins xs k n) (λ _. On (Begins xs k n)) _ s
        (λ gs. elim (Bool-cases (ltb (cs_file_size alloc) (2 ^ 63))) [
          | inl e ↦ rw e (
              rw z (record {
                sound = record {
                  used = b.sound.used;
                  inside = omega (
                    arith,
                    length-resize (cs_file_size alloc / cs_snip_size - 1) s.file.slots,
                    room,
                  );
                  bounded = b.sound.bounded;
                  begun = omega (arith, cs_file_size_lem alloc small);
                };
                counts = b.counts;
                first =
                    take-resize k (cs_file_size alloc / cs_snip_size - 1) s.file.slots
                      (omega (arith, room)) (omega (arith, b.sound.inside))
                    ∙ b.first;
              }))
          | inr e ↦ rw e b
        ])
        b

  remap-Begins : (size : ℕ) → Keeps (On (Begins xs k n)) (remap size)
  unfolding remap
  remap-Begins size s b =
      Ends-call (Begins xs k n) (λ _. On (Begins xs k n)) _ s
        (λ gs. record { sound = b.sound; counts = b.counts; first = b.first }) b

-- The header counts this many snips, and the first n are those of `xs`.
abbrev Counting : List Snip → ℕ → ℕ → SnipFile → Type 0
Counting xs n nr f = (f.header.nr_snips ≡ nr) × (take n f.slots ≡ xs)

module _ (xs : List Snip) (n : ℕ) where
  abbrev Grows : Outcome (Unit {0}) × Sys → Type 0
  Grows o = Ends (λ _ s. Counting xs n (n + 1) s.file) (λ s. Counting xs n n s.file) o

  abbrev Counted : Sys → Type 0
  Counted s = Counting xs n n s.file

  -- An action that keeps the count and the snips where it fails.
  counted :
      {A : Type 0} (o : Outcome A × Sys)
      → Ends (λ _. On (Begins xs n n)) (On (Begins xs n n)) o
      → Ends (λ _. On (Begins xs n n)) Counted (errno_outcome o.0, o.1)
  counted (ok a, s) b = b
  counted (err e, s) b = (b.counts, b.first)
  counted (abort, s) b = b

  resize_file-Grows :
      (alloc : ℕ) (s : Sys)
      → (alloc + 1) * cs_snip_size < u64_mod
      → On (Begins xs n n) s
      → s.file.header.nr_snips_alloc ≤ alloc
      → Grows (resize_file true (n + 1) alloc s)
  unfolding resize_file
  resize_file-Grows alloc s small b le =
      let B : Sys → Type 0 = On (Begins xs n n) in
      Ends-bind (λ _. B) (λ _ s. Counting xs n (n + 1) s.file) Counted
        (checked (ftruncate (cs_file_size alloc)) s) _
        (counted (ftruncate (cs_file_size alloc) s)
          (ftruncate-Begins xs n n alloc s small b (omega (arith, b.counts, b.sound.used)) le))
        (λ _ s₁ b₁.
          Ends-bind (λ _. B) (λ _ s. Counting xs n (n + 1) s.file) Counted
            (checked (remap (cs_file_size alloc)) s₁) _
            (counted (remap (cs_file_size alloc) s₁)
              (remap-Begins xs n n (cs_file_size alloc) s₁ b₁))
            (λ _ s₂ b₂. (refl, b₂.first)))

  cs_file_resize-Grows : (s : Sys) → On (Begins xs n n) s → Grows (cs_file_resize (n + 1) s)
  unfolding cs_file_resize
  cs_file_resize-Grows s b =
      let grows : leb s.file.header.nr_snips (n + 1) ≡ true =
        le→leb _ _ (omega (arith, b.counts)) in
      rw grows (elim (Bool-cases (leb (n + 1) s.file.header.nr_snips_alloc)) [
        | inl e ↦ rw e (refl, b.first)
        | inr e ↦
            let lt = not-leb→lt _ _ e in
            let (lo, hi, _) =
              round_up_bounds (n + 1) (omega (arith, b.counts, b.sound.bounded, b.sound.used)) in
            rw e (
              resize_file-Grows (round_up (n + 1) cs_snip_alloc_batch) s
                (omega (arith, b.counts, b.sound.bounded, b.sound.used)) b (omega arith))
      ])

module _ (hash : ℕ) (line : Bytes) (nr_lines : ℕ) (xs : List Snip) (n : ℕ) where
  abbrev grown : List Snip
  grown = xs ++ (cs_snip_update hash line nr_lines ∷ [])

  live_counted : (f : SnipFile) → Counting xs n n f → live f ≡ xs
  live_counted f c = subst (λ k. take k f.slots ≡ xs) (sym c.0) c.1

  write_last-grown :
      (s : Sys)
      → On IsGuarded s
      → Counting xs n (n + 1) s.file
      → Ends
          (λ _. With (λ f. live f ≡ grown) IsGuarded)
          (With (λ f. live f ≡ xs) IsGuarded)
          (write_last hash line nr_lines s)
  unfolding write_last
  write_last-grown s g c = (
    set_slot-IsGuarded (s.file.header.nr_snips - 1) _ s g,
    rw (c.0, pred, add-one n)
        (take-set_last n s.file.slots (cs_snip_update hash line nr_lines)
            (omega (arith, g.sound.used, g.sound.inside, c.0))
          ∙ ap (λ l. l ++ (cs_snip_update hash line nr_lines ∷ [])) c.1),
  )
    where
      pred : n + 1 - 1 ≡ n
      pred = omega arith

  add_last-grown :
      (s : Sys)
      → On IsGuarded s
      → Counting xs n n s.file
      → Ends
          (λ _. With (λ f. live f ≡ grown) IsGuarded)
          (With (λ f. live f ≡ xs) IsGuarded)
          (add_last hash line nr_lines s)
  unfolding add_last
  add_last-grown s g c =
      let by_one : add64 s.file.header.nr_snips 1 ≡ n + 1 =
        omega (arith, c.0, g.sound.used, g.sound.bounded) in
      Ends-bind (λ _ s. On IsGuarded s × Counting xs n (n + 1) s.file)
        (λ _. With (λ f. live f ≡ grown) IsGuarded) (With (λ f. live f ≡ xs) IsGuarded)
        (cs_file_resize (add64 s.file.header.nr_snips 1) s) _
        (rw by_one (
          Ends-weaken (λ _ s. On IsGuarded s × Counting xs n (n + 1) s.file)
            (λ s. On IsGuarded s × Counting xs n n s.file)
            (λ _ s. On IsGuarded s × Counting xs n (n + 1) s.file)
            (With (λ f. live f ≡ xs) IsGuarded) (cs_file_resize (n + 1) s) (λ _ s' r. r)
            (λ s' r. (r.0, live_counted s'.file r.1))
            (Ends-and (λ _. On IsGuarded) (λ _ s. Counting xs n (n + 1) s.file) (On IsGuarded)
              (λ s. Counting xs n n s.file) (cs_file_resize (n + 1) s)
              (cs_file_resize-IsGuarded (n + 1) s g (omega (arith, c.0)))
              (cs_file_resize-Grows xs n s
                (record { sound = g.sound; counts = c.0; first = c.1 })))))
        (λ _ s' r. write_last-grown s' r.0 r.1)

  cs_snip_add-grown :
      (s : Sys)
      → On IsFree s
      → live s.file ≡ xs
      → s.file.header.nr_snips ≡ n
      → Ends
          (λ _. With (λ f. live f ≡ grown) IsFree)
          (With (λ f. live f ≡ xs) IsFree)
          (cs_snip_add hash line nr_lines s)
  unfolding cs_snip_add
  cs_snip_add-grown s h e en =
      with_guard-Ends (add_last hash line nr_lines) (λ f. live f ≡ grown) (λ f. live f ≡ xs) s h e
        (λ s' same g.
          add_last-grown s' g
            (subst (Counting xs n n) (sym same) (en, subst (λ k. take k s.file.slots ≡ xs) en e)))

-- Whichever system calls fail: where cs_add() returns, it gives the hash of the content, and its snip
-- stands behind those that were in use; where it gives an error, those in use are as before. Both
-- times the lock is free and the file is sound; if the process ends, the file is still sound.
pub cs_add_atomic :
    (content : Bytes) (s : Sys)
    → On IsFree s
    → Ends
        (λ hash s'.
          (hash ≡ djb64_hash content)
          × With (λ f. live f ≡ live s.file ++ (snip_of content ∷ [])) IsFree s')
        (With (λ f. live f ≡ live s.file) IsFree)
        (cs_add content s)
unfolding cs_add
cs_add_atomic content s h =
    let kept : Parts = λ f locked c. IsFree f locked c × (f ≡ s.file) in
    let snip : SnipFile → Type 0 = λ f. live f ≡ live s.file ++ (snip_of content ∷ []) in
    let as_before : SnipFile → Type 0 = λ f. live f ≡ live s.file in
    Ends-bind (λ _. On kept) (λ hash s'. (hash ≡ djb64_hash content) × With snip IsFree s')
      (With as_before IsFree) (cs_content_add (djb64_hash content) content s) _
      (Ends-weaken (λ _. On kept) (On kept) (λ _. On kept) (With as_before IsFree)
        (cs_content_add (djb64_hash content) content s) (λ _ s' r. r) (λ s' r. (r.0, ap live r.1))
        (Keeps-cs_content_add kept (djb64_hash content) content s (h, refl)))
      (λ _ s' r.
        Ends-bind (λ _. With snip IsFree)
          (λ hash s'. (hash ≡ djb64_hash content) × With snip IsFree s') (With as_before IsFree)
          (cs_snip_add (djb64_hash content) (first_line content).1 (first_line content).0 s') _
          (cs_snip_add-grown (djb64_hash content) (first_line content).1 (first_line content).0
            (live s.file) s.file.header.nr_snips s' r.0 (ap live r.1)
            (ap (λ (f : SnipFile). f.header.nr_snips) r.1))
          (λ _ s'' r'. (refl, r')))
