-- ===== src/Store/Faults/Resize.antt =====
-- cs_file_resize of src/store.c whatever system calls fail.
use clipmenu.Prelude.{
  ℕ, ◌+◌, ◌-◌, ◌*◌, ◌/◌, ◌^◌, ◌≤◌, ◌<◌, ◌≡◌, refl, ◌∙◌, inl, inr, Bool, true, false, List, arith,
  ltb, leb, ◌==◌, ltb→lt, not-leb→lt, lt→ltb, leb→le, Bool-cases, length,
}
use clipmenu.Text.{u64_mod}
use clipmenu.Machine.{Snip, SnipFile, ClipStore, Sys, checked}
use clipmenu.Machine.Calls.{cs_snip_size, ftruncate, remap, resize}
use clipmenu.Store.Lock.{cs_file_size}
use clipmenu.Store.Guard.{cs_file_size_lem}
use clipmenu.Store.Snips.{cs_snip_alloc_batch, round_up, set_sizes, resize_file, cs_file_resize}
use clipmenu.Store.Snips.Resize.{round_up_bounds, length-resize}
use clipmenu.Store.Faults.{IsGuarded, On, Ends, Ends-bind, Ends-checked, Ends-call}

-- The file has been made longer, and nothing else.
record IsWidened (alloc : ℕ) (f : SnipFile) (locked : Bool) (c : ClipStore) : Type 0 where
  guarded : IsGuarded f locked c
  room : alloc ≤ length f.slots
  bounded : (alloc + 1) * cs_snip_size < 2 ^ 63

-- The file and the mapping are ready for the new sizes.
record IsSized (alloc : ℕ) (f : SnipFile) (locked : Bool) (c : ClipStore) : Type 0 where
  room : alloc ≤ length f.slots
  bounded : (alloc + 1) * cs_snip_size < 2 ^ 63
  begun : 0 < f.size
  mapped : (alloc + 1) * cs_snip_size ≤ c.mapped
  one_ref : c.refcount ≡ 1
  locked_true : locked ≡ true

module _ (alloc : ℕ) (small : (alloc + 1) * cs_snip_size < u64_mod) where
  length-slots :
      (xs : List Snip) → length (resize (cs_file_size alloc / cs_snip_size - 1) xs) ≡ alloc
  length-slots xs =
      length-resize (cs_file_size alloc / cs_snip_size - 1) xs
      ∙ omega (arith, cs_file_size_lem alloc small)

  ftruncate-IsWidened :
      (s : Sys)
      → On IsGuarded s
      → s.file.header.nr_snips_alloc ≤ alloc
      → Ends (λ _. On (IsWidened alloc)) (On IsGuarded) (ftruncate (cs_file_size alloc) s)
  unfolding ftruncate
  ftruncate-IsWidened s g le =
      let z : (s.file.size == 0) ≡ false = ground (arith, g.sound.begun) in
      Ends-call IsGuarded (λ _. On (IsWidened alloc)) _ s
        (λ gs. elim (Bool-cases (ltb (cs_file_size alloc) (2 ^ 63))) [
          | inl e ↦ rw e (
              rw z (record {
                guarded = record {
                  sound = record {
                    used = g.sound.used;
                    inside = omega (arith, length-slots s.file.slots, le);
                    bounded = g.sound.bounded;
                    begun = omega (arith, cs_file_size_lem alloc small);
                  };
                  mapped = g.mapped;
                  current = g.current;
                  one_ref = g.one_ref;
                  locked_true = g.locked_true;
                };
                room = omega (arith, length-slots s.file.slots);
                bounded = omega (arith, cs_file_size_lem alloc small, ltb→lt _ _ e);
              }))
          | inr e ↦ rw e g
        ])
        g

  remap-IsSized :
      (s : Sys)
      → On (IsWidened alloc) s
      → Ends (λ _. On (IsSized alloc)) (On IsGuarded) (checked (remap (cs_file_size alloc)) s)
  unfolding remap
  remap-IsSized s w =
      Ends-checked (λ _. On (IsSized alloc)) (On IsGuarded) (remap (cs_file_size alloc) s)
        (Ends-call IsGuarded (λ _. On (IsSized alloc)) _ s
          (λ gs. record {
            room = w.room;
            bounded = w.bounded;
            begun = w.guarded.sound.begun;
            mapped = omega (arith, cs_file_size_lem alloc small);
            one_ref = w.guarded.one_ref;
            locked_true = w.guarded.locked_true;
          })
          w.guarded)

  -- A shrunken file is not mapped anew: what is mapped is enough.
  ftruncate-IsSized :
      (s : Sys)
      → On IsGuarded s
      → alloc ≤ s.file.header.nr_snips_alloc
      → Ends (λ _. On (IsSized alloc)) (On IsGuarded) (ftruncate (cs_file_size alloc) s)
  unfolding ftruncate
  ftruncate-IsSized s g le =
      let fits : ltb (cs_file_size alloc) (2 ^ 63) ≡ true =
        lt→ltb _ _ (omega (arith, cs_file_size_lem alloc small, g.sound.bounded)) in
      Ends-call IsGuarded (λ _. On (IsSized alloc)) _ s
        (λ gs. rw fits (record {
          room = omega (arith, length-slots s.file.slots);
          bounded = omega (arith, g.sound.bounded);
          begun = omega (arith, cs_file_size_lem alloc small);
          mapped = omega (arith, g.mapped, g.current);
          one_ref = g.one_ref;
          locked_true = g.locked_true;
        }))
        g

set_sizes-IsGuarded :
    (nr alloc : ℕ) (s : Sys)
    → nr ≤ alloc
    → On (IsSized alloc) s
    → On IsGuarded (set_sizes nr alloc s)
set_sizes-IsGuarded nr alloc s le z = record {
  sound = record { used = le; inside = z.room; bounded = z.bounded; begun = z.begun };
  mapped = z.mapped;
  current = refl;
  one_ref = z.one_ref;
  locked_true = z.locked_true;
}

resize_file-IsGuarded :
    (grow : Bool) (nr alloc : ℕ) (s : Sys)
    → (alloc + 1) * cs_snip_size < u64_mod
    → nr ≤ alloc
    → On IsGuarded s
    → (grow ≡ true → s.file.header.nr_snips_alloc ≤ alloc)
    → (grow ≡ false → alloc ≤ s.file.header.nr_snips_alloc)
    → Ends (λ _. On IsGuarded) (On IsGuarded) (resize_file grow nr alloc s)
unfolding resize_file
resize_file-IsGuarded true nr alloc s small le g up down =
    Ends-bind (λ _. On (IsWidened alloc)) (λ _. On IsGuarded) (On IsGuarded)
      (checked (ftruncate (cs_file_size alloc)) s) _
      (Ends-checked (λ _. On (IsWidened alloc)) (On IsGuarded) (ftruncate (cs_file_size alloc) s)
        (ftruncate-IsWidened alloc small s g (up refl)))
      (λ _ s₁ w.
        Ends-bind (λ _. On (IsSized alloc)) (λ _. On IsGuarded) (On IsGuarded)
          (checked (remap (cs_file_size alloc)) s₁) _ (remap-IsSized alloc small s₁ w)
          (λ _ s₂ z. set_sizes-IsGuarded nr alloc s₂ le z))
resize_file-IsGuarded false nr alloc s small le g up down =
    Ends-bind (λ _. On (IsSized alloc)) (λ _. On IsGuarded) (On IsGuarded)
      (checked (ftruncate (cs_file_size alloc)) s) _
      (Ends-checked (λ _. On (IsSized alloc)) (On IsGuarded) (ftruncate (cs_file_size alloc) s)
        (ftruncate-IsSized alloc small s g (down refl)))
      (λ _ s₁ z. set_sizes-IsGuarded nr alloc s₁ le z)

-- A resize by at most one snip more: where ftruncate() or mremap() fails, the header is as before.
pub cs_file_resize-IsGuarded :
    (n : ℕ) (s : Sys)
    → On IsGuarded s
    → n ≤ s.file.header.nr_snips + 1
    → Ends (λ _. On IsGuarded) (On IsGuarded) (cs_file_resize n s)
unfolding cs_file_resize
cs_file_resize-IsGuarded n s g le = elim (Bool-cases (leb s.file.header.nr_snips n)) [
  | inr e ↦ rw e (
      resize_file-IsGuarded false n n s
        (omega (arith, g.sound.bounded, g.sound.used, not-leb→lt _ _ e)) (omega arith) g (λ x. cc)
        (λ _. omega (arith, g.sound.used, not-leb→lt _ _ e)))
  | inl e ↦ rw e (elim (Bool-cases (leb n s.file.header.nr_snips_alloc)) [
    | inl e' ↦ rw e' (record {
      sound = record {
        used = leb→le _ _ e';
        inside = g.sound.inside;
        bounded = g.sound.bounded;
        begun = g.sound.begun;
      };
      mapped = g.mapped;
      current = g.current;
      one_ref = g.one_ref;
      locked_true = g.locked_true;
    })
    | inr e' ↦
        let lt = not-leb→lt _ _ e' in
        let (lo, hi, _) = round_up_bounds n (omega (arith, g.sound.bounded, g.sound.used)) in
        rw e' (
          resize_file-IsGuarded true n (round_up n cs_snip_alloc_batch) s
            (omega (arith, g.sound.bounded, g.sound.used)) lo g (λ _. omega arith) (λ x. cc))
  ])
]
