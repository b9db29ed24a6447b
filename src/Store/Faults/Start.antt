-- ===== src/Store/Faults/Start.antt =====
-- cs_init of src/store.c on a snip file that has its header, whatever system calls fail.
use clipmenu.Prelude.{
  ℕ, ◌+◌, ◌-◌, ◌*◌, ◌%◌, ◌≤◌, ◌≡◌, refl, ◌≢◌, inl, inr, Bool, true, false, List, [], ◌∷◌, arith,
  ltb, ◌==◌, ==_iff, Bool-cases,
}
use clipmenu.Text.{mul64, add64}
use clipmenu.Machine.{
  SnipFile, ClipStore, Fate, pass, fail, short, Sys, Outcome, ok, err, abort, checked,
}
use clipmenu.Machine.Calls.{cs_snip_size, fstat_size, remap, munmap, fated}
use clipmenu.Store.Lock.{
  cs_header_validate, cs_ref_no_update, init_size, unmap_refused, init_validate, init_mapping,
  cs_init,
}
use clipmenu.Store.Faults.Guard.{cs_ref_no_update-Ends, cs_unref-Ends, drop_after-Ends}
use clipmenu.Store.Faults.{
  IsSound, IsMapped, IsFree, On, Ends, Keeps, Ends-bind, Ends-checked, Ends-call,
}

-- The file is sound and nobody holds the lock: what a process finds that starts.
pub record IsShared (f : SnipFile) (locked : Bool) (c : ClipStore) : Type 0 where
  pub sound : IsSound f
  pub unlocked : locked ≡ false

-- The lock is held, and the structure is not filled in yet.
record IsOpening (f : SnipFile) (locked : Bool) (c : ClipStore) : Type 0 where
  sound : IsSound f
  one_ref : c.refcount ≡ 1
  locked_true : locked ≡ true

record IsOpened (f : SnipFile) (locked : Bool) (c : ClipStore) : Type 0 where
  sound : IsSound f
  mapped : IsMapped c
  ready : c.ready ≡ true
  one_ref : c.refcount ≡ 1
  locked_true : locked ≡ true

-- The whole file is mapped, as the mapping that was asked for has it.
abbrev Mapped : ℕ → Sys → Type 0
Mapped size s = On IsOpening s × (s.cs.mapped ≡ size)

abbrev Checked : Sys → Type 0
Checked s = On IsOpening s × ((s.file.header.nr_snips_alloc + 1) * cs_snip_size ≤ s.cs.mapped)

abbrev Measured : ℕ → Sys → Type 0
Measured size s = On IsOpening s × (size ≢ 0)

fstat_size-Measured :
    (s : Sys) → On IsOpening s → Ends Measured (On IsOpening) (checked fstat_size s)
unfolding fstat_size
fstat_size-Measured s h =
    Ends-checked Measured (On IsOpening) (fstat_size s) (
      Ends-call IsOpening Measured _ s (λ gs. (h, λ e. absurd (omega (arith, h.sound.begun, e)))) h)

remap-Mapped :
    (size : ℕ) (s : Sys)
    → On IsOpening s
    → Ends (λ _. Mapped size) (On IsOpening) (checked (remap size) s)
unfolding remap
remap-Mapped size s h =
    Ends-checked (λ _. Mapped size) (On IsOpening) (remap size s)
      (Ends-call IsOpening (λ _. Mapped size) _ s
        (λ gs. (record { sound = h.sound; one_ref = h.one_ref; locked_true = h.locked_true }, refl))
        h)

munmap-IsOpening : (size : ℕ) (s : Sys) → On IsOpening s → On IsOpening (munmap size s).1
unfolding munmap
munmap-IsOpening size s h = by_fate s.fates
  where
    by_fate :
        (fs : List Fate)
        → On IsOpening
            (fated
              (λ s. (ok tt, record s { cs = record (s.cs) { mapped = s.cs.mapped - size } }))
              fs
              (record s { fates = fs })).1
    by_fate [] = record { sound = h.sound; one_ref = h.one_ref; locked_true = h.locked_true }
    by_fate (pass ∷ fs) = record {
      sound = h.sound;
      one_ref = h.one_ref;
      locked_true = h.locked_true;
    }
    by_fate (fail e ∷ fs) = h
    by_fate (short n ∷ fs) = record {
      sound = h.sound;
      one_ref = h.one_ref;
      locked_true = h.locked_true;
    }

cs_header_validate-Checked :
    (size : ℕ) (s : Sys)
    → Mapped size s
    → Ends (λ _. Checked) (On IsOpening) (cs_header_validate size s)
unfolding cs_header_validate
cs_header_validate-Checked size s (h, m) =
    elim (Bool-cases (ltb s.file.header.nr_snips_alloc s.file.header.nr_snips)) [
      | inl e ↦ rw e h
      | inr e ↦
          rw e
            (elim (Bool-cases (mul64 (add64 s.file.header.nr_snips_alloc 1) cs_snip_size == size)) [
              | inl e' ↦ rw e' (h, omega (arith, (==_iff _ _).0 e', h.sound.bounded))
              | inr e' ↦ rw e' h
            ])
    ]

init_validate-Checked :
    (size : ℕ) (s : Sys) → Mapped size s → Ends (λ _. Checked) (On IsOpening) (init_validate size s)
unfolding init_validate
init_validate-Checked size s h =
    refused (cs_header_validate size s) (cs_header_validate-Checked size s h)
  where
    refused :
        (o : Outcome (Unit {0}) × Sys)
        → Ends (λ _. Checked) (On IsOpening) o
        → Ends (λ _. Checked) (On IsOpening) (unmap_refused size o.0 o.1)
    refused (ok a, s') h' = h'
    refused (err e, s') h' = munmap-IsOpening size s' h'
    refused (abort, s') h' = h'

init_size-IsOpening : (size : ℕ) → size ≢ 0 → Keeps (On IsOpening) (init_size size)
unfolding init_size
init_size-IsOpening size ne s h = elim (Bool-cases (size == 0)) [
  | inl e ↦ absurd (ne ((==_iff _ _).0 e))
  | inr e ↦ rw e h
]

init_mapping-IsOpened :
    (s : Sys) → On IsOpening s → Ends (λ _. On IsOpened) (On IsOpening) (init_mapping s)
unfolding init_mapping
init_mapping-IsOpened s h =
    Ends-bind Measured (λ _. On IsOpened) (On IsOpening) (checked fstat_size s) _
      (fstat_size-Measured s h)
      (λ st_size s₁ (h₁, ne). elim (Bool-cases (st_size % cs_snip_size == 0)) [
        | inr e ↦ rw e h₁
        | inl e ↦ rw e (
            Ends-bind (λ _. On IsOpening) (λ _. On IsOpened) (On IsOpening) (init_size st_size s₁) _
              (init_size-IsOpening st_size ne s₁ h₁)
              (λ file_size s₂ h₂.
                Ends-bind (λ _. Mapped file_size) (λ _. On IsOpened) (On IsOpening)
                  (checked (remap file_size) s₂) _ (remap-Mapped file_size s₂ h₂)
                  (λ _ s₃ m.
                    Ends-bind (λ _. Checked) (λ _. On IsOpened) (On IsOpening)
                      (init_validate file_size s₃) _ (init_validate-Checked file_size s₃ m)
                      (λ _ s₄ (h₄, c). record {
                        sound = h₄.sound;
                        mapped = c;
                        ready = refl;
                        one_ref = h₄.one_ref;
                        locked_true = h₄.locked_true;
                      }))))
      ])

-- What cs_init() gives where it returns 0.
abbrev pub Ready : Sys → Type 0
Ready s = On IsFree s × (s.cs.ready ≡ true)

-- Where it gives an error the lock is free as well, and the file as sound as it was.
pub cs_init-Ready :
    (snip_fd content_dir_fd : ℕ) (s : Sys)
    → On IsShared s
    → Ends (λ _. Ready) (On IsShared) (cs_init snip_fd content_dir_fd s)
unfolding cs_init
cs_init-Ready snip_fd content_dir_fd s h =
    let opening : Sys = record s {
      cs = record (s.cs) {
        ready = false;
        snip_fd = snip_fd;
        content_dir_fd = content_dir_fd;
        refcount = 0;
      };
    } in
    Ends-bind (λ _. On IsOpening) (λ _. Ready) (On IsShared) (cs_ref_no_update opening) _
      (cs_ref_no_update-Ends (On IsOpening) (On IsShared) opening h.sound refl
        (λ gs. record { sound = h.sound; one_ref = omega arith; locked_true = refl }))
      (λ _ s₁ h₁.
        drop_after-Ends (On IsOpened) (On IsOpening) Ready (On IsShared) (init_mapping s₁)
          (init_mapping-IsOpened s₁ h₁)
          (λ s₂ h₂. cs_unref-Ends Ready (On IsShared) s₂ h₂.sound h₂.one_ref (λ gs. (
            record {
              sound = h₂.sound;
              mapped = h₂.mapped;
              no_ref = omega (arith, h₂.one_ref);
              unlocked = refl;
            },
            h₂.ready,
          )))
          (λ s₂ h₂.
            cs_unref-Ends (On IsShared) (On IsShared) s₂ h₂.sound h₂.one_ref
              (λ gs. record { sound = h₂.sound; unlocked = refl })))
