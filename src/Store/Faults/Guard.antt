-- ===== src/Store/Faults/Guard.antt =====
-- cs_ref, cs_unref and the guards of src/store.c whatever system calls fail.
use clipmenu.Prelude.{
  ℕ, ◌+◌, ◌-◌, ◌*◌, ◌≤◌, ◌≡◌, refl, sym, subst, inl, inr, Bool, true, false, List, arith, ltb, ◌==◌,
  if◌then◌else◌, not-ltb→le, Bool-cases,
}
use clipmenu.Machine.{
  SnipFile, ClipStore, Fate, Sys, Outcome, ok, err, abort, M, expect_ok, checked, raise,
}
use clipmenu.Machine.Calls.{cs_snip_size, flock, fstat_size, remap}
use clipmenu.Store.Lock.{
  cs_file_size, cs_header_validate, cs_unref, take_ref, size_max, cs_ref_no_update, grow_mapping,
  update_mapping, is_stale, status_of, cs_ref, drop_after, with_guard, with_refcount,
}
use clipmenu.Store.Guard.{cs_file_size_lem}
use clipmenu.Store.Faults.{
  IsSound, IsFree, IsLocked, IsGuarded, Parts, On, Ends, Keeps, Ends-bind, Ends-checked,
  Ends-expect, Ends-weaken, Ends-call,
}
use clipmenu.Store.Faults.Tells.{Tells, Tells-update_mapping}

-- The state with the lock and the first reference taken, and that with them given back.
abbrev pub taken : List Fate → Sys → Sys
taken gs s = with_refcount (s.cs.refcount + 1) (record s { fates = gs; locked = true })

abbrev pub given_back : List Fate → Sys → Sys
given_back gs s = record (with_refcount (s.cs.refcount - 1) s) { fates = gs; locked = false }

abbrev OnlySound : Parts
OnlySound f locked c = IsSound f

module _ (R E : Sys → Type 0) (s : Sys) (sound : IsSound s.file) where
  -- The lock is taken, or the process ends.
  pub cs_ref_no_update-Ends :
      s.cs.refcount ≡ 0 → ((gs : List Fate) → R (taken gs s)) → Ends (λ _. R) E (cs_ref_no_update s)
  unfolding cs_ref_no_update take_ref flock
  cs_ref_no_update-Ends no_ref then_r =
      let e : (s.cs.refcount == 0) ≡ true = ground (arith, no_ref) in
      let few : ltb s.cs.refcount size_max ≡ true = ground (arith, no_ref) in
      let locks : Sys → Type 0 =
        λ s'. (gs : List Fate) × (s' ≡ record s { fates = gs; locked = true }) in
      rw e (
        Ends-bind (λ _. locks) (λ _. R) E (expect_ok (flock true) s) _
          (Ends-expect (λ _. locks) (On OnlySound) E (flock true s) (λ s' q. q)
            (Ends-call OnlySound (λ _. locks) _ s (λ gs. (gs, refl)) sound))
          (λ _ s' l. subst (λ s''. Ends (λ _. R) E (take_ref s'')) (sym l.1) (rw few (then_r l.0))))

  -- The last reference is given back with the lock, or the process ends.
  pub cs_unref-Ends :
      s.cs.refcount ≡ 1 → ((gs : List Fate) → R (given_back gs s)) → Ends (λ _. R) E (cs_unref s)
  unfolding cs_unref flock
  cs_unref-Ends one_ref then_r =
      let e : ltb 0 s.cs.refcount ≡ true = ground (arith, one_ref) in
      let e' : (s.cs.refcount - 1 == 0) ≡ true = ground (arith, one_ref) in
      rw e (
        rw e' (
          Ends-expect (λ _. R) (On OnlySound) E _ (λ s' q. q)
            (Ends-call OnlySound (λ _. R) _ (with_refcount (s.cs.refcount - 1) s) then_r sound)))

cs_ref_no_update-IsLocked :
    (s : Sys) → On IsFree s → Ends (λ _. On IsLocked) (On IsFree) (cs_ref_no_update s)
cs_ref_no_update-IsLocked s h =
    cs_ref_no_update-Ends (On IsLocked) (On IsFree) s h.sound h.no_ref (λ gs. record {
      sound = h.sound;
      mapped = h.mapped;
      one_ref = omega (arith, h.no_ref);
      locked_true = refl;
    })

fstat_size-IsLocked : Keeps (On IsLocked) (checked fstat_size)
unfolding fstat_size
fstat_size-IsLocked s h =
    Ends-checked (λ _. On IsLocked) (On IsLocked) (fstat_size s)
      (Ends-call IsLocked (λ _. On IsLocked) _ s (λ gs. h) h)

validate-IsLocked : (size : ℕ) → Keeps (On IsLocked) (cs_header_validate size)
unfolding cs_header_validate
validate-IsLocked size s h = ground (arith, h)

-- All of the allocated snips are mapped, though the locals may not say so.
record IsGrown (f : SnipFile) (locked : Bool) (c : ClipStore) : Type 0 where
  sound : IsSound f
  mapped : (f.header.nr_snips_alloc + 1) * cs_snip_size ≤ c.mapped
  one_ref : c.refcount ≡ 1
  locked_true : locked ≡ true

remap-IsGrown :
    (s : Sys)
    → On IsLocked s
    → Ends (λ _. On IsGrown) (On IsLocked) (remap (cs_file_size s.file.header.nr_snips_alloc) s)
unfolding remap
remap-IsGrown s h =
    Ends-call IsLocked (λ _. On IsGrown) _ s
      (λ gs. record {
        sound = h.sound;
        mapped =
            subst (λ n. (s.file.header.nr_snips_alloc + 1) * cs_snip_size ≤ n)
              (sym (cs_file_size_lem s.file.header.nr_snips_alloc (omega (arith, h.sound.bounded))))
              (omega arith);
        one_ref = h.one_ref;
        locked_true = h.locked_true;
      })
      h

grow_mapping-IsGrown :
    (s : Sys) → On IsLocked s → Ends (λ _. On IsGrown) (On IsLocked) (grow_mapping s)
unfolding grow_mapping
grow_mapping-IsGrown s h =
    elim (Bool-cases (ltb s.cs.local_nr_snips_alloc s.file.header.nr_snips_alloc)) [
      | inl e ↦ rw e (Ends-checked (λ _. On IsGrown) (On IsLocked) _ (remap-IsGrown s h))
      | inr e ↦ rw e (record {
        sound = h.sound;
        mapped = omega (arith, h.mapped, not-ltb→le _ _ e);
        one_ref = h.one_ref;
        locked_true = h.locked_true;
      })
    ]

update_mapping-IsGuarded :
    (s : Sys) → On IsLocked s → Ends (λ _. On IsGuarded) (On IsLocked) (update_mapping s)
unfolding update_mapping
update_mapping-IsGuarded s h =
    Ends-bind (λ _. On IsLocked) (λ _. On IsGuarded) (On IsLocked) (checked fstat_size s) _
      (fstat_size-IsLocked s h)
      (λ size s₁ h₁.
        Ends-bind (λ _. On IsLocked) (λ _. On IsGuarded) (On IsLocked) (cs_header_validate size s₁)
          _ (validate-IsLocked size s₁ h₁)
          (λ _ s₂ h₂.
            Ends-bind (λ _. On IsGrown) (λ _. On IsGuarded) (On IsLocked) (grow_mapping s₂) _
              (grow_mapping-IsGrown s₂ h₂)
              (λ _ s₃ g. record {
                sound = g.sound;
                mapped = g.mapped;
                current = refl;
                one_ref = g.one_ref;
                locked_true = g.locked_true;
              })))

fresh-IsGuarded : (s : Sys) → On IsLocked s → is_stale s ≡ false → On IsGuarded s
unfolding is_stale
fresh-IsGuarded s h e = record {
  sound = h.sound;
  mapped = h.mapped;
  current = ground (arith, e);
  one_ref = h.one_ref;
  locked_true = h.locked_true;
}

pub guarded-IsLocked : (s : Sys) → On IsGuarded s → On IsLocked s
guarded-IsLocked s g = record {
  sound = g.sound;
  mapped = g.mapped;
  one_ref = g.one_ref;
  locked_true = g.locked_true;
}

-- What cs_ref() leaves: the lock is held, and unless the status tells an error, the file is mapped.
abbrev pub Entered : ℕ → Sys → Type 0
Entered status s = ((status ≡ 0) → On IsGuarded s) × On IsLocked s

status-Entered :
    (o : Outcome (Unit {0}) × Sys)
    → Ends (λ _. On IsGuarded) (On IsLocked) o
    → Tells o
    → Ends Entered (On IsFree) (status_of o.0, o.1)
status-Entered (ok a, s) g pos = ((λ e. g), guarded-IsLocked s g)
status-Entered (err e, s) h pos = ((λ z. absurd (omega (arith, pos, z))), h)
status-Entered (abort, s) h pos = h

pub cs_ref-Entered : (s : Sys) → On IsFree s → Ends Entered (On IsFree) (cs_ref s)
unfolding cs_ref
cs_ref-Entered s h =
    Ends-bind (λ _. On IsLocked) Entered (On IsFree) (cs_ref_no_update s) _
      (cs_ref_no_update-IsLocked s h) (λ a. look)
  where
    look :
        (s' : Sys)
        → On IsLocked s'
        → Ends Entered (On IsFree) (
            if ltb 1 s'.cs.refcount
            then (ok 0, s')
            else if is_stale s'
            then (status_of (update_mapping s').0, (update_mapping s').1)
            else (ok 0, s'))
    look s' h' =
        let e₁ : ltb 1 s'.cs.refcount ≡ false = ground (arith, h'.one_ref) in
        rw e₁ (elim (Bool-cases (is_stale s')) [
          | inl e ↦ rw e (
              status-Entered (update_mapping s') (update_mapping-IsGuarded s' h')
                (Tells-update_mapping s'))
          | inr e ↦ rw e ((λ _. fresh-IsGuarded s' h' e), h')
        ])

-- At the end of a guard's scope what held under the lock holds without it.
module _ {A : Type 0} (Q Q' P P' : Sys → Type 0) where
  pub drop_after-Ends :
      (o : Outcome A × Sys)
      → Ends (λ _. Q) Q' o
      → ((s : Sys) → Q s → Ends (λ _. P) P' (cs_unref s))
      → ((s : Sys) → Q' s → Ends (λ _. P') P' (cs_unref s))
      → Ends (λ _. P) P' (drop_after o.0 o.1)
  drop_after-Ends (ok a, s) h returned failed =
      Ends-bind (λ _. P) (λ _. P) P' (cs_unref s) _ (returned s h) (λ _ s' h'. h')
  drop_after-Ends (err e, s) h returned failed =
      Ends-bind (λ _. P') (λ _. P) P' (cs_unref s) _ (failed s h) (λ _ s' h'. h')
  drop_after-Ends (abort, s) h returned failed = h

cs_unref-IsFree : (s : Sys) → On IsLocked s → Ends (λ _. On IsFree) (On IsFree) (cs_unref s)
cs_unref-IsFree s h = cs_unref-Ends (On IsFree) (On IsFree) s h.sound h.one_ref (λ gs. record {
  sound = h.sound;
  mapped = h.mapped;
  no_ref = omega (arith, h.one_ref);
  unlocked = refl;
})

module _ {A : Type 0} where
  guarded_body :
      (status : ℕ) (body : M A) (s : Sys)
      → Keeps (On IsGuarded) body
      → Entered status s
      → Ends (λ _. On IsLocked) (On IsLocked) ((if status == 0 then body else raise status) s)
  guarded_body status body s keeps h = elim (Bool-cases (status == 0)) [
    | inl e ↦ rw e (
        Ends-weaken (λ _. On IsGuarded) (On IsGuarded) (λ _. On IsLocked) (On IsLocked) (body s)
          (λ a. guarded-IsLocked) guarded-IsLocked (keeps s (h.0 (ground (arith, e)))))
    | inr e ↦ rw e h.1
  ]

  -- The guard is taken and given back on every way out of the body.
  pub Keeps-with_guard :
      (body : M A) → Keeps (On IsGuarded) body → Keeps (On IsFree) (with_guard body)
  unfolding with_guard
  Keeps-with_guard body keeps s h =
      Ends-bind Entered (λ _. On IsFree) (On IsFree) (cs_ref s) _ (cs_ref-Entered s h)
        (λ status s' h'.
          drop_after-Ends (On IsLocked) (On IsLocked) (On IsFree) (On IsFree)
            ((if status == 0 then body else raise status) s') (guarded_body status body s' keeps h')
            cs_unref-IsFree cs_unref-IsFree)
