-- ===== src/Store/Guard.antt =====
-- cs_ref and cs_unref around an operation: the lock is taken, the mapping follows the header whatever
-- other processes have made of it, and afterwards the lock is given back.
use clipmenu.Prelude.{ℕ, ◌+◌, ◌*◌, ◌<◌, ◌≡◌, sym, ap, Bool, true, false, arith, ltb, if◌then◌else◌}
use clipmenu.Text.{u64_mod}
use clipmenu.Machine.{SnipFile, ClipStore, Sys, ok, err, M}
use clipmenu.Machine.Calls.{cs_snip_size, flock, fstat_size, remap}
use clipmenu.Store.Lock.{
  cs_file_size, cs_header_validate, cs_unref, cs_ref_no_update, update_mapping, is_stale, cs_ref,
  with_guard,
}
use clipmenu.Store.State.{Dir, sys, IsValid, IsIdle, IsHeld}

pub cs_file_size_lem :
    (n : ℕ) → (n + 1) * cs_snip_size < u64_mod → cs_file_size n ≡ (n + 1) * cs_snip_size
unfolding cs_file_size
cs_file_size_lem n h = omega arith

cs_header_validate_ok : (s : Sys) → IsValid s.file → cs_header_validate s.file.size s ≡ (ok tt, s)
unfolding cs_header_validate
cs_header_validate_ok s v = ground arith

-- The mapping after cs_ref().
abbrev synced : SnipFile → ClipStore → ClipStore
synced f c = record c {
  mapped =
      if ltb c.local_nr_snips_alloc f.header.nr_snips_alloc
      then cs_file_size f.header.nr_snips_alloc
      else c.mapped;
  local_nr_snips = f.header.nr_snips;
  local_nr_snips_alloc = f.header.nr_snips_alloc;
}

update_mapping_quiet :
    (f : SnipFile) (d : Dir) (held : Bool) (c : ClipStore)
    → IsValid f
    → update_mapping (sys f d held c) ≡ (ok tt, sys f d held (synced f c))
unfolding update_mapping fstat_size remap
update_mapping_quiet f d held c v = ground (arith, cs_header_validate_ok (sys f d held c))

abbrev one_ref : ClipStore → ClipStore
one_ref c = record c { refcount = 1 }

abbrev pub entered : SnipFile → Dir → ClipStore → ClipStore
entered f d c = if is_stale (sys f d true (one_ref c)) then synced f (one_ref c) else one_ref c

cs_ref_no_update_quiet :
    (f : SnipFile) (d : Dir) (c : ClipStore)
    → c.refcount ≡ 0
    → cs_ref_no_update (sys f d false c) ≡ (ok tt, sys f d true (one_ref c))
unfolding cs_ref_no_update flock
cs_ref_no_update_quiet f d c h = ground arith

pub cs_ref_quiet :
    (f : SnipFile) (d : Dir) (c : ClipStore)
    → IsValid f
    → IsIdle c
    → cs_ref (sys f d false c) ≡ (ok 0, sys f d true (entered f d c))
unfolding cs_ref
cs_ref_quiet f d c v i =
    ground
      (arith, cs_ref_no_update_quiet f d c i.no_ref, update_mapping_quiet f d true (one_ref c) v)

pub entered-IsHeld :
    (f : SnipFile) (d : Dir) (c : ClipStore) → IsValid f → IsIdle c → IsHeld (entered f d c) f
unfolding is_stale
entered-IsHeld f d c v i = ground (arith, cs_file_size_lem f.header.nr_snips_alloc)

abbrev pub no_ref : ClipStore → ClipStore
no_ref c = record c { refcount = 0 }

pub cs_unref_quiet :
    (f : SnipFile) (d : Dir) (c : ClipStore)
    → c.refcount ≡ 1
    → cs_unref (sys f d true c) ≡ (ok tt, sys f d false (no_ref c))
unfolding cs_unref flock
cs_unref_quiet f d c h = ground arith

no_ref-IsIdle : (f : SnipFile) (c : ClipStore) → IsValid f → IsHeld c f → IsIdle (no_ref c)
no_ref-IsIdle f c v h = ground arith

-- `m` returns `a`, from a held state to a held one.
abbrev pub Runs : {A : Type 0} → M A → SnipFile → Dir → ClipStore → A → SnipFile → Dir → Type 0
Runs m f d c a f' d' =
    (c' : ClipStore) × (m (sys f d true c) ≡ (ok a, sys f' d' true c')) × IsHeld c' f'

-- `m` returns `a`, from a state between operations to such a state.
abbrev pub Returns : {A : Type 0} → M A → SnipFile → Dir → ClipStore → A → SnipFile → Dir → Type 0
Returns m f d c a f' d' =
    (c' : ClipStore) × (m (sys f d false c) ≡ (ok a, sys f' d' false c')) × IsIdle c'

module _ {A : Type 0} (m : M A) (f : SnipFile) (d : Dir) (c : ClipStore) where
  pub with_guard-Returns :
      (a : A) (f' : SnipFile) (d' : Dir)
      → IsValid f
      → IsIdle c
      → IsValid f'
      → ((c₁ : ClipStore) → IsHeld c₁ f → Runs m f d c₁ a f' d')
      → Returns (with_guard m) f d c a f' d'
  unfolding with_guard
  with_guard-Returns a f' d' v i v' body =
      let (c₂, e, h) = body (entered f d c) (entered-IsHeld f d c v i) in
      (
        no_ref c₂,
        ground (arith, cs_ref_quiet f d c v i, cs_unref_quiet f' d' c₂ h.one_ref),
        no_ref-IsIdle f' c₂ v' h,
      )

  -- The same where the file after the operation is only described.
  pub with_guard_exists :
      (a : A) (d' : Dir) (Q : SnipFile → Type 0)
      → IsValid f
      → IsIdle c
      → ((f' : SnipFile) → Q f' → IsValid f')
      → ((c₁ : ClipStore) → IsHeld c₁ f → (f' : SnipFile) × Runs m f d c₁ a f' d' × Q f')
      → (f' : SnipFile) × Returns (with_guard m) f d c a f' d' × Q f'
  unfolding with_guard
  with_guard_exists a d' Q v i valid body =
      let (f', (c₂, e, h), q) = body (entered f d c) (entered-IsHeld f d c v i) in
      (
        f',
        (
          no_ref c₂,
          ground (arith, cs_ref_quiet f d c v i, cs_unref_quiet f' d' c₂ h.one_ref),
          no_ref-IsIdle f' c₂ (valid f' q) h,
        ),
        q,
      )

  -- And where the content directory is only described too.
  pub with_guard_stores :
      (a : A) (Q : SnipFile → Dir → Type 0)
      → IsValid f
      → IsIdle c
      → ((f' : SnipFile) (d' : Dir) → Q f' d' → IsValid f')
      → ((c₁ : ClipStore)
          → IsHeld c₁ f
          → (f' : SnipFile) × (d' : Dir) × Runs m f d c₁ a f' d' × Q f' d')
      → (f' : SnipFile) × (d' : Dir) × Returns (with_guard m) f d c a f' d' × Q f' d'
  unfolding with_guard
  with_guard_stores a Q v i valid body =
      let (f', d', (c₂, e, h), q) = body (entered f d c) (entered-IsHeld f d c v i) in
      (
        f',
        d',
        (
          no_ref c₂,
          ground (arith, cs_ref_quiet f d c v i, cs_unref_quiet f' d' c₂ h.one_ref),
          no_ref-IsIdle f' c₂ (valid f' d' q) h,
        ),
        q,
      )

  -- An error is passed on, with the lock given back.
  pub with_guard_raises :
      (e : ℕ)
      → IsValid f
      → IsIdle c
      → ((c₁ : ClipStore) → IsHeld c₁ f → m (sys f d true c₁) ≡ (err e, sys f d true c₁))
      → (c' : ClipStore) × (with_guard m (sys f d false c) ≡ (err e, sys f d false c')) × IsIdle c'
  unfolding with_guard
  with_guard_raises e v i body =
      let h = entered-IsHeld f d c v i in
      (
        no_ref (entered f d c),
        ground (
          arith,
          body (entered f d c) h,
          cs_ref_quiet f d c v i,
          cs_unref_quiet f d (entered f d c) h.one_ref,
        ),
        no_ref-IsIdle f (entered f d c) v h,
      )

abbrev two_refs : ClipStore → ClipStore
two_refs c = record c { refcount = 2 }

cs_ref_nested :
    (f : SnipFile) (d : Dir) (c : ClipStore)
    → c.refcount ≡ 1
    → cs_ref (sys f d true c) ≡ (ok 0, sys f d true (two_refs c))
unfolding cs_ref cs_ref_no_update
cs_ref_nested f d c h = ground arith

cs_unref_nested :
    (f : SnipFile) (d : Dir) (c : ClipStore)
    → c.refcount ≡ 1
    → cs_unref (sys f d true (two_refs c)) ≡ (ok tt, sys f d true c)
unfolding cs_unref
cs_unref_nested f d c h = ap (λ n. (ok tt, sys f d true (record c { refcount = n }))) (sym h)

-- Within a reference, a guard around what only reads leaves everything as it is.
pub with_guard_nested :
    {A : Type 0} (m : M A) (a : A) (f : SnipFile) (d : Dir) (c : ClipStore)
    → c.refcount ≡ 1
    → m (sys f d true (record c { refcount = 2 }))
      ≡ (ok a, sys f d true (record c { refcount = 2 }))
    → with_guard m (sys f d true c) ≡ (ok a, sys f d true c)
unfolding with_guard
with_guard_nested m a f d c h reads =
    rw (cs_ref_nested f d c h) (rw reads (rw (cs_unref_nested f d c h)))
