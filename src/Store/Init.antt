-- ===== src/Store/Init.antt =====
-- cs_init of src/store.c: what it makes of an empty file, of a file that it has kept before, and of
-- any other.
use clipmenu.Prelude.{
  ℕ, ◌+◌, ◌-◌, ◌*◌, ◌%◌, ◌<◌, ◌≡◌, refl, ◌≢◌, ◌⊎◌, inl, inr, true, false, [], arith, ◌==◌,
  Bool-cases,
}
use clipmenu.Text.{u64_mod}
use clipmenu.Machine.{SnipFile, ClipStore, ok, err, einval}
use clipmenu.Machine.Calls.{cs_snip_size, flock, fstat_size, ftruncate, resize, remap, munmap}
use clipmenu.Store.State.{Dir, sys, IsValid}
use clipmenu.Store.Lock.{cs_header_validate, cs_ref_no_update, cs_unref, cs_init}

abbrev empty_file : SnipFile
empty_file = record {
  size = cs_snip_size;
  header = record { nr_snips = 0; nr_snips_alloc = 0 };
  slots = [];
}

abbrev started : ℕ → ℕ → SnipFile → ClipStore → ClipStore
started snip_fd content_dir_fd f c = record {
  snip_fd = snip_fd;
  content_dir_fd = content_dir_fd;
  mapped = f.size;
  refcount = 0;
  local_nr_snips = f.header.nr_snips;
  local_nr_snips_alloc = f.header.nr_snips_alloc;
  ready = true;
}

module _ (snip_fd content_dir_fd : ℕ) (d : Dir) (c : ClipStore) where
  -- An empty file is extended by its header.
  pub cs_init_empty :
      (f : SnipFile)
      → f.size ≡ 0
      → cs_init snip_fd content_dir_fd (sys f d false c) ≡ (
        ok tt,
        sys
            (record {
              size = cs_snip_size;
              header = record { nr_snips = 0; nr_snips_alloc = 0 };
              slots = resize 0 f.slots;
            })
            d
            false
            (started snip_fd content_dir_fd empty_file c),
      )
  unfolding cs_init cs_ref_no_update flock fstat_size ftruncate remap cs_header_validate cs_unref
  cs_init_empty f e = ground arith

  -- A valid file is mapped whole, and not changed.
  pub cs_init_valid :
      (f : SnipFile)
      → IsValid f
      → cs_init snip_fd content_dir_fd (sys f d false c)
        ≡ (ok tt, sys f d false (started snip_fd content_dir_fd f c))
  unfolding cs_init cs_ref_no_update flock fstat_size remap cs_header_validate cs_unref
  cs_init_valid f v = ground arith

  -- A file that is not empty and whose size is no multiple of a snip's, or not that of a header and its
  -- allocated snips counted modulo 2 ^ 64, or whose header counts more snips than are allocated, is
  -- refused with -EINVAL: nothing of it changes, and the structure is not ready.
  pub cs_init_refuses :
      (f : SnipFile)
      → f.size ≢ 0
      → (f.size % cs_snip_size ≢ 0)
        ⊎ (f.header.nr_snips_alloc < f.header.nr_snips)
        ⊎ ((f.header.nr_snips_alloc + 1) * cs_snip_size % u64_mod ≢ f.size)
      → (c' : ClipStore) × (cs_init snip_fd content_dir_fd (sys f d false c)
          ≡ (err einval, sys f d false c'))
        × (c'.ready ≡ false)
  unfolding cs_init cs_ref_no_update flock fstat_size remap cs_header_validate munmap cs_unref
  cs_init_refuses f ne why = elim (Bool-cases (f.size % cs_snip_size == 0)) [
    | inl e ↦ (with_fds (f.size - f.size), ground (arith, why), refl)
    | inr e ↦ (with_fds c.mapped, ground arith, refl)
  ]
    where
      with_fds : ℕ → ClipStore
      with_fds mapped = record c {
        snip_fd = snip_fd;
        content_dir_fd = content_dir_fd;
        mapped = mapped;
        refcount = 0;
        ready = false;
      }
