-- ===== src/Store/Clips/Start.antt =====
-- cs_init of src/store.c against the list of the stored texts.
use clipmenu.Prelude.{ℕ, ◌-◌, false, ◌≡◌, refl, none, List, [], arith}
use clipmenu.Text.{Bytes}
use clipmenu.Machine.{SnipFile, ClipStore}
use clipmenu.Machine.Calls.{cs_snip_size, resize}
use clipmenu.Store.State.{Dir}
use clipmenu.Store.Guard.{Returns}
use clipmenu.Store.Snips.Resize.{length-resize}
use clipmenu.Store.Lock.{cs_file_size, cs_init}
use clipmenu.Store.Init.{cs_init_empty, cs_init_valid}
use clipmenu.Store.Clips.{Represents}

-- The structure after cs_destroy().
abbrev pub destroyed : ClipStore → ClipStore
destroyed c = record c { ready = false; mapped = c.mapped - cs_file_size c.local_nr_snips_alloc }

module _ (snip_fd content_dir_fd : ℕ) (f : SnipFile) (d : Dir) (c : ClipStore) where
  -- With an empty file and an empty content directory, cs_init() makes a store with no text.
  pub cs_init_new :
      f.size ≡ 0
      → ((h : ℕ) → d h ≡ none)
      → (f' : SnipFile) × Returns (cs_init snip_fd content_dir_fd) f d c tt f' d
        × Represents [] f' d
  cs_init_new e bare = (
    record {
      size = cs_snip_size;
      header = record { nr_snips = 0; nr_snips_alloc = 0 };
      slots = resize 0 f.slots;
    },
    (
      _,
      cs_init_empty snip_fd content_dir_fd d c f e,
      record { no_ref = refl; mapped_local = omega arith },
    ),
    record {
      valid = record {
        used = omega arith;
        slots_alloc = length-resize 0 f.slots;
        size_alloc = refl;
        size_lt = omega arith;
      };
      snips = refl;
      shelved = record { body = λ h. []; shelves = bare; texts = tt };
      few = omega arith;
    },
  )

  -- With the files that a store has left, cs_init() makes a store with the same texts, whatever the
  -- structure held before.
  pub cs_init_reopen :
      (ts : List Bytes) → Represents ts f d → Returns (cs_init snip_fd content_dir_fd) f d c tt f d
  cs_init_reopen ts r = (
    _,
    cs_init_valid snip_fd content_dir_fd d c f r.valid,
    record { no_ref = refl; mapped_local = omega (arith, r.valid.size_alloc) },
  )
