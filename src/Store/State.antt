-- ===== src/Store/State.antt =====
-- The states between and within the operations of src/store.c, for runs in which no system call
-- fails.
use clipmenu.Prelude.{ℕ, ◌+◌, ◌*◌, ◌^◌, ◌≤◌, ◌<◌, ◌≡◌, Bool, Option, List, [], length, take}
use clipmenu.Machine.{Snip, SnipFile, ClipStore, HashDir, Sys}
use clipmenu.Machine.Calls.{cs_snip_size}

abbrev pub Dir : Type 0
Dir = ℕ → Option HashDir

-- The state with no failure to come, by its parts.
abbrev pub sys : SnipFile → Dir → Bool → ClipStore → Sys
sys f d held c = record { file = f; dir = d; fates = []; locked = held; cs = c }

-- A snip file whose header tells its size, and whose size is that of its slots.
pub record IsValid (f : SnipFile) : Type 0 where
  pub used : f.header.nr_snips ≤ f.header.nr_snips_alloc
  pub slots_alloc : length f.slots ≡ f.header.nr_snips_alloc
  pub size_alloc : f.size ≡ (f.header.nr_snips_alloc + 1) * cs_snip_size
  pub size_lt : f.size < 2 ^ 63

-- No reference is held, and what was mapped last is still mapped.
pub record IsIdle (c : ClipStore) : Type 0 where
  pub no_ref : c.refcount ≡ 0
  pub mapped_local : (c.local_nr_snips_alloc + 1) * cs_snip_size ≤ c.mapped

-- One reference is held, and the whole of the file is mapped.
pub record IsHeld (c : ClipStore) (f : SnipFile) : Type 0 where
  pub one_ref : c.refcount ≡ 1
  pub local_alloc : c.local_nr_snips_alloc ≡ f.header.nr_snips_alloc
  pub mapped_file : f.size ≤ c.mapped

-- The snips in use, oldest first.
abbrev pub live : SnipFile → List Snip
live f = take f.header.nr_snips f.slots
