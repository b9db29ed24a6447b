-- ===== src/Store/Snips/Resize.antt =====
-- round_up and cs_file_resize of src/store.c: growing in batches, shrinking exactly.
use clipmenu.Prelude.{
  ℕ, ◌+◌, ◌-◌, ◌*◌, ◌%◌, ◌^◌, ◌≤◌, ◌<◌, ◌≡◌, refl, ◌∙◌, Bool, true, false, List, ◌++◌, arith,
  le→leb, lt→not-leb, length, take, replicate, length-append, take-append_le, take-take,
  length-take_of_le, length-replicate,
}
use clipmenu.Text.{u64_mod}
use clipmenu.Machine.{Snip, SnipFile, ClipStore}
use clipmenu.Machine.Calls.{cs_snip_size, zero_snip, resize, ftruncate, remap}
use clipmenu.Store.State.{Dir, IsValid, IsHeld}
use clipmenu.Store.Guard.{cs_file_size_lem, Runs}
use clipmenu.Store.Snips.{cs_snip_alloc_batch, round_up, resize_file, cs_file_resize}

-- Rounding up gives the next multiple of the batch.
pub round_up_bounds :
    (n : ℕ)
    → n + cs_snip_alloc_batch < u64_mod
    → (n ≤ round_up n cs_snip_alloc_batch)
      × (round_up n cs_snip_alloc_batch < n + cs_snip_alloc_batch)
      × (round_up n cs_snip_alloc_batch % cs_snip_alloc_batch ≡ 0)
unfolding round_up
round_up_bounds n h = (omega arith, omega arith, omega arith)

-- The number of snips, far below what an off_t can hold.
abbrev pub max_snips : ℕ
max_snips = 2 ^ 54

abbrev pub with_nr : ℕ → SnipFile → SnipFile
with_nr n f = record f { header = record (f.header) { nr_snips = n } }

abbrev pub resized : ℕ → ℕ → SnipFile → SnipFile
resized nr alloc f = record {
  size = (alloc + 1) * cs_snip_size;
  header = record { nr_snips = nr; nr_snips_alloc = alloc };
  slots = resize alloc f.slots;
}

pub length-resize : (n : ℕ) (xs : List Snip) → length (resize n xs) ≡ n
unfolding resize
length-resize n xs = length-take_of_le n (xs ++ replicate (n - length xs) zero_snip) (
    omega (
      arith,
      length-append {0} xs (replicate (n - length xs) zero_snip),
      length-replicate {0} (n - length xs) zero_snip,
    ))

-- What lies below both lengths is kept.
pub take-resize :
    (k n : ℕ) (xs : List Snip) → k ≤ n → k ≤ length xs → take k (resize n xs) ≡ take k xs
unfolding resize
take-resize k n xs hn hx = take-take k n _ hn ∙ take-append_le k xs _ hx

pub resized-IsValid :
    (f : SnipFile) (nr alloc : ℕ)
    → nr ≤ alloc
    → (alloc + 1) * cs_snip_size < 2 ^ 63
    → IsValid (resized nr alloc f)
resized-IsValid f nr alloc h lt = record {
  used = h;
  slots_alloc = length-resize alloc f.slots;
  size_alloc = refl;
  size_lt = lt;
}

module _ (f : SnipFile) (d : Dir) (c : ClipStore) (v : IsValid f) (h : IsHeld c f) where
  pub resize_fast :
      (n : ℕ)
      → f.header.nr_snips ≤ n
      → n ≤ f.header.nr_snips_alloc
      → Runs (cs_file_resize n) f d c tt (with_nr n f) d
  unfolding cs_file_resize
  resize_fast n lo hi = (c, ground arith, ground arith)

  pub resize_file_quiet :
      (grow : Bool) (nr alloc : ℕ)
      → (alloc + 1) * cs_snip_size < 2 ^ 63
      → (grow ≡ false → alloc ≤ f.header.nr_snips_alloc)
      → Runs (resize_file grow nr alloc) f d c tt (resized nr alloc f) d
  unfolding resize_file ftruncate remap
  resize_file_quiet true nr alloc lt small = (
    record c {
      mapped = (alloc + 1) * cs_snip_size;
      local_nr_snips = nr;
      local_nr_snips_alloc = alloc;
    },
    ground (arith, cs_file_size_lem alloc),
    ground arith,
  )
  resize_file_quiet false nr alloc lt small = (
    record c { local_nr_snips = nr; local_nr_snips_alloc = alloc },
    ground (arith, cs_file_size_lem alloc),
    ground (arith, small refl),
  )

  pub resize_grow :
      (n : ℕ)
      → f.header.nr_snips_alloc < n
      → n < max_snips
      → Runs (cs_file_resize n) f d c tt (resized n (round_up n cs_snip_alloc_batch) f) d
  unfolding cs_file_resize
  resize_grow n lo hi =
      let (le, lt, _) = round_up_bounds n (omega arith) in
      rw (le→leb f.header.nr_snips n (omega arith), lt→not-leb n f.header.nr_snips_alloc lo)
        (resize_file_quiet true n (round_up n cs_snip_alloc_batch) (omega arith) (λ e. cc))

  pub resize_shrink :
      (n : ℕ) → n < f.header.nr_snips → Runs (cs_file_resize n) f d c tt (resized n n f) d
  unfolding cs_file_resize
  resize_shrink n lt =
      rw (lt→not-leb f.header.nr_snips n lt)
        (resize_file_quiet false n n (omega arith) (λ e. omega arith))
