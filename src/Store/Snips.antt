-- ===== src/Store/Snips.antt =====
-- src/store.c: the snips of the snip file. round_up, cs_file_resize, cs_snip_update, cs_snip_add,
-- cs_snip_iter and cs_snip_remove_doomed.
pub mod Resize
pub mod Add
pub mod Compact
use clipmenu.Prelude.{
  ℕ, zero, suc, ◌+◌, ◌-◌, ◌*◌, ◌/◌, ◌%◌, ◌^◌, ◌≤◌, ◌<◌, bit_and, ◌≡◌, refl, sym, ap, ◌∙◌, subst,
  fun_ext, ◌≡⟨◌⟩◌, ◌∎, ◌≢◌, ◌↔◌, ◌⊎◌, inl, inr, Bool, true, false, not, ◌&&◌, ◌||◌, Option, none,
  some, List, [], ◌∷◌, ◌++◌, map, append_assoc, append-nil, map-append, reverse, reverse-append,
  reverse-reverse, arith, ltb, leb, ◌==◌, if◌then◌else◌, ltb→lt, not-ltb→le, not-leb→lt, lt→ltb,
  le→not-ltb, le→leb, leb→le, lt→not-leb, ==_iff, ==_refl, Bool-cases, length, get_or, set, take,
  drop, replicate, length-append, get_or-append, set-append, take-append, take-append_le, take_all,
  take-append-drop, length-take_le, length-take_of_le, length-set, length-replicate, split_at, All,
  All-append, length-map, take-map, length-reverse, String,
}
use clipmenu.Text.{Bytes, add64, mul64, u64_mod, cs_snip_line_size}
use clipmenu.Machine.{
  Snip, Header, SnipFile, ClipStore, Sys, Outcome, ok, err, abort, M, ◌>>=◌, ◌>>◌, pure, raise,
  expect_ok, checked, einval,
}
use clipmenu.Machine.Calls.{zero_snip, ftruncate, remap}
use clipmenu.Store.Lock.{cs_file_size, with_guard}

-- CS_SNIP_ALLOC_BATCH
abbrev pub cs_snip_alloc_batch : ℕ
cs_snip_alloc_batch = 1024

-- n + step - 1 in size_t.
unfoldable pub round_up : ℕ → ℕ → ℕ
round_up n step = mul64 ((n + step + (u64_mod - 1)) % u64_mod / step) step

abbrev pub set_nr_snips : ℕ → Sys → Sys
set_nr_snips n s = record s {
  file = record (s.file) { header = record (s.file.header) { nr_snips = n } };
}

-- The header and the locals take the new sizes.
abbrev pub set_sizes : ℕ → ℕ → Sys → Sys
set_sizes nr_snips nr_snips_alloc s = record s {
  file = record (s.file) {
    header = record { nr_snips = nr_snips; nr_snips_alloc = nr_snips_alloc };
  };
  cs = record (s.cs) { local_nr_snips = nr_snips; local_nr_snips_alloc = nr_snips_alloc };
}

unfoldable pub resize_file : Bool → ℕ → ℕ → M (Unit {0})
resize_file grow new_nr_snips new_nr_snips_alloc = do
  let new_size = cs_file_size new_nr_snips_alloc
  checked (ftruncate new_size)
  if grow then checked (remap new_size) else pure tt
  λ s. (ok tt, set_sizes new_nr_snips new_nr_snips_alloc s)

unfoldable pub cs_file_resize : ℕ → M (Unit {0})
unfolding resize_file
cs_file_resize new_nr_snips s =
    let grow = leb s.file.header.nr_snips new_nr_snips in
    if grow && leb new_nr_snips s.file.header.nr_snips_alloc
    then (ok tt, set_nr_snips new_nr_snips s)
    else resize_file grow new_nr_snips
        (if grow then round_up new_nr_snips cs_snip_alloc_batch else new_nr_snips) s

-- strncpy() copies up to the NUL, at most one byte less than the array; the old snip is forgotten.
unfoldable pub cs_snip_update : ℕ → Bytes → ℕ → Snip
cs_snip_update hash line nr_lines = record {
  hash = hash;
  doomed = false;
  nr_lines = nr_lines;
  line = take (cs_snip_line_size - 1) line;
}

abbrev pub set_slot : ℕ → Snip → Sys → Sys
set_slot i x s = record s { file = record (s.file) { slots = set s.file.slots i x } }

abbrev pub slot : ℕ → Sys → Snip
slot i s = get_or s.file.slots i zero_snip

-- cs->snips + nr_snips - 1
unfoldable pub write_last : ℕ → Bytes → ℕ → M (Unit {0})
write_last hash line nr_lines s =
    (ok tt, set_slot (s.file.header.nr_snips - 1) (cs_snip_update hash line nr_lines) s)

unfoldable pub add_last : ℕ → Bytes → ℕ → M (Unit {0})
unfolding write_last
add_last hash line nr_lines = do
  λ s. cs_file_resize (add64 s.file.header.nr_snips 1) s
  write_last hash line nr_lines

unfoldable pub cs_snip_add : ℕ → Bytes → ℕ → M (Unit {0})
unfolding add_last
cs_snip_add hash line nr_lines = with_guard (add_last hash line nr_lines)

pub data Direction : Type 0 where
  newest_first oldest_first : Direction

-- A pointer to a snip is its index plus one, so that `start - 1` has a number too; `none` is NULL.
abbrev pub Pointer : Type 0
Pointer = Option ℕ

unfoldable pub next_pointer : Direction → ℕ → Pointer → ℕ
next_pointer newest_first nr_snips none = nr_snips
next_pointer oldest_first nr_snips none = 1
next_pointer newest_first nr_snips (some p) = p - 1
next_pointer oldest_first nr_snips (some p) = p + 1

-- The status of the guard, the direction, header->nr_snips and *snip; whether there is a snip, and
-- the new *snip.
unfoldable pub cs_snip_iter : ℕ → Direction → ℕ → Pointer → Bool × Pointer
unfolding next_pointer
cs_snip_iter status direction nr_snips snip =
    if not (status == 0)
    then (false, snip)
    else (let p = next_pointer direction nr_snips snip in (leb 1 p && leb p nr_snips, some p))

abbrev pub index_of : Pointer → ℕ
index_of none = 0
index_of (some p) = p - 1

-- *(snip - nr_doomed) = *snip
abbrev pub shift_slot : ℕ → ℕ → Sys → Sys
shift_slot i nr_doomed s = if ltb 0 nr_doomed then set_slot (i - nr_doomed) (slot i s) s else s

-- The loop, on fuel: it visits each snip once. `none` means that the fuel ran out.
unfoldable pub remove_doomed : ℕ → Pointer → ℕ → Sys → Option ℕ × Sys
unfolding cs_snip_iter
remove_doomed zero snip nr_doomed s = (none, s)
remove_doomed (suc fuel) snip nr_doomed s =
    let (more, snip') = cs_snip_iter 0 oldest_first s.file.header.nr_snips snip in
    let i = index_of snip' in
    elim more [
      | false ↦ (some nr_doomed, s)
      | true ↦ elim (slot i s).doomed [
        | true ↦ remove_doomed fuel snip' (nr_doomed + 1) s
        | false ↦ remove_doomed fuel snip' nr_doomed (shift_slot i nr_doomed s)
      ]
    ]

unfoldable pub cs_snip_remove_doomed : Sys → Option ℕ × Sys
cs_snip_remove_doomed s = remove_doomed (s.file.header.nr_snips + 1) none 0 s
