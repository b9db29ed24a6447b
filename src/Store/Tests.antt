-- ===== src/Store/Tests.antt =====
-- Runs of the clip store from an empty file.
use clipmenu.Prelude.{ℕ, ◌≡◌, refl, Bool, false, Option, none, List, [], map, length, take}
use clipmenu.Text.{codes, line_at, djb64_hash, first_line}
use clipmenu.Machine.{Sys, Outcome, ok, M, ◌>>◌, HashDir, negative_errno}
use clipmenu.Machine.Calls.{
  flock, fstat_size, resize, ftruncate, remap, munmap, mkdirat, fstatat, linkat, create, open_dir,
  unlinkat, rmdir,
}
use clipmenu.Store.Lock.{
  cs_init, with_guard, cs_ref, cs_unref, cs_ref_no_update, cs_file_size, cs_header_validate,
}
use clipmenu.Store.Snips.{
  newest_first, cs_snip_add, cs_file_resize, round_up, cs_snip_update, cs_snip_remove_doomed,
  cs_snip_iter,
}
use clipmenu.Store.Snips.{remove_doomed}
use clipmenu.Store.Content.{cs_content_add, cs_content_remove}
use clipmenu.Store.Ops.{cs_add, cs_remove, cs_trim, cs_replace, cs_len, trim_callback, remove_loop}
use clipmenu.Store.State.{sys}
use clipmenu.Machine.{SnipFile, Snip}
use clipmenu.Prelude.{arith, true, ◌∷◌, some}
use clipmenu.Store.Snips.Compact.{with_slots, cs_snip_remove_doomed_lem}
use clipmenu.Store.Content.{write_loop}
use clipmenu.Store.Content.Writes.{link_to, Written, write_loop_lem}
use clipmenu.Machine.{short, fail}

abbrev pub blank : Sys
blank = record {
  file = record { size = 0; header = record { nr_snips = 0; nr_snips_alloc = 0 }; slots = [] };
  dir = λ h. none;
  fates = [];
  locked = false;
  cs = record {
    snip_fd = 0;
    content_dir_fd = 0;
    mapped = 0;
    refcount = 0;
    local_nr_snips = 0;
    local_nr_snips_alloc = 0;
    ready = false;
  };
}

-- Three clips, the first two alike.
script : M ℕ
script = do
  cs_init 3 4
  cs_add (codes "foo")
  cs_add (codes "foo")
  cs_add (codes "ab\nc")
  cs_trim newest_first 2
  cs_replace newest_first 0 (codes "x\ny")
  cs_len

abbrev lines : Sys → List (ℕ × ℕ)
lines s = map (λ x. (x.hash, x.nr_lines)) (take s.file.header.nr_snips s.file.slots)

script_len : (script blank).0 ≡ ok 2
unfolding script cs_init cs_add cs_trim cs_replace cs_len cs_remove with_guard cs_ref cs_unref
    cs_ref_no_update flock fstat_size resize ftruncate remap munmap mkdirat fstatat linkat create
    open_dir unlinkat rmdir cs_file_size cs_header_validate cs_snip_add cs_file_resize round_up
    cs_snip_update cs_snip_remove_doomed cs_snip_iter cs_content_add cs_content_remove trim_callback
    line_at djb64_hash first_line remove_loop remove_doomed negative_errno
script_len = refl

run : Outcome ℕ × List (ℕ × ℕ) × ℕ × Option HashDir × Bool × ℕ
run =
    let (r, s) = script blank in
    (r, lines s, length s.file.slots, s.dir (djb64_hash (codes "foo")), s.locked, s.cs.mapped)

abbrev snip : ℕ → Bool → Snip
snip h gone = record { hash = h; doomed = gone; nr_lines = 1; line = codes "x" }

abbrev three : SnipFile
three = record {
  size = 1024;
  header = record { nr_snips = 3; nr_snips_alloc = 3 };
  slots = snip 1 true ∷ snip 2 false ∷ snip 3 true ∷ [];
}

cs_snip_remove_doomed_lem_example :
    (slots' : List Snip) × (cs_snip_remove_doomed (sys three blank.dir true blank.cs)
      ≡ (some 2, sys (with_slots slots' three) blank.dir true blank.cs))
    × (take 1 slots' ≡ snip 2 false ∷ [])
    × (length slots' ≡ 3)
cs_snip_remove_doomed_lem_example = cs_snip_remove_doomed_lem three blank.dir blank.cs (omega arith)

-- A directory with an empty file, and a write() that stops after a byte and then fails.
abbrev open_file : Sys
open_file = record blank { dir = λ h. link_to [] (1 ∷ []) }

write_loop_lem_example :
    Written []
      (codes "ab")
      (1 ∷ [])
      7
      (write_loop (short 1 ∷ fail 28 ∷ []) 7 (codes "ab") open_file)
write_loop_lem_example =
    write_loop_lem (short 1 ∷ fail 28 ∷ []) 7 [] (codes "ab") (1 ∷ []) open_file refl
