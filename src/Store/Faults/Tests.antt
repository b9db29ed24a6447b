-- ===== src/Store/Faults/Tests.antt =====
-- The store of two clips under system calls that fail.
use clipmenu.Prelude.{
  take, length, ℕ, ◌+◌, ◌*◌, ◌≡◌, refl, arith, leb, le→leb, true, false, none, some, List, [], ◌∷◌,
  ◌++◌, ◌==◌, if◌then◌else◌,
}
use clipmenu.Machine.{
  SnipFile, ClipStore, Fate, pass, fail, Sys, M, ok, err, abort, einval, negative_errno,
}
use clipmenu.Machine.Calls.{cs_snip_size}
use clipmenu.Text.{djb64_hash}
use clipmenu.Store.State.{Dir, sys, live}
use clipmenu.Store.Ops.{cs_add, compact}
use clipmenu.Store.Faults.Uncut.{compact_uncut}
use clipmenu.Store.Snips.{cs_snip_update}
use clipmenu.Store.Clips.{snip_of}
use clipmenu.Store.Faults.Leaves.{With}
use clipmenu.Store.Faults.Atomic.{cs_add_atomic}
use clipmenu.Store.Lock.{with_guard, cs_init}
use clipmenu.Store.Snips.{newest_first, oldest_first, cs_file_resize}
use clipmenu.Store.Ops.Callbacks.{cs_action_remove}
use clipmenu.Store.Clips.Tests.{ab, cc_text, new_text, two_file, two_dir, two_cs, two-Represents}
use clipmenu.Store.Clips.History.{add, trim, remove}
use clipmenu.Store.Faults.{IsFree, IsSound, IsGuarded, On, Ends}
use clipmenu.Store.Faults.Agrees.{with_guard_agrees}
use clipmenu.Store.Faults.Stuck.{cs_file_resize_strands}
use clipmenu.Store.Faults.World.{
  Event, open_store, change, exit, World, Stands, all_happen, all_happen-Stands,
}

two-IsSound : IsSound two_file
two-IsSound = record {
  used = omega arith;
  inside = omega arith;
  bounded = omega arith;
  begun = omega arith;
}

-- One process has the store open.
abbrev two_world : World
two_world = record {
  file = two_file;
  dir = two_dir;
  locked = false;
  procs = λ p. if p == 0 then some two_cs else none;
}

two-Stands : Stands two_world
two-Stands = record { sound = two-IsSound; unlocked = refl; running = λ p. ground arith }

-- A second process opens the store; the first one's mremap() fails; the second one's lock fails, which
-- ends it; then the first one removes what is left, with an unlink that fails.
abbrev troubles : List (ℕ × Event × List Fate)
troubles =
    (1, open_store 5 6, [])
    ∷ (0, change (add new_text), pass ∷ pass ∷ pass ∷ pass ∷ pass ∷ fail 12 ∷ [])
    ∷ (1, change (trim newest_first 1), fail 4 ∷ [])
    ∷ (0, change (remove (λ h l. cs_action_remove) oldest_first), pass ∷ pass ∷ pass ∷ fail 13 ∷ [])
    ∷ (0, exit, [])
    ∷ []

all_happen-Stands_example : Stands (all_happen troubles two_world)
all_happen-Stands_example = all_happen-Stands troubles two_world two-Stands

-- cs_len(), and the same with a test that the counted snips are mapped.
abbrev counted : M ℕ
counted s = (ok s.file.header.nr_snips, s)

abbrev counted_mapped : M ℕ
counted_mapped s =
    if leb ((s.file.header.nr_snips + 1) * cs_snip_size) s.cs.mapped
    then (ok s.file.header.nr_snips, s)
    else (abort, s)

counted_agrees : (s : Sys) → On IsGuarded s → counted s ≡ counted_mapped s
counted_agrees s g =
    let e : leb ((s.file.header.nr_snips + 1) * cs_snip_size) s.cs.mapped ≡ true =
      le→leb _ _ (omega (arith, g.sound.used, g.mapped, g.current)) in
    rw e refl

abbrev slow_sys : Sys
slow_sys = record {
  file = two_file;
  dir = two_dir;
  fates = pass ∷ fail 4 ∷ [];
  locked = false;
  cs = two_cs;
}

with_guard_agrees_example : with_guard counted slow_sys ≡ with_guard counted_mapped slow_sys
with_guard_agrees_example =
    with_guard_agrees counted counted_mapped slow_sys counted_agrees
      (record { sound = two-IsSound; mapped = omega arith; no_ref = refl; unlocked = refl })

cs_file_resize_strands_example :
    (f' : SnipFile) × (cs_file_resize 3
        (record (sys two_file two_dir true two_cs) { fates = pass ∷ fail 12 ∷ [] })
      ≡ (err (negative_errno 12), record (sys f' two_dir true two_cs) { fates = [] }))
    × (f'.header ≡ two_file.header)
    × ((snip_fd content_dir_fd : ℕ) (d' : Dir) (c' : ClipStore)
        → (c'' : ClipStore) × (cs_init snip_fd content_dir_fd (sys f' d' false c')
            ≡ (err einval, sys f' d' false c''))
          × (c''.ready ≡ false))
cs_file_resize_strands_example =
    cs_file_resize_strands two_file two_dir two_cs 12 [] two-Represents.valid refl (omega arith)

-- The disk is full where the snip file is to grow.
abbrev full_sys : Sys
full_sys = record {
  file = two_file;
  dir = two_dir;
  fates = pass ∷ pass ∷ pass ∷ pass ∷ fail 28 ∷ [];
  locked = false;
  cs = two_cs;
}

cs_add_atomic_example :
    Ends
      (λ hash s'.
        (hash ≡ djb64_hash new_text)
        × With (λ f. live f ≡ live two_file ++ (snip_of new_text ∷ [])) IsFree s')
      (With (λ f. live f ≡ live two_file) IsFree)
      (cs_add new_text full_sys)
cs_add_atomic_example =
    cs_add_atomic new_text full_sys
      (record { sound = two-IsSound; mapped = omega arith; no_ref = refl; unlocked = refl })

-- The older clip is marked.
abbrev marked_file : SnipFile
marked_file = record two_file {
  slots = record (snip_of ab) { doomed = true } ∷ snip_of cc_text ∷ [];
}

compact_uncut_example :
    (f' : SnipFile) × (compact
        (record (sys marked_file two_dir true two_cs) { fates = fail 5 ∷ [] })
      ≡ (err (negative_errno 5), record (sys f' two_dir true two_cs) { fates = [] }))
    × (f'.header ≡ marked_file.header)
    × (take 1 (live f') ≡ snip_of cc_text ∷ [])
    × (length (live f') ≡ 2)
unfolding cs_snip_update
compact_uncut_example =
    compact_uncut marked_file two_dir two_cs 5 []
      (record { used = omega arith; slots_alloc = refl; size_alloc = refl; size_lt = omega arith })
      (omega arith)
