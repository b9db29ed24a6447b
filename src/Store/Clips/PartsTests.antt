-- ===== src/Store/Clips/PartsTests.antt =====
-- Two processes on the store of two clips that come between each other's calls.
use clipmenu.Prelude.{ℕ, ◌≡◌, refl, arith, List, [], ◌∷◌, false, true}
use clipmenu.Text.{djb64_hash}
use clipmenu.Machine.{ok, err, eexist, enoent}
use clipmenu.Store.State.{sys}
use clipmenu.Store.Snips.{newest_first}
use clipmenu.Store.Content.{cs_content_add_amid, cs_content_add, cs_content_remove}
use clipmenu.Store.Content.Links.{shelf, put}
use clipmenu.Store.Content.Races.{meanwhile, cs_content_add_races}
use clipmenu.Store.Ops.Callbacks.{cs_action_remove}
use clipmenu.Store.Clips.Tests.{
  ab, new_text, two, two_file, two_dir, two_cs, two-IsIdle, two-Represents, new-NoCollision,
}
use clipmenu.Store.Clips.Parts.Interleaving.{all_parts-Shows}
use clipmenu.Store.Clips.Parts.{
  Part, store_content, store_snip, trim_locked, remove_texts, Midway, all_parts, Shows,
}

abbrev before : Midway
before = record {
  world = record { file = two_file; dir = two_dir; locked = false; procs = λ p. two_cs };
  adding = [];
}

-- While process 0 adds a text, process 1 removes all that is stored, and begins to add the same text.
abbrev mixed : List (ℕ × Part)
mixed =
    (0, store_content new_text)
    ∷ (1, remove_texts (λ h l. cs_action_remove) newest_first)
    ∷ (1, store_content new_text)
    ∷ (0, store_snip)
    ∷ (0, trim_locked newest_first 1)
    ∷ []

all_parts-Shows_example : Shows ((1, new_text) ∷ [], new_text ∷ []) (all_parts mixed before)
all_parts-Shows_example =
    all_parts-Shows mixed ([], two) before
      (record { same = refl; holds = two-Represents; free = refl; idle = λ p. two-IsIdle })
      ((omega arith, new-NoCollision), (tt, ((omega arith, (λ e. refl, tt)), (tt, (tt, tt)))))

cs_content_add_races_example :
    (cs_content_add (djb64_hash ab) ab (sys two_file two_dir false two_cs)
      ≡ (ok tt, sys two_file (put (djb64_hash ab) (shelf 2 ab) two_dir) false two_cs))
    × (cs_content_add_amid
          (meanwhile two_cs false (cs_content_add (djb64_hash ab) ab))
          (djb64_hash ab)
          ab
          (sys two_file two_dir false two_cs)
        ≡ (err eexist, sys two_file (put (djb64_hash ab) (shelf 2 ab) two_dir) false two_cs))
    × (cs_content_add_amid
          (meanwhile two_cs true (cs_content_remove (djb64_hash ab)))
          (djb64_hash ab)
          ab
          (sys two_file two_dir false two_cs)
        ≡ (err enoent, sys two_file (put (djb64_hash ab) (shelf 0 ab) two_dir) false two_cs))
unfolding djb64_hash
cs_content_add_races_example =
    cs_content_add_races two_file two_cs two_cs (djb64_hash ab) ab ab two_dir refl
