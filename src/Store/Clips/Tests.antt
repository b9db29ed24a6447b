-- ===== src/Store/Clips/Tests.antt =====
-- A store of two clips, and the theorems about the operations of src/store.c at it.
use clipmenu.Prelude.{
  ◌<◌, ◌≡◌, refl, ◌⊎◌, inr, none, List, [], ◌∷◌, length, ◌==◌, if◌then◌else◌, false, true, arith, ℕ,
}
use mathlib.Core.List.{cons-ne-nil}
use clipmenu.Text.{Bytes, codes, djb64_hash}
use clipmenu.Machine.{SnipFile, ClipStore, ok, err, einval}
use clipmenu.Store.State.{Dir, sys, IsIdle}
use clipmenu.Store.Guard.{Returns}
use clipmenu.Store.Lock.{cs_init}
use clipmenu.Store.Snips.{newest_first}
use clipmenu.Store.Content.{cs_content_get}
use clipmenu.Store.Content.Links.{shelf}
use clipmenu.Store.Ops.{cs_add, cs_remove, cs_trim, cs_replace}
use clipmenu.Store.Ops.Callbacks.{Callback, cs_action_remove, cs_action_keep}
use clipmenu.Store.Init.{cs_init_refuses}
use clipmenu.Store.Clips.{snip_of, count, Represents, NoCollision}
use clipmenu.Store.Clips.Shelves.{content_read}
use clipmenu.Store.Clips.Add.{cs_add_lem}
use clipmenu.Store.Clips.Replace.{cs_replace_lem}
use clipmenu.Store.Clips.Remove.{cs_remove_keeps}
use clipmenu.Store.Clips.Trim.{cs_trim_lem}
use clipmenu.Store.Clips.Start.{cs_init_new, cs_init_reopen}
use clipmenu.Store.Clips.History.{
  Op, add, replace, trim, World, Serves, all_called, all_called-Serves,
}

abbrev pub ab : Bytes
ab = codes "ab"

abbrev pub cc_text : Bytes
cc_text = codes "c"

abbrev pub new_text : Bytes
new_text = codes "new\ntext"

abbrev pub two : List Bytes
two = ab ∷ cc_text ∷ []

abbrev pub two_file : SnipFile
two_file = record {
  size = 768;
  header = record { nr_snips = 2; nr_snips_alloc = 2 };
  slots = snip_of ab ∷ snip_of cc_text ∷ [];
}

abbrev pub two_body : ℕ → Bytes
two_body h = if h == djb64_hash ab then ab else cc_text

abbrev pub two_dir : Dir
two_dir h = shelf (count h two) (two_body h)

abbrev pub two_cs : ClipStore
two_cs = record {
  snip_fd = 3;
  content_dir_fd = 4;
  mapped = 768;
  refcount = 0;
  local_nr_snips = 2;
  local_nr_snips_alloc = 2;
  ready = true;
}

pub two-IsIdle : IsIdle two_cs
two-IsIdle = record { no_ref = refl; mapped_local = omega arith }

pub two-Represents : Represents two two_file two_dir
unfolding djb64_hash
two-Represents = record {
  valid = record {
    used = omega arith;
    slots_alloc = refl;
    size_alloc = refl;
    size_lt = omega arith;
  };
  snips = refl;
  shelved = record { body = two_body; shelves = λ h. refl; texts = (refl, (refl, tt)) };
  few = omega arith;
}

abbrev pub none_file : SnipFile
none_file = record { size = 256; header = record { nr_snips = 0; nr_snips_alloc = 0 }; slots = [] }

abbrev pub none_dir : Dir
none_dir h = none

pub none-Represents : Represents [] none_file none_dir
none-Represents = record {
  valid = record {
    used = omega arith;
    slots_alloc = refl;
    size_alloc = refl;
    size_lt = omega arith;
  };
  snips = refl;
  shelved = record { body = λ h. []; shelves = λ h. refl; texts = tt };
  few = omega arith;
}

pub new-NoCollision : NoCollision new_text two
unfolding djb64_hash
new-NoCollision = (λ e. absurd (omega (arith, e)), (λ e. absurd (omega (arith, e)), tt))

abbrev drop_ab : Callback (Unit {0})
drop_ab p hash line = (if hash == 5863208 then cs_action_remove else cs_action_keep, p)

cs_add_lem_example :
    (f' : SnipFile) × (d' : Dir) × Returns
      (cs_add new_text)
      two_file
      two_dir
      two_cs
      (djb64_hash new_text)
      f'
      d'
    × Represents (ab ∷ cc_text ∷ new_text ∷ []) f' d'
cs_add_lem_example =
    cs_add_lem two new_text two_file two_dir two_cs two-Represents two-IsIdle (omega arith)
      new-NoCollision

cs_replace_lem_example :
    (f' : SnipFile) × (d' : Dir) × Returns
      (cs_replace newest_first 0 new_text)
      two_file
      two_dir
      two_cs
      (djb64_hash new_text)
      f'
      d'
    × Represents (ab ∷ new_text ∷ []) f' d'
cs_replace_lem_example =
    cs_replace_lem newest_first 0 (ab ∷ []) [] cc_text new_text two_file two_dir two_cs
      two-Represents two-IsIdle refl (new-NoCollision.0, tt)

cs_remove_keeps_example :
    (f' : SnipFile) × (d' : Dir) × Returns
      (cs_remove drop_ab newest_first tt)
      two_file
      two_dir
      two_cs
      tt
      f'
      d'
    × Represents (cc_text ∷ []) f' d'
    × ((f'.header.nr_snips_alloc ≡ f'.header.nr_snips) ⊎ (length (cc_text ∷ []) ≡ length two))
unfolding djb64_hash
cs_remove_keeps_example =
    cs_remove_keeps drop_ab newest_first tt two two_file two_dir two_cs two-Represents two-IsIdle

cs_trim_lem_example :
    (f' : SnipFile) × (d' : Dir) × Returns (cs_trim newest_first 1) two_file two_dir two_cs tt f' d'
    × Represents (cc_text ∷ []) f' d'
    × (1 < 2 → f'.header.nr_snips_alloc ≡ 1)
cs_trim_lem_example =
    cs_trim_lem newest_first 1 two two_file two_dir two_cs two-Represents two-IsIdle

content_read_example :
    cs_content_get (djb64_hash cc_text) (sys two_file two_dir false two_cs)
    ≡ (ok (record { bytes = cc_text; size = 1 }), sys two_file two_dir false two_cs)
content_read_example =
    content_read (ab ∷ []) [] cc_text two_dir two_file false two_cs two-Represents.shelved
      (cons-ne-nil _ _)

abbrev no_file : SnipFile
no_file = record { size = 0; header = record { nr_snips = 0; nr_snips_alloc = 0 }; slots = [] }

abbrev no_dir : Dir
no_dir h = none

cs_init_new_example :
    (f' : SnipFile) × Returns (cs_init 5 6) no_file no_dir two_cs tt f' no_dir
    × Represents [] f' no_dir
cs_init_new_example = cs_init_new 5 6 no_file no_dir two_cs refl (λ h. refl)

cs_init_reopen_example : Returns (cs_init 5 6) two_file two_dir two_cs tt two_file two_dir
cs_init_reopen_example = cs_init_reopen 5 6 two_file two_dir two_cs two two-Represents

abbrev torn_file : SnipFile
torn_file = record two_file { size = 1024 }

cs_init_refuses_example :
    (c' : ClipStore) × (cs_init 5 6 (sys torn_file two_dir false two_cs)
      ≡ (err einval, sys torn_file two_dir false c'))
    × (c'.ready ≡ false)
cs_init_refuses_example =
    cs_init_refuses 5 6 two_dir two_cs torn_file (λ e. absurd (omega (arith, e)))
      (inr (inr (λ e. absurd (omega (arith, e)))))

abbrev shared : World
shared = record { file = two_file; dir = two_dir; locked = false; procs = λ p. two_cs }

abbrev calls : List (ℕ × Op)
calls = (0, add new_text) ∷ (1, trim newest_first 2) ∷ (0, replace newest_first 1 ab) ∷ []

all_called-Serves_example : Serves (ab ∷ new_text ∷ []) (all_called calls shared)
unfolding djb64_hash
all_called-Serves_example =
    all_called-Serves calls two shared
      (record { holds = two-Represents; free = refl; idle = λ p. two-IsIdle })
      (
        (omega arith, new-NoCollision),
        (tt, ((λ e. absurd (omega (arith, e)), (λ e. absurd (omega (arith, e)), tt)), tt)),
      )
