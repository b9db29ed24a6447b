-- ===== src/Daemon/Tests.antt =====
-- The daemon of src/clipmenud.c with a store of two clips, and the theorems about it there.
use clipmenu.Prelude.{◌≡◌, refl, true, false, none, some, [], ◌∷◌, arith, length}
use mathlib.Core.List.{cons-ne-nil}
use clipmenu.Text.{codes, djb64_hash, is_possible_partial, is_salient_text}
use clipmenu.Machine.{SnipFile, ClipStore, ok, err, abort}
use clipmenu.Store.State.{Dir, sys, IsIdle}
use clipmenu.Store.Clips.{Represents}
use clipmenu.Store.Clips.Tests.{
  new_text, two, two_file, two_dir, two_cs, two-IsIdle, two-Represents, new-NoCollision, none_file,
  none_dir, none-Represents,
}
use clipmenu.Daemon.Selections.{clipboard, Atoms, setup_selections}
use clipmenu.Daemon.{Config, Daemon, other_event}
use clipmenu.Daemon.Handlers.{
  is_partial_of_last, store_clip, written, handle_property_notify, einprogress,
}
use clipmenu.Daemon.Storing.{handle_property_notify_stores, store_clip_aborts}
use clipmenu.Daemon.Ignoring.{all_handled, status_follows}
use clipmenu.Daemon.Loop.{Wake, get_one_clip, get_one_clip_disabled}

abbrev pub cfg : Config
cfg = record {
  max_clips = 1;
  max_clips_batch = 2;
  own_clipboard = true;
  owned = λ sel. true;
  ignore_window = none;
}

-- For XInternAtom() stands the length of a name.
abbrev atoms : Atoms
unfolding setup_selections
atoms = setup_selections length

abbrev pub daemon : Daemon
daemon = record {
  store = sys two_file two_dir false two_cs;
  enabled = true;
  status = codes "1";
  last_text = none;
  last_text_time = 0;
  converting = [];
  serving = [];
}

abbrev after_new : Daemon
after_new = record daemon { last_text = some (codes "new"); last_text_time = 9 }

abbrev disabled : Daemon
disabled = record daemon { enabled = false }

handle_property_notify_stores_example :
    (f' : SnipFile) × (d' : Dir) × (c' : ClipStore) × (handle_property_notify cfg atoms 23 true
        (some new_text)
        7
        daemon
      ≡ (
        ok tt,
        record daemon {
          store = sys f' d' false c';
          last_text = some new_text;
          last_text_time = 7;
          serving = djb64_hash new_text ∷ [];
        },
      ))
    × IsIdle c'
    × Represents (new_text ∷ []) f' d'
unfolding is_partial_of_last is_salient_text setup_selections
handle_property_notify_stores_example =
    handle_property_notify_stores new_text 7 two two_file two_dir two_cs two-Represents two-IsIdle
      cfg atoms 23 clipboard daemon refl refl (omega arith) new-NoCollision (λ e. cons-ne-nil _ _)

store_clip_aborts_example :
    (store_clip new_text 10 (record after_new { store = sys none_file none_dir false two_cs })).0
    ≡ abort
unfolding is_partial_of_last is_possible_partial
store_clip_aborts_example =
    store_clip_aborts new_text 10 [] none_file none_dir two_cs none-Represents two-IsIdle after_new
      refl refl

status_follows_example :
    (all_handled (12 ∷ 10 ∷ 1 ∷ []) daemon
      ≡ (ok tt, record daemon { enabled = false; status = codes "0" }))
    × (all_handled (12 ∷ 12 ∷ 1 ∷ []) daemon
        ≡ (ok tt, record daemon { enabled = true; status = codes "1" }))
status_follows_example =
    status_follows (12 ∷ []) (1 ∷ []) daemon (omega arith)
      (((λ e. absurd (omega (arith, e))), (λ e. absurd (omega (arith, e)))), tt)

abbrev sigusr1_wake : Wake
sigusr1_wake = record {
  selected = true;
  signal = some (some 10, written);
  x_ready = true;
  arrived = other_event ∷ [];
}

get_one_clip_disabled_example :
    get_one_clip cfg atoms [] (sigusr1_wake ∷ []) daemon
    ≡ some (err einprogress, [], record daemon { enabled = false; status = codes "0" })
get_one_clip_disabled_example =
    get_one_clip_disabled cfg atoms [] sigusr1_wake [] daemon
      (record daemon { enabled = false; status = codes "0" }) tt refl
      (status_follows [] [] daemon (omega arith) tt).0 refl
