-- ===== src/Clipserve/Tests.antt =====
-- clipserve with a store of two clips.
use clipmenu.Prelude.{
  ℕ, ◌≡◌, refl, true, false, Option, none, some, List, [], ◌∷◌, ◌++◌, arith, ◌==◌, if◌then◌else◌,
  length,
}
use mathlib.Core.List.{cons-ne-nil}
use clipmenu.Text.{Bytes, codes, djb64_hash, is_salient_text}
use clipmenu.Machine.{SnipFile, ClipStore, ok, err}
use clipmenu.Store.State.{Dir, sys}
use clipmenu.Store.Clips.Tests.{
  ab, cc_text, new_text, two, two_file, two_dir, two_cs, two-IsIdle, two-Represents,
  new-NoCollision,
}
use clipmenu.Util.{uint64_to_str}
use clipmenu.Util.Descriptors.{run_clipserve}
use clipmenu.X.{get_window_title}
use clipmenu.Daemon.Selections.{clipboard, setup_selections, Atoms}
use clipmenu.Daemon.{Daemon, xfixes_selection_notify}
use clipmenu.Daemon.Handlers.{
  handle_property_notify, handle_x11_event, is_partial_of_last, einprogress,
}
use clipmenu.Daemon.Tests.{cfg, daemon}
use clipmenu.Clipserve.{
  Targets, ServeEvent, selection_request, selection_clear, other, Answer, main,
}
use clipmenu.Clipserve.Serving.{Replies, main_serves}
use clipmenu.Clipserve.Handover.{handed_over}

abbrev atoms : Targets
atoms = record { targets = 100; utf8_string = 101 }

abbrev evts : List ServeEvent
evts = selection_request 9 101 50 ∷ selection_clear ∷ selection_request 9 7 51 ∷ []

main_serves_example :
    (out : List Answer) × (c' : ClipStore) × (main 5 6 atoms
        (codes "5863208")
        (evts ++ (selection_clear ∷ other ∷ []))
        (sys two_file two_dir false two_cs)
      ≡ (ok (some (out, other ∷ [])), sys two_file two_dir false c'))
    × Replies atoms ab evts out
unfolding uint64_to_str djb64_hash
main_serves_example =
    main_serves 5 6 atoms [] (cc_text ∷ []) ab evts (other ∷ []) two_file two_dir two_cs
      two-Represents (cons-ne-nil _ _) (omega arith) refl

-- For XInternAtom() stands the length of a name.
abbrev sels : Atoms
unfolding setup_selections
sels = setup_selections length

-- The window of clipserve, by XStoreName().
abbrev named : ℕ → ℕ → Option Bytes
named prop type = if prop == 39 then some (codes "clipserve") else none

abbrev served_state : ℕ → SnipFile → Dir → ClipStore → Daemon
served_state hash f d c = record daemon {
  store = sys f d false c;
  last_text = some new_text;
  last_text_time = 7;
  serving = hash ∷ [];
}

handed_over_example :
    (hash : ℕ) × (argument : Bytes) × (out : List Answer) × (f' : SnipFile) × (d' : Dir) × (c'
      c'' : ClipStore)
    × (handle_property_notify cfg sels 23 true (some new_text) 7 daemon
        ≡ (ok tt, served_state hash f' d' c'))
    × (run_clipserve (some true) hash ≡ ok (some (codes "clipserve" ∷ argument ∷ [])))
    × (main 5 6 atoms argument (evts ++ (selection_clear ∷ other ∷ [])) (sys f' d' false two_cs)
        ≡ (ok (some (out, other ∷ [])), sys f' d' false c''))
    × Replies atoms new_text evts out
    × (handle_x11_event cfg sels
          (xfixes_selection_notify (get_window_title length named) 9 ∷ [])
          (served_state hash f' d' c')
        ≡ (err einprogress, [], served_state hash f' d' c'))
unfolding is_partial_of_last is_salient_text setup_selections
handed_over_example =
    handed_over length named 5 6 atoms evts (other ∷ []) new_text 7 two two_file two_dir two_cs
      two_cs two-Represents two-IsIdle cfg sels 23 9 clipboard daemon refl refl (omega arith)
      new-NoCollision (λ e. cons-ne-nil _ _) refl (omega arith) (omega arith) refl refl refl
