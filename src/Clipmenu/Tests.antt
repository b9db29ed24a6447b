-- ===== src/Clipmenu/Tests.antt =====
-- A menu of two clips, and the theorems about clipmenu at it.
use clipmenu.Prelude.{inr, arith, ◌<◌, ◌≡◌, refl, false, none, some, [], ◌∷◌, length, drop}
use mathlib.Core.List.{cons-ne-nil}
use clipmenu.Text.{Bytes, codes, djb64_hash, first_line, line_at}
use clipmenu.Machine.{ClipStore, ok}
use clipmenu.Store.State.{sys}
use clipmenu.Store.Snips.{cs_snip_update}
use clipmenu.Store.Clips.Tests.{ab, cc_text, two, two_file, two_dir, two_cs, two-Represents}
use clipmenu.Util.{uint64_to_str}
use clipmenu.Clipmenu.{
  launcher_rofi, max_args, get_padding_length, menu_line, interact_with_dmenu, exec_launcher,
}
use clipmenu.Clipmenu.Choice.{Shown}
use clipmenu.Clipmenu.RoundTrip.{full_menu, interact_refuses, interact_selects}
use clipmenu.Clipmenu.Arguments.{exec_launcher_lem}

menu_run : full_menu two ≡ codes "[2] c\n[1] ab\n"
unfolding get_padding_length menu_line uint64_to_str first_line line_at cs_snip_update
menu_run = refl

two-Shown : Shown two
unfolding first_line line_at
two-Shown = (cons-ne-nil _ _, (cons-ne-nil _ _, tt))

-- A user who takes the second line, and one who types a number that no clip has.
abbrev second_line : Bytes → Bytes
second_line menu = drop 6 menu

abbrev no_line : Bytes → Bytes
no_line menu = codes "[3] x\n"

interact_selects_example :
    (c' : ClipStore) × (interact_with_dmenu 5 6 0 second_line (sys two_file two_dir false two_cs)
      ≡ (
        ok (record { exit_code = 0; serving = some (djb64_hash ab); menu = full_menu two }),
        sys two_file two_dir false c',
      ))
unfolding get_padding_length menu_line uint64_to_str first_line line_at cs_snip_update
interact_selects_example =
    interact_selects 5 6 0 second_line [] (cc_text ∷ []) ab two_file two_dir two_cs two-Represents
      two-Shown refl

interact_refuses_example :
    (c' : ClipStore) × (interact_with_dmenu 5 6 1 no_line (sys two_file two_dir false two_cs) ≡ (
      ok (record { exit_code = 1; serving = none; menu = full_menu two }),
      sys two_file two_dir false c',
    ))
unfolding uint64_to_str
interact_refuses_example =
    interact_refuses 5 6 1 no_line two two_file two_dir two_cs two-Represents two-Shown
      (inr (inr (91, 0, 3, codes " x\n", omega arith, omega arith, inr (omega arith), refl)))

exec_launcher_lem_example :
    (exec_launcher launcher_rofi false (codes "clipmenu" ∷ codes "-i" ∷ [])
      ≡ codes "rofi" ∷ codes "--" ∷ codes "-dmenu" ∷ codes "-i" ∷ [])
    × (length (exec_launcher launcher_rofi false (codes "clipmenu" ∷ codes "-i" ∷ [])) < max_args)
exec_launcher_lem_example =
    exec_launcher_lem launcher_rofi false (codes "clipmenu" ∷ codes "-i" ∷ [])
