-- ===== src/Config/Tests.antt =====
-- Runs of the conversions and of the setup, and the theorems about them at concrete inputs.
use clipmenu.Prelude.{
  ℕ, zero, suc, ◌≤◌, ◌≡◌, refl, true, false, Option, none, some, List, [], ◌∷◌, ◌++◌, map, arith,
  ◌==◌, if◌then◌else◌, take, replicate, All,
}
use clipmenu.Config.Lines.{read_lines, read_lines-printed}
use clipmenu.Text.{Bytes, codes, streq, isspace}
use clipmenu.Util.{uint64_to_str}
use clipmenu.Config.{
  convert_bool, convert_positive_int, convert_selections, int_max, Value, int_value, bool_value,
  ConfigEntry, for_entries, key_value,
}
use clipmenu.Config.Settings.{
  config_setup_internal, config_entries, convert_ignore_window, convert_cm_dir,
}
use clipmenu.Machine.{ok, err, abort, eexist}
use clipmenu.Util.Descriptors.{snprintf_safe}
use clipmenu.Config.Paths.{get_config_file, get_line_cache_path, get_cache_dir}
use clipmenu.Config.Precedence.{settled, config_setup_internal_lem}
use clipmenu.Config.Convert.{convert_positive_int_lem}

bool_run : convert_bool (codes "YES") ≡ some true
unfolding convert_bool
bool_run = refl

negative_run : convert_positive_int (codes "-1") ≡ none
unfolding convert_positive_int isspace
negative_run = refl

selections_run :
    convert_selections (codes "primary  clipboard")
    ≡ some (record { clipboard_active = true; primary_active = true; secondary_active = false })
unfolding convert_selections streq
selections_run = refl

line_run : key_value (codes " max_clips 7\n") ≡ some (codes "max_clips", codes "7")
unfolding key_value
line_run = refl

convert_positive_int_lem_example :
    ((str : Bytes) → convert_positive_int str ≡ some 1000 → 1000 ≤ int_max)
    × (1000 ≤ int_max
        → (k : ℕ) → convert_positive_int (replicate k 32 ++ uint64_to_str 1000) ≡ some 1000)
convert_positive_int_lem_example = convert_positive_int_lem 1000

abbrev getenv : Bytes → Option Bytes
getenv name = if streq name (codes "CM_ONESHOT") then some (codes "1") else none

abbrev file : List Bytes
file = codes "max_clips 7\n" ∷ codes "oneshot 0\n" ∷ codes "max_clips 8\n" ∷ []

config_setup_internal_lem_example :
    config_setup_internal (codes "/tmp") (λ pattern. none) getenv file
    ≡ for_entries (settled getenv file) (config_entries (codes "/tmp") (λ pattern. none))
config_setup_internal_lem_example =
    config_setup_internal_lem (codes "/tmp") (λ pattern. none) getenv file

abbrev values : Option (List ConfigEntry) → List (Option Value)
values none = []
values (some entries) = map (λ e. e.value) (take 4 entries)

setup_run :
    values (config_setup_internal (codes "/tmp") (λ pattern. none) getenv file)
    ≡ some (int_value 7) ∷ some (int_value 100) ∷ some (int_value 1) ∷ some (bool_value false) ∷ []
unfolding config_setup_internal streq convert_positive_int convert_bool isspace convert_selections
    convert_ignore_window convert_cm_dir
setup_run = refl

abbrev home_only : Bytes → Option Bytes
home_only name = if streq name (codes "HOME") then some (codes "/h") else none

config_file_run : get_config_file home_only ≡ ok (codes "/h/.config/clipmenu/clipmenu.conf")
unfolding get_config_file snprintf_safe streq
config_file_run = refl

no_home_run : get_config_file (λ name. none) ≡ abort
unfolding get_config_file
no_home_run = refl

line_cache_run :
    get_line_cache_path (get_cache_dir (λ path. err eexist) true (codes "/run") 1000)
    ≡ ok (codes "/run/clipmenu.7.1000/line_cache")
unfolding get_line_cache_path get_cache_dir snprintf_safe uint64_to_str
line_cache_run = refl

abbrev exes : Bytes
exes = replicate 255 120

read_lines-printed_example :
    (read_lines (codes "a 1\n") ≡ codes "a 1\n" ∷ [])
    × (read_lines (codes "a 1\n" ++ (exes ++ codes "max_clips 7\n"))
        ≡ codes "a 1\n" ∷ exes ∷ codes "max_clips 7\n" ∷ [])
unfolding read_lines
read_lines-printed_example =
    read_lines-printed (codes "a 1" ∷ []) exes (codes "max_clips 7\n")
      (((refl, (refl, (refl, tt))), omega arith), tt) (exes_only 255) refl
  where
    exes_only : (n : ℕ) → All (λ c. (c == 10) ≡ false) (replicate n 120)
    exes_only zero = tt
    exes_only (suc n) = (refl, exes_only n)
