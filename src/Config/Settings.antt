-- ===== src/Config/Settings.antt =====
-- The table of the program's settings in src/config.c, with the conversion and the default of each.
use clipmenu.Prelude.{Bool, false, Option, none, some, List, [], ◌∷◌}
use clipmenu.Text.{Bytes, codes}
use clipmenu.Config.{
  bind, Value, int_value, bool_value, selections_value, window_value, launcher_value, dir_value,
  ConfigEntry, convert_bool, convert_positive_int, convert_selections, convert_launcher, run_passes,
}

module _ (runtime_directory : Bytes) (regcomp : Bytes → Option (Bytes → Bool)) where
  abbrev converted {ℓ} :
      {A : Type ℓ} → (Bytes → Option A) → (A → Value) → Option Bytes → Option Value
  converted convert wrap none = none
  converted convert wrap (some str) = bind (convert str) (λ a. some (wrap a))

  unfoldable pub convert_ignore_window : Option Bytes → Option Value
  convert_ignore_window none = some (window_value none)
  convert_ignore_window (some str) = bind (regcomp str) (λ rgx. some (window_value (some rgx)))

  unfoldable pub convert_cm_dir : Option Bytes → Option Value
  convert_cm_dir none = some (dir_value runtime_directory)
  convert_cm_dir (some str) = some (dir_value str)

  abbrev entry : Bytes → Bytes → (Option Bytes → Option Value) → Option Bytes → ConfigEntry
  entry config_key env_var convert default_value = record {
    config_key = config_key;
    env_var = env_var;
    value = none;
    convert = convert;
    default_value = default_value;
    is_set = false;
  }

  unfoldable pub config_entries : List ConfigEntry
  config_entries =
      entry (codes "max_clips") (codes "CM_MAX_CLIPS") (converted convert_positive_int int_value)
        (some (codes "1000"))
      ∷ entry (codes "max_clips_batch") (codes "CM_MAX_CLIPS_BATCH")
          (converted convert_positive_int int_value) (some (codes "100"))
      ∷ entry (codes "oneshot") (codes "CM_ONESHOT") (converted convert_positive_int int_value)
          (some (codes "0"))
      ∷ entry (codes "own_clipboard") (codes "CM_OWN_CLIPBOARD") (converted convert_bool bool_value)
          (some (codes "0"))
      ∷ entry (codes "selections") (codes "CM_SELECTIONS")
          (converted convert_selections selections_value) (some (codes "clipboard primary"))
      ∷ entry (codes "own_selections") (codes "CM_OWN_SELECTIONS")
          (converted convert_selections selections_value) (some (codes "clipboard"))
      ∷ entry (codes "ignore_window") (codes "CM_IGNORE_WINDOW") convert_ignore_window none
      ∷ entry (codes "launcher") (codes "CM_LAUNCHER")
          (converted (λ str. some (convert_launcher str)) launcher_value) (some (codes "dmenu"))
      ∷ entry (codes "launcher_pass_dmenu_args") (codes "CM_LAUNCHER_PASS_DMENU_ARGS")
          (converted convert_bool bool_value) (some (codes "1"))
      ∷ entry (codes "cm_dir") (codes "CM_DIR") convert_cm_dir none
      ∷ []

  unfoldable pub config_setup_internal :
      (Bytes → Option Bytes) → List Bytes → Option (List ConfigEntry)
  unfolding run_passes config_entries
  config_setup_internal getenv lines = run_passes getenv lines config_entries
