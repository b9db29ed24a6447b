-- ===== src/Config/Precedence.antt =====
-- Where each setting of src/config.c takes its value from.
use clipmenu.Prelude.{
  ◌≡◌, refl, sym, ap, ◌∙◌, subst, inl, inr, Bool, true, false, not, ◌&&◌, Option, none, some, List,
  [], ◌∷◌, arith, if◌then◌else◌, Bool-cases, All,
}
use clipmenu.Text.{Bytes, streq}
use clipmenu.Config.{
  bind, Value, ConfigEntry, with_value, from_env, parse_env_var, for_entries, key_value,
  apply_default, config_parse_env_vars, config_parse_file, config_apply_default_values, run_passes,
}
use clipmenu.Config.Settings.{config_entries, config_setup_internal}
use clipmenu.Config.Traverse.{
  Step, keys, Distinct, pair_step, line_step, lines_step, for_entries-bind, for_entries_same,
  config_parse_file-for_entries, KeepsKey, keys_kept, bind_same, some_inj, with_value-KeepsKey,
}

-- The value that the first line with this key gives.
abbrev pub in_pair : Bytes → Option (Bytes × Bytes) → Option Bytes → Option Bytes
in_pair key none later = later
in_pair key (some (k, value)) later = if streq key k then some value else later

abbrev pub in_file : Bytes → List Bytes → Option Bytes
in_file key [] = none
in_file key (line ∷ lines) = in_pair key (key_value line) (in_file key lines)

abbrev pub or_else : Option Bytes → Option Bytes → Option Bytes
or_else none other = other
or_else (some a) other = some a

abbrev pub is_some : Option Bytes → Bool
is_some none = false
is_some (some a) = true

-- What is given for an entry: by its environment variable, else by the file.
abbrev pub given : (Bytes → Option Bytes) → List Bytes → ConfigEntry → Option Bytes
given getenv lines e = or_else (getenv e.env_var) (in_file e.config_key lines)

-- The entry with what is given for it, else with its default.
abbrev pub settled : (Bytes → Option Bytes) → List Bytes → Step
settled getenv lines e =
    with_value (is_some (given getenv lines e))
      (e.convert (or_else (given getenv lines e) e.default_value)) e

line_step_set :
    (pair : Option (Bytes × Bytes)) (e : ConfigEntry) → e.is_set ≡ true → line_step pair e ≡ some e
unfolding pair_step
line_step_set none e h = refl
line_step_set (some (key, value)) e h = rw h

-- An entry that is set stays as it is.
lines_step_set :
    (lines : List Bytes) (e : ConfigEntry) → e.is_set ≡ true → lines_step lines e ≡ some e
lines_step_set [] e h = refl
lines_step_set (line ∷ lines) e h =
    rw (line_step_set (key_value line) e h) (lines_step_set lines e h)

set_stays :
    (lines : List Bytes) (e : ConfigEntry) (v : Option Value)
    → bind (with_value true v e) (lines_step lines) ≡ with_value true v e
set_stays lines e none = refl
set_stays lines e (some v) = lines_step_set lines (record e { value = some v; is_set = true }) refl

pair_step_other :
    (key value : Bytes) (e : ConfigEntry)
    → streq e.config_key key ≡ false
    → pair_step key value e ≡ some e
unfolding pair_step
pair_step_other key value e h = ground arith

pair_step_here :
    (key value : Bytes) (e : ConfigEntry)
    → e.is_set ≡ false
    → streq e.config_key key ≡ true
    → pair_step key value e ≡ with_value true (e.convert (some value)) e
unfolding pair_step
pair_step_here key value e unset h = rw (unset, h)

lines_step_unset :
    (lines : List Bytes) (e : ConfigEntry)
    → e.is_set ≡ false
    → lines_step lines e ≡ from_env (in_file e.config_key lines) e
lines_step_unset [] e unset = refl
lines_step_unset (line ∷ lines) e unset = by_pair (key_value line) (lines_step_unset lines e unset)
  where
    by_pair :
        (pair : Option (Bytes × Bytes))
        → lines_step lines e ≡ from_env (in_file e.config_key lines) e
        → bind (line_step pair e) (lines_step lines)
          ≡ from_env (in_pair e.config_key pair (in_file e.config_key lines)) e
    by_pair none later = later
    by_pair (some (key, value)) later = elim (Bool-cases (streq e.config_key key)) [
      | inl h ↦
          rw (h, pair_step_here key value e unset h) (set_stays lines e (e.convert (some value)))
      | inr h ↦ rw (h, pair_step_other key value e h) later
    ]

default_after :
    (e : ConfigEntry) (v : Option Value)
    → bind (with_value true v e) apply_default ≡ with_value true v e
unfolding apply_default
default_after e none = refl
default_after e (some v) = refl

default_unset :
    (e : ConfigEntry)
    → e.is_set ≡ false
    → apply_default e ≡ with_value false (e.convert e.default_value) e
unfolding apply_default
default_unset e unset = rw unset

entry_settled :
    (getenv : Bytes → Option Bytes) (lines : List Bytes) (e : ConfigEntry)
    → e.is_set ≡ false
    → bind (bind (parse_env_var getenv e) (lines_step lines)) apply_default ≡ settled getenv lines e
unfolding parse_env_var
entry_settled getenv lines e unset = by_env (getenv e.env_var)
  where
    by_file :
        (v : Option Bytes)
        → bind (from_env v e) apply_default
          ≡ with_value (is_some v) (e.convert (or_else v e.default_value)) e
    by_file none = default_unset e unset
    by_file (some v) = default_after e (e.convert (some v))

    by_env :
        (o : Option Bytes)
        → bind (bind (from_env o e) (lines_step lines)) apply_default
          ≡ with_value
              (is_some (or_else o (in_file e.config_key lines)))
              (e.convert (or_else (or_else o (in_file e.config_key lines)) e.default_value))
              e
    by_env none = rw (lines_step_unset lines e unset) (by_file (in_file e.config_key lines))
    by_env (some v) =
        rw (set_stays lines e (e.convert (some v))) (default_after e (e.convert (some v)))

env-KeepsKey : (getenv : Bytes → Option Bytes) → KeepsKey (parse_env_var getenv)
unfolding parse_env_var
env-KeepsKey getenv e e' h = by_env (getenv e.env_var) h
  where
    by_env : (o : Option Bytes) → from_env o e ≡ some e' → e'.config_key ≡ e.config_key
    by_env none h' = ap (λ x. x.config_key) (sym (some_inj e e' h'))
    by_env (some v) h' = with_value-KeepsKey true (e.convert (some v)) e e' h'

-- Of a table with different keys in which nothing is set, every entry takes its value from its
-- environment variable, else from the first line of the file with its key, else from its default;
-- the result is an error exactly where one of these values cannot be converted.
pub run_passes_lem :
    (getenv : Bytes → Option Bytes) (lines : List Bytes) (entries : List ConfigEntry)
    → Distinct (keys entries)
    → All (λ e. e.is_set ≡ false) entries
    → run_passes getenv lines entries ≡ for_entries (settled getenv lines) entries
unfolding run_passes config_parse_env_vars config_apply_default_values
run_passes_lem getenv lines entries distinct unset =
    ap (λ o. bind o (for_entries apply_default))
      (bind_same (for_entries (parse_env_var getenv) entries) (config_parse_file lines)
          (for_entries (lines_step lines))
          (λ fs e. config_parse_file-for_entries lines fs (
            subst Distinct
              (sym (keys_kept (parse_env_var getenv) entries fs (env-KeepsKey getenv) e)) distinct))
        ∙ for_entries-bind (parse_env_var getenv) (lines_step lines) entries)
    ∙ for_entries-bind (λ e. bind (parse_env_var getenv e) (lines_step lines)) apply_default entries
    ∙ for_entries_same _ (settled getenv lines) (λ e. e.is_set ≡ false) entries
        (entry_settled getenv lines) unset

no_same : Bytes → List Bytes → Bool
no_same k [] = true
no_same k (k' ∷ ks) = not (streq k' k) && no_same k ks

all_differ : List Bytes → Bool
all_differ [] = true
all_differ (k ∷ ks) = no_same k ks && all_differ ks

no_same_sound :
    (k : Bytes) (ks : List Bytes) → no_same k ks ≡ true → All (λ k'. streq k' k ≡ false) ks
unfolding no_same
no_same_sound k [] h = tt
no_same_sound k (k' ∷ ks) h = (ground arith, no_same_sound k ks (ground arith))

all_differ-Distinct : (ks : List Bytes) → all_differ ks ≡ true → Distinct ks
unfolding all_differ
all_differ-Distinct [] h = tt
all_differ-Distinct (k ∷ ks) h =
    (no_same_sound k ks (ground arith), all_differ-Distinct ks (ground arith))

-- Every setting of the program takes its value from its environment variable, else from the first
-- line of the file with its key, else from its default; the setup fails exactly where one of these
-- values cannot be converted.
pub config_setup_internal_lem :
    (runtime_directory : Bytes) (regcomp : Bytes → Option (Bytes → Bool))
    (getenv : Bytes → Option Bytes) (lines : List Bytes)
    → config_setup_internal runtime_directory regcomp getenv lines
      ≡ for_entries (settled getenv lines) (config_entries runtime_directory regcomp)
unfolding config_setup_internal config_entries all_differ no_same streq
config_setup_internal_lem runtime_directory regcomp getenv lines =
    run_passes_lem getenv lines (config_entries runtime_directory regcomp)
      (all_differ-Distinct (keys (config_entries runtime_directory regcomp)) refl)
      (refl, (refl, (refl, (refl, (refl, (refl, (refl, (refl, (refl, (refl, tt))))))))))
