-- ===== src/Config.antt =====
-- src/config.c: the conversions of the settings, and the table of settings that takes its values from
-- the environment, the configuration file and the defaults, in this order. getenv() and regcomp() are
-- parameters; the file is the lines that Lines reads of it.
pub mod Lines
pub mod Settings
pub mod Paths
pub mod Convert
pub mod Traverse
pub mod Precedence
pub mod Tests
use clipmenu.Prelude.{
  ℕ, zero, suc, ◌+◌, ◌-◌, ◌*◌, ◌/◌, ◌%◌, ◌^◌, ◌≤◌, ◌<◌, bit_and, ◌≡◌, refl, sym, ap, ◌∙◌, subst,
  fun_ext, ◌≡⟨◌⟩◌, ◌∎, ◌≢◌, ◌↔◌, ◌⊎◌, inl, inr, Bool, true, false, not, ◌&&◌, ◌||◌, Option, none,
  some, List, [], ◌∷◌, ◌++◌, map, append_assoc, append-nil, map-append, reverse, reverse-append,
  reverse-reverse, reverse-cons, arith, ltb, leb, ◌==◌, if◌then◌else◌, ltb→lt, not-ltb→le,
  not-leb→lt, lt→ltb, le→not-ltb, le→leb, leb→le, lt→not-leb, ==_iff, ==_refl, Bool-cases, length,
  get_or, set, take, drop, replicate, length-append, get_or-append, set-append, take-append,
  take-append_le, take_all, take-append-drop, take-take, take-set_last, take-set, get_or-take,
  length-take_le, length-take_of_le, length-set, length-replicate, split_at, All, All-append,
  length-map, take-map, length-reverse, String,
}
use clipmenu.Text.{Bytes, codes, streq}
use clipmenu.Machine.{Outcome, ok, err, einval}
use clipmenu.Util.{is_digit, skip_space, take_sign, read_digits, starts, strtoull}
use clipmenu.Daemon.Selections.{Selection, clipboard, primary, secondary}
use clipmenu.Clipmenu.{Launcher, launcher_rofi, launcher_custom}

-- tolower() in the C locale.
unfoldable pub lower : ℕ → ℕ
lower c = if leb b'A' c && leb c b'Z' then c + 32 else c

-- strceq()
unfoldable pub strceq : Bytes → Bytes → Bool
unfolding lower
strceq [] [] = true
strceq [] (d ∷ b) = false
strceq (c ∷ a) [] = false
strceq (c ∷ a) (d ∷ b) = lower c == lower d && strceq a b

abbrev pub truthy : List Bytes
truthy = codes "1" ∷ codes "y" ∷ codes "yes" ∷ codes "true" ∷ codes "on" ∷ []

abbrev pub falsy : List Bytes
falsy = codes "0" ∷ codes "n" ∷ codes "no" ∷ codes "false" ∷ codes "off" ∷ []

unfoldable pub is_one_of : Bytes → List Bytes → Bool
unfolding strceq
is_one_of str [] = false
is_one_of str (word ∷ words) = strceq str word || is_one_of str words

unfoldable pub convert_bool : Bytes → Option Bool
unfolding is_one_of
convert_bool str =
    if is_one_of str truthy then some true else if is_one_of str falsy then some false else none

abbrev pub int_max : ℕ
int_max = 2 ^ 31 - 1

-- What strtol() reads is below 0 exactly where a minus stands before a number that is not 0; beyond
-- the range of a long it is LONG_MIN or LONG_MAX, which fail the same tests as the exact value.
unfoldable pub checked_int : Option (Bool × ℕ × Bytes) → Option ℕ
checked_int none = none
checked_int (some (negative, val, [])) =
    if negative && not (val == 0) || ltb int_max val then none else some val
checked_int (some (negative, val, c ∷ rest)) = none

unfoldable pub convert_positive_int : Bytes → Option ℕ
unfolding checked_int strtoull
convert_positive_int str = checked_int (strtoull str)

-- Which of the selections are active.
pub record Active : Type 0 where
  pub clipboard_active : Bool
  pub primary_active : Bool
  pub secondary_active : Bool

-- strtok(): what a byte separates, less the empty pieces; `cur` is the piece begun, backwards.
unfoldable pub tokens : ℕ → Bytes → Bytes → List Bytes
tokens sep cur [] = if length cur == 0 then [] else reverse cur ∷ []
tokens sep cur (c ∷ s) =
    let rest = tokens sep [] s in
    let going = tokens sep (c ∷ cur) s in
    if c == sep then (if length cur == 0 then rest else reverse cur ∷ rest) else going

abbrev pub bind {ℓ κ} : {A : Type ℓ} {B : Type κ} → Option A → (A → Option B) → Option B
bind none f = none
bind (some a) f = f a

-- One token; `none` where no selection has this name.
unfoldable pub activate : Bytes → Active → Option Active
activate token sels =
    if streq token (codes "clipboard")
    then some (record sels { clipboard_active = true })
    else if streq token (codes "primary")
    then some (record sels { primary_active = true })
    else if streq token (codes "secondary")
    then some (record sels { secondary_active = true })
    else none

unfoldable pub activate_all : List Bytes → Active → Option Active
unfolding activate
activate_all [] sels = some sels
activate_all (token ∷ more) sels = bind (activate token sels) (activate_all more)

unfoldable pub convert_selections : Bytes → Option Active
unfolding tokens activate_all
convert_selections str =
    activate_all (tokens 32 [] str)
      (record { clipboard_active = false; primary_active = false; secondary_active = false })

unfoldable pub convert_launcher : Bytes → Launcher
convert_launcher str = if streq str (codes "rofi") then launcher_rofi else launcher_custom str

-- The type of each value behind a config_entry's pointer.
pub data Value : Type 0 where
  int_value : ℕ → Value
  bool_value : Bool → Value
  selections_value : Active → Value
  window_value : Option (Bytes → Bool) → Value
  launcher_value : Launcher → Value
  dir_value : Bytes → Value

-- struct config_entry; `value` is what its pointer points to, `none` where nothing is stored yet. A
-- NULL string is `none`.
pub record ConfigEntry : Type 0 where
  pub config_key : Bytes
  pub env_var : Bytes
  pub value : Option Value
  pub convert : Option Bytes → Option Value
  pub default_value : Option Bytes
  pub is_set : Bool

-- The conversion of `str` into the entry; `none` where it fails.
abbrev pub with_value : Bool → Option Value → ConfigEntry → Option ConfigEntry
with_value set none e = none
with_value set (some v) e = some (record e { value = some v; is_set = set })

abbrev pub from_env : Option Bytes → ConfigEntry → Option ConfigEntry
from_env none e = some e
from_env (some env_value) e = with_value true (e.convert (some env_value)) e

-- One round of config_parse_env_vars().
unfoldable pub parse_env_var : (Bytes → Option Bytes) → ConfigEntry → Option ConfigEntry
parse_env_var getenv e = from_env (getenv e.env_var) e

-- A loop over the table that ends with an error at the first entry that gives one.
abbrev pub for_entries :
    (ConfigEntry → Option ConfigEntry) → List ConfigEntry → Option (List ConfigEntry)
for_entries step [] = some []
for_entries step (e ∷ entries) =
    bind (step e) (λ e'. bind (for_entries step entries) (λ es. some (e' ∷ es)))

unfoldable pub config_parse_env_vars :
    (Bytes → Option Bytes) → List ConfigEntry → Option (List ConfigEntry)
unfolding parse_env_var
config_parse_env_vars getenv entries = for_entries (parse_env_var getenv) entries

-- The part of a string before a byte, and what follows the byte.
abbrev split_first : ℕ → Bytes → Bytes × Bytes
split_first sep [] = ([], [])
split_first sep (c ∷ s) =
    let (piece, rest) = split_first sep s in if c == sep then ([], s) else (c ∷ piece, rest)

abbrev skip_byte : ℕ → Bytes → Bytes
skip_byte sep [] = []
skip_byte sep (c ∷ s) = let rest = skip_byte sep s in if c == sep then rest else c ∷ s

-- strtok(line, " ") and strtok(NULL, "\n"), if both find something.
unfoldable pub key_value : Bytes → Option (Bytes × Bytes)
key_value line =
    let (key, rest) = split_first 32 (skip_byte 32 line) in
    let (value, _) = split_first 10 (skip_byte 10 rest) in
    if length key == 0 || length value == 0 then none else some (key, value)

-- The loop over the table for one line: the first entry with this key that is not set.
unfoldable pub parse_pair : Bytes → Bytes → List ConfigEntry → Option (List ConfigEntry)
parse_pair key value [] = some []
parse_pair key value (e ∷ entries) =
    let rest = parse_pair key value entries in
    if not e.is_set && streq e.config_key key
    then bind (with_value true (e.convert (some value)) e) (λ e'. some (e' ∷ entries))
    else bind rest (λ es. some (e ∷ es))

abbrev pub with_pair : Option (Bytes × Bytes) → List ConfigEntry → Option (List ConfigEntry)
unfolding parse_pair
with_pair none entries = some entries
with_pair (some (key, value)) entries = parse_pair key value entries

unfoldable pub parse_line : Bytes → List ConfigEntry → Option (List ConfigEntry)
unfolding parse_pair key_value
parse_line line entries = with_pair (key_value line) entries

unfoldable pub config_parse_file : List Bytes → List ConfigEntry → Option (List ConfigEntry)
unfolding parse_line
config_parse_file [] entries = some entries
config_parse_file (line ∷ lines) entries = bind (parse_line line entries) (config_parse_file lines)

unfoldable pub apply_default : ConfigEntry → Option ConfigEntry
apply_default e = if e.is_set then some e else with_value false (e.convert e.default_value) e

unfoldable pub config_apply_default_values : List ConfigEntry → Option (List ConfigEntry)
unfolding apply_default
config_apply_default_values entries = for_entries apply_default entries

-- The three passes over a table; `none` is -EINVAL.
unfoldable pub run_passes :
    (Bytes → Option Bytes) → List Bytes → List ConfigEntry → Option (List ConfigEntry)
unfolding config_parse_env_vars config_parse_file config_apply_default_values
run_passes getenv lines entries =
    bind (bind (config_parse_env_vars getenv entries) (config_parse_file lines))
      config_apply_default_values
