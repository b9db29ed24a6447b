-- ===== src/Config/Paths.antt =====
-- src/config.c and src/config.h: get_runtime_directory, get_cache_dir, the paths within that directory,
-- get_config_file and config_setup. getenv(), getuid(), mkdir() and fopen() are parameters.
use clipmenu.Prelude.{ℕ, Bool, Option, none, some, List, [], ◌++◌, ◌==◌, if◌then◌else◌}
use clipmenu.Text.{Bytes, codes}
use clipmenu.Machine.{Outcome, ok, err, abort, eexist, enoent}
use clipmenu.Util.{uint64_to_str}
use clipmenu.Util.Descriptors.{snprintf_safe}
use clipmenu.Config.{ConfigEntry}
use clipmenu.Config.Lines.{read_lines}
use clipmenu.Config.Settings.{config_setup_internal}

-- PATH_MAX
abbrev pub path_max : ℕ
path_max = 4096

-- A chain of calls of which each may end the process.
abbrev pub and_then : {A B : Type 0} → Outcome A → (A → Outcome B) → Outcome B
and_then (ok a) f = f a
and_then (err e) f = err e
and_then abort f = abort

abbrev first_dir : Option Bytes → Option Bytes → Bytes
first_dir (some dir) other = dir
first_dir none (some dir) = dir
first_dir none none = codes "/tmp"

abbrev remembered : Option Bytes → Bytes → Bytes
remembered none dir = dir
remembered (some runtime_dir) dir = runtime_dir

-- The directory, and the static variable with it.
unfoldable pub get_runtime_directory : (Bytes → Option Bytes) → Option Bytes → Bytes × Option Bytes
get_runtime_directory getenv runtime_dir =
    let dir =
      remembered runtime_dir
        (first_dir (getenv (codes "XDG_RUNTIME_DIR")) (getenv (codes "TMPDIR"))) in
    (dir, some dir)

abbrev made_or_there : Outcome (Unit {0}) → Bytes → Outcome Bytes
made_or_there (ok _) dir = ok dir
made_or_there (err e) dir = if e == eexist then ok dir else abort
made_or_there abort dir = abort

-- cfg->ready, cfg->runtime_dir and getuid()
unfoldable pub get_cache_dir : (Bytes → Outcome (Unit {0})) → Bool → Bytes → ℕ → Outcome Bytes
get_cache_dir mkdir ready runtime_dir uid =
    if ready
    then and_then
        (snprintf_safe path_max (runtime_dir ++ (codes "/clipmenu.7." ++ uint64_to_str uid)))
        (λ cache_dir. made_or_there (mkdir cache_dir) cache_dir)
    else abort

-- DEFINE_GET_PATH_FUNCTION, for a name within the directory of get_cache_dir().
unfoldable pub get_path : Bytes → Outcome Bytes → Outcome Bytes
get_path name cache_dir =
    and_then cache_dir (λ dir. snprintf_safe path_max (dir ++ (codes "/" ++ name)))

unfoldable pub get_line_cache_path : Outcome Bytes → Outcome Bytes
unfolding get_path
get_line_cache_path cache_dir = get_path (codes "line_cache") cache_dir

unfoldable pub get_enabled_path : Outcome Bytes → Outcome Bytes
unfolding get_path
get_enabled_path cache_dir = get_path (codes "enabled") cache_dir

-- $CM_CONFIG, $XDG_CONFIG_HOME and $HOME
abbrev config_path_of : Option Bytes → Option Bytes → Option Bytes → Option Bytes
config_path_of (some cm_config) xdg_config_home home = some cm_config
config_path_of none (some xdg_config_home) home =
    some (xdg_config_home ++ codes "/clipmenu/clipmenu.conf")
config_path_of none none (some home) = some (home ++ codes "/.config/clipmenu/clipmenu.conf")
config_path_of none none none = none

abbrev printed : Option Bytes → Outcome Bytes
printed none = abort
printed (some path) = snprintf_safe path_max path

unfoldable pub get_config_file : (Bytes → Option Bytes) → Outcome Bytes
get_config_file getenv = printed (
    config_path_of (getenv (codes "CM_CONFIG")) (getenv (codes "XDG_CONFIG_HOME"))
      (getenv (codes "HOME")))

-- What fopen() gives: the file, or an error; a file that is not there has no lines.
abbrev opened : Outcome Bytes → Outcome (List Bytes)
opened (ok file) = ok (read_lines file)
opened (err e) = if e == enoent then ok [] else abort
opened abort = abort

abbrev or_die : Option (List ConfigEntry) → Outcome (List ConfigEntry)
or_die none = abort
or_die (some entries) = ok entries

unfoldable pub config_setup :
    (Bytes → Outcome Bytes)
    → (Bytes → Option (Bytes → Bool))
    → (Bytes → Option Bytes)
    → Outcome (List ConfigEntry)
unfolding get_config_file get_runtime_directory
config_setup fopen regcomp getenv = and_then (get_config_file getenv) (λ path.
    and_then (opened (fopen path)) (λ lines.
      or_die (config_setup_internal (get_runtime_directory getenv none).0 regcomp getenv lines)))
