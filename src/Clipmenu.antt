-- ===== src/Clipmenu.antt =====
-- clipmenu, src/clipmenu.c: the launcher's arguments, the menu that is written to it, and the choice
-- that is read back. The launcher is a parameter, from the menu to what it prints, with its exit
-- status; the pipes carry all that is written.
pub mod Lines
pub mod Choice
pub mod Refusal
pub mod RoundTrip
pub mod Arguments
pub mod Tests
use clipmenu.Prelude.{
  ℕ, zero, suc, ◌+◌, ◌-◌, ◌*◌, ◌/◌, ◌%◌, ◌^◌, ◌≤◌, ◌<◌, bit_and, ◌≡◌, refl, sym, ap, ◌∙◌, subst,
  fun_ext, ◌≡⟨◌⟩◌, ◌∎, ◌≢◌, ◌↔◌, ◌⊎◌, inl, inr, Bool, true, false, not, ◌&&◌, ◌||◌, Option, none,
  some, List, [], ◌∷◌, ◌++◌, map, append_assoc, append-nil, map-append, reverse, reverse-append,
  reverse-reverse, reverse-cons, arith, ltb, leb, ◌==◌, if◌then◌else◌, ltb→lt, not-ltb→le,
  not-leb→lt, lt→ltb, le→not-ltb, le→leb, leb→le, lt→not-leb, ==_iff, ==_refl, Bool-cases, length,
  get_or, set, take, drop, replicate, length-append, get_or-append, set-append, take-append,
  take-append_le, take_all, take-append-drop, take-take, take-set_last, take-set, get_or-take,
  length-take_le, length-take_of_le, length-set, length-replicate, split_at, All, All-append,
  length-map, take-map, length-reverse, String,
}
use clipmenu.Text.{Bytes, codes, cs_snip_line_size}
use clipmenu.Machine.{Snip, Sys, Outcome, ok, err, abort, M, ◌>>=◌, ◌>>◌, pure, expect_ok}
use clipmenu.Store.Lock.{cs_init, cs_ref, cs_unref, cs_destroy}
use clipmenu.Store.Snips.{slot, newest_first, Pointer, cs_snip_iter, index_of}
use clipmenu.Store.Ops.{cs_len}
use clipmenu.Util.{uint64_to_str, str_to_uint64}

-- The do loop, on fuel: one round for each digit.
pad_loop : ℕ → ℕ → ℕ → ℕ
pad_loop zero num digits = digits
pad_loop (suc fuel) num digits =
    let more = pad_loop fuel (num / 10) (digits + 1) in
    if ltb 0 (num / 10) then more else digits + 1

unfoldable pub get_padding_length : ℕ → ℕ
unfolding pad_loop
get_padding_length num = pad_loop 20 num 0

-- enum launcher_known and the command of a custom launcher.
pub data Launcher : Type 0 where
  launcher_rofi : Launcher
  launcher_custom : Bytes → Launcher

abbrev pub max_args : ℕ
max_args = 32

abbrev pub dmenu_args : List Bytes
dmenu_args = codes "-p" ∷ codes "clipmenu" ∷ codes "-l" ∷ codes "20" ∷ []

abbrev pub launcher_command : Launcher → List Bytes
launcher_command launcher_rofi = codes "rofi" ∷ codes "--" ∷ codes "-dmenu" ∷ []
launcher_command (launcher_custom custom) = custom ∷ []

-- The user's arguments, from the one that is next on, while there is room behind the `d_i` before.
unfoldable pub user_args : ℕ → List Bytes → List Bytes
user_args d_i [] = []
user_args d_i (arg ∷ args) =
    let rest = user_args (d_i + 1) args in if ltb d_i (max_args - 1) then arg ∷ rest else []

-- What execvp() is called with, less the NULL behind it; `argv` begins with the program's name.
unfoldable pub exec_launcher : Launcher → Bool → List Bytes → List Bytes
unfolding user_args
exec_launcher launcher pass_dmenu_args argv =
    let own = launcher_command launcher in
    let cmd = if pass_dmenu_args then own ++ dmenu_args else own in
    cmd ++ user_args (length cmd) (drop 1 argv)

unfoldable pub dprintf_ellipsise_long_snip_line : Bytes → Bytes
dprintf_ellipsise_long_snip_line line =
    if length line == cs_snip_line_size - 1
    then take (cs_snip_line_size - 4) line ++ codes "..."
    else line

-- "%*zu"
unfoldable pub padded : ℕ → ℕ → Bytes
padded pad n = let digits = uint64_to_str n in replicate (pad - length digits) 32 ++ digits

-- The text of one snip's round.
unfoldable pub menu_line : ℕ → ℕ → Snip → Bytes
unfolding padded dprintf_ellipsise_long_snip_line
menu_line pad clip_idx snip =
    codes "["
    ++ (padded pad clip_idx
        ++ (codes "] "
            ++ (dprintf_ellipsise_long_snip_line snip.line
                ++ ((if ltb 1 snip.nr_lines
                      then codes " (" ++ (uint64_to_str snip.nr_lines ++ codes " lines)")
                      else [])
                    ++ codes "\n"))))

-- The loop, on fuel, with `idx_to_hash` and the text written. A line of no bytes makes dprintf()
-- return 0.
unfoldable pub write_menu : ℕ → ℕ → ℕ → ℕ → Pointer → List ℕ → Bytes → M (List ℕ × Bytes)
unfolding cs_snip_iter
write_menu zero status pad clip_idx snip idx_to_hash out s = (abort, s)
write_menu (suc fuel) status pad clip_idx snip idx_to_hash out s =
    let (more, snip') = cs_snip_iter status newest_first s.file.header.nr_snips snip in
    let cur = slot (index_of snip') s in
    elim more [
      | false ↦ (ok (idx_to_hash, out), s)
      | true ↦
          (if length cur.line == 0
              then (λ t. (abort, t))
              else write_menu fuel status pad (clip_idx - 1) snip'
                  (set idx_to_hash (clip_idx - 1) cur.hash) (out ++ menu_line pad clip_idx cur))
            s
    ]

-- strchr(): what stands before the byte, or before the end.
unfoldable pub before : ℕ → Bytes → Bytes
before c [] = []
before c (b ∷ s) = let rest = before c s in if b == c then [] else b ∷ rest

-- UINT64_MAX_STRLEN
abbrev pub uint64_max_strlen : ℕ
uint64_max_strlen = 20

-- sel_idx_str: the "[" is passed over, and a NUL that was read ends the string too.
unfoldable pub sel_idx_str : Bytes → Bytes
unfolding before
sel_idx_str output = before b']' (before 0 (take uint64_max_strlen (drop 1 output)))

-- *out_hash, unless forced_ret is set.
unfoldable pub selected : Outcome ℕ → ℕ → List ℕ → Option ℕ
selected (ok sel_idx) cur_clips idx_to_hash =
    if sel_idx == 0 || ltb cur_clips sel_idx
    then none
    else some (get_or idx_to_hash (sel_idx - 1) 0)
selected (err e) cur_clips idx_to_hash = none
selected abort cur_clips idx_to_hash = none

-- The exit status, the hash that clipserve is run for, if any, and the menu.
pub record Interaction : Type 0 where
  pub exit_code : ℕ
  pub serving : Option ℕ
  pub menu : Bytes

-- EXIT_FAILURE where nothing is selected, else what the launcher says.
abbrev pub concluded : ℕ → Bytes → Option ℕ → Interaction
concluded dmenu_status menu none = record { exit_code = 1; serving = none; menu = menu }
concluded dmenu_status menu (some hash) = record {
  exit_code = dmenu_status;
  serving = if dmenu_status == 0 then some hash else none;
  menu = menu;
}

module _ (snip_fd content_dir_fd dmenu_status : ℕ) (dmenu : Bytes → Bytes) where
  abbrev pub read_choice : ℕ → List ℕ × Bytes → Interaction
  read_choice cur_clips (idx_to_hash, menu) =
      concluded dmenu_status menu
        (selected (str_to_uint64 (sel_idx_str (dmenu menu))) cur_clips idx_to_hash)

  unfoldable pub interact_with_dmenu : M Interaction
  interact_with_dmenu = do
    expect_ok (cs_init snip_fd content_dir_fd)
    status ← cs_ref
    cur_clips ← expect_ok cs_len
    written ← λ s.
        write_menu (s.file.header.nr_snips + 1) status (get_padding_length cur_clips) cur_clips none
          (replicate cur_clips 0) [] s
    cs_unref
    expect_ok cs_destroy
    pure (read_choice cur_clips written)
