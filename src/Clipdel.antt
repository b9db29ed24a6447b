-- ===== src/Clipdel.antt =====
-- clipdel, src/clipdel.c: its options, the callback that it hands to cs_remove, and its run. getopt(),
-- regcomp() and regexec() are parameters: the option letters, and a function from a pattern to the
-- lines that it matches, if it compiles.
pub mod Deletes
pub mod Tests
use clipmenu.Prelude.{
  ℕ, zero, suc, ◌+◌, ◌-◌, ◌*◌, ◌/◌, ◌%◌, ◌^◌, ◌≤◌, ◌<◌, bit_and, ◌≡◌, refl, sym, ap, ◌∙◌, subst,
  fun_ext, ◌≡⟨◌⟩◌, ◌∎, ◌≢◌, ◌↔◌, ◌⊎◌, inl, inr, Bool, true, false, not, ◌&&◌, ◌||◌, Option, none,
  some, List, [], ◌∷◌, ◌++◌, map, append_assoc, append-nil, map-append, reverse, reverse-append,
  reverse-reverse, reverse-cons, arith, ltb, leb, ◌==◌, if◌then◌else◌, ltb→lt, not-ltb→le,
  not-leb→lt, lt→ltb, le→not-ltb, le→leb, leb→le, lt→not-leb, ==_iff, ==_refl, Bool-cases, length,
  get_or, set, take, drop, replicate, length-append, get_or-append, set-append, take-append,
  take-append_le, take_all, take-append-drop, take-take, take-set_last, take-set, get_or-take,
  length-take_le, length-take_of_le, length-set, length-replicate, split_at, All, All-append,
  length-map, take-map, length-reverse, String,
}
use clipmenu.Text.{Bytes}
use clipmenu.Machine.{Sys, Outcome, ok, err, abort, M, ◌>>=◌, ◌>>◌, pure, expect_ok}
use clipmenu.Store.Lock.{cs_init, drop_cs_destroy}
use clipmenu.Store.Snips.{oldest_first}
use clipmenu.Store.Ops.Callbacks.{Callback, cs_action_remove, cs_action_keep}
use clipmenu.Store.Ops.{cs_remove}

pub data DeleteMode : Type 0 where
  delete_dry_run delete_real : DeleteMode

-- struct clipdel_state, less the expression, with what puts() has printed.
pub record ClipdelState : Type 0 where
  pub mode : DeleteMode
  pub invert_match : Bool
  pub printed : List Bytes

abbrev pub is_real : DeleteMode → Bool
is_real delete_dry_run = false
is_real delete_real = true

unfoldable pub remove_if_rgx_match : (Bytes → Bool) → Callback ClipdelState
remove_if_rgx_match rgx state hash line =
    let wants_del = if state.invert_match then not (rgx line) else rgx line in
    (
      if is_real state.mode && wants_del then cs_action_remove else cs_action_keep,
      if wants_del then record state { printed = state.printed ++ (line ∷ []) } else state,
    )

-- The switch over what getopt() returns; `none` is die(usage).
unfoldable pub read_options : List ℕ → ClipdelState → Option ClipdelState
read_options [] state = some state
read_options (opt ∷ opts) state =
    let real = read_options opts (record state { mode = delete_real }) in
    let inverted = read_options opts (record state { invert_match = true }) in
    if opt == b'd' then real else if opt == b'v' then inverted else none

abbrev pub initial : ClipdelState
initial = record { mode = delete_dry_run; invert_match = false; printed = [] }

module _ (regcomp : Bytes → Option (Bytes → Bool)) (snip_fd content_dir_fd : ℕ) where
  abbrev run_with : Option (Bytes → Bool) → ClipdelState → M ClipdelState
  run_with none state s = (abort, s)
  run_with (some rgx) state s =
      (do
        state' ← expect_ok (cs_remove (remove_if_rgx_match rgx) oldest_first state)
        drop_cs_destroy
        pure state')
        s

  abbrev run : Option ClipdelState → Option Bytes → M ClipdelState
  run none pattern s = (abort, s)
  run (some state) none s = (abort, s)
  run (some state) (some pattern) s =
      (do expect_ok (cs_init snip_fd content_dir_fd); run_with (regcomp pattern) state) s

  -- main() from the options and the first argument behind them; the end by die() is `abort`.
  unfoldable pub main : List ℕ → Option Bytes → M ClipdelState
  main opts pattern = run (read_options opts initial) pattern
