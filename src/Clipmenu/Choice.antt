-- ===== src/Clipmenu/Choice.antt =====
-- The round trip of src/clipmenu.c: a line of the menu, given back by the launcher, selects the clip
-- that it shows.
use clipmenu.Prelude.{
  ℕ, zero, suc, ◌+◌, ◌-◌, ◌≤◌, ◌<◌, ◌≡◌, refl, ap, ◌∙◌, ◌≢◌, true, false, none, List, [], ◌∷◌, ◌++◌,
  arith, length, get_or, take, replicate, length-append, length-replicate, All, All-append,
}
use clipmenu.Text.{Bytes, first_line}
use clipmenu.Machine.{Snip, SnipFile, ClipStore, ok}
use clipmenu.Machine.Calls.{zero_snip, munmap}
use clipmenu.Store.State.{Dir, sys, IsHeld}
use clipmenu.Store.Guard.{entered, entered-IsHeld, cs_ref_quiet, cs_unref_quiet, with_guard_nested}
use clipmenu.Store.Lock.{cs_destroy, cs_file_size}
use clipmenu.Store.Ops.{cs_len}
use clipmenu.Store.Snips.{newest_first, next_pointer}
use clipmenu.Store.Clips.{snip_of, Represents, max_clips}
use clipmenu.Store.Clips.Start.{cs_init_reopen}
use clipmenu.Util.{uint64_to_str, str_to_uint64}
use clipmenu.Util.Decimal.{blanks, digits-IsDecimal, length-digits, str_to_uint64-uint64_to_str}
use clipmenu.Clipmenu.{
  get_padding_length, padded, menu_line, before, sel_idx_str, Interaction, read_choice,
  interact_with_dmenu,
}
use clipmenu.Clipmenu.Lines.{lines, filled, write_menu_lem, get_padding_length_lem}

abbrev pub IsPlain : Bytes → Type 0
IsPlain = All (λ c. (c ≢ 0) × (c ≢ 93))

-- The string up to the bracket, whatever follows within the buffer or behind it.
pub before-plain :
    (n : ℕ) (p q : Bytes)
    → IsPlain p
    → length p < n
    → before 93 (before 0 (take n (p ++ (93 ∷ q)))) ≡ p
unfolding before
before-plain zero p q plain lt = absurd (omega arith)
before-plain (suc n) [] q plain lt = refl
before-plain (suc n) (c ∷ p) q plain lt =
    ground (arith, before-plain n p q plain.1, plain.0.0, plain.0.1)

pub IsPlain-decimal : (s : Bytes) → All (λ c. (48 ≤ c) × (c < 58)) s → IsPlain s
IsPlain-decimal [] h = tt
IsPlain-decimal (c ∷ s) h = (
  (λ e. absurd (omega (arith, h.0.0)), λ e. absurd (omega (arith, h.0.1))),
  IsPlain-decimal s h.1,
)

pub IsPlain-blanks : (k : ℕ) → IsPlain (blanks k)
IsPlain-blanks zero = tt
IsPlain-blanks (suc k) =
    ((λ e. absurd (omega (arith, e)), λ e. absurd (omega (arith, e))), IsPlain-blanks k)

module _ (pad n : ℕ) (few : n < max_clips) (short : pad ≤ 10) where
  length-padded : length (padded pad n) < 20
  unfolding padded uint64_to_str
  length-padded = omega (
    arith,
    length-append {0} (blanks (pad - length (uint64_to_str n))) (uint64_to_str n),
    length-replicate {A = ℕ} (pad - length (uint64_to_str n)) 32,
    length-digits 9 20 n (omega arith),
  )

  padded-IsPlain : IsPlain (padded pad n)
  unfolding padded uint64_to_str
  padded-IsPlain =
      All-append _ (blanks (pad - length (uint64_to_str n))) (uint64_to_str n)
        (IsPlain-blanks (pad - length (uint64_to_str n)))
        (IsPlain-decimal (uint64_to_str n) (digits-IsDecimal 20 n))

  -- Of a line of the menu, sel_idx_str keeps the number.
  sel_idx_str-menu_line : (x : Snip) → sel_idx_str (menu_line pad n x) ≡ padded pad n
  unfolding sel_idx_str menu_line
  sel_idx_str-menu_line x = before-plain 20 (padded pad n) _ padded-IsPlain length-padded

  pub number_of_line : (x : Snip) → str_to_uint64 (sel_idx_str (menu_line pad n x)) ≡ ok n
  number_of_line x =
      ap str_to_uint64 (sel_idx_str-menu_line x)
      ∙ (unfold padded in
          str_to_uint64-uint64_to_str n (omega arith) (pad - length (uint64_to_str n)))

pub get_padding_length-le : (n : ℕ) → n < max_clips → get_padding_length n ≤ 10
get_padding_length-le n lt =
    rw (get_padding_length_lem n (omega arith))
      (unfold uint64_to_str in length-digits 9 20 n (omega arith))

-- cs_len() within a reference gives it back.
cs_len_nested :
    (f : SnipFile) (d : Dir) (c : ClipStore)
    → IsHeld c f
    → cs_len (sys f d true c) ≡ (ok f.header.nr_snips, sys f d true c)
unfolding cs_len
cs_len_nested f d c h = with_guard_nested _ f.header.nr_snips f d c h.one_ref refl

abbrev destroyed : ClipStore → ClipStore
destroyed c = record c {
  refcount = 0;
  ready = false;
  mapped = c.mapped - cs_file_size c.local_nr_snips_alloc;
}

-- The menu of these texts, the newest first; the last has the number 1.
abbrev pub menu_of : ℕ → List Bytes → Bytes
menu_of pad [] = []
menu_of pad (t ∷ ts) = menu_line pad (suc (length ts)) (snip_of t) ++ menu_of pad ts

abbrev pub Shown : List Bytes → Type 0
Shown = All (λ t. (first_line t).1 ≢ [])

module _ (snip_fd content_dir_fd dmenu_status : ℕ) (dmenu : Bytes → Bytes) (ts : List Bytes)
    (f : SnipFile) (d : Dir) (c : ClipStore) (r : Represents ts f d)
    (shown : (j : ℕ) → j < f.header.nr_snips → length (get_or f.slots j zero_snip).line ≢ 0) where
  abbrev pub pad : ℕ
  pad = get_padding_length f.header.nr_snips

  abbrev pub interaction : Interaction
  interaction = read_choice snip_fd content_dir_fd dmenu_status dmenu f.header.nr_snips (
    filled f.slots f.header.nr_snips (replicate f.header.nr_snips 0),
    lines pad f.slots f.header.nr_snips,
  )

  -- The run, whatever the launcher prints.
  pub interact_runs :
      (c' : ClipStore) × (interact_with_dmenu snip_fd content_dir_fd dmenu_status dmenu
          (sys f d false c)
        ≡ (ok interaction, sys f d false c'))
  unfolding interact_with_dmenu cs_destroy munmap
  interact_runs =
      let (c₁, started, idle) = cs_init_reopen snip_fd content_dir_fd f d c ts r in
      let c₂ = entered f d c₁ in
      let held = entered-IsHeld f d c₁ r.valid idle in
      let menu =
        write_menu_lem (get_padding_length f.header.nr_snips) f d c₂ shown f.header.nr_snips none
          (replicate f.header.nr_snips 0) [] newest_null (omega arith) in
      (
        destroyed c₂,
        rw (
          started,
          cs_ref_quiet f d c₁ r.valid idle,
          cs_len_nested f d c₂ held,
          add_one,
          menu,
          cs_unref_quiet f d c₂ held.one_ref,
        ),
      )
    where
      newest_null : next_pointer newest_first f.header.nr_snips none ≡ f.header.nr_snips
      newest_null = unfold next_pointer in refl

      add_one : f.header.nr_snips + 1 ≡ suc f.header.nr_snips
      add_one = omega arith
