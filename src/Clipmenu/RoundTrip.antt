-- ===== src/Clipmenu/RoundTrip.antt =====
-- What src/clipmenu.c does with the launcher's answer, in terms of the stored texts.
use clipmenu.Prelude.{
  ℕ, zero, suc, ◌-◌, ◌≤◌, ◌<◌, ◌≡◌, refl, sym, ap, ◌∙◌, subst, ◌≢◌, ◌⊎◌, inl, inr, false, Option,
  none, some, List, [], ◌∷◌, ◌++◌, map, reverse, reverse-reverse, reverse-cons, arith, ◌==◌,
  if◌then◌else◌, length, get_or, take, drop, replicate, length-append, get_or-append,
  take-append-drop, get_or-take, length-replicate, length-map, length-reverse,
}
use clipmenu.Text.{Bytes, djb64_hash, first_line}
use clipmenu.Machine.{Snip, SnipFile, ClipStore, ok, err}
use clipmenu.Machine.Calls.{zero_snip}
use clipmenu.Store.State.{Dir, sys}
use clipmenu.Store.Snips.{cs_snip_update}
use clipmenu.Store.Clips.{snip_of, hash-snip_of, Represents}
use clipmenu.Store.Clips.Add.{nr_snips-Represents}
use clipmenu.Store.Clips.Replace.{slot-old}
use clipmenu.Store.Clips.Kept.{map-reverse}
use clipmenu.Util.{str_to_uint64}
use clipmenu.Clipmenu.{
  get_padding_length, menu_line, sel_idx_str, selected, concluded, interact_with_dmenu,
}
use clipmenu.Clipmenu.Refusal.{Unchosen, refused}
use clipmenu.Clipmenu.Lines.{lines, filled, get_or-filled}
use clipmenu.Clipmenu.Choice.{menu_of, Shown, number_of_line, get_padding_length-le, interact_runs}

lines-append : (p k : ℕ) (xs ys : List Snip) → k ≤ length xs → lines p (xs ++ ys) k ≡ lines p xs k
lines-append p zero xs ys le = refl
lines-append p (suc k) xs ys le =
    rw (get_or-left k xs ys (omega arith), lines-append p k xs ys (omega arith))
  where
    get_or-left :
        (i : ℕ) (us vs : List Snip)
        → i < length us
        → get_or (us ++ vs) i zero_snip ≡ get_or us i zero_snip
    get_or-left i [] vs lt = absurd (omega arith)
    get_or-left zero (u ∷ us) vs lt = refl
    get_or-left (suc i) (u ∷ us) vs lt = get_or-left i us vs (omega arith)

lines-reverse :
    (p : ℕ) (us : List Bytes) → lines p (reverse (map snip_of us)) (length us) ≡ menu_of p us
lines-reverse p [] = refl
lines-reverse p (u ∷ us) =
    let older = reverse (map snip_of us) in
    let len : length older ≡ length us = length-reverse (map snip_of us) ∙ length-map snip_of us in
    let newest : get_or (older ++ (snip_of u ∷ [])) (length us) zero_snip ≡ snip_of u =
      ap (λ n. get_or (older ++ (snip_of u ∷ [])) n zero_snip) (sym len)
      ∙ get_or-append older [] (snip_of u) zero_snip in
    ap (λ l. lines p l (suc (length us))) (reverse-cons (snip_of u) (map snip_of us))
    ∙ rw (newest, lines-append p (length us) older (snip_of u ∷ []) (omega (arith, len)))
        (ap (λ l. menu_line p (suc (length us)) (snip_of u) ++ l) (lines-reverse p us))

map_snips_reversed : (ts : List Bytes) → map snip_of ts ≡ reverse (map snip_of (reverse ts))
map_snips_reversed ts = sym (reverse-reverse (map snip_of ts)) ∙ ap reverse (sym (map-reverse ts))

length-take_some : (n : ℕ) (s : Bytes) → s ≢ [] → length (take (suc n) s) ≢ 0
length-take_some n [] ne e = ne refl
length-take_some n (c ∷ s) ne e = absurd (omega (arith, e))

Shown-map :
    (ts : List Bytes) (j : ℕ)
    → Shown ts
    → j < length ts
    → length (get_or (map snip_of ts) j zero_snip).line ≢ 0
unfolding cs_snip_update
Shown-map [] j shown lt = absurd (omega arith)
Shown-map (t ∷ ts) zero shown lt = length-take_some 237 (first_line t).1 shown.0
Shown-map (t ∷ ts) (suc j) shown lt = Shown-map ts j shown.1 (omega arith)

module _ (ts : List Bytes) (f : SnipFile) (d : Dir) (r : Represents ts f d) where
  slots_split : f.slots ≡ map snip_of ts ++ drop f.header.nr_snips f.slots
  slots_split =
      sym (take-append-drop f.header.nr_snips f.slots)
      ∙ ap (λ l. l ++ drop f.header.nr_snips f.slots) r.snips

  -- What is written to the launcher.
  lines-Represents : (p : ℕ) → lines p f.slots f.header.nr_snips ≡ menu_of p (reverse ts)
  lines-Represents p =
      ap (λ l. lines p l f.header.nr_snips) slots_split
      ∙ lines-append p f.header.nr_snips (map snip_of ts) (drop f.header.nr_snips f.slots)
          (omega (arith, nr_snips-Represents ts f d r, length-map snip_of ts))
      ∙ ap (λ l. lines p l f.header.nr_snips) (map_snips_reversed ts)
      ∙ ap (lines p (reverse (map snip_of (reverse ts))))
          (nr_snips-Represents ts f d r ∙ sym (length-reverse ts))
      ∙ lines-reverse p (reverse ts)

  Shown-slots :
      Shown ts → (j : ℕ) → j < f.header.nr_snips → length (get_or f.slots j zero_snip).line ≢ 0
  Shown-slots shown j lt =
      subst (λ x. length x.line ≢ 0)
        (sym (ap (λ l. get_or l j zero_snip) r.snips)
          ∙ get_or-take f.header.nr_snips j f.slots zero_snip lt)
        (Shown-map ts j shown (omega (arith, nr_snips-Represents ts f d r)))

-- The menu for these texts.
abbrev pub full_menu : List Bytes → Bytes
full_menu ts = menu_of (get_padding_length (length ts)) (reverse ts)

module _ (snip_fd content_dir_fd dmenu_status : ℕ) (dmenu : Bytes → Bytes) where
  -- The run, with what is selected.
  interact_from :
      (ts : List Bytes) (f : SnipFile) (d : Dir) (c : ClipStore) (hash : Option ℕ)
      → Represents ts f d
      → Shown ts
      → selected
          (str_to_uint64 (sel_idx_str (dmenu (full_menu ts))))
          (length ts)
          (filled f.slots (length ts) (replicate (length ts) 0))
        ≡ hash
      → (c' : ClipStore) × (interact_with_dmenu snip_fd content_dir_fd dmenu_status dmenu
            (sys f d false c)
          ≡ (ok (concluded dmenu_status (full_menu ts) hash), sys f d false c'))
  interact_from ts f d c hash r shown e =
      let (c', ran) =
        interact_runs snip_fd content_dir_fd dmenu_status dmenu ts f d c r
          (Shown-slots ts f d r shown) in
      let nr = nr_snips-Represents ts f d r in
      let choice : Bytes → ℕ → Option ℕ = λ m n.
        selected (str_to_uint64 (sel_idx_str (dmenu m))) n (filled f.slots n (replicate n 0)) in
      let written : lines (get_padding_length f.header.nr_snips) f.slots f.header.nr_snips
          ≡ full_menu ts =
        lines-Represents ts f d r (get_padding_length f.header.nr_snips)
        ∙ ap (λ n. menu_of (get_padding_length n) (reverse ts)) nr in
      (
        c',
        ran
            ∙ ap (λ i. (ok i, sys f d false c'))
                (ap (λ m. concluded dmenu_status m (choice m f.header.nr_snips)) written
                  ∙ ap (λ n. concluded dmenu_status (full_menu ts) (choice (full_menu ts) n)) nr
                  ∙ ap (concluded dmenu_status (full_menu ts)) e),
      )

  interact_rejects :
      (ts : List Bytes) (f : SnipFile) (d : Dir) (c : ClipStore)
      → Represents ts f d
      → Shown ts
      → ((e : ℕ) × (str_to_uint64 (sel_idx_str (dmenu (full_menu ts))) ≡ err e))
        ⊎ ((k : ℕ) × (str_to_uint64 (sel_idx_str (dmenu (full_menu ts))) ≡ ok k)
            × ((k ≡ 0) ⊎ (length ts < k)))
      → (c' : ClipStore) × (interact_with_dmenu snip_fd content_dir_fd dmenu_status dmenu
            (sys f d false c)
          ≡ (ok (record { exit_code = 1; serving = none; menu = full_menu ts }), sys f d false c'))
  interact_rejects ts f d c r shown (inl (e, refused)) =
      interact_from ts f d c none r shown (unfold selected in rw refused)
  interact_rejects ts f d c r shown (inr (k, read, bad)) =
      interact_from ts f d c none r shown (unfold selected in rw read (ground (arith, bad)))

  -- If the launcher prints nothing, or something with a letter where a number should stand, or the
  -- number 0 or one that no clip has, the exit status is EXIT_FAILURE, nothing is served, and the
  -- store stays as it is, for stored texts that all have a line.
  pub interact_refuses :
      (ts : List Bytes) (f : SnipFile) (d : Dir) (c : ClipStore)
      → Represents ts f d
      → Shown ts
      → Unchosen (length ts) (dmenu (full_menu ts))
      → (c' : ClipStore) × (interact_with_dmenu snip_fd content_dir_fd dmenu_status dmenu
            (sys f d false c)
          ≡ (ok (record { exit_code = 1; serving = none; menu = full_menu ts }), sys f d false c'))
  interact_refuses ts f d c r shown unchosen =
      interact_rejects ts f d c r shown (refused (length ts) (dmenu (full_menu ts)) unchosen)

  -- A line of the menu, given back, selects the clip that it shows: that is served if the launcher
  -- exits with 0, its exit status is passed on, and the store stays as it is.
  pub interact_selects :
      (pre post : List Bytes) (t : Bytes) (f : SnipFile) (d : Dir) (c : ClipStore)
      → Represents (pre ++ (t ∷ post)) f d
      → Shown (pre ++ (t ∷ post))
      → dmenu (full_menu (pre ++ (t ∷ post)))
        ≡ menu_line (get_padding_length (length (pre ++ (t ∷ post)))) (suc (length pre)) (snip_of t)
      → (c' : ClipStore) × (interact_with_dmenu snip_fd content_dir_fd dmenu_status dmenu
            (sys f d false c)
          ≡ (
            ok (record {
              exit_code = dmenu_status;
              serving = if dmenu_status == 0 then some (djb64_hash t) else none;
              menu = full_menu (pre ++ (t ∷ post));
            }),
            sys f d false c',
          ))
  interact_selects pre post t f d c r shown picked =
      let ts = pre ++ (t ∷ post) in
      let n = suc (length pre) in
      let le : n ≤ length ts = omega (arith, length-append {0} pre (t ∷ post)) in
      let found : get_or (filled f.slots (length ts) (replicate (length ts) 0)) (length pre) 0
          ≡ djb64_hash t =
        get_or-filled f.slots (length ts) (length pre) (replicate (length ts) 0) (omega arith)
          (omega (arith, length-replicate {A = ℕ} (length ts) 0))
        ∙ ap (λ x. x.hash) (slot-old [] pre post t t f d r)
        ∙ hash-snip_of t in
      let number : str_to_uint64 (sel_idx_str (dmenu (full_menu ts))) ≡ ok n =
        ap (λ l. str_to_uint64 (sel_idx_str l)) picked
        ∙ number_of_line (get_padding_length (length ts)) n (omega (arith, r.few))
            (get_padding_length-le (length ts) r.few) (snip_of t) in
      interact_from ts f d c (some (djb64_hash t)) r shown (
        ap (λ o. selected o (length ts) (filled f.slots (length ts) (replicate (length ts) 0)))
          number
        ∙ chosen n (length ts) _ (djb64_hash t) (omega arith) le (
            ap (λ i. get_or (filled f.slots (length ts) (replicate (length ts) 0)) i 0)
              (index_of_number (length pre))
            ∙ found))
    where
      index_of_number : (i : ℕ) → suc i - 1 ≡ i
      index_of_number i = omega arith

      chosen :
          (k m : ℕ) (hashes : List ℕ) (h : ℕ)
          → 0 < k
          → k ≤ m
          → get_or hashes (k - 1) 0 ≡ h
          → selected (ok k) m hashes ≡ some h
      chosen k m hashes h pos le e = unfold selected in ground arith
