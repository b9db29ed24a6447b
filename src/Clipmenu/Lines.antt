-- ===== src/Clipmenu/Lines.antt =====
-- The menu that src/clipmenu.c writes, and the table from numbers to hashes that it keeps.
use clipmenu.Prelude.{
  ℕ, zero, suc, ◌+◌, ◌-◌, ◌/◌, ◌%◌, ◌^◌, ◌≤◌, ◌<◌, ◌≡◌, refl, sym, ap, ◌∙◌, ◌≢◌, inl, inr, true,
  some, List, [], ◌∷◌, ◌++◌, append_assoc, append-nil, arith, ◌==◌, ==_iff, Bool-cases, length,
  get_or, set, length-append, length-set,
}
use clipmenu.Text.{Bytes}
use clipmenu.Machine.{Snip, SnipFile, ClipStore, Sys, ok}
use clipmenu.Machine.Calls.{zero_snip}
use clipmenu.Store.State.{Dir, sys}
use clipmenu.Store.Snips.{slot, newest_first, Pointer, next_pointer}
use clipmenu.Util.{uint64_to_str, digits}
use clipmenu.Util.Decimal.{tens}
use clipmenu.Clipmenu.{pad_loop, get_padding_length, menu_line, write_menu}

-- The first `k` snips, the newest of them first, with the number `k` for it.
abbrev pub lines : ℕ → List Snip → ℕ → Bytes
lines pad slots zero = []
lines pad slots (suc k) = menu_line pad (suc k) (get_or slots k zero_snip) ++ lines pad slots k

abbrev pub filled : List Snip → ℕ → List ℕ → List ℕ
filled slots zero hashes = hashes
filled slots (suc k) hashes = filled slots k (set hashes k (get_or slots k zero_snip).hash)

index_suc : (i : ℕ) → suc i - 1 ≡ i
index_suc i = omega arith

newest_pointer : (k nr : ℕ) → next_pointer newest_first nr (some (suc k)) ≡ k
unfolding next_pointer
newest_pointer k nr = omega arith

module _ (fuel pad clip_idx : ℕ) (snip : Pointer) (hashes : List ℕ) (out : Bytes) (s : Sys) where
  menu_end :
      next_pointer newest_first s.file.header.nr_snips snip ≡ 0
      → write_menu (suc fuel) 0 pad clip_idx snip hashes out s ≡ (ok (hashes, out), s)
  unfolding write_menu
  menu_end e = ground arith

  menu_step :
      (k : ℕ)
      → next_pointer newest_first s.file.header.nr_snips snip ≡ suc k
      → k < s.file.header.nr_snips
      → length (slot k s).line ≢ 0
      → write_menu (suc fuel) 0 pad clip_idx snip hashes out s
        ≡ write_menu fuel 0 pad
            (clip_idx - 1)
            (some (suc k))
            (set hashes (clip_idx - 1) (slot k s).hash)
            (out ++ menu_line pad clip_idx (slot k s))
            s
  unfolding write_menu
  menu_step k it lt shown = ground (arith, index_suc k)

module _ (pad : ℕ) (f : SnipFile) (d : Dir) (c : ClipStore)
    (shown : (j : ℕ) → j < f.header.nr_snips → length (get_or f.slots j zero_snip).line ≢ 0) where
  pub write_menu_lem :
      (k : ℕ) (snip : Pointer) (hashes : List ℕ) (out : Bytes)
      → next_pointer newest_first f.header.nr_snips snip ≡ k
      → k ≤ f.header.nr_snips
      → write_menu (suc k) 0 pad k snip hashes out (sys f d true c)
        ≡ (ok (filled f.slots k hashes, out ++ lines pad f.slots k), sys f d true c)
  write_menu_lem zero snip hashes out it le =
      menu_end zero pad zero snip hashes out _ it
      ∙ ap (λ o. (ok (hashes, o), sys f d true c)) (sym (append-nil out))
  write_menu_lem (suc k) snip hashes out it le =
      let x = get_or f.slots k zero_snip in
      menu_step (suc k) pad (suc k) snip hashes out _ k it (omega arith) (shown k (omega arith))
      ∙ rw (index_suc k) (
          write_menu_lem k (some (suc k)) (set hashes k x.hash) (out ++ menu_line pad (suc k) x)
            (newest_pointer k f.header.nr_snips) (omega arith))
      ∙ ap (λ o. (ok (filled f.slots (suc k) hashes, o), sys f d true c))
          (append_assoc out (menu_line pad (suc k) x) (lines pad f.slots k))

get_or-set : (xs : List ℕ) (i v : ℕ) → i < length xs → get_or (set xs i v) i 0 ≡ v
get_or-set [] i v h = absurd (omega arith)
get_or-set (x ∷ xs) zero v h = refl
get_or-set (x ∷ xs) (suc i) v h = get_or-set xs i v (omega arith)

get_or-set_other : (xs : List ℕ) (i j v : ℕ) → i ≢ j → get_or (set xs i v) j 0 ≡ get_or xs j 0
get_or-set_other [] i j v ne = refl
get_or-set_other (x ∷ xs) zero zero v ne = absurd (ne refl)
get_or-set_other (x ∷ xs) zero (suc j) v ne = refl
get_or-set_other (x ∷ xs) (suc i) zero v ne = refl
get_or-set_other (x ∷ xs) (suc i) (suc j) v ne = get_or-set_other xs i j v (λ e. ne (ap suc e))

filled_above :
    (slots : List Snip) (k j : ℕ) (hashes : List ℕ)
    → k ≤ j
    → get_or (filled slots k hashes) j 0 ≡ get_or hashes j 0
filled_above slots zero j hashes le = refl
filled_above slots (suc k) j hashes le =
    filled_above slots k j (set hashes k (get_or slots k zero_snip).hash) (omega arith)
    ∙ get_or-set_other hashes k j (get_or slots k zero_snip).hash (λ e. absurd (omega arith))

-- The table has under each index the hash of the snip with that index.
pub get_or-filled :
    (slots : List Snip) (k j : ℕ) (hashes : List ℕ)
    → j < k
    → k ≤ length hashes
    → get_or (filled slots k hashes) j 0 ≡ (get_or slots j zero_snip).hash
get_or-filled slots zero j hashes lt le = absurd (omega arith)
get_or-filled slots (suc k) j hashes lt le =
    let h = (get_or slots k zero_snip).hash in
    elim (Bool-cases (j == k)) [
      | inl e ↦
          let same : j ≡ k = (==_iff j k).0 e in
          rw same (
            filled_above slots k k (set hashes k h) (omega arith)
            ∙ get_or-set hashes k h (omega arith))
      | inr e ↦
          get_or-filled slots k j (set hashes k h) (ground arith)
            (omega (arith, length-set hashes k h))
    ]

pad_loop-digits :
    (k n count : ℕ) → n < tens k → 0 < k → pad_loop k n count ≡ count + length (digits k n)
unfolding pad_loop digits
pad_loop-digits zero n count lt pos = absurd (omega arith)
pad_loop-digits (suc zero) n count lt pos = ground arith
pad_loop-digits (suc (suc k)) n count lt pos = ground (
  arith,
  pad_loop-digits (suc k) (n / 10) (count + 1),
  length-append {0} (digits (suc k) (n / 10)) ((48 + n % 10) ∷ []),
)

-- The numbers of the menu are padded to the length of the largest.
pub get_padding_length_lem :
    (num : ℕ) → num < 2 ^ 64 → get_padding_length num ≡ length (uint64_to_str num)
unfolding get_padding_length uint64_to_str
get_padding_length_lem num lt =
    pad_loop-digits 20 num 0 (omega arith) (omega arith) ∙ plus_zero (length (digits 20 num))
  where
    plus_zero : (n : ℕ) → 0 + n ≡ n
    plus_zero n = omega arith
