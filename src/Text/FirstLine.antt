-- ===== src/Text/FirstLine.antt =====
-- first_line of src/store.c against a description of the line and of the count of lines.
use clipmenu.Prelude.{
  ℕ, zero, suc, ◌+◌, ◌-◌, ◌%◌, ◌^◌, ◌≤◌, ◌<◌, ◌≡◌, refl, ap, ◌≢◌, inl, inr, Bool, true, false, ◌&&◌,
  [], ◌∷◌, arith, ◌==◌, if◌then◌else◌, lt→ltb, Bool-cases, length, take, length-take_le, All,
}
use clipmenu.Text.{
  Bytes, newline, u64_mod, add64, cs_snip_line_size, line_at, scan_step, scan, ends_open,
  first_line, with_precision,
}

-- The newlines of a text, and the text behind its leading newlines.
abbrev pub newlines : Bytes → ℕ
newlines [] = 0
newlines (c ∷ s) = (if c == newline then 1 else 0) + newlines s

abbrev pub skip_newlines : Bytes → Bytes
skip_newlines [] = []
skip_newlines (c ∷ s) = if c == newline then skip_newlines s else c ∷ s

-- The first line that is not empty, as far as the buffer holds it.
abbrev pub salient_line : Bytes → Bytes
salient_line text = take (cs_snip_line_size - 1) (line_at (skip_newlines text))

-- The lines, an unfinished last one included.
abbrev pub line_count : Bytes → ℕ
line_count text = newlines text + (if ends_open text then 1 else 0)

abbrev has_line : Bytes → Bool
has_line [] = false
has_line (c ∷ s) = if c == newline then has_line s else true

newlines-le : (s : Bytes) → newlines s ≤ length s
newlines-le [] = omega arith
newlines-le (c ∷ s) = ground (arith, newlines-le s)

-- Once a line is found only the count goes on.
scan_found :
    (s : Bytes) (n : ℕ) (o : Bytes)
    → n + length s < u64_mod
    → scan s (record { found = true; nr_lines = n; out = o })
      ≡ record { found = true; nr_lines = n + newlines s; out = o }
unfolding scan scan_step
scan_found [] n o h = ground arith
scan_found (c ∷ s) n o h = ground (arith, scan_found s (add64 n (if c == newline then 1 else 0)) o)

take-line_at : (s : Bytes) → take (length (line_at s)) s ≡ line_at s
unfolding line_at
take-line_at [] = refl
take-line_at (c ∷ s) = elim (Bool-cases (c == newline)) [
  | inl e ↦ rw e refl
  | inr e ↦ rw e (ap (λ l. c ∷ l) (take-line_at s))
]

-- The precision does not wrap.
with_precision-line_at :
    (s : Bytes) → length (line_at s) < 2 ^ 31 → with_precision (length (line_at s)) s ≡ line_at s
with_precision-line_at s short =
    let same : length (line_at s) % 2 ^ 32 ≡ length (line_at s) = omega (arith, short) in
    rw (same, lt→ltb _ _ short) (take-line_at s)

scan_open :
    (s : Bytes) (n : ℕ)
    → n + length s < u64_mod
    → length (line_at (skip_newlines s)) < 2 ^ 31
    → scan s (record { found = false; nr_lines = n; out = [] })
      ≡ record { found = has_line s; nr_lines = n + newlines s; out = salient_line s }
unfolding scan scan_step
scan_open [] n h short = unfold line_at in ground arith
scan_open (c ∷ s) n h short = elim (Bool-cases (c == newline)) [
  | inl e ↦ rw e (
      rw (scan_open s (add64 n 1) (omega (arith, h)) (rw e at short)) (
        ap (λ m. record { found = has_line s; nr_lines = m; out = salient_line s })
          (omega (arith, h, newlines-le s))))
  | inr e ↦
      let whole = with_precision-line_at (c ∷ s) (rw e at short) in
      rw (e, whole)
        (rw (scan_found s (add64 n 0) (take 238 (line_at (c ∷ s))) (omega (arith, h))) (
          ap (λ m. record { found = true; nr_lines = m; out = take 238 (line_at (c ∷ s)) })
            (omega (arith, h, newlines-le s))))
]

ends_open-has_line : (s : Bytes) → (has_line s && ends_open s) ≡ ends_open s
unfolding ends_open
ends_open-has_line [] = refl
ends_open-has_line (c ∷ []) = ground arith
ends_open-has_line (c ∷ d ∷ s) = ground (arith, ends_open-has_line (d ∷ s))

line_count-le : (s : Bytes) → line_count s ≤ length s
unfolding ends_open
line_count-le [] = omega arith
line_count-le (c ∷ []) = ground arith
line_count-le (c ∷ d ∷ s) = ground (arith, line_count-le (d ∷ s))

-- first_line() writes the first line that is not empty, cut to the buffer, and returns the number
-- of newlines, with one more for a last line that no newline ends; that line is shorter than 2 ^ 31,
-- and the text than 2 ^ 64.
pub first_line_lem :
    (text : Bytes)
    → length text < u64_mod
    → length (line_at (skip_newlines text)) < 2 ^ 31
    → first_line text ≡ (line_count text, salient_line text)
unfolding first_line
first_line_lem text h short =
    rw (scan_open text 0 (omega (arith, h)) short, ends_open-has_line text)
      (ap (λ n. (n, salient_line text)) (omega (arith, line_count-le text, h)))

line_at-no_newline : (s : Bytes) → All (λ c. c ≢ newline) (line_at s)
unfolding line_at
line_at-no_newline [] = tt
line_at-no_newline (c ∷ s) = ground (arith, line_at-no_newline s)

take-All : (n : ℕ) (s : Bytes) → All (λ c. c ≢ newline) s → All (λ c. c ≢ newline) (take n s)
take-All zero s h = tt
take-All (suc n) [] h = tt
take-All (suc n) (c ∷ s) h = (h.0, take-All n s h.1)

-- The line fits its buffer of 239 bytes with the NUL, and holds no newline.
pub first_line_fits :
    (text : Bytes)
    → length text < u64_mod
    → length (line_at (skip_newlines text)) < 2 ^ 31
    → (length (first_line text).1 < cs_snip_line_size) × All (λ c. c ≢ newline) (first_line text).1
first_line_fits text h short = rw (first_line_lem text h short) (
  omega (arith, length-take_le {0} 238 (line_at (skip_newlines text))),
  take-All 238 _ (line_at-no_newline (skip_newlines text)),
)
