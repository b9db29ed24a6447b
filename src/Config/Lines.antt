-- ===== src/Config/Lines.antt =====
-- src/config.c: the loop of config_parse_file over the lines that fgets() reads into its buffer.
use clipmenu.Prelude.{
  ℕ, zero, suc, ◌≤◌, ◌<◌, ◌≡◌, refl, sym, ap, ◌∙◌, subst, false, List, [], ◌∷◌, ◌++◌, map,
  append_assoc, append-nil, arith, ◌==◌, if◌then◌else◌, length, length-append, All,
}
use clipmenu.Text.{Bytes}

-- sizeof(line) - 1, since fgets() ends the line with a null byte.
abbrev pub line_room : ℕ
line_room = 255

abbrev pub newline : ℕ
newline = 10

-- What fgets() reads, up to and with the first newline, and what it leaves.
unfoldable pub fgets : ℕ → Bytes → Bytes × Bytes
fgets zero file = ([], file)
fgets (suc room) [] = ([], [])
fgets (suc room) (c ∷ file) =
    let more = fgets room file in if c == newline then (c ∷ [], file) else (c ∷ more.0, more.1)

-- Until fgets() returns NULL at the end of the file.
unfoldable pub read_loop : ℕ → Bytes → List Bytes
read_loop zero file = []
read_loop (suc fuel) [] = []
read_loop (suc fuel) (c ∷ file) =
    let (line, rest) = fgets line_room (c ∷ file) in line ∷ read_loop fuel rest

unfoldable pub read_lines : Bytes → List Bytes
unfolding read_loop fgets
read_lines file = read_loop (length file) file

abbrev pub NoNewline : Bytes → Type 0
NoNewline = All (λ c. (c == newline) ≡ false)

fgets-le : (room : ℕ) (file : Bytes) → length (fgets room file).1 ≤ length file
unfolding fgets
fgets-le zero file = omega arith
fgets-le (suc room) [] = omega arith
fgets-le (suc room) (c ∷ file) = ground (arith, fgets-le room file)

fgets-lt : (room c : ℕ) (file : Bytes) → length (fgets (suc room) (c ∷ file)).1 ≤ length file
unfolding fgets
fgets-lt room c file = ground (arith, fgets-le room file)

-- Fuel for every byte is enough.
read_loop_enough :
    (fuel more : ℕ) (file : Bytes)
    → length file ≤ fuel
    → length file ≤ more
    → read_loop fuel file ≡ read_loop more file
unfolding read_loop
read_loop_enough zero zero file h h' = refl
read_loop_enough zero (suc more) [] h h' = refl
read_loop_enough zero (suc more) (c ∷ file) h h' = absurd (omega (arith, h))
read_loop_enough (suc fuel) zero [] h h' = refl
read_loop_enough (suc fuel) zero (c ∷ file) h h' = absurd (omega (arith, h'))
read_loop_enough (suc fuel) (suc more) [] h h' = refl
read_loop_enough (suc fuel) (suc more) (c ∷ file) h h' =
    ap (λ ls. (fgets line_room (c ∷ file)).0 ∷ ls)
      (read_loop_enough fuel more (fgets line_room (c ∷ file)).1
        (omega (arith, fgets-lt 254 c file, h)) (omega (arith, fgets-lt 254 c file, h')))

fgets_line :
    (room : ℕ) (line rest : Bytes)
    → NoNewline line
    → length line < room
    → fgets room (line ++ (newline ∷ rest)) ≡ (line ++ (newline ∷ []), rest)
unfolding fgets
fgets_line zero line rest none_in h = absurd (omega (arith, h))
fgets_line (suc room) [] rest none_in h = refl
fgets_line (suc room) (c ∷ line) rest (other, none_in) h =
    rw (other, fgets_line room line rest none_in (omega (arith, h))) refl

fgets_full :
    (line rest : Bytes) → NoNewline line → fgets (length line) (line ++ rest) ≡ (line, rest)
unfolding fgets
fgets_full [] rest none_in = refl
fgets_full (c ∷ line) rest (other, none_in) = rw (other, fgets_full line rest none_in) refl

-- One round of the loop.
read_round :
    (file line rest : Bytes)
    → 0 < length file
    → fgets line_room file ≡ (line, rest)
    → read_lines file ≡ line ∷ read_lines rest
unfolding read_lines read_loop
read_round [] line rest h e = absurd (omega (arith, h))
read_round (c ∷ file) line rest h e =
    let shorter : length rest ≤ length file =
      subst (λ (o : Bytes × Bytes). length o.1 ≤ length file) e (fgets-lt 254 c file) in
    rw e (
      ap (λ ls. line ∷ ls)
        (read_loop_enough (length file) (length rest) rest shorter (omega arith)))

-- The file in which each of these lines ends with a newline.
abbrev pub printed : List Bytes → Bytes
printed [] = []
printed (line ∷ lines) = line ++ (newline ∷ printed lines)

abbrev pub Short : Bytes → Type 0
Short line = NoNewline line × (length line < line_room)

read_printed :
    (lines : List Bytes) (rest : Bytes)
    → All Short lines
    → read_lines (printed lines ++ rest)
      ≡ map (λ line. line ++ (newline ∷ [])) lines ++ read_lines rest
read_printed [] rest h = refl
read_printed (line ∷ lines) rest ((none_in, short), h) =
    let file = line ++ (newline ∷ (printed lines ++ rest)) in
    ap read_lines (append_assoc line (newline ∷ printed lines) rest)
    ∙ read_round file (line ++ (newline ∷ [])) (printed lines ++ rest)
        (omega (arith, length-append line (newline ∷ (printed lines ++ rest))))
        (fgets_line line_room line (printed lines ++ rest) none_in short)
    ∙ ap (λ ls. (line ++ (newline ∷ [])) ∷ ls) (read_printed lines rest h)

long_line :
    (long more : Bytes)
    → NoNewline long
    → length long ≡ line_room
    → read_lines (long ++ more) ≡ long ∷ read_lines more
long_line long more none_in size =
    read_round (long ++ more) long more (omega (arith, length-append long more, size))
      (subst (λ n. fgets n (long ++ more) ≡ (long, more)) size (fgets_full long more none_in))

-- A file of lines that have at most 254 bytes and no newline, each with a newline behind it, is read
-- as these lines; of a longer line behind them the first 255 bytes are read as one line, and what
-- follows is read as if it began a line of its own.
pub read_lines-printed :
    (lines : List Bytes) (long more : Bytes)
    → All Short lines
    → NoNewline long
    → length long ≡ line_room
    → (read_lines (printed lines) ≡ map (λ line. line ++ (newline ∷ [])) lines)
      × (read_lines (printed lines ++ (long ++ more))
          ≡ map (λ line. line ++ (newline ∷ [])) lines ++ (long ∷ read_lines more))
unfolding read_lines
read_lines-printed lines long more short none_in size = (
  ap read_lines (sym (append-nil (printed lines)))
      ∙ read_printed lines [] short
      ∙ append-nil (map (λ line. line ++ (newline ∷ [])) lines),
  read_printed lines (long ++ more) short
      ∙ ap (λ ls. map (λ line. line ++ (newline ∷ [])) lines ++ ls)
          (long_line long more none_in size),
)
