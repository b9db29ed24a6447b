-- ===== src/Text.antt =====
-- C strings, as the lists of their bytes before the terminating NUL, and the functions of src/store.c
-- and src/clipmenud.c that only read text: djb64_hash, first_line, is_possible_partial and
-- is_salient_text.
pub mod Hash
pub mod FirstLine
pub mod Salient
pub mod Partial
pub mod Tests
use Prim.Native.Char.{code}
use clipmenu.Prelude.{
  ℕ, ◌+◌, ◌-◌, ◌*◌, ◌%◌, ◌^◌, ◌≤◌, ◌<◌, Bool, true, false, not, ◌&&◌, ◌||◌, List, [], ◌∷◌, String,
  ltb, leb, ◌==◌, if◌then◌else◌, length, take, drop, All,
}

abbrev pub Bytes : Type 0
Bytes = List ℕ

-- The code points of a literal, which are its bytes when it is ASCII.
abbrev pub codes : String → Bytes
codes String.[] = []
codes (String.◌∷◌ c s) = code c ∷ codes s

abbrev pub newline : ℕ
newline = b'\n'

-- A byte of a C string: not NUL, and below 256.
abbrev pub IsText : Bytes → Type 0
IsText = All (λ c. (0 < c) × (c < 256))

-- size_t and uint64_t arithmetic.
abbrev pub u64_mod : ℕ
u64_mod = 2 ^ 64

abbrev pub add64 : ℕ → ℕ → ℕ
add64 a b = (a + b) % u64_mod

abbrev pub mul64 : ℕ → ℕ → ℕ
mul64 a b = a * b % u64_mod

-- CS_SNIP_SIZE - (sizeof(uint64_t) * 2) - sizeof(bool)
abbrev pub cs_snip_line_size : ℕ
cs_snip_line_size = 239

-- `hash << 5` drops the bits above the 64th.
hash_step : ℕ → ℕ → ℕ
hash_step hash c = add64 (add64 (mul64 hash 32) hash) c

hash_loop : Bytes → ℕ → ℕ
hash_loop [] hash = hash
hash_loop (c ∷ src) hash = hash_loop src (hash_step hash c)

unfoldable pub djb64_hash : Bytes → ℕ
unfolding hash_loop hash_step
djb64_hash buf = hash_loop buf 5381

-- strcspn(cur, "\n") bytes from `cur` on.
unfoldable pub line_at : Bytes → Bytes
line_at [] = []
line_at (c ∷ cur) = let rest = line_at cur in if c == newline then [] else c ∷ rest

pub record Scan : Type 0 where
  pub found : Bool
  pub nr_lines : ℕ
  pub out : Bytes

-- What "%.*s" prints of a string with the precision (int)n; a negative one counts as none.
abbrev pub with_precision : ℕ → Bytes → Bytes
with_precision n cur = let w = n % 2 ^ 32 in if ltb w (2 ^ 31) then take w cur else cur

-- One round of the loop at `cur`, which is `c ∷ rest`; snprintf() stops at the buffer's size.
scan_step : Scan → ℕ → Bytes → Scan
scan_step s c rest =
    let nr = add64 s.nr_lines (if c == newline then 1 else 0) in
    if not s.found && not (c == newline)
    then record {
      found = true;
      nr_lines = nr;
      out = take (cs_snip_line_size - 1) (with_precision (length (line_at (c ∷ rest))) (c ∷ rest));
    }
    else record s { nr_lines = nr }

scan : Bytes → Scan → Scan
scan [] s = s
scan (c ∷ rest) s = scan rest (scan_step s c rest)

-- `*--cur != '\n'` behind the loop: the last byte of the text, which is not empty there.
unfoldable pub ends_open : Bytes → Bool
ends_open [] = false
ends_open (c ∷ []) = not (c == newline)
ends_open (c ∷ d ∷ rest) = ends_open (d ∷ rest)

-- The number of lines, and what is written to `out`.
unfoldable pub first_line : Bytes → ℕ × Bytes
unfolding scan scan_step ends_open
first_line text =
    let s = scan text (record { found = false; nr_lines = 0; out = [] }) in
    (add64 s.nr_lines (if s.found && ends_open text then 1 else 0), s.out)

-- strncmp(s1, s2, n) == 0 for strings of at least `n` bytes.
same_start : ℕ → Bytes → Bytes → Bool
same_start n [] [] = true
same_start n [] (d ∷ s2) = n == 0
same_start n (c ∷ s1) [] = n == 0
same_start n (c ∷ s1) (d ∷ s2) = n == 0 || c == d && same_start (n - 1) s1 s2

-- streq()
unfoldable pub streq : Bytes → Bytes → Bool
streq [] [] = true
streq [] (d ∷ s2) = false
streq (c ∷ s1) [] = false
streq (c ∷ s1) (d ∷ s2) = c == d && streq s1 s2

unfoldable pub is_possible_partial : Bytes → Bytes → Bool
unfolding same_start streq
is_possible_partial s1 s2 =
    let len1 = length s1 in
    let len2 = length s2 in
    if same_start (if ltb len1 len2 then len1 else len2) s1 s2
    then true
    else if ltb len1 len2
    then streq s1 (drop (len2 - len1) s2)
    else streq s2 (drop (len1 - len2) s1)

-- isspace() in the C locale: \t \n \v \f \r and the blank.
unfoldable pub isspace : ℕ → Bool
isspace c = leb 9 c && leb c 13 || c == 32

unfoldable pub is_salient_text : Bytes → Bool
unfolding isspace
is_salient_text [] = false
is_salient_text (c ∷ str) = not (isspace c) || is_salient_text str
