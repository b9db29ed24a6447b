-- ===== src/Util.antt =====
-- src/util.c: the decimal strings of 64-bit numbers, printed by uint64_to_str and read by
-- str_to_uint64. strtoull() is written out, for base 10 and the C locale.
pub mod Decimal
pub mod Descriptors
pub mod Tests
use clipmenu.Prelude.{
  ℕ, zero, suc, ◌+◌, ◌-◌, ◌*◌, ◌/◌, ◌%◌, ◌^◌, ◌≤◌, ◌<◌, bit_and, ◌≡◌, refl, sym, ap, ◌∙◌, subst,
  fun_ext, ◌≡⟨◌⟩◌, ◌∎, ◌≢◌, ◌↔◌, ◌⊎◌, inl, inr, Bool, true, false, not, ◌&&◌, ◌||◌, Option, none,
  some, List, [], ◌∷◌, ◌++◌, map, append_assoc, append-nil, map-append, reverse, reverse-append,
  reverse-reverse, reverse-cons, arith, ltb, leb, ◌==◌, if◌then◌else◌, ltb→lt, not-ltb→le,
  not-leb→lt, lt→ltb, le→not-ltb, le→leb, leb→le, lt→not-leb, ==_iff, ==_refl, Bool-cases, length,
  get_or, set, take, drop, replicate, length-append, get_or-append, set-append, take-append,
  take-append_le, take_all, take-append-drop, take-take, take-set_last, take-set, get_or-take,
  length-take_le, length-take_of_le, length-set, length-replicate, split_at, All, All-append,
  length-map, take-map, length-reverse, String,
}
use clipmenu.Text.{Bytes, u64_mod, isspace}
use clipmenu.Machine.{Outcome, ok, err, einval, erange}

-- The digits of a number, on fuel: one round for each digit.
unfoldable pub digits : ℕ → ℕ → Bytes
digits zero n = []
digits (suc fuel) n =
    let more = digits fuel (n / 10) ++ ((48 + n % 10) ∷ []) in
    if ltb n 10 then (48 + n) ∷ [] else more

-- printf() of a 64-bit number, which has at most UINT64_MAX_STRLEN digits.
unfoldable pub uint64_to_str : ℕ → Bytes
unfolding digits
uint64_to_str input = digits 20 input

unfoldable pub is_digit : ℕ → Bool
is_digit c = leb 48 c && leb c 57

unfoldable pub skip_space : Bytes → Bytes
skip_space [] = []
skip_space (c ∷ s) = let rest = skip_space s in if isspace c then rest else c ∷ s

-- An optional sign: whether it is a minus, and what follows.
unfoldable pub take_sign : Bytes → Bool × Bytes
take_sign [] = (false, [])
take_sign (c ∷ s) =
    if c == b'-' then (true, s) else if c == b'+' then (false, s) else (false, c ∷ s)

unfoldable pub read_digits : Bytes → ℕ → ℕ × Bytes
unfolding is_digit
read_digits [] acc = (acc, [])
read_digits (c ∷ s) acc =
    let rest = read_digits s (acc * 10 + (c - 48)) in if is_digit c then rest else (acc, c ∷ s)

abbrev pub starts : (ℕ → Bool) → Bytes → Bool
starts test [] = false
starts test (c ∷ s) = test c

-- The sign, the value with no bound, and what *endptr points to; `none` where there is no digit.
unfoldable pub strtoull : Bytes → Option (Bool × ℕ × Bytes)
unfolding skip_space take_sign read_digits is_digit
strtoull input =
    let (negative, s) = take_sign (skip_space input) in
    let (val, endptr) = read_digits s 0 in
    if starts is_digit s then some (negative, val, endptr) else none

abbrev pub is_empty : Bytes → Bool
is_empty [] = true
is_empty (c ∷ s) = false

unfoldable pub check_range : Bytes → ℕ → Outcome ℕ
check_range input val =
    if not (val == 0) && starts (λ c. c == b'-') input then err erange else ok val

-- A value of 2 ^ 64 or more sets errno; a sign negates modulo 2 ^ 64.
unfoldable pub checked_value : Bytes → Option (Bool × ℕ × Bytes) → Outcome ℕ
unfolding check_range
checked_value input none = err einval
checked_value input (some (negative, val, endptr)) =
    if leb u64_mod val
    then err erange
    else if not (is_empty endptr)
    then err einval
    else check_range input (if negative then (u64_mod - val) % u64_mod else val)

unfoldable pub str_to_uint64 : Bytes → Outcome ℕ
unfolding strtoull checked_value
str_to_uint64 input = checked_value input (strtoull input)
