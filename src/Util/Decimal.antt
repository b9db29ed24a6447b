-- ===== src/Util/Decimal.antt =====
-- str_to_uint64 of src/util.c reads what uint64_to_str prints, with blanks in front or not.
use clipmenu.Prelude.{
  ℕ, zero, suc, ◌+◌, ◌-◌, ◌*◌, ◌/◌, ◌%◌, ◌≤◌, ◌<◌, ◌≡◌, refl, sym, ap, ◌∙◌, ◌≢◌, inl, inr, true,
  false, some, [], ◌∷◌, ◌++◌, append_assoc, append-nil, arith, ltb, ◌==◌, if◌then◌else◌, ltb→lt,
  not-ltb→le, lt→ltb, le→not-ltb, Bool-cases, length, replicate, length-append, All, All-append,
}
use clipmenu.Text.{Bytes, u64_mod, isspace}
use clipmenu.Machine.{ok, err, erange}
use clipmenu.Util.{
  digits, uint64_to_str, is_digit, skip_space, take_sign, read_digits, starts, strtoull,
  check_range, checked_value, str_to_uint64,
}

-- Powers of ten, by recursion.
abbrev pub tens : ℕ → ℕ
tens zero = 1
tens (suc k) = tens k * 10

abbrev pub blanks : ℕ → Bytes
blanks k = replicate k 32

digits_one : (k n : ℕ) → n < 10 → digits (suc k) n ≡ (48 + n) ∷ []
unfolding digits
digits_one k n lt = rw (lt→ltb n 10 lt)

digits_more : (k n : ℕ) → 10 ≤ n → digits (suc k) n ≡ digits k (n / 10) ++ ((48 + n % 10) ∷ [])
unfolding digits
digits_more k n le = rw (le→not-ltb n 10 le)

read_digits-digit :
    (d acc : ℕ) (rest : Bytes)
    → d < 10
    → read_digits ((48 + d) ∷ rest) acc ≡ read_digits rest (acc * 10 + d)
unfolding read_digits is_digit
read_digits-digit d acc rest lt = ground arith

-- Reading goes through the digits of a number to what follows them.
read_digits-digits :
    (k n : ℕ) (rest : Bytes) → n < tens k → read_digits (digits k n ++ rest) 0 ≡ read_digits rest n
unfolding digits
read_digits-digits zero n rest lt = ap (read_digits rest) (omega arith)
read_digits-digits (suc k) n rest lt = elim (Bool-cases (ltb n 10)) [
  | inl e ↦
      rw (digits_one k n (ltb→lt n 10 e))
        (read_digits-digit n 0 rest (ltb→lt n 10 e) ∙ ap (read_digits rest) (omega arith))
  | inr e ↦
      rw
        (
          digits_more k n (not-ltb→le n 10 e),
          append_assoc (digits k (n / 10)) ((48 + n % 10) ∷ []) rest,
        )
        (read_digits-digits k (n / 10) ((48 + n % 10) ∷ rest) (omega arith)
          ∙ read_digits-digit (n % 10) (n / 10) rest (omega arith)
          ∙ ap (read_digits rest) (omega arith))
]

abbrev IsDecimal : Bytes → Type 0
IsDecimal = All (λ c. (48 ≤ c) × (c < 58))

pub digits-IsDecimal : (k n : ℕ) → IsDecimal (digits k n)
unfolding digits
digits-IsDecimal zero n = tt
digits-IsDecimal (suc k) n = elim (Bool-cases (ltb n 10)) [
  | inl e ↦ rw (digits_one k n (ltb→lt n 10 e)) ((omega arith, omega (arith, ltb→lt n 10 e)), tt)
  | inr e ↦ rw (digits_more k n (not-ltb→le n 10 e)) (
      All-append _ (digits k (n / 10)) ((48 + n % 10) ∷ []) (digits-IsDecimal k (n / 10))
        ((omega arith, omega arith), tt))
]

-- A number below a power of ten has no more digits than the power has noughts.
pub length-digits : (m k n : ℕ) → n < tens (suc m) → length (digits k n) ≤ suc m
unfolding digits
length-digits m zero n lt = omega arith
length-digits zero (suc k) n lt = rw (digits_one k n (omega arith)) (omega arith)
length-digits (suc m) (suc k) n lt = elim (Bool-cases (ltb n 10)) [
  | inl e ↦ rw (digits_one k n (ltb→lt n 10 e)) (omega arith)
  | inr e ↦ rw (digits_more k n (not-ltb→le n 10 e)) (
      omega (
        arith,
        length-append {0} (digits k (n / 10)) ((48 + n % 10) ∷ []),
        length-digits m k (n / 10) (omega arith),
      ))
]

pub length-digits_pos : (k n : ℕ) → 0 < length (digits (suc k) n)
length-digits_pos k n = elim (Bool-cases (ltb n 10)) [
  | inl e ↦ rw (digits_one k n (ltb→lt n 10 e)) (omega arith)
  | inr e ↦
      rw (digits_more k n (not-ltb→le n 10 e))
        (omega (arith, length-append {0} (digits k (n / 10)) ((48 + n % 10) ∷ [])))
]

skip_space-blanks :
    (k c : ℕ) (s : Bytes) → isspace c ≡ false → skip_space (blanks k ++ (c ∷ s)) ≡ c ∷ s
unfolding skip_space
skip_space-blanks zero c s e = ground arith
skip_space-blanks (suc k) c s e = rw (skip_space-blanks k c s e) (unfold isspace in refl)

take_sign-none : (c : ℕ) (s : Bytes) → 48 ≤ c → take_sign (c ∷ s) ≡ (false, c ∷ s)
unfolding take_sign
take_sign-none c s le = ground arith

isspace-digit : (c : ℕ) → 48 ≤ c → isspace c ≡ false
unfolding isspace
isspace-digit c le = ground arith

-- What strtoull() makes of a string of digits, with blanks and a minus in front or not.
pub strtoull-blanks :
    (k v : ℕ) (s : Bytes)
    → IsDecimal s
    → 0 < length s
    → read_digits s 0 ≡ (v, [])
    → strtoull (blanks k ++ s) ≡ some (false, v, [])
unfolding strtoull
strtoull-blanks k v [] h pos e = absurd (omega arith)
strtoull-blanks k v (c ∷ s) h pos e =
    rw (skip_space-blanks k c s (isspace-digit c h.0.0), take_sign-none c s h.0.0, e)
      (unfold is_digit in ground arith)

strtoull-minus :
    (k v : ℕ) (s : Bytes)
    → IsDecimal s
    → 0 < length s
    → read_digits s 0 ≡ (v, [])
    → strtoull (blanks k ++ (45 ∷ s)) ≡ some (true, v, [])
unfolding strtoull
strtoull-minus k v [] h pos e = absurd (omega arith)
strtoull-minus k v (c ∷ s) h pos e =
    rw (skip_space-blanks k 45 (c ∷ s) (unfold isspace in refl), e)
      (unfold is_digit in ground arith)

pub read_all : (n : ℕ) → n < u64_mod → read_digits (uint64_to_str n) 0 ≡ (n, [])
unfolding uint64_to_str read_digits
read_all n lt =
    ap (λ l. read_digits l 0) (sym (append-nil (digits 20 n)))
    ∙ read_digits-digits 20 n [] (omega arith)

pub decimal : (n : ℕ) → IsDecimal (uint64_to_str n)
unfolding uint64_to_str
decimal n = digits-IsDecimal 20 n

pub nonempty : (n : ℕ) → 0 < length (uint64_to_str n)
unfolding uint64_to_str
nonempty n = length-digits_pos 19 n

no_minus_in : (s : Bytes) → IsDecimal s → starts (λ c. c == b'-') s ≡ false
no_minus_in [] h = refl
no_minus_in (c ∷ s) h = ground (arith, h.0.0)

no_minus : (k n : ℕ) → starts (λ c. c == b'-') (blanks k ++ uint64_to_str n) ≡ false
no_minus zero n = no_minus_in (uint64_to_str n) (decimal n)
no_minus (suc k) n = refl

module _ (n : ℕ) (lt : n < u64_mod) where
  -- A number that uint64_to_str() prints is read back, with any blanks in front of it.
  pub str_to_uint64-uint64_to_str : (k : ℕ) → str_to_uint64 (blanks k ++ uint64_to_str n) ≡ ok n
  unfolding str_to_uint64 checked_value check_range
  str_to_uint64-uint64_to_str k =
      rw (strtoull-blanks k n (uint64_to_str n) (decimal n) (nonempty n) (read_all n lt))
        (in_range k)
    where
      in_range : (j : ℕ) → checked_value (blanks j ++ uint64_to_str n) (some (false, n, [])) ≡ ok n
      in_range j = ground (arith, no_minus j n)

  -- A minus is refused in front of a number that is not 0, but not where a blank stands before it.
  pub str_to_uint64-minus :
      (k : ℕ)
      → n ≢ 0
      → str_to_uint64 (blanks k ++ (45 ∷ uint64_to_str n))
        ≡ (if k == 0 then err erange else ok (u64_mod - n))
  unfolding str_to_uint64 checked_value check_range
  str_to_uint64-minus k ne =
      rw (strtoull-minus k n (uint64_to_str n) (decimal n) (nonempty n) (read_all n lt)) (minus k)
    where
      minus :
          (j : ℕ)
          → checked_value (blanks j ++ (45 ∷ uint64_to_str n)) (some (true, n, []))
            ≡ (if j == 0 then err erange else ok (u64_mod - n))
      minus zero = ground arith
      minus (suc j) = ground arith
