-- ===== src/Util/Descriptors.antt =====
-- src/util.c: write_safe, read_safe, snprintf_safe, debug_mode_enabled and run_clipserve. What each read() or write()
-- comes to is the element of a list: `none` where it fails; behind the last one a call takes all.
use clipmenu.Prelude.{
  ℕ, zero, suc, ◌+◌, ◌-◌, ◌≤◌, ◌≡◌, refl, ap, ◌∙◌, Bool, true, false, Option, none, some, List, [],
  ◌∷◌, ◌++◌, map, arith, ltb, ◌==◌, if◌then◌else◌, le→not-ltb, length, take, drop, length-append,
  take_all, take-append-drop, length-take_le,
}
use clipmenu.Text.{Bytes, codes, streq}
use clipmenu.Machine.{Outcome, ok, err, abort}
use clipmenu.Util.{uint64_to_str}

-- The outcome and what was written. `some n`: write() has taken n bytes.
unfoldable pub write_safe : List (Option ℕ) → Bytes → Outcome (Unit {0}) × Bytes
write_safe results [] = (ok tt, [])
write_safe [] (c ∷ buf) = (ok tt, c ∷ buf)
write_safe (none ∷ results) (c ∷ buf) = (abort, [])
write_safe (some n ∷ results) (c ∷ buf) =
    let (o, written) = write_safe results (drop n (c ∷ buf)) in
    if ltb (length (c ∷ buf)) n then (abort, take n (c ∷ buf)) else (o, take n (c ∷ buf) ++ written)

-- The number of bytes read, and the buffer. The second argument is what there is to read up to the end
-- of the file. `some n`: read() gives n + 1 bytes, if as many are asked for and are there, since it
-- gives 0 only at the end.
unfoldable pub read_safe : List (Option ℕ) → Bytes → ℕ → Outcome ℕ × Bytes
read_safe results content zero = (ok 0, [])
read_safe [] content (suc count) =
    (ok (length (take (suc count) content)), take (suc count) content)
read_safe (none ∷ results) content (suc count) = (abort, [])
read_safe (some n ∷ results) content (suc count) =
    let chunk = take (suc n) (take (suc count) content) in
    let (o, buf) = read_safe results (drop (length chunk) content) (suc count - length chunk) in
    if length chunk == 0 then (ok 0, []) else (add_read (length chunk) o, chunk ++ buf)
  where
    add_read : ℕ → Outcome ℕ → Outcome ℕ
    add_read k (ok m) = ok (k + m)
    add_read k (err e) = err e
    add_read k abort = abort

-- vsnprintf() gives the length of the whole text, without the NUL.
unfoldable pub snprintf_safe : ℕ → Bytes → Outcome Bytes
snprintf_safe len text = if ltb (length text) len then ok text else abort

abbrev is_one : Option Bytes → Bool
is_one none = false
is_one (some dbg_env) = streq dbg_env (codes "1")

abbrev asked : Option Bool → Bool → Bool
asked none b = b
asked (some debug_enabled) b = debug_enabled

-- The static variable remembers the first answer; `none` is -1.
unfoldable pub debug_mode_enabled : (Bytes → Option Bytes) → Option Bool → Bool × Option Bool
debug_mode_enabled getenv debug_enabled =
    let b = asked debug_enabled (is_one (getenv (codes "CM_DEBUG"))) in (b, some b)

-- No write() takes more than it is given.
abbrev pub Takes : List ℕ → Bytes → Type 0
Takes [] buf = Unit
Takes (n ∷ ns) buf = (n ≤ length buf) × Takes ns (drop n buf)

-- However write() splits what it is given, all is written.
write_safe_all :
    (ns : List ℕ) (buf : Bytes) → Takes ns buf → write_safe (map some ns) buf ≡ (ok tt, buf)
unfolding write_safe
write_safe_all [] [] h = refl
write_safe_all [] (c ∷ buf) h = refl
write_safe_all (n ∷ ns) [] h = refl
write_safe_all (n ∷ ns) (c ∷ buf) h = rw (le→not-ltb (length (c ∷ buf)) n h.0) (
    rw (write_safe_all ns (drop n (c ∷ buf)) h.1)
      (ap (λ l. (ok tt, l)) (take-append-drop n (c ∷ buf))))

-- A first part of a first part.
take_first : (m n : ℕ) (xs : Bytes) → take m (take n xs) ≡ take (length (take m (take n xs))) xs
take_first zero n xs = refl
take_first (suc m) zero xs = refl
take_first (suc m) (suc n) [] = refl
take_first (suc m) (suc n) (x ∷ xs) = ap (λ l. x ∷ l) (take_first m n xs)

take-append-take :
    (k n : ℕ) (xs : Bytes) → k ≤ n → take k xs ++ take (n - k) (drop k xs) ≡ take n xs
take-append-take zero n xs h = ap (λ k. take k xs) (minus_zero n)
  where
    minus_zero : (n : ℕ) → n - 0 ≡ n
    minus_zero n = omega arith
take-append-take (suc k) zero xs h = absurd (omega arith)
take-append-take (suc k) (suc n) [] h = take-nil (suc n - suc k)
  where
    take-nil : (n : ℕ) → take {A = ℕ} n [] ≡ []
    take-nil zero = refl
    take-nil (suc n) = refl
take-append-take (suc k) (suc n) (x ∷ xs) h =
    rw (minus_suc n k) (ap (λ l. x ∷ l) (take-append-take k n xs (omega arith)))
  where
    minus_suc : (n k : ℕ) → suc n - suc k ≡ n - k
    minus_suc n k = omega arith

length-take-take : (m n : ℕ) (xs : Bytes) → length (take m (take n xs)) ≤ n
length-take-take zero n xs = omega arith
length-take-take (suc m) zero xs = omega arith
length-take-take (suc m) (suc n) [] = omega arith
length-take-take (suc m) (suc n) (x ∷ xs) = omega (arith, length-take-take m n xs)

-- However read() splits what there is, as much is read as is asked for and there.
read_safe_all :
    (ms : List ℕ) (content : Bytes) (count : ℕ)
    → read_safe (map some ms) content count ≡ (ok (length (take count content)), take count content)
unfolding read_safe
read_safe_all ms content zero = refl
read_safe_all [] content (suc count) = refl
read_safe_all (m ∷ ms) [] (suc count) = refl
read_safe_all (m ∷ ms) (c ∷ content) (suc count) =
    let k = length (take m (take count content)) in
    let some_read : (suc k == 0) ≡ false = ground arith in
    let le : k ≤ count = omega (
      arith,
      length-take_le m (take count content),
      length-take_le count content,
      length-take-take m count content,
    ) in
    let first = take m (take count content) in
    let rest = take (count - k) (drop k content) in
    let whole : first ++ rest ≡ take count content =
      ap (λ l. l ++ rest) (take_first m count content) ∙ take-append-take k count content le in
    let counted : suc k + length rest ≡ suc (length (first ++ rest)) =
      omega (arith, length-append {0} first rest) in
    rw some_read (
      rw (minus_suc count k) (
        rw (read_safe_all ms (drop k content) (count - k)) (
          ap (λ n. (ok n, c ∷ (first ++ rest))) counted
          ∙ ap (λ l. (ok (suc (length l)), c ∷ l)) whole)))
  where
    minus_suc : (n k : ℕ) → suc n - suc k ≡ n - k
    minus_suc n k = omega arith

-- What write_safe() is given is written whole, and read_safe() reads it back whole where it asks for
-- that many bytes or more, however write() and read() split it, if no call fails and no write() takes
-- more than it is given.
pub read_safe-write_safe :
    (ns ms : List ℕ) (buf : Bytes) (count : ℕ)
    → Takes ns buf
    → length buf ≤ count
    → ((write_safe (map some ns) buf).0 ≡ ok tt)
      × (read_safe (map some ms) (write_safe (map some ns) buf).1 count ≡ (ok (length buf), buf))
read_safe-write_safe ns ms buf count takes le =
    let all = take_all count buf le in
    rw (write_safe_all ns buf takes)
      (refl, read_safe_all ms buf count ∙ ap (λ l. (ok (length l), l)) all)

-- run_clipserve(). fork() is a parameter: `none` where it fails, and whether this is the child. The
-- parent returns; the child becomes the program with these arguments.
unfoldable pub run_clipserve : Option Bool → ℕ → Outcome (Option (List Bytes))
run_clipserve none hash = abort
run_clipserve (some false) hash = ok none
run_clipserve (some true) hash = ok (some (codes "clipserve" ∷ uint64_to_str hash ∷ []))
