-- ===== src/Config/Convert.antt =====
-- The conversion of numbers in src/config.c.
use clipmenu.Prelude.{ℕ, ◌≤◌, ◌≡◌, Bool, false, Option, none, some, [], ◌∷◌, ◌++◌, arith}
use clipmenu.Text.{Bytes}
use clipmenu.Util.{uint64_to_str, strtoull}
use clipmenu.Util.Decimal.{blanks, strtoull-blanks, read_all, decimal, nonempty}
use clipmenu.Config.{int_max, checked_int, convert_positive_int}

checked_int-le : (o : Option (Bool × ℕ × Bytes)) (n : ℕ) → checked_int o ≡ some n → n ≤ int_max
unfolding checked_int
checked_int-le none n h = cc
checked_int-le (some (negative, val, [])) n h = ground arith
checked_int-le (some (negative, val, c ∷ rest)) n h = cc

-- What convert_positive_int() accepts fits an int; and it reads each number that does as
-- uint64_to_str() prints it, with any blanks in front.
pub convert_positive_int_lem :
    (n : ℕ)
    → ((str : Bytes) → convert_positive_int str ≡ some n → n ≤ int_max)
      × (n ≤ int_max → (k : ℕ) → convert_positive_int (blanks k ++ uint64_to_str n) ≡ some n)
unfolding convert_positive_int
convert_positive_int_lem n = (
  λ str h. checked_int-le (strtoull str) n h,
  λ le k.
      rw (strtoull-blanks k n (uint64_to_str n) (decimal n) (nonempty n) (read_all n (omega arith)))
        (in_range n le),
)
  where
    in_range : (m : ℕ) → m ≤ int_max → checked_int (some (false, m, [])) ≡ some m
    in_range m le = unfold checked_int in ground arith
