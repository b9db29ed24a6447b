-- ===== src/Util/Tests.antt =====
-- Runs of the number functions, and the theorems about them at concrete numbers.
use clipmenu.Prelude.{◌≡◌, refl, arith, none, some, [], ◌∷◌, map}
use clipmenu.Text.{codes, isspace}
use clipmenu.Machine.{ok, err, abort, einval, erange}
use clipmenu.Util.Descriptors.{write_safe, read_safe, read_safe-write_safe}
use clipmenu.Util.{uint64_to_str, str_to_uint64}
use clipmenu.Util.Decimal.{str_to_uint64-uint64_to_str, str_to_uint64-minus}

prints : uint64_to_str 18446744073709551615 ≡ codes "18446744073709551615"
unfolding uint64_to_str
prints = refl

reads_plus : str_to_uint64 (codes "\t+42") ≡ ok 42
unfolding str_to_uint64 isspace
reads_plus = refl

too_large : str_to_uint64 (codes "18446744073709551616") ≡ err erange
unfolding str_to_uint64 isspace
too_large = refl

no_number : str_to_uint64 (codes "4x") ≡ err einval
unfolding str_to_uint64 isspace
no_number = refl

str_to_uint64-uint64_to_str_example : str_to_uint64 (codes "  42") ≡ ok 42
unfolding uint64_to_str
str_to_uint64-uint64_to_str_example = str_to_uint64-uint64_to_str 42 (omega arith) 2

str_to_uint64-minus_example : str_to_uint64 (codes " -5") ≡ ok 18446744073709551611
unfolding uint64_to_str
str_to_uint64-minus_example = str_to_uint64-minus 5 (omega arith) 1 (λ e. absurd (omega (arith, e)))

-- A write that fails, and one that claims to take more than it is given.
write_fails : write_safe (some 1 ∷ none ∷ []) (codes "ab") ≡ (abort, codes "a")
unfolding write_safe
write_fails = refl

too_much : (write_safe (some 3 ∷ []) (codes "ab")).0 ≡ abort
unfolding write_safe
too_much = refl

end_of_file : read_safe (some 0 ∷ some 5 ∷ []) (codes "abc") 9 ≡ (ok 3, codes "abc")
unfolding read_safe
end_of_file = refl

read_safe-write_safe_example :
    ((write_safe (map some (1 ∷ 0 ∷ [])) (codes "abc")).0 ≡ ok tt)
    × (read_safe (map some (1 ∷ [])) (write_safe (map some (1 ∷ 0 ∷ [])) (codes "abc")).1 20
        ≡ (ok 3, codes "abc"))
read_safe-write_safe_example =
    read_safe-write_safe (1 ∷ 0 ∷ []) (1 ∷ []) (codes "abc") 20 (omega arith, (omega arith, tt))
      (omega arith)
