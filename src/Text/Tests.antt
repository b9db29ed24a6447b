-- ===== src/Text/Tests.antt =====
-- Runs of the text functions at concrete inputs, and the theorems about them at such inputs.
use clipmenu.Prelude.{◌≡◌, refl, true, false, ◌↔◌, ◌⊎◌, arith}
use clipmenu.Text.{
  codes, line_at, djb64_hash, first_line, is_possible_partial, is_salient_text, ends_open,
}
use clipmenu.Text.FirstLine.{first_line_lem}
use clipmenu.Text.Partial.{Begins, Ends, is_possible_partial_iff}
use clipmenu.Text.Hash.{djb64_hash_collision}

hash_ez : djb64_hash (codes "Ez") ≡ 5862308
unfolding djb64_hash
hash_ez = refl

hash_fy : djb64_hash (codes "FY") ≡ 5862308
unfolding djb64_hash
hash_fy = refl

first_line_run : first_line (codes "\n\nab\nc") ≡ (4, codes "ab")
unfolding first_line line_at
first_line_run = refl

partial_run : is_possible_partial (codes "bc") (codes "abc") ≡ true
unfolding is_possible_partial
partial_run = refl

salient_run : is_salient_text (codes " \n\t") ≡ false
unfolding is_salient_text
salient_run = refl

first_line_lem_example : first_line (codes "\n\nab\nc") ≡ (4, codes "ab")
unfolding ends_open line_at
first_line_lem_example = first_line_lem (codes "\n\nab\nc") (omega arith) (omega arith)

is_possible_partial_iff_example : (is_possible_partial (codes "bc") (codes "abc") ≡ true) ↔ (
    Begins (codes "bc") (codes "abc")
    ⊎ Ends (codes "bc") (codes "abc")
    ⊎ Begins (codes "abc") (codes "bc")
    ⊎ Ends (codes "abc") (codes "bc"))
is_possible_partial_iff_example = is_possible_partial_iff (codes "bc") (codes "abc")

djb64_hash_collision_example : djb64_hash (codes "xEzy") ≡ djb64_hash (codes "xFYy")
djb64_hash_collision_example = djb64_hash_collision (codes "x") (codes "y") 69 122 (omega arith)
