-- ===== src/Text/Salient.antt =====
-- is_salient_text of src/clipmenud.c, and the line that a salient text has.
use clipmenu.Prelude.{◌^◌, ◌≡◌, ◌≢◌, ◌↔◌, true, false, [], ◌∷◌, arith, All, length, ◌<◌}
use clipmenu.Text.{Bytes, isspace, line_at, is_salient_text, first_line, u64_mod}
use clipmenu.Text.FirstLine.{salient_line, skip_newlines, first_line_lem}

-- A text is salient exactly when some byte of it is no white space.
pub not_salient_iff :
    (text : Bytes) → (is_salient_text text ≡ false) ↔ All (λ c. isspace c ≡ true) text
unfolding is_salient_text
not_salient_iff [] = ground arith
not_salient_iff (c ∷ s) = ground (arith, not_salient_iff s)

salient_line-ne-nil : (text : Bytes) → is_salient_text text ≡ true → salient_line text ≢ []
unfolding is_salient_text line_at
salient_line-ne-nil [] h = cc
salient_line-ne-nil (c ∷ s) h = ground (arith, salient_line-ne-nil s)

-- The line of a text that is_salient_text() accepts is not empty.
pub first_line_of_salient :
    (text : Bytes)
    → length text < u64_mod
    → length (line_at (skip_newlines text)) < 2 ^ 31
    → is_salient_text text ≡ true
    → (first_line text).1 ≢ []
first_line_of_salient text h short salient =
    rw (first_line_lem text h short) (salient_line-ne-nil text salient)
