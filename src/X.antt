-- ===== src/X.antt =====
-- src/x.c: the title of a window, and the handler of X errors. XInternAtom() and XGetWindowProperty()
-- are parameters; the codes are those of the X protocol.
use clipmenu.Prelude.{
  ℕ, Bool, false, ◌&&◌, ◌||◌, Option, none, some, List, [], ◌∷◌, ◌==◌, if◌then◌else◌, ◌≡◌, refl,
}
use clipmenu.Text.{Bytes, codes}
use clipmenu.Machine.{Outcome, ok, abort}

-- XA_WM_NAME and AnyPropertyType
abbrev pub xa_wm_name : ℕ
xa_wm_name = 39

abbrev pub any_property_type : ℕ
any_property_type = 0

abbrev first_of : Option Bytes → Option Bytes → Option Bytes
first_of none later = later
first_of (some prop) later = some prop

-- `get_property` gives the text of a property of a type, `none` where the call fails or gives no text.
module _ (get_property : ℕ → ℕ → Option Bytes) (utf8_string : ℕ) where
  abbrev title_in : List ℕ → Option Bytes
  title_in [] = none
  title_in (prop ∷ props) =
      first_of (get_property prop (if prop == xa_wm_name then any_property_type else utf8_string))
        (title_in props)

unfoldable pub get_window_title : (Bytes → ℕ) → (ℕ → ℕ → Option Bytes) → Option Bytes
get_window_title intern_atom get_property =
    title_in get_property (intern_atom (codes "UTF8_STRING"))
      (intern_atom (codes "_NET_WM_NAME") ∷ xa_wm_name ∷ [])

abbrev pub bad_window : ℕ
bad_window = 3

abbrev pub bad_match : ℕ
bad_match = 8

abbrev pub bad_drawable : ℕ
bad_drawable = 9

abbrev pub bad_access : ℕ
bad_access = 10

-- The requests X_SetInputFocus, X_PolyText8, X_PolyFillRectangle, X_PolySegment, X_ConfigureWindow,
-- X_GrabButton, X_GrabKey and X_CopyArea, each with the error that is passed over.
abbrev pub expected_errors : List (ℕ × ℕ)
expected_errors =
    (42, bad_match)
    ∷ (74, bad_drawable)
    ∷ (70, bad_drawable)
    ∷ (66, bad_drawable)
    ∷ (12, bad_match)
    ∷ (28, bad_access)
    ∷ (33, bad_access)
    ∷ (62, bad_drawable)
    ∷ []

abbrev is_expected : ℕ → ℕ → List (ℕ × ℕ) → Bool
is_expected request error [] = false
is_expected request error ((r, e) ∷ more) =
    request == r && error == e || is_expected request error more

-- The request and the error code of the event; die() for any other error.
unfoldable pub xerror_handler : ℕ → ℕ → Outcome ℕ
xerror_handler request_code error_code =
    if error_code == bad_window || is_expected request_code error_code expected_errors
    then ok 0
    else abort

closed_window : xerror_handler 20 3 ≡ ok 0
unfolding xerror_handler
closed_window = refl

no_memory : xerror_handler 20 11 ≡ abort
unfolding xerror_handler
no_memory = refl
