-- ===== src/Clipmenu/Arguments.antt =====
-- exec_launcher of src/clipmenu.c: which arguments the launcher gets.
use clipmenu.Prelude.{
  ℕ, zero, suc, ◌+◌, ◌-◌, ◌≤◌, ◌<◌, ◌≡◌, refl, sym, ap, ◌∙◌, Bool, true, false, List, [], ◌∷◌, ◌++◌,
  append-nil, arith, if◌then◌else◌, length, take, drop, length-take_le,
}
use clipmenu.Text.{Bytes}
use clipmenu.Clipmenu.{
  Launcher, launcher_rofi, launcher_custom, max_args, dmenu_args, launcher_command, user_args,
  exec_launcher,
}

user_args-take :
    (room d_i : ℕ) (args : List Bytes)
    → room ≡ max_args - 1 - d_i
    → user_args d_i args ≡ take room args
unfolding user_args
user_args-take zero d_i [] e = refl
user_args-take (suc room) d_i [] e = refl
user_args-take zero d_i (arg ∷ args) e = ground arith
user_args-take (suc room) d_i (arg ∷ args) e = ground (arith, user_args-take room (d_i + 1) args)

take-append_over :
    (n : ℕ) (xs ys : List Bytes) → length xs ≤ n → take n (xs ++ ys) ≡ xs ++ take (n - length xs) ys
take-append_over n [] ys le = ap (λ k. take k ys) (minus_zero n)
  where
    minus_zero : (k : ℕ) → k ≡ k - 0
    minus_zero k = omega arith
take-append_over zero (x ∷ xs) ys le = absurd (omega arith)
take-append_over (suc n) (x ∷ xs) ys le =
    ap (λ l. x ∷ l)
      (take-append_over n xs ys (omega arith) ∙ ap (λ k. xs ++ take k ys) (minus_suc n (length xs)))
  where
    minus_suc : (a b : ℕ) → a - b ≡ suc a - suc b
    minus_suc a b = omega arith

-- The launcher's own words, with those for dmenu if they are wanted.
abbrev pub own_words : Launcher → Bool → List Bytes
own_words launcher pass = launcher_command launcher ++ (if pass then dmenu_args else [])

words_fit : (launcher : Launcher) (pass : Bool) → length (own_words launcher pass) ≤ 7
words_fit launcher_rofi true = omega arith
words_fit launcher_rofi false = omega arith
words_fit (launcher_custom custom) true = omega arith
words_fit (launcher_custom custom) false = omega arith

words_first :
    (launcher : Launcher) (pass : Bool) (argv : List Bytes)
    → exec_launcher launcher pass argv
      ≡ own_words launcher pass ++ user_args (length (own_words launcher pass)) (drop 1 argv)
unfolding exec_launcher
words_first launcher true argv = refl
words_first launcher false argv = rw append-nil refl

-- The launcher is called with its own words and as many of the user's arguments behind them as the
-- array of 32 has room for with the NULL; the others are dropped.
pub exec_launcher_lem :
    (launcher : Launcher) (pass : Bool) (argv : List Bytes)
    → (exec_launcher launcher pass argv
        ≡ take (max_args - 1) (own_words launcher pass ++ drop 1 argv))
      × (length (exec_launcher launcher pass argv) < max_args)
exec_launcher_lem launcher pass argv =
    let words = own_words launcher pass in
    let cut : exec_launcher launcher pass argv ≡ take 31 (words ++ drop 1 argv) =
      words_first launcher pass argv
      ∙ ap (λ l. words ++ l)
          (user_args-take (max_args - 1 - length words) (length words) (drop 1 argv) refl)
      ∙ sym (take-append_over 31 words (drop 1 argv) (omega (arith, words_fit launcher pass))) in
    (cut, omega (arith, ap length cut, length-take_le 31 (words ++ drop 1 argv)))
