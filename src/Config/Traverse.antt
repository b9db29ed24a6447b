-- ===== src/Config/Traverse.antt =====
-- The passes of src/config.c over the table, each as a step that every entry makes for itself.
use clipmenu.Prelude.{
  ◌≡◌, refl, sym, ap, ◌∙◌, subst, inl, inr, Bool, true, false, not, ◌&&◌, Option, none, some, List,
  [], ◌∷◌, map, arith, if◌then◌else◌, Bool-cases, set, All,
}
use clipmenu.Text.{Bytes, streq}
use clipmenu.Text.Partial.{streq_iff}
use clipmenu.Config.{
  bind, Value, ConfigEntry, with_value, for_entries, key_value, parse_pair, with_pair, parse_line,
  config_parse_file,
}

abbrev pub Step : Type 0
Step = ConfigEntry → Option ConfigEntry

bind-none :
    (o : Option ConfigEntry) → bind {A = ConfigEntry} {B = List ConfigEntry} o (λ e. none) ≡ none
bind-none none = refl
bind-none (some e) = refl

bind-for_entries :
    (g : Step) (o : Option ConfigEntry) (t r : Option (List ConfigEntry))
    → bind t (for_entries g) ≡ r
    → bind (bind o (λ e. bind t (λ es. some (e ∷ es)))) (for_entries g)
      ≡ bind (bind o g) (λ e. bind r (λ es. some (e ∷ es)))
bind-for_entries g none t r h = refl
bind-for_entries g (some e) none r h = rw (sym h) (sym (bind-none (g e)))
bind-for_entries g (some e) (some es) r h = rw h

-- Two passes are one pass whose step does both.
pub for_entries-bind :
    (f g : Step) (es : List ConfigEntry)
    → bind (for_entries f es) (for_entries g) ≡ for_entries (λ e. bind (f e) g) es
for_entries-bind f g [] = refl
for_entries-bind f g (e ∷ es) =
    bind-for_entries g (f e) (for_entries f es) _ (for_entries-bind f g es)

pub for_entries_same :
    (f g : Step) (P : ConfigEntry → Type 0) (es : List ConfigEntry)
    → ((e : ConfigEntry) → P e → f e ≡ g e)
    → All P es
    → for_entries f es ≡ for_entries g es
for_entries_same f g P [] same h = refl
for_entries_same f g P (e ∷ es) same h = rw (same e h.0, for_entries_same f g P es same h.1)

for_entries_kept :
    (f : Step) (es : List ConfigEntry) → All (λ e. f e ≡ some e) es → for_entries f es ≡ some es
for_entries_kept f [] h = refl
for_entries_kept f (e ∷ es) h = rw (h.0, for_entries_kept f es h.1)

abbrev pub keys : List ConfigEntry → List Bytes
keys es = map (λ e. e.config_key) es

-- No two of these keys are the same.
abbrev pub Distinct : List Bytes → Type 0
Distinct [] = Unit
Distinct (k ∷ ks) = All (λ k'. streq k' k ≡ false) ks × Distinct ks

-- What a line with this key and value does to an entry.
unfoldable pub pair_step : Bytes → Bytes → Step
pair_step key value e =
    if not e.is_set && streq e.config_key key
    then with_value true (e.convert (some value)) e
    else some e

others_keep :
    (key value : Bytes) (e : ConfigEntry) (es : List ConfigEntry)
    → streq e.config_key key ≡ true
    → All (λ k. streq k e.config_key ≡ false) (keys es)
    → All (λ e'. pair_step key value e' ≡ some e') es
unfolding pair_step
others_keep key value e [] same h = tt
others_keep key value e (e' ∷ es) same h = (
  ground
      (arith, subst (λ k. streq e'.config_key k ≡ false) ((streq_iff e.config_key key).0 same) h.0),
  others_keep key value e es same h.1,
)

parse_pair-for_entries :
    (key value : Bytes) (es : List ConfigEntry)
    → Distinct (keys es)
    → parse_pair key value es ≡ for_entries (pair_step key value) es
unfolding parse_pair pair_step
parse_pair-for_entries key value [] h = refl
parse_pair-for_entries key value (e ∷ es) h =
    elim (Bool-cases (not e.is_set && streq e.config_key key)) [
      | inl t ↦ rw t (
          rw (
            for_entries_kept (pair_step key value) es
              (others_keep key value e es (ground arith) h.0)))
      | inr t ↦ rw (t, parse_pair-for_entries key value es h.1)
    ]

-- What a line, and what all the lines of the file do to an entry.
abbrev pub line_step : Option (Bytes × Bytes) → Step
line_step none e = some e
line_step (some (key, value)) e = pair_step key value e

abbrev pub lines_step : List Bytes → Step
lines_step [] e = some e
lines_step (line ∷ lines) e = bind (line_step (key_value line) e) (lines_step lines)

abbrev pub KeepsKey : Step → Type 0
KeepsKey f = (e e' : ConfigEntry) → f e ≡ some e' → e'.config_key ≡ e.config_key

pub some_inj : {A : Type 0} (a b : A) → some a ≡ some b → a ≡ b
some_inj a b h = cc

pub with_value-KeepsKey : (set : Bool) (v : Option Value) → KeepsKey (with_value set v)
with_value-KeepsKey set none e e' h = cc
with_value-KeepsKey set (some v) e e' h = ap (λ x. x.config_key) (sym (some_inj _ e' h))

pair_step-KeepsKey : (key value : Bytes) → KeepsKey (pair_step key value)
unfolding pair_step
pair_step-KeepsKey key value e e' h = elim (Bool-cases (not e.is_set && streq e.config_key key)) [
  | inl t ↦ with_value-KeepsKey true (e.convert (some value)) e e' (rw t at h)
  | inr t ↦ ap (λ x. x.config_key) (sym (some_inj e e' (rw t at h)))
]

line_step-KeepsKey : (pair : Option (Bytes × Bytes)) → KeepsKey (line_step pair)
line_step-KeepsKey none e e' h = ap (λ x. x.config_key) (sym (some_inj e e' h))
line_step-KeepsKey (some (key, value)) e e' h = pair_step-KeepsKey key value e e' h

pub keys_kept :
    (f : Step) (es fs : List ConfigEntry)
    → KeepsKey f
    → for_entries f es ≡ some fs
    → keys fs ≡ keys es
keys_kept f [] fs keeps h = ap keys (sym (some_inj [] fs h))
keys_kept f (e ∷ es) fs keeps h =
    through (f e) (for_entries f es) refl (λ gs. keys_kept f es gs keeps) h
  where
    through :
        (o : Option ConfigEntry) (t : Option (List ConfigEntry))
        → f e ≡ o
        → ((gs : List ConfigEntry) → t ≡ some gs → keys gs ≡ keys es)
        → bind o (λ e'. bind t (λ es'. some (e' ∷ es'))) ≡ some fs
        → keys fs ≡ keys (e ∷ es)
    through none t at_f rest h' = cc
    through (some e') none at_f rest h' = cc
    through (some e') (some gs) at_f rest h' =
        ap keys (sym (some_inj (e' ∷ gs) fs h'))
        ∙ ap (λ k. k ∷ keys gs) (keeps e e' at_f)
        ∙ ap (λ ks. e.config_key ∷ ks) (rest gs refl)

parse_line-for_entries :
    (line : Bytes) (es : List ConfigEntry)
    → Distinct (keys es)
    → parse_line line es ≡ for_entries (line_step (key_value line)) es
unfolding parse_line
parse_line-for_entries line es h = by_pair (key_value line)
  where
    by_pair : (pair : Option (Bytes × Bytes)) → with_pair pair es ≡ for_entries (line_step pair) es
    by_pair none = sym (for_entries_kept (line_step none) es (all_same es))
      where
        all_same : (fs : List ConfigEntry) → All (λ e. line_step none e ≡ some e) fs
        all_same [] = tt
        all_same (e ∷ fs) = (refl, all_same fs)
    by_pair (some (key, value)) = parse_pair-for_entries key value es h

pub bind_same :
    (o : Option (List ConfigEntry)) (f g : List ConfigEntry → Option (List ConfigEntry))
    → ((es : List ConfigEntry) → o ≡ some es → f es ≡ g es)
    → bind o f ≡ bind o g
bind_same none f g same = refl
bind_same (some es) f g same = same es refl

-- Reading the file is one pass over the table, if its keys differ.
pub config_parse_file-for_entries :
    (lines : List Bytes) (es : List ConfigEntry)
    → Distinct (keys es)
    → config_parse_file lines es ≡ for_entries (lines_step lines) es
unfolding config_parse_file
config_parse_file-for_entries [] es h = sym (for_entries_kept (lines_step []) es (all_same es))
  where
    all_same : (fs : List ConfigEntry) → All (λ e. lines_step [] e ≡ some e) fs
    all_same [] = tt
    all_same (e ∷ fs) = (refl, all_same fs)
config_parse_file-for_entries (line ∷ lines) es h =
    let step = line_step (key_value line) in
    rw (parse_line-for_entries line es h) (
      bind_same (for_entries step es) (config_parse_file lines) (for_entries (lines_step lines))
        (λ fs e.
          config_parse_file-for_entries lines fs
            (subst Distinct (sym (keys_kept step es fs (line_step-KeepsKey (key_value line)) e)) h))
      ∙ for_entries-bind step (lines_step lines) es)
