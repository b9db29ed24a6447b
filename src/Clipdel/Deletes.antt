-- ===== src/Clipdel/Deletes.antt =====
-- What clipdel prints and deletes.
use clipmenu.Prelude.{
  ℕ, ◌≡◌, refl, sym, ◌∙◌, subst, ◌⊎◌, Bool, true, false, not, ◌||◌, Option, some, List, [], ◌∷◌,
  ◌++◌, map, append_assoc, append-nil, arith, ◌==◌, if◌then◌else◌, All,
}
use clipmenu.Text.{Bytes}
use clipmenu.Machine.{SnipFile, ClipStore, ok}
use clipmenu.Store.State.{Dir, sys}
use clipmenu.Store.Snips.{oldest_first}
use clipmenu.Store.Clips.{Represents}
use clipmenu.Store.Clips.Kept.{stored_line, keep, private_left}
use clipmenu.Store.Clips.Remove.{cs_remove_keeps}
use clipmenu.Store.Clips.Start.{destroyed, cs_init_reopen}
use clipmenu.Store.Lock.{cs_init, drop_cs_destroy}
use clipmenu.Machine.Calls.{munmap}
use clipmenu.Store.Ops.{cs_remove}
use clipmenu.Clipdel.{
  DeleteMode, delete_dry_run, delete_real, ClipdelState, is_real, remove_if_rgx_match, read_options,
  initial, main,
}

-- The texts that a test picks, and the others.
abbrev pub picked : (Bytes → Bool) → List Bytes → List Bytes
picked test [] = []
picked test (t ∷ ts) = if test t then t ∷ picked test ts else picked test ts

abbrev pub others : (Bytes → Bool) → List Bytes → List Bytes
others test [] = []
others test (t ∷ ts) = if test t then others test ts else t ∷ others test ts

-- Is the text to go, by its line?
abbrev pub wanted : (Bytes → Bool) → Bool → Bytes → Bool
wanted rgx invert t = if invert then not (rgx (stored_line t)) else rgx (stored_line t)

module _ (rgx : Bytes → Bool) where
  keep-dry :
      (invert : Bool) (out : List Bytes) (ts : List Bytes)
      → keep
          (remove_if_rgx_match rgx)
          (record { mode = delete_dry_run; invert_match = invert; printed = out })
          ts
        ≡ ts
  unfolding remove_if_rgx_match
  keep-dry invert out [] = refl
  keep-dry invert out (t ∷ ts) =
      ground (arith, keep-dry invert out ts, keep-dry invert (out ++ (stored_line t ∷ [])) ts)

  keep-real :
      (invert : Bool) (out : List Bytes) (ts : List Bytes)
      → keep
          (remove_if_rgx_match rgx)
          (record { mode = delete_real; invert_match = invert; printed = out })
          ts
        ≡ others (wanted rgx invert) ts
  unfolding remove_if_rgx_match
  keep-real invert out [] = refl
  keep-real invert out (t ∷ ts) =
      ground (arith, keep-real invert out ts, keep-real invert (out ++ (stored_line t ∷ [])) ts)

  printed-private :
      (mode : DeleteMode) (invert : Bool) (out : List Bytes) (ts : List Bytes)
      → (private_left
          (remove_if_rgx_match rgx)
          (record { mode = mode; invert_match = invert; printed = out })
          ts).printed
        ≡ out ++ map stored_line (picked (wanted rgx invert) ts)
  unfolding remove_if_rgx_match
  printed-private mode invert out [] = sym (append-nil out)
  printed-private mode invert out (t ∷ ts) = ground (
    arith,
    printed-private mode invert out ts,
    printed-private mode invert (out ++ (stored_line t ∷ [])) ts,
    append_assoc out (stored_line t ∷ []) (map stored_line (picked (wanted rgx invert) ts)),
  )

  keep-mode :
      (mode : DeleteMode) (invert : Bool) (out : List Bytes) (ts : List Bytes)
      → keep
          (remove_if_rgx_match rgx)
          (record { mode = mode; invert_match = invert; printed = out })
          ts
        ≡ (if is_real mode then others (wanted rgx invert) ts else ts)
  keep-mode delete_dry_run invert out ts = keep-dry invert out ts
  keep-mode delete_real invert out ts = keep-real invert out ts

abbrev pub given_option : ℕ → List ℕ → Bool
given_option o [] = false
given_option o (opt ∷ opts) = opt == o || given_option o opts

abbrev pub KnownOptions : List ℕ → Type 0
KnownOptions = All (λ opt. (opt ≡ b'd') ⊎ (opt ≡ b'v'))

read_options_lem :
    (opts : List ℕ) (state : ClipdelState)
    → KnownOptions opts
    → read_options opts state
      ≡ some (record {
        mode = if given_option b'd' opts then delete_real else state.mode;
        invert_match = given_option b'v' opts || state.invert_match;
        printed = state.printed;
      })
unfolding read_options
read_options_lem [] state known = refl
read_options_lem (opt ∷ opts) state known = ground (
  arith,
  read_options_lem opts (record state { mode = delete_real }),
  read_options_lem opts (record state { invert_match = true }),
)

or_false : (b : Bool) → (b || false) ≡ b
or_false true = refl
or_false false = refl

mode_of : Bool → DeleteMode
mode_of b = if b then delete_real else delete_dry_run

is_real-mode_of : (b : Bool) → is_real (mode_of b) ≡ b
unfolding mode_of
is_real-mode_of true = refl
is_real-mode_of false = refl

module _ (regcomp : Bytes → Option (Bytes → Bool)) (snip_fd content_dir_fd : ℕ) (opts : List ℕ)
    (pattern : Bytes) (rgx : Bytes → Bool) where
  abbrev pub wants : Bytes → Bool
  wants = wanted rgx (given_option b'v' opts)

  -- The texts that are left.
  abbrev pub remaining : List Bytes → List Bytes
  remaining ts = if given_option b'd' opts then others wants ts else ts

  abbrev end_state : List Bytes → ClipdelState
  end_state ts =
      private_left (remove_if_rgx_match rgx)
        (record {
          mode = mode_of (given_option b'd' opts);
          invert_match = given_option b'v' opts;
          printed = [];
        })
        ts

  runs :
      (ts : List Bytes) (f : SnipFile) (d : Dir) (c c₁ : ClipStore) (q : ClipdelState)
      (f' : SnipFile) (d' : Dir) (c' : ClipStore)
      → KnownOptions opts
      → regcomp pattern ≡ some rgx
      → cs_init snip_fd content_dir_fd (sys f d false c) ≡ (ok tt, sys f d false c₁)
      → cs_remove
          (remove_if_rgx_match rgx)
          oldest_first
          (record {
            mode = mode_of (given_option b'd' opts);
            invert_match = given_option b'v' opts;
            printed = [];
          })
          (sys f d false c₁)
        ≡ (ok q, sys f' d' false c')
      → main regcomp snip_fd content_dir_fd opts (some pattern) (sys f d false c)
        ≡ (ok q, sys f' d' false (destroyed c'))
  unfolding main mode_of drop_cs_destroy munmap
  runs ts f d c c₁ q f' d' c' known comp started ran =
      rw
        (read_options_lem opts initial known, or_false (given_option b'v' opts), started, comp, ran)

  -- clipdel prints the lines that match, or with -v those that do not, oldest first, and deletes the
  -- clips with these lines if -d is given, and none otherwise.
  pub main_lem :
      (ts : List Bytes) (f : SnipFile) (d : Dir) (c : ClipStore)
      → Represents ts f d
      → KnownOptions opts
      → regcomp pattern ≡ some rgx
      → (f' : SnipFile) × (d' : Dir) × (state : ClipdelState) × (c' : ClipStore) × (main regcomp
            snip_fd content_dir_fd opts
            (some pattern)
            (sys f d false c)
          ≡ (ok state, sys f' d' false c'))
        × Represents (remaining ts) f' d'
        × (state.printed ≡ map stored_line (picked wants ts))
  unfolding main
  main_lem ts f d c r known comp =
      let (c₁, started, idle) = cs_init_reopen snip_fd content_dir_fd f d c ts r in
      let start : ClipdelState = record {
        mode = mode_of (given_option b'd' opts);
        invert_match = given_option b'v' opts;
        printed = [];
      } in
      let (f', d', (c', ran, idle'), r', _) =
        cs_remove_keeps (remove_if_rgx_match rgx) oldest_first start ts f d c₁ r idle in
      (
        f',
        d',
        end_state ts,
        destroyed c',
        runs ts f d c c₁ _ f' d' c' known comp started ran,
        subst (λ l. Represents l f' d') (kept ts) r',
        printed-private rgx (mode_of (given_option b'd' opts)) (given_option b'v' opts) [] ts,
      )
    where
      kept :
          (us : List Bytes)
          → keep
              (remove_if_rgx_match rgx)
              (record {
                mode = mode_of (given_option b'd' opts);
                invert_match = given_option b'v' opts;
                printed = [];
              })
              us
            ≡ remaining us
      kept us =
          keep-mode rgx (mode_of (given_option b'd' opts)) (given_option b'v' opts) [] us
          ∙ rw (is_real-mode_of (given_option b'd' opts))
