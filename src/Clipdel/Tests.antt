-- ===== src/Clipdel/Tests.antt =====
-- A run of clipdel on a store of two clips.
use clipmenu.Prelude.{false, ◌≡◌, refl, inl, some, [], ◌∷◌, length, ◌==◌, Bool, Option}
use clipmenu.Text.{Bytes, first_line, line_at}
use clipmenu.Machine.{SnipFile, ClipStore, ok}
use clipmenu.Store.State.{Dir, sys}
use clipmenu.Store.Clips.{Represents}
use clipmenu.Store.Clips.Tests.{ab, cc_text, two, two_file, two_dir, two_cs, two-Represents}
use clipmenu.Clipdel.{ClipdelState, main}
use clipmenu.Clipdel.Deletes.{main_lem}

-- A pattern matches the lines of its own length.
abbrev by_length : Bytes → Option (Bytes → Bool)
by_length pattern = some (λ line. length line == length pattern)

main_lem_example :
    (f' : SnipFile) × (d' : Dir) × (state : ClipdelState) × (c' : ClipStore) × (main by_length 5 6
        (b'd' ∷ [])
        (some (46 ∷ []))
        (sys two_file two_dir false two_cs)
      ≡ (ok state, sys f' d' false c'))
    × Represents (ab ∷ []) f' d'
    × (state.printed ≡ cc_text ∷ [])
unfolding first_line line_at
main_lem_example =
    main_lem by_length 5 6 (b'd' ∷ []) (46 ∷ []) (λ line. length line == 1) two two_file two_dir
      two_cs two-Represents (inl refl, tt) refl
