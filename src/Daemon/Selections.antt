-- ===== src/Daemon/Selections.antt =====
-- src/config.h and src/config.c: the selections and their atoms. XInternAtom() is a parameter.
use clipmenu.Prelude.{ℕ, Option, none, some, List, [], ◌∷◌, ◌==◌, if◌then◌else◌}
use clipmenu.Text.{Bytes, codes}
use clipmenu.Machine.{Outcome, ok, abort}

-- enum selection_type
pub data Selection : Type 0 where
  clipboard primary secondary : Selection

abbrev pub all_selections : List Selection
all_selections = clipboard ∷ primary ∷ secondary ∷ []

-- struct cm_selections, for each selection.
pub record Atoms : Type 0 where
  pub selection : Selection → ℕ
  pub storage : Selection → ℕ

-- XA_PRIMARY and XA_SECONDARY
abbrev pub xa_primary : ℕ
xa_primary = 1

abbrev pub xa_secondary : ℕ
xa_secondary = 2

module _ (intern_atom : Bytes → ℕ) where
  selection_atom : Selection → ℕ
  selection_atom clipboard = intern_atom (codes "CLIPBOARD")
  selection_atom primary = xa_primary
  selection_atom secondary = xa_secondary

  storage_atom : Selection → ℕ
  storage_atom clipboard = intern_atom (codes "CLIPMENUD_CUR_CLIPBOARD")
  storage_atom primary = intern_atom (codes "CLIPMENUD_CUR_PRIMARY")
  storage_atom secondary = intern_atom (codes "CLIPMENUD_CUR_SECONDARY")

  unfoldable pub setup_selections : Atoms
  unfolding selection_atom storage_atom
  setup_selections = record { selection = selection_atom; storage = storage_atom }

-- The first selection whose atom this is.
abbrev pub find_atom : (Selection → ℕ) → ℕ → List Selection → Option Selection
find_atom atoms atom [] = none
find_atom atoms atom (sel ∷ sels) =
    if atoms sel == atom then some sel else find_atom atoms atom sels

-- die("Unreachable\n")
abbrev pub or_die : {A : Type 0} → Option A → Outcome A
or_die none = abort
or_die (some a) = ok a

unfoldable pub selection_atom_to_selection_type : ℕ → Atoms → Outcome Selection
selection_atom_to_selection_type atom sels = or_die (find_atom sels.selection atom all_selections)

unfoldable pub storage_atom_to_selection_type : ℕ → Atoms → Outcome Selection
storage_atom_to_selection_type atom sels = or_die (find_atom sels.storage atom all_selections)
