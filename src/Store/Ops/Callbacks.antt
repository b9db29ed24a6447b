-- ===== src/Store/Ops/Callbacks.antt =====
-- The predicates that src/store.h's cs_remove calls, and what they answer.
use clipmenu.Prelude.{ℕ, bit_and, Bool, not, ◌==◌}
use clipmenu.Text.{Bytes}

-- enum cs_remove_action, a set of bits.
abbrev pub Action : Type 0
Action = ℕ

abbrev pub cs_action_remove : Action
cs_action_remove = 1

abbrev pub cs_action_keep : Action
cs_action_keep = 2

abbrev pub cs_action_stop : Action
cs_action_stop = 4

abbrev pub has_action : Action → Action → Bool
has_action action bit = not (bit_and action bit == 0)

-- should_remove(hash, line, private), with the private data after the call.
abbrev pub Callback : Type 0 → Type 0
Callback P = P → ℕ → Bytes → Action × P
