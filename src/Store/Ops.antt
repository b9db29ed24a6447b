-- ===== src/Store/Ops.antt =====
-- src/store.c: cs_add, cs_remove, cs_trim, cs_replace and cs_len.
pub mod Callbacks
pub mod Sweep
pub mod Loop
pub mod Order
pub mod Compaction
pub mod Visits
pub mod Remove
use clipmenu.Prelude.{
  ℕ, zero, suc, ◌+◌, ◌-◌, ◌*◌, ◌/◌, ◌%◌, ◌^◌, ◌≤◌, ◌<◌, bit_and, ◌≡◌, refl, sym, ap, ◌∙◌, subst,
  fun_ext, ◌≡⟨◌⟩◌, ◌∎, ◌≢◌, ◌↔◌, ◌⊎◌, inl, inr, Bool, true, false, not, ◌&&◌, ◌||◌, Option, none,
  some, List, [], ◌∷◌, ◌++◌, map, append_assoc, append-nil, map-append, reverse, reverse-append,
  reverse-reverse, arith, ltb, leb, ◌==◌, if◌then◌else◌, ltb→lt, not-ltb→le, not-leb→lt, lt→ltb,
  le→not-ltb, le→leb, leb→le, lt→not-leb, ==_iff, ==_refl, Bool-cases, length, get_or, set, take,
  drop, replicate, length-append, get_or-append, set-append, take-append, take-append_le, take_all,
  take-append-drop, length-take_le, length-take_of_le, length-set, length-replicate, split_at, All,
  All-append, length-map, take-map, length-reverse, String,
}
use clipmenu.Text.{Bytes, u64_mod, djb64_hash, first_line}
use clipmenu.Machine.{
  Snip, Header, SnipFile, ClipStore, Sys, Outcome, ok, err, abort, M, ◌>>=◌, ◌>>◌, pure, raise,
  checked, erange,
}
use clipmenu.Machine.Calls.{zero_snip}
use clipmenu.Store.Lock.{with_guard}
use clipmenu.Store.Snips.{
  cs_file_resize, cs_snip_update, set_slot, slot, cs_snip_add, Direction, newest_first,
  oldest_first, Pointer, cs_snip_iter, index_of, cs_snip_remove_doomed,
}
use clipmenu.Store.Content.{cs_content_add, cs_content_remove}
use Callbacks.{Action, cs_action_remove, cs_action_keep, cs_action_stop, has_action, Callback}

-- The result is *out_hash.
unfoldable pub cs_add : Bytes → M ℕ
cs_add content = do
  let hash = djb64_hash content
  let (nr_lines, line) = first_line content
  cs_content_add hash content
  cs_snip_add hash line nr_lines
  pure hash

module _ {P : Type 0} (should_remove : Callback P) where
  abbrev pub doom : ℕ → Sys → Sys
  doom i s = set_slot i (record (slot i s) { doomed = true }) s

  -- The first half of a round: a snip that is to go loses its content and is marked.
  unfoldable pub remove_content : Action → ℕ → M (Unit {0})
  remove_content action i s =
      (if has_action action cs_action_remove
          then (do cs_content_remove (slot i s).hash; λ s'. (ok tt, doom i s'))
          else pure tt)
        s

  -- The loop, on fuel: it visits each snip at most once. The result is `found` with the private data
  -- as the calls leave it; `abort` stands for fuel that ran out.
  unfoldable pub remove_loop : ℕ → Direction → Pointer → P → Bool → M (Bool × P)
  unfolding cs_snip_iter remove_content
  remove_loop zero direction snip private found s = (abort, s)
  remove_loop (suc fuel) direction snip private found s =
      let (more, snip') = cs_snip_iter 0 direction s.file.header.nr_snips snip in
      let i = index_of snip' in
      let (action, private') = should_remove private (slot i s).hash (slot i s).line in
      let found' = found || has_action action cs_action_remove in
      elim more [
        | false ↦ (ok (found, private), s)
        | true ↦
            (do
              remove_content action i
              if has_action action cs_action_stop
                  then pure (found', private')
                  else remove_loop fuel direction snip' private' found')
              s
      ]

abbrev pub resize_after : Option ℕ → M (Unit {0})
resize_after none s = (abort, s)
resize_after (some nr_doomed) s =
    cs_file_resize ((s.file.header.nr_snips + u64_mod - nr_doomed) % u64_mod) s

-- cs_snip_remove_doomed(), and the file is cut to what is left.
unfoldable pub compact : M (Unit {0})
compact s = let (nr_doomed, s') = cs_snip_remove_doomed s in resize_after nr_doomed s'

module _ {P : Type 0} (should_remove : Callback P) where
  unfoldable pub remove_snips : Direction → P → M P
  unfolding compact
  remove_snips direction private = do
    r ← λ s. remove_loop should_remove (s.file.header.nr_snips + 1) direction none private false s
    if r.0 then compact else pure tt
    pure r.1

  unfoldable pub cs_remove : Direction → P → M P
  unfolding remove_snips
  cs_remove direction private = with_guard (remove_snips direction private)

unfoldable pub trim_callback : Callback ℕ
trim_callback count hash line =
    if count == 0 then (cs_action_remove, count) else (cs_action_keep, count - 1)

-- The header is read before the lock is taken.
unfoldable pub cs_trim : Direction → ℕ → M (Unit {0})
cs_trim direction nr_keep s =
    (if leb s.file.header.nr_snips nr_keep
        then pure tt
        else (do cs_remove trim_callback direction nr_keep; pure tt))
      s

unfoldable pub replace_index : Direction → ℕ → ℕ → ℕ
replace_index newest_first nr_snips age = nr_snips - age - 1
replace_index oldest_first nr_snips age = age

unfoldable pub replace_at : ℕ → Bytes → M ℕ
replace_at idx content = do
  λ s. cs_content_remove (slot idx s).hash s
  let (nr_lines, line) = first_line content
  let hash = djb64_hash content
  λ s. (ok tt, set_slot idx (cs_snip_update hash line nr_lines) s)
  cs_content_add hash content
  pure hash

unfoldable pub replace_snip : Direction → ℕ → Bytes → M ℕ
unfolding replace_at replace_index
replace_snip direction age content s =
    (if leb s.file.header.nr_snips age
        then raise erange
        else replace_at (replace_index direction s.file.header.nr_snips age) content)
      s

unfoldable pub cs_replace : Direction → ℕ → Bytes → M ℕ
unfolding replace_snip
cs_replace direction age content = with_guard (replace_snip direction age content)

-- The result is *out_len.
unfoldable pub cs_len : M ℕ
cs_len = with_guard (λ s. (ok s.file.header.nr_snips, s))
