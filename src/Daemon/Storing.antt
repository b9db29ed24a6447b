-- ===== src/Daemon/Storing.antt =====
-- store_clip, maybe_trim and handle_property_notify of src/clipmenud.c against the list of the stored
-- texts.
use clipmenu.Prelude.{
  ℕ, ◌+◌, ◌-◌, ◌≤◌, ◌<◌, ◌≡◌, refl, ap, subst, ◌≢◌, ◌⊎◌, inl, inr, Bool, true, false, ◌&&◌, some,
  List, [], ◌∷◌, ◌++◌, append-nil, arith, ltb, if◌then◌else◌, not-ltb→le, Bool-cases, length,
}
use mathlib.Core.List.{cons-ne-nil}
use clipmenu.Text.{Bytes, djb64_hash, is_salient_text}
use clipmenu.Machine.{SnipFile, ClipStore, Sys, ok, abort}
use clipmenu.Store.State.{Dir, sys, IsIdle}
use clipmenu.Store.Guard.{Returns}
use clipmenu.Store.Snips.{newest_first}
use clipmenu.Store.Clips.{Represents, NoCollision, max_clips}
use clipmenu.Store.Clips.Add.{cs_add_lem, cs_len_lem}
use clipmenu.Store.Clips.Replace.{cs_replace_lem, cs_replace_range}
use clipmenu.Store.Clips.Trim.{newest, length-drop, cs_trim_lem}
use clipmenu.Store.Clips.Shelves.{All-left}
use clipmenu.Daemon.Selections.{
  Selection, Atoms, all_selections, find_atom, storage_atom_to_selection_type,
}
use clipmenu.Daemon.{Config, Daemon}
use clipmenu.Daemon.Handlers.{
  int_gt, maybe_trim, is_partial_of_last, store_clip, own_selection, handle_text,
  handle_property_notify,
}

-- All texts but the newest.
abbrev pub but_last : List Bytes → List Bytes
but_last [] = []
but_last (t ∷ []) = []
but_last (t ∷ u ∷ ts) = t ∷ but_last (u ∷ ts)

-- The texts after one more: it takes the place of the newest, or stands behind it.
abbrev pub stored : Bool → Bytes → List Bytes → List Bytes
stored partial text ts = if partial then but_last ts ++ (text ∷ []) else ts ++ (text ∷ [])

-- The texts after maybe_trim().
abbrev pub limited : Config → List Bytes → List Bytes
limited cfg ts = if ltb cfg.max_clips_batch (length ts) then newest cfg.max_clips ts else ts

int_gt_lem : (n batch : ℕ) → n < max_clips → int_gt n batch ≡ ltb batch n
int_gt_lem n batch h = ground arith

-- maybe_trim() keeps all the texts, or the max_clips newest if there are more than max_clips_batch.
pub maybe_trim_lem :
    (cfg : Config) (ts : List Bytes) (f : SnipFile) (d : Dir) (c : ClipStore)
    → Represents ts f d
    → IsIdle c
    → (f' : SnipFile) × (d' : Dir) × Returns (maybe_trim cfg) f d c tt f' d'
      × Represents (limited cfg ts) f' d'
unfolding maybe_trim
maybe_trim_lem cfg ts f d c r i =
    let (c₁, counted, idle) = cs_len_lem ts f d c r i in
    let same = int_gt_lem (length ts) cfg.max_clips_batch r.few in
    elim (Bool-cases (ltb cfg.max_clips_batch (length ts))) [
      | inl e ↦
          let (f', d', (c', ran, idle'), r', _) =
            cs_trim_lem newest_first cfg.max_clips ts f d c₁ r idle in
          rw e (f', d', (c', rw (counted, same, e, ran), idle'), r')
      | inr e ↦ rw e (f, d, (c₁, rw (counted, same, e), idle), r)
    ]

last_split : (ts : List Bytes) → ts ≢ [] → (o : Bytes) × (ts ≡ but_last ts ++ (o ∷ []))
last_split [] ne = absurd (ne refl)
last_split (t ∷ []) ne = (t, refl)
last_split (t ∷ u ∷ ts) ne =
    let (o, e) = last_split (u ∷ ts) (cons-ne-nil u ts) in (o, ap (λ l. t ∷ l) e)

module _ (text : Bytes) (now : ℕ) (ts : List Bytes) (f : SnipFile) (d : Dir) (c : ClipStore)
    (r : Represents ts f d) (i : IsIdle c) where
  -- The daemon with this store; `s` gives the rest of its state.
  abbrev pub holding : Sys → Daemon → Daemon
  holding t s = record s { store = t }

  abbrev pub remembers : Daemon → Daemon
  remembers s = record s { last_text = some text; last_text_time = now }

  abbrev pub partial_of_last : Daemon → Bool
  partial_of_last s = is_partial_of_last s.last_text s.last_text_time now text

  -- store_clip() replaces the newest text if the new one is a partial of the last and came at most
  -- two seconds after it, and otherwise adds it; it returns the hash, and remembers the text.
  pub store_clip_lem :
      (s : Daemon)
      → length ts + 1 < max_clips
      → NoCollision text ts
      → (partial_of_last s ≡ true → ts ≢ [])
      → (f' : SnipFile) × (d' : Dir) × (c' : ClipStore) × (store_clip text now
            (holding (sys f d false c) s)
          ≡ (ok (djb64_hash text), remembers (holding (sys f' d' false c') s)))
        × IsIdle c'
        × Represents (stored (partial_of_last s) text ts) f' d'
  unfolding store_clip
  store_clip_lem s few free some_text = elim (Bool-cases (partial_of_last s)) [
    | inl e ↦
        let (o, split) = last_split ts (some_text e) in
        let (f', d', (c', ran, idle), r') =
          cs_replace_lem newest_first 0 (but_last ts) [] o text f d c
            (subst (λ l. Represents l f d) split r) i refl
            (rw append-nil
              (All-left _ (but_last ts) (o ∷ []) (subst (NoCollision text) split free))) in
        (f', d', c', rw (e, ran), idle, rw e r')
    | inr e ↦
        let (f', d', (c', ran, idle), r') = cs_add_lem ts text f d c r i few free in
        (f', d', c', rw (e, ran), idle, rw e r')
  ]

  -- run_clipserve() where the selection is to be owned.
  abbrev pub served : Config → Selection → Daemon → Daemon
  served cfg sel s =
      if cfg.owned sel && cfg.own_clipboard
      then record s { serving = djb64_hash text ∷ s.serving }
      else s

  own_selection_lem :
      (cfg : Config) (sels : Atoms) (atom : ℕ) (sel : Selection) (s : Daemon)
      → find_atom sels.storage atom all_selections ≡ some sel
      → own_selection cfg sels atom (djb64_hash text) s ≡ (ok tt, served cfg sel s)
  unfolding own_selection storage_atom_to_selection_type
  own_selection_lem cfg sels atom sel s e = rw e (ground arith)

  -- A salient text in the storage of a watched selection is stored, the store is trimmed, and the
  -- clipboard is taken over if the selection is to be owned.
  pub handle_property_notify_stores :
      (cfg : Config) (sels : Atoms) (atom : ℕ) (sel : Selection) (s : Daemon)
      → find_atom sels.storage atom all_selections ≡ some sel
      → is_salient_text text ≡ true
      → length ts + 1 < max_clips
      → NoCollision text ts
      → (partial_of_last s ≡ true → ts ≢ [])
      → (f' : SnipFile) × (d' : Dir) × (c' : ClipStore) × (handle_property_notify cfg sels atom true
            (some text)
            now
            (holding (sys f d false c) s)
          ≡ (ok tt, served cfg sel (remembers (holding (sys f' d' false c') s))))
        × IsIdle c'
        × Represents (limited cfg (stored (partial_of_last s) text ts)) f' d'
  unfolding handle_property_notify handle_text
  handle_property_notify_stores cfg sels atom sel s found salient few free some_text =
      let (f₁, d₁, c₁, kept, idle, r₁) = store_clip_lem s few free some_text in
      let (f', d', (c', trimmed, idle'), r') = maybe_trim_lem cfg _ f₁ d₁ c₁ r₁ idle in
      (
        f',
        d',
        c',
        rw (found, salient, kept, trimmed)
            (own_selection_lem cfg sels atom sel (remembers (holding (sys f' d' false c') s))
              found),
        idle',
        r',
      )

  -- A partial of the last text, where nothing is stored any more, ends the daemon.
  pub store_clip_aborts :
      (s : Daemon)
      → ts ≡ []
      → partial_of_last s ≡ true
      → (store_clip text now (holding (sys f d false c) s)).0 ≡ abort
  unfolding store_clip
  store_clip_aborts s e partial =
      let (c', refused, idle) =
        cs_replace_range newest_first 0 text [] ts f d c r i (omega (arith, ap length e)) in
      rw (partial, refused)

-- After maybe_trim() there are at most max_clips_batch texts, or at most max_clips.
pub limited_bound :
    (cfg : Config) (ts : List Bytes)
    → (length (limited cfg ts) ≤ cfg.max_clips_batch) ⊎ (length (limited cfg ts) ≤ cfg.max_clips)
limited_bound cfg ts = elim (Bool-cases (ltb cfg.max_clips_batch (length ts))) [
  | inl e ↦ inr (rw e (newest-le cfg.max_clips ts))
  | inr e ↦ inl (rw e (not-ltb→le _ _ e))
]
  where
    newest-le : (n : ℕ) (us : List Bytes) → length (newest n us) ≤ n
    newest-le n us = omega (arith, length-drop (length us - n) us)
