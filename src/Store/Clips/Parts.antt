-- ===== src/Store/Clips/Parts.antt =====
-- Processes that share one clip store and whose additions other processes come between: cs_add of
-- src/store.c stores the content with no lock, and takes the lock only for the snip.
pub mod Interleaving
pub mod Addition
use clipmenu.Prelude.{
  ℕ, suc, ◌+◌, ◌-◌, ◌<◌, ◌≡◌, refl, sym, ap, ◌∙◌, subst, fun_ext, inl, inr, Bool, false, Option,
  none, some, List, [], ◌∷◌, ◌++◌, map, map-append, arith, ◌==◌, if◌then◌else◌, ==_refl, Bool-cases,
  length, length-append, All-append,
}
use clipmenu.Text.{Bytes, djb64_hash, first_line}
use clipmenu.Machine.{SnipFile, ClipStore, Sys, Outcome, ok, err, abort, M, after, pure}
use clipmenu.Store.State.{Dir, sys, IsIdle}
use clipmenu.Store.Snips.{Direction, cs_snip_add}
use clipmenu.Store.Snips.Resize.{max_snips}
use clipmenu.Store.Snips.Add.{added, added-IsValid, live-added, cs_snip_add_lem}
use clipmenu.Store.Content.{cs_content_add}
use clipmenu.Store.Ops.Callbacks.{Action, Callback}
use clipmenu.Store.Ops.{cs_add, cs_replace, cs_remove, trim_callback}
use clipmenu.Store.Clips.{snip_of, count-append, Shelved, Holds, NoCollision, max_clips}
use clipmenu.Store.Clips.Shelves.{content_added, Shelved-same, All-left, All-right}
use clipmenu.Store.Clips.Add.{nr_snips-Holds}
use clipmenu.Store.Clips.Ages.{replaced_at, cs_replace_any}
use clipmenu.Store.Clips.Kept.{left}
use clipmenu.Store.Clips.Remove.{cs_remove-Holds}
use clipmenu.Store.Clips.Trim.{trimmed, left-trim_any}
use clipmenu.Store.Clips.History.{World, left_by, stateless, called, add}

-- The parts of calls that nothing comes between: the two halves of cs_add(), cs_replace(), cs_remove(),
-- and what cs_trim() does under its lock.
pub data Part : Type 0 where
  store_content : Bytes → Part
  store_snip : Part
  replace_text : Direction → ℕ → Bytes → Part
  trim_locked : Direction → ℕ → Part
  remove_texts : (ℕ → Bytes → Action) → Direction → Part

-- The world, with the processes that are between the halves of cs_add() and their contents.
pub record Midway : Type 0 where
  pub world : World
  pub adding : List (ℕ × Bytes)

abbrev pub find : ℕ → List (ℕ × Bytes) → Option Bytes
find p [] = none
find p ((q, t) ∷ adding) = if q == p then some t else find p adding

abbrev pub without : ℕ → List (ℕ × Bytes) → List (ℕ × Bytes)
without p [] = []
without p ((q, t) ∷ adding) = if q == p then adding else (q, t) ∷ without p adding

abbrev pub runs : {A : Type 0} → ℕ → M A → World → World
runs p m w = left_by p w (m (sys w.file w.dir w.locked (w.procs p))).1

abbrev pub add_content : Bytes → M (Unit {0})
add_content t = cs_content_add (djb64_hash t) t

abbrev pub add_snip : Bytes → M (Unit {0})
add_snip t = cs_snip_add (djb64_hash t) (first_line t).1 (first_line t).0

-- A part by process `p`, for what it has begun to add; a process that adds does nothing else first.
abbrev part_of : Option Bytes → ℕ → Part → Midway → Midway
part_of none p (store_content t) m = record {
  world = runs p (add_content t) m.world;
  adding = (p, t) ∷ m.adding;
}
part_of none p (replace_text direction age t) m = record m {
  world = runs p (cs_replace direction age t) m.world;
}
part_of none p (trim_locked direction n) m = record m {
  world = runs p (cs_remove trim_callback direction n) m.world;
}
part_of none p (remove_texts should direction) m = record m {
  world = runs p (cs_remove (stateless should) direction tt) m.world;
}
part_of none p store_snip m = m
part_of (some t) p store_snip m = record {
  world = runs p (add_snip t) m.world;
  adding = without p m.adding;
}
part_of (some t) p other m = m

abbrev pub part : ℕ → Part → Midway → Midway
part p a m = part_of (find p m.adding) p a m

abbrev pub all_parts : List (ℕ × Part) → Midway → Midway
all_parts [] m = m
all_parts ((p, a) ∷ parts) m = all_parts parts (part p a m)

-- What is being added, and the stored texts.
abbrev pub View : Type 0
View = List (ℕ × Bytes) × List Bytes

abbrev pub texts_of : List (ℕ × Bytes) → List Bytes
texts_of adding = map (λ (a : ℕ × Bytes). a.1) adding

abbrev effect_of : Option Bytes → ℕ → Part → View → View
effect_of none p (store_content t) (adding, ts) = ((p, t) ∷ adding, ts)
effect_of none p (replace_text direction age t) (adding, ts) =
    (adding, replaced_at direction age t ts)
effect_of none p (trim_locked direction n) (adding, ts) = (adding, trimmed direction n ts)
effect_of none p (remove_texts should direction) (adding, ts) =
    (adding, left (stateless should) direction tt ts)
effect_of none p store_snip v = v
effect_of (some t) p store_snip (adding, ts) = (without p adding, ts ++ (t ∷ []))
effect_of (some t) p other v = v

abbrev pub part_effect : ℕ → Part → View → View
part_effect p a v = effect_of (find p v.0) p a v

abbrev pub part_effects : List (ℕ × Part) → View → View
part_effects [] v = v
part_effects ((p, a) ∷ parts) v = part_effects parts (part_effect p a v)

-- Where a content is stored there is room for it, and no other text has its hash.
abbrev pub Room : Part → View → Type 0
Room (store_content t) (adding, ts) =
    (length (texts_of adding ++ ts) + 1 < max_clips) × NoCollision t (texts_of adding ++ ts)
Room (replace_text direction age t) (adding, ts) = NoCollision t (texts_of adding ++ ts)
Room other v = Unit

abbrev pub AllRoom : List (ℕ × Part) → View → Type 0
AllRoom [] v = Unit
AllRoom ((p, a) ∷ parts) v = Room a v × AllRoom parts (part_effect p a v)

-- The files hold the texts and the contents that are being added; the lock is free.
pub record Shows (v : View) (m : Midway) : Type 0 where
  pub same : m.adding ≡ v.0
  pub holds : Holds (texts_of v.0) v.1 m.world.file m.world.dir
  pub free : m.world.locked ≡ false
  pub idle : (p : ℕ) → IsIdle (m.world.procs p)
