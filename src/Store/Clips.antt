-- ===== src/Store/Clips.antt =====
-- The clip store as its users see it: the list of the stored texts, oldest first. `Represents ts f d`
-- says that the snip file and the content directory hold just these texts.
pub mod Shelves
pub mod Add
pub mod Replace
pub mod Kept
pub mod Remove
pub mod Trim
pub mod Start
pub mod Ages
pub mod History
pub mod Parts
pub mod PartsTests
pub mod Tests
use clipmenu.Prelude.{
  ℕ, zero, suc, ◌+◌, ◌-◌, ◌*◌, ◌/◌, ◌%◌, ◌^◌, ◌≤◌, ◌<◌, bit_and, ◌≡◌, refl, sym, ap, ◌∙◌, subst,
  fun_ext, ◌≡⟨◌⟩◌, ◌∎, ◌≢◌, ◌↔◌, ◌⊎◌, inl, inr, Bool, true, false, not, ◌&&◌, ◌||◌, Option, none,
  some, List, [], ◌∷◌, ◌++◌, map, append_assoc, append-nil, map-append, reverse, reverse-append,
  reverse-reverse, reverse-cons, arith, ltb, leb, ◌==◌, if◌then◌else◌, ltb→lt, not-ltb→le,
  not-leb→lt, lt→ltb, le→not-ltb, le→leb, leb→le, lt→not-leb, ==_iff, ==_refl, Bool-cases, length,
  get_or, set, take, drop, replicate, length-append, get_or-append, set-append, take-append,
  take-append_le, take_all, take-append-drop, take-take, take-set_last, take-set, get_or-take,
  length-take_le, length-take_of_le, length-set, length-replicate, split_at, All, All-append,
  length-map, take-map, length-reverse, String,
}
use clipmenu.Text.{Bytes, djb64_hash, first_line}
use clipmenu.Machine.{Snip, HashDir, SnipFile}
use clipmenu.Store.State.{Dir, IsValid, live}
use clipmenu.Store.Snips.{cs_snip_update}
use clipmenu.Store.Content.Links.{shelf}

-- The snip of a text.
abbrev pub snip_of : Bytes → Snip
snip_of t = cs_snip_update (djb64_hash t) (first_line t).1 (first_line t).0

pub hash-snip_of : (t : Bytes) → (snip_of t).hash ≡ djb64_hash t
unfolding cs_snip_update
hash-snip_of t = refl

pub doomed-snip_of : (t : Bytes) → (snip_of t).doomed ≡ false
unfolding cs_snip_update
doomed-snip_of t = refl

-- How many of the texts have this hash.
abbrev pub count : ℕ → List Bytes → ℕ
count h [] = 0
count h (t ∷ ts) = (if djb64_hash t == h then 1 else 0) + count h ts

-- The content directory holds each text under its hash, with as many links as there are copies.
pub record Shelved (ts : List Bytes) (d : Dir) : Type 0 where
  pub body : ℕ → Bytes
  pub shelves : (h : ℕ) → d h ≡ shelf (count h ts) (body h)
  pub texts : All (λ t. body (djb64_hash t) ≡ t) ts

abbrev pub max_clips : ℕ
max_clips = 2 ^ 31

-- The files hold the texts `ts`. The content directory holds those of `pending` as well, of which the
-- snips are still to come.
pub record Holds (pending ts : List Bytes) (f : SnipFile) (d : Dir) : Type 0 where
  pub valid : IsValid f
  pub snips : live f ≡ map snip_of ts
  pub shelved : Shelved (pending ++ ts) d
  pub few : length (pending ++ ts) < max_clips

abbrev pub Represents : List Bytes → SnipFile → Dir → Type 0
Represents ts f d = Holds [] ts f d

-- No other text among `ts` has the hash of `t`.
abbrev pub NoCollision : Bytes → List Bytes → Type 0
NoCollision t = All (λ u. djb64_hash u ≡ djb64_hash t → u ≡ t)

pub count-append : (h : ℕ) (ts us : List Bytes) → count h (ts ++ us) ≡ count h ts + count h us
count-append h [] us = omega arith
count-append h (t ∷ ts) us = omega (arith, count-append h ts us)

pub count-le : (h : ℕ) (ts : List Bytes) → count h ts ≤ length ts
count-le h [] = omega arith
count-le h (t ∷ ts) = ground (arith, count-le h ts)

pub count-reverse : (h : ℕ) (ts : List Bytes) → count h (reverse ts) ≡ count h ts
count-reverse h [] = refl
count-reverse h (t ∷ ts) =
    rw reverse-cons (omega (arith, count-append h (reverse ts) (t ∷ []), count-reverse h ts))
