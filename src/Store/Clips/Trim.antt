-- ===== src/Store/Clips/Trim.antt =====
-- cs_trim of src/store.c: of the stored texts the newest, or the oldest, are kept.
use clipmenu.Prelude.{
  ℕ, zero, suc, ◌-◌, ◌≤◌, ◌<◌, ◌≡◌, refl, sym, ap, ◌∙◌, inl, inr, List, [], ◌∷◌, ◌++◌, reverse,
  reverse-append, reverse-reverse, arith, leb, not-leb→lt, leb→le, Bool-cases, length, take, drop,
  take-append, take_all, take-append-drop, length-take_of_le, length-reverse,
}
use clipmenu.Text.{Bytes}
use clipmenu.Machine.{SnipFile, ClipStore}
use clipmenu.Store.State.{Dir, IsIdle}
use clipmenu.Store.Guard.{Returns}
use clipmenu.Store.Snips.{Direction, newest_first, oldest_first}
use clipmenu.Store.Ops.{cs_trim, trim_callback}
use clipmenu.Store.Clips.{Represents}
use clipmenu.Store.Clips.Add.{nr_snips-Represents}
use clipmenu.Store.Clips.Kept.{keep, left}
use clipmenu.Store.Clips.Remove.{cs_remove_keeps}

-- The `n` newest texts, or the `n` oldest.
abbrev pub newest : ℕ → List Bytes → List Bytes
newest n ts = drop (length ts - n) ts

abbrev pub trimmed : Direction → ℕ → List Bytes → List Bytes
trimmed newest_first n ts = newest n ts
trimmed oldest_first n ts = take n ts

keep_none : (ts : List Bytes) → keep trim_callback 0 ts ≡ []
unfolding trim_callback
keep_none [] = refl
keep_none (t ∷ ts) = keep_none ts

index_suc : (k : ℕ) → suc k - 1 ≡ k
index_suc k = omega arith

keep-trim : (n : ℕ) (ts : List Bytes) → keep trim_callback n ts ≡ take n ts
unfolding trim_callback
keep-trim zero ts = keep_none ts
keep-trim (suc n) [] = refl
keep-trim (suc n) (t ∷ ts) = ground (arith, keep-trim n ts, index_suc n)

pub length-drop : (n : ℕ) (ts : List Bytes) → length (drop n ts) ≡ length ts - n
length-drop zero ts = omega arith
length-drop (suc n) [] = omega arith
length-drop (suc n) (t ∷ ts) = omega (arith, length-drop n ts)

reverse-take-reverse :
    (n : ℕ) (ts : List Bytes) → n ≤ length ts → reverse (take n (reverse ts)) ≡ newest n ts
reverse-take-reverse n ts le =
    let k = length ts - n in
    let post = drop k ts in
    let short : length (reverse post) ≡ n =
      omega (arith, length-reverse {0} post, length-drop k ts) in
    ap (λ l. reverse (take n (reverse l))) (sym (take-append-drop k ts))
    ∙ ap (λ l. reverse (take n l)) (reverse-append (take k ts) post)
    ∙ ap (λ j. reverse (take j (reverse post ++ reverse (take k ts)))) (sym short)
    ∙ ap reverse (take-append (reverse post) (reverse (take k ts)))
    ∙ reverse-reverse post

left-trim :
    (direction : Direction) (n : ℕ) (ts : List Bytes)
    → n ≤ length ts
    → left trim_callback direction n ts ≡ trimmed direction n ts
left-trim oldest_first n ts le = keep-trim n ts
left-trim newest_first n ts le =
    ap reverse (keep-trim n (reverse ts)) ∙ reverse-take-reverse n ts le

trimmed_all :
    (direction : Direction) (n : ℕ) (ts : List Bytes) → length ts ≤ n → trimmed direction n ts ≡ ts
trimmed_all oldest_first n ts le = take_all n ts le
trimmed_all newest_first n ts le = ap (λ k. drop k ts) (nothing (length ts) n le)
  where
    nothing : (a b : ℕ) → a ≤ b → a - b ≡ 0
    nothing a b h = omega arith

length-trimmed :
    (direction : Direction) (n : ℕ) (ts : List Bytes)
    → n ≤ length ts
    → length (trimmed direction n ts) ≡ n
length-trimmed oldest_first n ts le = length-take_of_le n ts le
length-trimmed newest_first n ts le = omega (arith, length-drop (length ts - n) ts)

-- cs_trim() keeps the nr_keep newest texts, or oldest, as the direction says, and all if there are
-- not more. When it drops some, the file keeps no slot for them.
pub cs_trim_lem :
    (direction : Direction) (nr_keep : ℕ) (ts : List Bytes) (f : SnipFile) (d : Dir) (c : ClipStore)
    → Represents ts f d
    → IsIdle c
    → (f' : SnipFile) × (d' : Dir) × Returns (cs_trim direction nr_keep) f d c tt f' d'
      × Represents (trimmed direction nr_keep ts) f' d'
      × (nr_keep < length ts → f'.header.nr_snips_alloc ≡ nr_keep)
unfolding cs_trim
cs_trim_lem direction nr_keep ts f d c r i = elim (Bool-cases (leb f.header.nr_snips nr_keep)) [
  | inl e ↦
      let small : length ts ≤ nr_keep = omega (arith, leb→le _ _ e, nr_snips-Represents ts f d r) in
      (
        f,
        d,
        (c, rw e, i),
        rw (trimmed_all direction nr_keep ts small) r,
        λ lt. absurd (omega arith),
      )
  | inr e ↦
      let large : nr_keep < length ts =
        omega (arith, not-leb→lt _ _ e, nr_snips-Represents ts f d r) in
      let (f', d', (c', ran, idle), r', exact) =
        cs_remove_keeps trim_callback direction nr_keep ts f d c r i in
      let same = left-trim direction nr_keep ts (omega arith) in
      (
        f',
        d',
        (c', rw (e, ran), idle),
        rw same at r',
        λ lt. elim exact [
          | inl x ↦
              x
              ∙ nr_snips-Represents _ f' d' r'
              ∙ ap length same
              ∙ length-trimmed direction nr_keep ts (omega arith)
          | inr x ↦ absurd (omega (arith, x, ap length same, length-trimmed direction nr_keep ts))
        ],
      )
]

-- The sweep with the counting predicate, for any number.
pub left-trim_any :
    (direction : Direction) (n : ℕ) (ts : List Bytes)
    → left trim_callback direction n ts ≡ trimmed direction n ts
left-trim_any oldest_first n ts = keep-trim n ts
left-trim_any newest_first n ts = elim (Bool-cases (leb n (length ts))) [
  | inl e ↦ left-trim newest_first n ts (leb→le _ _ e)
  | inr e ↦
      let short = not-leb→lt _ _ e in
      ap reverse
        (keep-trim n (reverse ts) ∙ take_all n (reverse ts) (omega (arith, length-reverse {0} ts)))
      ∙ reverse-reverse ts
      ∙ sym (trimmed_all newest_first n ts (omega arith))
]
