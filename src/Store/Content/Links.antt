-- ===== src/Store/Content/Links.antt =====
-- cs_content_add, cs_content_remove and cs_content_get of src/store.c where no call fails: the links
-- 1, 2, …, n of a directory count how often its clip is stored.
use clipmenu.Prelude.{
  ℕ, zero, suc, ◌^◌, ◌<◌, ◌≡◌, refl, fun_ext, ◌≢◌, Bool, true, false, Option, none, some, List, [],
  ◌∷◌, arith, ◌==◌, if◌then◌else◌, length, take_all,
}
use clipmenu.Text.{Bytes}
use clipmenu.Machine.{HashDir, SnipFile, ClipStore, ok}
use clipmenu.Machine.Calls.{
  has_name, mkdirat, fstatat, linkat, create, open_dir, unlinkat, rmdir, open_content,
  fstat_content, mmap_content,
}
use clipmenu.Store.State.{Dir, sys}
use clipmenu.Store.Content.{
  write_loop, add_link, write_new, add_made, cs_content_add, cs_content_add_amid, cs_content_remove,
  cs_content_get,
}

-- The names n, …, 2, 1, as the links were made.
abbrev pub down : ℕ → List ℕ
down zero = []
down (suc n) = suc n ∷ down n

-- The directory of a clip that is stored `n` times.
abbrev pub shelf : ℕ → Bytes → Option HashDir
shelf zero text = none
shelf (suc n) text = some (record { text = text; names = down (suc n) })

abbrev pub put : ℕ → Option HashDir → Dir → Dir
put h v d = λ k. if k == h then v else d k

pub put-put : (h : ℕ) (v w : Option HashDir) (d : Dir) → put h v (put h w d) ≡ put h v d
put-put h v w d = fun_ext (λ k. ground arith)

pub put_self : (h : ℕ) (v : Option HashDir) (d : Dir) → put h v d h ≡ v
put_self h v d = ground arith

pub put_same : (h : ℕ) (v : Option HashDir) (d : Dir) → d h ≡ v → put h v d ≡ d
put_same h v d e = fun_ext (λ k. ground arith)

pub length-down : (n : ℕ) → length (down n) ≡ n
length-down zero = refl
length-down (suc n) = omega (arith, length-down n)

pub has_name_one : (n : ℕ) → has_name 1 (down (suc n)) ≡ true
has_name_one zero = refl
has_name_one (suc n) = ground (arith, has_name_one n)

has_name_above : (n m : ℕ) → n < m → has_name m (down n) ≡ false
has_name_above zero m h = refl
has_name_above (suc n) m h = ground (arith, has_name_above n m)

module _ (f : SnipFile) (held : Bool) (c : ClipStore) (h : ℕ) where
  write_loop_quiet :
      (t : Bytes) (d : Dir)
      → d h ≡ shelf 1 []
      → write_loop [] h t (sys f d held c) ≡ (ok tt, sys f (put h (shelf 1 t) d) held c)
  unfolding write_loop
  write_loop_quiet [] d e = rw (put_same h (shelf 1 []) d e)
  write_loop_quiet (x ∷ t) d e = rw e

  write_new_quiet :
      (t : Bytes) (d : Dir)
      → d h ≡ some (record { text = []; names = [] })
      → write_new h t (sys f d held c) ≡ (ok tt, sys f (put h (shelf 1 t) d) held c)
  unfolding write_new create
  write_new_quiet t d e = ground (
    arith,
    write_loop_quiet t (put h (shelf 1 []) d) (put_self h (shelf 1 []) d),
    put-put h (shelf 1 t) (shelf 1 []) d,
  )

  pub add_link_quiet :
      (n : ℕ) (t : Bytes) (d : Dir)
      → n < 2 ^ 32
      → d h ≡ shelf (suc n) t
      → add_link (λ s. s) h (sys f d held c)
        ≡ (ok tt, sys f (put h (shelf (suc (suc n)) t) d) held c)
  unfolding add_link fstatat linkat
  add_link_quiet n t d lt e =
      ground (arith, has_name_one n, length-down n, has_name_above (suc n) (suc (suc n)))

  -- A clip that is not there gets its directory, with the link 1 to its text.
  pub cs_content_add_new :
      (t : Bytes) (d : Dir)
      → d h ≡ none
      → cs_content_add h t (sys f d held c) ≡ (ok tt, sys f (put h (shelf 1 t) d) held c)
  unfolding cs_content_add cs_content_add_amid mkdirat add_made
  cs_content_add_new t d e =
      let fresh : Option HashDir = some (record { text = []; names = [] }) in
      ground (
        arith,
        write_new_quiet t (put h fresh d) (put_self h fresh d),
        put-put h (shelf 1 t) fresh d,
      )

  -- A clip that is there gets one more link, and the new content is not looked at.
  pub cs_content_add_link :
      (n : ℕ) (t u : Bytes) (d : Dir)
      → n < 2 ^ 32
      → d h ≡ shelf (suc n) u
      → cs_content_add h t (sys f d held c)
        ≡ (ok tt, sys f (put h (shelf (suc (suc n)) u) d) held c)
  unfolding cs_content_add cs_content_add_amid mkdirat add_made
  cs_content_add_link n t u d lt e = ground (arith, add_link_quiet n u d lt e)

  -- One link less, and no directory behind the last.
  pub cs_content_remove_lem :
      (n : ℕ) (u : Bytes) (d : Dir)
      → suc n < 2 ^ 32
      → d h ≡ shelf (suc n) u
      → cs_content_remove h (sys f d held c) ≡ (ok tt, sys f (put h (shelf n u) d) held c)
  unfolding cs_content_remove open_dir fstatat unlinkat rmdir
  cs_content_remove_lem zero u d lt e =
      ground (arith, put-put h none (some (record { text = u; names = [] })) d)
  cs_content_remove_lem (suc n) u d lt e = ground (arith, has_name_one (suc n), length-down n)

  -- The text of a clip that is there, unless it is empty.
  pub cs_content_get_lem :
      (n : ℕ) (u : Bytes) (d : Dir)
      → d h ≡ shelf (suc n) u
      → u ≢ []
      → cs_content_get h (sys f d held c)
        ≡ (ok (record { bytes = u; size = length u }), sys f d held c)
  unfolding cs_content_get open_content fstat_content mmap_content
  cs_content_get_lem n [] d e ne = absurd (ne refl)
  cs_content_get_lem n (x ∷ u) d e ne =
      ground (arith, has_name_one n, take_all (length (x ∷ u)) (x ∷ u))
