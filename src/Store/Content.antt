-- ===== src/Store/Content.antt =====
-- src/store.c: the content directory. cs_content_add, cs_content_remove and cs_content_get.
pub mod Links
pub mod Writes
pub mod Races
use clipmenu.Prelude.{
  ℕ, zero, suc, ◌+◌, ◌-◌, ◌*◌, ◌/◌, ◌%◌, ◌^◌, ◌≤◌, ◌<◌, bit_and, ◌≡◌, refl, sym, ap, ◌∙◌, subst,
  fun_ext, ◌≡⟨◌⟩◌, ◌∎, ◌≢◌, ◌↔◌, ◌⊎◌, inl, inr, Bool, true, false, not, ◌&&◌, ◌||◌, Option, none,
  some, List, [], ◌∷◌, ◌++◌, map, append_assoc, append-nil, map-append, reverse, reverse-append,
  reverse-reverse, arith, ltb, leb, ◌==◌, if◌then◌else◌, ltb→lt, not-ltb→le, not-leb→lt, lt→ltb,
  le→not-ltb, le→leb, leb→le, lt→not-leb, ==_iff, ==_refl, Bool-cases, length, get_or, set, take,
  drop, replicate, length-append, get_or-append, set-append, take-append, take-append_le, take_all,
  take-append-drop, length-take_le, length-take_of_le, length-set, length-replicate, split_at, All,
  All-append, length-map, take-map, length-reverse, String,
}
use clipmenu.Text.{Bytes, add64}
use clipmenu.Machine.{
  Fate, pass, fail, short, Sys, Outcome, ok, err, abort, M, ◌>>=◌, ◌>>◌, pure, raise, checked,
  expect_ok, negative_errno, eexist,
}
use clipmenu.Machine.Calls.{
  mkdirat, fstatat, linkat, create, append_text, open_dir, unlinkat, rmdir, open_content,
  fstat_content, mmap_content, munmap_content,
}

abbrev with_fates : List Fate → Sys → Sys
with_fates fs s = record s { fates = fs }

-- while (remaining > 0): each write() takes a fate, and behind the last it takes the whole rest.
unfoldable pub write_loop : List Fate → ℕ → Bytes → M (Unit {0})
write_loop fs hash [] s = (ok tt, with_fates fs s)
write_loop [] hash (c ∷ cur) s = (ok tt, append_text hash (c ∷ cur) (with_fates [] s))
write_loop (pass ∷ fs) hash (c ∷ cur) s = (ok tt, append_text hash (c ∷ cur) (with_fates fs s))
write_loop (fail e ∷ fs) hash (c ∷ cur) s = (err (negative_errno e), with_fates fs s)
write_loop (short n ∷ fs) hash (c ∷ cur) s =
    write_loop fs hash (drop n (c ∷ cur)) (append_text hash (take n (c ∷ cur)) s)

-- The clip is there: one more link to it. `amid` is what other processes do behind the fstatat().
unfoldable pub add_link : (Sys → Sys) → ℕ → M (Unit {0})
add_link amid hash = do
  nlink ← checked (fstatat hash)
  λ s. checked (linkat hash (add64 nlink 1)) (amid s)

unfoldable pub write_new : ℕ → Bytes → M (Unit {0})
unfolding write_loop
write_new hash content = do checked (create hash); λ s. write_loop s.fates hash content s

-- What follows mkdirat(): a new clip, a clip that exists, or an error.
unfoldable pub add_made : (Sys → Sys) → Outcome (Unit {0}) → ℕ → Bytes → M (Unit {0})
unfolding add_link write_new
add_made amid (ok _) hash content s = write_new hash content s
add_made amid (err e) hash content s =
    (if e == eexist then add_link amid hash else raise (negative_errno e)) s
add_made amid abort hash content s = (abort, s)

unfoldable pub cs_content_add_amid : (Sys → Sys) → ℕ → Bytes → M (Unit {0})
unfolding add_made
cs_content_add_amid amid hash content s =
    let (r, s') = mkdirat hash s in add_made amid r hash content s'

-- The call, with nothing that comes between.
unfoldable pub cs_content_add : ℕ → Bytes → M (Unit {0})
unfolding cs_content_add_amid
cs_content_add = cs_content_add_amid (λ s. s)

-- The name is printed as an unsigned int.
unfoldable pub cs_content_remove : ℕ → M (Unit {0})
cs_content_remove hash = do
  checked (open_dir hash)
  nlink ← checked (fstatat hash)
  checked (unlinkat hash (nlink % 2 ^ 32))
  if nlink == 1 then checked (rmdir hash) else pure tt

-- struct cs_content, less its descriptor.
pub record CsContent : Type 0 where
  pub bytes : Bytes
  pub size : ℕ

unfoldable pub cs_content_get : ℕ → M CsContent
cs_content_get hash = do
  fd ← checked (open_content hash)
  st_size ← checked (fstat_content fd)
  bytes ← checked (mmap_content st_size fd)
  pure (record { bytes = bytes; size = st_size })

-- `none` is a NULL, or data that is not mapped.
unfoldable pub cs_content_unmap : Option CsContent → M (Unit {0})
cs_content_unmap none = pure tt
cs_content_unmap (some content) = checked (munmap_content content.size)

unfoldable pub drop_cs_content_unmap : Option CsContent → M (Unit {0})
unfolding cs_content_unmap
drop_cs_content_unmap content = expect_ok (cs_content_unmap content)
