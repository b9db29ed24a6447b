-- ===== src/Store/Faults/Content.antt =====
-- The content directory of src/store.c: whatever calls fail, its functions touch nothing but it.
use clipmenu.Prelude.{ℕ, ◌%◌, ◌^◌, Option, none, some, List, [], ◌∷◌, arith, ◌==◌, take, drop}
use clipmenu.Text.{Bytes, add64}
use clipmenu.Machine.{
  HashDir, Fate, pass, fail, short, Sys, Outcome, ok, err, abort, M, negative_errno, eexist,
  checked, pure, raise,
}
use clipmenu.Machine.Calls.{
  call, mkdirat, fstatat, linkat, create, open_dir, unlinkat, rmdir, mkdir_in, nlink_of, link_in,
  create_in, exists_dir, unlink_in, rmdir_in, append_text,
}
use clipmenu.Store.Content.{
  write_loop, add_link, write_new, add_made, cs_content_add, cs_content_add_amid, cs_content_remove,
}
use clipmenu.Store.Faults.{
  Parts, On, Ends, Keeps, Ends-call, Keeps-bind, Keeps-then, Keeps-checked, Keeps-if,
}

module _ (Q : Parts) where
  Keeps-call : {A : Type 0} (m : M A) → Keeps (On Q) m → Keeps (On Q) (call m)
  Keeps-call m hm s q = Ends-call Q (λ _. On Q) m s (λ gs. hm (record s { fates = gs }) q) q

  -- A call that looks at one directory of the content directory.
  Keeps-entry :
      {A : Type 0} (h : ℕ) (step : Option HashDir → M A)
      → ((d : HashDir) → Keeps (On Q) (step (some d)))
      → Keeps (On Q) (step none)
      → Keeps (On Q) (call (λ s. step (s.dir h) s))
  Keeps-entry h step there missing = Keeps-call _ (λ s q. by_entry (s.dir h) s q)
    where
      by_entry : (d : Option HashDir) → Keeps (On Q) (step d)
      by_entry none = missing
      by_entry (some d) = there d

  Keeps-mkdirat : (h : ℕ) → Keeps (On Q) (mkdirat h)
  unfolding mkdirat
  Keeps-mkdirat h = Keeps-entry h (mkdir_in h) (λ d s q. q) (λ s q. q)

  Keeps-fstatat : (h : ℕ) → Keeps (On Q) (fstatat h)
  unfolding fstatat
  Keeps-fstatat h = Keeps-entry h (λ d s. (nlink_of d, s)) (λ d s q. ground (arith, q)) (λ s q. q)

  Keeps-linkat : (h n : ℕ) → Keeps (On Q) (linkat h n)
  unfolding linkat
  Keeps-linkat h n = Keeps-entry h (link_in h n) (λ d s q. ground (arith, q)) (λ s q. q)

  Keeps-create : (h : ℕ) → Keeps (On Q) (create h)
  unfolding create
  Keeps-create h = Keeps-entry h (create_in h) (λ d s q. ground (arith, q)) (λ s q. q)

  Keeps-open_dir : (h : ℕ) → Keeps (On Q) (open_dir h)
  unfolding open_dir
  Keeps-open_dir h = Keeps-entry h (λ d s. (exists_dir d, s)) (λ d s q. q) (λ s q. q)

  Keeps-unlinkat : (h n : ℕ) → Keeps (On Q) (unlinkat h n)
  unfolding unlinkat
  Keeps-unlinkat h n = Keeps-entry h (unlink_in h n) (λ d s q. ground (arith, q)) (λ s q. q)

  Keeps-rmdir : (h : ℕ) → Keeps (On Q) (rmdir h)
  unfolding rmdir
  Keeps-rmdir h = Keeps-entry h (rmdir_in h) (λ d s q. ground (arith, q)) (λ s q. q)

  Keeps-write_loop : (fs : List Fate) (h : ℕ) (t : Bytes) → Keeps (On Q) (write_loop fs h t)
  unfolding write_loop
  Keeps-write_loop [] h [] s q = q
  Keeps-write_loop (f ∷ fs) h [] s q = q
  Keeps-write_loop [] h (c ∷ t) s q = q
  Keeps-write_loop (pass ∷ fs) h (c ∷ t) s q = q
  Keeps-write_loop (fail e ∷ fs) h (c ∷ t) s q = q
  Keeps-write_loop (short n ∷ fs) h (c ∷ t) s q =
      Keeps-write_loop fs h (drop n (c ∷ t)) (append_text h (take n (c ∷ t)) s) q

  Keeps-write_new : (h : ℕ) (t : Bytes) → Keeps (On Q) (write_new h t)
  unfolding write_new
  Keeps-write_new h t =
      Keeps-then (On Q) _ _ (Keeps-checked (On Q) _ (Keeps-create h))
        (λ s q. Keeps-write_loop s.fates h t s q)

  Keeps-add_link : (h : ℕ) → Keeps (On Q) (add_link (λ s. s) h)
  unfolding add_link
  Keeps-add_link h =
      Keeps-bind (On Q) _ _ (Keeps-checked (On Q) _ (Keeps-fstatat h))
        (λ nlink. Keeps-checked (On Q) _ (Keeps-linkat h (add64 nlink 1)))

  Keeps-add_made :
      (o : Outcome (Unit {0}) × Sys) (h : ℕ) (t : Bytes)
      → Ends (λ _. On Q) (On Q) o
      → Ends (λ _. On Q) (On Q) (add_made (λ s. s) o.0 h t o.1)
  unfolding add_made
  Keeps-add_made (ok a, s) h t q = Keeps-write_new h t s q
  Keeps-add_made (err e, s) h t q =
      Keeps-if (On Q) (e == eexist) (add_link (λ s. s) h) (raise (negative_errno e))
        (Keeps-add_link h) (λ s' q'. q') s q
  Keeps-add_made (abort, s) h t q = q

  pub Keeps-cs_content_add : (h : ℕ) (t : Bytes) → Keeps (On Q) (cs_content_add h t)
  unfolding cs_content_add cs_content_add_amid
  Keeps-cs_content_add h t s q = Keeps-add_made (mkdirat h s) h t (Keeps-mkdirat h s q)

  pub Keeps-cs_content_remove : (h : ℕ) → Keeps (On Q) (cs_content_remove h)
  unfolding cs_content_remove
  Keeps-cs_content_remove h = Keeps-then (On Q) _ _ (Keeps-checked (On Q) _ (Keeps-open_dir h)) (
      Keeps-bind (On Q) _ _ (Keeps-checked (On Q) _ (Keeps-fstatat h)) (λ nlink.
        Keeps-then (On Q) _ _ (Keeps-checked (On Q) _ (Keeps-unlinkat h (nlink % 2 ^ 32))) (
          Keeps-if (On Q) (nlink == 1) (checked (rmdir h)) (pure tt)
            (Keeps-checked (On Q) _ (Keeps-rmdir h)) (λ s q. q))))
