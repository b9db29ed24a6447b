-- ===== src/Store/Content/Races.antt =====
-- cs_content_add of src/store.c takes no lock: what other processes may do between its fstatat() and its
-- linkat() for a clip that is there.
use clipmenu.Prelude.{ℕ, ◌≡◌, refl, ap, ◌∙◌, Bool, true, false, arith}
use clipmenu.Text.{Bytes, add64}
use clipmenu.Machine.{
  SnipFile, ClipStore, Sys, Outcome, M, ok, err, checked, negative_errno, eexist, enoent,
}
use clipmenu.Machine.Calls.{mkdirat, fstatat, linkat}
use clipmenu.Store.State.{Dir, sys}
use clipmenu.Store.Content.{
  add_link, add_made, cs_content_add_amid, cs_content_add, cs_content_remove,
}
use clipmenu.Store.Content.Links.{shelf, put, cs_content_add_link, cs_content_remove_lem, put_self}

-- A call that another process makes meanwhile, with its own structure, and with the lock if it holds
-- it; it has given the lock back where this process goes on.
abbrev pub meanwhile : ClipStore → Bool → M (Unit {0}) → Sys → Sys
meanwhile c' held call s = record ((call (record s { cs = c'; locked = held })).1) {
  cs = s.cs;
  locked = s.locked;
}

module _ (f : SnipFile) (c c' : ClipStore) (h : ℕ) (t u : Bytes) (d : Dir) where
  -- What is left behind what comes between.
  then_link :
      (amid : Sys → Sys)
      → d h ≡ shelf 1 u
      → cs_content_add_amid amid h t (sys f d false c)
        ≡ checked (linkat h (add64 1 1)) (amid (sys f d false c))
  unfolding cs_content_add_amid add_made add_link mkdirat fstatat
  then_link amid e = rw e (rw e refl)

  -- The name is taken.
  link_taken :
      checked (linkat h (add64 1 1)) (sys f (put h (shelf 2 u) d) false c)
      ≡ (err eexist, sys f (put h (shelf 2 u) d) false c)
  unfolding linkat negative_errno
  link_taken = ground (arith, put_self h (shelf 2 u) d)

  -- The one link is gone, and the directory with it.
  link_lost :
      checked (linkat h (add64 1 1)) (sys f (put h (shelf 0 u) d) false c)
      ≡ (err enoent, sys f (put h (shelf 0 u) d) false c)
  unfolding linkat negative_errno
  link_lost = ground (arith, put_self h (shelf 0 u) d)

  back : Outcome (Unit {0}) × Sys → Sys
  back o = record (o.1) { cs = c; locked = false }

  amid_added :
      d h ≡ shelf 1 u
      → cs_content_add_amid (meanwhile c' false (cs_content_add h t)) h t (sys f d false c)
        ≡ (err eexist, sys f (put h (shelf 2 u) d) false c)
  unfolding back
  amid_added e =
      then_link (meanwhile c' false (cs_content_add h t)) e
      ∙ ap (λ o. checked (linkat h (add64 1 1)) (back o))
          (cs_content_add_link f false c' h 0 t u d (omega arith) e)
      ∙ link_taken

  amid_removed :
      d h ≡ shelf 1 u
      → cs_content_add_amid (meanwhile c' true (cs_content_remove h)) h t (sys f d false c)
        ≡ (err enoent, sys f (put h (shelf 0 u) d) false c)
  unfolding back
  amid_removed e =
      then_link (meanwhile c' true (cs_content_remove h)) e
      ∙ ap (λ o. checked (linkat h (add64 1 1)) (back o))
          (cs_content_remove_lem f true c' h 0 u d (omega arith) e)
      ∙ link_lost

  -- A call of cs_content_add() for a clip that is stored once makes the second link. If between its
  -- fstatat() and its linkat() another process adds the same clip, the call gives -EEXIST with that
  -- process's link as the second one, and if one that holds the lock removes the clip, the call gives
  -- -ENOENT and the clip is gone.
  pub cs_content_add_races :
      d h ≡ shelf 1 u
      → (cs_content_add h t (sys f d false c) ≡ (ok tt, sys f (put h (shelf 2 u) d) false c))
        × (cs_content_add_amid (meanwhile c' false (cs_content_add h t)) h t (sys f d false c)
            ≡ (err eexist, sys f (put h (shelf 2 u) d) false c))
        × (cs_content_add_amid (meanwhile c' true (cs_content_remove h)) h t (sys f d false c)
            ≡ (err enoent, sys f (put h (shelf 0 u) d) false c))
  cs_content_add_races e =
      (cs_content_add_link f false c h 0 t u d (omega arith) e, amid_added e, amid_removed e)
