-- ===== src/Store/Clips/Parts/Addition.antt =====
-- cs_add of src/store.c as its two parts.
use clipmenu.Prelude.{ℕ, ◌≡◌, refl, sym, ap, ◌∙◌, fun_ext, Bool, none, [], ◌∷◌, arith, ==_refl}
use clipmenu.Text.{Bytes, djb64_hash}
use clipmenu.Machine.{SnipFile, ClipStore, Sys, Outcome, ok, err, abort, after, pure}
use clipmenu.Store.State.{Dir, sys}
use clipmenu.Store.Ops.{cs_add}
use clipmenu.Store.Clips.History.{World, left_by, called, add}
use clipmenu.Store.Clips.Parts.{
  store_content, store_snip, Midway, find, add_content, add_snip, all_parts,
}

left_by-left_by : (p : ℕ) (w : World) (s s' : Sys) → left_by p (left_by p w s) s' ≡ left_by p w s'
left_by-left_by p w s s' =
    ap
      (λ (procs : ℕ → ClipStore). record {
        file = s'.file;
        dir = s'.dir;
        locked = s'.locked;
        procs = procs;
      })
      (fun_ext (λ q. ground arith))

results_dropped :
    (o : Outcome (Unit {0}) × Sys) (h : ℕ)
    → (after {B = Unit {0}}
        (after {B = ℕ} o.0 (λ _. pure h) o.1).0
        (λ _. pure tt)
        (after {B = ℕ} o.0 (λ _. pure h) o.1).1).1
      ≡ o.1
results_dropped (ok a, s) h = refl
results_dropped (err e, s) h = refl
results_dropped (abort, s) h = refl

-- Where nothing comes between the two parts, and the content is stored, they are a call of cs_add().
pub add_parts :
    (p : ℕ) (t : Bytes) (m : Midway) (f : SnipFile) (d : Dir) (locked : Bool) (c : ClipStore)
    → find p m.adding ≡ none
    → add_content t (sys m.world.file m.world.dir m.world.locked (m.world.procs p))
      ≡ (ok tt, sys f d locked c)
    → (all_parts ((p, store_content t) ∷ (p, store_snip) ∷ []) m).world ≡ called p (add t) m.world
unfolding cs_add
add_parts p t m f d locked c idle stored =
    let o = add_snip t (sys f d locked c) in
    rw idle (
      rw (==_refl p) (
        rw stored (
          rw (==_refl p) (
            left_by-left_by p m.world (sys f d locked c) o.1
            ∙ ap (left_by p m.world) (sym (results_dropped o (djb64_hash t)))))))
