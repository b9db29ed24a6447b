-- ===== src/Store/Lock.antt =====
-- src/store.c: cs_file_size, cs_header_validate, the lock (cs_unref, cs_ref_no_update, cs_ref and the
-- guards' scopes), cs_init and cs_destroy.
use clipmenu.Prelude.{ℕ, ◌+◌, ◌-◌, ◌%◌, Bool, true, false, not, ◌||◌, ltb, ◌==◌, if◌then◌else◌}
use clipmenu.Text.{add64, mul64, u64_mod}
use clipmenu.Machine.{
  Sys, Outcome, ok, err, abort, M, ◌>>=◌, ◌>>◌, pure, raise, expect_ok, checked, einval,
}
use clipmenu.Machine.Calls.{cs_snip_size, flock, fstat_size, ftruncate, remap, munmap}

unfoldable pub cs_file_size : ℕ → ℕ
cs_file_size nr_snips = mul64 (add64 nr_snips 1) cs_snip_size

unfoldable pub cs_header_validate : ℕ → M (Unit {0})
cs_header_validate file_size s =
    let h = s.file.header in
    if ltb h.nr_snips_alloc h.nr_snips
      || not (mul64 (add64 h.nr_snips_alloc 1) cs_snip_size == file_size)
    then (err einval, s)
    else (ok tt, s)

abbrev pub with_refcount : ℕ → Sys → Sys
with_refcount n s = record s { cs = record (s.cs) { refcount = n } }

unfoldable pub cs_unref : M (Unit {0})
cs_unref s =
    if ltb 0 s.cs.refcount
    then (let s' = with_refcount (s.cs.refcount - 1) s in
        if s'.cs.refcount == 0 then expect_ok (flock false) s' else (ok tt, s'))
    else (abort, s)

-- SIZE_MAX
abbrev pub size_max : ℕ
size_max = u64_mod - 1

unfoldable pub take_ref : M (Unit {0})
take_ref s =
    if ltb s.cs.refcount size_max then (ok tt, with_refcount (s.cs.refcount + 1) s) else (abort, s)

unfoldable pub cs_ref_no_update : M (Unit {0})
unfolding take_ref
cs_ref_no_update s =
    (if s.cs.refcount == 0 then (do expect_ok (flock true); take_ref) else take_ref) s

-- The locals take the header's values.
abbrev pub sync_locals : Sys → Sys
sync_locals s = record s {
  cs = record (s.cs) {
    local_nr_snips = s.file.header.nr_snips;
    local_nr_snips_alloc = s.file.header.nr_snips_alloc;
  };
}

-- Only a mapping that is too short is made anew.
unfoldable pub grow_mapping : M (Unit {0})
grow_mapping s =
    if ltb s.cs.local_nr_snips_alloc s.file.header.nr_snips_alloc
    then checked (remap (cs_file_size s.file.header.nr_snips_alloc)) s
    else (ok tt, s)

unfoldable pub update_mapping : M (Unit {0})
unfolding grow_mapping
update_mapping = do
  size ← checked fstat_size
  cs_header_validate size
  grow_mapping
  λ s. (ok tt, sync_locals s)

unfoldable pub is_stale : Sys → Bool
is_stale s =
    not (s.cs.local_nr_snips == s.file.header.nr_snips)
    || not (s.cs.local_nr_snips_alloc == s.file.header.nr_snips_alloc)

-- A guard's status is 0, or e for -e.
abbrev pub status_of : Outcome (Unit {0}) → Outcome ℕ
status_of (ok _) = ok 0
status_of (err e) = ok e
status_of abort = abort

unfoldable pub cs_ref : M ℕ
unfolding update_mapping is_stale
cs_ref = do
  cs_ref_no_update
  λ s.
      if ltb 1 s.cs.refcount
      then (ok 0, s)
      else if is_stale s
      then (let (r, s') = update_mapping s in (status_of r, s'))
      else (ok 0, s)

-- At the end of a guard's scope the reference is given back, whatever the function returns; a
-- process that has aborted runs nothing more.
abbrev pub drop_after : {A : Type 0} → Outcome A → M A
drop_after (ok a) s = (do cs_unref; pure a) s
drop_after (err e) s = (do cs_unref; raise e) s
drop_after abort s = (abort, s)

unfoldable pub drop_cs_unref : {A : Type 0} → M A → M A
drop_cs_unref m s = let (r, s') = m s in drop_after r s'

-- _drop_(cs_unref) struct ref_guard guard = cs_ref(cs);
-- if (guard.status < 0) return guard.status;
unfoldable pub with_guard : {A : Type 0} → M A → M A
unfolding drop_cs_unref
with_guard body = do status ← cs_ref; drop_cs_unref (if status == 0 then body else raise status)

abbrev pub set_ready : Bool → Sys → Sys
set_ready ready s = record s { cs = record (s.cs) { ready = ready } }

unfoldable pub cs_destroy : M (Unit {0})
cs_destroy s = checked (munmap (cs_file_size s.cs.local_nr_snips_alloc)) (set_ready false s)

unfoldable pub drop_cs_destroy : M (Unit {0})
unfolding cs_destroy
drop_cs_destroy = expect_ok cs_destroy

-- An empty file is given its header.
unfoldable pub init_size : ℕ → M ℕ
init_size size =
    if size == 0 then (do checked (ftruncate cs_snip_size); pure cs_snip_size) else pure size

-- A header that is refused is unmapped; what munmap() says is ignored.
abbrev pub unmap_refused : ℕ → Outcome (Unit {0}) → M (Unit {0})
unmap_refused file_size (err e) s = let (r, s') = munmap file_size s in (err e, s')
unmap_refused file_size (ok _) s = (ok tt, s)
unmap_refused file_size abort s = (abort, s)

unfoldable pub init_validate : ℕ → M (Unit {0})
init_validate file_size s =
    let (r, s') = cs_header_validate file_size s in unmap_refused file_size r s'

unfoldable pub init_mapping : M (Unit {0})
unfolding init_size init_validate
init_mapping = do
  st_size ← checked fstat_size
  if not (st_size % cs_snip_size == 0) then raise einval else do
    file_size ← init_size st_size
    checked (remap file_size)
    init_validate file_size
    λ s. (ok tt, set_ready true (sync_locals s))

unfoldable pub cs_init : ℕ → ℕ → M (Unit {0})
unfolding init_mapping drop_cs_unref
cs_init snip_fd content_dir_fd s =
    (do cs_ref_no_update; drop_cs_unref init_mapping)
      (record s {
        cs = record (s.cs) {
          ready = false;
          snip_fd = snip_fd;
          content_dir_fd = content_dir_fd;
          refcount = 0;
        };
      })
