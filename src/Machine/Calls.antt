-- ===== src/Machine/Calls.antt =====
-- The system calls that src/store.c makes, as far as it uses them. Each reads its fate first.
use clipmenu.Prelude.{
  ℕ, ◌-◌, ◌/◌, ◌^◌, Bool, false, not, ◌||◌, Option, none, some, List, [], ◌∷◌, ◌++◌, ltb, ◌==◌,
  if◌then◌else◌, length, take, replicate,
}
use clipmenu.Text.{Bytes}
use clipmenu.Machine.{
  Snip, SnipFile, HashDir, Fate, pass, fail, short, Sys, Outcome, ok, err, M, eexist, enoent,
  einval, efbig, enotempty,
}

-- CS_SNIP_SIZE
abbrev pub cs_snip_size : ℕ
cs_snip_size = 256

abbrev pub fated : {A : Type 0} → M A → List Fate → M A
fated m [] s = m s
fated m (pass ∷ fs) s = m (record s { fates = fs })
fated m (fail e ∷ fs) s = (err e, record s { fates = fs })
fated m (short n ∷ fs) s = m (record s { fates = fs })

abbrev pub call : {A : Type 0} → M A → M A
call m s = fated m s.fates s

-- flock(cs->snip_fd, LOCK_EX) waits until the lock is free; LOCK_UN gives it back.
unfoldable pub flock : Bool → M (Unit {0})
flock exclusive = call (λ s. (ok tt, record s { locked = exclusive }))

-- fstat(cs->snip_fd)
unfoldable pub fstat_size : M ℕ
fstat_size = call (λ s. (ok s.file.size, s))

-- What a hole in a file reads as.
abbrev pub zero_snip : Snip
zero_snip = record { hash = 0; doomed = false; nr_lines = 0; line = [] }

unfoldable pub resize : ℕ → List Snip → List Snip
resize n slots = take n (slots ++ replicate (n - length slots) zero_snip)

abbrev pub truncated : ℕ → SnipFile → SnipFile
truncated size f = record {
  size = size;
  header = if f.size == 0 then record { nr_snips = 0; nr_snips_alloc = 0 } else f.header;
  slots = resize (size / cs_snip_size - 1) f.slots;
}

-- ftruncate(cs->snip_fd, size), for sizes with room for the header; an off_t is below 2 ^ 63.
unfoldable pub ftruncate : ℕ → M (Unit {0})
ftruncate size = call (λ s.
    if ltb size (2 ^ 63)
    then (ok tt, record s { file = truncated size s.file })
    else (err efbig, s))

-- mmap() and mremap() of the snip file to `size` bytes.
unfoldable pub remap : ℕ → M (Unit {0})
remap size = call (λ s. (ok tt, record s { cs = record (s.cs) { mapped = size } }))

unfoldable pub munmap : ℕ → M (Unit {0})
munmap size = call (λ s. (ok tt, record s { cs = record (s.cs) { mapped = s.cs.mapped - size } }))

abbrev pub has_name : ℕ → List ℕ → Bool
has_name n [] = false
has_name n (m ∷ names) = n == m || has_name n names

abbrev pub erase : ℕ → List ℕ → List ℕ
erase n [] = []
erase n (m ∷ names) = if n == m then names else m ∷ erase n names

abbrev pub put_dir : ℕ → Option HashDir → Sys → Sys
put_dir h d s = record s { dir = λ k. if k == h then d else s.dir k }

abbrev pub mkdir_in : ℕ → Option HashDir → M (Unit {0})
mkdir_in h (some d) s = (err eexist, s)
mkdir_in h none s = (ok tt, put_dir h (some (record { text = []; names = [] })) s)

-- mkdirat(cs->content_dir_fd, "<hash>")
unfoldable pub mkdirat : ℕ → M (Unit {0})
mkdirat h = call (λ s. mkdir_in h (s.dir h) s)

abbrev pub nlink_of : Option HashDir → Outcome ℕ
nlink_of none = err enoent
nlink_of (some d) = if has_name 1 d.names then ok (length d.names) else err enoent

-- st_nlink from fstatat("<hash>/1")
unfoldable pub fstatat : ℕ → M ℕ
fstatat h = call (λ s. (nlink_of (s.dir h), s))

abbrev pub link_in : ℕ → ℕ → Option HashDir → M (Unit {0})
link_in h n none s = (err enoent, s)
link_in h n (some d) s =
    if not (has_name 1 d.names)
    then (err enoent, s)
    else if has_name n d.names
    then (err eexist, s)
    else (ok tt, put_dir h (some (record d { names = n ∷ d.names })) s)

-- linkat("<hash>/1", "<hash>/<n>")
unfoldable pub linkat : ℕ → ℕ → M (Unit {0})
linkat h n = call (λ s. link_in h n (s.dir h) s)

abbrev pub create_in : ℕ → Option HashDir → M (Unit {0})
create_in h none s = (err enoent, s)
create_in h (some d) s =
    if has_name 1 d.names
    then (err eexist, s)
    else (ok tt, put_dir h (some (record { text = []; names = 1 ∷ d.names })) s)

-- openat("<hash>/1", O_WRONLY | O_CREAT | O_EXCL), called where the directory is new and empty.
unfoldable pub create : ℕ → M (Unit {0})
create h = call (λ s. create_in h (s.dir h) s)

-- What write() appends.
abbrev extended : Option HashDir → Bytes → Option HashDir
extended none b = none
extended (some d) b = some (record d { text = d.text ++ b })

abbrev pub append_text : ℕ → Bytes → Sys → Sys
append_text h b s = put_dir h (extended (s.dir h) b) s

abbrev pub exists_dir : Option HashDir → Outcome (Unit {0})
exists_dir none = err enoent
exists_dir (some d) = ok tt

-- openat(cs->content_dir_fd, "<hash>", O_RDONLY)
unfoldable pub open_dir : ℕ → M (Unit {0})
open_dir h = call (λ s. (exists_dir (s.dir h), s))

abbrev pub unlink_in : ℕ → ℕ → Option HashDir → M (Unit {0})
unlink_in h n none s = (err enoent, s)
unlink_in h n (some d) s =
    if has_name n d.names
    then (ok tt, put_dir h (some (record d { names = erase n d.names })) s)
    else (err enoent, s)

-- unlinkat(hash_dir_fd, "<n>", 0)
unfoldable pub unlinkat : ℕ → ℕ → M (Unit {0})
unlinkat h n = call (λ s. unlink_in h n (s.dir h) s)

abbrev pub rmdir_in : ℕ → Option HashDir → M (Unit {0})
rmdir_in h none s = (err enoent, s)
rmdir_in h (some d) s =
    if length d.names == 0 then (ok tt, put_dir h none s) else (err enotempty, s)

-- unlinkat(cs->content_dir_fd, "<hash>", AT_REMOVEDIR)
unfoldable pub rmdir : ℕ → M (Unit {0})
rmdir h = call (λ s. rmdir_in h (s.dir h) s)

abbrev text_of : Option HashDir → Outcome Bytes
text_of none = err enoent
text_of (some d) = if has_name 1 d.names then ok d.text else err enoent

-- openat("<hash>/1", O_RDONLY); the file's text stands for the descriptor.
unfoldable pub open_content : ℕ → M Bytes
open_content h = call (λ s. (text_of (s.dir h), s))

-- fstat() of that file.
unfoldable pub fstat_content : Bytes → M ℕ
fstat_content text = call (λ s. (ok (length text), s))

-- mmap() of that file, which refuses a length of 0.
unfoldable pub mmap_content : ℕ → Bytes → M Bytes
mmap_content size text = call (λ s. (if size == 0 then err einval else ok (take size text), s))

-- munmap() of that mapping, which no other part of the state tells of.
unfoldable pub munmap_content : ℕ → M (Unit {0})
munmap_content size = call (λ s. (ok tt, s))
