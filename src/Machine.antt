-- ===== src/Machine.antt =====
-- What the clip store of src/store.h works on: the snip file and the content directory, which the
-- processes share, the process's own `struct clip_store`, and the system calls still to come, each of
-- which may be told to fail. A function of src/store.c is an action on this state.
pub mod Calls
use clipmenu.Prelude.{ℕ, Bool, Option, List, [], ◌∷◌, if◌then◌else◌, ltb}
use clipmenu.Text.{Bytes}

-- struct cs_snip; the array `line` is the string that it holds.
pub record Snip : Type 0 where
  pub hash : ℕ
  pub doomed : Bool
  pub nr_lines : ℕ
  pub line : Bytes

-- struct cs_header, less its padding.
pub record Header : Type 0 where
  pub nr_snips : ℕ
  pub nr_snips_alloc : ℕ

-- The snip file: its size in bytes, its header and the snips behind that, used or only allocated.
pub record SnipFile : Type 0 where
  pub size : ℕ
  pub header : Header
  pub slots : List Snip

-- A directory of the content directory. Its entries are links to one file, named 1, 2, ….
pub record HashDir : Type 0 where
  pub text : Bytes
  pub names : List ℕ

-- struct clip_store. `header` and `snips` point into the mapping, which shows the shared file;
-- what is kept of them is the number of bytes mapped.
pub record ClipStore : Type 0 where
  pub snip_fd : ℕ
  pub content_dir_fd : ℕ
  pub mapped : ℕ
  pub refcount : ℕ
  pub local_nr_snips : ℕ
  pub local_nr_snips_alloc : ℕ
  pub ready : Bool

-- What becomes of a system call: it is made, it fails with an errno, or, for write(), it stops short.
pub data Fate : Type 0 where
  pass : Fate
  fail : ℕ → Fate
  short : ℕ → Fate

-- The content directory is a table from the hash that a directory's name spells. Behind the last
-- fate every call is made. `locked` says that this process holds the lock on the snip file.
pub record Sys : Type 0 where
  pub file : SnipFile
  pub dir : ℕ → Option HashDir
  pub fates : List Fate
  pub locked : Bool
  pub cs : ClipStore

-- `ok a`: returned a; `err e`: returned -e, or -1 with errno e; `abort`: an expect() failed.
pub data Outcome (A : Type 0) : Type 0 where
  ok : A → Outcome A
  err : ℕ → Outcome A
  abort : Outcome A

-- What was written before an error stays written, so the state comes back beside every outcome.
abbrev pub M : Type 0 → Type 0
M A = Sys → Outcome A × Sys

abbrev pub after : {A B : Type 0} → Outcome A → (A → M B) → M B
after (ok a) f s = f a s
after (err e) f s = (err e, s)
after abort f s = (abort, s)

infixl 5 ◌>>=◌ ◌>>◌
abbrev pub ◌>>=◌ : {A B : Type 0} → M A → (A → M B) → M B
◌>>=◌ m f s = let (r, s') = m s in after r f s'

abbrev pub ◌>>◌ : {A B : Type 0} → M A → M B → M B
m >> k = m >>= λ _. k

abbrev pub pure : {A : Type 0} → A → M A
pure a s = (ok a, s)

abbrev pub raise : {A : Type 0} → ℕ → M A
raise e s = (err e, s)

-- expect(f() == 0)
abbrev pub expect_outcome : {A : Type 0} → Outcome A → Outcome A
expect_outcome (ok a) = ok a
expect_outcome (err e) = abort
expect_outcome abort = abort

abbrev pub expect_ok : {A : Type 0} → M A → M A
expect_ok m s = let (r, s') = m s in (expect_outcome r, s')

abbrev pub eexist : ℕ
eexist = 17

abbrev pub enoent : ℕ
enoent = 2

abbrev pub einval : ℕ
einval = 22

abbrev pub efbig : ℕ
efbig = 27

abbrev pub erange : ℕ
erange = 34

abbrev pub enotempty : ℕ
enotempty = 39

-- negative_errno() of src/util.c, without the sign.
unfoldable pub negative_errno : ℕ → ℕ
negative_errno errno = if ltb 0 errno then errno else einval

-- if (f() < 0) return negative_errno();
abbrev pub errno_outcome : {A : Type 0} → Outcome A → Outcome A
errno_outcome (ok a) = ok a
errno_outcome (err e) = err (negative_errno e)
errno_outcome abort = abort

abbrev pub checked : {A : Type 0} → M A → M A
checked m s = let (r, s') = m s in (errno_outcome r, s')
