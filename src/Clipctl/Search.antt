-- ===== src/Clipctl/Search.antt =====
-- get_clipmenud_pid of src/clipctl.c against the list of the processes that are named clipmenud.
use clipmenu.Prelude.{
  ℕ, ◌^◌, ◌<◌, ◌≡◌, ap, ◌∙◌, inl, inr, Bool, true, false, Option, List, [], ◌∷◌, arith, ◌==◌,
  if◌then◌else◌, Bool-cases, All,
}
use clipmenu.Text.{Bytes}
use clipmenu.Machine.{Outcome, ok, err, abort, eexist, enoent}
use clipmenu.Util.{str_to_uint64}
use clipmenu.Clipctl.{ProcEntry, pid_of, is_daemon, found_pid, find_pid, go_on, get_clipmenud_pid}

-- The numbers of the processes that are the daemon.
abbrev pub pid_among : Outcome ℕ → Bool → List ℕ → List ℕ
pid_among (ok pid) true pids = pid ∷ pids
pid_among (ok pid) false pids = pids
pid_among (err e) daemon pids = pids
pid_among abort daemon pids = pids

abbrev pub daemons : List ProcEntry → List ℕ
daemons [] = []
daemons (ent ∷ dir) = pid_among (str_to_uint64 ent.d_name) (is_daemon ent.comm) (daemons dir)

-- A number that the kernel gives to a process.
abbrev pub IsPid : ℕ → Type 0
IsPid pid = (0 < pid) × (pid < 2 ^ 31)

-- The only one, or an error where there are none or several.
abbrev pub the_only : List ℕ → Outcome ℕ
the_only [] = err enoent
the_only (pid ∷ []) = ok pid
the_only (pid ∷ q ∷ pids) = err eexist

abbrev with_found : ℕ → List ℕ → List ℕ
with_found ret pids = if ret == 0 then pids else ret ∷ pids

Continues : List ProcEntry → Type 0
Continues dir =
    (r : ℕ) → All IsPid (daemons dir) → find_pid dir r ≡ the_only (with_found r (daemons dir))

first_found :
    (dir : List ProcEntry) (pid : ℕ)
    → IsPid pid
    → All IsPid (daemons dir)
    → Continues dir
    → go_on (pid_of pid) (find_pid dir) ≡ the_only (pid ∷ daemons dir)
unfolding Continues
first_found dir pid h hs loop =
    let fits : pid_of pid ≡ ok pid = ground (arith, h.0, h.1) in
    let found : with_found pid (daemons dir) ≡ pid ∷ daemons dir = ground (arith, h.0) in
    rw fits (loop pid hs ∙ ap the_only found)

entry_step :
    (o : Outcome ℕ) (comm : Option Bytes) (dir : List ProcEntry) (ret : ℕ)
    → All IsPid (pid_among o (is_daemon comm) (daemons dir))
    → Continues dir
    → go_on (found_pid o comm ret) (find_pid dir)
      ≡ the_only (with_found ret (pid_among o (is_daemon comm) (daemons dir)))
unfolding Continues
entry_step (err e) comm dir ret h loop = loop ret h
entry_step abort comm dir ret h loop = loop ret h
entry_step (ok pid) comm dir ret h loop = elim (Bool-cases (is_daemon comm)) [
  | inr other ↦ rw other (loop ret (rw other at h))
  | inl named ↦
      let hs : All IsPid (pid ∷ daemons dir) = rw named at h in
      rw named (elim (Bool-cases (ret == 0)) [
        | inl first ↦ rw first (first_found dir pid hs.0 hs.1 (unfold Continues in loop))
        | inr more ↦ rw more
      ])
]

find_pid_from : (dir : List ProcEntry) → Continues dir
unfolding find_pid Continues
find_pid_from [] ret h = ground arith
find_pid_from (ent ∷ dir) ret h =
    entry_step (str_to_uint64 ent.d_name) ent.comm dir ret h (find_pid_from dir)

-- get_clipmenud_pid() gives the number of the only daemon, -ENOENT where there is none, and -EEXIST
-- where there are several, if the numbers are ones that processes have.
pub get_clipmenud_pid_lem :
    (dir : List ProcEntry)
    → All IsPid (daemons dir)
    → get_clipmenud_pid dir ≡ the_only (daemons dir)
unfolding get_clipmenud_pid Continues
get_clipmenud_pid_lem dir h = find_pid_from dir 0 h
