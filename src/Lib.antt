-- ===== src/Lib.antt =====
-- clipmenu, a clipboard manager for X: the daemon clipmenud watches the X selections and puts each new
-- text into a clip store on disk, clipmenu lets the user choose one of the stored clips, clipserve
-- offers it to other programs, clipdel deletes clips, and clipctl switches the daemon on and off.
--
-- The parts and the files that model them:
--   * Text: the functions of src/store.c and src/clipmenud.c that only read C strings (djb64_hash,
--     first_line, is_possible_partial, is_salient_text). A C string is the list of its bytes.
--   * Machine: the state that src/store.h works on. The snip file (its size, its header and its
--     slots), the content directory (a table from hashes to directories of links) and the lock are
--     shared by all processes; `struct clip_store` is a process's own. Machine/Calls has the system
--     calls as far as src/store.c uses them, with POSIX's results and errors. A list of fates in the
--     state may tell a call to fail, or write() to stop short.
--   * Store: src/store.c. Lock has the header's validation, the nested references around flock(),
--     and cs_init; Snips the snip file's growth, the iteration and the compaction; Content the
--     content directory; Ops the operations cs_add, cs_remove, cs_trim, cs_replace and cs_len.
--     State and Guard say what holds between and within operations, and Clips relates the files to
--     the list of the stored texts, oldest first, which is what users of the store see: Holds also
--     counts the contents whose snips are still to come. Faults is
--     about the same operations with any list of fates: Faults/World has processes that start, call
--     and end, and lose their store and their lock where an expect() fails.
--   * Daemon: src/clipmenud.c's handlers with its static variables, and the selections' atoms of
--     src/config.c. They call the store's operations through `on_store`. Startup is the daemon from
--     its start on, with a record of what happens in each call of get_one_clip; Keeps and Service
--     are about its whole life when calls of the store fail.
--   * Clipdel: src/clipdel.c, whose callback is handed to cs_remove.
--   * Util: src/util.c, with the decimal strings that all use to pass hashes and numbers on, and in
--     Descriptors the loops around read() and write().
--   * Clipmenu: src/clipmenu.c, from the store to the menu, and from the launcher's answer to the hash
--     that clipserve is run for.
--   * Clipserve: src/clipserve.c, from that hash to the answers to other programs; Handover is about the
--     way of a clip from the daemon to it.
--   * Clipctl: src/clipctl.c, whose signals the daemon's handler of Daemon/Handlers receives.
--   * Config: the settings of src/config.c, in Lines how the file is read through a buffer of 256 bytes, and
--     in Paths where the files are.
--   * X: src/x.c.
--
-- A function that returns a negative errno is an action whose result is `err` with that errno; a
-- failed expect() or a die() is `abort`. State changes that come before an error are kept.
-- Subtraction of natural numbers stops at 0; size_t arithmetic is written out modulo 2 ^ 64.
--
-- The loops over the snips of cs_remove, cs_snip_remove_doomed and clipmenu's menu run on fuel, one
-- more than the number of snips, since each round visits another snip. The loops over a number's
-- digits have fuel for 20, the digits of a number below 2 ^ 64. The lines of a file are read on fuel for
-- each byte, since each line takes one. Every other loop goes down a list.
--
-- Except for the loop of writes and for Store/Faults, what is stated of the store is about runs in
-- which no system call fails (an empty list of fates), with fewer than 2 ^ 31 clips, and where a text
-- is stored, no other stored text has its hash: the directory of a hash keeps the text that came
-- first. Store/Clips/History has processes that make each call as a whole, and Store/Clips/Parts has
-- processes that come between the two halves of cs_add(), of which only the second is under the lock.
-- Within the first half its system calls are taken together; Store/Content/Races is about what comes
-- between two of them. A process that is killed within a call is not modelled.
--
-- Not modelled: waiting in select() without end; fork() and exec() beyond what they are called with;
-- giving memory and descriptors back; a regexec() of clipdel that gives neither 0 nor REG_NOMATCH, which
-- POSIX has as its only results; the build files, the service file and the shell test.
-- XInternAtom(), XGetWindowProperty(), regcomp(), regexec(), getopt(), getenv(), fopen(), mkdir(), the
-- clock, the launcher, /proc and the X server's answers are parameters or come with the events.
mod Prelude
pub mod Text
pub mod Machine
pub mod Util
pub mod Store
pub mod Daemon
pub mod Clipdel
pub mod Clipmenu
pub mod Config
pub mod Clipctl
pub mod Clipserve
pub mod X
