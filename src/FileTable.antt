-- ===== src/FileTable.antt =====
-- file.c: the table of open files with its reference counts. The counts are numbers without a bound: each
-- counts the entries of process tables that name the file and the calls at work on it, 64 * 16 at most and
-- a few per process, far below the limit of the int `ref`.
mod Tests
pub mod Refs
use xv6_memory_management_im.Common.{
  ℕ, zero, suc, ◌+◌, ◌-◌, ◌*◌, ◌/◌, ◌%◌, ◌≤◌, ◌<◌, ◌≡◌, ◌≢◌, refl, ap, sym, ◌∙◌, Bool, true, false,
  not, ◌||◌, ◌&&◌, List, [], ◌∷◌, ◌++◌, arith, if◌then◌else◌, ◌==◌, ==-false_of_ne, ==_iff, length,
  length-append, has, has-append, has-ne, update, ltb, leb, All, Option, none, some, ◌⊎◌, inl, inr,
  Bool-cases, Option-cases, some_eq, ltb→lt, lt→ltb, get_elem?, set,
}
use xv6_memory_management_im.Common.Word.{
  add32, sub32, pgsize, word_mod, pg_round_up, pg_round_down, test_bit, set_bit, clear_bit,
}
use xv6_memory_management_im.Kernel.Layout.{kernbase, phystop, v2p, p2v, frame}
use xv6_memory_management_im.Kernel.{
  Run, ok, panic, stuck, Panic, panic_if, Returns, returns, bind, mono, result, >>=-eq-ok, ok_eq,
  ◌>>=◌, ◌>>◌,
}

pub data FileKind : Type 0 where
  fd_none fd_pipe fd_inode : FileKind

-- `struct file`; the pipe and the inode are addresses.
pub record File : Type 0 where
  pub kind : FileKind
  pub ref : ℕ
  pub readable : Bool
  pub writable : Bool
  pub pipe : ℕ
  pub ip : ℕ
  pub off : ℕ

-- `ftable`; a `struct file *` into it is an index.
pub record Ftable : Type 0 where
  pub locked : Bool
  pub file : ℕ → File

abbrev pub nfile : ℕ
nfile = 100

unfoldable pub acquire : Ftable → Run Ftable
acquire t = if t.locked then panic Panic.acquire else ok (record t { locked = true })

unfoldable pub release : Ftable → Run Ftable
release t = if t.locked then ok (record t { locked = false }) else panic Panic.release

-- `f->ref = n`
abbrev pub set_ref : ℕ → ℕ → Ftable → Ftable
set_ref f n t = record t { file = update t.file f (record (t.file f) { ref = n }) }

-- The loop of `filealloc`: the first file without a reference, from `f` on.
unfoldable pub free_file : ℕ → ℕ → (ℕ → File) → Option ℕ
free_file zero f file = none
free_file (suc n) f file =
    let rest = free_file n (f + 1) file in if (file f).ref == 0 then some f else rest

-- The reference of the file found.
unfoldable pub open_file : Option ℕ → Ftable → Ftable
open_file none t = t
open_file (some f) t = set_ref f 1 t

unfoldable pub filealloc : Ftable → Run (Option ℕ × Ftable)
unfolding acquire release free_file open_file
filealloc t = do
  t1 ← acquire t
  let found = free_file nfile 0 t1.file
  t2 ← release (open_file found t1)
  ok (found, t2)

unfoldable pub filedup : ℕ → Ftable → Run Ftable
unfolding acquire release
filedup f t = do
  t1 ← acquire t
  panic_if (ltb (t1.file f).ref 1) Panic.filedup
  release (set_ref f ((t1.file f).ref + 1) t1)

-- `fileclose`; with the last reference it gives the file as it was, for `pipeclose` or `iput`.
unfoldable pub fileclose : ℕ → Ftable → Run (Option File × Ftable)
unfolding acquire release
fileclose f t = do
  t1 ← acquire t
  panic_if (ltb (t1.file f).ref 1) Panic.fileclose
  let left = (t1.file f).ref - 1
  if ltb 0 left then (do t2 ← release (set_ref f left t1); ok (none, t2)) else (do
    let closed = record (t1.file f) { ref = 0; kind = fd_none }
    t2 ← release (record t1 { file = update t1.file f closed })
    ok (some (record (t1.file f) { ref = 0 }), t2))
