-- ===== src/Pipe.antt =====
-- pipe.c: a ring of 512 bytes between a writer and a reader. A call runs until it returns or sleeps;
-- a sleeping call goes on at the test of the loop it sleeps in, whatever woke it up.
pub mod Queue
mod Tests
use xv6_memory_management_im.Common.{
  ℕ, zero, suc, ◌+◌, ◌-◌, ◌*◌, ◌/◌, ◌%◌, ◌≤◌, ◌<◌, ◌≡◌, ◌≢◌, refl, ap, sym, ◌∙◌, Bool, true, false,
  not, ◌||◌, ◌&&◌, List, [], ◌∷◌, ◌++◌, arith, if◌then◌else◌, ◌==◌, ==-false_of_ne, ==_iff, length,
  length-append, has, has-append, has-ne, update, ltb, leb, All, Option, none, some, ◌⊎◌, inl, inr,
  Bool-cases, Option-cases, some_eq, ltb→lt, lt→ltb, get_elem?, set,
}
use xv6_memory_management_im.Common.Word.{
  add32, sub32, pgsize, word_mod, pg_round_up, pg_round_down, test_bit, set_bit, clear_bit,
}
use xv6_memory_management_im.Kernel.Layout.{kernbase, phystop, v2p, p2v, frame}
use xv6_memory_management_im.Kernel.{
  Run, ok, panic, stuck, Panic, panic_if, Returns, returns, bind, mono, result, >>=-eq-ok, ok_eq,
  ◌>>=◌, ◌>>◌,
}

pub record Pipe : Type 0 where
  pub bytes : ℕ → ℕ
  pub nread : ℕ
  pub nwrite : ℕ
  pub readopen : Bool
  pub writeopen : Bool

abbrev pub pipesize : ℕ
pipesize = 512

-- What `pipealloc` makes of a page that `kalloc` has returned, with any data.
unfoldable pub new_pipe : (ℕ → ℕ) → Pipe
new_pipe bytes = record { bytes = bytes; nread = 0; nwrite = 0; readopen = true; writeopen = true }

-- `pipeclose`; the flag says that the pipe is given to `kfree`.
unfoldable pub pipeclose : Bool → Pipe → Bool × Pipe
pipeclose writable p =
    let q = if writable then record p { writeopen = false } else record p { readopen = false } in
    (not q.readopen && not q.writeopen, q)

-- `p->data[p->nwrite++ % PIPESIZE] = b`
unfoldable pub put : ℕ → Pipe → Pipe
put b p = record p { bytes = update p.bytes (p.nwrite % pipesize) b; nwrite = add32 p.nwrite 1 }

-- How a run of a write ends: with every byte written, with -1, or asleep with the bytes left.
pub data WriteEnd : Type 0 where
  written write_failed : WriteEnd
  write_sleeps : List ℕ → WriteEnd

-- `pipewrite` from the test of the inner loop on, for the bytes that are left.
unfoldable pub pipewrite : Bool → List ℕ → Pipe → WriteEnd × Pipe
unfolding put
pipewrite killed [] p = (written, p)
pipewrite killed (b ∷ bs) p =
    let rest = pipewrite killed bs (put b p) in
    if p.nwrite == add32 p.nread pipesize
    then if not p.readopen || killed then (write_failed, p) else (write_sleeps (b ∷ bs), p)
    else rest

-- How a run of a read ends: with the bytes read, with -1, or asleep.
pub data ReadEnd : Type 0 where
  got : List ℕ → ReadEnd
  read_failed read_sleeps : ReadEnd

-- The copying loop of `piperead`, for `n` bytes at most.
unfoldable pub read_loop : ℕ → Pipe → List ℕ × Pipe
read_loop zero p = ([], p)
read_loop (suc n) p =
    let (bs, q) = read_loop n (record p { nread = add32 p.nread 1 }) in
    if p.nread == p.nwrite then ([], p) else (p.bytes (p.nread % pipesize) ∷ bs, q)

-- `piperead` from the test of its first loop on.
unfoldable pub piperead : Bool → ℕ → Pipe → ReadEnd × Pipe
unfolding read_loop
piperead killed n p =
    if (p.nread == p.nwrite) && p.writeopen
    then if killed then (read_failed, p) else (read_sleeps, p)
    else (let (bs, q) = read_loop n p in (got bs, q))
