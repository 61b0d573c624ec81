-- ===== src/Pipe/Tests.antt =====
-- pipe.c: the theorems at a new pipe and at a full one.
use xv6_memory_management_im.Common.{ℕ, ◌≡◌, refl, true, false, List, [], ◌∷◌, ◌++◌, arith, update}
use xv6_memory_management_im.Pipe.{Pipe, new_pipe, pipewrite, piperead, got}
use xv6_memory_management_im.Pipe.Queue.{
  IsQueue, WriteStops, ReadStops, pipewrite-IsQueue, piperead-IsQueue, new_pipe-IsQueue,
}

abbrev empty : Pipe
empty = new_pipe (λ _. 0)

pipewrite-IsQueue_example :
    (sent rest : List ℕ) × (7 ∷ 8 ∷ 9 ∷ [] ≡ sent ++ rest)
    × IsQueue (pipewrite false (7 ∷ 8 ∷ 9 ∷ []) empty).1 ([] ++ sent)
    × ((pipewrite false (7 ∷ 8 ∷ 9 ∷ []) empty).1.readopen ≡ empty.readopen)
    × ((pipewrite false (7 ∷ 8 ∷ 9 ∷ []) empty).1.writeopen ≡ empty.writeopen)
    × WriteStops false empty.readopen ([] ++ sent) rest (pipewrite false (7 ∷ 8 ∷ 9 ∷ []) empty).0
pipewrite-IsQueue_example =
    pipewrite-IsQueue false (7 ∷ 8 ∷ 9 ∷ []) empty [] (new_pipe-IsQueue (λ _. 0))

-- Two bytes across the wrap of the counter.
abbrev wrapped : Pipe
wrapped = record {
  bytes = update (update (λ _. 0) 511 7) 0 8;
  nread = 0xFFFF_FFFF;
  nwrite = 1;
  readopen = true;
  writeopen = true;
}

piperead-IsQueue_example : ReadStops false 9 wrapped (7 ∷ 8 ∷ []) (piperead false 9 wrapped)
piperead-IsQueue_example =
    piperead-IsQueue false 9 wrapped (7 ∷ 8 ∷ [])
      (record { bound = omega arith; read = omega arith; write = refl; ring = (refl, (refl, tt)) })

write_read : (piperead false 2 (pipewrite false (7 ∷ 8 ∷ 9 ∷ []) empty).1).0 ≡ got (7 ∷ 8 ∷ [])
unfolding piperead pipewrite new_pipe
write_read = refl
