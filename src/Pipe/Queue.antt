-- ===== src/Pipe/Queue.antt =====
-- pipe.c: the ring is a queue of at most 512 bytes.
use xv6_memory_management_im.Common.{
  ℕ, zero, suc, ◌+◌, ◌%◌, ◌≤◌, ◌<◌, ◌≡◌, ◌≢◌, refl, ap, sym, Bool, true, false, not, ◌||◌, List, [],
  ◌∷◌, ◌++◌, arith, ◌==◌, ==-false_of_ne, ==_iff, length, length-append, append-nil, append_assoc,
  take, drop, update, ◌⊎◌, inl, inr, Bool-cases,
}
use xv6_memory_management_im.Common.Word.{add32, word_mod}
use mathlib.Core.Path.{subst}
use xv6_memory_management_im.Pipe.{
  Pipe, pipesize, put, WriteEnd, written, write_failed, write_sleeps, pipewrite, ReadEnd, got,
  read_failed, read_sleeps, read_loop, piperead, new_pipe,
}

-- The bytes from the position `i` on are `q`.
abbrev pub Ring : (ℕ → ℕ) → ℕ → List ℕ → Type 0
Ring bytes i [] = Unit
Ring bytes i (b ∷ q) = (bytes (i % pipesize) ≡ b) × Ring bytes (i + 1) q

pub record IsQueue (p : Pipe) (q : List ℕ) : Type 0 where
  pub bound : length q ≤ pipesize
  pub read : p.nread < word_mod
  pub write : p.nwrite ≡ (p.nread + length q) % word_mod
  pub ring : Ring p.bytes p.nread q

-- The ring repeats after 512 bytes, and so at the wrap of the counters.
Ring-mod :
    (bytes : ℕ → ℕ) (i j : ℕ) (q : List ℕ)
    → i % pipesize ≡ j % pipesize
    → Ring bytes i q
    → Ring bytes j q
Ring-mod bytes i j [] e r = tt
Ring-mod bytes i j (b ∷ q) e (h, r) =
    (rw (sym e) h, Ring-mod bytes (i + 1) (j + 1) q (omega arith) r)

-- A byte written behind the end.
Ring-put :
    (bytes : ℕ → ℕ) (i b : ℕ) (q : List ℕ)
    → length q < pipesize
    → Ring bytes i q
    → (n : ℕ) → n % pipesize ≡ (i + length q) % pipesize
    → Ring (update bytes (n % pipesize) b) i (q ++ (b ∷ []))
Ring-put bytes i b [] l r n e =
    (let e1 : (i % pipesize == n % pipesize) ≡ true = ground arith in rw e1, tt)
Ring-put bytes i b (c ∷ q) l (h, r) n e = (
  let z : (i % pipesize == n % pipesize) ≡ false = ==-false_of_ne _ _ (λ z. omega arith) in rw z h,
  Ring-put bytes (i + 1) b q (omega arith) r n (omega arith),
)

put-IsQueue :
    (p : Pipe) (q : List ℕ) (b : ℕ)
    → IsQueue p q
    → length q < pipesize
    → IsQueue (put b p) (q ++ (b ∷ []))
unfolding put
put-IsQueue p q b s l =
    let w = s.write in
    let e = length-append q (b ∷ []) in
    record {
      bound = omega arith;
      read = s.read;
      write = omega arith;
      ring = Ring-put p.bytes p.nread b q l s.ring p.nwrite (omega arith);
    }

-- The test of the writer's inner loop is that the queue is full.
full_iff :
    (p : Pipe) (q : List ℕ)
    → IsQueue p q
    → (p.nwrite == add32 p.nread pipesize) ≡ (length q == pipesize)
full_iff p q s = let b = s.bound in let r = s.read in let w = s.write in ground arith

empty_iff : (p : Pipe) (q : List ℕ) → IsQueue p q → (p.nread == p.nwrite) ≡ (length q == 0)
empty_iff p q s = let b = s.bound in let r = s.read in let w = s.write in ground arith

-- How a run of a write may end, when the queue holds `q` and `rest` is left to write.
pub data WriteStops (killed readopen : Bool) (q rest : List ℕ) : WriteEnd → Type 0 where
  all : rest ≡ [] → WriteStops killed readopen q rest written
  full :
      rest ≢ []
      → length q ≡ pipesize
      → readopen ≡ true
      → killed ≡ false
      → WriteStops killed readopen q rest (write_sleeps rest)
  broken :
      rest ≢ []
      → length q ≡ pipesize
      → (not readopen || killed) ≡ true
      → WriteStops killed readopen q rest write_failed

cons-ne : (b : ℕ) (bs : List ℕ) → b ∷ bs ≢ []
cons-ne b bs e = cc

open_of : (r d : Bool) → (not r || d) ≡ false → (r ≡ true) × (d ≡ false)
open_of true true e = cc
open_of true false e = (refl, refl)
open_of false d e = cc

-- A run of `pipewrite` sends a first part of the bytes, in order, to the end of the queue and closes
-- no end. It returns when all are sent; with bytes left it sleeps or fails, and only when the queue
-- is full: it fails when the reader has closed or the process is killed, and sleeps otherwise.
pub pipewrite-IsQueue :
    (killed : Bool) (bs : List ℕ) (p : Pipe) (q : List ℕ)
    → IsQueue p q
    → (sent rest : List ℕ) × (bs ≡ sent ++ rest)
      × IsQueue (pipewrite killed bs p).1 (q ++ sent)
      × ((pipewrite killed bs p).1.readopen ≡ p.readopen)
      × ((pipewrite killed bs p).1.writeopen ≡ p.writeopen)
      × WriteStops killed p.readopen (q ++ sent) rest (pipewrite killed bs p).0
unfolding pipewrite put
pipewrite-IsQueue killed [] p q s = ([], [], refl, rw (append-nil q) s, refl, refl, all refl)
pipewrite-IsQueue killed (b ∷ bs) p q s = elim (Bool-cases (length q == pipesize)) [
  | inl f ↦ elim (Bool-cases (not p.readopen || killed)) [
    | inl g ↦
        rw (full_iff p q s, f, g)
          (
            [],
            b ∷ bs,
            refl,
            rw (append-nil q) s,
            refl,
            refl,
            rw (append-nil q) (broken (cons-ne b bs) ((==_iff _ _).0 f) g),
          )
    | inr g ↦
        rw (full_iff p q s, f, g)
          (
            [],
            b ∷ bs,
            refl,
            rw (append-nil q) s,
            refl,
            refl,
            rw (append-nil q) (
                full (cons-ne b bs) ((==_iff _ _).0 f) (open_of p.readopen killed g).0
                  (open_of p.readopen killed g).1),
          )
  ]
  | inr f ↦
      let l = s.bound in
      let (sent, rest, e, t, ro, wo, stops) =
        pipewrite-IsQueue killed bs (put b p) (q ++ (b ∷ []))
          (put-IsQueue p q b s (ground arith)) in
      let a : q ++ (b ∷ []) ++ sent ≡ q ++ (b ∷ sent) = append_assoc q (b ∷ []) sent in
      let t1 : IsQueue (pipewrite killed bs (put b p)).1 (q ++ (b ∷ sent)) =
        subst (λ (z : List ℕ). IsQueue (pipewrite killed bs (put b p)).1 z) a t in
      let stops1 : WriteStops killed p.readopen (q ++ (b ∷ sent)) rest
          (pipewrite killed bs (put b p)).0 =
        subst
          (λ (z : List ℕ). WriteStops killed p.readopen z rest (pipewrite killed bs (put b p)).0) a
          stops in
      rw (full_iff p q s, f) (b ∷ sent, rest, ap (λ (z : List ℕ). b ∷ z) e, t1, ro, wo, stops1)
]

tail-IsQueue :
    (p : Pipe) (q : List ℕ) (b : ℕ)
    → IsQueue p (b ∷ q)
    → IsQueue (record p { nread = add32 p.nread 1 }) q
tail-IsQueue p q b s =
    let w = s.write in
    let l = s.bound in
    let r = s.read in
    record {
      bound = omega arith;
      read = omega arith;
      write = omega arith;
      ring = Ring-mod p.bytes (p.nread + 1) (add32 p.nread 1) q (omega arith) s.ring.1;
    }

-- The copying loop takes the first bytes of the queue, as many as it may and as there are.
pub read_loop-IsQueue :
    (n : ℕ) (p : Pipe) (q : List ℕ)
    → IsQueue p q
    → ((read_loop n p).0 ≡ take n q)
      × IsQueue (read_loop n p).1 (drop n q)
      × ((read_loop n p).1.readopen ≡ p.readopen)
      × ((read_loop n p).1.writeopen ≡ p.writeopen)
unfolding read_loop
read_loop-IsQueue zero p q s = (refl, s, refl, refl)
read_loop-IsQueue (suc n) p [] s = rw (empty_iff p [] s) (refl, s, refl, refl)
read_loop-IsQueue (suc n) p (b ∷ q) s =
    let z : (length (b ∷ q) == 0) ≡ false = ground arith in
    let (e, t, ro, wo) =
      read_loop-IsQueue n (record p { nread = add32 p.nread 1 }) q (tail-IsQueue p q b s) in
    rw (empty_iff p (b ∷ q) s, z, s.ring.0) (ap (λ (y : List ℕ). b ∷ y) e, t, ro, wo)

-- How a run of a read may end.
pub data ReadStops (killed : Bool) (n : ℕ) (p : Pipe) (q : List ℕ) : ReadEnd × Pipe → Type 0 where
  taken :
      (j : Pipe)
      → IsQueue j (drop n q)
      → (j.readopen ≡ p.readopen) × (j.writeopen ≡ p.writeopen)
      → (q ≢ []) ⊎ (p.writeopen ≡ false)
      → ReadStops killed n p q (got (take n q), j)
  waits : q ≡ [] → p.writeopen ≡ true → killed ≡ false → ReadStops killed n p q (read_sleeps, p)
  gone : q ≡ [] → p.writeopen ≡ true → killed ≡ true → ReadStops killed n p q (read_failed, p)

nonempty_of : (q : List ℕ) → (length q == 0) ≡ false → q ≢ []
nonempty_of q z e = let t : length q ≡ 0 = ap length e in absurd (ground arith)

empty_of : (q : List ℕ) → (length q == 0) ≡ true → q ≡ []
empty_of [] e = refl
empty_of (b ∷ q) e = absurd (ground arith)

-- A run of `piperead` takes the first bytes of the queue, in order, at most as many as it is asked
-- for, and returns at once when there are any or the writer has closed. On an empty queue with the
-- writer's end open it sleeps, or fails when the process is killed, and takes nothing.
pub piperead-IsQueue :
    (killed : Bool) (n : ℕ) (p : Pipe) (q : List ℕ)
    → IsQueue p q
    → ReadStops killed n p q (piperead killed n p)
unfolding piperead
piperead-IsQueue killed n p q s =
    let (e, t, ro, wo) = read_loop-IsQueue n p q s in
    let o : ((read_loop n p).1.readopen ≡ p.readopen)
        × ((read_loop n p).1.writeopen ≡ p.writeopen) =
      (ro, wo) in
    let m = empty_iff p q s in
    elim (Bool-cases (length q == 0)) [
      | inr z ↦ rw (m, z, e) (taken (read_loop n p).1 t o (inl (λ y. nonempty_of q z y)))
      | inl z ↦ elim (Bool-cases p.writeopen) [
        | inr w ↦
            let r : piperead killed n p ≡ (got (take n q), (read_loop n p).1) = rw (m, z, e, w) in
            rw r (taken (read_loop n p).1 t o (inr w))
        | inl w ↦ elim (Bool-cases killed) [
          | inl d ↦
              let r : piperead killed n p ≡ (read_failed, p) = rw (m, z, w, d) in
              rw r (gone (empty_of q z) w d)
          | inr d ↦
              let r : piperead killed n p ≡ (read_sleeps, p) = rw (m, z, w, d) in
              rw r (waits (empty_of q z) w d)
        ]
      ]
    ]

pub new_pipe-IsQueue : (bytes : ℕ → ℕ) → IsQueue (new_pipe bytes) []
unfolding new_pipe
new_pipe-IsQueue bytes = record { bound = omega arith; read = omega arith; write = refl; ring = tt }
