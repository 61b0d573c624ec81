-- ===== src/Log/Space.antt =====
-- log.c: begin_op reserves room in the log for every call, and log_write uses it.
use xv6_memory_management_im.Common.{
  ℕ, suc, ◌+◌, ◌-◌, ◌*◌, ◌≤◌, ◌<◌, ◌≡◌, false, ◌||◌, List, [], ◌∷◌, ◌++◌, arith, ◌==◌, length,
  length-append, ltb, leb, All, some, inl, inr, Bool-cases, some_inj,
}
use xv6_memory_management_im.Kernel.{Returns, returns}
use mathlib.Core.Path.{subst}
use xv6_memory_management_im.Log.{Block, Log, logsize, maxopblocks, begin_op, log_write, absorb}

abbrev pub sum : List ℕ → ℕ
sum [] = 0
sum (q ∷ qs) = q + sum qs

-- `qs` are the blocks that each call which has begun may still write.
pub record IsReserved (s : Log) (qs : List ℕ) : Type 0 where
  pub calls : s.outstanding ≡ length qs
  pub room : s.count + sum qs ≤ logsize
  pub each : All (λ q. q ≤ maxopblocks) qs

sum-le : (qs : List ℕ) → All (λ q. q ≤ maxopblocks) qs → sum qs ≤ length qs * maxopblocks
sum-le [] a = omega arith
sum-le (q ∷ qs) (a, r) = let h = sum-le qs r in omega arith

sum-append : (xs ys : List ℕ) → sum (xs ++ ys) ≡ sum xs + sum ys
sum-append [] ys = omega arith
sum-append (x ∷ xs) ys = omega (arith, sum-append xs ys)

All-here :
    (P : ℕ → Type 0) (xs ys : List ℕ) (p q : ℕ)
    → (P p → P q)
    → All P (xs ++ (p ∷ ys))
    → All P (xs ++ (q ∷ ys))
All-here P [] ys p q f (a, r) = (f a, r)
All-here P (x ∷ xs) ys p q f (a, r) = (a, All-here P xs ys p q f r)

-- A call that `begin_op` lets in has room for the most blocks that a call may write, beside what the
-- calls before it may still write.
pub begin_op-IsReserved :
    (s j : Log) (qs : List ℕ)
    → IsReserved s qs
    → begin_op s ≡ some j
    → IsReserved j (maxopblocks ∷ qs)
unfolding begin_op
begin_op-IsReserved s j qs r e =
    let c = r.calls in
    let l = sum-le qs r.each in
    elim (Bool-cases s.committing) [
      | inl a ↦ let f = rw a at e in cc
      | inr a ↦ elim (Bool-cases (ltb logsize (s.count + (s.outstanding + 1) * maxopblocks))) [
        | inl b ↦ let f = rw (a, b) at e in cc
        | inr b ↦
            let f = rw (a, b) at e in
            let g =
              some_inj (record s { outstanding = s.outstanding + 1; committing = false }) j f in
            let h : s.count + (s.outstanding + 1) * maxopblocks ≤ logsize = ground arith in
            subst (λ (i : Log). IsReserved i (maxopblocks ∷ qs)) g
              (record { calls = omega arith; room = omega arith; each = (omega arith, r.each) })
      ]
    ]

-- In a log with more blocks than it lets calls reserve, `log_write` by a call that may still write a
-- block returns, and what is logged with what all calls may still write stays within the log.
pub log_write-IsReserved :
    (s : Log) (b q : ℕ) (data1 : Block) (xs ys : List ℕ)
    → logsize < s.size
    → IsReserved s (xs ++ (suc q ∷ ys))
    → Returns (λ j. IsReserved j (xs ++ (q ∷ ys))) (log_write b data1 s)
unfolding log_write
log_write-IsReserved s b q data1 xs ys l r =
    let c = r.calls in
    let m = r.room in
    let t1 = sum-append xs (suc q ∷ ys) in
    let t2 = sum-append xs (q ∷ ys) in
    let n1 = length-append xs (suc q ∷ ys) in
    let n2 = length-append xs (q ∷ ys) in
    let e1 : (leb logsize s.count || leb (s.size - 1) s.count) ≡ false = ground arith in
    let e2 : ltb s.outstanding 1 ≡ false = ground arith in
    rw (e1, e2)
      (returns (record {
        calls = omega arith;
        room = elim (Bool-cases (absorb s.count 0 s.block b == s.count)) [
          | inl z ↦ rw z (omega arith)
          | inr z ↦ rw z (omega arith)
        ];
        each = All-here (λ q. q ≤ maxopblocks) xs ys (suc q) q (λ h. omega arith) r.each;
      }))
