-- ===== src/Log/Full.antt =====
-- log.c: how many blocks the calls that begin_op has let in can write into a log that mkfs has made.
use xv6_memory_management_im.Common.{
  ℕ, zero, suc, ◌+◌, ◌-◌, ◌≤◌, ◌<◌, ◌≡◌, ◌≢◌, refl, true, false, ◌||◌, List, [], ◌∷◌, arith, ◌==◌,
  ==-false_of_ne, ==_iff, length, has, ltb, leb, Option, none, some, inl, inr, Bool-cases,
}
use xv6_memory_management_im.Common.Pigeon.{Distinct}
use xv6_memory_management_im.Kernel.{Run, ok, panic, Panic, Returns, returns, bind, mono, ◌>>=◌}
use xv6_memory_management_im.Log.{Block, Log, logsize, begin_op, log_write, absorb}

-- `n` calls begin.
abbrev pub begin_all : ℕ → Log → Option Log
begin_all zero s = some s
begin_all (suc n) s = elim (begin_op s) [ none ↦ none | some j ↦ begin_all n j ]

-- Blocks that are written one after the other, in whichever calls.
abbrev pub write_all : (ℕ → Block) → List ℕ → Log → Run Log
write_all data1 [] s = ok s
write_all data1 (x ∷ xs) s = log_write x (data1 x) s >>= write_all data1 xs

-- A block that the header does not have goes behind its last entry.
absorb-new :
    (m i : ℕ) (block : ℕ → ℕ) (b : ℕ)
    → ((h : ℕ) → h < i + m → block h ≢ b)
    → absorb m i block b ≡ i + m
unfolding absorb
absorb-new zero i block b new = omega arith
absorb-new (suc m) i block b new =
    let e = ==-false_of_ne (block i) b (new i (omega arith)) in
    let ih = absorb-new m (i + 1) block b (λ h l. new h (omega arith)) in rw e (omega arith)

-- Calls have begun, `n` blocks are logged, and none of `xs`.
record HasRoom (s : Log) (n : ℕ) (xs : List ℕ) : Type 0 where
  pub size : s.size ≡ logsize
  pub calls : 0 < s.outstanding
  pub count : s.count ≡ n
  pub new : (h : ℕ) → h < n → has (s.block h) xs ≡ false

log_write-HasRoom :
    (s : Log) (n x : ℕ) (xs : List ℕ) (data1 : Block)
    → n < 29
    → has x xs ≡ false
    → HasRoom s n (x ∷ xs)
    → Returns (λ j. HasRoom j (n + 1) xs) (log_write x data1 s)
unfolding log_write
log_write-HasRoom s n x xs data1 l d r =
    let z = r.size in
    let o = r.calls in
    let c = r.count in
    let apart : (h : ℕ) → h < n → (s.block h == x) ≡ false =
      λ h q. let f = r.new h q in ground arith in
    let place =
      absorb-new s.count 0 s.block x (λ h q. let f = apart h (omega arith) in ground arith) in
    let last : absorb s.count 0 s.block x ≡ s.count = omega arith in
    let e1 : (leb logsize s.count || leb (s.size - 1) s.count) ≡ false = ground arith in
    let e2 : ltb s.outstanding 1 ≡ false = ground arith in
    let same : (s.count == s.count) ≡ true = (==_iff _ _).1 refl in
    rw (e1, e2, last, same)
      (returns (record {
        size = z;
        calls = o;
        count = omega arith;
        new = λ h q. elim (Bool-cases (h == s.count)) [
          | inl e ↦ rw e d
          | inr e ↦ let f = r.new h (ground arith) in rw e (ground arith)
        ];
      }))

write_all-HasRoom :
    (s : Log) (n : ℕ) (xs : List ℕ) (data1 : ℕ → Block)
    → n + length xs ≤ 29
    → Distinct xs
    → HasRoom s n xs
    → Returns (λ j. HasRoom j (n + length xs) []) (write_all data1 xs s)
write_all-HasRoom s n [] data1 l d r = let e : n + 0 ≡ n = omega arith in rw e (returns r)
write_all-HasRoom s n (x ∷ xs) data1 l (a, d) r =
    let e : n + length (x ∷ xs) ≡ n + 1 + length xs = omega arith in
    rw e (
      bind (log_write-HasRoom s n x xs (data1 x) (omega arith) a r)
        (λ j q. write_all-HasRoom j (n + 1) xs data1 (omega arith) d q))

log_write-HasNone :
    (s : Log) (b : ℕ) (data1 : Block)
    → HasRoom s 29 []
    → log_write b data1 s ≡ panic Panic.log_too_big
unfolding log_write
log_write-HasNone s b data1 r =
    let z = r.size in
    let c = r.count in
    let e : (leb logsize s.count || leb (s.size - 1) s.count) ≡ true = ground arith in rw e refl

begin_all-three :
    (s : Log)
    → s.count ≡ 0
    → s.outstanding ≡ 0
    → s.committing ≡ false
    → begin_all 3 s ≡ some (record s { outstanding = 3 })
unfolding begin_op
begin_all-three s c o n = rw (c, o, n) refl

-- In a log of `logsize` blocks, as mkfs makes it, in which nothing is logged and no call is in progress,
-- `begin_op` lets three calls in, each to write up to `maxopblocks` blocks. They can write 29 different
-- blocks, each of which `log_write` records, but the next write panics, whichever the block.
pub log_write-full :
    (s : Log) (xs : List ℕ) (b : ℕ) (data1 : ℕ → Block)
    → s.size ≡ logsize
    → s.count ≡ 0
    → s.outstanding ≡ 0
    → s.committing ≡ false
    → length xs ≡ 29
    → Distinct xs
    → (j : Log) × (begin_all 3 s ≡ some j)
      × Returns
          (λ k. (k.count ≡ 29) × (log_write b (data1 b) k ≡ panic Panic.log_too_big))
          (write_all data1 xs j)
log_write-full s xs b data1 z c o n l d =
    let j = record s { outstanding = 3 } in
    let r : HasRoom j 0 xs = record {
      size = z;
      calls = omega arith;
      count = c;
      new = λ h q. absurd (omega arith);
    } in
    (
      j,
      begin_all-three s c o n,
      mono (write_all-HasRoom j 0 xs data1 (omega arith) d r) (λ k q.
          let w : 0 + length xs ≡ 29 = omega arith in
          let q1 : HasRoom k 29 [] = rw w at q in (q1.count, log_write-HasNone k b (data1 b) q1)),
    )
