-- ===== src/Fs/Alloc.antt =====
-- fs.c: `balloc` allocates the first free block.
use xv6_memory_management_im.Common.{
  ℕ, zero, suc, ◌+◌, ◌-◌, ◌*◌, ◌≤◌, ◌<◌, ◌≡◌, refl, ap, sym, ◌∙◌, true, arith, ltb, some, ◌⊎◌, inl,
  inr, Bool-cases, Option-cases, ltb→lt,
}
use xv6_memory_management_im.Kernel.{panic, Panic, Returns, returns}
use xv6_memory_management_im.Fs.{
  Fs, bpb, bzero, scan_bits, mark_bit, balloc_found, balloc_loop, balloc,
}
use xv6_memory_management_im.Fs.Blocks.{
  in_use, IsAllocated, scan_bits-some, scan_bits-none, in_use-bit, mark_bit-in_use, mark_bit-else,
}

found-IsAllocated :
    (k e : ℕ) (d : Fs)
    → ((y : ℕ) → y < k * bpb → in_use d y ≡ true)
    → scan_bits bpb 0 (k * bpb) d ≡ some e
    → IsAllocated d (k * bpb + e) (bzero (k * bpb + e) (mark_bit (k * bpb) e d))
unfolding bzero mark_bit
found-IsAllocated k e d before h =
    let (l, g, s, z, r) = scan_bits-some (k * bpb) d bpb 0 e h in
    record {
      lt = s;
      was_free = in_use-bit k e d (omega arith) ∙ z;
      lowest = λ y u. elim (Bool-cases (ltb y (k * bpb))) [
        | inl q ↦ before y (ltb→lt y (k * bpb) q)
        | inr q ↦
            let v : k * bpb + (y - k * bpb) ≡ y = ground arith in
            ap (λ t. in_use d t) (sym v)
            ∙ (in_use-bit k (y - k * bpb) d (omega arith)
                ∙ r (y - k * bpb) (omega arith) (omega arith))
      ];
      now = mark_bit-in_use k e d (omega arith);
      others = λ y ne. mark_bit-else k e y d (omega arith) ne;
      words = refl;
      rest = (refl, refl, refl);
    }

balloc_loop-IsAllocated :
    (n k : ℕ) (d : Fs)
    → d.sb.size < k + n
    → k ≤ d.sb.size
    → ((y : ℕ) → y < k * bpb → y < d.sb.size → in_use d y ≡ true)
    → Returns (λ ((x, j) : ℕ × Fs). IsAllocated d x j) (balloc_loop n (k * bpb) d)
      ⊎ ((balloc_loop n (k * bpb) d ≡ panic Panic.out_of_blocks)
          × ((y : ℕ) → y < d.sb.size → in_use d y ≡ true))
unfolding balloc_loop balloc_found
balloc_loop-IsAllocated zero k d f g before = absurd (omega arith)
balloc_loop-IsAllocated (suc n) k d f g before = elim (Bool-cases (ltb (k * bpb) d.sb.size)) [
  | inr l ↦ inr (rw l refl, λ y u. before y (ground arith) u)
  | inl l ↦
      let lt = ltb→lt (k * bpb) d.sb.size l in
      elim (Option-cases (scan_bits bpb 0 (k * bpb) d)) [
        | inr (e, h) ↦
            inl (rw (l, h) (returns (found-IsAllocated k e d (λ y u. before y u (omega arith)) h)))
        | inl h ↦
            let next : suc k * bpb ≡ k * bpb + bpb = omega arith in
            let ih = balloc_loop-IsAllocated n (suc k) d (omega arith) (omega arith) (λ y u v.
              elim (Bool-cases (ltb y (k * bpb))) [
                | inl q ↦ before y (ltb→lt y (k * bpb) q) v
                | inr q ↦
                    let w : k * bpb + (y - k * bpb) ≡ y = ground arith in
                    ap (λ t. in_use d t) (sym w)
                    ∙ (in_use-bit k (y - k * bpb) d (ground arith)
                        ∙ scan_bits-none (k * bpb) d bpb 0 (y - k * bpb) h (omega arith)
                            (ground arith) (rw w v))
              ]) in
            rw (l, h) (rw next at ih)
      ]
]

-- `balloc` returns the first block of the file system that is not in use. It is then in use and set to 0,
-- and no other block changes, in the bitmap or otherwise. Only when all blocks are in use does it panic;
-- its loop never runs out of fuel.
pub balloc-IsAllocated :
    (d : Fs)
    → Returns (λ ((x, j) : ℕ × Fs). IsAllocated d x j) (balloc d)
      ⊎ ((balloc d ≡ panic Panic.out_of_blocks) × ((y : ℕ) → y < d.sb.size → in_use d y ≡ true))
unfolding balloc
balloc-IsAllocated d =
    balloc_loop-IsAllocated (d.sb.size + 1) 0 d (omega arith) (omega arith)
      (λ y u v. absurd (omega arith))
