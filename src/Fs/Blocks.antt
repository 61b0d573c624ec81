-- ===== src/Fs/Blocks.antt =====
-- fs.c: `balloc` finds the first free block.
use xv6_memory_management_im.Common.{
  ℕ, zero, suc, ◌+◌, ◌*◌, ◌/◌, ◌%◌, ◌≤◌, ◌<◌, ◌≡◌, ◌≢◌, refl, ap, sym, ◌∙◌, Bool, true, false, ◌&&◌,
  arith, if◌then◌else◌, ◌==◌, ==_iff, update, ltb, none, some, inl, inr, Bool-cases, some_eq,
}
use xv6_memory_management_im.Common.Word.{test_bit, set_bit}
use xv6_memory_management_im.Common.{◌^◌}
use xv6_memory_management_im.Fs.Bits.{set-here, set-else, pow_pos}
use xv6_memory_management_im.Fs.{Fs, bpb, bblock, scan_bits, mark_bit}

-- The bit `bi` of the bitmap block of `b`.
abbrev pub bit : ℕ → ℕ → Fs → Bool
bit b bi d = test_bit (d.bitmap (bblock b d.sb) (bi / 8)) (2 ^ (bi % 8))

-- The block has its bit in the bitmap.
abbrev pub in_use : Fs → ℕ → Bool
in_use d x = bit x (x % bpb) d

-- What `balloc` comes to: the first block that is not in use, now in use and set to 0.
pub record IsAllocated (d : Fs) (x : ℕ) (j : Fs) : Type 0 where
  pub lt : x < d.sb.size
  pub was_free : in_use d x ≡ false
  pub lowest : (y : ℕ) → y < x → in_use d y ≡ true
  pub now : in_use j x ≡ true
  pub others : (y : ℕ) → y ≢ x → in_use j y ≡ in_use d y
  pub words : j.words ≡ update d.words x (λ i. 0)
  pub rest : (j.sb ≡ d.sb) × (j.dinode ≡ d.dinode) × (j.inode ≡ d.inode)

module _ (b : ℕ) (d : Fs) where
  pub scan_bits-some :
      (n bi c : ℕ)
      → scan_bits n bi b d ≡ some c
      → (bi ≤ c)
        × (c < bi + n)
        × (b + c < d.sb.size)
        × (bit b c d ≡ false)
        × ((e : ℕ) → bi ≤ e → e < c → bit b e d ≡ true)
  unfolding scan_bits
  scan_bits-some zero bi c h = cc
  scan_bits-some (suc n) bi c h = elim (Bool-cases (ltb (b + bi) d.sb.size)) [
    | inr l ↦ let k = rw l at h in cc
    | inl l ↦ elim (Bool-cases (bit b bi d)) [
      | inr t ↦
          let k = rw (l, t) at h in
          let q : bi ≡ c = some_eq bi c k in
          (
            omega arith,
            omega arith,
            ground arith,
            ap (λ z. bit b z d) (sym q) ∙ t,
            λ e f g. absurd (omega arith),
          )
      | inl t ↦
          let k = rw (l, t) at h in
          let (f, g, s, z, r) = scan_bits-some n (bi + 1) c k in
          (
            omega arith,
            omega arith,
            s,
            z,
            λ e u v. elim (Bool-cases (e == bi)) [
              | inl q ↦ ap (λ z. bit b z d) ((==_iff _ _).0 q) ∙ t
              | inr q ↦ r e (ground arith) v
            ],
          )
    ]
  ]

  pub scan_bits-none :
      (n bi e : ℕ)
      → scan_bits n bi b d ≡ none
      → bi ≤ e
      → e < bi + n
      → b + e < d.sb.size
      → bit b e d ≡ true
  unfolding scan_bits
  scan_bits-none zero bi e h l g s = absurd (omega arith)
  scan_bits-none (suc n) bi e h l g s = elim (Bool-cases (ltb (b + bi) d.sb.size)) [
    | inr z ↦ absurd (ground arith)
    | inl z ↦ elim (Bool-cases (bit b bi d)) [
      | inr t ↦ let k = rw (z, t) at h in cc
      | inl t ↦
          let k = rw (z, t) at h in
          elim (Bool-cases (e == bi)) [
            | inl q ↦ ap (λ z. bit b z d) ((==_iff _ _).0 q) ∙ t
            | inr q ↦ scan_bits-none n (bi + 1) e k (ground arith) (omega arith) s
          ]
    ]
  ]

-- A block counted within the bitmap block of `k * bpb`.
pub in_use-bit : (k e : ℕ) (d : Fs) → e < bpb → in_use d (k * bpb + e) ≡ bit (k * bpb) e d
in_use-bit k e d l =
    let h : (k * 4096 + e) / 4096 ≡ k * 4096 / 4096 = omega arith in
    let m : (k * 4096 + e) % 4096 ≡ e = omega arith in rw (h, m) refl

cell :
    (f : ℕ → ℕ → ℕ) (b i v c j : ℕ)
    → update f b (update (f b) i v) c j ≡ (if (c == b) && (j == i) then v else f c j)
cell f b i v c j = elim (Bool-cases (c == b)) [
  | inl e ↦ rw e (
      let q = ap (λ t. f t j) (sym ((==_iff c b).0 e)) in
      elim (Bool-cases (j == i)) [ inl w ↦ rw w refl | inr w ↦ rw w q ])
  | inr e ↦ rw e refl
]

pub mark_bit-in_use :
    (k e : ℕ) (d : Fs) → e < bpb → in_use (mark_bit (k * bpb) e d) (k * bpb + e) ≡ true
unfolding mark_bit
mark_bit-in_use k e d l =
    let h : (k * 4096 + e) / 4096 ≡ k * 4096 / 4096 = omega arith in
    let m : (k * 4096 + e) % 4096 ≡ e = omega arith in
    let c = bblock (k * bpb) d.sb in
    let v = set_bit (d.bitmap c (e / 8)) (2 ^ (e % 8)) in
    let z1 : (c == c) ≡ true = (==_iff c c).1 refl in
    let z2 : (e / 8 == e / 8) ≡ true = (==_iff _ _).1 refl in
    let w : update d.bitmap c (update (d.bitmap c) (e / 8) v) c (e / 8) ≡ v = rw (z1, z2) refl in
    rw (h, m, w) (set-here (d.bitmap c (e / 8)) (2 ^ (e % 8)) (pow_pos (e % 8)))

pub mark_bit-else :
    (k e y : ℕ) (d : Fs)
    → e < bpb
    → y ≢ k * bpb + e
    → in_use (mark_bit (k * bpb) e d) y ≡ in_use d y
unfolding mark_bit
mark_bit-else k e y d l ne =
    let c = bblock (k * bpb) d.sb in
    let v = set_bit (d.bitmap c (e / 8)) (2 ^ (e % 8)) in
    let w = cell d.bitmap c (e / 8) v (bblock y d.sb) (y % bpb / 8) in
    elim (Bool-cases ((bblock y d.sb == c) && (y % bpb / 8 == e / 8))) [
      | inr z ↦ let u = rw z at w in ap (λ t. test_bit t (2 ^ (y % bpb % 8))) u
      | inl z ↦
          let u = rw z at w in
          let q1 : bblock y d.sb ≡ c = ground arith in
          let q2 : y % bpb / 8 ≡ e / 8 = ground arith in
          let q3 : e % 8 ≢ y % bpb % 8 = λ t. omega arith in
          ap (λ t. test_bit t (2 ^ (y % bpb % 8))) u
          ∙ (set-else (d.bitmap c (e / 8)) (e % 8) (y % bpb % 8) q3
              ∙ (ap (λ t. test_bit (d.bitmap t (e / 8)) (2 ^ (y % bpb % 8))) (sym q1)
                  ∙ ap (λ t. test_bit (d.bitmap (bblock y d.sb) t) (2 ^ (y % bpb % 8))) (sym q2)))
    ]
