-- ===== src/Log/Absorb.antt =====
-- log.c: log_write records a block once.
use xv6_memory_management_im.Common.{
  ℕ, zero, suc, ◌+◌, ◌-◌, ◌≤◌, ◌<◌, ◌≡◌, ◌≢◌, refl, sym, ◌∙◌, true, false, ◌||◌, arith,
  if◌then◌else◌, ◌==◌, ==-false_of_ne, ==_iff, update, ltb, leb, inl, inr, Bool-cases,
}
use xv6_memory_management_im.Kernel.{Returns, returns}
use xv6_memory_management_im.Log.{Block, Log, logsize, log_write, absorb, bread}

-- The place that is found: the first entry with the block, or the end.
IsPlace : ℕ → ℕ → (ℕ → ℕ) → ℕ → ℕ → Type 0
IsPlace i m block b r =
    (i ≤ r) × (r ≤ i + m) × ((h : ℕ) → i ≤ h → h < r → block h ≢ b) × (r < i + m → block r ≡ b)

absorb-IsPlace : (m i : ℕ) (block : ℕ → ℕ) (b : ℕ) → IsPlace i m block b (absorb m i block b)
unfolding absorb IsPlace
absorb-IsPlace zero i block b =
    (omega arith, omega arith, λ h x y. absurd (omega arith), λ x. absurd (omega arith))
absorb-IsPlace (suc m) i block b = elim (Bool-cases (block i == b)) [
  | inl e ↦ rw e (omega arith, omega arith, λ h x y. absurd (omega arith), λ x. (==_iff _ _).0 e)
  | inr e ↦
      let (p, q, before, at) = absorb-IsPlace m (i + 1) block b in
      let n : block i ≢ b = ground arith in
      rw e (
        omega arith,
        omega arith,
        λ h x y. elim (Bool-cases (h == i)) [
          | inl z ↦ let k = (==_iff _ _).0 z in rw k n
          | inr z ↦ before h (ground arith) y
        ],
        λ x. at (omega arith),
      )
]

-- The blocks of the header are different.
abbrev pub IsDistinct : Log → Type 0
IsDistinct s = (i j : ℕ) → i < s.count → j < s.count → s.block i ≡ s.block j → i ≡ j

-- The header's blocks and count after an entry at that place.
module _ (n : ℕ) (block : ℕ → ℕ) (b r : ℕ) (place : IsPlace 0 n block b r) where
  abbrev grown : ℕ
  grown = if r == n then n + 1 else n

  recorded-entry : (r < grown) × (update block r b r ≡ b)
  unfolding IsPlace
  recorded-entry =
      let (p, q, before, at) = place in
      let same : (r == r) ≡ true = (==_iff _ _).1 refl in
      elim (Bool-cases (r == n)) [
        | inl e ↦ rw (e, same) (ground arith, refl)
        | inr e ↦ rw (e, same) (ground arith, refl)
      ]

  recorded-kept : (i : ℕ) → i < n → (i < grown) × (update block r b i ≡ block i)
  unfolding IsPlace
  recorded-kept i l =
      let (p, q, before, at) = place in
      let g : i < grown = elim (Bool-cases (r == n)) [
        | inl e ↦ rw e (omega arith)
        | inr e ↦ rw e l
      ] in
      (
        g,
        elim (Bool-cases (i == r)) [
          | inl e ↦
              let k = (==_iff _ _).0 e in
              let h : block r ≡ b = at (omega arith) in rw (e, k) (sym h)
          | inr e ↦ rw e
        ],
      )

  -- An old entry is not the new one.
  recorded-ne : (i : ℕ) → i < grown → (i == r) ≡ false → r ≡ n → block i ≢ b
  unfolding IsPlace
  recorded-ne i l e z =
      let (p, q, before, at) = place in
      let same : (r == n) ≡ true = (==_iff _ _).1 z in
      let k : i < n + 1 = rw same at l in before i (omega arith) (ground arith)

  recorded-distinct :
      ((i j : ℕ) → i < n → j < n → block i ≡ block j → i ≡ j)
      → (i j : ℕ) → i < grown
      → j < grown
      → update block r b i ≡ update block r b j
      → i ≡ j
  recorded-distinct d i j l m e = elim (Bool-cases (r == n)) [
    | inl z ↦
        let k = (==_iff _ _).0 z in
        elim (Bool-cases (i == r)) [
          | inl x ↦ elim (Bool-cases (j == r)) [
            | inl y ↦ (==_iff _ _).0 x ∙ sym ((==_iff _ _).0 y)
            | inr y ↦ let f = rw (x, y) at e in absurd (recorded-ne j m y k (sym f))
          ]
          | inr x ↦ elim (Bool-cases (j == r)) [
            | inl y ↦ let f = rw (x, y) at e in absurd (recorded-ne i l x k f)
            | inr y ↦
                let f = rw (x, y) at e in
                let l1 : i < n + 1 = rw z at l in
                let m1 : j < n + 1 = rw z at m in d i j (ground arith) (ground arith) f
          ]
        ]
    | inr z ↦
        let l1 : i < n = rw z at l in
        let m1 : j < n = rw z at m in
        d i j l1 m1 (sym (recorded-kept i l1).1 ∙ e ∙ (recorded-kept j m1).1)
  ]

-- After `log_write` of a block, in a call that has begun and with room in the log, a read of it gives
-- the new data and of another block what it gave before; the block is in the header, the blocks that
-- were there stay, and no block is there twice.
pub log_write-IsDistinct :
    (s : Log) (b : ℕ) (data1 : Block)
    → IsDistinct s
    → s.count < logsize
    → s.count + 1 < s.size
    → 0 < s.outstanding
    → Returns
        (λ j.
          IsDistinct j
          × (bread b j ≡ data1)
          × ((a : ℕ) → a ≢ b → bread a j ≡ bread a s)
          × ((i : ℕ) × (i < j.count) × (j.block i ≡ b))
          × ((i : ℕ) → i < s.count → (i < j.count) × (j.block i ≡ s.block i)))
        (log_write b data1 s)
unfolding log_write bread
log_write-IsDistinct s b data1 d l m o =
    let e1 : (leb logsize s.count || leb (s.size - 1) s.count) ≡ false = ground arith in
    let e2 : ltb s.outstanding 1 ≡ false = ground arith in
    let same : (b == b) ≡ true = (==_iff _ _).1 refl in
    let r = absorb s.count 0 s.block b in
    let p = absorb-IsPlace s.count 0 s.block b in
    rw (e1, e2)
      (returns (
        recorded-distinct s.count s.block b r p d,
        rw same,
        λ a n. rw (==-false_of_ne _ _ n),
        (r, (recorded-entry s.count s.block b r p).0, (recorded-entry s.count s.block b r p).1),
        recorded-kept s.count s.block b r p,
      ))
