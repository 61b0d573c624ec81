-- ===== src/Fs/Bmap.antt =====
-- fs.c: `bmap` gives a block of an inode an address, and then always the same.
use xv6_memory_management_im.Common.{
  if◌then◌else◌, ltb→lt, lt→ltb, ℕ, ◌+◌, ◌-◌, ◌≤◌, ◌<◌, ◌≡◌, ◌≢◌, refl, ap, sym, ◌∙◌, true, false,
  arith, ◌==◌, ==_iff, ltb, ◌⊎◌, inl, inr, Bool-cases,
}
use xv6_memory_management_im.Kernel.{ok, panic, Panic, Returns, mono, result}
use xv6_memory_management_im.Fs.{Fs, Super, Inode, ndirect, nindirect, addr_of, bmap}
use xv6_memory_management_im.Fs.Blocks.{in_use}
use xv6_memory_management_im.Fs.Address.{
  IsOwned, own_addr-IsOwned, own_addr-some, IsEntry, bmap_indirect-IsEntry, bmap_indirect-some,
}

-- The address of the inode that `bmap` may set for the block `bn`.
abbrev pub slot : ℕ → ℕ
slot bn = if ltb bn ndirect then bn else ndirect

-- What `bmap` comes to: the address `x` stands where the block `bn` has its, and is the same from then
-- on. Either nothing has changed, or `x` is a block that was free. Other addresses stay, and so do the
-- blocks in use but for the word of the address.
pub record IsMapped (ip bn : ℕ) (d : Fs) (x : ℕ) (j : Fs) : Type 0 where
  pub nonzero : x ≢ 0
  pub place :
      ((bn < ndirect) × (addr_of ip bn j ≡ x))
      ⊎ ((ndirect ≤ bn)
          × (addr_of ip ndirect j ≢ 0)
          × (j.words (addr_of ip ndirect j) (bn - ndirect) ≡ x))
  pub again : bmap ip bn j ≡ ok (x, j)
  pub how : (j ≡ d) ⊎ ((in_use d x ≡ false) × (in_use j x ≡ true))
  pub used : (y : ℕ) → in_use d y ≡ true → in_use j y ≡ true
  pub addrs : (a i : ℕ) → (a ≢ ip) ⊎ (i ≢ slot bn) → addr_of a i j ≡ addr_of a i d
  pub words :
      (y w : ℕ)
      → in_use d y ≡ true
      → (bn < ndirect) ⊎ ((y ≢ addr_of ip ndirect j) ⊎ (w ≢ bn - ndirect))
      → j.words y w ≡ d.words y w

-- Every block is in use, or all but one are and `bn` takes two, as the inode has no indirect block yet.
abbrev pub NoRoom : ℕ → ℕ → Fs → Type 0
NoRoom ip bn d =
    (t : ℕ) × ((y : ℕ)
      → y < d.sb.size
      → (in_use d y ≡ true) ⊎ ((y ≡ t) × (ndirect ≤ bn) × (addr_of ip ndirect d ≡ 0)))

direct-IsMapped :
    (ip bn x : ℕ) (d j : Fs) → bn < ndirect → IsOwned ip bn d x j → IsMapped ip bn d x j
unfolding bmap
direct-IsMapped ip bn x d j l g =
    let z : ltb bn ndirect ≡ true = lt→ltb bn ndirect l in
    record {
      nonzero = g.nonzero;
      place = inl (l, g.addr);
      again = rw z (own_addr-some ip bn x j g.nonzero g.addr);
      how = elim g.how [ inl e ↦ inl e | inr (e, f, w) ↦ inr (f, g.used) ];
      used = g.kept.used;
      addrs = λ a i n. g.others a i (rw z at n);
      words = λ y w u n. ap (λ (f : ℕ → ℕ). f w) (g.kept.words y u);
    }

module _ (ip bn t x : ℕ) (d d1 j : Fs) (out : ltb bn ndirect ≡ false)
    (within : ltb (bn - ndirect) nindirect ≡ true) (g : IsOwned ip ndirect d t d1)
    (h : IsEntry t (bn - ndirect) d1 x j) where
  table_addr : addr_of ip ndirect j ≡ t
  table_addr = ap (λ f. (f ip).disk.addrs ndirect) h.inode ∙ g.addr

  free_before : in_use d1 x ≡ false → in_use d x ≡ false
  free_before f = elim (Bool-cases (in_use d x)) [
    | inr e ↦ e
    | inl e ↦ absurd (let u = g.kept.used x e in cc)
  ]

  mapped_how : (j ≡ d) ⊎ ((in_use d x ≡ false) × (in_use j x ≡ true))
  mapped_how = elim h.how [
    | inr (f, u) ↦ inr (free_before f, u)
    | inl e ↦ elim g.how [
      | inl e1 ↦ inl (e ∙ e1)
      | inr (a, f, w) ↦ absurd (
          h.nonzero (sym h.word ∙ (ap (λ (k : Fs). k.words t (bn - ndirect)) e ∙ w (bn - ndirect))))
    ]
  ]

  indirect-IsMapped : IsMapped ip bn d x j
  unfolding bmap
  indirect-IsMapped =
      let a = table_addr in
      let o = own_addr-some ip ndirect t j g.nonzero a in
      let b = bmap_indirect-some t (bn - ndirect) x j h.nonzero h.word in
      record {
        nonzero = h.nonzero;
        place = inr (
          ground arith,
          λ q. g.nonzero (sym a ∙ q),
          ap (λ y. j.words y (bn - ndirect)) a ∙ h.word,
        );
        again = rw (out, within, o) b;
        how = mapped_how;
        used = λ y u. h.used y (g.kept.used y u);
        addrs = λ c i n.
            ap (λ (f : ℕ → Inode). (f c).disk.addrs i) h.inode ∙ g.others c i (rw out at n);
        words = λ y w u n.
            h.words y w (g.kept.used y u) (elim n [
              | inl l ↦ absurd (ground arith)
              | inr m ↦ elim m [ inl p ↦ inl (λ q. p (q ∙ sym a)) | inr p ↦ inr p ]
            ])
            ∙ ap (λ (f : ℕ → ℕ). f w) (g.kept.words y u);
      }

no_room :
    (ip bn t : ℕ) (d d1 : Fs)
    → ltb bn ndirect ≡ false
    → IsOwned ip ndirect d t d1
    → ((y : ℕ) → y < d1.sb.size → in_use d1 y ≡ true)
    → NoRoom ip bn d
no_room ip bn t d d1 out g full = (
  t,
  λ y l.
      let u = full y (let e = ap (λ (k : Super). k.size) g.size in rw e l) in
      elim g.how [
        | inl e ↦ inl (ap (λ (k : Fs). in_use k y) (sym e) ∙ u)
        | inr (a, f, w) ↦ elim (Bool-cases (y == t)) [
          | inl q ↦ inr ((==_iff y t).0 q, ground arith, a)
          | inr q ↦ inl (sym (g.only y (λ v. ground arith)) ∙ u)
        ]
      ],
)

-- For a block number below the maximum, over an inode whose own addresses are of blocks in use and a
-- file system whose block 0 is in use, `bmap` returns the address that stands where the block has its,
-- in the inode or in its indirect block. It is not 0, and `bmap` returns it again from then on without a
-- change. Either nothing changes or it is of a block that was free; the blocks in use stay so, with
-- their words but for that of the address, and so do all other addresses of inodes. Otherwise it
-- panics: every block is in use, or all but one are and the inode needs an indirect block too.
pub bmap-IsMapped :
    (ip bn : ℕ) (d : Fs)
    → bn < ndirect + nindirect
    → in_use d 0 ≡ true
    → ((i : ℕ) → i ≤ ndirect → addr_of ip i d ≢ 0 → in_use d (addr_of ip i d) ≡ true)
    → Returns (λ ((x, j) : ℕ × Fs). IsMapped ip bn d x j) (bmap ip bn d)
      ⊎ ((bmap ip bn d ≡ panic Panic.out_of_blocks) × NoRoom ip bn d)
unfolding bmap
bmap-IsMapped ip bn d l boot known = elim (Bool-cases (ltb bn ndirect)) [
  | inl z ↦ elim (own_addr-IsOwned ip bn d boot (known bn (ground arith))) [
    | inr (e, full) ↦ inr (rw (z, e) refl, (0, λ y m. inl (full y m)))
    | inl r ↦ inl (rw z (mono r (λ (x, j) g. direct-IsMapped ip bn x d j (ltb→lt bn ndirect z) g)))
  ]
  | inr z ↦
      let w : ltb (bn - ndirect) nindirect ≡ true = ground arith in
      elim (own_addr-IsOwned ip ndirect d boot (known ndirect (omega arith))) [
        | inr (e, full) ↦ inr (rw (z, w, e) refl, (0, λ y m. inl (full y m)))
        | inl r ↦
            let ((t, d1), e, g) = result r in
            elim (bmap_indirect-IsEntry t (bn - ndirect) d1 (g.kept.used 0 boot)) [
              | inr (f, full) ↦ inr (rw (z, w, e, f) refl, no_room ip bn t d d1 z g full)
              | inl q ↦
                  inl
                    (rw (z, w, e) (mono q (λ (x, j) h. indirect-IsMapped ip bn t x d d1 j z w g h)))
            ]
      ]
]
