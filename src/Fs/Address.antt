-- ===== src/Fs/Address.antt =====
-- fs.c: the two steps of `bmap`, an address of the inode itself and one of its indirect block.
use xv6_memory_management_im.Common.{
  update, ℕ, ◌<◌, ◌≡◌, ◌≢◌, refl, ap, sym, ◌∙◌, true, false, arith, ◌==◌, ==-false_of_ne, ==_iff,
  ◌⊎◌, inl, inr, Bool-cases,
}
use xv6_memory_management_im.Kernel.{Run, ok, panic, Panic, Returns, returns, bind}
use xv6_memory_management_im.Fs.{Fs, Inode, addr_of, set_addr, own_addr, bmap_indirect}
use xv6_memory_management_im.Fs.Blocks.{in_use, IsAllocated}
use xv6_memory_management_im.Fs.Alloc.{balloc-IsAllocated}

-- What stays of the blocks in use when a block is allocated.
pub record IsKept (d j : Fs) : Type 0 where
  pub used : (y : ℕ) → in_use d y ≡ true → in_use j y ≡ true
  pub words : (y : ℕ) → in_use d y ≡ true → j.words y ≡ d.words y

-- No block is left.
abbrev pub IsOut : {A : Type 0} → Fs → Run A → Type 0
IsOut d r = (r ≡ panic Panic.out_of_blocks) × ((y : ℕ) → y < d.sb.size → in_use d y ≡ true)

module _ (d : Fs) (x : ℕ) (j : Fs) (g : IsAllocated d x j) where
  allocated_ne : (y : ℕ) → in_use d y ≡ true → y ≢ x
  allocated_ne y u e = let f = g.was_free in let v = rw e at u in absurd (cc)

  allocated-IsKept : IsKept d j
  allocated-IsKept = record {
    used = λ y u. g.others y (allocated_ne y u) ∙ u;
    words = λ y u.
        let z : (y == x) ≡ false = ==-false_of_ne y x (allocated_ne y u) in
        ap (λ t. t y) g.words ∙ rw z refl;
  }

-- What `own_addr` comes to.
pub record IsOwned (ip i : ℕ) (d : Fs) (x : ℕ) (j : Fs) : Type 0 where
  pub nonzero : x ≢ 0
  pub addr : addr_of ip i j ≡ x
  pub used : in_use j x ≡ true
  pub kept : IsKept d j
  pub only : (y : ℕ) → y ≢ x → in_use j y ≡ in_use d y
  pub others : (a b : ℕ) → (a ≢ ip) ⊎ (b ≢ i) → addr_of a b j ≡ addr_of a b d
  pub size : j.sb ≡ d.sb
  pub how : (j ≡ d) ⊎ ((addr_of ip i d ≡ 0) × (in_use d x ≡ false) × ((w : ℕ) → j.words x w ≡ 0))

addr-set_addr : (ip i a : ℕ) (d : Fs) → addr_of ip i (set_addr ip i a d) ≡ a
unfolding set_addr
addr-set_addr ip i a d =
    let z1 : (ip == ip) ≡ true = (==_iff ip ip).1 refl in
    let z2 : (i == i) ≡ true = (==_iff i i).1 refl in rw (addr_of, z1, z2) refl

addr-set_addr_else :
    (ip i a b c : ℕ) (d : Fs) → (b ≢ ip) ⊎ (c ≢ i) → addr_of b c (set_addr ip i a d) ≡ addr_of b c d
unfolding set_addr
addr-set_addr_else ip i a b c d h = elim (Bool-cases (b == ip)) [
  | inr e ↦ rw (addr_of, e) refl
  | inl e ↦
      let q = (==_iff b ip).0 e in
      let z : (c == i) ≡ false = ==-false_of_ne c i (λ u. elim h [ inl n ↦ n q | inr n ↦ n u ]) in
      rw (addr_of, e, z) (ap (λ t. addr_of t c d) (sym q))
]

pub own_addr-IsOwned :
    (ip i : ℕ) (d : Fs)
    → in_use d 0 ≡ true
    → (addr_of ip i d ≢ 0 → in_use d (addr_of ip i d) ≡ true)
    → Returns (λ ((x, j) : ℕ × Fs). IsOwned ip i d x j) (own_addr ip i d)
      ⊎ IsOut d (own_addr ip i d)
unfolding own_addr set_addr
own_addr-IsOwned ip i d boot known = elim (Bool-cases (addr_of ip i d == 0)) [
  | inr z ↦
      let ne : addr_of ip i d ≢ 0 = λ q. ground arith in
      inl (
        rw z (
          returns record {
            nonzero = ne;
            addr = refl;
            used = known ne;
            kept = record { used = λ y u. u; words = λ y u. refl };
            only = λ y n. refl;
            others = λ a b n. refl;
            size = refl;
            how = inl refl;
          }))
  | inl z ↦ elim (balloc-IsAllocated d) [
    | inr (e, full) ↦ inr (rw (z, e) refl, full)
    | inl r ↦ inl (
        rw z (
          bind r (λ (x, j) g.
            let k = allocated-IsKept d x j g in
            returns record {
              nonzero = λ q. allocated_ne d x j g 0 boot (sym q);
              addr = addr-set_addr ip i x j;
              used = g.now;
              kept = record { used = k.used; words = k.words };
              only = g.others;
              others = λ a b n.
                  addr-set_addr_else ip i x a b j n
                  ∙ ap (λ (f : ℕ → Inode). (f a).disk.addrs b) g.rest.2;
              size = g.rest.0;
              how =
                  let same : (x == x) ≡ true = (==_iff x x).1 refl in
                  inr (
                    (==_iff _ _).0 z,
                    g.was_free,
                    λ w. ap (λ (f : ℕ → ℕ → ℕ). f x w) g.words ∙ rw same refl,
                  );
            })))
  ]
]

pub own_addr-some : (ip i x : ℕ) (d : Fs) → x ≢ 0 → addr_of ip i d ≡ x → own_addr ip i d ≡ ok (x, d)
unfolding own_addr
own_addr-some ip i x d ne e = let z : (x == 0) ≡ false = ==-false_of_ne x 0 ne in rw (e, z) refl

row_else :
    (f : ℕ → ℕ → ℕ) (t i x y w : ℕ) → (y ≢ t) ⊎ (w ≢ i) → update f t (update (f t) i x) y w ≡ f y w
row_else f t i x y w h = elim (Bool-cases (y == t)) [
  | inr e ↦ rw e refl
  | inl e ↦
      let q = (==_iff y t).0 e in
      let z : (w == i) ≡ false = ==-false_of_ne w i (λ u. elim h [ inl n ↦ n q | inr n ↦ n u ]) in
      rw (e, z) (ap (λ a. f a w) (sym q))
]

-- What `bmap_indirect` comes to.
pub record IsEntry (table bn : ℕ) (d : Fs) (x : ℕ) (j : Fs) : Type 0 where
  pub nonzero : x ≢ 0
  pub word : j.words table bn ≡ x
  pub used : (y : ℕ) → in_use d y ≡ true → in_use j y ≡ true
  pub inode : j.inode ≡ d.inode
  pub words : (y w : ℕ) → in_use d y ≡ true → (y ≢ table) ⊎ (w ≢ bn) → j.words y w ≡ d.words y w
  pub how : (j ≡ d) ⊎ ((in_use d x ≡ false) × (in_use j x ≡ true))

pub bmap_indirect-IsEntry :
    (table bn : ℕ) (d : Fs)
    → in_use d 0 ≡ true
    → Returns (λ ((x, j) : ℕ × Fs). IsEntry table bn d x j) (bmap_indirect table bn d)
      ⊎ IsOut d (bmap_indirect table bn d)
unfolding bmap_indirect
bmap_indirect-IsEntry table bn d boot = elim (Bool-cases (d.words table bn == 0)) [
  | inr z ↦
      let ne : d.words table bn ≢ 0 = λ q. ground arith in
      inl (
        rw z (
          returns record {
            nonzero = ne;
            word = refl;
            used = λ y u. u;
            inode = refl;
            words = λ y w u n. refl;
            how = inl refl;
          }))
  | inl z ↦ elim (balloc-IsAllocated d) [
    | inr (e, full) ↦ inr (rw (z, e) refl, full)
    | inl r ↦ inl (
        rw z (
          bind r (λ (x, j) g.
            let k = allocated-IsKept d x j g in
            let z1 : (table == table) ≡ true = (==_iff _ _).1 refl in
            let z2 : (bn == bn) ≡ true = (==_iff _ _).1 refl in
            returns record {
              nonzero = λ q. allocated_ne d x j g 0 boot (sym q);
              word = rw (z1, z2) refl;
              used = k.used;
              inode = g.rest.2;
              words = λ y w u n.
                  row_else j.words table bn x y w n ∙ ap (λ (f : ℕ → ℕ). f w) (k.words y u);
              how = inr (g.was_free, g.now);
            })))
  ]
]

pub bmap_indirect-some :
    (table bn x : ℕ) (d : Fs) → x ≢ 0 → d.words table bn ≡ x → bmap_indirect table bn d ≡ ok (x, d)
unfolding bmap_indirect
bmap_indirect-some table bn x d ne e =
    let z : (x == 0) ≡ false = ==-false_of_ne x 0 ne in rw (e, z) refl
