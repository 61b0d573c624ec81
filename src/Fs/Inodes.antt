-- ===== src/Fs/Inodes.antt =====
-- fs.c: `iget` and the references of the cache of inodes.
use xv6_memory_management_im.Common.{
  ℕ, zero, suc, ◌+◌, ◌≤◌, ◌<◌, ◌≡◌, ◌≢◌, refl, sym, ◌∙◌, Bool, true, false, ◌&&◌, arith,
  if◌then◌else◌, ◌==◌, ==_iff, update, ltb, Option, none, some, ◌⊎◌, inl, inr, Bool-cases,
  Option-cases, some_eq,
}
use xv6_memory_management_im.Kernel.{panic, Panic, Returns, returns}
use xv6_memory_management_im.Fs.{
  Fs, Inode, ninode, find_inode, first_empty, iget_found, iget, with_inode,
}

-- The entry is in use for the inode.
abbrev pub is_cached : ℕ → ℕ → Inode → Bool
is_cached dev inum x = ltb 0 x.ref && ((x.dev == dev) && (x.inum == inum))

-- The first of the `n` entries from `ip` on that has no reference.
abbrev pub first_free : ℕ → ℕ → (ℕ → Inode) → Option ℕ
first_free zero ip f = none
first_free (suc n) ip f =
    let rest = first_free n (ip + 1) f in if (f ip).ref == 0 then some ip else rest

abbrev or_else : Option ℕ → Option ℕ → Option ℕ
or_else (some a) o = some a
or_else none o = o

or_else-first_empty :
    (e : Option ℕ) (idle : Bool) (ip : ℕ) (o : Option ℕ)
    → or_else (first_empty e idle ip) o ≡ or_else e (if idle then some ip else o)
or_else-first_empty (some e) idle ip o = refl
or_else-first_empty none true ip o = refl
or_else-first_empty none false ip o = refl

first_free-some :
    (n ip a : ℕ) (f : ℕ → Inode) → first_free n ip f ≡ some a → (a < ip + n) × ((f a).ref ≡ 0)
first_free-some zero ip a f e = cc
first_free-some (suc n) ip a f e = elim (Bool-cases ((f ip).ref == 0)) [
  | inl t ↦
      let h = rw t at e in let q = some_eq ip a h in (omega arith, rw (sym q) ((==_iff _ 0).0 t))
  | inr t ↦ let h = rw t at e in let (l, z) = first_free-some n (ip + 1) a f h in (omega arith, z)
]

first_free-none :
    (n ip a : ℕ) (f : ℕ → Inode) → first_free n ip f ≡ none → ip ≤ a → a < ip + n → 0 < (f a).ref
first_free-none zero ip a f e l g = absurd (omega arith)
first_free-none (suc n) ip a f e l g = elim (Bool-cases ((f ip).ref == 0)) [
  | inl t ↦ let h = rw t at e in cc
  | inr t ↦
      let h = rw t at e in
      elim (Bool-cases (a == ip)) [
        | inl q ↦ let z = (==_iff _ _).0 q in rw z (ground arith)
        | inr q ↦ first_free-none n (ip + 1) a f h (ground arith) (omega arith)
      ]
]

found-cases : (x : Option ℕ ⊎ ℕ) → ((r : Option ℕ) × (x ≡ inl r)) ⊎ ((a : ℕ) × (x ≡ inr a))
found-cases (inl r) = inl (r, refl)
found-cases (inr a) = inr (a, refl)

inl_inj : {a b : Option ℕ} → Path (Option ℕ ⊎ ℕ) (inl a) (inl b) → a ≡ b
inl_inj e = cc

inr_inj : {a b : ℕ} → Path (Option ℕ ⊎ ℕ) (inr a) (inr b) → a ≡ b
inr_inj e = cc

module _ (dev inum : ℕ) (d : Fs) where
  find-inr :
      (n ip : ℕ) (e : Option ℕ) (a : ℕ)
      → find_inode n ip dev inum e d ≡ inr a
      → (a < ip + n) × (is_cached dev inum (d.inode a) ≡ true)
  unfolding find_inode
  find-inr zero ip e a h = cc
  find-inr (suc n) ip e a h = elim (Bool-cases (is_cached dev inum (d.inode ip))) [
    | inl z ↦ let k = rw z at h in let q = inr_inj k in (omega arith, rw (sym q) z)
    | inr z ↦
        let k = rw z at h in
        let (l, t) = find-inr n (ip + 1) (first_empty e ((d.inode ip).ref == 0) ip) a k in
        (omega arith, t)
  ]

  find-inl :
      (n ip : ℕ) (e r : Option ℕ)
      → find_inode n ip dev inum e d ≡ inl r
      → (r ≡ or_else e (first_free n ip d.inode))
        × ((a : ℕ) → ip ≤ a → a < ip + n → is_cached dev inum (d.inode a) ≡ false)
  unfolding find_inode
  find-inl zero ip none r h = (sym (inl_inj h), λ a l g. absurd (omega arith))
  find-inl zero ip (some e) r h = (sym (inl_inj h), λ a l g. absurd (omega arith))
  find-inl (suc n) ip e r h = elim (Bool-cases (is_cached dev inum (d.inode ip))) [
    | inl z ↦ let k = rw z at h in cc
    | inr z ↦
        let k = rw z at h in
        let (q, t) = find-inl n (ip + 1) (first_empty e ((d.inode ip).ref == 0) ip) r k in
        (
          q ∙ or_else-first_empty e ((d.inode ip).ref == 0) ip (first_free n (ip + 1) d.inode),
          λ a l g. elim (Bool-cases (a == ip)) [
            | inl w ↦ let v = (==_iff a ip).0 w in rw v z
            | inr w ↦ t a (ground arith) (omega arith)
          ],
        )
  ]

-- No inode is in two entries in use.
unfoldable pub IsIcache : (ℕ → Inode) → Type 0
IsIcache f =
    (a b : ℕ)
    → a < ninode
    → b < ninode
    → 0 < (f a).ref
    → 0 < (f b).ref
    → (f a).dev ≡ (f b).dev
    → (f a).inum ≡ (f b).inum
    → a ≡ b

-- The entry `b` may change to `y` if no other entry in use has the inode of `y`.
pub update-IsIcache :
    (f : ℕ → Inode) (b : ℕ) (y : Inode)
    → ((a : ℕ) → a < ninode → a ≢ b → is_cached y.dev y.inum (f a) ≡ false)
    → IsIcache f
    → IsIcache (update f b y)
unfolding IsIcache
update-IsIcache f b y alone s a d la ld ra rd de ie = elim (Bool-cases (a == b)) [
  | inl ea ↦ elim (Bool-cases (d == b)) [
    | inl ed ↦ (==_iff a b).0 ea ∙ sym ((==_iff d b).0 ed)
    | inr ed ↦
        let h1 = rw (ea, ed) at de in
        let h2 = rw (ea, ed) at ie in
        let h3 = rw ed at rd in let z = alone d ld (λ q. ground arith) in absurd (ground arith)
  ]
  | inr ea ↦ elim (Bool-cases (d == b)) [
    | inl ed ↦
        let h1 = rw (ea, ed) at de in
        let h2 = rw (ea, ed) at ie in
        let h3 = rw ea at ra in let z = alone a la (λ q. ground arith) in absurd (ground arith)
    | inr ed ↦
        let h1 = rw (ea, ed) at de in
        let h2 = rw (ea, ed) at ie in
        let h3 = rw ea at ra in let h4 = rw ed at rd in s a d la ld h3 h4 h1 h2
  ]
]

-- A change that spares the inode of an entry in use.
pub same_inode-IsIcache :
    (f : ℕ → Inode) (b : ℕ) (y : Inode)
    → b < ninode
    → 0 < (f b).ref
    → y.dev ≡ (f b).dev
    → y.inum ≡ (f b).inum
    → IsIcache f
    → IsIcache (update f b y)
unfolding IsIcache
same_inode-IsIcache f b y l r d i s =
    update-IsIcache f b y
      (λ a la ne. elim (Bool-cases (is_cached y.dev y.inum (f a))) [
        | inr e ↦ e
        | inl e ↦ absurd (ne (s a b la l (ground arith) r (ground arith) (ground arith)))
      ])
      s

-- What `iget` comes to: the entry of the inode with one reference more, or the first entry without
-- reference, given to the inode.
pub record IsFound (dev inum : ℕ) (d : Fs) (ip : ℕ) (j : Fs) : Type 0 where
  pub entry : ip < ninode
  pub cached : is_cached dev inum (j.inode ip) ≡ true
  pub cache : IsIcache j.inode
  pub how :
      ((is_cached dev inum (d.inode ip) ≡ true)
        × (j ≡ with_inode ip (record (d.inode ip) { ref = (d.inode ip).ref + 1 }) d))
      ⊎ (((a : ℕ) → a < ninode → is_cached dev inum (d.inode a) ≡ false)
          × (first_free ninode 0 d.inode ≡ some ip)
          × (j
              ≡ with_inode ip
                  (record (d.inode ip) { dev = dev; inum = inum; ref = 1; valid = false })
                  d))

module _ (dev inum : ℕ) (d : Fs) (s : IsIcache d.inode) where
  iget_hit :
      (ip : ℕ)
      → ip < ninode
      → is_cached dev inum (d.inode ip) ≡ true
      → IsFound dev inum d ip (with_inode ip (record (d.inode ip) { ref = (d.inode ip).ref + 1 }) d)
  unfolding IsIcache
  iget_hit ip l t =
      let y : Inode = record (d.inode ip) { ref = (d.inode ip).ref + 1 } in
      let z : (ip == ip) ≡ true = (==_iff ip ip).1 refl in
      record {
        entry = l;
        cached = rw z (ground arith);
        cache = same_inode-IsIcache d.inode ip y l (ground arith) refl refl s;
        how = inl (t, refl);
      }

  iget_new :
      (ip : ℕ)
      → ((a : ℕ) → a < ninode → is_cached dev inum (d.inode a) ≡ false)
      → first_free ninode 0 d.inode ≡ some ip
      → IsFound dev inum d ip
          (with_inode ip (record (d.inode ip) { dev = dev; inum = inum; ref = 1; valid = false }) d)
  iget_new ip none_has e =
      let y : Inode = record (d.inode ip) { dev = dev; inum = inum; ref = 1; valid = false } in
      let z : (ip == ip) ≡ true = (==_iff ip ip).1 refl in
      let (l, r) = first_free-some ninode 0 ip d.inode e in
      record {
        entry = omega arith;
        cached = rw z (ground arith);
        cache = update-IsIcache d.inode ip y (λ a la ne. none_has a la) s;
        how = inr (none_has, e, refl);
      }

  -- Over a cache in which no inode is in two entries in use, `iget` returns the entry of the inode, with one
  -- reference more, or when it is in none the first entry without reference, which it gives to the inode,
  -- not valid and with one reference. No inode is then in two entries, and nothing else changes. Only when
  -- the inode is in no entry and all 50 have references does it panic.
  pub iget-IsFound :
      Returns (λ ((ip, j) : ℕ × Fs). IsFound dev inum d ip j) (iget dev inum d)
      ⊎ ((iget dev inum d ≡ panic Panic.iget_no_inodes)
          × ((a : ℕ)
              → a < ninode
              → (is_cached dev inum (d.inode a) ≡ false) × (0 < (d.inode a).ref)))
  unfolding iget iget_found
  iget-IsFound = elim (found-cases (find_inode ninode 0 dev inum none d)) [
    | inr (ip, e) ↦
        let (l, t) = find-inr dev inum d ninode 0 none ip e in
        inl (rw e (returns (iget_hit ip (omega arith) t)))
    | inl (r, e) ↦
        let (q, miss) = find-inl dev inum d ninode 0 none r e in
        let none_has = λ (a : ℕ) (l : a < ninode). miss a (omega arith) (omega arith) in
        elim (Option-cases r) [
          | inl z ↦ inr (
            rw (e, z) refl,
            λ a l. (
              none_has a l,
              first_free-none ninode 0 a d.inode (sym q ∙ z) (omega arith) (omega arith),
            ),
          )
          | inr (ip, z) ↦ inl (rw (e, z) (returns (iget_new ip none_has (sym q ∙ z))))
        ]
  ]
