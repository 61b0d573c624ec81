-- ===== src/Log/Recover.antt =====
-- log.c: what recovery makes of a disk, whenever the machine stopped.
use xv6_memory_management_im.Common.{
  ℕ, zero, suc, ◌+◌, ◌≤◌, ◌<◌, ◌≡◌, ◌≢◌, refl, ap, sym, ◌∙◌, true, false, List, [], ◌∷◌, arith,
  ◌==◌, ==-false_of_ne, ==_iff, update, All, Option, none, ◌⊎◌, inl, inr, Bool-cases, lt→ltb,
}
use mathlib.Core.Path.{subst}
use mathlib.Core.Bool.{false≢true}
use xv6_memory_management_im.Log.{
  Block, Disk, Log, bread, bwrite, install_loop, install_trans, header, write_head, read_head,
  recover_from_log, mounted, initlog,
}

pub update-none : (f : ℕ → Option Block) (x b : ℕ) → f b ≡ none → update f x none b ≡ none
update-none f x b h = elim (Bool-cases (b == x)) [ inl e ↦ rw e | inr e ↦ rw e h ]

earlier : (f : ℕ → ℕ) (j t : ℕ) → j < t + 1 → (f j == f t) ≡ false → j < t
earlier f j t l e = elim (Bool-cases (j == t)) [
  | inl q ↦
      let i = (==_iff _ _).0 q in absurd (false≢true (sym e ∙ (rw i ((==_iff (f t) (f t)).1 refl))))
  | inr q ↦ ground arith
]

-- A block that is not in the log.
abbrev pub IsHome : ℕ → ℕ → ℕ → Type 0
IsHome start size b = (b < start) ⊎ (start + size ≤ b)

-- The disk holds a committed transaction: `n` blocks, whose new contents are `v`.
pub record IsLogged (start n : ℕ) (block : ℕ → ℕ) (v : ℕ → Block) (d : Disk) : Type 0 where
  pub count : d start 0 ≡ n
  pub entry : (i : ℕ) → i < n → d start (i + 1) ≡ block i
  pub copy : (i : ℕ) → i < n → d (start + i + 1) ≡ v (block i)

module _ (start size n : ℕ) (block : ℕ → ℕ) (v : ℕ → Block) (base : Disk) (fits : n < size)
    (homes : (i : ℕ) → i < n → IsHome start size (block i)) where
  abbrev pub IsUnlisted : ℕ → Type 0
  IsUnlisted b = IsHome start size b × ((i : ℕ) → i < n → block i ≢ b)

  -- A disk on which the transaction is committed, and some of its blocks may be installed.
  abbrev pub IsCommitted : Disk → Type 0
  IsCommitted d = IsLogged start n block v d × ((b : ℕ) → IsUnlisted b → d b ≡ base b)

  -- `Q` is what every disk that a crash may leave satisfies.
  pub record IsInstalling (Q : Disk → Type 0) (tail : ℕ) (s : Log) : Type 0 where
    pub at : s.start ≡ start
    pub count : s.count ≡ n
    pub entry : (i : ℕ) → i < n → s.block i ≡ block i
    pub uncached : (i : ℕ) → i < n → s.cache (start + i + 1) ≡ none
    pub committed : IsCommitted s.disk
    pub done : (i : ℕ) → i < tail → s.disk (block i) ≡ v (block i)
    pub past : All Q s.past

  pub home-ne : (i b : ℕ) → i < n → IsHome start size b → (start + i + 1) ≢ b
  home-ne i b l h e = elim h [ inl x ↦ omega arith | inr x ↦ omega arith ]

  -- A home block of the transaction is written with its new contents.
  IsCommitted-update :
      (d : Disk) (t : ℕ) → t < n → IsCommitted d → IsCommitted (update d (block t) (v (block t)))
  IsCommitted-update d t l (g, r) =
      let z : (start == block t) ≡ false =
        ==-false_of_ne _ _ (λ e. elim (homes t l) [ inl x ↦ omega arith | inr x ↦ omega arith ]) in
      (
        record {
          count = rw z g.count;
          entry = λ i a. rw z (g.entry i a);
          copy = λ i a. rw (==-false_of_ne _ _ (home-ne i (block t) a (homes t l))) (g.copy i a);
        },
        λ b u. rw (==-false_of_ne _ _ (λ e. u.1 t l (sym e))) (r b u),
      )

  bread-copy :
      (Q : Disk → Type 0) (s : Log) (t tail : ℕ)
      → t < n
      → IsInstalling Q tail s
      → bread (s.start + t + 1) s ≡ v (block t)
  unfolding bread
  bread-copy Q s t tail l i = rw (i.at, i.uncached t l) (i.committed.0.copy t l)

  IsInstalling-bwrite :
      (Q : Disk → Type 0) (le : (d : Disk) → IsCommitted d → Q d) (s : Log) (tail : ℕ)
      → tail < n
      → IsInstalling Q tail s
      → IsInstalling Q (tail + 1) (bwrite (s.block tail) (bread (s.start + tail + 1) s) s)
  unfolding bwrite
  IsInstalling-bwrite Q le s tail l i =
      rw (i.entry tail l, bread-copy Q s tail tail l i)
        (record {
          at = i.at;
          count = i.count;
          entry = i.entry;
          uncached = λ j a. update-none s.cache (block tail) (start + j + 1) (i.uncached j a);
          committed = IsCommitted-update s.disk tail l i.committed;
          done = λ j a. elim (Bool-cases (block j == block tail)) [
            | inl e ↦ rw e (ap v (sym ((==_iff _ _).0 e)))
            | inr e ↦ rw e (i.done j (earlier block j tail a e))
          ];
          past = (le s.disk i.committed, i.past);
        })

  pub install_loop-IsInstalling :
      (Q : Disk → Type 0) (le : (d : Disk) → IsCommitted d → Q d) (m : ℕ) (s : Log) (tail : ℕ)
      → tail + m ≡ n
      → IsInstalling Q tail s
      → IsInstalling Q n (install_loop m tail s)
  unfolding install_loop
  install_loop-IsInstalling Q le zero s tail e i =
      let q : tail ≡ n = omega arith in subst (λ (t : ℕ). IsInstalling Q t s) q i
  install_loop-IsInstalling Q le (suc m) s tail e i =
      install_loop-IsInstalling Q le m _ (tail + 1) (omega arith)
        (IsInstalling-bwrite Q le s tail (omega arith) i)

  -- What a disk holds after recovery, apart from the log itself: the new contents of the blocks of
  -- the transaction, and the other blocks as they were; the log is empty.
  pub record IsRecovered (d : Disk) : Type 0 where
    pub empty : d start 0 ≡ 0
    pub new : (i : ℕ) → i < n → d (block i) ≡ v (block i)
    pub others : (b : ℕ) → IsUnlisted b → d b ≡ base b

  pub IsRecovered-write_head :
      (Q : Disk → Type 0) (s : Log)
      → IsInstalling Q n s
      → IsRecovered (write_head (record s { count = 0 })).disk
  unfolding write_head bwrite header
  IsRecovered-write_head Q s i = rw i.at (record {
    empty = let z : (start == start) ≡ true = (==_iff _ _).1 refl in rw z;
    new = λ j a.
        let z : (block j == start) ≡ false =
          ==-false_of_ne _ _
            (λ e. elim (homes j a) [ inl x ↦ omega arith | inr x ↦ omega arith ]) in
        rw z (i.done j a);
    others = λ b u.
        let z : (b == start) ≡ false =
          ==-false_of_ne _ _ (λ e. elim u.0 [ inl x ↦ omega arith | inr x ↦ omega arith ]) in
        rw z (i.committed.1 b u);
  })

  read_head-IsInstalling :
      (d : Disk) → IsCommitted d → IsInstalling IsCommitted 0 (read_head (mounted start size d))
  unfolding read_head bread
  read_head-IsInstalling d c = record {
    at = refl;
    count = c.0.count;
    entry = λ i l. rw (c.0.count, lt→ltb i n l) (c.0.entry i l);
    uncached = λ i l. refl;
    committed = c;
    done = λ i l. absurd (omega arith);
    past = tt;
  }

  installed :
      (d : Disk)
      → IsCommitted d
      → IsInstalling IsCommitted n (install_trans (read_head (mounted start size d)))
  unfolding install_trans
  installed d c =
      let h = read_head-IsInstalling d c in
      subst
        (λ (m : ℕ).
          IsInstalling IsCommitted n (install_loop m 0 (read_head (mounted start size d))))
        (sym h.count)
        (install_loop-IsInstalling IsCommitted (λ _ k. k) n (read_head (mounted start size d)) 0
          (omega arith) h)

  -- A machine that starts on a disk with a committed transaction installs it.
  pub initlog-IsRecovered : (d : Disk) → IsCommitted d → IsRecovered (initlog start size d).disk
  unfolding initlog recover_from_log
  initlog-IsRecovered d c = IsRecovered-write_head IsCommitted _ (installed d c)

  -- A machine that stops during recovery leaves a disk on which the transaction is still committed.
  pub initlog-past : (d : Disk) → IsCommitted d → All IsCommitted (initlog start size d).past
  unfolding initlog recover_from_log write_head bwrite
  initlog-past d c = let i = installed d c in (i.committed, i.past)

  -- Recovery that is itself stopped loses nothing: from every disk that a crash during it may leave,
  -- as from its end, the next recovery makes the same disk outside the log. The transaction is
  -- committed on the disk, and its blocks are not blocks of the log, which has room for them.
  pub initlog-again :
      (d : Disk)
      → IsCommitted d
      → All (λ e. IsRecovered (initlog start size e).disk) (initlog start size d).past
        × IsRecovered (initlog start size d).disk
  initlog-again d c = (each (initlog start size d).past (initlog-past d c), initlog-IsRecovered d c)
    where
      each :
          (ds : List Disk)
          → All IsCommitted ds
          → All (λ e. IsRecovered (initlog start size e).disk) ds
      each [] a = tt
      each (e ∷ ds) (a, r) = (initlog-IsRecovered e a, each ds r)
