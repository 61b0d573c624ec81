-- ===== src/Log/Commit.antt =====
-- log.c: `commit` is atomic: wherever the machine stops, recovery finds all of a transaction or none.
use xv6_memory_management_im.Common.{
  ℕ, zero, suc, ◌+◌, ◌-◌, ◌<◌, ◌≡◌, ◌≢◌, refl, sym, ◌∙◌, true, false, List, [], ◌∷◌, arith, ◌==◌,
  ==-false_of_ne, ==_iff, ltb, leb, All, none, ◌⊎◌, inl, inr, Bool-cases,
}
use mathlib.Core.Path.{subst}
use xv6_memory_management_im.Log.{
  Block, Disk, Log, bread, bwrite, write_loop, write_log, install_loop, install_trans, header,
  write_head, commit, initlog,
}
use xv6_memory_management_im.Log.Recover.{
  IsHome, IsCommitted, IsInstalling, IsRecovered, update-none, install_loop-IsInstalling,
  IsRecovered-write_head, initlog-IsRecovered,
}

-- Before a commit: the log on the disk is empty, no block of it is cached, and it has room for the
-- blocks of the transaction, which are not its own.
pub record IsReady (s : Log) : Type 0 where
  pub empty : s.disk s.start 0 ≡ 0
  pub fits : s.count < s.size
  pub homes : (i : ℕ) → i < s.count → IsHome s.start s.size (s.block i)
  pub uncached : (i : ℕ) → i < s.count → s.cache (s.start + i + 1) ≡ none
  pub fresh : s.past ≡ []

module _ (s0 : Log) (ready : IsReady s0) where
  -- The contents that the calls of this transaction have made, and the disk before the commit.
  abbrev v : ℕ → Block
  v b = bread b s0

  -- No block outside the log has been written.
  abbrev IsOld : Disk → Type 0
  IsOld d = (d s0.start 0 ≡ 0) × ((b : ℕ) → IsHome s0.start s0.size b → d b ≡ s0.disk b)

  abbrev IsNew : Disk → Type 0
  IsNew d = IsCommitted s0.start s0.size s0.count s0.block v s0.disk ready.fits ready.homes d

  abbrev IsSafe : Disk → Type 0
  IsSafe d = IsOld d ⊎ IsNew d

  record IsWriting (tail : ℕ) (s : Log) : Type 0 where
    at : s.start ≡ s0.start
    count : s.count ≡ s0.count
    block : (i : ℕ) → i < s0.count → s.block i ≡ s0.block i
    cache : (b : ℕ) → IsHome s0.start s0.size b → s.cache b ≡ s0.cache b
    uncached : (i : ℕ) → i < s0.count → s.cache (s0.start + i + 1) ≡ none
    old : IsOld s.disk
    copy : (i : ℕ) → i < tail → s.disk (s0.start + i + 1) ≡ v (s0.block i)
    past : All IsSafe s.past

  bread-old :
      (s : Log) (tail b : ℕ) → IsHome s0.start s0.size b → IsWriting tail s → bread b s ≡ v b
  unfolding bread
  bread-old s tail b h w = rw (w.cache b h, w.old.1 b h)

  away : (b t : ℕ) → t < s0.count → IsHome s0.start s0.size b → b ≢ (s0.start + t + 1)
  away b t l h e = let f = ready.fits in elim h [ inl x ↦ omega arith | inr x ↦ omega arith ]

  IsWriting-next :
      (s : Log) (tail : ℕ)
      → tail < s0.count
      → IsWriting tail s
      → IsWriting (tail + 1) (bwrite (s0.start + tail + 1) (v (s0.block tail)) s)
  unfolding bwrite
  IsWriting-next s tail l w = record {
    at = w.at;
    count = w.count;
    block = w.block;
    cache = λ b h. rw (==-false_of_ne _ _ (away b tail l h)) (w.cache b h);
    uncached = λ i a. update-none s.cache (s0.start + tail + 1) (s0.start + i + 1) (w.uncached i a);
    old = (
      let z : (s0.start == s0.start + tail + 1) ≡ false = ==-false_of_ne _ _ (λ e. omega arith) in
          rw z w.old.0,
      λ b h. rw (==-false_of_ne _ _ (away b tail l h)) (w.old.1 b h),
    );
    copy = λ i a. elim (Bool-cases (i == tail)) [
      | inl q ↦
          let e = (==_iff _ _).0 q in
          let z : (s0.start + i + 1 == s0.start + tail + 1) ≡ true = (==_iff _ _).1 (omega arith) in
          rw (z, e)
      | inr q ↦
          let z : (s0.start + i + 1 == s0.start + tail + 1) ≡ false =
            ==-false_of_ne _ _ (λ e. ground arith) in
          rw z (w.copy i (ground arith))
    ];
    past = (inl w.old, w.past);
  }

  write_loop-IsWriting :
      (m : ℕ) (s : Log) (tail : ℕ)
      → tail + m ≡ s0.count
      → IsWriting tail s
      → IsWriting s0.count (write_loop m tail s)
  unfolding write_loop
  write_loop-IsWriting zero s tail e w =
      let q : tail ≡ s0.count = omega arith in subst (λ (t : ℕ). IsWriting t s) q w
  write_loop-IsWriting (suc m) s tail e w =
      let l : tail < s0.count = omega arith in
      let a = w.at in
      let c : s.start + tail + 1 ≡ s0.start + tail + 1 = omega arith in
      let d = bread-old s tail (s0.block tail) (ready.homes tail l) w in
      write_loop-IsWriting m _ (tail + 1) (omega arith)
        (rw (c, w.block tail l, d) (IsWriting-next s tail l w))

  -- The write of the header turns the disk into one on which the transaction is committed.
  write_head-IsInstalling :
      (s : Log)
      → IsWriting s0.count s
      → IsInstalling s0.start s0.size s0.count s0.block v s0.disk ready.fits ready.homes IsSafe 0
          (write_head s)
  unfolding write_head bwrite header
  write_head-IsInstalling s w =
      let f = ready.fits in
      let same : (s0.start == s.start) ≡ true = (==_iff _ _).1 (sym w.at) in
      let off = λ (b : ℕ) (n : b ≢ s0.start).
        (let a = w.at in
          let z : (b == s.start) ≡ false = ==-false_of_ne _ _ (λ e. n (omega arith)) in z) in
      record {
        at = w.at;
        count = w.count;
        entry = w.block;
        uncached = λ i a. update-none s.cache s.start (s0.start + i + 1) (w.uncached i a);
        committed = (
          record {
            count = rw same w.count;
            entry = λ i a.
                let c = w.count in
                let le : leb (i + 1) s.count ≡ true = ground arith in
                let ne : (i + 1 == 0) ≡ false = ground arith in
                let e : i + 1 - 1 ≡ i = omega arith in rw (same, ne, le, e) (w.block i a);
            copy = λ i a. rw (off (s0.start + i + 1) (λ e. omega arith)) (w.copy i a);
          },
          λ b u.
              rw (off b (λ e. elim u.0 [ inl x ↦ omega arith | inr x ↦ omega arith ]))
                (w.old.1 b u.0),
        );
        done = λ i a. absurd (omega arith);
        past = (inl w.old, w.past);
      }

  started : IsWriting 0 s0
  started = record {
    at = refl;
    count = refl;
    block = λ i l. refl;
    cache = λ b h. refl;
    uncached = ready.uncached;
    old = (ready.empty, λ b h. refl);
    copy = λ i l. absurd (omega arith);
    past = subst (All IsSafe) (sym ready.fresh) tt;
  }

  abbrev IsInstalled : Log → Type 0
  IsInstalled s =
      IsInstalling s0.start s0.size s0.count s0.block v s0.disk ready.fits ready.homes IsSafe
        s0.count s

  installed : IsInstalled (install_trans (write_head (write_log s0)))
  unfolding install_trans write_log
  installed =
      let w = write_loop-IsWriting s0.count s0 0 (omega arith) started in
      let h = write_head-IsInstalling (write_loop s0.count 0 s0) w in
      subst (λ (m : ℕ). IsInstalled (install_loop m 0 (write_head (write_loop s0.count 0 s0))))
        (sym h.count)
        (install_loop-IsInstalling s0.start s0.size s0.count s0.block v s0.disk ready.fits
          ready.homes IsSafe (λ d k. inr k) s0.count (write_head (write_loop s0.count 0 s0)) 0
          (omega arith) h)

  -- What recovery makes of a disk: the transaction has happened, or it has not.
  pub data Outcome (d : Disk) : Type 0 where
    whole :
        ((i : ℕ) → i < s0.count → d (s0.block i) ≡ bread (s0.block i) s0)
        → ((b : ℕ)
            → IsHome s0.start s0.size b
            → ((i : ℕ) → i < s0.count → s0.block i ≢ b)
            → d b ≡ s0.disk b)
        → Outcome d
    nothing : ((b : ℕ) → IsHome s0.start s0.size b → d b ≡ s0.disk b) → Outcome d

  recover_old : (d : Disk) → IsOld d → Outcome (initlog s0.start s0.size d).disk
  recover_old d (e, h) =
      let r =
        initlog-IsRecovered s0.start s0.size 0 (λ _. 0) v d (omega (arith, ready.fits))
          (λ i l. absurd (omega arith)) d
          (
            record {
              count = e;
              entry = λ i l. absurd (omega arith);
              copy = λ i l. absurd (omega arith);
            },
            λ b u. refl,
          ) in
      nothing (λ b k. r.others b (k, λ i l. absurd (omega arith)) ∙ h b k)

  recover_safe : (d : Disk) → IsSafe d → Outcome (initlog s0.start s0.size d).disk
  recover_safe d (inl o) = recover_old d o
  recover_safe d (inr c) =
      let r =
        initlog-IsRecovered s0.start s0.size s0.count s0.block v s0.disk ready.fits ready.homes d
          c in
      whole r.new (λ b h n. r.others b (h, n))

  -- With the log erased, recovery changes nothing outside it.
  recover_empty :
      (d : Disk)
      → d s0.start 0 ≡ 0
      → (b : ℕ) → IsHome s0.start s0.size b
      → (initlog s0.start s0.size d).disk b ≡ d b
  recover_empty d e b h =
      let r =
        initlog-IsRecovered s0.start s0.size 0 (λ _. 0) v d (omega (arith, ready.fits))
          (λ i l. absurd (omega arith)) d
          (
            record {
              count = e;
              entry = λ i l. absurd (omega arith);
              copy = λ i l. absurd (omega arith);
            },
            λ b u. refl,
          ) in
      r.others b (h, λ i l. absurd (omega arith))

  abbrev IsAtomic : Disk → Type 0
  IsAtomic d = Outcome (initlog s0.start s0.size d).disk

  recover_each : (ds : List Disk) → All IsSafe ds → All IsAtomic ds
  recover_each [] a = tt
  recover_each (d ∷ ds) (a, r) = (recover_safe d a, recover_each ds r)

  erased-past : (s : Log) → IsInstalled s → All IsAtomic (write_head (record s { count = 0 })).past
  unfolding write_head bwrite
  erased-past s i = (recover_safe s.disk (inr i.committed), recover_each s.past i.past)

  erased :
      (s : Log)
      → IsInstalled s
      → IsRecovered s0.start s0.size s0.count s0.block v s0.disk ready.fits ready.homes
          (write_head (record s { count = 0 })).disk
        × All IsAtomic (
            (write_head (record s { count = 0 })).disk ∷ (write_head (record s { count = 0 })).past)
  erased s i =
      let r =
        IsRecovered-write_head s0.start s0.size s0.count s0.block v s0.disk ready.fits ready.homes
          IsSafe s i in
      (
        r,
        (
          whole (λ j l. recover_empty _ r.empty (s0.block j) (ready.homes j l) ∙ r.new j l)
              (λ b h n. recover_empty _ r.empty b h ∙ r.others b (h, n)),
          erased-past s i,
        ),
      )

  -- Wherever the machine stops during `commit`, before or after any of its writes, recovery finds the
  -- whole transaction on the disk or nothing of it. The log on the disk is empty before the commit
  -- and has room for the blocks of the transaction.
  pub commit-atomic :
      All (λ d. Outcome (initlog s0.start s0.size d).disk) ((commit s0).disk ∷ (commit s0).past)
  unfolding commit
  commit-atomic = elim (Bool-cases (ltb 0 s0.count)) [
    | inl e ↦ rw e (erased _ installed).1
    | inr e ↦
        rw e (
          recover_old s0.disk (ready.empty, λ b h. refl),
          subst (All IsAtomic) (sym ready.fresh) tt,
        )
  ]
