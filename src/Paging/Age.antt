-- ===== src/Paging/Age.antt =====
-- trap.c: the ageing of the pages in RAM.
use xv6_memory_management_im.Common.{
  ◌/◌, ◌^◌, ◌<◌, ℕ, zero, suc, ◌+◌, ◌≤◌, ◌≡◌, refl, ap, sym, ◌∙◌, Bool, true, false, List, [], ◌∷◌,
  arith, if◌then◌else◌, ◌==◌, ==-false_of_ne, ==_iff, length, has, has-ne, update, Option, none,
  some, ◌⊎◌, inl, inr, Bool-cases,
}
use xv6_memory_management_im.Common.Word.{word_mod, test_bit}
use xv6_memory_management_im.Kernel.{ok, Returns, returns, mono}
use xv6_memory_management_im.Kalloc.{Kmem}
use xv6_memory_management_im.Vm.{is_pte_a}
use xv6_memory_management_im.Paging.{PageLink, Proc, Selection, nfua, lapa, max_total_pages}
use xv6_memory_management_im.Paging.Select.{Machine}
use mathlib.Core.Path.{subst}
use xv6_memory_management_im.Paging.Chain.{Chain, IsRam, Chain-frame}
use xv6_memory_management_im.Paging.Append.{Chain-length}
use xv6_memory_management_im.Paging.SecondChance.{
  accessed, unmark, IsReady, unmark-IsReady, accessed-unmark, IsAt, IsReady-mono, is_pte_a_lem,
  pte_a_off_lem,
}
use xv6_memory_management_im.Paging.Cleared.{
  IsCleared, unmark-IsCleared, skip-IsCleared, accessed-unmark_self,
}
use xv6_memory_management_im.Paging.Tick.{aged, age_page, age_loop, update_meta_data}

-- The entry with its counter aged.
abbrev shifted : Bool → PageLink → PageLink
shifted used l = record l { shift_counter = aged used l.shift_counter }

module _ (d : ℕ) (ids : ℕ → ℕ) where
  -- The page `x` aged, when its reference bit is as given.
  abbrev aged_by : Machine → ℕ → Bool → Machine
  aged_by m x used = record m {
    kmem = if used then unmark d ids m.kmem x else m.kmem;
    proc = record m.proc { links = update m.proc.links x (shifted used (m.proc.links x)) };
  }

  abbrev aged_at : Machine → ℕ → Machine
  aged_at m x = aged_by m x (accessed d ids m.kmem x)

  module _ (m : Machine) (x : ℕ) (xs : List ℕ) (w : IsAt d ids m) (r : IsReady d ids m.kmem xs)
      (i : has x xs ≡ true) where
    age_page_by :
        (used : Bool) → accessed d ids m.kmem x ≡ used → age_page x m ≡ ok (aged_by m x used)
    unfolding age_page
    age_page_by used q =
        let n = w.named x in
        let e = w.dir in
        let b : is_pte_a d (ids x) m.kmem ≡ ok (if used then 1 else 0) =
          is_pte_a_lem d ids m x xs w r i ∙ ap (λ (t : Bool). ok (if t then 1 else 0)) q in
        let o = pte_a_off_lem d ids m x xs w r i in
        rw (n, e, b) (elim (Bool-cases used) [ inl z ↦ rw (z, o) | inr z ↦ rw z ])

    aged-IsAt : IsAt d ids (aged_at m x)
    aged-IsAt = record {
      alone = w.alone;
      dir = w.dir;
      named = λ a.
          (let n = w.named a in
            elim (Bool-cases (a == x)) [
              | inl q ↦ let z = (==_iff _ _).0 q in let n1 = w.named x in rw (q, z) n1
              | inr q ↦ rw q n
            ]);
    }

  -- What the loop comes to, for the pages of a list.
  record IsShifted (m j : Machine) (xs : List ℕ) : Type 0 where
    links :
        (a : ℕ)
        → j.proc.links a ≡ (
            if has a xs then shifted (accessed d ids m.kmem a) (m.proc.links a) else m.proc.links a)
    process : record j.proc { links = m.proc.links } ≡ m.proc
    global : j.global_pgdir ≡ m.global_pgdir
    bits : IsCleared d ids m.kmem j.kmem xs

  abbrev without : Bool → Kmem → ℕ → Kmem
  without used k x = if used then unmark d ids k x else k

  module _ (k : Kmem) (x : ℕ) (xs : List ℕ) (r : IsReady d ids k (x ∷ xs))
      (new : has x xs ≡ false) where
    x_in : has x (x ∷ xs) ≡ true
    x_in = ground arith

    without-IsReady : (used : Bool) → IsReady d ids (without used k x) (x ∷ xs)
    without-IsReady true = unmark-IsReady d ids k x (x ∷ xs) r x_in
    without-IsReady false = r

    accessed-without :
        (used : Bool) (a : ℕ)
        → has a xs ≡ true
        → accessed d ids (without used k x) a ≡ accessed d ids k a
    accessed-without true a i =
        accessed-unmark d ids k x a (x ∷ xs) r x_in (ground arith)
          (λ q. has-ne a x xs i new (sym q))
    accessed-without false a i = refl

    without-IsCleared :
        (used : Bool) (j : Kmem)
        → accessed d ids k x ≡ used
        → IsCleared d ids (without used k x) j xs
        → IsCleared d ids k j (x ∷ xs)
    without-IsCleared true j e c = unmark-IsCleared d ids k j x (x ∷ xs) r x_in (
        skip-IsCleared d ids (unmark d ids k x) j x (x ∷ xs) xs (without-IsReady true) x_in new
          (λ a. refl) (accessed-unmark_self d ids k x (x ∷ xs) r x_in) c)
    without-IsCleared false j e c =
        skip-IsCleared d ids k j x (x ∷ xs) xs r x_in new (λ a. refl) e c

  age_end : (n : ℕ) (m : Machine) → age_loop n none m ≡ ok m
  unfolding age_loop
  age_end zero m = refl
  age_end (suc n) m = refl

  age_step :
      (n x : ℕ) (m j : Machine)
      → age_page x m ≡ ok j
      → age_loop (suc n) (some x) m ≡ age_loop n (j.proc.links x).next j
  unfolding age_loop
  age_step n x m j e = rw e

  -- The list behind an aged page.
  aged-Chain :
      (m : Machine) (x : ℕ) (xs : List ℕ) (used : Bool)
      → has x xs ≡ false
      → Chain m.proc.links (some x) (m.proc.links x).next xs
      → Chain (aged_by m x used).proc.links (some x) ((aged_by m x used).proc.links x).next xs
  aged-Chain m x xs used new h =
      let z : (x == x) ≡ true = (==_iff x x).1 refl in
      rw z (
        Chain-frame m.proc.links (aged_by m x used).proc.links (some x) (m.proc.links x).next xs
          (λ a i. let q = ==-false_of_ne _ _ (has-ne a x xs i new) in rw q (refl, refl)) h)

  aged_at-IsShifted :
      (m j : Machine) (x : ℕ) (xs : List ℕ)
      → IsReady d ids m.kmem (x ∷ xs)
      → has x xs ≡ false
      → IsShifted (aged_at m x) j xs
      → IsShifted m j (x ∷ xs)
  aged_at-IsShifted m j x xs r new g = record {
    links = λ a. g.links a ∙ elim (Bool-cases (a == x)) [
      | inl q ↦
          let z = (==_iff _ _).0 q in
          let z1 : (x == x) ≡ true = (==_iff x x).1 refl in rw (z, new, z1)
      | inr q ↦ elim (Bool-cases (has a xs)) [
        | inl i ↦
            let b = accessed-without m.kmem x xs r new (accessed d ids m.kmem x) a i in
            rw (q, i) (ap (λ (t : Bool). shifted t (m.proc.links a)) b)
        | inr i ↦ rw (q, i)
      ]
    ];
    process = ap (λ (p : Proc). record p { links = m.proc.links }) g.process;
    global = g.global;
    bits = without-IsCleared m.kmem x xs r new (accessed d ids m.kmem x) j.kmem refl g.bits;
  }

  age_lem :
      (n : ℕ) (m : Machine) (q p : Option ℕ) (xs : List ℕ)
      → IsAt d ids m
      → Chain m.proc.links q p xs
      → IsReady d ids m.kmem xs
      → length xs ≤ n
      → Returns (λ j. IsShifted m j xs) (age_loop n p m)
  age_lem n m q p [] w h r l =
      subst (λ (o : Option ℕ). Returns (λ j. IsShifted m j []) (age_loop n o m)) (sym h)
        (rw (age_end n m) (
          returns (record {
            links = λ a. refl;
            process = refl;
            global = refl;
            bits = record { off = λ a i. cc; rest = λ b u. refl };
          })))
  age_lem zero m q p (x ∷ xs) w h r l = absurd (omega arith)
  age_lem (suc n) m q p (x ∷ xs) w (e, b, l1, new, h) r l =
      let i : has x (x ∷ xs) ≡ true = ground arith in
      let u = accessed d ids m.kmem x in
      let run = age_page_by m x (x ∷ xs) w r i u refl in
      let r1 =
        IsReady-mono d ids (aged_at m x).kmem (x ∷ xs) xs (λ a i. ground arith)
          (without-IsReady m.kmem x xs r new u) in
      subst (λ (o : Option ℕ). Returns (λ j. IsShifted m j (x ∷ xs)) (age_loop (suc n) o m)) (sym e)
        (subst (λ t. Returns (λ j. IsShifted m j (x ∷ xs)) t)
          (sym (age_step n x m (aged_at m x) run))
          (mono
            (age_lem n (aged_at m x) (some x) ((aged_at m x).proc.links x).next xs
              (aged-IsAt m x (x ∷ xs) w r i) (aged-Chain m x xs u new h) r1 (omega arith))
            (λ j g. aged_at-IsShifted m j x xs r new g)))

-- An ageing counter of 32 bits, halved, with the top bit when the page has been used.
abbrev pub older : Bool → PageLink → PageLink
older used l = record l { shift_counter = l.shift_counter / 2 + (if used then 2 ^ 31 else 0) }

aged_lem : (used : Bool) (c : ℕ) → c < word_mod → aged used c ≡ c / 2 + (if used then 2 ^ 31 else 0)
unfolding aged
aged_lem true c h = let e : test_bit (c / 2) 0x8000_0000 ≡ false = ground arith in rw e refl
aged_lem false c h = omega arith

shifted-older :
    (used : Bool) (l : PageLink) → l.shift_counter < word_mod → shifted used l ≡ older used l
shifted-older used l h =
    ap (λ (c : ℕ). record l { shift_counter = c }) (aged_lem used l.shift_counter h)

-- What a tick comes to, for the pages of a list.
pub record IsAged (d : ℕ) (ids : ℕ → ℕ) (m j : Machine) (xs : List ℕ) : Type 0 where
  pub links :
      (a : ℕ)
      → j.proc.links a
        ≡ (if has a xs then older (accessed d ids m.kmem a) (m.proc.links a) else m.proc.links a)
  pub process : record j.proc { links = m.proc.links } ≡ m.proc
  pub global : j.global_pgdir ≡ m.global_pgdir
  pub bits : IsCleared d ids m.kmem j.kmem xs

-- The same with the counters as the code makes them.
update_meta_data-IsShifted :
    (sel : Selection) (m : Machine) (xs : List ℕ)
    → let d = m.proc.pgdir in
      let ids = λ (a : ℕ). (m.proc.links a).page_id in
      (sel ≡ nfua) ⊎ (sel ≡ lapa)
      → m.global_pgdir ≡ none
      → IsRam m.proc xs
      → IsReady d ids m.kmem xs
      → Returns (λ j. IsShifted d ids m j xs) (update_meta_data sel m)
unfolding update_meta_data
update_meta_data-IsShifted sel m xs s g h r =
    let few = Chain-length m.proc.links none m.proc.head xs h in
    let run =
      age_lem m.proc.pgdir (λ a. (m.proc.links a).page_id) (max_total_pages + 1) m none m.proc.head
        xs (record { alone = g; dir = refl; named = λ a. refl }) h r (omega (arith, few)) in
    elim s [ inl e ↦ rw e run | inr e ↦ rw e run ]

-- A tick under NFUA or LAPA returns, and for each page of the list of pages in RAM it halves the ageing
-- counter, adds the top bit to the counter of a page whose reference bit was on, and turns that bit
-- off. Nothing else of the process and no other word of memory is changed, so the list is as it was.
-- The counters are words of 32 bits, the
-- pages are different and the user may reach them, and the process uses its own directory.
pub update_meta_data-IsAged :
    (sel : Selection) (m : Machine) (xs : List ℕ)
    → let d = m.proc.pgdir in
      let ids = λ (a : ℕ). (m.proc.links a).page_id in
      (sel ≡ nfua) ⊎ (sel ≡ lapa)
      → m.global_pgdir ≡ none
      → IsRam m.proc xs
      → IsReady d ids m.kmem xs
      → ((a : ℕ) → has a xs ≡ true → (m.proc.links a).shift_counter < word_mod)
      → Returns (λ j. IsAged d ids m j xs) (update_meta_data sel m)
update_meta_data-IsAged sel m xs s g h r w =
    mono (update_meta_data-IsShifted sel m xs s g h r) (λ j f. record {
      links = λ a. f.links a ∙ elim (Bool-cases (has a xs)) [
        | inl i ↦ rw i (shifted-older _ (m.proc.links a) (w a i))
        | inr i ↦ rw i refl
      ];
      process = f.process;
      global = f.global;
      bits = f.bits;
    })
