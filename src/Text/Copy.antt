-- ===== src/Text/Copy.antt =====
-- string.c: `safestrcpy` copies a text within its room and ends it.
use xv6_memory_management_im.Common.{
  ℕ, zero, suc, ◌+◌, ◌-◌, ◌≤◌, ◌<◌, ◌≡◌, ◌≢◌, refl, sym, ◌∙◌, arith, ◌==◌, ==_iff, update, ◌⊎◌, inl,
  inr, Bool-cases,
}
use xv6_memory_management_im.Text.{copy_text, safestrcpy}
use xv6_memory_management_im.Text.Move.{written, unwritten}

-- In room for `n` bytes at `s` stands the text from `t` on, whole or as far as there is room, and a 0.
pub record IsCopied (s t n : ℕ) (mem j : ℕ → ℕ) : Type 0 where
  pub len : ℕ
  pub within : len < n
  pub bytes : (i : ℕ) → i < len → (j (s + i) ≡ mem (t + i)) × (mem (t + i) ≢ 0)
  pub ends : j (s + len) ≡ 0
  pub whole : (mem (t + len) ≡ 0) ⊎ (len + 1 ≡ n)
  pub others : (a : ℕ) → (a < s) ⊎ (s + n ≤ a) → j a ≡ mem a

-- A text of no byte.
empty-IsCopied :
    (s t n : ℕ) (mem j : ℕ → ℕ)
    → 0 < n
    → j s ≡ 0
    → (mem t ≡ 0) ⊎ (n ≡ 1)
    → ((a : ℕ) → (a < s) ⊎ (s + n ≤ a) → j a ≡ mem a)
    → IsCopied s t n mem j
empty-IsCopied s t n mem j l e w o =
    let z : s + 0 ≡ s = omega arith in
    let y : t + 0 ≡ t = omega arith in
    record {
      len = 0;
      within = l;
      bytes = λ i q. absurd (omega arith);
      ends = rw z e;
      whole = rw y (elim w [ inl h ↦ inl h | inr h ↦ inr (sym h) ]);
      others = o;
    }

copy_text-IsCopied :
    (n s t : ℕ) (mem : ℕ → ℕ)
    → (t + suc n ≤ s) ⊎ (s + suc n ≤ t)
    → IsCopied s t (suc n) mem (copy_text n s t mem)
unfolding copy_text
copy_text-IsCopied zero s t mem apart =
    empty-IsCopied s t 1 mem (update mem s 0) (omega arith) (written mem s 0) (inr refl)
      (λ a q. unwritten mem s 0 a (λ u. elim q [ inl h ↦ omega arith | inr h ↦ omega arith ]))
copy_text-IsCopied (suc n) s t mem apart = elim (Bool-cases (mem t == 0)) [
  | inl e ↦
      let m = update mem s (mem t) in
      let z : mem t ≡ 0 = (==_iff _ _).0 e in
      rw e (
        empty-IsCopied s t (suc (suc n)) mem (update m (s + 1) 0) (omega arith)
          (unwritten m (s + 1) 0 s (λ u. omega arith) ∙ (written mem s (mem t) ∙ z)) (inl z)
          (λ a q.
            unwritten m (s + 1) 0 a (λ u. elim q [ inl h ↦ omega arith | inr h ↦ omega arith ])
            ∙ unwritten mem s (mem t) a
                (λ u. elim q [ inl h ↦ omega arith | inr h ↦ omega arith ])))
  | inr e ↦
      let m = update mem s (mem t) in
      let ih = copy_text-IsCopied n (s + 1) (t + 1) m (ground arith) in
      let far : (i : ℕ) → i < suc n → t + 1 + i ≢ s =
        λ i l u. elim apart [ inl h ↦ omega arith | inr h ↦ omega arith ] in
      let len = ih.len in
      let short = ih.within in
      let z : s + suc len ≡ s + 1 + len = omega arith in
      let y : t + suc len ≡ t + 1 + len = omega arith in
      rw e record {
        len = suc len;
        within = omega arith;
        bytes = λ i q. elim (Bool-cases (i == 0)) [
          | inl v ↦
              let w : i ≡ 0 = (==_iff i 0).0 v in
              let p1 : s + i ≡ s = omega arith in
              let p2 : t + i ≡ t = omega arith in
              rw (p1, p2)
                (ih.others s (inl (omega arith)) ∙ written mem s (mem t), λ u. ground arith)
          | inr v ↦
              let p1 : s + i ≡ s + 1 + (i - 1) = ground arith in
              let p2 : t + i ≡ t + 1 + (i - 1) = ground arith in
              let (b, c) = ih.bytes (i - 1) (ground arith) in
              let d = unwritten mem s (mem t) (t + 1 + (i - 1)) (far (i - 1) (ground arith)) in
              rw (p1, p2) (b ∙ d, λ u. c (d ∙ u))
        ];
        ends = rw z ih.ends;
        whole = rw y (elim ih.whole [
          | inl h ↦ inl (sym (unwritten mem s (mem t) (t + 1 + len) (far len short)) ∙ h)
          | inr h ↦ inr (omega arith)
        ]);
        others = λ a q.
            ih.others a (ground arith)
            ∙ unwritten mem s (mem t) a (λ u. elim q [ inl h ↦ omega arith | inr h ↦ omega arith ]);
      }
]

-- Into room for one byte or more, which the text does not overlap, `safestrcpy` copies the text up to its
-- end or as far as there is room, ends it with a 0 within the room, and writes nothing outside.
pub safestrcpy-IsCopied :
    (s t n : ℕ) (mem : ℕ → ℕ)
    → 0 < n
    → (t + n ≤ s) ⊎ (s + n ≤ t)
    → IsCopied s t n mem (safestrcpy s t n mem)
unfolding safestrcpy
safestrcpy-IsCopied s t zero mem l apart = absurd (omega arith)
safestrcpy-IsCopied s t (suc n) mem l apart = copy_text-IsCopied n s t mem apart
