-- ===== src/Text/Move.antt =====
-- string.c: `memmove` moves all bytes as if at once.
use xv6_memory_management_im.Common.{
  ℕ, zero, suc, ◌+◌, ◌-◌, ◌≤◌, ◌<◌, ◌≡◌, ◌≢◌, refl, ◌∙◌, true, false, ◌&&◌, arith, ◌==◌,
  ==-false_of_ne, ==_iff, update, ltb, ◌⊎◌, inl, inr, Bool-cases,
}
use xv6_memory_management_im.Text.{move_down, move_up, memmove}

-- The `n` bytes from `s` on are at `d`, and nothing else has changed.
pub record IsMoved (d s n : ℕ) (mem j : ℕ → ℕ) : Type 0 where
  pub bytes : (k : ℕ) → k < n → j (d + k) ≡ mem (s + k)
  pub others : (a : ℕ) → (a < d) ⊎ (d + n ≤ a) → j a ≡ mem a

module _ (mem : ℕ → ℕ) (d v : ℕ) where
  pub written : update mem d v d ≡ v
  written = let e : (d == d) ≡ true = (==_iff d d).1 refl in rw e refl

  pub unwritten : (a : ℕ) → a ≢ d → update mem d v a ≡ mem a
  unwritten a ne = let e : (a == d) ≡ false = ==-false_of_ne a d ne in rw e refl

move_down-IsMoved : (n d s : ℕ) (mem : ℕ → ℕ) → s < d → IsMoved d s n mem (move_down n d s mem)
unfolding move_down
move_down-IsMoved zero d s mem l = record {
  bytes = λ k q. absurd (omega arith);
  others = λ a q. refl;
}
move_down-IsMoved (suc n) d s mem l =
    let ih = move_down-IsMoved n d s (update mem (d + n) (mem (s + n))) l in
    record {
      bytes = λ k q. elim (Bool-cases (k == n)) [
        | inl e ↦
            let v : k ≡ n = (==_iff k n).0 e in
            ih.others (d + k) (inr (omega arith)) ∙ rw v (written mem (d + n) (mem (s + n)))
        | inr e ↦
            ih.bytes k (ground arith)
            ∙ unwritten mem (d + n) (mem (s + n)) (s + k) (λ u. omega arith)
      ];
      others = λ a q.
          ih.others a (ground arith)
          ∙ unwritten mem (d + n) (mem (s + n)) a
              (λ u. elim q [ inl h ↦ omega arith | inr h ↦ omega arith ]);
    }

move_up-IsMoved :
    (n d s : ℕ) (mem : ℕ → ℕ) → (d ≤ s) ⊎ (s + n ≤ d) → IsMoved d s n mem (move_up n d s mem)
unfolding move_up
move_up-IsMoved zero d s mem l = record {
  bytes = λ k q. absurd (omega arith);
  others = λ a q. refl;
}
move_up-IsMoved (suc n) d s mem l =
    let ih = move_up-IsMoved n (d + 1) (s + 1) (update mem d (mem s)) (ground arith) in
    record {
      bytes = λ k q. elim (Bool-cases (k == 0)) [
        | inl e ↦
            let v : k ≡ 0 = (==_iff k 0).0 e in
            let z : d + k ≡ d = omega arith in
            let w : s + k ≡ s = omega arith in
            rw (z, w) (ih.others d (inl (omega arith)) ∙ written mem d (mem s))
        | inr e ↦
            let z : d + k ≡ d + 1 + (k - 1) = ground arith in
            let w : s + k ≡ s + 1 + (k - 1) = ground arith in
            rw (z, w)
              (ih.bytes (k - 1) (ground arith)
                ∙ unwritten mem d (mem s) (s + 1 + (k - 1))
                    (λ u. elim l [ inl h ↦ omega arith | inr h ↦ omega arith ]))
      ];
      others = λ a q.
          ih.others a (ground arith)
          ∙ unwritten mem d (mem s) a (λ u. elim q [ inl h ↦ omega arith | inr h ↦ omega arith ]);
    }

-- Whatever the two ranges have in common, `memmove` leaves the bytes that one had in the other, and
-- changes nothing else.
pub memmove-IsMoved : (d s n : ℕ) (mem : ℕ → ℕ) → IsMoved d s n mem (memmove d s n mem)
unfolding memmove
memmove-IsMoved d s n mem = elim (Bool-cases (ltb s d && ltb d (s + n))) [
  | inl e ↦ rw e (move_down-IsMoved n d s mem (ground arith))
  | inr e ↦ rw e (move_up-IsMoved n d s mem (ground arith))
]
