-- ===== src/Bcache/Init.antt =====
-- bio.c: `binit` makes an empty cache.
use xv6_memory_management_im.Common.{
  ℕ, zero, suc, ◌+◌, ◌≤◌, ◌<◌, ◌≡◌, refl, ap, sym, ◌∙◌, false, List, [], ◌∷◌, arith, ◌==◌, ==_iff,
  has, update, All, inl, inr, Bool-cases,
}
use mathlib.Core.Path.{subst}
use xv6_memory_management_im.Sleeplock.{initsleeplock}
use xv6_memory_management_im.Bcache.{
  Buf, Bcache, nbuf, set_prev, set_next, push_front, binit_loop, binit,
}
use xv6_memory_management_im.Bcache.Ring.{Seg, IsRing, Seg-frame, push_front-IsRing}
use xv6_memory_management_im.Bcache.Cache.{IsCache, update-links}
use xv6_memory_management_im.Bcache.Release.{bare-set_next, bare-set_prev}

-- `n` numbers from `b` on, in front of `xs`, the last first.
abbrev pub counted : ℕ → ℕ → List ℕ → List ℕ
counted zero b xs = xs
counted (suc n) b xs = counted n (b + 1) (b ∷ xs)

relock : ℕ → (ℕ → Buf) → ℕ → Buf
relock b f = update f b (record (f b) { lock = initsleeplock (f b).lock })

below-has : (b : ℕ) (xs : List ℕ) → All (λ x. x < b) xs → has b xs ≡ false
below-has b [] a = refl
below-has b (x ∷ xs) (l, a) = let h = below-has b xs a in ground arith

below_suc : (b : ℕ) (xs : List ℕ) → All (λ x. x < b) xs → All (λ x. x < b + 1) xs
below_suc b [] a = tt
below_suc b (x ∷ xs) (l, a) = (omega arith, below_suc b xs a)

relock-dev : (b a : ℕ) (f : ℕ → Buf) → (relock b f a).dev ≡ (f a).dev
unfolding relock
relock-dev b a f = elim (Bool-cases (a == b)) [
  | inl e ↦ rw e (ap (λ t. (f t).dev) (sym ((==_iff a b).0 e)))
  | inr e ↦ rw e refl
]

dev-set_next : (i v a : ℕ) (f : ℕ → Buf) → (set_next i v f a).dev ≡ (f a).dev
dev-set_next i v a f = ap (λ (t : Buf). t.dev) (bare-set_next i a v f)

dev-set_prev : (i v a : ℕ) (f : ℕ → Buf) → (set_prev i v f a).dev ≡ (f a).dev
dev-set_prev i v a f = ap (λ (t : Buf). t.dev) (bare-set_prev i a v f)

push_front-dev : (b a : ℕ) (f : ℕ → Buf) → (push_front b f a).dev ≡ (f a).dev
unfolding push_front
push_front-dev b a f = simp (dev-set_next, dev-set_prev) refl

binit_loop-IsRing :
    (n b : ℕ) (f : ℕ → Buf) (xs : List ℕ)
    → n + b ≤ nbuf
    → All (λ x. x < b) xs
    → IsRing f xs
    → IsRing (binit_loop n b f) (counted n b xs)
unfolding binit_loop
binit_loop-IsRing zero b f xs l a h = h
binit_loop-IsRing (suc n) b f xs l a h =
    let g = push_front b f in
    let r = push_front-IsRing f b xs (omega arith) (below-has b xs a) h in
    let y : Buf = record (g b) { lock = initsleeplock (g b).lock } in
    let links = update-links g b y refl refl in
    let t : IsRing (update g b y) (b ∷ xs) =
      subst (λ (t : ℕ). Seg (update g b y) nbuf t (b ∷ xs)) (sym (links nbuf).0)
        (Seg-frame g (update g b y) nbuf (g nbuf).next (b ∷ xs) links r) in
    binit_loop-IsRing n (b + 1) (update g b y) (b ∷ xs) (omega arith)
      (omega arith, below_suc b xs a) t

binit_loop-dev : (n b a : ℕ) (f : ℕ → Buf) → (binit_loop n b f a).dev ≡ (f a).dev
unfolding binit_loop relock
binit_loop-dev zero b a f = refl
binit_loop-dev (suc n) b a f =
    binit_loop-dev n (b + 1) a (relock b (push_front b f))
    ∙ (relock-dev b a (push_front b f) ∙ push_front-dev b a f)

binit-dev : (a : ℕ) (c : Bcache) → ((binit c).buf a).dev ≡ (c.buf a).dev
unfolding binit
binit-dev a c =
    binit_loop-dev nbuf 0 a (set_next nbuf nbuf (set_prev nbuf nbuf c.buf))
    ∙ simp (dev-set_next, dev-set_prev) refl

-- Over buffers of no device, as memory set to 0 holds, `binit` links all the buffers, the last one first,
-- into a cache.
pub binit-IsCache :
    (c : Bcache) → ((a : ℕ) → (c.buf a).dev ≡ 0) → IsCache (binit c).buf (counted nbuf 0 [])
unfolding binit set_prev set_next
binit-IsCache c fresh = record {
  ring =
      binit_loop-IsRing nbuf 0 (set_next nbuf nbuf (set_prev nbuf nbuf c.buf)) [] (omega arith) tt
        (refl, refl);
  once = λ a b ia ib re de be. absurd (re (binit-dev a c ∙ fresh a));
}
