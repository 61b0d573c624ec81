-- ===== src/Paging/Links.antt =====
-- The links of an entry after the writes of vm.c to `next` and `prev`.
use xv6_memory_management_im.Common.{
  ℕ, ◌≡◌, refl, ap, sym, ◌∙◌, Bool, true, false, arith, if◌then◌else◌, ◌==◌, update, Option, none,
  some,
}
use xv6_memory_management_im.Kernel.{ok, >>=-eq-ok, ok_eq}
use xv6_memory_management_im.Paging.{
  PageLink, Proc, set_next, set_prev, set_prev_of, unlink, remove_page_from_list, start_list,
  add_page_to_list, last_link,
}
use mathlib.Core.Path.{fun_ext}

-- The pointer leads to the entry.
abbrev pub points : Option ℕ → ℕ → Bool
points none a = false
points (some n) a = a == n

module _ (i a : ℕ) (v : Option ℕ) (p : Proc) where
  pub next-set_next : ((set_next i v p).links a).next ≡ (if a == i then v else (p.links a).next)
  unfolding set_next
  next-set_next = ground arith

  pub prev-set_next : ((set_next i v p).links a).prev ≡ (p.links a).prev
  unfolding set_next
  prev-set_next = ground arith

  pub prev-set_prev : ((set_prev i v p).links a).prev ≡ (if a == i then v else (p.links a).prev)
  unfolding set_prev
  prev-set_prev = ground arith

  pub next-set_prev : ((set_prev i v p).links a).next ≡ (p.links a).next
  unfolding set_prev
  next-set_prev = ground arith

module _ (i : ℕ) (v : Option ℕ) (p : Proc) where
  pub head-set_next : (set_next i v p).head ≡ p.head
  unfolding set_next
  head-set_next = refl

  pub head-set_prev : (set_prev i v p).head ≡ p.head
  unfolding set_prev
  head-set_prev = refl

module _ (o : Option ℕ) (a : ℕ) (v : Option ℕ) (p : Proc) where
  pub next-set_prev_of : ((set_prev_of o v p).links a).next ≡ (p.links a).next
  unfolding set_prev_of
  next-set_prev_of = ground arith

  pub prev-set_prev_of :
      ((set_prev_of o v p).links a).prev ≡ (if points o a then v else (p.links a).prev)
  unfolding set_prev_of
  prev-set_prev_of = ground arith

pub head-set_prev_of : (o v : Option ℕ) (p : Proc) → (set_prev_of o v p).head ≡ p.head
unfolding set_prev_of
head-set_prev_of none v p = refl
head-set_prev_of (some i) v p = refl

pub ==-refl : (a : ℕ) → (a == a) ≡ true
==-refl a = ground arith

pub ruleset link_laws = (
  next-set_next, prev-set_next, prev-set_prev, next-set_prev, head-set_next, head-set_prev,
  next-set_prev_of, prev-set_prev_of, head-set_prev_of, ==-refl,
)

-- A process without its list: the same record with the head and every link cleared.
abbrev pub unlinked : PageLink → PageLink
unlinked l = record l { next = none; prev = none }

abbrev pub body : Proc → Proc
body p = record p { head = none; links = λ a. unlinked (p.links a) }

unlinked-update :
    (f : ℕ → PageLink) (i : ℕ) (l : PageLink)
    → unlinked l ≡ unlinked (f i)
    → ◌≡◌ {A = ℕ → PageLink} (λ a. unlinked (update f i l a)) (λ a. unlinked (f a))
unlinked-update f i l e = fun_ext λ a. ground arith

pub body-set_next : (i : ℕ) (v : Option ℕ) (p : Proc) → body (set_next i v p) ≡ body p
unfolding set_next
body-set_next i v p =
    ap (λ (f : ℕ → PageLink). record p { head = none; links = f })
      (unlinked-update p.links i _ refl)

pub body-set_prev : (i : ℕ) (v : Option ℕ) (p : Proc) → body (set_prev i v p) ≡ body p
unfolding set_prev
body-set_prev i v p =
    ap (λ (f : ℕ → PageLink). record p { head = none; links = f })
      (unlinked-update p.links i _ refl)

pub body-set_prev_of : (o v : Option ℕ) (p : Proc) → body (set_prev_of o v p) ≡ body p
unfolding set_prev_of
body-set_prev_of none v p = refl
body-set_prev_of (some i) v p = body-set_prev i v p

body-unlink : (i : ℕ) (q : Option ℕ) (p : Proc) → body (unlink i q p) ≡ body p
unfolding unlink
body-unlink i none p = body-set_prev_of _ _ _
body-unlink i (some q) p = body-set_prev_of _ _ _ ∙ body-set_next _ _ _

-- Taking an entry off the list changes nothing else.
pub body-remove : (i : ℕ) (p : Proc) → body (remove_page_from_list i p) ≡ body p
unfolding remove_page_from_list
body-remove i p = body-set_next _ _ _ ∙ body-set_prev _ _ _ ∙ body-unlink _ _ _

body-start_list : (i : ℕ) (o : Option ℕ) (p : Proc) → body (start_list i o p).1 ≡ body p
unfolding start_list
body-start_list i none p = body-set_prev _ _ _ ∙ body-set_next _ _ _
body-start_list i (some h) p = refl

-- Neither does adding one, if the walk to the end returns.
pub body-add : (i : ℕ) (p g : Proc) → add_page_to_list i p ≡ ok g → body g ≡ body p
unfolding add_page_to_list
body-add i p g e =
    let q = (start_list i p.head p).1 in
    let put = λ (l : ℕ). ok (set_next i none (set_prev i (some l) (set_next l (some i) q))) in
    let (l, found, done) = >>=-eq-ok (last_link 33 q.links (start_list i p.head p).0) put e in
    ap body (sym (ok_eq _ _ done))
    ∙ body-set_next _ _ _
    ∙ body-set_prev _ _ _
    ∙ body-set_next _ _ _
    ∙ body-start_list i p.head p
