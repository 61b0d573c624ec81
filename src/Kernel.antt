-- ===== src/Kernel.antt =====
-- What a run of kernel code ends in. `panic` (console.c) stops the machine, so it is an end of its
-- own that names the message; `stuck` is a loop that has used up its fuel.
pub mod Layout
use xv6_memory_management_im.Common.{◌≡◌, refl, ap, Bool, true, false}

pub data Panic : Type 0 where
  acquire release popcli : Panic
  kfree kfree_ref_zero increment_ref decrement_ref : Panic
  remap kfree_deallocuvm pte_should_exist page_not_present address_should_exist : Panic
  too_high no_pgdir addr_not_aligned clearpteu more_than_a_page : Panic
  null_deref out_of_bounds : Panic
  move_no_page move_not_present swap_full get_out_of_memory set_flags is_pte_a pte_a_off : Panic
  trap : Panic
  filedup fileclose : Panic
  init_exiting : Panic
  log_too_big log_outside log_committing : Panic
  no_buffers bwrite brelse iderw_not_locked iderw_nothing iderw_disk iderw_range : Panic
  out_of_blocks freeing_free_block ialloc_no_inodes iget_no_inodes : Panic
  ilock ilock_no_type iunlock bmap_out_of_range : Panic

pub data Run (A : Type 0) : Type 0 where
  ok : A → Run A
  panic : Panic → Run A
  stuck : Run A

infixl 5 ◌>>=◌ ◌>>◌
abbrev pub ◌>>=◌ : {A B : Type 0} → Run A → (A → Run B) → Run B
ok a >>= f = f a
panic e >>= f = panic e
stuck >>= f = stuck

abbrev pub ◌>>◌ : {B : Type 0} → Run (Unit {0}) → Run B → Run B
m >> k = m >>= λ _. k

-- `if(b) panic(e);`
abbrev pub panic_if : Bool → Panic → Run (Unit {0})
panic_if true e = panic e
panic_if false e = ok tt

-- A total-correctness reading of a run: it returns, and the result is in `P`.
pub data Returns {A : Type 0} (P : A → Type 0) : Run A → Type 0 where
  returns : {a : A} → P a → Returns P (ok a)

pub bind :
    {A B : Type 0} {P : A → Type 0} {Q : B → Type 0} {m : Run A} {f : A → Run B}
    → Returns P m
    → ((a : A) → P a → Returns Q (f a))
    → Returns Q (m >>= f)
bind (returns p) next = next _ p

pub mono :
    {A : Type 0} {P Q : A → Type 0} {m : Run A} → Returns P m → ((a : A) → P a → Q a) → Returns Q m
mono (returns p) weaken = returns (weaken _ p)

-- The result of a run that returns.
pub result : {A : Type 0} {P : A → Type 0} {m : Run A} → Returns P m → (a : A) × (m ≡ ok a) × P a
result (returns {a} p) = (a, refl, p)

-- A chain that returns is a first run that returns and a rest that does.
pub >>=-eq-ok :
    {A B : Type 0} (m : Run A) (f : A → Run B) {b : B}
    → (m >>= f) ≡ ok b
    → (a : A) × (m ≡ ok a) × (f a ≡ ok b)
>>=-eq-ok (ok a) f e = (a, refl, e)
>>=-eq-ok (panic p) f e = cc
>>=-eq-ok stuck f e = cc

or_else : {A : Type 0} → A → Run A → A
or_else d (ok a) = a
or_else d (panic p) = d
or_else d stuck = d

pub ok_eq : {A : Type 0} (a b : A) → ok a ≡ ok b → a ≡ b
unfolding or_else
ok_eq a b e = ap (or_else a) e
