-- ===== src/FileTable/Refs.antt =====
-- file.c: the reference counts of open files.
use xv6_memory_management_im.Common.{
  ℕ, zero, suc, ◌+◌, ◌-◌, ◌≤◌, ◌<◌, ◌≡◌, ◌≢◌, refl, ap, true, false, arith, ◌==◌, ==_iff, update,
  ltb, Option, none, some, inl, inr, Bool-cases,
}
use xv6_memory_management_im.Kernel.{ok, Returns, returns, ◌>>=◌}
use mathlib.Core.Path.{fun_ext}
use xv6_memory_management_im.FileTable.{
  File, Ftable, nfile, free_file, open_file, acquire, release, filealloc, filedup, fileclose,
}

-- What the search gives: the first file without a reference, or none when every file has one.
abbrev pub IsFirst : (ℕ → File) → ℕ → ℕ → Option ℕ → Type 0
IsFirst file f n none = (h : ℕ) → f ≤ h → h < f + n → (file h).ref ≢ 0
IsFirst file f n (some g) =
    (f ≤ g) × (g < f + n) × ((file g).ref ≡ 0) × ((h : ℕ) → f ≤ h → h < g → (file h).ref ≢ 0)

IsFirst-step :
    (file : ℕ → File) (f n : ℕ) (r : Option ℕ)
    → (file f).ref ≢ 0
    → IsFirst file (f + 1) n r
    → IsFirst file f (suc n) r
IsFirst-step file f n none z new = λ h a b. elim (Bool-cases (h == f)) [
  | inl q ↦ let e = (==_iff _ _).0 q in rw e z
  | inr q ↦ new h (ground arith) (omega arith)
]
IsFirst-step file f n (some g) z (a, b, e, new) = (
  omega arith,
  omega arith,
  e,
  λ h c d. elim (Bool-cases (h == f)) [
    | inl q ↦ let i = (==_iff _ _).0 q in rw i z
    | inr q ↦ new h (ground arith) d
  ],
)

free_file-IsFirst : (n f : ℕ) (file : ℕ → File) → IsFirst file f n (free_file n f file)
unfolding free_file
free_file-IsFirst zero f file = λ h a b. absurd (omega arith)
free_file-IsFirst (suc n) f file = elim (Bool-cases ((file f).ref == 0)) [
  | inl e ↦ rw e (omega arith, omega arith, (==_iff _ _).0 e, λ h a b. absurd (omega arith))
  | inr e ↦
      let z : (file f).ref ≢ 0 = ground arith in
      rw e (IsFirst-step file f n (free_file n (f + 1) file) z (free_file-IsFirst n (f + 1) file))
]

release_lem :
    (r : Option ℕ) (t : Ftable)
    → release (open_file r (record t { locked = true }))
      ≡ ok (record (open_file r t) { locked = false })
unfolding release open_file
release_lem none t = refl
release_lem (some f) t = refl

acquire_lem : (t : Ftable) → t.locked ≡ false → acquire t ≡ ok (record t { locked = true })
unfolding acquire
acquire_lem t u = rw u

-- `filealloc`, when the table's lock is free, returns the first file without a reference and gives it
-- one, and changes nothing else; when every file has a reference it returns null and changes nothing.
pub filealloc-IsFirst :
    (t : Ftable)
    → t.locked ≡ false
    → Returns
        (λ (r, j). IsFirst t.file 0 nfile r × (j.locked ≡ false) × (j.file ≡ (open_file r t).file))
        (filealloc t)
unfolding filealloc
filealloc-IsFirst t u =
    rw (acquire_lem t u, release_lem (free_file nfile 0 t.file) t)
      (returns (free_file-IsFirst nfile 0 t.file, refl, refl))

restore : (g : ℕ → File) (f : ℕ) (x y : File) → y ≡ g f → update (update g f x) f y ≡ g
restore g f x y e = fun_ext λ b. elim (Bool-cases (b == f)) [
  | inl q ↦ let i = (==_iff _ _).0 q in rw (q, e, i)
  | inr q ↦ rw q
]

-- `fileclose` takes back exactly what `filedup` of an open file has done, and closes nothing: the
-- table, whose lock is free, is as it was.
pub fileclose-filedup :
    (f : ℕ) (t : Ftable)
    → t.locked ≡ false
    → (t.file f).ref ≢ 0
    → (filedup f t >>= fileclose f) ≡ ok (none, t)
unfolding filedup fileclose
fileclose-filedup f t u n =
    let a : ltb (t.file f).ref 1 ≡ false = ground arith in
    let same : (f == f) ≡ true = (==_iff _ _).1 refl in
    let b : ltb ((t.file f).ref + 1) 1 ≡ false = ground arith in
    let c : (t.file f).ref + 1 - 1 ≡ (t.file f).ref = omega arith in
    let d : ltb 0 (t.file f).ref ≡ true = ground arith in
    rw (u, a, same, b, c, d)
      (ap (λ (m : ℕ → File). ok (none, record { locked = false; file = m }))
        (restore t.file f _ _ refl))
