-- ===== src/Base/Lists.antt =====
-- Lists measured by native numbers, membership as a test, and filtering by a test.
use Prim.Native.Nat.{ℕ, suc, ◌+◌, ◌≤◌}
use mathlib.Core.Path.{◌≡◌, refl}
use mathlib.Core.Logic.{◌≢◌, ◌⊎◌, inl, inr}
use mathlib.Core.Bool.{Bool, false, ◌||◌}
use mathlib.Core.List.{List, [], ◌∷◌, ◌++◌}
use native.Mathlib.Omega.{arith}
use kwmserver.Base.Tests.{leb, if◌then◌else◌, nat_beq}

module _ {ℓ} {A : Type ℓ} where
  abbrev pub length : List A → ℕ
  length [] = 0
  length (x ∷ xs) = suc (length xs)

  pub length-append : (xs ys : List A) → length (xs ++ ys) ≡ length xs + length ys
  length-append [] ys = omega arith
  length-append (x ∷ xs) ys = omega (arith, length-append xs ys)

  -- The empty list, or one that the test for emptiness tells from it.
  pub List-cases :
      (xs : List A)
      → (xs ≡ []) ⊎ ((leb (length xs) 0 ≡ false) × (nat_beq (length xs) 0 ≡ false) × (xs ≢ []))
  List-cases [] = inl refl
  List-cases (x ∷ xs) = inr (ground arith, ground arith, λ e. ground arith)

  -- The elements that pass a test, in order.
  abbrev pub keep : (A → Bool) → List A → List A
  keep p [] = []
  keep p (x ∷ xs) = let rest = keep p xs in if p x then x ∷ rest else rest

  pub length-keep-le : (p : A → Bool) (xs : List A) → length (keep p xs) ≤ length xs
  length-keep-le p [] = omega arith
  length-keep-le p (x ∷ xs) = ground (arith, length-keep-le p xs)

-- Is a pointer in a list of pointers?
abbrev pub mem_ptr : ℕ → List ℕ → Bool
mem_ptr p [] = false
mem_ptr p (x ∷ xs) = nat_beq x p || mem_ptr p xs

abbrev pub count_ptr : ℕ → List ℕ → ℕ
count_ptr p [] = 0
count_ptr p (x ∷ xs) = let n = count_ptr p xs in if nat_beq x p then suc n else n

pub mem_ptr-append :
    (p : ℕ) (xs ys : List ℕ) → mem_ptr p (xs ++ ys) ≡ (mem_ptr p xs || mem_ptr p ys)
mem_ptr-append p [] ys = refl
mem_ptr-append p (x ∷ xs) ys = ground (arith, mem_ptr-append p xs ys)

pub count_ptr-append :
    (p : ℕ) (xs ys : List ℕ) → count_ptr p (xs ++ ys) ≡ count_ptr p xs + count_ptr p ys
count_ptr-append p [] ys = omega arith
count_ptr-append p (x ∷ xs) ys = ground (arith, count_ptr-append p xs ys)
