-- ===== src/Base/Lists.antt =====
-- Lists measured by native numbers, the loops over slices that stop early, and membership tests.
use Prim.Native.Nat.{ℕ, suc, ◌+◌}
use mathlib.Core.Path.{◌≡◌, refl}
use mathlib.Core.Bool.{Bool, true, false, ◌&&◌, ◌||◌}
use mathlib.Core.List.{List, [], ◌∷◌, ◌++◌}
use native.Mathlib.Omega.{arith}
use ec_cli.Base.Tests.{Eq, ◌==◌, if◌then◌else◌}

module _ {ℓ} {A : Type ℓ} where
  abbrev pub length : List A → ℕ
  length [] = 0
  length (x ∷ xs) = suc (length xs)

  pub length-append : (xs ys : List A) → length (xs ++ ys) ≡ length xs + length ys
  length-append [] ys = omega arith
  length-append (x ∷ xs) ys = omega (arith, length-append xs ys)

  -- `len(xs) == 0`
  abbrev pub is_empty : List A → Bool
  is_empty [] = true
  is_empty (x ∷ xs) = false

  -- The slice of the elements that pass a test, in their order.
  unfoldable pub keep : (A → Bool) → List A → List A
  keep p [] = []
  keep p (x ∷ xs) = let rest = keep p xs in if p x then x ∷ rest else rest

  -- A loop that returns true at the first element that passes a test.
  unfoldable pub any : (A → Bool) → List A → Bool
  any p [] = false
  any p (x ∷ xs) = p x || any p xs

  -- How many elements pass a test.
  unfoldable pub count_if : (A → Bool) → List A → ℕ
  count_if p [] = 0
  count_if p (x ∷ xs) = (if p x then 1 else 0) + count_if p xs

  abbrev pub All {κ} : (A → Type κ) → List A → Type κ
  All P [] = Unit
  All P (x ∷ xs) = P x × All P xs

module _ {ℓ} {A : Type ℓ} where
  pub any-append : (p : A → Bool) (xs ys : List A) → any p (xs ++ ys) ≡ (any p xs || any p ys)
  unfolding any
  any-append p [] ys = refl
  any-append p (x ∷ xs) ys = ground (arith, any-append p xs ys)

  pub keep-keep : (p q : A → Bool) (xs : List A) → keep p (keep q xs) ≡ keep (λ x. q x && p x) xs
  unfolding keep
  keep-keep p q [] = refl
  keep-keep p q (x ∷ xs) = ground (arith, keep-keep p q xs)

  pub keep_congr : (p q : A → Bool) (xs : List A) → ((x : A) → p x ≡ q x) → keep p xs ≡ keep q xs
  unfolding keep
  keep_congr p q [] e = refl
  keep_congr p q (x ∷ xs) e = ground (arith, e x, keep_congr p q xs e)

  pub keep_all : (p : A → Bool) (xs : List A) → ((x : A) → p x ≡ true) → keep p xs ≡ xs
  unfolding keep
  keep_all p [] e = refl
  keep_all p (x ∷ xs) e = ground (arith, e x, keep_all p xs e)

  pub any_congr : (p q : A → Bool) (xs : List A) → ((x : A) → p x ≡ q x) → any p xs ≡ any q xs
  unfolding any
  any_congr p q [] e = refl
  any_congr p q (x ∷ xs) e = ground (arith, e x, any_congr p q xs e)

  pub any_congr_All : (p q : A → Bool) (xs : List A) → All (λ x. p x ≡ q x) xs → any p xs ≡ any q xs
  unfolding any
  any_congr_All p q [] e = refl
  any_congr_All p q (x ∷ xs) (e, es) = ground (arith, any_congr_All p q xs es)

  pub All-map {κ μ} :
      {P : A → Type κ} {Q : A → Type μ} (f : (x : A) → P x → Q x) (xs : List A)
      → All P xs
      → All Q xs
  All-map f [] h = tt
  All-map f (x ∷ xs) (h, hs) = (f x h, All-map f xs hs)

  pub All-zip {κ μ ν} :
      {P : A → Type κ} {Q : A → Type μ} {R : A → Type ν} (f : (x : A) → P x → Q x → R x)
      (xs : List A)
      → All P xs
      → All Q xs
      → All R xs
  All-zip f [] h k = tt
  All-zip f (x ∷ xs) (h, hs) (k, ks) = (f x h k, All-zip f xs hs ks)

  pub any_and : (b : Bool) (p : A → Bool) (xs : List A) → any (λ x. b && p x) xs ≡ (b && any p xs)
  unfolding any
  any_and b p [] = ground arith
  any_and b p (x ∷ xs) = ground (arith, any_and b p xs)

module _ {ℓ} {A : Type ℓ} ⦃e : Eq A⦄ where
  unfoldable pub contains : List A → A → Bool
  contains [] a = false
  contains (x ∷ xs) a = x == a || contains xs a

  pub contains-append :
      (xs ys : List A) (a : A) → contains (xs ++ ys) a ≡ (contains xs a || contains ys a)
  unfolding contains
  contains-append [] ys a = refl
  contains-append (x ∷ xs) ys a = ground (arith, contains-append xs ys a)

  pub contains-keep :
      (p : A → Bool) (xs : List A) (a : A) → contains (keep p xs) a ≡ (p a && contains xs a)
  unfolding contains keep
  contains-keep p [] a = ground arith
  contains-keep p (x ∷ xs) a = ground (arith, contains-keep p xs a)
