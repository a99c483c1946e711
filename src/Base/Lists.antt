-- ===== src/Base/Lists.antt =====
-- Lists measured by native numbers, and predicates on their elements.
use Prim.Native.Nat.{ℕ, zero, suc, ◌+◌, ◌<◌}
use mathlib.Core.Logic.{◌⊎◌, inl, inr}
use mathlib.Core.Path.{◌≡◌, refl, ap, ap₂}
use mathlib.Core.Option.{Option, none, some}
use mathlib.Core.Bool.{Bool, false, ◌||◌}
use ismp_substrate.Base.Tests.{◌==◌}
use mathlib.Core.List.{List, [], ◌∷◌, ◌++◌, map, head-eq_of_cons-eq, tail-eq_of_cons-eq}
use native.Mathlib.Omega.{arith}

module _ {ℓ} {A : Type ℓ} where
  abbrev pub length : List A → ℕ
  length [] = 0
  length (x ∷ xs) = suc (length xs)

  pub length-append : (xs ys : List A) → length (xs ++ ys) ≡ length xs + length ys
  length-append [] ys = omega arith
  length-append (x ∷ xs) ys = omega (arith, length-append xs ys)

  -- Lists of one length, each with a list after it, are equal where the whole lists are.
  pub append_inj :
      (xs ys us vs : List A) → length xs ≡ length ys → xs ++ us ≡ ys ++ vs → (xs ≡ ys) × (us ≡ vs)
  append_inj [] [] us vs size e = (refl, e)
  append_inj [] (y ∷ ys) us vs size e = absurd (omega (arith, size))
  append_inj (x ∷ xs) [] us vs size e = absurd (omega (arith, size))
  append_inj (x ∷ xs) (y ∷ ys) us vs size e =
      let (rest, after) = append_inj xs ys us vs (omega (arith, size)) (tail-eq_of_cons-eq e) in
      (ap₂ (λ z zs. z ∷ zs) (head-eq_of_cons-eq e) rest, after)

  abbrev pub get_elem? : List A → ℕ → Option A
  get_elem? [] i = none
  get_elem? (x ∷ xs) zero = some x
  get_elem? (x ∷ xs) (suc i) = get_elem? xs i

  pub get_elem?-end :
      (xs : List A) (x : A) (ys : List A) → get_elem? (xs ++ x ∷ ys) (length xs) ≡ some x
  get_elem?-end [] x ys = refl
  get_elem?-end (z ∷ xs) x ys = get_elem?-end xs x ys

  -- An element of a list with one more at its end is that one, or stood there before.
  pub get_elem?-append_cases :
      (xs : List A) (x : A) (i : ℕ) (y : A)
      → get_elem? (xs ++ x ∷ []) i ≡ some y
      → ((i ≡ length xs) × (y ≡ x)) ⊎ (get_elem? xs i ≡ some y)
  get_elem?-append_cases [] x zero y e = inl (refl, cc)
  get_elem?-append_cases [] x (suc i) y e = cc
  get_elem?-append_cases (z ∷ xs) x zero y e = inr e
  get_elem?-append_cases (z ∷ xs) x (suc i) y e = elim (get_elem?-append_cases xs x i y e) [
    | inl (last, same) ↦ inl (ap suc last, same)
    | inr before ↦ inr before
  ]

  -- What stands in a list stands at the same place when it goes on.
  pub get_elem?-append :
      (xs ys : List A) (i : ℕ) (y : A) → get_elem? xs i ≡ some y → get_elem? (xs ++ ys) i ≡ some y
  get_elem?-append [] ys i y e = cc
  get_elem?-append (x ∷ xs) ys zero y e = e
  get_elem?-append (x ∷ xs) ys (suc i) y e = get_elem?-append xs ys i y e

  pub get_elem?-lt : (xs : List A) (i : ℕ) (y : A) → get_elem? xs i ≡ some y → i < length xs
  get_elem?-lt [] i y e = cc
  get_elem?-lt (x ∷ xs) zero y e = omega arith
  get_elem?-lt (x ∷ xs) (suc i) y e = omega (arith, get_elem?-lt xs i y e)

  abbrev pub All {κ} : (A → Type κ) → List A → Type κ
  All P [] = Unit
  All P (x ∷ xs) = P x × All P xs

  pub All-append {κ} : (P : A → Type κ) (xs ys : List A) → All P xs → All P ys → All P (xs ++ ys)
  All-append P [] ys hx hy = hy
  All-append P (x ∷ xs) ys hx hy = (hx.0, All-append P xs ys hx.1 hy)

  abbrev pub replicate : ℕ → A → List A
  replicate zero a = []
  replicate (suc n) a = a ∷ replicate n a

-- Membership of a number, as a test.
abbrev pub member : ℕ → List ℕ → Bool
member p [] = false
member p (x ∷ xs) = x == p || member p xs

pub member-append : (p : ℕ) (xs ys : List ℕ) → member p (xs ++ ys) ≡ (member p xs || member p ys)
member-append p [] ys = refl
member-append p (x ∷ xs) ys = ground (arith, member-append p xs ys)

-- The last element of a list that is not empty.
abbrev pub last {ℓ} : {A : Type ℓ} → A → List A → A
last x [] = x
last x (y ∷ ys) = last y ys

pub length-map {ℓ κ} :
    {A : Type ℓ} {B : Type κ} (f : A → B) (xs : List A) → length (map f xs) ≡ length xs
length-map f [] = refl
length-map f (x ∷ xs) = ap suc (length-map f xs)
