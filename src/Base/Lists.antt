-- ===== src/Base/Lists.antt =====
-- Lists measured by the native numbers, and membership and selection by Boolean tests.
use Prim.Native.Nat.{ℕ, suc, ◌+◌, ◌≤◌}
use Prim.Native.String.{String}
use text.Mathlib.Text.{◌==◌ as str_eq}
use mathlib.Core.Path.{◌≡◌, refl}
use mathlib.Core.Logic.{◌⊎◌, inl, inr}
use mathlib.Core.Bool.{Bool, true, false, ◌||◌, false≢true}
use mathlib.Core.List.{List, [], ◌∷◌, ◌++◌}
use native.Mathlib.Omega.{arith}
use kubernetes_local_volume.Base.Tests.{if◌then◌else◌, Bool-cases}

module _ {ℓ} {A : Type ℓ} where
  abbrev pub length : List A → ℕ
  length [] = 0
  length (x ∷ xs) = suc (length xs)

  pub length-append : (xs ys : List A) → length (xs ++ ys) ≡ length xs + length ys
  length-append [] ys = omega arith
  length-append (x ∷ xs) ys = omega (arith, length-append xs ys)

  -- The elements that pass a Boolean test, in order.
  abbrev pub select : (A → Bool) → List A → List A
  select p [] = []
  select p (x ∷ xs) = if p x then x ∷ select p xs else select p xs

  abbrev pub any : (A → Bool) → List A → Bool
  any p [] = false
  any p (x ∷ xs) = p x || any p xs

  pub length-select-le : (p : A → Bool) (xs : List A) → length (select p xs) ≤ length xs
  length-select-le p [] = omega arith
  length-select-le p (x ∷ xs) = ground (arith, length-select-le p xs)

-- Every element has the property.
abbrev pub All {ℓ κ} : {A : Type ℓ} → (A → Type κ) → List A → Type κ
All P [] = Unit
All P (x ∷ xs) = P x × All P xs

-- The text is one of the list.
abbrev pub elem : String → List String → Bool
elem s = any (λ t. str_eq t s)

-- Membership with its place.
pub data In {ℓ} {A : Type ℓ} (a : A) : List A → Type ℓ where
  here : {b : A} {xs : List A} → a ≡ b → In a (b ∷ xs)
  there : {b : A} {xs : List A} → In a xs → In a (b ∷ xs)

module _ {ℓ} {A : Type ℓ} (p : A → Bool) where
  pub any-In : (xs : List A) → any p xs ≡ true → (a : A) × In a xs × (p a ≡ true)
  any-In [] h = absurd (false≢true h)
  any-In (x ∷ xs) h = elim (Bool-cases (p x)) [
    | inl yes_ ↦ (x, here refl, yes_)
    | inr no_ ↦ let (a, i, q) = any-In xs (rw no_ at h) in (a, there i, q)
  ]

  pub In-any : (xs : List A) {a : A} → In a xs → p a ≡ true → any p xs ≡ true
  In-any [] i q = elim i [ ]
  In-any (x ∷ xs) (here e) q = rw (← e) (rw q)
  In-any (x ∷ xs) (there i) q = rw (In-any xs i q) (ground arith)

module _ {ℓ} {A : Type ℓ} {a : A} where
  pub In-append_left : {xs : List A} (ys : List A) → In a xs → In a (xs ++ ys)
  In-append_left ys (here e) = here e
  In-append_left ys (there i) = there (In-append_left ys i)

  pub In-append_right : (xs : List A) {ys : List A} → In a ys → In a (xs ++ ys)
  In-append_right [] i = i
  In-append_right (x ∷ xs) i = there (In-append_right xs i)

  pub In-append_cases : (xs ys : List A) → In a (xs ++ ys) → In a xs ⊎ In a ys
  In-append_cases [] ys i = inr i
  In-append_cases (x ∷ xs) ys (here e) = inl (here e)
  In-append_cases (x ∷ xs) ys (there i) = elim (In-append_cases xs ys i) [
    | inl j ↦ inl (there j)
    | inr j ↦ inr j
  ]

  -- What passes the test is selected.
  pub In-select : (p : A → Bool) (xs : List A) → p a ≡ true → In a xs → In a (select p xs)
  In-select p [] q i = elim i [ ]
  In-select p (x ∷ xs) q (here e) = rw (← e) (rw q (here refl))
  In-select p (x ∷ xs) q (there i) = elim (Bool-cases (p x)) [
    | inl kept ↦ rw kept (there (In-select p xs q i))
    | inr dropped ↦ rw dropped (In-select p xs q i)
  ]

  select-In_kept :
      (p : A → Bool) (x : A) (xs ys : List A)
      → p x ≡ true
      → (In a ys → In a xs × (p a ≡ true))
      → In a (x ∷ ys)
      → In a (x ∷ xs) × (p a ≡ true)
  select-In_kept p x xs ys kept later (here e) = (here e, rw e kept)
  select-In_kept p x xs ys kept later (there i) = (there (later i).0, (later i).1)

  pub select-In : (p : A → Bool) (xs : List A) → In a (select p xs) → In a xs × (p a ≡ true)
  select-In p [] i = elim i [ ]
  select-In p (x ∷ xs) i = elim (Bool-cases (p x)) [
    | inl kept ↦ select-In_kept p x xs (select p xs) kept (select-In p xs) (rw kept at i)
    | inr dropped ↦ let (j, q) = select-In p xs (rw dropped at i) in (there j, q)
  ]
