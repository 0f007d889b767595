-- ===== src/Base/Dict.antt =====
-- Go maps with text keys, as association lists. Go leaves the order of iteration open; where code
-- ranges over a map, the list's order is one of the orders that it may take.
use Prim.Native.String.{String}
use text.Mathlib.Text.{◌==◌ as str_eq}
use text.Mathlib.TextEquality.{eq_iff}
use text.Mathlib.TextPositions.{eq_refl}
use mathlib.Core.Path.{◌≡◌, refl, ap, sym, ◌∙◌}
use mathlib.Core.Logic.{inl, inr}
use mathlib.Core.Bool.{Bool, true, false, false≢true}
use mathlib.Core.Option.{Option, none, some}
use mathlib.Core.List.{List, [], ◌∷◌, ◌++◌}
use native.Mathlib.Omega.{arith}
use kubernetes_local_volume.Base.Tests.{if◌then◌else◌, Bool-cases}
use kubernetes_local_volume.Base.Lists.{In, here, there}

abbrev pub Dict {ℓ} : Type ℓ → Type ℓ
Dict V = List (String × V)

module _ {ℓ} {V : Type ℓ} where
  unfoldable pub lookup : String → Dict V → Option V
  lookup k [] = none
  lookup k ((j, v) ∷ m) = if str_eq j k then some v else lookup k m

  -- `m[k] = v`
  unfoldable pub insert : String → V → Dict V → Dict V
  insert k v [] = (k, v) ∷ []
  insert k v ((j, w) ∷ m) = if str_eq j k then (k, v) ∷ m else (j, w) ∷ insert k v m

  -- `delete(m, k)`
  unfoldable pub erase : String → Dict V → Dict V
  erase k [] = []
  erase k ((j, w) ∷ m) = let rest = erase k m in if str_eq j k then rest else (j, w) ∷ rest

  -- `_, ok := m[k]`
  abbrev pub has : String → Dict V → Bool
  has k m = elim (lookup k m) [ none ↦ false | some _ ↦ true ]

  abbrev pub keys : Dict V → List String
  keys [] = []
  keys ((j, _) ∷ m) = j ∷ keys m

  abbrev pub values : Dict V → List V
  values [] = []
  values ((_, v) ∷ m) = v ∷ values m

  pub lookup-insert :
      (j k : String) (v : V) (m : Dict V)
      → lookup j (insert k v m) ≡ (if str_eq k j then some v else lookup j m)
  unfolding lookup insert
  lookup-insert j k v [] = refl
  lookup-insert j k v ((i, w) ∷ m) =
      ground (arith, eq_iff k j, eq_iff i k, eq_iff i j, lookup-insert j k v m)

  pub lookup-erase :
      (j k : String) (m : Dict V) → lookup j (erase k m) ≡ (if str_eq k j then none else lookup j m)
  unfolding lookup erase
  lookup-erase j k [] = ground arith
  lookup-erase j k ((i, w) ∷ m) =
      ground (arith, eq_iff k j, eq_iff i k, eq_iff i j, lookup-erase j k m)

  -- No key stands twice.
  abbrev pub IsMap : Dict V → Type 0
  IsMap [] = Unit {0}
  IsMap ((k, _) ∷ m) = (has k m ≡ false) × IsMap m

  has-rest :
      (j k : String) (w : V) (m : Dict V)
      → str_eq j k ≡ false
      → has k ((j, w) ∷ m) ≡ false
      → has k m ≡ false
  unfolding lookup
  has-rest j k w m other new = ground arith

  pub has-head : (k : String) (v : V) (m : Dict V) → has k ((k, v) ∷ m) ≡ true
  unfolding lookup
  has-head k v m = ground (arith, eq_refl k)

  pub has-tail : (j k : String) (v : V) (m : Dict V) → has j m ≡ true → has j ((k, v) ∷ m) ≡ true
  unfolding lookup
  has-tail j k v m known = ground arith

  pub insert-new :
      (k : String) (v : V) (m : Dict V) → has k m ≡ false → insert k v m ≡ m ++ (k, v) ∷ []
  unfolding insert lookup
  insert-new k v [] new = refl
  insert-new k v ((j, w) ∷ m) new = elim (Bool-cases (str_eq j k)) [
    | inl same ↦ cc
    | inr other ↦
        rw other (ap (λ rest. (j, w) ∷ rest) (insert-new k v m (has-rest j k w m other new)))
  ]

  pub has-insert_new :
      (j k : String) (v : V) (m acc : Dict V)
      → has k m ≡ false
      → has j m ≡ true
      → has j acc ≡ false
      → has j (insert k v acc) ≡ false
  unfolding lookup
  has-insert_new j k v m acc fresh known absent = elim (Bool-cases (str_eq k j)) [
    | inl same ↦ (let one = (eq_iff k j).0 same in cc)
    | inr other ↦ ground (arith, lookup-insert j k v acc)
  ]

  pub insert-IsMap : (k : String) (v : V) (m : Dict V) → IsMap m → IsMap (insert k v m)
  unfolding insert lookup
  insert-IsMap k v [] distinct = (refl, tt)
  insert-IsMap k v ((j, w) ∷ m) (new, distinct) = elim (Bool-cases (str_eq j k)) [
    | inl same ↦ rw same (let one = (eq_iff j k).0 same in (rw (← one) new, distinct))
    | inr other ↦
        rw other (
          ground (arith, lookup-insert j k v m, eq_iff k j, eq_iff j k),
          insert-IsMap k v m distinct,
        )
  ]

  -- What stands in a map is what is found.
  pub In-lookup : (k : String) (v : V) (m : Dict V) → IsMap m → In (k, v) m → lookup k m ≡ some v
  unfolding lookup
  In-lookup k v [] distinct i = elim i [ ]
  In-lookup k v ((j, w) ∷ m) distinct (here e) =
      rw ((eq_iff j k).1 (ap (λ p. p.0) (sym e))) (ap some (ap (λ p. p.1) (sym e)))
  In-lookup k v ((j, w) ∷ m) (new, distinct) (there i) = elim (Bool-cases (str_eq j k)) [
    | inl same ↦
        let found = In-lookup k v m distinct i in
        let absent : has k m ≡ false = rw (← (eq_iff j k).0 same) new in
        absurd (false≢true (sym absent ∙ rw (found, has) refl))
    | inr other ↦ rw other (In-lookup k v m distinct i)
  ]
