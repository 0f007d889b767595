-- ===== src/Quantity/Rounding.antt =====
-- float64 of an int64 (pkg/scheduler/utils.go): the doublings of its unit, and its error.
use native.Mathlib.Nat.{add-mul, div-add-mod', mod-lt}
use kubernetes_local_volume.Base.{
  ℕ, zero, suc, ◌+◌, ◌*◌, ◌/◌, ◌^◌, ◌≤◌, ◌<◌, ◌≡◌, refl, arith, ltb, Bool-cases, inl, inr,
}
use kubernetes_local_volume.Quantity.{gib, round_even, float64_by, float64, ceil_gib}

-- The sizes below which `fuel` doublings of the unit suffice.
abbrev pub reach : ℕ → ℕ → ℕ
reach zero unit = 2 ^ 53 * unit
reach (suc fuel) unit = reach fuel (2 * unit)

float64_by-enough :
    (n fuel unit v : ℕ)
    → fuel ≤ n
    → v < reach fuel unit
    → float64_by n unit v ≡ float64_by fuel unit v
unfolding float64_by
float64_by-enough zero zero unit v more h = refl
float64_by-enough (suc n) zero unit v more h = ground arith
float64_by-enough zero (suc fuel) unit v more h = absurd (omega arith)
float64_by-enough (suc n) (suc fuel) unit v more h =
    rw (float64_by-enough n fuel (2 * unit) v (omega arith) h) refl

-- Ten doublings are enough for every int64: with more the result is the same.
float64-enough : (fuel v : ℕ) → 10 ≤ fuel → v < 2 ^ 63 → float64_by fuel 1 v ≡ float64 v
unfolding float64
float64-enough fuel v more h = float64_by-enough fuel 10 1 v more h

-- Half a unit is the most that rounding moves a number.
round_even-near :
    (unit v : ℕ)
    → 0 < unit
    → (2 * v ≤ 2 * round_even unit v + unit) × (2 * round_even unit v ≤ 2 * v + unit)
unfolding round_even
round_even-near unit v h =
    ground (arith, div-add-mod' v unit, mod-lt v h, add-mul (v / unit) 1 unit)

-- The unit after all doublings.
abbrev top : ℕ → ℕ → ℕ
top zero unit = unit
top (suc fuel) unit = top fuel (2 * unit)

unit-le-top : (fuel unit : ℕ) → unit ≤ top fuel unit
unit-le-top zero unit = omega arith
unit-le-top (suc fuel) unit = omega (arith, unit-le-top fuel (2 * unit))

float64_by-near :
    (fuel unit v : ℕ)
    → 0 < unit
    → (2 * v ≤ 2 * float64_by fuel unit v + top fuel unit)
      × (2 * float64_by fuel unit v ≤ 2 * v + top fuel unit)
unfolding float64_by
float64_by-near zero unit v h = round_even-near unit v h
float64_by-near (suc fuel) unit v h = elim (Bool-cases (ltb v (2 ^ 53 * unit))) [
  | inl narrow ↦ rw narrow (omega (arith, round_even-near unit v h, unit-le-top fuel (2 * unit)))
  | inr wide ↦ rw wide (float64_by-near fuel (2 * unit) v (omega arith))
]

float64-near : (v : ℕ) → (v ≤ float64 v + 512) × (float64 v ≤ v + 512)
unfolding float64
float64-near v = omega (arith, float64_by-near 10 1 v (omega arith))

-- The bytes are more than the size in GiB by 512 at most, and the size is more than the bytes by less
-- than one GiB and 512 bytes.
pub ceil_gib_near : (v : ℕ) → (v ≤ ceil_gib v * gib + 512) × (ceil_gib v * gib < v + gib + 512)
unfolding ceil_gib
ceil_gib_near v = omega (arith, float64-near v)
