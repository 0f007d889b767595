-- ===== src/Quantity.antt =====
-- Sizes in bytes and in GiB: the arithmetic of float64 and math.Ceil in pkg/scheduler/utils.go.
-- A size is what Quantity.Value gives, an int64 that is not negative.
pub mod Rounding
use kubernetes_local_volume.Base.{
  ℕ, zero, suc, ◌+◌, ◌-◌, ◌*◌, ◌/◌, ◌%◌, ◌^◌, ◌≤◌, ◌<◌, ◌≡◌, arith, ltb, ◌==◌, if◌then◌else◌,
}

abbrev pub gib : ℕ
gib = 1024 * 1024 * 1024

-- The multiple of `unit` that is nearest to `v`, and of two the even one.
unfoldable pub round_even : ℕ → ℕ → ℕ
round_even unit v =
    let q = v / unit in
    let r = v % unit in
    if ltb (2 * r) unit
    then q * unit
    else if ltb unit (2 * r)
    then (q + 1) * unit
    else if q % 2 == 0
    then q * unit
    else (q + 1) * unit

unfoldable pub float64_by : ℕ → ℕ → ℕ → ℕ
float64_by zero unit v = round_even unit v
float64_by (suc fuel) unit v =
    let wider = float64_by fuel (2 * unit) v in
    if ltb v (2 ^ 53 * unit) then round_even unit v else wider

-- `float64(v)` for an int64: 53 bits are kept. The unit doubles ten times at most below 2 ^ 63.
unfoldable pub float64 : ℕ → ℕ
unfolding float64_by round_even
float64 v = float64_by 10 1 v

-- `uint64(math.Ceil(float64(v) / 1024 / 1024 / 1024))`. The divisions are by powers of two and lose
-- nothing.
unfoldable pub ceil_gib : ℕ → ℕ
unfolding float64
ceil_gib v = (float64 v + (gib - 1)) / gib

float64_exact : (v : ℕ) → v < 2 ^ 53 → float64 v ≡ v
unfolding float64
float64_exact v h = ground arith

-- Below 2 ^ 53 bytes a size in GiB is the least whole number of GiB that holds the bytes.
pub ceil_gib_bounds : (v : ℕ) → v < 2 ^ 53 → (v ≤ ceil_gib v * gib) × (ceil_gib v * gib < v + gib)
unfolding ceil_gib
ceil_gib_bounds v h = rw (float64_exact v h) (omega arith)
