-- ===== src/Driver/Volumes.antt =====
-- The size of the logical volume that pkg/driver/nodeserver.go makes for a volume's capacity, against
-- the size that pkg/scheduler/utils.go reckons with.
use kubernetes_local_volume.Base.{
  ℕ, ◌+◌, ◌*◌, ◌/◌, ◌%◌, ◌^◌, ◌<◌, ◌≤◌, ◌≡◌, String, str_eq, arith, if◌then◌else◌, ◌==◌, Bool-cases,
  inl, inr, ltb,
}
use kubernetes_local_volume.Quantity.{gib, ceil_gib, ceil_gib_bounds}
use kubernetes_local_volume.Driver.Node.{size_and_unit}

-- The bytes of a unit of the LVM tools.
abbrev pub unit_bytes : String → ℕ
unit_bytes u = if str_eq u "g" then gib else if str_eq u "m" then 1024 * 1024 else 0

-- The size of the logical volume is the capacity rounded down to GiB, or to MiB where the capacity is
-- below one GiB.
pub size_and_unit_bounds :
    (capacity : ℕ)
    → let (size, u) = size_and_unit capacity in
      (size * unit_bytes u ≤ capacity)
      × (capacity < (size + 1) * unit_bytes u)
      × (u ≡ (if ltb capacity gib then "m" else "g"))
unfolding size_and_unit
size_and_unit_bounds capacity = elim (Bool-cases (capacity / gib == 0)) [
  | inl small ↦ rw (small, size_and_unit) (ground arith)
  | inr large ↦ rw (large, size_and_unit) (ground arith)
]

-- The bytes of the logical volume that the driver makes for a capacity.
abbrev pub volume_bytes : ℕ → ℕ
volume_bytes capacity = let (size, u) = size_and_unit capacity in size * unit_bytes u

-- From one GiB on (and below 2 ^ 53 bytes) the scheduler reckons, in bytes, with the size of the logical
-- volume just when the capacity is a whole number of GiB, and otherwise with one GiB more.
pub ceil_gib-size_and_unit :
    (capacity : ℕ)
    → gib ≤ capacity
    → capacity < 2 ^ 53
    → ceil_gib capacity * gib
      ≡ (if capacity % gib == 0 then volume_bytes capacity else volume_bytes capacity + gib)
unfolding size_and_unit
ceil_gib-size_and_unit capacity large word = elim (Bool-cases (capacity / gib == 0)) [
  | inl small ↦ absurd (ground arith)
  | inr whole ↦ rw (whole, size_and_unit) (ground (arith, ceil_gib_bounds capacity word))
]
