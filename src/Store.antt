-- ===== src/Store.antt =====
-- Go's memory, as far as code changes what a pointer or a map refers to: regions of cells, one per
-- type of cell, whose addresses count up.
use kubernetes_local_volume.Base.{
  ℕ, suc, ◌==◌, ==_iff, ◌<◌, ◌≡◌, refl, ap, sym, fun_ext, if◌then◌else◌, Bool-cases, inl, inr,
  arith,
}
pub mod Volumes
pub mod Copies
pub mod Lists
pub mod Edits
pub mod Pointers

pub record Region {ℓ} (A : Type ℓ) : Type ℓ where
  pub size : ℕ
  pub cell : ℕ → A

module _ {ℓ} {A : Type ℓ} where
  unfoldable pub put : ℕ → A → Region A → Region A
  put r a R = record R { cell = λ i. if i == r then a else R.cell i }

  -- A new cell; its address is the size before.
  unfoldable pub alloc : A → Region A → Region A
  alloc a R = record { size = suc R.size; cell = λ i. if i == R.size then a else R.cell i }

  pub put-put : (r : ℕ) (a b : A) (R : Region A) → put r b (put r a R) ≡ put r b R
  unfolding put
  put-put r a b R = ap (λ cell. record R { cell = cell }) (fun_ext (λ i. ground arith))

  pub put-cell : (r : ℕ) (R : Region A) → put r (R.cell r) R ≡ R
  unfolding put
  put-cell r R =
      ap (λ cell. record R { cell = cell })
        (fun_ext (λ i. elim (Bool-cases (i == r)) [
          | inl same ↦ rw same (ap R.cell (sym ((==_iff i r).0 same)))
          | inr other ↦ rw other refl
        ]))

  pub cell-put : (r : ℕ) (a : A) (R : Region A) → (put r a R).cell r ≡ a
  unfolding put
  cell-put r a R = ground arith

  pub cell-put_other : (i r : ℕ) (a : A) (R : Region A) → i < r → (put r a R).cell i ≡ R.cell i
  unfolding put
  cell-put_other i r a R other = ground arith

  pub cell-alloc : (a : A) (R : Region A) → (alloc a R).cell R.size ≡ a
  unfolding alloc
  cell-alloc a R = ground arith

  pub cell-alloc_old : (i : ℕ) (a : A) (R : Region A) → i < R.size → (alloc a R).cell i ≡ R.cell i
  unfolding alloc
  cell-alloc_old i a R old = ground arith

  pub put-alloc : (a b : A) (R : Region A) → put R.size b (alloc a R) ≡ alloc b R
  unfolding put alloc
  put-alloc a b R =
      ap (λ cell. record { size = suc R.size; cell = cell }) (fun_ext (λ i. ground arith))
