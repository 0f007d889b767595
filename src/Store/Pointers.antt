-- ===== src/Store/Pointers.antt =====
-- The DeepCopy and DeepCopyObject methods of pkg/apis/storage/v1alpha1/zz_generated.deepcopy.go, of
-- pointers that may be nil.
use kubernetes_local_volume.Base.{ℕ, ◌≡◌, refl, Option, none, some}
use kubernetes_local_volume.Store.{Region, alloc, cell-alloc}
use kubernetes_local_volume.Store.Volumes.{
  Maps, Heap, StoredStatus, StoredList, deep_copy_status, deep_copy_list, deep_copy,
}
use kubernetes_local_volume.Store.Copies.{Keeps}
use kubernetes_local_volume.Store.Lists.{
  see_items, AreItemsStored, AreItemsFresh, deep_copy_list-see,
}

-- LocalVolumeSpec has no fields.
pub record Spec : Type 0 where

-- A new cell for what DeepCopyInto leaves, if the pointer is not nil.
abbrev copy_pointer :
    {A : Type 0} → (A → Maps → A × Maps) → Option ℕ → Maps → Region A → Option ℕ × Maps × Region A
copy_pointer into none M R = (none, M, R)
copy_pointer into (some r) M R =
    let (copy, M2) = into (R.cell r) M in (some R.size, M2, alloc copy R)

unfoldable pub deep_copy_status_pointer :
    Option ℕ → Maps → Region StoredStatus → Option ℕ × Maps × Region StoredStatus
unfolding deep_copy_status alloc
deep_copy_status_pointer r M R = copy_pointer deep_copy_status r M R

unfoldable pub deep_copy_list_pointer :
    Option ℕ → Maps → Region StoredList → Option ℕ × Maps × Region StoredList
unfolding deep_copy_list alloc
deep_copy_list_pointer r M R = copy_pointer deep_copy_list r M R

unfoldable pub deep_copy_spec_pointer : Option ℕ → Region Spec → Option ℕ × Region Spec
unfolding alloc
deep_copy_spec_pointer none R = (none, R)
deep_copy_spec_pointer (some r) R = (some R.size, alloc (R.cell r) R)

-- DeepCopyObject: the interface holds the copy, or is nil.
abbrev object_of : Option ℕ → Option ℕ
object_of none = none
object_of (some c) = some c

unfoldable pub deep_copy_object : Option ℕ → Heap → Option ℕ × Heap
unfolding deep_copy
deep_copy_object r h = let (c, h2) = deep_copy r h in (object_of c, h2)

unfoldable pub deep_copy_list_object :
    Option ℕ → Maps → Region StoredList → Option ℕ × Maps × Region StoredList
unfolding deep_copy_list_pointer
deep_copy_list_object r M R =
    let (c, M2, R2) = deep_copy_list_pointer r M R in (object_of c, M2, R2)

-- The copy of a list behind a pointer is behind a new one, and is seen as the list, with its maps at
-- new addresses.
pub deep_copy_list_object-see :
    (r : ℕ) (M : Maps) (R : Region StoredList)
    → AreItemsStored M (R.cell r).items
    → let (copy, M2, R2) = deep_copy_list_object (some r) M R in
      (copy ≡ some R.size)
      × (see_items M2 (R2.cell R.size).items ≡ see_items M (R.cell r).items)
      × AreItemsFresh M M2 (R2.cell R.size).items
      × Keeps M M2
unfolding deep_copy_list_object
deep_copy_list_object-see r M R stored =
    let (same, fresh, kept) = deep_copy_list-see (R.cell r) M stored in
    (refl, rw cell-alloc same, rw cell-alloc fresh, kept)
