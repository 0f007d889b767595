-- ===== src/Store/Volumes.antt =====
-- Local volumes in memory and their deep copies
-- (pkg/apis/storage/v1alpha1/zz_generated.deepcopy.go).
use kubernetes_local_volume.Base.{ℕ, String, Option, none, some, List, [], ◌∷◌}
use kubernetes_local_volume.Base.Dict.{Dict, insert}
use kubernetes_local_volume.Store.{Region, put, alloc}
use kubernetes_local_volume.Types.Objects.{LocalVolume, LocalVolumeStatus}

-- A map is the address of its entries, or nil.
pub record StoredStatus : Type 0 where
  pub total_size : ℕ
  pub free_size : ℕ
  pub pre_allocated : Option ℕ

pub record StoredVolume : Type 0 where
  pub namespace : String
  pub name : String
  pub status : StoredStatus

-- The items are nil, or the elements of a slice.
pub record StoredList : Type 0 where
  pub items : Option (List StoredVolume)

abbrev pub Maps : Type 0
Maps = Region (Dict String)

-- What the program has allocated: the entries of maps, and the structs behind pointers.
pub record Heap : Type 0 where
  pub maps : Maps
  pub volumes : Region StoredVolume

-- What a reader of the memory sees.
abbrev pub see_map : Maps → Option ℕ → Option (Dict String)
see_map M none = none
see_map M (some r) = some (M.cell r)

abbrev pub see_status : Maps → StoredStatus → LocalVolumeStatus
see_status M s = record {
  total_size = s.total_size;
  free_size = s.free_size;
  pre_allocated = see_map M s.pre_allocated;
}

abbrev pub see : Maps → StoredVolume → LocalVolume
see M lv = record { namespace = lv.namespace; name = lv.name; status = see_status M lv.status }

-- `for key, val := range *in { (*out)[key] = val }`
unfoldable pub copy_loop : Dict String → ℕ → Maps → Maps
unfolding put insert
copy_loop [] out M = M
copy_loop ((key, val) ∷ rest) out M = copy_loop rest out (put out (insert key val (M.cell out)) M)

abbrev pub copy_map : Option ℕ → Maps → Option ℕ × Maps
copy_map none M = (none, M)
copy_map (some r) M = (some M.size, copy_loop (M.cell r) M.size (alloc [] M))

-- The `DeepCopyInto` methods: what they leave in `*out`, and the memory after them.
unfoldable pub deep_copy_status : StoredStatus → Maps → StoredStatus × Maps
unfolding copy_loop alloc
deep_copy_status s M =
    let (pre_allocated, M2) = copy_map s.pre_allocated M in
    (record s { pre_allocated = pre_allocated }, M2)

unfoldable pub deep_copy_into : StoredVolume → Maps → StoredVolume × Maps
unfolding deep_copy_status
deep_copy_into lv M =
    let (status, M2) = deep_copy_status lv.status M in (record lv { status = status }, M2)

unfoldable pub copy_items : List StoredVolume → Maps → List StoredVolume × Maps
unfolding deep_copy_into
copy_items [] M = ([], M)
copy_items (lv ∷ rest) M =
    let (copy, M2) = deep_copy_into lv M in
    let (copies, M3) = copy_items rest M2 in (copy ∷ copies, M3)

abbrev pub copy_slice : Option (List StoredVolume) → Maps → Option (List StoredVolume) × Maps
copy_slice none M = (none, M)
copy_slice (some items) M = let (copies, M2) = copy_items items M in (some copies, M2)

unfoldable pub deep_copy_list : StoredList → Maps → StoredList × Maps
unfolding copy_items
deep_copy_list l M = let (items, M2) = copy_slice l.items M in (record { items = items }, M2)

-- `DeepCopy`, of a pointer that may be nil.
unfoldable pub deep_copy : Option ℕ → Heap → Option ℕ × Heap
deep_copy none h = (none, h)
deep_copy (some r) h =
    let (copy, M) = deep_copy_into (h.volumes.cell r) h.maps in
    (some h.volumes.size, record { maps = M; volumes = alloc copy h.volumes })
