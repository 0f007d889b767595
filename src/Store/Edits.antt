-- ===== src/Store/Edits.antt =====
-- The code that changes a deep copy of a cached local volume: bind of pkg/scheduler/bind.go, and
-- Reconcile of pkg/agent/agent_reconciler.go.
use kubernetes_local_volume.Base.{
  ℕ, String, Bool, true, false, not, ◌==◌, Option, none, some, List, [], ◌∷◌, if◌then◌else◌,
}
use kubernetes_local_volume.Base.Dict.{Dict, insert, erase, has, values}
use kubernetes_local_volume.Lvm.{VgInfo}
use kubernetes_local_volume.Agent.Reconciler.{floor_1024}
use kubernetes_local_volume.Store.{put, alloc}
use kubernetes_local_volume.Store.Volumes.{Maps, Heap, StoredVolume, deep_copy}
pub mod Unaliased
pub mod Refreshing

-- `for _, v := range pvcNames { copylv.Status.PreAllocated[v] = "" }`
unfoldable pub mark_loop : List String → ℕ → Maps → Maps
unfolding put insert
mark_loop [] r M = M
mark_loop (v ∷ vs) r M = mark_loop vs r (put r (insert v "" (M.cell r)) M)

-- `if PreAllocated == nil { PreAllocated = make(map[string]string) }`
abbrev pub make_missing : Option ℕ → Maps → ℕ × Maps
make_missing none M = (M.size, alloc [] M)
make_missing (some r) M = (r, M)

-- The copy with the claims, which is always sent.
unfoldable pub mark : Dict String → StoredVolume → Maps → (StoredVolume × Bool) × Maps
unfolding mark_loop alloc
mark pvc_names copylv M =
    let (r, M2) = make_missing copylv.status.pre_allocated M in
    (
      (record copylv { status = record (copylv.status) { pre_allocated = some r } }, true),
      mark_loop (values pvc_names) r M2,
    )

-- Step 3: a key of a nil map is not found.
unfoldable pub release_loop : List String → Option ℕ → Maps → Bool → Maps × Bool
unfolding put
release_loop [] m M changed = (M, changed)
release_loop (key ∷ rest) none M changed = release_loop rest none M changed
release_loop (key ∷ rest) (some r) M changed =
    let deleted = release_loop rest (some r) (put r (erase key (M.cell r)) M) true in
    let skipped = release_loop rest (some r) M changed in
    if has key (M.cell r) then deleted else skipped

-- Steps 1 and 2: a size is assigned if it differs.
abbrev pub assign : ℕ → ℕ × Bool → ℕ × Bool
assign size (old, changed) = if not (size == old) then (size, true) else (old, changed)

-- `reconciler` up to the update: the object, whether it is sent, and the memory.
unfoldable pub refresh : VgInfo → List String → StoredVolume → Maps → (StoredVolume × Bool) × Maps
unfolding floor_1024 release_loop
refresh vg_info bound_keys n M =
    let (total_size, changed) = assign (floor_1024 vg_info.vg_size) (n.status.total_size, false) in
    let (free_size, changed2) = assign (floor_1024 vg_info.vg_free) (n.status.free_size, changed) in
    let (M2, changed3) = release_loop bound_keys n.status.pre_allocated M changed2 in
    (
      (
        record n { status = record (n.status) { total_size = total_size; free_size = free_size } },
        changed3,
      ),
      M2,
    )

-- The object of a lister at `lv` is copied, and `f` changes the copy: the copy, whether it is sent,
-- and the memory.
unfoldable pub edit_copy :
    (StoredVolume → Maps → (StoredVolume × Bool) × Maps)
    → ℕ
    → Heap
    → Option (StoredVolume × Bool) × Heap
edit_copy f lv h = edited (deep_copy (some lv) h).0 (deep_copy (some lv) h).1
  where
    edited : Option ℕ → Heap → Option (StoredVolume × Bool) × Heap
    edited none h2 = (none, h2)
    edited (some copy) h2 =
        let ((sent, changed), M) = f (h2.volumes.cell copy) h2.maps in
        (some (sent, changed), record { maps = M; volumes = put copy sent h2.volumes })
