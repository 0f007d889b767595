-- ===== src/Agent/Gc.antt =====
-- pkg/agent/gc.go and gc_reconciler.go: the logical volume of a released volume is removed, and then
-- the finalizer that held the object.
use kubernetes_local_volume.Base.{
  String, contains, path_join, Bool, true, false, ◌&&◌, Option, none, some, [], ◌∷◌, if◌then◌else◌,
}
use kubernetes_local_volume.Fault.{missing_object, Reply, got, refused}
use kubernetes_local_volume.Host.{
  Host, Io, updated_pv, pure, throw, ◌>>=◌, attempt, or_throw, run, error_text,
}
use kubernetes_local_volume.Host.Commands.{lvremove}
use kubernetes_local_volume.Types.{
  vg_name, local_volume_gc_tag, slice_contains_string, slice_remove_string, is_pv_in_my_node,
}
use kubernetes_local_volume.Types.Objects.{Pv, Phase, released, ReclaimPolicy, delete}
use kubernetes_local_volume.Agent.Reconciler.{split_meta_namespace_key}

abbrev pub lv_not_found_string : String
lv_not_found_string = "Failed to find logical volume"

unfoldable pub is_released : Phase → Bool
is_released released = true
is_released _ = false

unfoldable pub is_delete : ReclaimPolicy → Bool
is_delete delete = true
is_delete _ = false

-- gcFilter, on an object that is a volume or another thing.
unfoldable pub gc_filter : String → Option Pv → Bool
gc_filter node_id none = false
gc_filter node_id (some pv) = is_pv_in_my_node pv node_id

-- The guard of `reconciler`.
unfoldable pub is_garbage : Pv → Bool
unfolding is_released is_delete slice_contains_string
is_garbage pv =
    is_released pv.phase
    && is_delete pv.reclaim_policy
    && slice_contains_string pv.finalizers local_volume_gc_tag

abbrev pub gc_device_path : Pv → String
gc_device_path pv = path_join ("/dev/" ∷ vg_name ∷ "/" ∷ pv.name ∷ [])

abbrev pub without_gc_tag : Pv → Pv
without_gc_tag pv = record pv { finalizers = slice_remove_string pv.finalizers local_volume_gc_tag }

module _ (H : Host) where
  unfoldable pub delete_volume : Pv → Io (Unit {0})
  unfolding run contains
  delete_volume pv = do
    r ← attempt (run H (lvremove (gc_device_path pv)))
    elim r [
      | got _ ↦ pure tt
      | refused e ↦ if contains (error_text H e) lv_not_found_string then pure tt else throw e
    ]

  update_pv : Pv → Io (Unit {0})
  update_pv pv h = (or_throw (H.update_pv h pv), updated_pv pv ∷ h)

  unfoldable pub gc_reconciler : Pv → Io (Unit {0})
  unfolding is_garbage delete_volume update_pv
  gc_reconciler pv =
      if is_garbage pv
      then (do
        deleted ← attempt (delete_volume pv)
        elim deleted [ refused _ ↦ pure tt | got _ ↦ update_pv (without_gc_tag pv) ])
      else pure tt

  -- `get_pv` is the lister.
  unfoldable pub gc_reconcile : (String → Reply Pv) → String → Io (Unit {0})
  unfolding gc_reconciler split_meta_namespace_key
  gc_reconcile get_pv key = elim (split_meta_namespace_key key) [
    | refused _ ↦ pure tt
    | got (_, name) ↦ elim (get_pv name) [
      | refused (missing_object _) ↦ pure tt
      | refused e ↦ throw e
      | got original ↦ gc_reconciler original
    ]
  ]
