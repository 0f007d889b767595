-- ===== src/Scheduler/Binding.antt =====
-- pkg/scheduler/bind.go.
use kubernetes_local_volume.Base.{String, Option, none, some, List, [], ◌∷◌}
use kubernetes_local_volume.Base.Dict.{Dict, insert, values}
use kubernetes_local_volume.Fault.{Reply, got, refused, outcome_of}
use kubernetes_local_volume.Host.{
  Host, Io, updated_lv_status, bound_pod, pure, lift, ◌>>=◌, ◌>>◌, attempt, or_throw, error_text,
}
use kubernetes_local_volume.Scheduler.{Cache, namespace_default, get_pod_local_volume_pvc_names}
use kubernetes_local_volume.Types.Objects.{LocalVolume, NamespacedName}

-- schedulerapi.ExtenderBindingArgs
pub record BindingArgs : Type 0 where
  pub pod_name : String
  pub pod_namespace : String
  pub node : String

-- schedulerapi.ExtenderBindingResult; the text is empty on success.
pub record BindingResult : Type 0 where
  pub error : String

-- `for _, v := range pvcNames { PreAllocated[v] = "" }`, over the values of the map.
unfoldable pub mark_all : List String → Dict String → Dict String
unfolding insert
mark_all [] m = m
mark_all (v ∷ vs) m = mark_all vs (insert v "" m)

abbrev pub made_map : Option (Dict String) → Dict String
made_map none = []
made_map (some m) = m

-- The copy of the local volume that is sent.
unfoldable pub preallocate : Dict String → LocalVolume → LocalVolume
unfolding mark_all
preallocate pvc_names lv = record lv {
  status = record (lv.status) {
    pre_allocated = some (mark_all (values pvc_names) (made_map lv.status.pre_allocated));
  };
}

module _ (H : Host) where
  unfoldable pub update_lv_status : LocalVolume → Io (Unit {0})
  update_lv_status lv h = (or_throw (H.update_lv_status h lv), updated_lv_status lv ∷ h)

  unfoldable pub bind_pod : NamespacedName → String → Io (Unit {0})
  bind_pod pod node h = (or_throw (H.bind_pod h pod node), bound_pod pod node ∷ h)

  module _ (C : Cache) where
    unfoldable pub bind : BindingArgs → Io (Unit {0})
    unfolding update_lv_status preallocate
    bind args = do
      pod ← lift (outcome_of (C.get_pod args.pod_namespace args.pod_name))
      pvc_names ← lift (get_pod_local_volume_pvc_names C pod)
      lv ← lift (outcome_of (C.get_local_volume namespace_default args.node))
      update_lv_status (preallocate pvc_names lv)

    answer : Reply (Unit {0}) → BindingResult
    answer (got _) = record { error = "" }
    answer (refused e) = record { error = error_text H e }

    unfoldable pub bind_handler : BindingArgs → Io BindingResult
    unfolding bind bind_pod answer
    bind_handler args = do
      r ← attempt (do
        bind args
        bind_pod (record { namespace = args.pod_namespace; name = args.pod_name }) args.node)
      pure (answer r)
