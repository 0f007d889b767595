-- ===== src/Tests/Systems.antt =====
-- A history of all the programs, and a status that a bind and the agent changed.
use kubernetes_local_volume.Base.{◌^◌, ◌<◌, ◌≡◌, refl, false, if◌then◌else◌, none, [], ◌∷◌, arith}
use kubernetes_local_volume.Base.Dict.{lookup, insert}
use kubernetes_local_volume.Fault.{ok, Reply, got}
use kubernetes_local_volume.Fault.Pure.{◌>>=◌}
use kubernetes_local_volume.Host.{History, ran, updated_pv, or_throw}
use kubernetes_local_volume.Lvm.{create_vg}
use kubernetes_local_volume.Lvm.Claiming.{CreatesUnused}
use kubernetes_local_volume.Host.Commands.{lvremove}
use kubernetes_local_volume.Types.{vg_name, local_volume_gc_tag, slice_contains_string}
use kubernetes_local_volume.Types.Keys.{has_code}
use kubernetes_local_volume.Agent.Collection.{is_gone, removal}
use kubernetes_local_volume.System.Lifecycle.{gc_reconcile-publish_tagged}
use kubernetes_local_volume.Types.Objects.{Pv, LocalVolume, LocalVolumeStatus, released}
use kubernetes_local_volume.Agent.Gc.{gc_reconcile, without_gc_tag, is_released, is_delete}
use kubernetes_local_volume.Agent.Reconciler.{empty_local_volume, next_status}
use kubernetes_local_volume.Driver.Formatting.{FormatsBlank}
use kubernetes_local_volume.Driver.Node.{node_publish_volume, publish_tagged, publish_device_path}
use kubernetes_local_volume.Scheduler.{
  get_pod_local_volume_pvc_names, get_pod_local_volume_request_size,
}
use kubernetes_local_volume.Scheduler.Handlers.{fits, predicate}
use kubernetes_local_volume.Scheduler.Binding.{preallocate, made_map, bind_handler}
use kubernetes_local_volume.System.{publishes, creates_group, collects, binds, Reach, start, later}
use kubernetes_local_volume.System.Discipline.{CollectsGarbage, BindsReserved, Reach-disciplined}
use kubernetes_local_volume.System.Statuses.{
  reserves, syncs, Evolves, registered, changed, Evolves-predicate,
}
use kubernetes_local_volume.Tests.Data.{
  host, request, volume_in, volume_with, cache_with, pod, node, info,
}

-- The volume group is made, a volume is published, a released one is collected, and a pod is bound.
abbrev after_publishing : History
after_publishing = (node_publish_volume host request (create_vg host vg_name []).1).1

abbrev after_collecting : History
after_collecting = (gc_reconcile host (λ name. got (volume_in released)) "pv1" after_publishing).1

abbrev after_binding : History
after_binding =
    (bind_handler host (cache_with (volume_with 10 []))
      (record { pod_name = "server"; pod_namespace = "web"; node = "n1" }) after_collecting).1

-- The lister has that volume alone.
abbrev Listed : Pv → Type 0
Listed pv = pv ≡ volume_in released

listed_is : (pv : Pv) → ◌≡◌ {A = Reply Pv} (got (volume_in released)) (got pv) → Listed pv
listed_is pv e = cc

run_of_all : Reach host Listed after_binding
run_of_all =
    later
      (later (later (later start creates_group) (publishes request))
        (collects (λ name. got (volume_in released)) (λ name pv e. listed_is pv e) "pv1"))
      (binds (cache_with (volume_with 10 []))
        (record { pod_name = "server"; pod_namespace = "web"; node = "n1" }))

Reach-disciplined_example :
    FormatsBlank host after_binding
    × CreatesUnused host after_binding
    × CollectsGarbage host Listed after_binding
    × BindsReserved host Listed after_binding
Reach-disciplined_example = Reach-disciplined host Listed after_binding run_of_all

-- The status after the registration, a bind, and a reconciliation.
abbrev bound_status : LocalVolumeStatus
bound_status =
    (preallocate (("web/data", "") ∷ []) (record {
      namespace = "default";
      name = "n1";
      status = (empty_local_volume "n1").status;
    })).status

abbrev synced : LocalVolume
synced = record {
  namespace = "default";
  name = "n1";
  status = (next_status info ("web/other" ∷ []) bound_status).0;
}

pod_names :
    (lv : LocalVolume)
    → get_pod_local_volume_pvc_names (cache_with lv) pod ≡ ok (("web/data", "") ∷ [])
unfolding get_pod_local_volume_pvc_names insert
pod_names lv = refl

evolution : Evolves synced.status
evolution =
    changed
      (changed (registered "n1") (
        reserves (cache_with synced) pod (("web/data", "") ∷ []) "default" "n1" (pod_names synced)))
      (syncs info ("web/other" ∷ []))

small : synced.status.free_size < 2 ^ 64
unfolding next_status
small = omega arith

Evolves-predicate_example :
    (lookup "web/data" (made_map synced.status.pre_allocated) ≡ none)
    × (predicate (cache_with synced) pod node ≡ (
        get_pod_local_volume_request_size (cache_with synced) pod >>= λ request.
        ok (got (fits request synced.status.free_size))))
Evolves-predicate_example =
    Evolves-predicate (cache_with synced) pod node synced "web/data" evolution refl (_, refl) small
      (λ e. cc)

-- A released volume that the driver tagged is removed and loses the finalizer.
gc_reconcile-publish_tagged_example :
    let tagged = publish_tagged (volume_in released) in
    let after = ran (lvremove (publish_device_path "pv1")) ∷ [] in
    let done = without_gc_tag tagged in
    (gc_reconcile host (λ name. got tagged) "pv1" [] ≡ (
      if is_gone host tagged (removal host tagged [])
      then (or_throw (host.update_pv after done), updated_pv done ∷ after)
      else (ok tt, after)))
    × (slice_contains_string done.finalizers local_volume_gc_tag ≡ false)
unfolding is_released is_delete has_code
gc_reconcile-publish_tagged_example =
    gc_reconcile-publish_tagged host (λ name. got (publish_tagged (volume_in released)))
      (volume_in released) [] refl refl refl
