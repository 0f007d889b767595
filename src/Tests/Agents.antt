-- ===== src/Tests/Agents.antt =====
-- The agent's reconcilers and the controller that runs them.
use kubernetes_local_volume.Base.{◌⊎◌, ◌≡◌, ◌≢◌, ◌↔◌, refl, String, true, some, [], ◌∷◌}
use kubernetes_local_volume.Base.Dict.{Dict}
use kubernetes_local_volume.Fault.{plain, ok, got}
use kubernetes_local_volume.Host.{History, ran_apart, updated_lv_status}
use kubernetes_local_volume.Host.Commands.{vgs}
use kubernetes_local_volume.Lvm.{get_vg_info}
use kubernetes_local_volume.Types.{vg_name, is_pv_in_my_node}
use kubernetes_local_volume.Types.Objects.{bound, released, LocalVolume}
use kubernetes_local_volume.Agent.Reconciler.{
  next_status, get_my_node_bounded_pvc_list, reconciler, enqueue_local_volume_pv,
}
use kubernetes_local_volume.Agent.Convergence.{updated, reconciler_sends_changes, reconciler_twice}
use kubernetes_local_volume.Agent.Enqueueing.{enqueues, enqueues-is_pv_in_my_node}
use kubernetes_local_volume.Agent.Gc.{gc_reconciler}
use kubernetes_local_volume.Agent.Collection.{IsGarbage, collected, gc_reconciler-collected}
use kubernetes_local_volume.Controller.{Reconciled, failure, transient}
use kubernetes_local_volume.Tests.Data.{host, volume_with, volume_in, info, unmarshal}

abbrev lv : LocalVolume
lv = volume_with 3 ("web/data" ∷ [])

abbrev claims : Dict String
claims = ("web/data", "") ∷ []

listed : get_my_node_bounded_pvc_list "n1" (got (volume_in bound ∷ [])) ≡ ok claims
unfolding get_my_node_bounded_pvc_list
listed = refl

abbrev asked : History
asked =
    ran_apart (
      vgs (
        "--reportformat=json" ∷ "--units=M" ∷ "--nosuffix"
        ∷ "--options=vg_size,vg_free,vg_free_count,vg_extent_size" ∷ vg_name ∷ []))
    ∷ []

vg_known : get_vg_info host unmarshal vg_name [] ≡ (ok (some info), asked)
unfolding get_vg_info
vg_known = refl

abbrev sent : LocalVolume
sent = updated host unmarshal "n1" (got (volume_in bound ∷ [])) info claims listed lv

reconciler_sends_changes_example :
    (reconciler host unmarshal "n1" (got (volume_in bound ∷ [])) lv []
      ≡ (ok tt, updated_lv_status sent ∷ asked))
    × ((true ≡ true) ↔ (sent.status ≢ lv.status))
unfolding next_status
reconciler_sends_changes_example =
    reconciler_sends_changes host unmarshal "n1" (got (volume_in bound ∷ [])) info claims listed lv
      [] asked vg_known

reconciler_twice_example :
    reconciler host unmarshal "n1" (got (volume_in bound ∷ [])) sent [] ≡ (ok tt, asked)
reconciler_twice_example =
    reconciler_twice host unmarshal "n1" (got (volume_in bound ∷ [])) info claims listed lv [] asked
      vg_known

enqueues-is_pv_in_my_node_example :
    enqueues "n1" (enqueue_local_volume_pv (volume_in bound))
    ≡ is_pv_in_my_node (volume_in bound) "n1"
enqueues-is_pv_in_my_node_example = enqueues-is_pv_in_my_node (volume_in bound) "n1"

gc_reconciler-collected_example :
    let pv = volume_in released in
    (¬ IsGarbage pv × (gc_reconciler host pv [] ≡ (ok tt, [])))
    ⊎ (IsGarbage pv × (gc_reconciler host pv [] ≡ collected host pv []))
gc_reconciler-collected_example = gc_reconciler-collected host (volume_in released) []

abbrev failing : String → Reconciled
failing key = failure (transient (plain key))
