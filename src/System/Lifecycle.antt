-- ===== src/System/Lifecycle.antt =====
-- A volume from its publication (pkg/driver/nodeserver.go) to its collection
-- (pkg/agent/gc_reconciler.go).
use kubernetes_local_volume.Base.{String, ◌≡◌, refl, ◌∙◌, ap, true, false, ◌&&◌, ◌∷◌, if◌then◌else◌}
use kubernetes_local_volume.Fault.{ok, Reply, got}
use kubernetes_local_volume.Host.{Host, History, ran, updated_pv, or_throw}
use kubernetes_local_volume.Host.Commands.{lvremove}
use kubernetes_local_volume.Types.{local_volume_gc_tag, slice_contains_string}
use kubernetes_local_volume.Types.Keys.{has_code, split_no_separator}
use kubernetes_local_volume.Types.Objects.{Pv}
use kubernetes_local_volume.Agent.Gc.{
  is_garbage, is_released, is_delete, without_gc_tag, gc_device_path, gc_reconciler, gc_reconcile,
}
use kubernetes_local_volume.Agent.Reconciler.{split_meta_namespace_key}
use kubernetes_local_volume.Agent.Collection.{
  is_gone, removal, gc_reconciler_cases, without_gc_tag_finalizers,
}
use kubernetes_local_volume.Driver.Node.{publish_device_path, publish_tagged}
use kubernetes_local_volume.Driver.Publishing.{publish_tagged-is_garbage}
use kubernetes_local_volume.Driver.Devices.{gc_device_path-publish_device_path}

cluster_key :
    (name : String) → has_code b'/' name ≡ false → split_meta_namespace_key name ≡ got ("", name)
unfolding split_meta_namespace_key
cluster_key name plain = rw (split_no_separator b'/' name plain) refl

gc_reconcile-found :
    (H : Host) (get_pv : String → Reply Pv) (name : String) (pv : Pv) (h : History)
    → has_code b'/' name ≡ false
    → get_pv name ≡ got pv
    → gc_reconcile H get_pv name h ≡ gc_reconciler H pv h
unfolding gc_reconcile
gc_reconcile-found H get_pv name pv h plain found =
    rw (cluster_key name plain, gc_reconcile) (rw found refl)

garbage_cases :
    (H : Host) (pv : Pv) (h : History) (device : String)
    → is_garbage pv ≡ true
    → gc_device_path pv ≡ device
    → let after = ran (lvremove device) ∷ h in
      let done = without_gc_tag pv in
      gc_reconciler H pv h ≡ (
        if is_gone H pv (removal H pv h)
        then (or_throw (H.update_pv after done), updated_pv done ∷ after)
        else (ok tt, after))
garbage_cases H pv h device garbage same =
    gc_reconciler_cases H pv h
    ∙ rw garbage (
        ap
          (λ path.
            if is_gone H pv (removal H pv h)
            then (
              or_throw (H.update_pv (ran (lvremove path) ∷ h) (without_gc_tag pv)),
              updated_pv (without_gc_tag pv) ∷ ran (lvremove path) ∷ h,
            )
            else (ok tt, ran (lvremove path) ∷ h))
          same)

-- A volume that the driver published and tagged, and that is then released with the policy to delete
-- it, is collected when the agent reconciles its name: first the logical volume is removed, at the
-- device that the driver made for the volume; if it is gone, the object is updated to one without the
-- finalizer that held it, and otherwise nothing more happens.
pub gc_reconcile-publish_tagged :
    (H : Host) (get_pv : String → Reply Pv) (pv : Pv) (h : History)
    → has_code b'/' pv.name ≡ false
    → get_pv pv.name ≡ got (publish_tagged pv)
    → (is_released pv.phase && is_delete pv.reclaim_policy) ≡ true
    → let tagged = publish_tagged pv in
      let after = ran (lvremove (publish_device_path pv.name)) ∷ h in
      let done = without_gc_tag tagged in
      (gc_reconcile H get_pv pv.name h ≡ (
        if is_gone H tagged (removal H tagged h)
        then (or_throw (H.update_pv after done), updated_pv done ∷ after)
        else (ok tt, after)))
      × (slice_contains_string done.finalizers local_volume_gc_tag ≡ false)
unfolding publish_tagged
gc_reconcile-publish_tagged H get_pv pv h plain found garbage = (
  gc_reconcile-found H get_pv pv.name (publish_tagged pv) h plain found
      ∙ garbage_cases H (publish_tagged pv) h (publish_device_path pv.name)
          ((publish_tagged-is_garbage pv).1 ∙ garbage)
          (gc_device_path-publish_device_path (publish_tagged pv)),
  without_gc_tag_finalizers (publish_tagged pv) local_volume_gc_tag,
)
