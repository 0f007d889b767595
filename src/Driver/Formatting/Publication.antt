-- ===== src/Driver/Formatting/Publication.antt =====
-- mkfs in NodePublishVolume of pkg/driver/nodeserver.go.
use kubernetes_local_volume.Base.{String}
use kubernetes_local_volume.Host.{Host, History}
use kubernetes_local_volume.Host.Laws.{Keeps}
use kubernetes_local_volume.Lvm.{create_vg}
use kubernetes_local_volume.Driver.Node.{PublishRequest, node_publish_volume}
use kubernetes_local_volume.Driver.Routine.{create_vg-Keeps}
use kubernetes_local_volume.Driver.Routine.Publication.{node_publish_volume-Keeps}
use kubernetes_local_volume.Driver.Formatting.{
  FormatsBlank, allowed_routine, ensure_filesystem-Keeps,
}

module _ (H : Host) where
  pub create_vg-FormatsBlank : (vg : String) → Keeps (FormatsBlank H) (create_vg H vg)
  create_vg-FormatsBlank =
      create_vg-Keeps H (FormatsBlank H) (allowed_routine H) (λ devices h g. (tt, g))

  -- Publishing a volume formats no device on which a file system was seen: if in the history so far
  -- each run of mkfs comes directly behind a look at the same device that found it blank, by `file` or
  -- by `blkid`, this holds of the history after NodePublishVolume, whatever its outcome.
  pub node_publish_volume-FormatsBlank :
      (req : PublishRequest) (h : History)
      → FormatsBlank H h
      → FormatsBlank H (node_publish_volume H req h).1
  node_publish_volume-FormatsBlank req =
      (node_publish_volume-Keeps H (FormatsBlank H) (allowed_routine H) create_vg-FormatsBlank
        (ensure_filesystem-Keeps H) req).keeps
