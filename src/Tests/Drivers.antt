-- ===== src/Tests/Drivers.antt =====
-- The driver's node and controller services, the volume groups and the mounter.
use kubernetes_local_volume.Base.{
  contains, if◌then◌else◌, ◌*◌, ◌+◌, ◌≡◌, refl, true, false, none, some, [], ◌∷◌, arith, path_join,
  trim_space,
}
use kubernetes_local_volume.Base.Dict.{lookup}
use kubernetes_local_volume.Fault.{plain, ok, got}
use kubernetes_local_volume.Host.{Host, History, run, executed, lstated, opened, read_dir}
use kubernetes_local_volume.Quantity.{gib, ceil_gib}
use kubernetes_local_volume.Types.{vg_name}
use kubernetes_local_volume.Lvm.{atoi, create_vg, count_pvs}
use kubernetes_local_volume.Lvm.Claiming.{CreatesUnused, create_vg-CreatesUnused}
use kubernetes_local_volume.Mounter.{mount, is_mounted, is_dir_empty}
use kubernetes_local_volume.Driver.Node.{
  publish, ensure_volume, create_volume as make_volume, get_pv_size, lvcreate, ensure_filesystem,
  ensure_mount, node_publish_volume, update_pv_publish_success_tag, ensure_target,
}
use kubernetes_local_volume.Driver.Filesystem.{check_fs_type, format_device}
use kubernetes_local_volume.Driver.Formatting.{FormatsBlank}
use kubernetes_local_volume.Driver.Formatting.Publication.{node_publish_volume-FormatsBlank}
use kubernetes_local_volume.Driver.Tagging.{Tagged, node_publish_volume-Tagged}
use kubernetes_local_volume.Driver.Volumes.{ceil_gib-size_and_unit, volume_bytes}
use kubernetes_local_volume.Driver.Services.{CreateRequest, CreatedVolume, create_volume}
use kubernetes_local_volume.Tests.Data.{host, request}

node_publish_volume-FormatsBlank_example : FormatsBlank host (node_publish_volume host request []).1
node_publish_volume-FormatsBlank_example = node_publish_volume-FormatsBlank host request [] tt

publishing_succeeds : (node_publish_volume host request []).0 ≡ ok tt
unfolding node_publish_volume publish ensure_volume make_volume get_pv_size create_vg count_pvs
    lvcreate ensure_target ensure_filesystem check_fs_type format_device ensure_mount mount
    update_pv_publish_success_tag is_mounted run trim_space lookup atoi path_join
publishing_succeeds = refl

node_publish_volume-Tagged_example : Tagged host "pv1" (node_publish_volume host request []).1
node_publish_volume-Tagged_example = node_publish_volume-Tagged host request [] publishing_succeeds

-- A host without the volume group, on which no device is in use.
abbrev bare_host : Host
bare_host = record host {
  shell = λ h c.
      if contains c "pvdisplay"
      then record { text = "Failed to find physical volume"; error = some (plain "exit status 5") }
      else record { text = "0"; error = none };
  stat = λ h path. got false;
}

create_vg-CreatesUnused_example : CreatesUnused bare_host (create_vg bare_host vg_name []).1
create_vg-CreatesUnused_example = create_vg-CreatesUnused bare_host vg_name [] tt

ceil_gib-size_and_unit_example : ceil_gib (2 * gib + 1) * gib ≡ volume_bytes (2 * gib + 1) + gib
ceil_gib-size_and_unit_example = ceil_gib-size_and_unit (2 * gib + 1) (omega arith) (omega arith)

abbrev creation : CreateRequest
creation = record {
  name = "pv1";
  volume_capabilities = some [];
  required_bytes = 3 * gib;
  parameters = [];
  accessibility_requirements = some (record {
    preferred = [] ∷ [];
    requisite = (("topology.local.volume.csi/hostname", "n1") ∷ []) ∷ [];
  });
}

abbrev created : CreatedVolume
created = record {
  volume_id = "pv1";
  capacity_bytes = 3 * gib;
  volume_context = [];
  accessible_topology = (("topology.local.volume.csi/hostname", "n1") ∷ []) ∷ [];
}

creation_succeeds : create_volume none creation ≡ ok created
unfolding create_volume lookup
creation_succeeds = refl

abbrev tested : History
tested = executed "grep" ("/mnt" ∷ "/proc/mounts" ∷ []) ∷ lstated "/mnt" ∷ []

not_mounted : is_mounted host "/mnt" (lstated "/mnt" ∷ []) ≡ (ok false, tested)
unfolding is_mounted
not_mounted = refl

looks_empty : is_dir_empty host "/mnt" tested ≡ (ok true, read_dir "/mnt" ∷ opened "/mnt" ∷ tested)
unfolding is_dir_empty
looks_empty = refl
