-- ===== src/Driver/Node.antt =====
-- pkg/driver/nodeserver.go: publishing a volume makes its logical volume, file system and mount, and
-- tags the object. An int64 capacity is not negative.
use kubernetes_local_volume.Base.{
  ℕ, ◌*◌, ◌/◌, String, str_eq, split, trim_space, path_join, Bool, true, false, none, some, List,
  [], ◌∷◌, ◌++◌, ◌==◌, if◌then◌else◌,
}
use kubernetes_local_volume.Base.Int.{ℤ, pos, leb_ℤ}
use kubernetes_local_volume.Base.Dict.{Dict, lookup, insert, has}
use kubernetes_local_volume.Fault.{
  Error, Reply, status, missing_file, panic, got, refused, internal_code, not_found_code,
  outcome_of,
}
use kubernetes_local_volume.Host.{
  Host, Io, got_pv, patched_pv, resized_fs, pure, throw, lift, ◌>>=◌, ◌>>◌, attempt, or_throw, run,
  stat, mkdir_all, error_text, internal, prefixed,
}
use kubernetes_local_volume.Host.Commands.{
  vgck, lvcreate_striping, lvcreate_linear, lv_size, lvextend,
}
use kubernetes_local_volume.Lvm.{create_vg, atoi}
use kubernetes_local_volume.Mounter.{is_mounted, mount, unmount}
use kubernetes_local_volume.Quantity.{gib}
use kubernetes_local_volume.Types.{
  vg_name, local_volume_gc_tag, topology_node_key, slice_contains_string,
}
use kubernetes_local_volume.Types.Objects.{Pv}
use kubernetes_local_volume.Driver.Filesystem.{format_device, check_fs_type}

abbrev pub fs_type_tag : String
fs_type_tag = "fsType"

abbrev pub lvm_type_tag : String
lvm_type_tag = "lvmType"

abbrev pub linear_type : String
linear_type = "linear"

abbrev pub striping_type : String
striping_type = "striping"

abbrev pub default_fs : String
default_fs = "ext4"

abbrev pub volume_publish_success : String
volume_publish_success = "local.volume.csi.kubernetes.io/publish"

-- csi.NodePublishVolumeRequest
pub record PublishRequest : Type 0 where
  pub target_path : String
  pub volume_id : String
  pub volume_context : Dict String
  pub readonly : Bool
  pub mount_flags : List String

-- A value of the volume's context, or the default where the key is missing.
abbrev pub context_value : String → String → Dict String → String
context_value default tag context = elim (lookup tag context) [ none ↦ default | some v ↦ v ]

abbrev pub publish_device_path : String → String
publish_device_path volume_id = path_join ("/dev/" ∷ vg_name ∷ volume_id ∷ [])

abbrev pub fail_internal {ℓ} : {A : Type ℓ} → String → Io A
fail_internal message = throw (status internal_code message)

-- The size in GiB, or in MiB where that is nothing.
unfoldable pub size_and_unit : ℕ → ℕ × String
size_and_unit pv_size =
    if pv_size / gib == 0 then (pv_size / (1024 * 1024), "m") else (pv_size / gib, "g")

-- A quantity that is missing has the value 0.
unfoldable pub capacity_of : Pv → ℕ
capacity_of pv = elim (lookup "storage" pv.capacity) [ none ↦ 0 | some v ↦ v ]

-- The copy that is patched onto the object.
unfoldable pub publish_tagged : Pv → Pv
unfolding slice_contains_string insert
publish_tagged pv = record pv {
  annotations =
      some (insert volume_publish_success "true" (elim pv.annotations [ none ↦ [] | some m ↦ m ]));
  finalizers =
      if slice_contains_string pv.finalizers local_volume_gc_tag
      then pv.finalizers
      else pv.finalizers ++ local_volume_gc_tag ∷ [];
}

-- `_, ok := oldPv.Annotations[volumePublishSuccess]`
unfoldable pub has_publish_tag : Pv → Bool
unfolding lookup
has_publish_tag pv = elim pv.annotations [ none ↦ false | some m ↦ has volume_publish_success m ]

module _ (H : Host) where
  unfoldable pub get_pv : String → Io Pv
  get_pv name h = (outcome_of (H.get_pv h name), got_pv name ∷ h)

  unfoldable pub get_pv_size : String → Io (ℕ × String)
  unfolding get_pv size_and_unit capacity_of
  get_pv_size volume_id = do
    pv ← attempt (get_pv volume_id)
    pure (elim pv [ refused _ ↦ (0, "") | got p ↦ size_and_unit (capacity_of p) ])

  unfoldable pub lvcreate : String → ℤ → String → ℕ × String → String → Io (Unit {0})
  unfolding run
  lvcreate lvm_type pv_number volume_id size vg =
      if str_eq lvm_type striping_type
      then (do run H (lvcreate_striping pv_number volume_id size.0 size.1 vg); pure tt)
      else if str_eq lvm_type linear_type
      then (do run H (lvcreate_linear volume_id size.0 size.1 vg); pure tt)
      else pure tt

  unfoldable pub create_volume : String → String → String → Io (Unit {0})
  create_volume volume_id vg lvm_type = do
    size ← get_pv_size volume_id
    pv_number ← create_vg H vg
    run H (vgck vg)
    lvcreate lvm_type pv_number volume_id size vg

  abbrev pub head : List String → String
  head [] = ""
  head (s ∷ _) = s

  unfoldable pub resize_fs : String → String → Io Bool
  resize_fs device target h =
      (outcome_of (H.resize_fs h device target), resized_fs device target ∷ h)

  -- The logical volume and then its file system grow to the size.
  unfoldable pub grow : ℕ × String → String → String → Io (Unit {0})
  unfolding run resize_fs
  grow size device_path target_path = do
    run H (lvextend size.0 size.1 device_path)
    grown ← resize_fs device_path target_path
    if grown then pure tt else fail_internal "Fail to resize volume fs"

  unfoldable pub resize_volume : String → String → String → Io (Unit {0})
  resize_volume volume_id vg target_path = do
    size ← get_pv_size volume_id
    let device_path = path_join ("/dev" ∷ vg ∷ volume_id ∷ [])
    size_str ← run H (lv_size device_path)
    if str_eq size_str "" then fail_internal "Get lvm size error" else (do
      size_int ← lift (atoi (trim_space (head (split b'.' size_str))))
      if leb_ℤ (pos size.0) size_int then pure tt else grow size device_path target_path)

  unfoldable pub patch_pv : String → String → Io (Unit {0})
  patch_pv name patch h = (or_throw (H.patch_pv h name patch), patched_pv name patch ∷ h)

  unfoldable pub update_pv_publish_success_tag : String → Io (Unit {0})
  unfolding get_pv patch_pv publish_tagged has_publish_tag
  update_pv_publish_success_tag volume_id = do
    old_pv ← internal H (get_pv volume_id)
    if has_publish_tag old_pv then pure tt else (do
      old_data ← internal H (lift (outcome_of (H.marshal_pv old_pv)))
      new_data ← internal H (lift (outcome_of (H.marshal_pv (publish_tagged old_pv))))
      patch ← internal H (lift (outcome_of (H.merge_patch old_data new_data)))
      internal H (patch_pv volume_id patch))

  -- The logical volume is made where its device is missing; the flag tells of that.
  unfoldable pub ensure_volume : PublishRequest → String → Io Bool
  ensure_volume req device_path = do
    found ← stat H device_path
    elim found [
      | refused (missing_file _) ↦ do
        internal H (
            create_volume req.volume_id vg_name
              (context_value linear_type lvm_type_tag req.volume_context))
        pure true
      | _ ↦ pure false
    ]

  -- Where the test of the mount fails the target is made if it is missing. If it is there, the error
  -- of os.Stat, which is nil, is asked for its text.
  unfoldable pub ensure_target : String → Io Bool
  ensure_target target_path = do
    mounted ← attempt (is_mounted H target_path)
    elim mounted [
      | got b ↦ pure b
      | refused _ ↦ do
        found ← stat H target_path
        elim found [
          | refused (missing_file _) ↦ do internal H (mkdir_all H target_path); pure false
          | refused e ↦ fail_internal (error_text H e)
          | got _ ↦ lift panic
        ]
    ]

  unfoldable pub ensure_filesystem : String → String → Io (Unit {0})
  ensure_filesystem device_path fs_type = do
    exit_fs_type ← prefixed H "check fs type err: " (check_fs_type H device_path)
    if str_eq exit_fs_type ""
        then prefixed H "format fstype failed: err=" (format_device H device_path fs_type)
        else pure tt

  abbrev pub mount_options : PublishRequest → List String
  mount_options req = (if req.readonly then "ro" else "rw") ∷ req.mount_flags

  unfoldable pub ensure_mount : PublishRequest → String → String → Bool → Io (Unit {0})
  ensure_mount req device_path fs_type mounted =
      if mounted
      then pure tt
      else internal H (mount H device_path req.target_path fs_type (mount_options req))

  -- What follows the guard on the target path.
  unfoldable pub publish : PublishRequest → Io (Unit {0})
  publish req = do
    let device_path = publish_device_path req.volume_id
    let fs_type = context_value default_fs fs_type_tag req.volume_context
    new ← ensure_volume req device_path
    mounted ← ensure_target req.target_path
    ensure_filesystem device_path fs_type
    ensure_mount req device_path fs_type mounted
    if new then pure tt else internal H (resize_volume req.volume_id vg_name req.target_path)
    internal H (update_pv_publish_success_tag req.volume_id)

  unfoldable pub node_publish_volume : PublishRequest → Io (Unit {0})
  node_publish_volume req =
      if str_eq req.target_path "" then fail_internal "targetPath is empty" else publish req

  -- The mount test failed with `e`.
  abbrev pub missing_target : Error → Reply Bool → Io (Unit {0})
  missing_target e found = elim found [
    | refused (missing_file _) ↦ throw (status not_found_code "TargetPath not found")
    | _ ↦ fail_internal (error_text H e)
  ]

  abbrev pub unpublish : String → Reply Bool → Io (Unit {0})
  unpublish target_path mounted = elim mounted [
    | refused e ↦ do found ← stat H target_path; missing_target e found
    | got false ↦ pure tt
    | got true ↦ internal H (unmount H target_path)
  ]

  unfoldable pub node_unpublish_volume : String → Io (Unit {0})
  node_unpublish_volume target_path = do
    mounted ← attempt (is_mounted H target_path)
    unpublish target_path mounted

-- NodeStageVolume, NodeUnstageVolume and NodeExpandVolume do nothing.
pub node_stage_volume : Io (Unit {0})
node_stage_volume = pure tt

pub node_unstage_volume : Io (Unit {0})
node_unstage_volume = pure tt

pub node_expand_volume : Io (Unit {0})
node_expand_volume = pure tt

pub data NodeCapability : Type 0 where
  stage_unstage_volume expand_volume : NodeCapability

pub node_get_capabilities : List NodeCapability
node_get_capabilities = stage_unstage_volume ∷ expand_volume ∷ []

-- csi.NodeGetInfoResponse: the node, and the segments of its topology.
pub record NodeInfo : Type 0 where
  pub node_id : String
  pub segments : Dict String

unfoldable pub node_get_info : String → NodeInfo
node_get_info node_id = record { node_id = node_id; segments = (topology_node_key, node_id) ∷ [] }
