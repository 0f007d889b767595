-- ===== src/Driver/Routine.antt =====
-- The parts of the node server, of the mounter and of the LVM package, against properties of the
-- history that a routine event keeps. What is not routine stands as a parameter where it is called.
pub mod Publication
use kubernetes_local_volume.Base.{
  trim_space, ℕ, String, ◌<>◌, str_eq, ◌≡◌, refl, Bool, true, false, not, List, [], ◌∷◌,
}
use kubernetes_local_volume.Base.Int.{ℤ, pos, leb_ℤ}
use kubernetes_local_volume.Types.{device_chars}
use kubernetes_local_volume.Fault.{outcome_of}
use kubernetes_local_volume.Host.{
  stated, got_pv, resized_fs, patched_pv, made_dirs, updated_pv, bound_pod, Host, History, Event,
  ran, executed, run, is_file_existing,
}
use kubernetes_local_volume.Host.Laws.{
  Keeps, bind, next, pure-Keeps, throw-Keeps, lift-Keeps, attempt-Keeps, internal-Keeps, if-Keeps,
}
use kubernetes_local_volume.Host.Commands.{Command, pvcreate, lvremove}
use kubernetes_local_volume.Lvm.{
  device_path_prefix, is_mounted as device_is_mounted, unused, is_available, device_loop,
  get_device_list, count_pvs, make_vg, create_vg,
}
use kubernetes_local_volume.Mounter.{is_mounted, mount, run_mount}
use kubernetes_local_volume.Driver.Node.{
  striping_type, linear_type, create_volume, lvcreate, grow, resize_volume, publish_tagged,
  get_pv_size, update_pv_publish_success_tag, has_publish_tag, get_pv, patch_pv,
}

-- What neither destroys data nor hands a volume to a pod or back to the cluster.
abbrev pub routine_command : Command → Bool
routine_command (pvcreate _) = false
routine_command (lvremove _) = false
routine_command _ = true

abbrev pub routine : Event → Bool
routine (ran c) = routine_command c
routine (executed name _) = not (str_eq name "mkfs")
routine (updated_pv _) = false
routine (bound_pod _ _) = false
routine _ = true

module _ (H : Host) (P : History → Type 0)
    (step : (e : Event) → routine e ≡ true → (h : History) → P h → P (e ∷ h)) where
  pub run-Keeps : (c : Command) → routine_command c ≡ true → Keeps P (run H c)
  unfolding run
  run-Keeps c r = record { keeps = λ h p. step (ran c) r h p }

  device_is_mounted-Keeps : (device : String) → Keeps P (device_is_mounted H device)
  unfolding device_is_mounted
  device_is_mounted-Keeps device = bind (attempt-Keeps (run-Keeps _ refl)) λ _. pure-Keeps

  unused-Keeps : (device : String) → Keeps P (unused H device)
  unfolding unused
  unused-Keeps device = bind (attempt-Keeps (run-Keeps _ refl)) λ _. pure-Keeps

  is_file_existing-Keeps : (device : String) → Keeps P (is_file_existing H device)
  unfolding is_file_existing
  is_file_existing-Keeps device = record { keeps = λ h p. step (stated device) refl h p }

  is_available-Keeps : (device : String) → Keeps P (is_available H device)
  unfolding is_available
  is_available-Keeps device = bind (is_file_existing-Keeps device) λ exists.
      if-Keeps exists
        (bind (device_is_mounted-Keeps device) λ m. if-Keeps m pure-Keeps (unused-Keeps device))
        pure-Keeps

  device_loop-Keeps : (chars result : List String) → Keeps P (device_loop H result chars)
  unfolding device_loop
  device_loop-Keeps [] result = pure-Keeps
  device_loop-Keeps (c ∷ cs) result =
      bind (is_available-Keeps (device_path_prefix <> c)) λ a. device_loop-Keeps cs _

  get_device_list-Keeps : Keeps P (get_device_list H)
  unfolding get_device_list
  get_device_list-Keeps = device_loop-Keeps device_chars []

  count_pvs-Keeps : (vg : String) → Keeps P (count_pvs H vg)
  unfolding count_pvs
  count_pvs-Keeps vg = bind (run-Keeps _ refl) λ _. lift-Keeps

  -- `claim` is the one event that is not routine.
  pub create_vg-Keeps :
      ((devices : List String) (h : History) → P h → P (ran (pvcreate devices) ∷ h))
      → (vg : String) → Keeps P (create_vg H vg)
  unfolding create_vg make_vg run
  create_vg-Keeps claim vg = bind (run-Keeps _ refl) λ line.
      if-Keeps (str_eq (trim_space line) "1") (count_pvs-Keeps vg) (
        bind get_device_list-Keeps
          λ devices. next (record { keeps = claim devices }) (next (run-Keeps _ refl) pure-Keeps))

  get_pv-Keeps : (id : String) → Keeps P (get_pv H id)
  unfolding get_pv
  get_pv-Keeps id = record { keeps = λ h p. step (got_pv id) refl h p }

  get_pv_size-Keeps : (id : String) → Keeps P (get_pv_size H id)
  unfolding get_pv_size
  get_pv_size-Keeps id = bind (attempt-Keeps (get_pv-Keeps id)) λ _. pure-Keeps

  lvcreate-Keeps :
      (lvm_type : String) (number : ℤ) (id : String) (size : ℕ × String) (vg : String)
      → Keeps P (lvcreate H lvm_type number id size vg)
  unfolding lvcreate
  lvcreate-Keeps lvm_type number id size vg =
      if-Keeps (str_eq lvm_type striping_type) (next (run-Keeps _ refl) pure-Keeps)
        (if-Keeps (str_eq lvm_type linear_type) (next (run-Keeps _ refl) pure-Keeps) pure-Keeps)

  pub create_volume-Keeps :
      ((vg : String) → Keeps P (create_vg H vg))
      → (id vg lvm_type : String) → Keeps P (create_volume H id vg lvm_type)
  unfolding create_volume
  create_volume-Keeps made id vg lvm_type = bind (get_pv_size-Keeps id) λ size.
      bind (made vg) λ number. next (run-Keeps _ refl) (lvcreate-Keeps lvm_type number id size vg)

  grow-Keeps : (size : ℕ × String) (device target : String) → Keeps P (grow H size device target)
  unfolding grow
  grow-Keeps size device target = next (run-Keeps _ refl) (
      bind (record { keeps = λ h p. step (resized_fs device target) refl h p })
        λ grown. if-Keeps grown pure-Keeps throw-Keeps)

  pub resize_volume-Keeps : (id vg target : String) → Keeps P (resize_volume H id vg target)
  unfolding resize_volume
  resize_volume-Keeps id vg target = bind (get_pv_size-Keeps id) λ size.
      bind (run-Keeps _ refl) λ text. if-Keeps (str_eq text "") throw-Keeps (
        bind lift-Keeps
          λ number. if-Keeps (leb_ℤ (pos size.0) number) pure-Keeps (grow-Keeps size _ target))

  patch_pv-Keeps : (name patch : String) → Keeps P (patch_pv H name patch)
  unfolding patch_pv
  patch_pv-Keeps name patch = record { keeps = λ h p. step (patched_pv name patch) refl h p }

  pub update_pv_publish_success_tag-Keeps :
      (id : String) → Keeps P (update_pv_publish_success_tag H id)
  unfolding update_pv_publish_success_tag
  update_pv_publish_success_tag-Keeps id = bind (internal-Keeps H (get_pv-Keeps id)) λ pv.
      if-Keeps (has_publish_tag pv) pure-Keeps (
        bind (internal-Keeps H (lift-Keeps {o = outcome_of (H.marshal_pv pv)})) λ old.
          bind (internal-Keeps H (lift-Keeps {o = outcome_of (H.marshal_pv (publish_tagged pv))}))
            λ new.
              bind (internal-Keeps H (lift-Keeps {o = outcome_of (H.merge_patch old new)}))
                λ patch. internal-Keeps H (patch_pv-Keeps id patch))

  pub is_mounted-Keeps : (target : String) → Keeps P (is_mounted H target)
  unfolding is_mounted
  is_mounted-Keeps target =
      if-Keeps (str_eq target "") throw-Keeps
        (record { keeps = λ h p. step (executed "grep" (target ∷ "/proc/mounts" ∷ [])) refl h p })

  run_mount-Keeps : (args : List String) → Keeps P (run_mount H args)
  unfolding run_mount
  run_mount-Keeps args = record { keeps = λ h p. step (executed "mount" args) refl h p }

  pub mount-Keeps :
      (source target fs_type : String) (opts : List String)
      → Keeps P (mount H source target fs_type opts)
  unfolding mount
  mount-Keeps source target fs_type opts = if-Keeps (str_eq fs_type "") throw-Keeps (
      if-Keeps (str_eq source "") throw-Keeps (
        if-Keeps (str_eq target "") throw-Keeps
          (next (record { keeps = λ h p. step (made_dirs target) refl h p }) (run_mount-Keeps _))))
