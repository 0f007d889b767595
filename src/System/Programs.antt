-- ===== src/System/Programs.antt =====
-- The operations of the agent (pkg/agent), of the bind handler (pkg/scheduler/bind.go), and the
-- remaining ones of the driver (pkg/driver), against properties of the history that a routine event
-- keeps. What is not routine stands as a parameter where it is called.
use kubernetes_local_volume.Base.{
  split, Option, [], Bool, String, str_eq, not, true, false, Bool-cases, inl, inr, trim_space, none,
  some, List, ◌∷◌, ◌≡◌, refl,
}
use kubernetes_local_volume.Base.Dict.{keys}
use kubernetes_local_volume.Fault.{
  Error, Reply-cases, ok, Reply, got, refused, missing_file, plain, status, missing_object,
  missing_executable, not_a_number, outcome_of,
}
use kubernetes_local_volume.Host.{
  Host, History, exec, stat, Event, ran, executed, updated_pv, bound_pod, updated_lv_status, got_lv,
  created_lv, ran_apart, stated, continue,
}
use kubernetes_local_volume.Host.Commands.{lvremove}
use kubernetes_local_volume.Host.Laws.{
  Keeps, bind, next, pure-Keeps, listed-Keeps, listed_got-Keeps, throw-Keeps, lift-Keeps,
  attempt-Keeps, internal-Keeps, prefixed-Keeps, if-Keeps,
}
use kubernetes_local_volume.Lvm.{VgInfo, VgsOutput, get_vg_info}
use kubernetes_local_volume.Types.Objects.{Pv, LocalVolume, NamespacedName}
use kubernetes_local_volume.Mounter.{unmount}
use kubernetes_local_volume.Driver.Filesystem.{
  output_of, find_type, mkfs_args, format_device, read_blkid, check_fs_type,
}
use kubernetes_local_volume.Driver.Node.{
  missing_target, unpublish, ensure_filesystem, node_unpublish_volume,
}
use kubernetes_local_volume.Driver.Routine.{routine, is_mounted-Keeps}
use kubernetes_local_volume.Agent.Gc.{
  is_garbage, gc_device_path, gc_reconciler, gc_reconcile, without_gc_tag,
}
use kubernetes_local_volume.Agent.Collection.{gc_reconciler_cases, is_gone, removal}
use kubernetes_local_volume.Agent.Reconciler.{
  send_status, reconcile_with, registration, empty_local_volume, get_my_node_bounded_pvc_list,
  next_status, split_meta_namespace_key, reconciler, reconcile, register_node_local_volume_storage,
}
use kubernetes_local_volume.Scheduler.{Cache, namespace_default, get_pod_local_volume_pvc_names}
use kubernetes_local_volume.Scheduler.Binding.{BindingArgs, bind as bind_node, bind_handler}

module _ (H : Host) (P : History → Type 0)
    (step : (e : Event) → routine e ≡ true → (h : History) → P h → P (e ∷ h)) where
  exec-Keeps :
      (name : String) (args : List String)
      → not (str_eq name "mkfs") ≡ true
      → Keeps P (exec H name args)
  exec-Keeps name args r = record { keeps = λ h p. step (executed name args) r h p }

  read_blkid-Keeps : (device : String) → Keeps P (read_blkid H device)
  unfolding read_blkid
  read_blkid-Keeps device = bind (exec-Keeps _ _ refl) λ out.
      bind (lift-Keeps {o = output_of out}) λ text. lift-Keeps {o = find_type (split b'\n' text)}

  check_fs_type-Keeps : (device : String) → Keeps P (check_fs_type H device)
  unfolding check_fs_type
  check_fs_type-Keeps device = bind (exec-Keeps _ _ refl) λ out.
      bind (lift-Keeps {o = output_of out}) λ text.
        if-Keeps (str_eq (trim_space text) "data") (pure-Keeps {a = ""}) (read_blkid-Keeps device)

  module _
      (format : (device fs_type : String) (h : History)
        → P h
        → P (executed "mkfs" (mkfs_args fs_type device) ∷ h))
      (device fs_type : String) where
    format_device-Keeps : Keeps P (format_device H device fs_type)
    unfolding format_device
    format_device-Keeps = record { keeps = format device fs_type }

    pub ensure_filesystem-Keeps : Keeps P (ensure_filesystem H device fs_type)
    unfolding ensure_filesystem
    ensure_filesystem-Keeps =
        bind (prefixed-Keeps H "check fs type err: " (check_fs_type-Keeps device)) λ found.
          if-Keeps (str_eq found "")
            (prefixed-Keeps H "format fstype failed: err=" format_device-Keeps) pure-Keeps

  unmount-Keeps : (target : String) → Keeps P (unmount H target)
  unfolding unmount
  unmount-Keeps target =
      if-Keeps (str_eq target "") throw-Keeps
        (record { keeps = λ h p. step (executed "umount" (target ∷ [])) refl h p })

  missing_target-Keeps : (e : Error) (found : Reply Bool) → Keeps P (missing_target H e found)
  missing_target-Keeps e (got _) = throw-Keeps
  missing_target-Keeps e (refused (plain _)) = throw-Keeps
  missing_target-Keeps e (refused (status _ _)) = throw-Keeps
  missing_target-Keeps e (refused (missing_file _)) = throw-Keeps
  missing_target-Keeps e (refused (missing_object _)) = throw-Keeps
  missing_target-Keeps e (refused (missing_executable _)) = throw-Keeps
  missing_target-Keeps e (refused (not_a_number _)) = throw-Keeps

  unpublish-Keeps : (target : String) (mounted : Reply Bool) → Keeps P (unpublish H target mounted)
  unpublish-Keeps target (got false) = pure-Keeps
  unpublish-Keeps target (got true) = internal-Keeps H (unmount-Keeps target)
  unpublish-Keeps target (refused e) =
      bind {m = stat H target} (record { keeps = λ h p. step (stated target) refl h p })
        (missing_target-Keeps e)

  pub node_unpublish_volume-Keeps : (target : String) → Keeps P (node_unpublish_volume H target)
  unfolding node_unpublish_volume
  node_unpublish_volume-Keeps target =
      bind (attempt-Keeps (is_mounted-Keeps H P step target)) (unpublish-Keeps target)

  pub register-Keeps : (node_id : String) → Keeps P (register_node_local_volume_storage H node_id)
  unfolding register_node_local_volume_storage
  register-Keeps node_id = record {
    keeps = λ h p. registers _ _ (step (got_lv "default" node_id) refl h p);
  }
    where
      registers :
          (r : Reply LocalVolume) (h : History)
          → P h
          → P (continue (ok r) h (registration H node_id)).1
      registers (got _) h p = p
      registers (refused (missing_object _)) h p =
          step (created_lv (empty_local_volume node_id)) refl h p
      registers (refused (plain _)) h p = p
      registers (refused (status _ _)) h p = p
      registers (refused (missing_file _)) h p = p
      registers (refused (missing_executable _)) h p = p
      registers (refused (not_a_number _)) h p = p

  module _ (unmarshal : String → Reply VgsOutput) (node_id : String) where
    get_vg_info-Keeps : (vg : String) → Keeps P (get_vg_info H unmarshal vg)
    unfolding get_vg_info
    get_vg_info-Keeps vg =
        bind (attempt-Keeps (record { keeps = λ h p. step (ran_apart _) refl h p }))
          λ report. pure-Keeps

    reconcile_with-Keeps :
        (all_pv : Reply (List Pv)) (lv : LocalVolume) (vg_info : Option VgInfo)
        → Keeps P (reconcile_with H unmarshal node_id all_pv lv vg_info)
    unfolding send_status
    reconcile_with-Keeps all_pv lv none = pure-Keeps
    reconcile_with-Keeps all_pv lv (some info) =
        bind (lift-Keeps {o = get_my_node_bounded_pvc_list node_id all_pv}) λ pvcs.
          if-Keeps (next_status info (keys pvcs) lv.status).1
            (record { keeps = λ h p. step (updated_lv_status _) refl h p }) pure-Keeps

    reconciler-Keeps :
        (all_pv : Reply (List Pv)) (lv : LocalVolume)
        → Keeps P (reconciler H unmarshal node_id all_pv lv)
    unfolding reconciler
    reconciler-Keeps all_pv lv = bind (get_vg_info-Keeps _) (reconcile_with-Keeps all_pv lv)

    pub reconcile-Keeps :
        (get_local_volume : String → String → Reply LocalVolume) (all_pv : Reply (List Pv))
        (key : String)
        → Keeps P (reconcile H unmarshal node_id get_local_volume all_pv key)
    unfolding reconcile
    reconcile-Keeps get_local_volume all_pv key =
        elim (Reply-cases (split_meta_namespace_key key)) [
          | inr (e, bad) ↦ rw (bad, reconcile) pure-Keeps
          | inl ((namespace, name), good) ↦
              rw (good, reconcile)
                (if-Keeps (not (str_eq name node_id)) pure-Keeps
                  (listed-Keeps (get_local_volume namespace name) tt (reconciler-Keeps all_pv)))
        ]

  pub gc_reconciler-Keeps :
      ((device : String) (h : History) → P h → P (ran (lvremove device) ∷ h))
      → ((pv : Pv) (h : History) → P h → P (updated_pv pv ∷ h))
      → (pv : Pv) → Keeps P (gc_reconciler H pv)
  gc_reconciler-Keeps remove update pv = record {
    keeps = λ h p. rw (gc_reconciler_cases H pv h) (elim (Bool-cases (is_garbage pv)) [
      | inl garbage ↦ rw garbage (elim (Bool-cases (is_gone H pv (removal H pv h))) [
        | inl gone ↦ rw gone (update (without_gc_tag pv) _ (remove (gc_device_path pv) h p))
        | inr there ↦ rw there (remove (gc_device_path pv) h p)
      ])
      | inr other ↦ rw other p
    ]);
  }

  pub gc_reconcile-Keeps :
      (get_pv : String → Reply Pv)
      → ((name : String) (pv : Pv) → get_pv name ≡ got pv → Keeps P (gc_reconciler H pv))
      → (key : String) → Keeps P (gc_reconcile H get_pv key)
  unfolding gc_reconcile
  gc_reconcile-Keeps get_pv collect key = elim (Reply-cases (split_meta_namespace_key key)) [
    | inr (e, bad) ↦ rw (bad, gc_reconcile) pure-Keeps
    | inl ((namespace, name), good) ↦
        rw (good, gc_reconcile) (listed_got-Keeps (get_pv name) tt (collect name))
  ]

  bind_node-Keeps : (C : Cache) (args : BindingArgs) → Keeps P (bind_node H C args)
  unfolding bind_node
  bind_node-Keeps C args =
      bind (lift-Keeps {o = outcome_of (C.get_pod args.pod_namespace args.pod_name)}) λ pod.
        bind (lift-Keeps {o = get_pod_local_volume_pvc_names C pod}) λ names.
          bind (lift-Keeps {o = outcome_of (C.get_local_volume namespace_default args.node)})
            λ lv. record { keeps = λ h p. step (updated_lv_status _) refl h p }

  pub bind_handler-Keeps :
      ((pod : NamespacedName) (node : String) (h : History) → P h → P (bound_pod pod node ∷ h))
      → (C : Cache) (args : BindingArgs) → Keeps P (bind_handler H C args)
  unfolding bind_handler
  bind_handler-Keeps bound C args =
      bind (attempt-Keeps (next (bind_node-Keeps C args) (record { keeps = bound _ _ })))
        λ r. pure-Keeps
