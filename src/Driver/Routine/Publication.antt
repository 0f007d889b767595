-- ===== src/Driver/Routine/Publication.antt =====
-- NodePublishVolume and NodeUnpublishVolume of pkg/driver/nodeserver.go, step by step.
use kubernetes_local_volume.Base.{String, str_eq, Bool, true, false, ◌∷◌, ◌≡◌, refl}
use kubernetes_local_volume.Fault.{
  panic, Reply, got, refused, missing_file, plain, status, missing_object, missing_executable,
  not_a_number,
}
use kubernetes_local_volume.Host.{
  Host, Io, History, Event, stat, mkdir_all, pure, lift, ◌>>=◌, ◌>>◌, internal, error_text,
}
use kubernetes_local_volume.Host.Laws.{
  Keeps, bind, next, pure-Keeps, throw-Keeps, lift-Keeps, attempt-Keeps, internal-Keeps, if-Keeps,
}
use kubernetes_local_volume.Lvm.{create_vg}
use kubernetes_local_volume.Driver.Node.{
  PublishRequest, create_volume, fail_internal, ensure_volume, ensure_target, ensure_filesystem,
  ensure_mount, publish, node_publish_volume, context_value, lvm_type_tag, linear_type,
}
use kubernetes_local_volume.Driver.Routine.{
  routine, create_volume-Keeps, resize_volume-Keeps, update_pv_publish_success_tag-Keeps,
  is_mounted-Keeps, mount-Keeps,
}
use kubernetes_local_volume.Types.{vg_name}

module _ (H : Host) (P : History → Type 0)
    (step : (e : Event) → routine e ≡ true → (h : History) → P h → P (e ∷ h)) where
  stat-Keeps : (path : String) → Keeps P (stat H path)
  stat-Keeps path = record { keeps = λ h p. step _ refl h p }

  ensure_target-Keeps : (target : String) → Keeps P (ensure_target H target)
  unfolding ensure_target
  ensure_target-Keeps target = bind (attempt-Keeps (is_mounted-Keeps H P step target)) go
    where
      make : Io Bool
      make = internal H (mkdir_all H target) >> pure false

      answer : Reply Bool → Io Bool
      answer found = elim found [
        | refused (missing_file _) ↦ make
        | refused e ↦ fail_internal (error_text H e)
        | got _ ↦ lift panic
      ]

      made : Keeps P make
      made = next (record { keeps = λ h p. step _ refl h p }) pure-Keeps

      stated_as : (found : Reply Bool) → Keeps P (answer found)
      stated_as (got b) = lift-Keeps
      stated_as (refused (missing_file x)) = made
      stated_as (refused (plain x)) = throw-Keeps
      stated_as (refused (status c x)) = throw-Keeps
      stated_as (refused (missing_object x)) = throw-Keeps
      stated_as (refused (missing_executable x)) = throw-Keeps
      stated_as (refused (not_a_number x)) = throw-Keeps

      go :
          (mounted : Reply Bool)
          → Keeps P (elim mounted [ got b ↦ pure b | refused _ ↦ stat H target >>= answer ])
      go (got b) = pure-Keeps
      go (refused e) = bind (stat-Keeps target) stated_as

  ensure_mount-Keeps :
      (req : PublishRequest) (device fs_type : String) (mounted : Bool)
      → Keeps P (ensure_mount H req device fs_type mounted)
  unfolding ensure_mount
  ensure_mount-Keeps req device fs_type mounted =
      if-Keeps mounted pure-Keeps (internal-Keeps H (mount-Keeps H P step _ _ _ _))

  -- `made` and `formatted` are the two parts with events that are not routine.
  module _ (made : (vg : String) → Keeps P (create_vg H vg))
      (formatted : (device fs_type : String) → Keeps P (ensure_filesystem H device fs_type)) where
    ensure_volume-Keeps :
        (req : PublishRequest) (device : String) → Keeps P (ensure_volume H req device)
    unfolding ensure_volume
    ensure_volume-Keeps req device = bind (stat-Keeps device) go
      where
        make : Io Bool
        make =
            internal H (
              create_volume H req.volume_id vg_name
                (context_value linear_type lvm_type_tag req.volume_context))
            >> pure true

        made_volume : Keeps P make
        made_volume = next (internal-Keeps H (create_volume-Keeps H P step made _ _ _)) pure-Keeps

        go :
            (found : Reply Bool)
            → Keeps P (elim found [ refused (missing_file _) ↦ make | _ ↦ pure false ])
        go (got b) = pure-Keeps
        go (refused (missing_file x)) = made_volume
        go (refused (plain x)) = pure-Keeps
        go (refused (status c x)) = pure-Keeps
        go (refused (missing_object x)) = pure-Keeps
        go (refused (missing_executable x)) = pure-Keeps
        go (refused (not_a_number x)) = pure-Keeps

    publish-Keeps : (req : PublishRequest) → Keeps P (publish H req)
    unfolding publish
    publish-Keeps req = bind (ensure_volume-Keeps req _) λ new.
        bind (ensure_target-Keeps req.target_path) λ mounted. next (formatted _ _) (
          next (ensure_mount-Keeps req _ _ mounted) (
            next (if-Keeps new pure-Keeps (internal-Keeps H (resize_volume-Keeps H P step _ _ _)))
              (internal-Keeps H (update_pv_publish_success_tag-Keeps H P step _))))

    pub node_publish_volume-Keeps : (req : PublishRequest) → Keeps P (node_publish_volume H req)
    unfolding node_publish_volume
    node_publish_volume-Keeps req =
        if-Keeps (str_eq req.target_path "") throw-Keeps (publish-Keeps req)
