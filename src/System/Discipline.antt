-- ===== src/System/Discipline.antt =====
-- What the programs of pkg/driver, pkg/agent and pkg/scheduler do that cannot be taken back, by its
-- place in the history.
use kubernetes_local_volume.Base.{
  String, true, [], ◌∷◌, ◌≡◌, refl, none, Bool-cases, Option-cases, inl, inr,
}
use kubernetes_local_volume.Fault.{ok, outcome_of}
use kubernetes_local_volume.Host.{
  Host, History, Event, ran, updated_pv, bound_pod, updated_lv_status, lift, or_throw,
}
use kubernetes_local_volume.Host.Commands.{pvcreate, lvremove, render}
use kubernetes_local_volume.Host.Laws.{
  Keeps, Ends, bind, bind-Ends, then-Ends, lift-Keeps, attempt-Keeps, pure-Keeps,
}
use kubernetes_local_volume.Types.Objects.{Pv, LocalVolume}
use kubernetes_local_volume.Lvm.Claiming.{CreatesUnused, create_vg-CreatesUnused}
use kubernetes_local_volume.Agent.Gc.{gc_reconciler}
use kubernetes_local_volume.Agent.Collection.{
  is_gone_from, IsGarbage, untagged, collected, gc_reconciler-collected,
}
use kubernetes_local_volume.Driver.Node.{publish_device_path}
use kubernetes_local_volume.Driver.Routine.{routine, create_vg-Keeps}
use kubernetes_local_volume.Driver.Formatting.{
  FormatsBlank, allowed_routine, ensure_filesystem-Keeps,
}
use kubernetes_local_volume.Driver.Formatting.Publication.{create_vg-FormatsBlank}
use kubernetes_local_volume.Scheduler.{Cache, namespace_default, get_pod_local_volume_pvc_names}
use kubernetes_local_volume.Scheduler.Binding.{
  BindingArgs, preallocate, bind as bind_node, bind_handler,
}
use kubernetes_local_volume.System.{Reach}
use kubernetes_local_volume.System.Programs.{
  ensure_filesystem-Keeps as other_filesystem, gc_reconciler-Keeps, bind_handler-Keeps,
}
use kubernetes_local_volume.System.Rules.{Rule, reach_ind}

module _ (H : Host) (Known : Pv → Type 0) where
  formats : Rule H Known (FormatsBlank H)
  formats = record {
    empty = tt;
    event = allowed_routine H;
    group = create_vg-FormatsBlank H;
    filesystem = ensure_filesystem-Keeps H;
    collection = λ pv known.
        gc_reconciler-Keeps H (FormatsBlank H) (allowed_routine H) (λ d h g. (tt, g))
          (λ done h g. (tt, g)) pv;
    binding = bind_handler-Keeps H (FormatsBlank H) (allowed_routine H) (λ pod node h g. (tt, g));
  }

  creates_routine :
      (e : Event) → routine e ≡ true → (h : History) → CreatesUnused H h → CreatesUnused H (e ∷ h)
  creates_routine (ran (pvcreate devices)) r h g = cc
  creates_routine _ r h g = (tt, g)

  creates : Rule H Known (CreatesUnused H)
  creates = record {
    empty = tt;
    event = creates_routine;
    group = λ vg. record { keeps = create_vg-CreatesUnused H vg };
    filesystem =
        other_filesystem H (CreatesUnused H) creates_routine (λ device fs_type h g. (tt, g));
    collection = λ pv known.
        gc_reconciler-Keeps H (CreatesUnused H) creates_routine (λ d h g. (tt, g))
          (λ done h g. (tt, g)) pv;
    binding = bind_handler-Keeps H (CreatesUnused H) creates_routine (λ pod node h g. (tt, g));
  }

  -- The device is that of a volume that the lister knows and that is garbage.
  abbrev pub OfGarbage : String → Type 0
  OfGarbage device = (pv : Pv) × Known pv × IsGarbage pv × (device ≡ publish_device_path pv.name)

  -- The last call removed the logical volume of known garbage, or found none, and `done` is that volume
  -- without the collector's finalizer.
  abbrev pub Emptied : Pv → History → Type 0
  Emptied done h =
      (pv : Pv) × (before : History) × Known pv
      × IsGarbage pv
      × (done ≡ untagged pv)
      × (let device = publish_device_path pv.name in
          (h ≡ ran (lvremove device) ∷ before)
          × (is_gone_from H device (H.shell before (render (lvremove device))) ≡ true))

  abbrev pub Collected : Event → History → Type 0
  Collected (ran (lvremove device)) h = OfGarbage device
  Collected (updated_pv done) h = Emptied done h
  Collected _ h = Unit {0}

  -- Logical volumes are removed of garbage alone, and a volume is updated only directly behind the
  -- removal.
  abbrev pub CollectsGarbage : History → Type 0
  CollectsGarbage [] = Unit {0}
  CollectsGarbage (e ∷ h) = Collected e h × CollectsGarbage h

  collects_routine :
      (e : Event) → routine e ≡ true → (h : History) → CollectsGarbage h → CollectsGarbage (e ∷ h)
  collects_routine (ran (lvremove device)) r h g = cc
  collects_routine (updated_pv done) r h g = cc
  collects_routine _ r h g = (tt, g)

  gc_reconciler-CollectsGarbage : (pv : Pv) → Known pv → Keeps CollectsGarbage (gc_reconciler H pv)
  gc_reconciler-CollectsGarbage pv known = record {
    keeps = λ h g. elim (gc_reconciler-collected H pv h) [
      | inl (other, e) ↦ rw e g
      | inr (garbage, e) ↦ rw e (removed h garbage g)
    ];
  }
    where
      removed :
          (h : History) → IsGarbage pv → CollectsGarbage h → CollectsGarbage (collected H pv h).1
      removed h garbage g =
          let device = publish_device_path pv.name in
          elim (Bool-cases (is_gone_from H device (H.shell h (render (lvremove device))))) [
            | inl gone ↦
                rw gone
                  ((pv, h, known, garbage, refl, (refl, gone)), ((pv, known, garbage, refl), g))
            | inr there ↦ rw there ((pv, known, garbage, refl), g)
          ]

  collects_garbage : Rule H Known CollectsGarbage
  collects_garbage = record {
    empty = tt;
    event = collects_routine;
    group = create_vg-Keeps H CollectsGarbage collects_routine (λ devices h g. (tt, g));
    filesystem =
        other_filesystem H CollectsGarbage collects_routine (λ device fs_type h g. (tt, g));
    collection = gc_reconciler-CollectsGarbage;
    binding = bind_handler-Keeps H CollectsGarbage collects_routine (λ pod node h g. (tt, g));
  }

  -- The last call sent a status, and the API server took it.
  abbrev pub Reserved : History → Type 0
  Reserved h =
      (lv : LocalVolume) × (before : History) × (h ≡ updated_lv_status lv ∷ before)
      × (H.update_lv_status before lv ≡ none)

  abbrev pub Bound : Event → History → Type 0
  Bound (bound_pod pod node) h = Reserved h
  Bound _ h = Unit {0}

  -- Each pod is bound directly behind a status that the API server took.
  abbrev pub BindsReserved : History → Type 0
  BindsReserved [] = Unit {0}
  BindsReserved (e ∷ h) = Bound e h × BindsReserved h

  binds_routine :
      (e : Event) → routine e ≡ true → (h : History) → BindsReserved h → BindsReserved (e ∷ h)
  binds_routine (bound_pod pod node) r h g = cc
  binds_routine _ r h g = (tt, g)

  reserve-Ends :
      (C : Cache) (args : BindingArgs) → Ends BindsReserved (λ _ h. Reserved h) (bind_node H C args)
  unfolding bind_node
  reserve-Ends C args =
      then-Ends (lift (outcome_of (C.get_pod args.pod_namespace args.pod_name))) lift-Keeps λ pod.
        then-Ends (lift (get_pod_local_volume_pvc_names C pod)) lift-Keeps λ names.
          then-Ends (lift (outcome_of (C.get_local_volume namespace_default args.node))) lift-Keeps
            λ lv. record { ends = λ h g. ((tt, g), λ a. sent (preallocate names lv) h a) }
    where
      sent :
          (lv : LocalVolume) (h : History) (a : Unit {0})
          → or_throw (H.update_lv_status h lv) ≡ ok a
          → Reserved (updated_lv_status lv ∷ h)
      sent lv h a = elim (Option-cases (H.update_lv_status h lv)) [
        | inl taken ↦ λ e. (lv, h, refl, taken)
        | inr (x, refusal) ↦ rw refusal (λ e. cc)
      ]

  bind_handler-BindsReserved :
      (C : Cache) (args : BindingArgs) → Keeps BindsReserved (bind_handler H C args)
  unfolding bind_handler
  bind_handler-BindsReserved C args =
      bind (attempt-Keeps (bind-Ends _ (reserve-Ends C args) λ a h g r. (r, g))) λ r. pure-Keeps

  reserves : Rule H Known BindsReserved
  reserves = record {
    empty = tt;
    event = binds_routine;
    group = create_vg-Keeps H BindsReserved binds_routine (λ devices h g. (tt, g));
    filesystem = other_filesystem H BindsReserved binds_routine (λ device fs_type h g. (tt, g));
    collection = λ pv known.
        gc_reconciler-Keeps H BindsReserved binds_routine (λ d h g. (tt, g)) (λ done h g. (tt, g))
          pv;
    binding = bind_handler-BindsReserved;
  }

  -- Whatever operations the driver, the agent (its creation of the volume group at the start included) and
  -- the bind handler run, in any order and with any requests, caches and listers: in the history that
  -- they leave, each run of mkfs is directly behind a look at the same device that found it blank; each
  -- run of pvcreate is on devices that were found not mounted before it and at which, directly behind
  -- that, `pvdisplay` failed; each run of lvremove is on the device of a volume that the lister answered
  -- with and that is released, has the policy to delete it and the collector's finalizer; each update of
  -- a volume is directly behind the removal of the logical volume of such a volume, and takes off the
  -- collector's finalizer alone; and each binding of a pod is directly behind a status that the API
  -- server took. (`Known` is any predicate that holds of what the lister answers with.)
  pub Reach-disciplined :
      (h : History)
      → Reach H Known h
      → FormatsBlank H h × CreatesUnused H h × CollectsGarbage h × BindsReserved h
  Reach-disciplined h r =
      (reach_ind formats r, reach_ind creates r, reach_ind collects_garbage r, reach_ind reserves r)
