-- ===== src/Client/Scheduling.antt =====
-- NewLocalVolumeScheduler (pkg/scheduler/scheduler.go), and Lister of an informer of local volumes
-- (pkg/client/informers/externalversions/storage/v1alpha1/localvolume.go).
use kubernetes_local_volume.Base.{◌≡◌, refl, true, some, List, ◌∷◌, [], map, In, here, there}
use kubernetes_local_volume.Fault.{Outcome, ok}
use kubernetes_local_volume.Fault.Pure.{◌>>=◌}
use kubernetes_local_volume.Injection.{setup_informers, empty_registry}
use kubernetes_local_volume.Injection.Stages.{register_all}
use kubernetes_local_volume.Store.{Region}
use kubernetes_local_volume.Client.Factory.{SharedInformerFactory}
use kubernetes_local_volume.Client.Packages.{
  Kind, pods, persistent_volume_claims, storage_classes, Context, Injected, Makers, Package,
  local_client_package, kube_client_package, local_volume_package, kube_informer_package, init,
  LocalVolumeInformer, local_volume_informer, get_local_client, get_kube_client, get_local_volume,
  get_kube_informer,
}
use kubernetes_local_volume.Client.Packages.Setup.{
  is_present, needed, Blank, Fed, informer_at, some_of,
}
use kubernetes_local_volume.Client.Packages.Setup.Ready.{setup_ready}

-- localVolumeLister
pub record LocalVolumeLister (X : Type 0) : Type 0 where
  pub indexer : X

-- The packages that pkg/scheduler/scheduler.go imports.
abbrev pub scheduler_imports : List Package
scheduler_imports =
    local_client_package
    ∷ local_volume_package
    ∷ kube_client_package
    ∷ map kube_informer_package (persistent_volume_claims ∷ pods ∷ storage_classes ∷ [])

-- GetIndexer of a shared informer, and Lister of an informer of Kubernetes' kinds.
pub record Listing (KF I X KL : Type 0) : Type 0 where
  pub get_indexer : I → X
  pub kube_lister : KF → Kind → KL

pub record LocalVolumeScheduler (LC KC KL X C : Type 0) : Type 0 where
  pub pod_lister : KL
  pub pvc_lister : KL
  pub storage_class_lister : KL
  pub local_volume_lister : LocalVolumeLister X
  pub local_volume_client : LC
  pub kube_client : KC
  pub ctx : C

module _ {Config LC KC KF I T X KL : Type 0} (M : Makers Config LC KC KF I T)
    (L : Listing KF I X KL) where
  abbrev Scheduling : Type 0
  Scheduling = LocalVolumeScheduler LC KC KL X (Context LC KC KF T)

  -- Lister of a localVolumeInformer
  unfoldable pub local_volume_lister :
      LocalVolumeInformer T
      → Region (SharedInformerFactory LC I T)
      → Region (SharedInformerFactory LC I T) × LocalVolumeLister X
  unfolding local_volume_informer
  local_volume_lister inf fs =
      let (fs', i) = local_volume_informer M inf fs in (fs', record { indexer = L.get_indexer i })

  -- The literal of the scheduler, and the factories after its lister is made.
  unfoldable pub scheduler_of :
      (pod_informer pvc_informer sc_informer : KF)
      → LocalVolumeInformer T
      → LC
      → KC
      → Injected LC KC KF I T
      → Scheduling × Injected LC KC KF I T
  unfolding local_volume_lister
  scheduler_of pod_informer pvc_informer sc_informer lv_informer lv_client kube_client s =
      let (factories, lister) = local_volume_lister lv_informer s.factories in
      (
        record {
          pod_lister = L.kube_lister pod_informer pods;
          pvc_lister = L.kube_lister pvc_informer persistent_volume_claims;
          storage_class_lister = L.kube_lister sc_informer storage_classes;
          local_volume_lister = lister;
          local_volume_client = lv_client;
          kube_client = kube_client;
          ctx = s.context;
        },
        record s { factories = factories },
      )

  unfoldable pub new_local_volume_scheduler :
      Injected LC KC KF I T → Outcome (Scheduling × Injected LC KC KF I T)
  unfolding scheduler_of
  new_local_volume_scheduler s = do
    pod_informer ← get_kube_informer pods s
    pvc_informer ← get_kube_informer persistent_volume_claims s
    sc_informer ← get_kube_informer storage_classes s
    lv_informer ← get_local_volume s
    lv_client ← get_local_client s
    kube_client ← get_kube_client s
    ok (scheduler_of pod_informer pvc_informer sc_informer lv_informer lv_client kube_client s)

  -- The lister of a kind reads the informer of that kind that is in the list.
  abbrev pub Serves : List I → Kind → KL → Type 0
  Serves infs kind lister =
      (f : KF) × (lister ≡ L.kube_lister f kind) × In (M.kube_informer f kind) infs

  -- The listers of a scheduler read informers of the list.
  pub record IsServed (infs : List I) (sched : Scheduling) : Type 0 where
    pub serves_pods : Serves infs pods sched.pod_lister
    pub serves_pvcs : Serves infs persistent_volume_claims sched.pvc_lister
    pub serves_storage_classes : Serves infs storage_classes sched.storage_class_lister
    pub serves_local_volumes :
        (i : I) × (sched.local_volume_lister.indexer ≡ L.get_indexer i) × In i infs

  kube_Serves :
      (s : Injected LC KC KF I T) (infs : List I) (kind : Kind) (f : KF)
      → s.context.kube_informers kind ≡ some f
      → Fed M s infs
      → Serves infs kind (L.kube_lister f kind)
  kube_Serves s infs kind f e fed =
      (f, refl, fed (kube_informer_package kind) _ (rw (e, informer_at) refl))

  new_scheduler-IsServed :
      (s : Injected LC KC KF I T) (infs : List I)
      → ((p : Package) → In p scheduler_imports → is_present p s ≡ true)
      → Fed M s infs
      → (sched : Scheduling) × (s' : Injected LC KC KF I T) × (new_local_volume_scheduler s
          ≡ ok (sched, s'))
        × IsServed infs sched
  unfolding new_local_volume_scheduler
  new_scheduler-IsServed s infs present fed =
      let (lc, at_lc) = some_of s.context.local_client (present local_client_package (here refl)) in
      let (kc, at_kc) =
        some_of s.context.kube_client (present kube_client_package (there (there (here refl)))) in
      let (lv, at_lv) =
        some_of s.context.local_volume (present local_volume_package (there (here refl))) in
      let (pod, at_pod) =
        some_of (s.context.kube_informers pods)
          (present (kube_informer_package pods) (there (there (there (there (here refl)))))) in
      let (pvc, at_pvc) = some_of (s.context.kube_informers persistent_volume_claims) (
        present (kube_informer_package persistent_volume_claims)
          (there (there (there (here refl))))) in
      let (sc, at_sc) = some_of (s.context.kube_informers storage_classes) (
        present (kube_informer_package storage_classes)
          (there (there (there (there (there (here refl))))))) in
      let (sched, s') = scheduler_of pod pvc sc lv lc kc s in
      (
        sched,
        s',
        rw (at_pod, at_pvc, at_sc, at_lv, at_lc, at_kc) refl,
        record {
          serves_pods = kube_Serves s infs pods pod at_pod fed;
          serves_pvcs = kube_Serves s infs persistent_volume_claims pvc at_pvc fed;
          serves_storage_classes = kube_Serves s infs storage_classes sc at_sc fed;
          serves_local_volumes = (
            (local_volume_informer M lv s.factories).1,
            refl,
            fed local_volume_package _ (rw (at_lv, informer_at) refl),
          );
        },
      )

  -- SetupInformers with packages whose imports are among them, those of the scheduler being some of
  -- them, in a context without informers, where the makers of both clients do not panic: it does not
  -- panic, NewLocalVolumeScheduler does not panic on the context that it makes, and each lister of the
  -- scheduler reads an informer that SetupInformers returned.
  pub setup_informers_serves :
      (ps : List Package)
      → ((p q : Package) → In p ps → needed p ≡ some q → In q ps)
      → ((p : Package) → In p scheduler_imports → In p ps)
      → (cfg : Config) (lc : LC) (kc : KC) → M.local_for_config_or_die cfg ≡ ok lc
      → M.kube_for_config_or_die cfg ≡ ok kc
      → (s : Injected LC KC KF I T) → Blank s
      → (s' s'' : Injected LC KC KF I T) × (infs : List I) × (sched : Scheduling) × (setup_informers
            (register_all (map (init M) ps) empty_registry)
            (ok s)
            cfg
          ≡ (ok s', map ok infs))
        × (new_local_volume_scheduler s' ≡ ok (sched, s''))
        × IsServed infs sched
  setup_informers_serves ps closed imports cfg lc kc local_made kube_made s empty =
      let (s', infs, set, present, fed) =
        setup_ready M ps closed cfg lc kc local_made kube_made s empty in
      let (sched, s'', made, served) =
        new_scheduler-IsServed s' infs (λ p i. present p (imports p i)) fed in
      (s', s'', infs, sched, set, made, served)
