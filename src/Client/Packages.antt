-- ===== src/Client/Packages.antt =====
-- The packages of pkg/client/injection and pkg/client/kube/injection: each registers an injector in its
-- init function, which puts a client, a factory or an informer into the context, and its Get takes it
-- out. A pointer to a factory of local volumes is the address of its cell.
pub mod Setup
use kubernetes_local_volume.Base.{
  ℕ, String, Bool, true, false, Option, none, some, List, [], ◌∷◌, if◌then◌else◌,
}
use kubernetes_local_volume.Fault.{Outcome, ok, panic, deref}
use kubernetes_local_volume.Fault.Pure.{◌>>=◌}
use kubernetes_local_volume.Controller.{get_resync_period}
use kubernetes_local_volume.Injection.{has_namespace_scope, get_namespace_scope}
use kubernetes_local_volume.Injection.Stages.{Registration, client, factory, informer}
use kubernetes_local_volume.Store.{Region, put, alloc}
use kubernetes_local_volume.Client.Factory.{
  SharedInformerFactory, SharedInformerOption, with_namespace,
  new_shared_informer_factory_with_options, informer_for,
}

-- The informers of Kubernetes' own kinds that the program imports.
pub data Kind : Type 0 where
  pods persistent_volume_claims persistent_volumes storage_classes : Kind

-- localVolumeInformer: the factory is a pointer.
pub record LocalVolumeInformer (T : Type 0) : Type 0 where
  pub factory : ℕ
  pub namespace : String
  pub tweak_list_options : Option T

-- What the context holds for the keys of the packages, and for the namespace and the resync period.
pub record Context (LC KC KF T : Type 0) : Type 0 where
  pub local_client : Option LC
  pub kube_client : Option KC
  pub local_factory : Option ℕ
  pub kube_factory : Option KF
  pub local_volume : Option (LocalVolumeInformer T)
  pub kube_informers : Kind → Option KF
  pub namespace_scope : Option String
  pub resync : Option ℕ

-- cache.ListWatch of NewFilteredLocalVolumeInformer, by what its functions refer to.
pub record ListWatch (LC T : Type 0) : Type 0 where
  pub client : LC
  pub namespace : String
  pub tweak_list_options : Option T

-- ListFunc and WatchFunc: `call` is List or Watch of a client's local volumes of a namespace.
unfoldable pub list_watch_func :
    {LC T Options R : Type 0}
    → (T → Options → Options)
    → (LC → String → Options → R)
    → ListWatch LC T
    → Options
    → R
list_watch_func tweak call lw options =
    call lw.client lw.namespace
      (elim lw.tweak_list_options [ none ↦ options | some t ↦ tweak t options ])

-- What the packages call: NewForConfigOrDie of the two client sets, the factory of Kubernetes' informers
-- and its informers, and cache.NewSharedIndexInformer. That of the local volumes' client set is
-- `new_for_config_or_die` of Client/Clientset.
pub record Makers (Config LC KC KF I T : Type 0) : Type 0 where
  pub local_for_config_or_die : Config → Outcome LC
  pub kube_for_config_or_die : Config → Outcome KC
  pub kube_factory_with_options : KC → ℕ → Option String → KF
  pub kube_informer : KF → Kind → I
  pub new_shared_index_informer : ListWatch LC T → ℕ → I

-- The type of the objects, as reflect.TypeOf names it.
abbrev pub local_volume_type : String
local_volume_type = "*v1alpha1.LocalVolume"

abbrev pub same_kind : Kind → Kind → Bool
same_kind pods pods = true
same_kind persistent_volume_claims persistent_volume_claims = true
same_kind persistent_volumes persistent_volumes = true
same_kind storage_classes storage_classes = true
same_kind _ _ = false

-- The context and the factories in memory.
pub record Injected (LC KC KF I T : Type 0) : Type 0 where
  pub context : Context LC KC KF T
  pub factories : Region (SharedInformerFactory LC I T)

module _ {LC KC KF I T : Type 0} where
  -- The Get functions, which panic where the context holds nothing.
  abbrev pub get_local_client : Injected LC KC KF I T → Outcome LC
  get_local_client s = deref s.context.local_client

  abbrev pub get_kube_client : Injected LC KC KF I T → Outcome KC
  get_kube_client s = deref s.context.kube_client

  abbrev pub get_local_factory : Injected LC KC KF I T → Outcome ℕ
  get_local_factory s = deref s.context.local_factory

  abbrev pub get_kube_factory : Injected LC KC KF I T → Outcome KF
  get_kube_factory s = deref s.context.kube_factory

  abbrev pub get_local_volume : Injected LC KC KF I T → Outcome (LocalVolumeInformer T)
  get_local_volume s = deref s.context.local_volume

  abbrev pub get_kube_informer : Kind → Injected LC KC KF I T → Outcome KF
  get_kube_informer kind s = deref (s.context.kube_informers kind)

-- The options of the factories: a namespace, if the context is scoped to one.
abbrev pub scope_of : Option String → Option String
scope_of value = if has_namespace_scope value then some (get_namespace_scope value) else none

abbrev pub scope_options : {C I T : Type 0} → Option String → List (SharedInformerOption C I T)
scope_options none = []
scope_options (some namespace) = with_namespace namespace ∷ []

-- `f.Local().V1alpha1().LocalVolumes()`
abbrev pub local_volumes :
    {C I T : Type 0} → ℕ → SharedInformerFactory C I T → LocalVolumeInformer T
local_volumes r f = record {
  factory = r;
  namespace = f.namespace;
  tweak_list_options = f.tweak_list_options;
}

module _ {Config LC KC KF I T : Type 0} (M : Makers Config LC KC KF I T) where
  abbrev pub new_filtered_local_volume_informer : LC → String → ℕ → Option T → I
  new_filtered_local_volume_informer c namespace resync tweak =
      M.new_shared_index_informer
        (record { client = c; namespace = namespace; tweak_list_options = tweak }) resync

  abbrev pub new_local_volume_informer : LC → String → ℕ → I
  new_local_volume_informer c namespace resync =
      new_filtered_local_volume_informer c namespace resync none

  -- defaultInformer of a localVolumeInformer
  abbrev pub default_informer : LocalVolumeInformer T → LC → ℕ → I
  default_informer inf c resync =
      new_filtered_local_volume_informer c inf.namespace resync inf.tweak_list_options

  -- Informer of a localVolumeInformer: the shared informer of its factory.
  unfoldable pub local_volume_informer :
      LocalVolumeInformer T
      → Region (SharedInformerFactory LC I T)
      → Region (SharedInformerFactory LC I T) × I
  unfolding informer_for put
  local_volume_informer inf fs =
      let (f, i) = informer_for local_volume_type (default_informer inf) (fs.cell inf.factory) in
      (put inf.factory f fs, i)

module _ {LC KC KF I T : Type 0} where
  -- `context.WithValue`, for the keys of the packages.
  abbrev pub set_local_client : LC → Injected LC KC KF I T → Injected LC KC KF I T
  set_local_client c s = record s { context = record (s.context) { local_client = some c } }

  abbrev pub set_kube_client : KC → Injected LC KC KF I T → Injected LC KC KF I T
  set_kube_client c s = record s { context = record (s.context) { kube_client = some c } }

  abbrev pub set_kube_factory : KF → Injected LC KC KF I T → Injected LC KC KF I T
  set_kube_factory f s = record s { context = record (s.context) { kube_factory = some f } }

  -- A new factory, in a cell of its own.
  unfoldable pub set_local_factory : LC → Injected LC KC KF I T → Injected LC KC KF I T
  unfolding new_shared_informer_factory_with_options alloc get_resync_period has_namespace_scope
  set_local_factory c s =
      let f =
        new_shared_informer_factory_with_options c (get_resync_period s.context.resync)
          (scope_options (scope_of s.context.namespace_scope)) in
      record {
        context = record (s.context) { local_factory = some s.factories.size };
        factories = alloc f s.factories;
      }

  abbrev pub set_local_volume :
      LocalVolumeInformer T
      → Region (SharedInformerFactory LC I T)
      → Injected LC KC KF I T
      → Injected LC KC KF I T
  set_local_volume inf fs s = record {
    context = record (s.context) { local_volume = some inf };
    factories = fs;
  }

  abbrev pub set_kube_informer : Kind → KF → Injected LC KC KF I T → Injected LC KC KF I T
  set_kube_informer kind f s = record s {
    context = record (s.context) {
      kube_informers = λ k. if same_kind kind k then some f else s.context.kube_informers k;
    };
  }

module _ {Config LC KC KF I T : Type 0} (M : Makers Config LC KC KF I T) where
  unfoldable pub with_local_client :
      Injected LC KC KF I T → Config → Outcome (Injected LC KC KF I T)
  with_local_client s cfg = do c ← M.local_for_config_or_die cfg; ok (set_local_client c s)

  unfoldable pub with_kube_client : Injected LC KC KF I T → Config → Outcome (Injected LC KC KF I T)
  with_kube_client s cfg = do c ← M.kube_for_config_or_die cfg; ok (set_kube_client c s)

  unfoldable pub with_local_factory : Injected LC KC KF I T → Outcome (Injected LC KC KF I T)
  unfolding set_local_factory
  with_local_factory s = do c ← get_local_client s; ok (set_local_factory c s)

  unfoldable pub with_kube_factory : Injected LC KC KF I T → Outcome (Injected LC KC KF I T)
  unfolding get_resync_period has_namespace_scope
  with_kube_factory s = do
    c ← get_kube_client s
    let f =
        M.kube_factory_with_options c (get_resync_period s.context.resync)
          (scope_of s.context.namespace_scope)
    ok (set_kube_factory f s)

  unfoldable pub with_local_volume : Injected LC KC KF I T → Outcome (Injected LC KC KF I T × I)
  unfolding local_volume_informer
  with_local_volume s = do
    r ← get_local_factory s
    let inf = local_volumes r (s.factories.cell r)
    let made = local_volume_informer M inf s.factories
    ok (set_local_volume inf made.0 s, made.1)

  -- withInformer of the package of a kind. The informer in the context is the factory with the kind.
  unfoldable pub with_kube_informer :
      Kind → Injected LC KC KF I T → Outcome (Injected LC KC KF I T × I)
  with_kube_informer kind s = do
    f ← get_kube_factory s
    ok (set_kube_informer kind f s, M.kube_informer f kind)

-- The packages that a process imports.
pub data Package : Type 0 where
  local_client_package kube_client_package local_factory_package kube_factory_package : Package
  local_volume_package : Package
  kube_informer_package : Kind → Package

-- An injector of an informer, after injectors that may have panicked.
abbrev pub informer_injector :
    {S I : Type 0} → (S → Outcome (S × I)) → Outcome S → Outcome S × Outcome I
informer_injector {S} {I} f s =
    (s >>= f >>= (λ (r : S × I). ok r.0), s >>= f >>= (λ (r : S × I). ok r.1))

module _ {Config LC KC KF I T : Type 0} (M : Makers Config LC KC KF I T) where
  -- What the init function of a package registers.
  unfoldable pub init : Package → Registration (Outcome (Injected LC KC KF I T)) Config (Outcome I)
  init local_client_package = client (λ s cfg. s >>= λ s'. with_local_client M s' cfg)
  init kube_client_package = client (λ s cfg. s >>= λ s'. with_kube_client M s' cfg)
  init local_factory_package = factory (λ s. s >>= with_local_factory M)
  init kube_factory_package = factory (λ s. s >>= with_kube_factory M)
  init local_volume_package = informer (informer_injector (with_local_volume M))
  init (kube_informer_package kind) = informer (informer_injector (with_kube_informer M kind))
