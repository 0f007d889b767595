-- ===== src/Injection.antt =====
-- pkg/common/injection: the registry of injectors, and their run at start (pkg/common/sharemain/main.go,
-- cmd/scheduler/main.go). Contexts, configurations and informers are of any types.
pub mod Stages
use kubernetes_local_volume.Base.{
  String, str_eq, not, Bool, Option, none, some, List, [], ◌∷◌, ◌++◌,
}

abbrev pub ClientInjector : Type 0 → Type 0 → Type 0
ClientInjector Context Config = Context → Config → Context

-- An injector of an informer factory, or of a duck factory.
abbrev pub FactoryInjector : Type 0 → Type 0
FactoryInjector Context = Context → Context

abbrev pub InformerInjector : Type 0 → Type 0 → Type 0
InformerInjector Context Informer = Context → Context × Informer

-- The fields of `impl` behind its lock.
pub record Registry (Context Config Informer : Type 0) : Type 0 where
  pub clients : List (ClientInjector Context Config)
  pub factories : List (FactoryInjector Context)
  pub informers : List (InformerInjector Context Informer)
  pub ducks : List (FactoryInjector Context)

-- The loops of SetupInformers: three that only change the context, and one that collects the informers.
unfoldable pub inject_clients :
    {Context Config : Type 0} → List (ClientInjector Context Config) → Config → Context → Context
inject_clients [] cfg ctx = ctx
inject_clients (ci ∷ cis) cfg ctx = inject_clients cis cfg (ci ctx cfg)

unfoldable pub inject_factories :
    {Context : Type 0} → List (FactoryInjector Context) → Context → Context
inject_factories [] ctx = ctx
inject_factories (ifi ∷ ifis) ctx = inject_factories ifis (ifi ctx)

unfoldable pub inject_informers :
    {Context Informer : Type 0}
    → List (InformerInjector Context Informer)
    → List Informer
    → Context
    → Context × List Informer
inject_informers [] informers ctx = (ctx, informers)
inject_informers (ii ∷ iis) informers ctx =
    inject_informers iis (informers ++ (ii ctx).1 ∷ []) (ii ctx).0

module _ {Context Config Informer : Type 0} where
  abbrev pub empty_registry : Registry Context Config Informer
  empty_registry = record { clients = []; factories = []; informers = []; ducks = [] }

  unfoldable pub register_client :
      ClientInjector Context Config
      → Registry Context Config Informer
      → Registry Context Config Informer
  register_client ci i = record i { clients = i.clients ++ ci ∷ [] }

  unfoldable pub register_informer_factory :
      FactoryInjector Context → Registry Context Config Informer → Registry Context Config Informer
  register_informer_factory ifi i = record i { factories = i.factories ++ ifi ∷ [] }

  unfoldable pub register_duck :
      FactoryInjector Context → Registry Context Config Informer → Registry Context Config Informer
  register_duck ii i = record i { ducks = i.ducks ++ ii ∷ [] }

  unfoldable pub register_informer :
      InformerInjector Context Informer
      → Registry Context Config Informer
      → Registry Context Config Informer
  register_informer ii i = record i { informers = i.informers ++ ii ∷ [] }

  unfoldable pub setup_informers :
      Registry Context Config Informer → Context → Config → Context × List Informer
  unfolding inject_clients inject_factories inject_informers
  setup_informers i ctx cfg =
      inject_informers i.informers []
        (inject_factories i.ducks (inject_factories i.factories (inject_clients i.clients cfg ctx)))

-- GetNamespaceScope and HasNamespaceScope, by the value that the context holds.
unfoldable pub get_namespace_scope : Option String → String
get_namespace_scope none = ""
get_namespace_scope (some namespace) = namespace

unfoldable pub has_namespace_scope : Option String → Bool
unfolding get_namespace_scope
has_namespace_scope value = not (str_eq (get_namespace_scope value) "")
