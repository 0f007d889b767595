-- ===== src/Injection/Stages.antt =====
-- The order in which the injectors run (SetupInformers of pkg/common/injection/informers.go), against
-- the order in which packages register them.
use kubernetes_local_volume.Base.{
  ◌≡◌, refl, ◌∙◌, Bool, true, false, List, [], ◌∷◌, ◌++◌, select, append-nil, append_assoc,
}
use kubernetes_local_volume.Injection.{
  Registry, ClientInjector, FactoryInjector, InformerInjector, empty_registry, register_client,
  register_informer_factory, register_duck, register_informer, inject_clients, inject_factories,
  inject_informers, setup_informers,
}

module _ (Context Config Informer : Type 0) where
  -- One call of a Register function, as the packages make them in their init functions.
  pub data Registration : Type 0 where
    client : ClientInjector Context Config → Registration
    factory : FactoryInjector Context → Registration
    duck : FactoryInjector Context → Registration
    informer : InformerInjector Context Informer → Registration

module _ {Context Config Informer : Type 0} where
  abbrev pub register :
      Registration Context Config Informer
      → Registry Context Config Informer
      → Registry Context Config Informer
  register (client ci) i = register_client ci i
  register (factory ifi) i = register_informer_factory ifi i
  register (duck ii) i = register_duck ii i
  register (informer ii) i = register_informer ii i

  abbrev pub register_all :
      List (Registration Context Config Informer)
      → Registry Context Config Informer
      → Registry Context Config Informer
  register_all [] i = i
  register_all (r ∷ rs) i = register_all rs (register r i)

  abbrev pub is_client : Registration Context Config Informer → Bool
  is_client (client _) = true
  is_client _ = false

  abbrev pub is_factory : Registration Context Config Informer → Bool
  is_factory (factory _) = true
  is_factory _ = false

  abbrev pub is_duck : Registration Context Config Informer → Bool
  is_duck (duck _) = true
  is_duck _ = false

  abbrev pub is_informer : Registration Context Config Informer → Bool
  is_informer (informer _) = true
  is_informer _ = false

  -- The registrations by kind: clients, factories, ducks, informers.
  abbrev pub staged :
      List (Registration Context Config Informer) → List (Registration Context Config Informer)
  staged rs =
      select is_client rs ++ (select is_factory rs ++ (select is_duck rs ++ select is_informer rs))

  -- The injectors run at once, in the order of the list.
  abbrev pub run_all :
      Config
      → List (Registration Context Config Informer)
      → Context × List Informer
      → Context × List Informer
  run_all cfg [] s = s
  run_all cfg (client ci ∷ rs) (ctx, infs) = run_all cfg rs (ci ctx cfg, infs)
  run_all cfg (factory ifi ∷ rs) (ctx, infs) = run_all cfg rs (ifi ctx, infs)
  run_all cfg (duck ii ∷ rs) (ctx, infs) = run_all cfg rs (ii ctx, infs)
  run_all cfg (informer ii ∷ rs) (ctx, infs) = run_all cfg rs ((ii ctx).0, infs ++ (ii ctx).1 ∷ [])

  run_all-append :
      (cfg : Config) (rs qs : List (Registration Context Config Informer))
      (s : Context × List Informer)
      → run_all cfg (rs ++ qs) s ≡ run_all cfg qs (run_all cfg rs s)
  run_all-append cfg [] qs s = refl
  run_all-append cfg (client ci ∷ rs) qs s = run_all-append cfg rs qs _
  run_all-append cfg (factory ifi ∷ rs) qs s = run_all-append cfg rs qs _
  run_all-append cfg (duck ii ∷ rs) qs s = run_all-append cfg rs qs _
  run_all-append cfg (informer ii ∷ rs) qs s = run_all-append cfg rs qs _

  -- The injectors of one kind.
  abbrev clients_of :
      List (Registration Context Config Informer) → List (ClientInjector Context Config)
  clients_of [] = []
  clients_of (client ci ∷ rs) = ci ∷ clients_of rs
  clients_of (_ ∷ rs) = clients_of rs

  abbrev factories_of : List (Registration Context Config Informer) → List (FactoryInjector Context)
  factories_of [] = []
  factories_of (factory ifi ∷ rs) = ifi ∷ factories_of rs
  factories_of (_ ∷ rs) = factories_of rs

  abbrev ducks_of : List (Registration Context Config Informer) → List (FactoryInjector Context)
  ducks_of [] = []
  ducks_of (duck ii ∷ rs) = ii ∷ ducks_of rs
  ducks_of (_ ∷ rs) = ducks_of rs

  abbrev informers_of :
      List (Registration Context Config Informer) → List (InformerInjector Context Informer)
  informers_of [] = []
  informers_of (informer ii ∷ rs) = ii ∷ informers_of rs
  informers_of (_ ∷ rs) = informers_of rs

  abbrev add_all :
      List (Registration Context Config Informer)
      → Registry Context Config Informer
      → Registry Context Config Informer
  add_all rs i = record {
    clients = i.clients ++ clients_of rs;
    factories = i.factories ++ factories_of rs;
    informers = i.informers ++ informers_of rs;
    ducks = i.ducks ++ ducks_of rs;
  }

  register_all-add :
      (rs : List (Registration Context Config Informer)) (i : Registry Context Config Informer)
      → register_all rs i ≡ add_all rs i
  unfolding register_client register_informer_factory register_duck register_informer
  register_all-add [] i = simp append-nil
  register_all-add (client ci ∷ rs) i = register_all-add rs _ ∙ simp append_assoc
  register_all-add (factory ifi ∷ rs) i = register_all-add rs _ ∙ simp append_assoc
  register_all-add (duck ii ∷ rs) i = register_all-add rs _ ∙ simp append_assoc
  register_all-add (informer ii ∷ rs) i = register_all-add rs _ ∙ simp append_assoc

  module _ (cfg : Config) where
    run-clients :
        (rs : List (Registration Context Config Informer)) (ctx : Context) (infs : List Informer)
        → run_all cfg (select is_client rs) (ctx, infs)
          ≡ (inject_clients (clients_of rs) cfg ctx, infs)
    unfolding inject_clients
    run-clients [] ctx infs = refl
    run-clients (client ci ∷ rs) ctx infs = run-clients rs (ci ctx cfg) infs
    run-clients (factory ifi ∷ rs) ctx infs = run-clients rs ctx infs
    run-clients (duck ii ∷ rs) ctx infs = run-clients rs ctx infs
    run-clients (informer ii ∷ rs) ctx infs = run-clients rs ctx infs

    run-factories :
        (rs : List (Registration Context Config Informer)) (ctx : Context) (infs : List Informer)
        → run_all cfg (select is_factory rs) (ctx, infs)
          ≡ (inject_factories (factories_of rs) ctx, infs)
    unfolding inject_factories
    run-factories [] ctx infs = refl
    run-factories (client ci ∷ rs) ctx infs = run-factories rs ctx infs
    run-factories (factory ifi ∷ rs) ctx infs = run-factories rs (ifi ctx) infs
    run-factories (duck ii ∷ rs) ctx infs = run-factories rs ctx infs
    run-factories (informer ii ∷ rs) ctx infs = run-factories rs ctx infs

    run-ducks :
        (rs : List (Registration Context Config Informer)) (ctx : Context) (infs : List Informer)
        → run_all cfg (select is_duck rs) (ctx, infs) ≡ (inject_factories (ducks_of rs) ctx, infs)
    unfolding inject_factories
    run-ducks [] ctx infs = refl
    run-ducks (client ci ∷ rs) ctx infs = run-ducks rs ctx infs
    run-ducks (factory ifi ∷ rs) ctx infs = run-ducks rs ctx infs
    run-ducks (duck ii ∷ rs) ctx infs = run-ducks rs (ii ctx) infs
    run-ducks (informer ii ∷ rs) ctx infs = run-ducks rs ctx infs

    run-informers :
        (rs : List (Registration Context Config Informer)) (ctx : Context) (infs : List Informer)
        → run_all cfg (select is_informer rs) (ctx, infs)
          ≡ inject_informers (informers_of rs) infs ctx
    unfolding inject_informers
    run-informers [] ctx infs = refl
    run-informers (client ci ∷ rs) ctx infs = run-informers rs ctx infs
    run-informers (factory ifi ∷ rs) ctx infs = run-informers rs ctx infs
    run-informers (duck ii ∷ rs) ctx infs = run-informers rs ctx infs
    run-informers (informer ii ∷ rs) ctx infs = run-informers rs (ii ctx).0 _

    -- In whatever order packages register their injectors, SetupInformers runs them sorted by kind:
    -- clients, informer factories, ducks, informers, and those of one kind in the order in which they
    -- were registered.
    pub setup_informers-staged :
        (rs : List (Registration Context Config Informer)) (ctx : Context)
        → setup_informers (register_all rs empty_registry) ctx cfg
          ≡ run_all cfg (staged rs) (ctx, [])
    unfolding setup_informers
    setup_informers-staged rs ctx =
        rw
          (
            register_all-add rs empty_registry,
            run_all-append cfg (select is_client rs)
                (select is_factory rs ++ (select is_duck rs ++ select is_informer rs)) (ctx, []),
            run-clients rs ctx [],
            run_all-append cfg (select is_factory rs) (select is_duck rs ++ select is_informer rs)
                (inject_clients (clients_of rs) cfg ctx, []),
            run-factories rs (inject_clients (clients_of rs) cfg ctx) [],
            run_all-append cfg (select is_duck rs) (select is_informer rs)
                (inject_factories (factories_of rs) (inject_clients (clients_of rs) cfg ctx), []),
            run-ducks rs
                (inject_factories (factories_of rs) (inject_clients (clients_of rs) cfg ctx)) [],
            run-informers rs
                (inject_factories (ducks_of rs)
                  (inject_factories (factories_of rs) (inject_clients (clients_of rs) cfg ctx)))
                [],
          )
          refl
