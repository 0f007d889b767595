-- ===== src/Tests/Starting.antt =====
-- The routes on a router that is a list, the start of a process with two informers, and the sizes of
-- large volumes.
use kubernetes_local_volume.Base.{
  ℕ, suc, ◌+◌, ◌*◌, ◌^◌, ◌≤◌, ◌<◌, ◌≡◌, ◌⊎◌, refl, String, str_eq, Bool, ◌&&◌, Option, none, some,
  List, [], ◌∷◌, ◌++◌, length, map, if◌then◌else◌, ◌==◌,
}
use kubernetes_local_volume.Fault.{ok, panic, plain, got, refused}
use kubernetes_local_volume.Quantity.{gib, ceil_gib}
use kubernetes_local_volume.Quantity.Rounding.{ceil_gib_near}
use kubernetes_local_volume.Scheduler.Routes.{write_body}
use kubernetes_local_volume.Scheduler.Routing.{
  Handle, Handles, Router, Routing, routes, served, routes-served,
}
use kubernetes_local_volume.Injection.{Registry, empty_registry, setup_informers}
use kubernetes_local_volume.Injection.Stages.{Registration, client, factory, informer, register_all}
use kubernetes_local_volume.Startup.Config.{
  Surroundings, get_config, first_named, first_got, in_home, get_config_order,
}
use kubernetes_local_volume.Startup.{exits, run_each, start_all, main_with_config}
use kubernetes_local_volume.Startup.Launch.{waits, FirstUnsynced, AllSynced, main_with_config_cases}

abbrev Listed : Type 0
Listed = List (String × String × Handle)

abbrev find : String → String → Listed → Option Handle
find m p [] = none
find m p ((method, path, h) ∷ r) = if str_eq method m && str_eq path p then some h else find m p r

abbrev listed : Router Listed
listed = record {
  new = [];
  handle = λ m p h r. elim (find m p r) [ some _ ↦ panic | none ↦ ok ((m, p, h) ∷ r) ];
  lookup = find;
}

listed-free :
    (m p : String) (h : Handle) (r : Listed)
    → find m p r ≡ none
    → (s : Listed) × (listed.handle m p h r ≡ ok s)
      × ((n q : String) → find n q s ≡ (if str_eq m n && str_eq p q then some h else find n q r))
listed-free m p h r e = ((m, p, h) ∷ r, rw (e, listed) refl, λ n q. refl)

listed-taken :
    (m p : String) (g h : Handle) (r : Listed) → find m p r ≡ some g → listed.handle m p h r ≡ panic
listed-taken m p g h r e = rw (e, listed) refl

listed-Routing : Routing listed
listed-Routing = record {
  lookup_new = λ m p. refl;
  handle_free = λ m p h r s e. listed-free m p h r e;
  handle_taken = λ m p g h r s e. listed-taken m p g h r e;
}

abbrev answers : String → Handle
answers text r = ok (write_body text ∷ [])

abbrev handles : Handles
handles = record {
  predicate_handle = answers "predicate";
  prioritize_handle = answers "prioritize";
  bind_handle = answers "bind";
  preemption_handle = answers "preemption";
}

routes-served_example :
    (r : Listed) × (routes listed handles ≡ ok r)
    × ((m p : String) → find m p r ≡ served handles m p)
routes-served_example = routes-served listed-Routing handles

abbrev registered_routes : Listed
registered_routes = (routes-served listed-Routing handles).0

-- A context is the list of what was injected, and an informer is a text.
abbrev registrations : List (Registration (List String) String String)
registrations =
    informer (λ ctx. (ctx ++ "informer" ∷ [], "pods"))
    ∷ factory (λ ctx. ctx ++ "factory" ∷ [])
    ∷ client (λ ctx cfg. ctx ++ cfg ∷ [])
    ∷ informer (λ ctx. (ctx, "claims"))
    ∷ []

abbrev two_informers : Registry (List String) String String
two_informers = register_all registrations empty_registry

-- The second cache does not synchronize.
abbrev first_syncs : ℕ → Bool
first_syncs i = i == 0

-- The constructors of the controllers: a controller is the number of what was injected before it.
abbrev constructors : List (List String → ℕ)
constructors = (λ ctx. length ctx) ∷ []

main_with_config_cases_example :
    let (injected, informers) = setup_informers two_informers [] "client" in
    let done = main_with_config first_syncs two_informers [] "client" constructors in
    (AllSynced first_syncs 0 (length informers)
      × (done
          ≡ run_each informers
            ++ (waits 0 (length informers) ++ start_all (map (λ cf. cf injected) constructors))))
    ⊎ ((k : ℕ) × FirstUnsynced first_syncs 0 (length informers) k
        × (done ≡ run_each informers ++ (waits 0 (suc k) ++ exits ∷ [])))
main_with_config_cases_example =
    main_with_config_cases first_syncs two_informers [] "client" constructors

ceil_gib_near_example :
    (2 ^ 62 + 1 ≤ ceil_gib (2 ^ 62 + 1) * gib + 512)
    × (ceil_gib (2 ^ 62 + 1) * gib < 2 ^ 62 + 1 + gib + 512)
ceil_gib_near_example = ceil_gib_near (2 ^ 62 + 1)

-- Nothing is named and the process is in no cluster, so the file in the home is read.
abbrev surroundings : Surroundings String
surroundings = record {
  kubeconfig_variable = "";
  build_config_from_flags = λ master_url path. got path;
  in_cluster_config = refused (plain "not in a cluster");
  home_dir = got "/root";
}

get_config_order_example :
    get_config surroundings "https://master" ""
    ≡ elim (first_named ("" ∷ surroundings.kubeconfig_variable ∷ [])) [
      | some path ↦ surroundings.build_config_from_flags "https://master" path
      | none ↦
          first_got (surroundings.in_cluster_config ∷ in_home surroundings surroundings.home_dir)
    ]
get_config_order_example = get_config_order surroundings "https://master" ""
