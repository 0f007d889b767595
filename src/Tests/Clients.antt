-- ===== src/Tests/Clients.antt =====
-- Shared informers, packages, listers and typed clients over texts.
use kubernetes_local_volume.Base.{
  ℕ, ◌≤◌, ◌≡◌, refl, sym, subst, String, ◌<>◌, ◌==◌, not, none, some, List, [], ◌∷◌, ◌++◌, map, All,
  In, here, there,
}
use kubernetes_local_volume.Base.Dict.{lookup, has}
use kubernetes_local_volume.Base.Int.{ℤ, pos}
use kubernetes_local_volume.Fault.{got, ok}
use kubernetes_local_volume.Host.{Host, History}
use kubernetes_local_volume.Lvm.{create_vg}
use kubernetes_local_volume.Types.{vg_name}
use kubernetes_local_volume.Types.Objects.{LocalVolume}
use kubernetes_local_volume.Injection.{setup_informers, empty_registry}
use kubernetes_local_volume.Injection.Stages.{register_all}
use kubernetes_local_volume.Agent.Reconciler.{register_node_local_volume_storage}
use kubernetes_local_volume.Controller.{accessor}
use kubernetes_local_volume.Client.Factory.{
  SharedInformerFactory, new_shared_informer_factory, new_filtered_shared_informer_factory, start,
}
use kubernetes_local_volume.Client.Factory.Counting.{run_count, one}
use kubernetes_local_volume.Client.Factory.Sharing.{Use, requests, starts, use_all, start-once}
use kubernetes_local_volume.Client.Clientset.{
  RestConfig, Clientset, ClientGo, new_for_config, new_for_config_or_die, or_die,
  new_for_config_or_die_agrees,
}
use kubernetes_local_volume.Client.Packages.{
  Makers, Context, Injected, Package, local_client_package, kube_client_package,
  local_factory_package, kube_factory_package, local_volume_package, kube_informer_package, pods,
  persistent_volumes, persistent_volume_claims, storage_classes, init,
}
use kubernetes_local_volume.Client.Packages.Setup.{needed, Blank}
use kubernetes_local_volume.Client.Scheduling.{
  Listing, LocalVolumeScheduler, new_local_volume_scheduler, IsServed, scheduler_imports,
  setup_informers_serves,
}
use kubernetes_local_volume.Client.Agents.{Handed, AgentMade, GcMade, new_agent, new_gc}
use kubernetes_local_volume.Client.Agents.Wiring.{agent_imports, Handles, setup_informers-Handles}

abbrev limited : RestConfig ℕ ℕ
limited = record {
  rate_limiter = none;
  qps = 0;
  burst = pos 0;
  user_agent = "";
  api_path = "";
  group_version = "";
}

-- Requests for two types, a start, and one of them again.
abbrev uses : List (Use String String)
uses =
    requests "volumes" (λ c n. c <> "/a")
    ∷ starts
    ∷ requests "pods" (λ c n. c <> "/b")
    ∷ requests "volumes" (λ c n. c <> "/c")
    ∷ starts
    ∷ []

abbrev fresh : SharedInformerFactory String String String
fresh = new_filtered_shared_informer_factory "client" 10 "ns" none

start-once_example :
    ((t : String) → run_count t (use_all uses (fresh, [])).1 ≤ 1)
    × ((t i : String)
        → In (t, i) (use_all uses (fresh, [])).1
        → lookup t (use_all uses (fresh, [])).0.informers ≡ some i)
    × ((t : String)
        → run_count t ((use_all uses (fresh, [])).1 ++ (start (use_all uses (fresh, [])).0).1)
          ≡ one (has t (use_all uses (fresh, [])).0.informers))
start-once_example = start-once "client" 10 "ns" none uses

abbrev client_go : ClientGo ℕ ℕ String String
client_go = record {
  is_positive = λ q. not (q == 0);
  token_bucket = λ q b. q;
  default_user_agent = "agent";
  rest_client_for = λ c. got (c.user_agent <> c.api_path);
  discovery_for = λ c. got "discovery";
}

abbrev Local : Type 0
Local = Clientset String String

abbrev local_client : Local
local_client = record { discovery_client = "discovery"; local_v1alpha1 = "agent/apis" }

abbrev Held : Type 0
Held = Injected Local String String String String

abbrev makers : Makers (RestConfig ℕ ℕ) Local String String String String
makers = record {
  local_for_config_or_die = new_for_config_or_die client_go;
  kube_for_config_or_die = λ cfg. ok "kube";
  kube_factory_with_options = λ c n ns. c <> "/factory";
  kube_informer = λ f kind. f <> "/informer";
  new_shared_index_informer = λ lw n. lw.namespace <> "/volumes";
}

local_made : makers.local_for_config_or_die limited ≡ ok local_client
unfolding new_for_config_or_die
local_made = refl

abbrev blank : Held
blank = record {
  context = record {
    local_client = none;
    kube_client = none;
    local_factory = none;
    kube_factory = none;
    local_volume = none;
    kube_informers = λ kind. none;
    namespace_scope = none;
    resync = none;
  };
  factories = record { size = 0; cell = λ r. new_shared_informer_factory local_client 0 };
}

-- The packages of the scheduler and the agent, those first that need the others.
abbrev packages : List Package
packages =
    local_volume_package
      ∷ map kube_informer_package
          (pods ∷ persistent_volume_claims ∷ storage_classes ∷ persistent_volumes ∷ [])
    ++ kube_factory_package ∷ local_factory_package ∷ kube_client_package ∷ local_client_package
      ∷ []

abbrev Imports : Package → Type 0
Imports p = (q : Package) → needed p ≡ some q → In q packages

-- A property of all of a list holds of each of it.
each : {A : Type 0} (P : A → Type 0) (xs : List A) → All P xs → (x : A) → In x xs → P x
each P [] all x i = elim i [ ]
each P (y ∷ xs) (first, others) x (here e) = subst P (sym e) first
each P (y ∷ xs) (first, others) x (there i) = each P xs others x i

importing : (p : Package) → In p packages → (q : Package) → some p ≡ some q → In q packages
importing p i q e = let same : p ≡ q = cc in subst (λ x. In x packages) same i

In-kube_factory : In kube_factory_package packages
In-kube_factory = there (there (there (there (there (here refl)))))

In-local_factory : In local_factory_package packages
In-local_factory = there (there (there (there (there (there (here refl))))))

In-kube_client : In kube_client_package packages
In-kube_client = there (there (there (there (there (there (there (here refl)))))))

In-local_client : In local_client_package packages
In-local_client = there (there (there (there (there (there (there (there (here refl))))))))

packages-Imports : All Imports packages
packages-Imports =
    let informers = importing kube_factory_package In-kube_factory in
    (
      importing local_factory_package In-local_factory,
      (
        informers,
        (
          informers,
          (
            informers,
            (
              informers,
              (
                importing kube_client_package In-kube_client,
                (importing local_client_package In-local_client, (λ q. cc, (λ q. cc, tt))),
              ),
            ),
          ),
        ),
      ),
    )

closed : (p q : Package) → In p packages → needed p ≡ some q → In q packages
closed p q i = each Imports packages packages-Imports p i q

blank-Blank : Blank blank
blank-Blank = (refl, λ kind. refl)

scheduler_imported : (p : Package) → In p scheduler_imports → In p packages
scheduler_imported =
    each (λ p. In p packages) scheduler_imports
      (
        In-local_client,
        (
          here refl,
          (
            In-kube_client,
            (
              there (there (here refl)),
              (there (here refl), (there (there (there (here refl))), tt)),
            ),
          ),
        ),
      )

agent_imported : (p : Package) → In p agent_imports → In p packages
agent_imported =
    each (λ p. In p packages) agent_imports
      (
        In-local_client,
        (here refl, (there (there (there (there (here refl)))), (In-kube_client, tt))),
      )

abbrev logger : String
logger = "logger"

abbrev listing : Listing String String String String
listing = record { get_indexer = λ i. i <> "/indexer"; kube_lister = λ f kind. f <> "/lister" }

abbrev handed : Handed LocalVolume
handed = record {
  as_object = λ lv.
      accessor (record { namespace = lv.namespace; name = lv.name; labels = []; owner = none });
  as_pv = λ lv. none;
}

setup_informers_serves_example :
    (s' s'' : Held) × (infs : List String) × (sched : LocalVolumeScheduler Local String String
      String
      (Context Local String String String))
    × (setup_informers (register_all (map (init makers) packages) empty_registry) (ok blank) limited
        ≡ (ok s', map ok infs))
    × (new_local_volume_scheduler makers listing s' ≡ ok (sched, s''))
    × IsServed makers listing infs sched
setup_informers_serves_example =
    setup_informers_serves makers listing packages closed scheduler_imported limited local_client
      "kube" local_made refl blank blank-Blank

setup_informers-Handles_example :
    (s' : Held) × (infs : List String) × (agent : AgentMade makers listing handed
      (λ name. name)
      logger
      "n1")
    × (gc : GcMade makers listing handed (λ name. name) logger "n1") × (setup_informers
          (register_all (map (init makers) packages) empty_registry)
          (ok blank)
          limited
        ≡ (ok s', map ok infs))
    × ((H : Host) (h h1 : History) (n : ℤ)
        → create_vg H vg_name h ≡ (ok n, h1)
        → new_agent makers listing handed (λ name. name) logger "n1" H s' h
          ≡ (ok agent, (register_node_local_volume_storage H "n1" h1).1))
    × (new_gc makers listing handed (λ name. name) logger "n1" s' ≡ ok gc)
    × Handles makers listing handed (λ name. name) logger "n1" agent.added infs
    × Handles makers listing handed (λ name. name) logger "n1" gc.added infs
setup_informers-Handles_example =
    setup_informers-Handles makers listing handed (λ name. name) logger "n1" packages closed
      agent_imported limited local_client "kube" local_made refl blank blank-Blank

new_for_config_or_die_agrees_example :
    new_for_config_or_die client_go limited ≡ or_die (new_for_config client_go limited)
new_for_config_or_die_agrees_example = new_for_config_or_die_agrees client_go limited refl
