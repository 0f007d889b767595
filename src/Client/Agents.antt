-- ===== src/Client/Agents.antt =====
-- NewAgent (pkg/agent/agent.go) and NewGC (pkg/agent/gc.go). A handler gives the calls on the work
-- queue.
pub mod Wiring
use kubernetes_local_volume.Base.{String, Bool, Option, none, some, List, [], ◌∷◌, map}
use kubernetes_local_volume.Fault.{Outcome, ok}
use kubernetes_local_volume.Fault.Pure
use kubernetes_local_volume.Host.{Host, Io, pure, lift, ◌>>=◌, ◌>>◌}
use kubernetes_local_volume.Lvm.{create_vg}
use kubernetes_local_volume.Types.{vg_name}
use kubernetes_local_volume.Types.Objects.{Pv}
use kubernetes_local_volume.Controller.{Object, EventHandler, Call, add, handle_all, enqueue}
use kubernetes_local_volume.Controller.References.{Impl, new_impl}
use kubernetes_local_volume.Agent.Reconciler.{
  register_node_local_volume_storage, agent_filter, enqueue_local_volume_pv,
}
use kubernetes_local_volume.Agent.Gc.{gc_filter}
use kubernetes_local_volume.Client.Packages.{
  persistent_volumes, Injected, Makers, LocalVolumeInformer, local_volume_informer,
  get_local_client, get_kube_client, get_local_volume, get_kube_informer,
}
use kubernetes_local_volume.Client.Scheduling.{LocalVolumeLister, Listing, local_volume_lister}

-- What an informer hands over, with the type assertions of the handlers.
pub record Handed (O : Type 0) : Type 0 where
  pub as_object : O → Object
  pub as_pv : O → Option Pv

-- cache.ResourceEventHandlerFuncs, alone or in a cache.FilteringResourceEventHandler.
pub data Handler (O : Type 0) : Type 0 where
  handles : EventHandler O (List Call) → Handler O
  filters : (O → Bool) → EventHandler O (List Call) → Handler O

-- A call of AddEventHandler.
pub record AddedHandler (I O : Type 0) : Type 0 where
  pub informer : I
  pub handler : Handler O

pub record AgentReconciler (LC KL X T : Type 0) : Type 0 where
  pub node_id : String
  pub client : LC
  pub lv_informer : LocalVolumeInformer T
  pub lv_lister : LocalVolumeLister X
  pub pv_lister : KL

pub record GcReconciler (KC KF KL : Type 0) : Type 0 where
  pub node_id : String
  pub client : KC
  pub pv_informer : KF
  pub pv_lister : KL

-- A constructor's controller, the handlers that it added, and the context after it.
pub record Constructed (R Q Logger I O S : Type 0) : Type 0 where
  pub impl : Impl R Q Logger
  pub added : List (AddedHandler I O)
  pub after : S

module _ {Config LC KC KF I T X KL Q Logger O : Type 0} (M : Makers Config LC KC KF I T)
    (L : Listing KF I X KL) (A : Handed O) (new_queue : String → Q) (logger : Logger)
    (node_id : String) where
  abbrev pub AgentMade : Type 0
  AgentMade = Constructed (AgentReconciler LC KL X T) Q Logger I O (Injected LC KC KF I T)

  abbrev pub GcMade : Type 0
  GcMade = Constructed (GcReconciler KC KF KL) Q Logger I O (Injected LC KC KF I T)

  abbrev pub enqueue_pv : Option Pv → List Call
  enqueue_pv none = []
  enqueue_pv (some pv) = map add (enqueue_local_volume_pv pv)

  abbrev pub agent_handlers : I → I → List (AddedHandler I O)
  agent_handlers lv_informer pv_informer =
      record {
        informer = lv_informer;
        handler = handles (handle_all (λ obj. enqueue (A.as_object obj)));
      }
      ∷ record {
        informer = pv_informer;
        handler =
            filters (λ obj. agent_filter node_id (A.as_pv obj))
              (handle_all (λ obj. enqueue_pv (A.as_pv obj)));
      }
      ∷ []

  -- What NewAgent returns, with the clients and informers of the context. The lister and the handler
  -- of the local volumes ask for the informer one after the other.
  unfoldable pub agent_made : LC → LocalVolumeInformer T → KF → Injected LC KC KF I T → AgentMade
  unfolding new_impl local_volume_lister local_volume_informer
  agent_made client lv_informer pv_informer s =
      let (fs1, lister) = local_volume_lister M L lv_informer s.factories in
      let (fs2, informer) = local_volume_informer M lv_informer fs1 in
      record {
        impl =
            new_impl new_queue
              (record {
                node_id = node_id;
                client = client;
                lv_informer = lv_informer;
                lv_lister = lister;
                pv_lister = L.kube_lister pv_informer persistent_volumes;
              })
              logger "agent";
        added = agent_handlers informer (M.kube_informer pv_informer persistent_volumes);
        after = record s { factories = fs2 };
      }

  -- The group of volumes is made and the node registered in between. An error of the first ends the
  -- process.
  unfoldable pub new_agent : Host → Injected LC KC KF I T → Io AgentMade
  unfolding agent_made
  new_agent H s = do
    client ← lift (get_local_client s)
    lv_informer ← lift (get_local_volume s)
    pv_informer ← lift (get_kube_informer persistent_volumes s)
    create_vg H vg_name
    register_node_local_volume_storage H node_id
    pure (agent_made client lv_informer pv_informer s)

  unfoldable pub gc_made : KC → KF → Injected LC KC KF I T → GcMade
  unfolding new_impl
  gc_made client pv_informer s = record {
    impl =
        new_impl new_queue
          (record {
            node_id = node_id;
            client = client;
            pv_informer = pv_informer;
            pv_lister = L.kube_lister pv_informer persistent_volumes;
          })
          logger "RecycleLocalVolume";
    added =
        record {
          informer = M.kube_informer pv_informer persistent_volumes;
          handler =
              filters (λ obj. gc_filter node_id (A.as_pv obj))
                (handle_all (λ obj. enqueue (A.as_object obj)));
        }
        ∷ [];
    after = s;
  }

  unfoldable pub new_gc : Injected LC KC KF I T → Outcome GcMade
  unfolding gc_made
  new_gc s = Pure.◌>>=◌ (get_kube_client s) (λ client.
      Pure.◌>>=◌ (get_kube_informer persistent_volumes s)
        (λ pv_informer. ok (gc_made client pv_informer s)))
