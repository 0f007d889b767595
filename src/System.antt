-- ===== src/System.antt =====
-- The programs of pkg/driver, pkg/agent and pkg/scheduler on one node and one cluster. A step runs one
-- operation to its end, with any request, caches and answers; the history has the calls of all.
pub mod Programs
pub mod Rules
pub mod Discipline
pub mod Statuses
pub mod Lifecycle
use kubernetes_local_volume.Base.{String, List, [], ◌≡◌}
use kubernetes_local_volume.Fault.{Reply, got}
use kubernetes_local_volume.Host.{Host, History}
use kubernetes_local_volume.Types.{vg_name}
use kubernetes_local_volume.Lvm.{VgsOutput, create_vg}
use kubernetes_local_volume.Types.Objects.{Pv, LocalVolume}
use kubernetes_local_volume.Agent.Reconciler.{reconcile, register_node_local_volume_storage}
use kubernetes_local_volume.Agent.Gc.{gc_reconcile}
use kubernetes_local_volume.Driver.Node.{PublishRequest, node_publish_volume, node_unpublish_volume}
use kubernetes_local_volume.Scheduler.{Cache}
use kubernetes_local_volume.Scheduler.Binding.{BindingArgs, bind_handler}

-- `Known` tells of the volumes that the agent's lister may answer with.
pub data Step (H : Host) (Known : Pv → Type 0) (h : History) : History → Type 0 where
  publishes : (req : PublishRequest) → Step H Known h (node_publish_volume H req h).1
  unpublishes : (target : String) → Step H Known h (node_unpublish_volume H target h).1
  creates_group : Step H Known h (create_vg H vg_name h).1
  registers : (node_id : String) → Step H Known h (register_node_local_volume_storage H node_id h).1
  reconciles :
      (unmarshal : String → Reply VgsOutput) (node_id : String)
      (get_local_volume : String → String → Reply LocalVolume) (all_pv : Reply (List Pv))
      (key : String)
      → Step H Known h (reconcile H unmarshal node_id get_local_volume all_pv key h).1
  collects :
      (get_pv : String → Reply Pv)
      → ((name : String) (pv : Pv) → get_pv name ≡ got pv → Known pv)
      → (key : String) → Step H Known h (gc_reconcile H get_pv key h).1
  binds : (C : Cache) (args : BindingArgs) → Step H Known h (bind_handler H C args h).1

pub data Reach (H : Host) (Known : Pv → Type 0) : History → Type 0 where
  start : Reach H Known []
  later : {h k : History} → Reach H Known h → Step H Known h k → Reach H Known k
