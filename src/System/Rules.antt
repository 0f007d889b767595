-- ===== src/System/Rules.antt =====
-- A proof rule for the histories of the programs (pkg/driver, pkg/agent, pkg/scheduler).
use kubernetes_local_volume.Base.{String, [], ◌∷◌, ◌≡◌, true}
use kubernetes_local_volume.Host.{Host, History, Event}
use kubernetes_local_volume.Host.Laws.{Keeps}
use kubernetes_local_volume.Types.{vg_name}
use kubernetes_local_volume.Types.Objects.{Pv}
use kubernetes_local_volume.Lvm.{create_vg}
use kubernetes_local_volume.Agent.Gc.{gc_reconciler}
use kubernetes_local_volume.Driver.Node.{ensure_filesystem}
use kubernetes_local_volume.Driver.Routine.{routine}
use kubernetes_local_volume.Driver.Routine.Publication.{node_publish_volume-Keeps}
use kubernetes_local_volume.Scheduler.{Cache}
use kubernetes_local_volume.Scheduler.Binding.{BindingArgs, bind_handler}
use kubernetes_local_volume.System.{
  Step, publishes, unpublishes, creates_group, registers, reconciles, collects, binds, Reach, start,
  later,
}
use kubernetes_local_volume.System.Programs.{
  node_unpublish_volume-Keeps, register-Keeps, reconcile-Keeps, gc_reconcile-Keeps,
}

-- What to show of a property of the history: it holds at the start, a routine event keeps it, and so do
-- the four parts with other events.
pub record Rule (H : Host) (Known : Pv → Type 0) (P : History → Type 0) : Type 0 where
  pub empty : P []
  pub event : (e : Event) → routine e ≡ true → (h : History) → P h → P (e ∷ h)
  pub group : (vg : String) → Keeps P (create_vg H vg)
  pub filesystem : (device fs_type : String) → Keeps P (ensure_filesystem H device fs_type)
  pub collection : (pv : Pv) → Known pv → Keeps P (gc_reconciler H pv)
  pub binding : (C : Cache) (args : BindingArgs) → Keeps P (bind_handler H C args)

module _ {H : Host} {Known : Pv → Type 0} {P : History → Type 0} (rule : Rule H Known P) where
  step_ind : {h k : History} → Step H Known h k → P h → P k
  step_ind {h} (publishes req) p =
      (node_publish_volume-Keeps H P rule.event rule.group rule.filesystem req).keeps h p
  step_ind {h} (unpublishes target) p =
      (node_unpublish_volume-Keeps H P rule.event target).keeps h p
  step_ind {h} (registers node_id) p = (register-Keeps H P rule.event node_id).keeps h p
  step_ind {h} (reconciles unmarshal node_id get_local_volume all_pv key) p =
      (reconcile-Keeps H P rule.event unmarshal node_id get_local_volume all_pv key).keeps h p
  step_ind {h} creates_group p = (rule.group vg_name).keeps h p
  step_ind {h} (collects get_pv known key) p =
      (gc_reconcile-Keeps H P rule.event get_pv
          (λ name pv found. rule.collection pv (known name pv found)) key).keeps
        h p
  step_ind {h} (binds C args) p = (rule.binding C args).keeps h p

  pub reach_ind : {h : History} → Reach H Known h → P h
  reach_ind start = rule.empty
  reach_ind (later r s) = step_ind s (reach_ind r)
