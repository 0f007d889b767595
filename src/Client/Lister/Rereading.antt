-- ===== src/Client/Lister/Rereading.antt =====
-- A key from the queue (pkg/common/controller/controller.go) to the object that the agent's reconciler
-- (pkg/agent/agent_reconciler.go) reads with the lister of local volumes.
use kubernetes_local_volume.Base.{
  String, str_eq, ◌≡◌, refl, ap, ◌∙◌, false, Bool-cases, none, some, Option-cases, List, inl, inr,
  All, if◌then◌else◌,
}
use kubernetes_local_volume.Fault.{missing_object, Reply, got, refused, ok, fail, outcome_of}
use kubernetes_local_volume.Host.{Host, History, pure}
use kubernetes_local_volume.Lvm.{VgsOutput}
use kubernetes_local_volume.Types.{make_pvc_key}
use kubernetes_local_volume.Types.Keys.{split_key}
use kubernetes_local_volume.Types.Objects.{LocalVolume, NamespacedName, Pv}
use kubernetes_local_volume.Controller.{safe_key}
use kubernetes_local_volume.Agent.Reconciler.{split_meta_namespace_key, reconciler, reconcile}
use kubernetes_local_volume.Client.Lister.{Indexer, local_volumes, get}
use kubernetes_local_volume.Client.Lister.Finding.{
  IsNamed, IsIndexOf, find_volume, is_volume, get-find_volume,
}

safe_key-make_pvc_key :
    (key : NamespacedName)
    → str_eq key.namespace "" ≡ false
    → safe_key key ≡ make_pvc_key key.namespace key.name
unfolding safe_key make_pvc_key
safe_key-make_pvc_key key some_namespace = rw some_namespace refl

split_meta_namespace_key-make_pvc_key :
    (namespace name : String)
    → IsNamed namespace name
    → split_meta_namespace_key (make_pvc_key namespace name) ≡ got (namespace, name)
unfolding split_meta_namespace_key
split_meta_namespace_key-make_pvc_key namespace name (a, b) = rw (split_key namespace name a b) refl

-- The key of an object in a namespace comes apart again.
split_meta_namespace_key-safe_key :
    (key : NamespacedName)
    → str_eq key.namespace "" ≡ false
    → IsNamed key.namespace key.name
    → split_meta_namespace_key (safe_key key) ≡ got (key.namespace, key.name)
split_meta_namespace_key-safe_key key some_namespace named =
    ap split_meta_namespace_key (safe_key-make_pvc_key key some_namespace)
    ∙ split_meta_namespace_key-make_pvc_key key.namespace key.name named

got_of : (r : Reply LocalVolume) (v : LocalVolume) → outcome_of r ≡ ok v → r ≡ got v
got_of (got w) v e = cc
got_of (refused _) v e = cc

missing_of :
    (r : Reply LocalVolume) (name : String)
    → outcome_of r ≡ fail (missing_object name)
    → r ≡ refused (missing_object name)
missing_of (got w) name e = cc
missing_of (refused _) name e = cc

module _ (H : Host) (unmarshal : String → Reply VgsOutput) (node_id : String)
    {Object Selector : Type 0} where
  -- Where the indexer keeps the volumes of a list by MetaNamespaceKeyFunc, no name and no namespace has
  -- a slash, and `get_lv` answers as the lister does: Reconcile on the key that the controller makes of a
  -- namespace, not empty, and a name reconciles the first volume of the list with both, if the name is
  -- the node's, and does nothing if there is none or the name is another.
  pub reconcile-safe_key :
      (indexer : Indexer Object Selector LocalVolume) (object : LocalVolume → Object)
      (vs : List LocalVolume)
      → IsIndexOf indexer object vs
      → All (λ v. IsNamed v.namespace v.name) vs
      → (get_lv : String → String → Reply LocalVolume)
      → ((namespace name : String)
          → outcome_of (get_lv namespace name) ≡ get (local_volumes indexer namespace) name)
      → (all_pv : Reply (List Pv)) (key : NamespacedName) (h : History)
      → str_eq key.namespace "" ≡ false
      → IsNamed key.namespace key.name
      → reconcile H unmarshal node_id get_lv all_pv (safe_key key) h ≡ (
          if str_eq key.name node_id
          then (elim (find_volume (is_volume key.namespace key.name) vs) [
            | none ↦ pure tt h
            | some v ↦ reconciler H unmarshal node_id all_pv v h
          ])
          else pure tt h)
  unfolding reconcile
  reconcile-safe_key indexer object vs index all get_lv answers all_pv key h some_namespace named =
      let answer =
        answers key.namespace key.name
        ∙ get-find_volume indexer object vs index all key.namespace key.name some_namespace named in
      rw (split_meta_namespace_key-safe_key key some_namespace named, reconcile)
        (elim (Bool-cases (str_eq key.name node_id)) [
          | inr other ↦ rw other refl
          | inl same ↦
              rw same (elim (Option-cases (find_volume (is_volume key.namespace key.name) vs)) [
                | inl none_there ↦ rw none_there (
                    rw
                      (missing_of (get_lv key.namespace key.name) key.name
                        (rw none_there at answer))
                      refl)
                | inr (v, one) ↦
                    rw one (rw (got_of (get_lv key.namespace key.name) v (rw one at answer)) refl)
              ])
        ])
