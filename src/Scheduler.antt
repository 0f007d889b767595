-- ===== src/Scheduler.antt =====
-- pkg/scheduler: the extender of the Kubernetes scheduler. This file holds the informers' caches,
-- and the sizes of pkg/scheduler/utils.go; the handlers and the proofs are in the child modules.
-- A handler reads one state of the caches.
pub mod Handlers
pub mod Binding
pub mod Routes
pub mod Responses
pub mod Sizes
pub mod Admission
pub mod Scores
pub mod Preallocation
pub mod Overcommit
pub mod Routing
use kubernetes_local_volume.Base.{
  ℕ, ◌+◌, ◌-◌, ◌%◌, ◌^◌, String, str_eq, Option, none, some, List, [], ◌∷◌, if◌then◌else◌,
}
use kubernetes_local_volume.Base.Dict.{Dict, lookup, insert, keys}
use kubernetes_local_volume.Fault.{Outcome, ok, fail, panic, Reply, got, refused, deref}
use kubernetes_local_volume.Fault.Pure.{◌>>=◌}
use kubernetes_local_volume.Quantity.{ceil_gib}
use kubernetes_local_volume.Types.{driver_name, make_pvc_key, split_pvc_key}
use kubernetes_local_volume.Types.Objects.{Pod, Pvc, StorageClass, LocalVolume, Volume}

abbrev pub namespace_default : String
namespace_default = "default"

abbrev pub uint64_mod : ℕ
uint64_mod = 2 ^ 64

-- The listers. The first argument of the namespaced ones is the namespace.
pub record Cache : Type 0 where
  pub get_pod : String → String → Reply Pod
  pub get_pvc : String → String → Reply Pvc
  pub get_storage_class : String → Reply StorageClass
  pub get_local_volume : String → String → Reply LocalVolume

abbrev pub preallocated_keys : Option (Dict String) → List String
preallocated_keys none = []
preallocated_keys (some m) = keys m

module _ (C : Cache) where
  -- The two lookups behind a claim: its storage class, if that is the driver's.
  class_claim : Pvc → String → Option Pvc
  class_claim pvc class_name = elim (C.get_storage_class class_name) [
    | refused _ ↦ none
    | got sc ↦ if str_eq driver_name sc.provisioner then some pvc else none
  ]

  -- The claim of a pod's volume, if the driver provisions it. The name of the storage class is read
  -- through a pointer.
  unfoldable pub local_claim : String → Volume → Outcome (Option Pvc)
  unfolding class_claim
  local_claim namespace volume = elim volume.persistent_volume_claim [
    | none ↦ ok none
    | some pvc_name ↦ elim (C.get_pvc namespace pvc_name) [
      | refused _ ↦ ok none
      | got pvc ↦ do class_name ← deref pvc.storage_class_name; ok (class_claim pvc class_name)
    ]
  ]

  -- `size, ok := pvc.Spec.Resources.Requests[corev1.ResourceStorage]` and what is added of it.
  unfoldable pub claim_size : Pvc → ℕ
  unfolding lookup ceil_gib
  claim_size pvc = elim (lookup "storage" pvc.requests) [ none ↦ 0 | some size ↦ ceil_gib size ]

  unfoldable pub add_claim : ℕ → Option Pvc → ℕ
  unfolding claim_size
  add_claim result none = result
  add_claim result (some pvc) = (result + claim_size pvc) % uint64_mod

  unfoldable pub request_loop : String → ℕ → List Volume → Outcome ℕ
  unfolding local_claim add_claim
  request_loop namespace result [] = ok result
  request_loop namespace result (volume ∷ volumes) = do
    claim ← local_claim namespace volume
    request_loop namespace (add_claim result claim) volumes

  unfoldable pub get_pod_local_volume_request_size : Pod → Outcome ℕ
  unfolding request_loop
  get_pod_local_volume_request_size pod = request_loop pod.namespace 0 pod.volumes

  unfoldable pub add_name : Dict String → Option Pvc → Dict String
  unfolding insert make_pvc_key
  add_name result none = result
  add_name result (some pvc) = insert (make_pvc_key pvc.namespace pvc.name) "" result

  unfoldable pub names_loop : String → Dict String → List Volume → Outcome (Dict String)
  unfolding local_claim add_name
  names_loop namespace result [] = ok result
  names_loop namespace result (volume ∷ volumes) = do
    claim ← local_claim namespace volume
    names_loop namespace (add_name result claim) volumes

  unfoldable pub get_pod_local_volume_pvc_names : Pod → Outcome (Dict String)
  unfolding names_loop
  get_pod_local_volume_pvc_names pod = names_loop pod.namespace [] pod.volumes

  -- What the loop over the preallocated keys adds for one key.
  unfoldable pub key_size : String → ℕ
  unfolding split_pvc_key claim_size
  key_size key =
      let (pvc_ns, pvc_name) = split_pvc_key key in
      elim (C.get_pvc pvc_ns pvc_name) [ refused _ ↦ 0 | got pvc ↦ claim_size pvc ]

  unfoldable pub preallocate_loop : ℕ → List String → ℕ
  unfolding key_size
  preallocate_loop size [] = size
  preallocate_loop size (key ∷ rest) = preallocate_loop ((size + key_size key) % uint64_mod) rest

  unfoldable pub status_free_size : LocalVolume → ℕ
  unfolding preallocate_loop
  status_free_size lv =
      (lv.status.free_size
        + uint64_mod
        - preallocate_loop 0 (preallocated_keys lv.status.pre_allocated))
      % uint64_mod

  unfoldable pub get_node_free_size : String → ℕ
  unfolding status_free_size
  get_node_free_size node_name = elim (C.get_local_volume namespace_default node_name) [
    | refused _ ↦ 0
    | got lv ↦ status_free_size lv
  ]
