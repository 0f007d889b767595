-- ===== src/Types/Objects.antt =====
-- The Kubernetes objects: of each, the fields that the program reads or writes. A pointer, a slice or
-- a map that the program compares with nil is an `Option`. LocalVolume is the repository's own
-- (pkg/apis/storage/v1alpha1/local_volume_types.go); the others are those of k8s.io/api.
use kubernetes_local_volume.Base.{ℕ, String, Option, List}
use kubernetes_local_volume.Base.Dict.{Dict}

pub record Requirement : Type 0 where
  pub key : String
  pub values : List String

pub record Term : Type 0 where
  pub match_expressions : Option (List Requirement)

pub record NodeSelector : Type 0 where
  pub node_selector_terms : Option (List Term)

pub record NodeAffinity : Type 0 where
  pub required : Option NodeSelector

pub data Phase : Type 0 where
  pending available bound released failed : Phase

pub data ReclaimPolicy : Type 0 where
  recycle delete retain : ReclaimPolicy

-- A namespace and a name: types.NamespacedName, and what is used of an ObjectReference.
pub record NamespacedName : Type 0 where
  pub namespace : String
  pub name : String

-- A PersistentVolume. Capacities are the int64 that Quantity.Value gives, which are not negative.
pub record Pv : Type 0 where
  pub name : String
  pub annotations : Option (Dict String)
  pub finalizers : List String
  pub phase : Phase
  pub reclaim_policy : ReclaimPolicy
  pub claim_ref : Option NamespacedName
  pub node_affinity : Option NodeAffinity
  pub capacity : Dict ℕ

-- A PersistentVolumeClaim.
pub record Pvc : Type 0 where
  pub namespace : String
  pub name : String
  pub storage_class_name : Option String
  pub requests : Dict ℕ

pub record StorageClass : Type 0 where
  pub provisioner : String

-- A volume of a pod: the claim that it names, if it is one.
pub record Volume : Type 0 where
  pub persistent_volume_claim : Option String

pub record Pod : Type 0 where
  pub namespace : String
  pub name : String
  pub volumes : List Volume

pub record Node : Type 0 where
  pub name : String

pub record LocalVolumeStatus : Type 0 where
  pub total_size : ℕ
  pub free_size : ℕ
  pub pre_allocated : Option (Dict String)

pub record LocalVolume : Type 0 where
  pub namespace : String
  pub name : String
  pub status : LocalVolumeStatus
