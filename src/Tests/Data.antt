-- ===== src/Tests/Data.antt =====
-- A small cluster: a pod with one claim of 3 GiB, a node with a local volume of 10 GiB, a published
-- volume, and a host on which every program succeeds.
use kubernetes_local_volume.Base.{
  ℕ, ◌*◌, ◌+◌, String, str_eq, true, false, none, some, List, [], ◌∷◌, if◌then◌else◌,
}
use kubernetes_local_volume.Base.Dict.{Dict}
use kubernetes_local_volume.Fault.{plain, missing_file, missing_object, Reply, got, refused}
use kubernetes_local_volume.Host.{Host}
use kubernetes_local_volume.Lvm.{VgInfo, VgsOutput}
use kubernetes_local_volume.Quantity.{gib}
use kubernetes_local_volume.Scheduler.{Cache}
use kubernetes_local_volume.Types.{driver_name, local_volume_gc_tag, topology_node_key}
use kubernetes_local_volume.Types.Objects.{
  Pv, Phase, bound, delete, NodeAffinity, Pvc, Pod, Node, LocalVolume,
}
use kubernetes_local_volume.Driver.Node.{PublishRequest}

abbrev pub claim : Pvc
claim = record {
  namespace = "web";
  name = "data";
  storage_class_name = some "local";
  requests = ("storage", 2 * gib + 1) ∷ [];
}

abbrev pub pod : Pod
pod = record {
  namespace = "web";
  name = "server";
  volumes =
      record { persistent_volume_claim = some "data" }
      ∷ record { persistent_volume_claim = none }
      ∷ [];
}

abbrev pub node : Node
node = record { name = "n1" }

-- `free` GiB are free, and the claims of the keys are preallocated.
abbrev pub volume_with : ℕ → List String → LocalVolume
volume_with free ks = record {
  namespace = "default";
  name = "n1";
  status = record { total_size = 10; free_size = free; pre_allocated = some (marked ks) };
}
  where
    marked : List String → Dict String
    marked [] = []
    marked (k ∷ ks) = (k, "") ∷ marked ks

abbrev pub cache_with : LocalVolume → Cache
cache_with lv = record {
  get_pod = λ namespace name. got pod;
  get_pvc =
      λ namespace name. if str_eq name "data" then got claim else refused (missing_object name);
  get_storage_class = λ name. got (record { provisioner = driver_name });
  get_local_volume = λ namespace name. got lv;
}

abbrev pub affinity : NodeAffinity
affinity = record {
  required = some (record {
    node_selector_terms = some (
        record {
          match_expressions = some (record { key = topology_node_key; values = "n1" ∷ [] } ∷ []);
        }
        ∷ []);
  });
}

abbrev pub volume_in : Phase → Pv
volume_in phase = record {
  name = "pv1";
  annotations = none;
  finalizers = "other" ∷ local_volume_gc_tag ∷ [];
  phase = phase;
  reclaim_policy = delete;
  claim_ref = some (record { namespace = "web"; name = "data" });
  node_affinity = some affinity;
  capacity = ("storage", 3 * gib) ∷ [];
}

-- Programs and the shell print `text`; files are missing, and the API server takes everything.
abbrev pub host : Host
host = record {
  shell = λ h c. record { text = "1"; error = none };
  exec = λ h name args. record { text = "data"; error = none };
  look_path = λ h file. none;
  stat = λ h path. refused (missing_file path);
  lstat = λ h path. got true;
  mkdir_all = λ h path. none;
  create = λ h path. none;
  open_block = λ h path. none;
  close = λ h path. none;
  remove = λ h path. none;
  open_file = λ h path. none;
  read_dir_1 = λ h path. some (true, plain "EOF");
  get_pv = λ h name. got (volume_in bound);
  patch_pv = λ h name patch. none;
  update_pv = λ h pv. none;
  get_lv = λ h namespace name. got (volume_with 10 []);
  create_lv = λ h lv. none;
  update_lv_status = λ h lv. none;
  bind_pod = λ h target node. none;
  resize_fs = λ h device target. got true;
  status_text = λ c s. s;
  number_error_text = λ s. s;
  quote = λ s. s;
  marshal_pv = λ pv. got pv.name;
  merge_patch = λ old new. got new;
}

abbrev pub info : VgInfo
info = record { vg_size = 2048000; vg_free = 1024000 }

abbrev pub unmarshal : String → Reply VgsOutput
unmarshal text = got ((info ∷ []) ∷ [])

abbrev pub request : PublishRequest
request = record {
  target_path = "/var/lib/kubelet/pods/x/mount";
  volume_id = "pv1";
  volume_context = [];
  readonly = false;
  mount_flags = [];
}
