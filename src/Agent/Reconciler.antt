-- ===== src/Agent/Reconciler.antt =====
-- pkg/agent/agent.go and agent_reconciler.go. The informers' caches are parameters.
use kubernetes_local_volume.Base.{
  ℕ, ◌/◌, ◌*◌, String, str_eq, split, Bool, true, false, not, ◌&&◌, ◌||◌, Option, none, some, List,
  [], ◌∷◌, ◌++◌, ◌==◌, if◌then◌else◌,
}
use kubernetes_local_volume.Base.Dict.{Dict, insert, erase, has, keys}
use kubernetes_local_volume.Fault.{
  Error, plain, missing_object, Outcome, ok, Reply, got, refused, deref,
}
use kubernetes_local_volume.Fault.Pure
use kubernetes_local_volume.Host.{
  Host, Io, got_lv, created_lv, updated_lv_status, pure, throw, lift, ◌>>=◌, ◌>>◌, or_throw,
}
use kubernetes_local_volume.Lvm.{VgInfo, VgsOutput, get_vg_info}
use kubernetes_local_volume.Types.{vg_name, topology_node_key, make_pvc_key, is_pv_in_my_node}
use kubernetes_local_volume.Types.Objects.{
  Pv, Phase, bound, NamespacedName, Requirement, Term, LocalVolume, LocalVolumeStatus,
}

-- cache.SplitMetaNamespaceKey
unfoldable pub split_meta_namespace_key : String → Reply (String × String)
unfolding split
split_meta_namespace_key key = of_parts (split b'/' key)
  where
    of_parts : List String → Reply (String × String)
    of_parts (name ∷ []) = got ("", name)
    of_parts (namespace ∷ name ∷ []) = got (namespace, name)
    of_parts _ = refused (plain "unexpected key format")

unfoldable pub is_bound : Phase → Bool
is_bound bound = true
is_bound _ = false

unfoldable pub bounded_loop : String → Dict String → List Pv → Outcome (Dict String)
unfolding is_pv_in_my_node is_bound insert make_pvc_key
bounded_loop node_id result [] = ok result
bounded_loop node_id result (pv ∷ pvs) =
    let skip = bounded_loop node_id result pvs in
    let take =
      Pure.◌>>=◌ (deref pv.claim_ref) (λ ref.
        bounded_loop node_id (insert (make_pvc_key ref.namespace ref.name) "" result) pvs) in
    if is_pv_in_my_node pv node_id && is_bound pv.phase then take else skip

-- getMyNodeBoundedPVCList, on what the lister answers.
unfoldable pub get_my_node_bounded_pvc_list : String → Reply (List Pv) → Outcome (Dict String)
unfolding bounded_loop
get_my_node_bounded_pvc_list node_id (refused _) = ok []
get_my_node_bounded_pvc_list node_id (got all_pv) = bounded_loop node_id [] all_pv

-- Step 3 of `reconciler`, for one key of a bound claim: the key goes, and the flag tells whether one
-- was there.
unfoldable pub release_key : String → Dict String × Bool → Dict String × Bool
release_key key s = if has key s.0 then (erase key s.0, true) else s

unfoldable pub release_keys : List String → Dict String × Bool → Dict String × Bool
release_keys [] s = s
release_keys (key ∷ rest) s = release_keys rest (release_key key s)

-- `uint64(math.Floor(size / 1024))`
unfoldable pub floor_1024 : ℕ → ℕ
floor_1024 hundredths = hundredths / (100 * 1024)

abbrev pub with_map : Option (Dict String) → List String → Option (Dict String) × Bool
with_map none ks = (none, false)
with_map (some m) ks = (some (release_keys ks (m, false)).0, (release_keys ks (m, false)).1)

-- Steps 1 to 3: the new status, and whether it differs.
unfoldable pub next_status : VgInfo → List String → LocalVolumeStatus → LocalVolumeStatus × Bool
unfolding floor_1024 release_keys
next_status vg_info bound_keys s =
    let total_size = floor_1024 vg_info.vg_size in
    let free_size = floor_1024 vg_info.vg_free in
    let (pre_allocated, released_some) = with_map s.pre_allocated bound_keys in
    (
      record { total_size = total_size; free_size = free_size; pre_allocated = pre_allocated },
      not (total_size == s.total_size) || not (free_size == s.free_size) || released_some,
    )

module _ (H : Host) (unmarshal : String → Reply VgsOutput) (node_id : String) where
  unfoldable pub update_lv_status : LocalVolume → Io (Unit {0})
  update_lv_status lv h = (or_throw (H.update_lv_status h lv), updated_lv_status lv ∷ h)

  -- The status is sent only if it changed.
  unfoldable pub send_status : LocalVolume → LocalVolumeStatus × Bool → Io (Unit {0})
  unfolding update_lv_status
  send_status lv (s, changed) =
      if changed then update_lv_status (record lv { status = s }) else pure tt

  abbrev pub reconcile_with : Reply (List Pv) → LocalVolume → Option VgInfo → Io (Unit {0})
  reconcile_with all_pv lv none = pure tt
  reconcile_with all_pv lv (some info) = do
    my_node_pvcs ← lift (get_my_node_bounded_pvc_list node_id all_pv)
    send_status lv (next_status info (keys my_node_pvcs) lv.status)

  unfoldable pub reconciler : Reply (List Pv) → LocalVolume → Io (Unit {0})
  unfolding send_status get_vg_info next_status get_my_node_bounded_pvc_list
  reconciler all_pv lv = do
    vg_info ← get_vg_info H unmarshal vg_name
    reconcile_with all_pv lv vg_info

  -- `get_local_volume` is the lister.
  unfoldable pub reconcile :
      (String → String → Reply LocalVolume) → Reply (List Pv) → String → Io (Unit {0})
  unfolding reconciler split_meta_namespace_key
  reconcile get_local_volume all_pv key = elim (split_meta_namespace_key key) [
    | refused _ ↦ pure tt
    | got (namespace, name) ↦
        if not (str_eq name node_id) then pure tt else elim (get_local_volume namespace name) [
          | refused (missing_object _) ↦ pure tt
          | refused e ↦ throw e
          | got original ↦ reconciler all_pv original
        ]
  ]

-- registerNodeLocalVolumeStorage: a local volume of the node's name is created if there is none.
abbrev pub empty_local_volume : String → LocalVolume
empty_local_volume node_id = record {
  namespace = "";
  name = node_id;
  status = record { total_size = 0; free_size = 0; pre_allocated = none };
}

module _ (H : Host) where
  get_lv : String → String → Io (Reply LocalVolume)
  get_lv namespace name h = (ok (H.get_lv h namespace name), got_lv namespace name ∷ h)

  unfoldable pub create_lv : LocalVolume → Io (Option Error)
  create_lv lv h = (ok (H.create_lv h lv), created_lv lv ∷ h)

  -- The answer of the API server decides.
  abbrev pub registration : String → Reply LocalVolume → Io (Unit {0})
  registration node_id found = elim found [
    | refused (missing_object _) ↦ do create_lv (empty_local_volume node_id); pure tt
    | _ ↦ pure tt
  ]

  unfoldable pub register_node_local_volume_storage : String → Io (Unit {0})
  unfolding get_lv create_lv
  register_node_local_volume_storage node_id = do
    found ← get_lv "default" node_id
    registration node_id found

-- agentFilter, on an object that is a volume or another thing. The handler behind it enqueues
-- keys.
unfoldable pub agent_filter : String → Option Pv → Bool
agent_filter node_id none = false
agent_filter node_id (some pv) = is_pv_in_my_node pv node_id

-- The loops of enqueueLocalVolumePV: the keys that are enqueued, in order. The filter before
-- it (agentFilter) passes the volumes in the node alone.
unfoldable pub default_names : List String → List NamespacedName
default_names [] = []
default_names (node ∷ nodes) = record { namespace = "default"; name = node } ∷ default_names nodes

unfoldable pub expression_keys : Requirement → List NamespacedName
unfolding default_names
expression_keys v = if str_eq v.key topology_node_key then default_names v.values else []

unfoldable pub expressions_keys : List Requirement → List NamespacedName
unfolding expression_keys
expressions_keys [] = []
expressions_keys (v ∷ vs) = expression_keys v ++ expressions_keys vs

unfoldable pub terms_keys : List Term → List NamespacedName
unfolding expressions_keys
terms_keys [] = []
terms_keys (match ∷ terms) =
    elim match.match_expressions [ none ↦ [] | some vs ↦ expressions_keys vs ] ++ terms_keys terms

unfoldable pub enqueue_local_volume_pv : Pv → List NamespacedName
unfolding terms_keys
enqueue_local_volume_pv pv = elim pv.node_affinity [
  | none ↦ []
  | some affinity ↦ elim affinity.required [
    | none ↦ []
    | some selector ↦ elim selector.node_selector_terms [
      | none ↦ []
      | some terms ↦ terms_keys terms
    ]
  ]
]
