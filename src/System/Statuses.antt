-- ===== src/System/Statuses.antt =====
-- The status of a node's local volume, from the registration (pkg/agent/agent.go) on, as binds
-- (pkg/scheduler/bind.go) and the agent's reconciler (pkg/agent/agent_reconciler.go) change it.
use kubernetes_local_volume.Base.{
  ℕ, ◌+◌, ◌%◌, ◌<◌, ◌≡◌, ◌≢◌, refl, ap, ◌∙◌, String, eq_iff, Option, none, some, List, [], ◌∷◌,
  arith, All, Bool, Bool-cases, inl, inr, false,
}
use kubernetes_local_volume.Base.Dict.{Dict, lookup, insert, erase, has, keys, values}
use kubernetes_local_volume.Fault.{ok, got}
use kubernetes_local_volume.Fault.Pure.{◌>>=◌}
use kubernetes_local_volume.Scheduler.{
  Cache, namespace_default, uint64_mod, get_pod_local_volume_pvc_names,
  get_pod_local_volume_request_size, preallocate_loop, status_free_size, get_node_free_size,
}
use kubernetes_local_volume.Scheduler.Handlers.{fits, predicate}
use kubernetes_local_volume.Scheduler.Binding.{mark_all, preallocate, made_map}
use kubernetes_local_volume.Scheduler.Preallocation.{
  Blank, pvc_names-Blank, NoBlankClaim, key_size-blank, preallocated_keys-made_map,
}
use kubernetes_local_volume.Agent.Reconciler.{
  empty_local_volume, release_key, release_keys, with_map, next_status,
}
use kubernetes_local_volume.Lvm.{VgInfo}
use kubernetes_local_volume.Types.Objects.{Pod, Node, LocalVolume, LocalVolumeStatus}

-- A bind of a pod, with its caches, and a reconciliation, with what it read.
pub data Change (s : LocalVolumeStatus) : LocalVolumeStatus → Type 0 where
  reserves :
      (C : Cache) (pod : Pod) (names : Dict String) (namespace name : String)
      → get_pod_local_volume_pvc_names C pod ≡ ok names
      → Change s
          (preallocate names (record { namespace = namespace; name = name; status = s })).status
  syncs : (info : VgInfo) (bound_keys : List String) → Change s (next_status info bound_keys s).0

pub data Evolves : LocalVolumeStatus → Type 0 where
  registered : (node_id : String) → Evolves (empty_local_volume node_id).status
  changed : {s t : LocalVolumeStatus} → Evolves s → Change s t → Evolves t

insert-keys :
    (k v : String) (m : Dict String)
    → Blank k
    → All Blank (keys m)
    → All Blank (keys (insert k v m))
unfolding insert
insert-keys k v [] e b = (e, tt)
insert-keys k v ((j, w) ∷ m) e b = ground (arith, insert-keys k v m)

mark_all-keys :
    (vs : List String) (m : Dict String)
    → All Blank vs
    → All Blank (keys m)
    → All Blank (keys (mark_all vs m))
unfolding mark_all
mark_all-keys [] m e b = b
mark_all-keys (v ∷ vs) m e b = mark_all-keys vs (insert v "" m) e.1 (insert-keys v "" m e.0 b)

erase-keys : (k : String) (m : Dict String) → All Blank (keys m) → All Blank (keys (erase k m))
unfolding erase
erase-keys k [] b = tt
erase-keys k ((j, w) ∷ m) b = ground (arith, erase-keys k m)

release_keys-keys :
    (ks : List String) (s : Dict String × Bool)
    → All Blank (keys s.0)
    → All Blank (keys (release_keys ks s).0)
unfolding release_keys release_key
release_keys-keys [] s b = b
release_keys-keys (k ∷ ks) s b =
    release_keys-keys ks (release_key k s) (elim (Bool-cases (has k s.0)) [
      | inl held ↦ rw held (erase-keys k s.0 b)
      | inr free ↦ rw free b
    ])

with_map-keys :
    (o : Option (Dict String)) (ks : List String)
    → All Blank (keys (made_map o))
    → All Blank (keys (made_map (with_map o ks).0))
with_map-keys none ks b = tt
with_map-keys (some m) ks b = release_keys-keys ks (m, false) b

-- No key but the empty one is preallocated.
abbrev pub NoReservation : LocalVolumeStatus → Type 0
NoReservation s = All Blank (keys (made_map s.pre_allocated))

Change-NoReservation : {s t : LocalVolumeStatus} → Change s t → NoReservation s → NoReservation t
unfolding preallocate next_status
Change-NoReservation {s} (reserves C pod names namespace name named) b =
    mark_all-keys (values names) (made_map s.pre_allocated) (pvc_names-Blank C pod names named) b
Change-NoReservation {s} (syncs info ks) b = with_map-keys s.pre_allocated ks b

Evolves-NoReservation : {s : LocalVolumeStatus} → Evolves s → NoReservation s
Evolves-NoReservation (registered node_id) = tt
Evolves-NoReservation (changed e c) = Change-NoReservation c (Evolves-NoReservation e)

lookup-Blank : (k : String) (m : Dict String) → All Blank (keys m) → k ≢ "" → lookup k m ≡ none
unfolding lookup
lookup-Blank k [] b filled = refl
lookup-Blank k ((j, w) ∷ m) b filled = ground (arith, eq_iff j k, lookup-Blank k m)

preallocate_loop-Blank :
    (C : Cache) (size : ℕ) (ks : List String)
    → NoBlankClaim C
    → size < uint64_mod
    → All Blank ks
    → preallocate_loop C size ks ≡ size
unfolding preallocate_loop
preallocate_loop-Blank C size [] n small b = refl
preallocate_loop-Blank C size (k ∷ ks) n small b = rw b.0 (
    rw (key_size-blank C n)
      (preallocate_loop-Blank C ((size + 0) % uint64_mod) ks n (omega arith) b.1 ∙ omega arith))

status_free_size-Blank :
    (C : Cache) (lv : LocalVolume)
    → NoBlankClaim C
    → NoReservation lv.status
    → lv.status.free_size < uint64_mod
    → status_free_size C lv ≡ lv.status.free_size
unfolding status_free_size
status_free_size-Blank C lv n b word = rw (preallocated_keys-made_map lv.status.pre_allocated) (
    rw (preallocate_loop-Blank C 0 (keys (made_map lv.status.pre_allocated)) n (omega arith) b)
      (omega arith))

node_free_size-Blank :
    (C : Cache) (name : String) (lv : LocalVolume)
    → C.get_local_volume namespace_default name ≡ got lv
    → NoBlankClaim C
    → NoReservation lv.status
    → lv.status.free_size < uint64_mod
    → get_node_free_size C name ≡ lv.status.free_size
unfolding get_node_free_size
node_free_size-Blank C name lv at_node n b word =
    rw (at_node, get_node_free_size) (status_free_size-Blank C lv n b word)

-- However often pods are bound and the agent reconciles, and with whatever caches, the status of a
-- node's local volume never records a claim, and the filter answers of the node as if nothing were
-- preallocated: it compares the request with the raw free size. (No claim has an empty name in an empty
-- namespace, and the free size is a uint64.)
pub Evolves-predicate :
    (C : Cache) (pod : Pod) (node : Node) (lv : LocalVolume) (key : String)
    → Evolves lv.status
    → C.get_local_volume namespace_default node.name ≡ got lv
    → NoBlankClaim C
    → lv.status.free_size < uint64_mod
    → key ≢ ""
    → (lookup key (made_map lv.status.pre_allocated) ≡ none)
      × (predicate C pod node ≡ (
          get_pod_local_volume_request_size C pod >>= λ request.
          ok (got (fits request lv.status.free_size))))
unfolding predicate
Evolves-predicate C pod node lv key e at_node blank word filled =
    let b = Evolves-NoReservation e in
    (
      lookup-Blank key (made_map lv.status.pre_allocated) b filled,
      ap
          (λ free.
            get_pod_local_volume_request_size C pod >>= λ request. ok (got (fits request free)))
          (node_free_size-Blank C node.name lv at_node blank b word),
    )
