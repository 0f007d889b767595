-- ===== src/Scheduler/Admission.antt =====
-- What the predicate of pkg/scheduler/predicate.go admits.
use kubernetes_local_volume.Base.{
  ℕ, ◌+◌, ◌<◌, ◌≤◌, ◌≡◌, refl, ap, ◌∙◌, String, Bool, true, some, List, [], ◌∷◌, ◌++◌, arith,
  select, ◌==◌, ◌||◌, Bool-cases, inl, inr, leb,
}
use mathlib.Core.List.{append-nil, append_assoc}
use kubernetes_local_volume.Fault.{Error, ok, got}
use kubernetes_local_volume.Scheduler.{
  Cache, uint64_mod, namespace_default, get_pod_local_volume_request_size, get_node_free_size,
  status_free_size, preallocated_keys,
}
use kubernetes_local_volume.Scheduler.Sizes.{key_total, preallocate_loop-total}
use kubernetes_local_volume.Scheduler.Handlers.{
  FilterResult, fits, predicate, filter_loop, predicate_handler,
}
use kubernetes_local_volume.Types.Objects.{Pod, Node, LocalVolume}

abbrev pub keys_of : LocalVolume → List String
keys_of lv = preallocated_keys lv.status.pre_allocated

free_size-sub :
    (C : Cache) (lv : LocalVolume)
    → lv.status.free_size < uint64_mod
    → key_total C (keys_of lv) ≤ lv.status.free_size
    → status_free_size C lv + key_total C (keys_of lv) ≡ lv.status.free_size
unfolding status_free_size
free_size-sub C lv word room = omega (arith, preallocate_loop-total C 0 (keys_of lv) (omega arith))

-- Where the free size of a node covers what is preallocated on it, the predicate admits a pod just
-- when it requests nothing, or its request and the preallocated sizes fit together.
pub predicate-no_overcommit :
    (C : Cache) (pod : Pod) (node : Node) (lv : LocalVolume) (request : ℕ)
    → get_pod_local_volume_request_size C pod ≡ ok request
    → C.get_local_volume namespace_default node.name ≡ got lv
    → lv.status.free_size < uint64_mod
    → key_total C (keys_of lv) ≤ lv.status.free_size
    → predicate C pod node
      ≡ ok (got (request == 0 || leb (request + key_total C (keys_of lv)) lv.status.free_size))
unfolding predicate get_node_free_size
predicate-no_overcommit C pod node lv request requested found word room =
    rw requested (rw (found, get_node_free_size) (ground (arith, free_size-sub C lv word room)))

free_size-wraps :
    (C : Cache) (lv : LocalVolume)
    → lv.status.free_size < key_total C (keys_of lv)
    → key_total C (keys_of lv) < uint64_mod
    → status_free_size C lv + key_total C (keys_of lv) ≡ uint64_mod + lv.status.free_size
unfolding status_free_size
free_size-wraps C lv over word =
    omega (arith, preallocate_loop-total C 0 (keys_of lv) (omega arith))

-- Where more is preallocated than is free, by less than 2 ^ 64 in all, the subtraction wraps round, and
-- the predicate admits every pod whose request is at most 2 ^ 64 less the shortfall.
pub predicate-wraps :
    (C : Cache) (pod : Pod) (node : Node) (lv : LocalVolume) (request : ℕ)
    → get_pod_local_volume_request_size C pod ≡ ok request
    → C.get_local_volume namespace_default node.name ≡ got lv
    → lv.status.free_size < key_total C (keys_of lv)
    → key_total C (keys_of lv) < uint64_mod
    → request + key_total C (keys_of lv) ≤ uint64_mod + lv.status.free_size
    → predicate C pod node ≡ ok (got true)
unfolding predicate get_node_free_size
predicate-wraps C pod node lv request requested found over word small =
    rw requested (rw (found, get_node_free_size) (ground (arith, free_size-wraps C lv over word)))

-- The nodes that the predicate takes for a request.
abbrev pub admits : Cache → ℕ → Node → Bool
admits C request node = request == 0 || leb request (get_node_free_size C node.name)

fits-admits : (request free : ℕ) → fits request free ≡ (request == 0 || leb request free)
unfolding fits
fits-admits request free = ground arith

predicate-admits :
    (C : Cache) (pod : Pod) (node : Node) (request : ℕ)
    → get_pod_local_volume_request_size C pod ≡ ok request
    → predicate C pod node ≡ ok (got (admits C request node))
unfolding predicate
predicate-admits C pod node request requested =
    rw requested (ap (λ b. ok (got b)) (fits-admits request (get_node_free_size C node.name)))

filter_loop-select :
    (C : Cache) (text : Error → String) (pod : Pod) (request : ℕ)
    → get_pod_local_volume_request_size C pod ≡ ok request
    → (r : FilterResult) (nodes : List Node)
    → filter_loop C text (some pod) r nodes
      ≡ ok (record r { nodes = r.nodes ++ select (admits C request) nodes })
unfolding filter_loop
filter_loop-select C text pod request requested r [] = rw append-nil
filter_loop-select C text pod request requested r (node ∷ nodes) =
    rw (predicate-admits C pod node request requested) (elim (Bool-cases (admits C request node)) [
      | inl takes ↦ rw takes (
          filter_loop-select C text pod request requested
            (record r { nodes = r.nodes ++ node ∷ [] }) nodes
          ∙ rw append_assoc)
      | inr leaves ↦ rw leaves (filter_loop-select C text pod request requested r nodes)
    ])

-- The filter answers with the nodes that the predicate admits, in the order of the request, with no
-- error text, and lists no node as failed.
pub predicate_handler-select :
    (C : Cache) (text : Error → String) (pod : Pod) (nodes : List Node) (request : ℕ)
    → get_pod_local_volume_request_size C pod ≡ ok request
    → predicate_handler C text (record { pod = some pod; nodes = some nodes })
      ≡ ok (record { nodes = select (admits C request) nodes; failed_nodes = []; error = "" })
unfolding predicate_handler
predicate_handler-select C text pod nodes request requested =
    rw (filter_loop-select C text pod request requested _ nodes) refl
