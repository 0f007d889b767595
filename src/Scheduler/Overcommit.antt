-- ===== src/Scheduler/Overcommit.antt =====
-- What the filter (pkg/scheduler/predicate.go) answers after a bind (bind.go).
use mathlib.Core.Path.{ap₂}
use kubernetes_local_volume.Base.{
  ℕ, ◌+◌, ◌%◌, ◌≡◌, refl, sym, ap, fun_ext, ◌∙◌, String, List, [], ◌∷◌,
}
use kubernetes_local_volume.Base.Dict.{Dict}
use kubernetes_local_volume.Fault.{ok, got}
use kubernetes_local_volume.Fault.Pure.{◌>>=◌}
use kubernetes_local_volume.Scheduler.{
  Cache, request_loop, add_claim, get_pod_local_volume_request_size, get_pod_local_volume_pvc_names,
  get_node_free_size, uint64_mod, local_claim, key_size, preallocate_loop, preallocated_keys,
  status_free_size,
}
use kubernetes_local_volume.Scheduler.Handlers.{fits, predicate}
use kubernetes_local_volume.Scheduler.Binding.{preallocate}
use kubernetes_local_volume.Scheduler.Preallocation.{NoBlankClaim, free_size-preallocate}
use kubernetes_local_volume.Types.Objects.{Pod, Node, Volume, LocalVolume}

-- The caches, with one local volume for every name.
abbrev pub with_volume : Cache → LocalVolume → Cache
with_volume C lv = record C { get_local_volume = λ namespace name. got lv }

request_loop-with_volume :
    (C : Cache) (lv kv : LocalVolume) (namespace : String) (result : ℕ) (volumes : List Volume)
    → request_loop (with_volume C lv) namespace result volumes
      ≡ request_loop (with_volume C kv) namespace result volumes
unfolding request_loop
request_loop-with_volume C lv kv namespace result [] = refl
request_loop-with_volume C lv kv namespace result (volume ∷ volumes) =
    ap (λ k. local_claim (with_volume C lv) namespace volume >>= k)
      (fun_ext λ claim.
        request_loop-with_volume C lv kv namespace (add_claim (with_volume C lv) result claim)
          volumes)

preallocate_loop-with_volume :
    (C : Cache) (lv : LocalVolume) (size : ℕ) (ks : List String)
    → preallocate_loop (with_volume C lv) size ks ≡ preallocate_loop C size ks
unfolding preallocate_loop key_size
preallocate_loop-with_volume C lv size [] = refl
preallocate_loop-with_volume C lv size (k ∷ ks) =
    preallocate_loop-with_volume C lv ((size + key_size C k) % uint64_mod) ks

free_size-with_volume :
    (C : Cache) (lv : LocalVolume) → status_free_size (with_volume C lv) lv ≡ status_free_size C lv
unfolding status_free_size
free_size-with_volume C lv =
    rw (preallocate_loop-with_volume C lv 0 (preallocated_keys lv.status.pre_allocated)) refl

-- A bind changes no answer of the filter: of any pod, the predicate says of the node with the status
-- that the bind sends what it said before. (No claim has an empty name in an empty namespace.)
pub bind-predicate :
    (C : Cache) (bound_pod other : Pod) (node : Node) (names : Dict String) (lv : LocalVolume)
    → get_pod_local_volume_pvc_names C bound_pod ≡ ok names
    → NoBlankClaim C
    → predicate (with_volume C (preallocate names lv)) other node
      ≡ predicate (with_volume C lv) other node
unfolding predicate get_node_free_size get_pod_local_volume_request_size
bind-predicate C bound_pod other node names lv named blank =
    ap₂ (λ requested free. requested >>= λ request. ok (got (fits request free)))
      (request_loop-with_volume C (preallocate names lv) lv other.namespace 0 other.volumes)
      (free_size-with_volume C (preallocate names lv)
        ∙ free_size-preallocate C bound_pod names lv blank named
        ∙ sym (free_size-with_volume C lv))
