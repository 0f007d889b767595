-- ===== src/Scheduler/Sizes.antt =====
-- The sums of pkg/scheduler/utils.go: a pod's request over its claims, and the preallocated keys, over
-- which Go ranges in any order.
use mathlib.Core.Logic.{∥∥₁_elim}
use mathlib.Core.List.{Perm, Permᴰ}
use native.Mathlib.Nat.{ℕ_set, zero-add}
use kubernetes_local_volume.Base.{
  ℕ, ◌+◌, ◌%◌, ◌<◌, ◌≡◌, refl, ap, ◌∙◌, String, Option, none, some, List, [], ◌∷◌, map, arith,
}
use kubernetes_local_volume.Fault.{Outcome, ok, fail, panic}
use kubernetes_local_volume.Fault.Pure.{◌>>=◌}
use kubernetes_local_volume.Scheduler.{
  Cache, uint64_mod, local_claim, claim_size, add_claim, request_loop,
  get_pod_local_volume_request_size, key_size, preallocate_loop, preallocated_keys,
  status_free_size,
}
use kubernetes_local_volume.Types.Objects.{Pod, Pvc, Volume, LocalVolume}

abbrev pub sum : List ℕ → ℕ
sum [] = 0
sum (n ∷ ns) = n + sum ns

abbrev pub keep : Option Pvc → List Pvc → List Pvc
keep none claims = claims
keep (some pvc) claims = pvc ∷ claims

-- The claims of the volumes that the driver provisions, in order.
unfoldable pub local_claims : Cache → String → List Volume → Outcome (List Pvc)
local_claims C namespace [] = ok []
local_claims C namespace (volume ∷ volumes) = do
  claim ← local_claim C namespace volume
  claims ← local_claims C namespace volumes
  ok (keep claim claims)

abbrev pub total : Cache → List Pvc → ℕ
total C claims = sum (map (claim_size C) claims)

mod-add : (a b : ℕ) → (a % uint64_mod + b) % uint64_mod ≡ (a + b) % uint64_mod
mod-add a b = omega arith

request_step-total :
    (C : Cache) (result : ℕ) (claim : Outcome (Option Pvc)) (rest : Outcome (List Pvc))
    (loop : ℕ → Outcome ℕ)
    → ((r : ℕ) → r < uint64_mod → loop r ≡ (rest >>= λ cs. ok ((r + total C cs) % uint64_mod)))
    → result < uint64_mod
    → (claim >>= λ c. loop (add_claim C result c)) ≡ (
        (claim >>= λ c. rest >>= λ cs. ok (keep c cs)) >>= λ cs.
        ok ((result + total C cs) % uint64_mod))
unfolding add_claim
request_step-total C result (ok none) (ok cs) loop h b = h result b
request_step-total C result (ok (some pvc)) (ok cs) loop h b =
    h ((result + claim_size C pvc) % uint64_mod) (omega arith) ∙ ap ok (omega arith)
request_step-total C result (ok none) rest loop h b = ground (arith, h result b)
request_step-total C result (ok (some pvc)) rest loop h b =
    ground (arith, h ((result + claim_size C pvc) % uint64_mod) (omega arith))
request_step-total C result (fail e) rest loop h b = refl
request_step-total C result panic rest loop h b = refl

request_loop-total :
    (C : Cache) (namespace : String) (result : ℕ) (volumes : List Volume)
    → result < uint64_mod
    → request_loop C namespace result volumes
      ≡ (local_claims C namespace volumes >>= λ claims. ok ((result + total C claims) % uint64_mod))
unfolding request_loop local_claims
request_loop-total C namespace result [] h = ap ok (omega arith)
request_loop-total C namespace result (volume ∷ volumes) h =
    request_step-total C result (local_claim C namespace volume) (local_claims C namespace volumes)
      (λ r. request_loop C namespace r volumes) (λ r b. request_loop-total C namespace r volumes b)
      h

-- A pod's request is the sum of the sizes of its claims that the driver provisions, modulo 2 ^ 64.
-- It panics just when the walk over the claims does.
request_size-total :
    (C : Cache) (pod : Pod)
    → get_pod_local_volume_request_size C pod
      ≡ (local_claims C pod.namespace pod.volumes >>= λ claims. ok (total C claims % uint64_mod))
unfolding get_pod_local_volume_request_size
request_size-total C pod =
    simp zero-add at (request_loop-total C pod.namespace 0 pod.volumes (omega arith))

abbrev pub key_total : Cache → List String → ℕ
key_total C ks = sum (map (key_size C) ks)

pub preallocate_loop-total :
    (C : Cache) (size : ℕ) (ks : List String)
    → size < uint64_mod
    → preallocate_loop C size ks ≡ (size + key_total C ks) % uint64_mod
unfolding preallocate_loop
preallocate_loop-total C size [] h = omega arith
preallocate_loop-total C size (k ∷ ks) h =
    preallocate_loop-total C ((size + key_size C k) % uint64_mod) ks (omega arith) ∙ omega arith

Permᴰ-key_total : (C : Cache) {ks js : List String} → Permᴰ ks js → key_total C ks ≡ key_total C js
Permᴰ-key_total C Permᴰ.nil = refl
Permᴰ-key_total C (Permᴰ.cons e p) = omega (arith, ap (key_size C) e, Permᴰ-key_total C p)
Permᴰ-key_total C (Permᴰ.swap e f) = omega (arith, ap (key_size C) e, ap (key_size C) f)
Permᴰ-key_total C (Permᴰ.trans p q) = Permᴰ-key_total C p ∙ Permᴰ-key_total C q

-- The free size of a node is the same in whatever order the preallocated keys are ranged over.
pub status_free_size-perm :
    (C : Cache) (lv kv : LocalVolume)
    → lv.status.free_size ≡ kv.status.free_size
    → Perm (preallocated_keys lv.status.pre_allocated) (preallocated_keys kv.status.pre_allocated)
    → status_free_size C lv ≡ status_free_size C kv
unfolding status_free_size
status_free_size-perm C lv kv e p =
    let same =
      ∥∥₁_elim p
        (ℕ_set (key_total C (preallocated_keys lv.status.pre_allocated))
          (key_total C (preallocated_keys kv.status.pre_allocated)))
        (λ d. Permᴰ-key_total C d) in
    rw (
      e,
      preallocate_loop-total C 0 (preallocated_keys lv.status.pre_allocated) (omega arith),
      preallocate_loop-total C 0 (preallocated_keys kv.status.pre_allocated) (omega arith),
      same,
    )
