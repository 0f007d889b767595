-- ===== src/Tests/Scheduling.antt =====
-- The scheduler's extender and the keys, sizes and slices that it shares with the other parts.
use mathlib.Core.List.{Permᴰ}
use kubernetes_local_volume.Base.{
  All, ℕ, ◌+◌, ◌≡◌, ◌≢◌, ◌≤◌, ◌↔◌, refl, String, true, some, List, [], ◌∷◌, arith, leb, ◌==◌, ◌||◌,
  select,
}
use kubernetes_local_volume.Base.Int.{pos}
use kubernetes_local_volume.Fault.{missing_object, ok, got}
use kubernetes_local_volume.Host.{updated_lv_status, bound_pod}
use kubernetes_local_volume.Types.{make_pvc_key, split_pvc_key, is_pv_in_my_node}
use kubernetes_local_volume.Types.Objects.{LocalVolume, bound}
use kubernetes_local_volume.Types.Keys.{has_code, split_pvc_key-make_pvc_key}
use kubernetes_local_volume.Types.Placement.{Selects, is_pv_in_my_node_iff}
use kubernetes_local_volume.Scheduler.{
  get_node_free_size, get_pod_local_volume_request_size, get_pod_local_volume_pvc_names,
  status_free_size, key_size,
}
use kubernetes_local_volume.Scheduler.Handlers.{
  HostPriority, prioritize_handler, predicate, predicate_handler, score_of,
}
use kubernetes_local_volume.Scheduler.Binding.{BindingArgs, bind_handler, preallocate}
use kubernetes_local_volume.Scheduler.Sizes.{status_free_size-perm, key_total}
use kubernetes_local_volume.Scheduler.Admission.{
  admits, predicate-no_overcommit, predicate-wraps, predicate_handler-select,
}
use kubernetes_local_volume.Scheduler.Scores.{
  InRange, hosts, score_of_range, prioritize_handler_answer,
}
use kubernetes_local_volume.Scheduler.Preallocation.{bind_handler_order}
use kubernetes_local_volume.Scheduler.Overcommit.{with_volume, bind-predicate}
use kubernetes_local_volume.Tests.Data.{host, pod, node, volume_with, cache_with, volume_in}

abbrev held : List String
held = "web/data" ∷ []

abbrev roomy : LocalVolume
roomy = volume_with 10 held

abbrev tight : LocalVolume
tight = volume_with 1 held

pod_requests : (lv : LocalVolume) → get_pod_local_volume_request_size (cache_with lv) pod ≡ ok 3
unfolding get_pod_local_volume_request_size
pod_requests lv = refl

held_size : (lv : LocalVolume) → key_total (cache_with lv) held ≡ 3
unfolding key_size
held_size lv = refl

predicate-no_overcommit_example :
    predicate (cache_with roomy) pod node
    ≡ ok (got (3 == 0 || leb (3 + key_total (cache_with roomy) held) 10))
predicate-no_overcommit_example =
    predicate-no_overcommit (cache_with roomy) pod node roomy 3 (pod_requests roomy) refl
      (omega arith) (omega (arith, held_size roomy))

predicate-wraps_example : predicate (cache_with tight) pod node ≡ ok (got true)
predicate-wraps_example =
    predicate-wraps (cache_with tight) pod node tight 3 (pod_requests tight) refl
      (omega (arith, held_size tight)) (omega (arith, held_size tight))
      (omega (arith, held_size tight))

predicate_handler-select_example :
    predicate_handler
      (cache_with roomy)
      (λ e. "error")
      (record { pod = some pod; nodes = some (node ∷ []) })
    ≡ ok (record {
      nodes = select (admits (cache_with roomy) 3) (node ∷ []);
      failed_nodes = [];
      error = "";
    })
predicate_handler-select_example =
    predicate_handler-select (cache_with roomy) (λ e. "error") pod (node ∷ []) 3
      (pod_requests roomy)

abbrev draw_least : ℕ → ℕ
draw_least n = 0

score_of_range_example :
    InRange (score_of draw_least 3 7)
    × ((score_of draw_least 3 7 ≡ pos 0) ↔ ((◌≢◌ {A = ℕ} 3 0) × (7 ≤ 3)))
score_of_range_example = score_of_range draw_least 3 7 (λ n h. h) (omega arith)

free_size : get_node_free_size (cache_with roomy) "n1" ≡ 7
unfolding get_node_free_size
free_size = refl

prioritize_handler_answer_example :
    (ps : List HostPriority) × (prioritize_handler
        (cache_with roomy)
        (λ i n. 0)
        (record { pod = some pod; nodes = some (node ∷ []) })
      ≡ ok ps)
    × (hosts ps ≡ "n1" ∷ [])
    × All (λ p. InRange p.score) ps
prioritize_handler_answer_example =
    prioritize_handler_answer (cache_with roomy) (λ i n. 0) pod (node ∷ []) 3 (pod_requests roomy)
      (λ j n h. h) (omega (arith, free_size), tt)

pod_names :
    (lv : LocalVolume)
    → get_pod_local_volume_pvc_names (cache_with lv) pod ≡ ok (("web/data", "") ∷ [])
unfolding get_pod_local_volume_pvc_names
pod_names lv = refl

abbrev args : BindingArgs
args = record { pod_name = "server"; pod_namespace = "web"; node = "n1" }

abbrev fresh : LocalVolume
fresh = volume_with 10 []

bind_handler_order_example :
    let sent = preallocate (("web/data", "") ∷ []) fresh in
    bind_handler host (cache_with fresh) args [] ≡ (
      ok (record { error = "" }),
      bound_pod (record { namespace = "web"; name = "server" }) "n1" ∷ updated_lv_status sent ∷ [],
    )
bind_handler_order_example =
    bind_handler_order host (cache_with fresh) args [] pod (("web/data", "") ∷ []) fresh refl
      (pod_names fresh) refl

bind-predicate_example :
    predicate (with_volume (cache_with fresh) (preallocate (("web/data", "") ∷ []) fresh)) pod node
    ≡ predicate (with_volume (cache_with fresh) fresh) pod node
bind-predicate_example =
    bind-predicate (cache_with fresh) pod pod node (("web/data", "") ∷ []) fresh (pod_names fresh)
      (missing_object "", refl)

status_free_size-perm_example :
    status_free_size (cache_with fresh) (volume_with 10 ("web/data" ∷ "web/logs" ∷ []))
    ≡ status_free_size (cache_with fresh) (volume_with 10 ("web/logs" ∷ "web/data" ∷ []))
status_free_size-perm_example =
    status_free_size-perm (cache_with fresh) (volume_with 10 ("web/data" ∷ "web/logs" ∷ []))
      (volume_with 10 ("web/logs" ∷ "web/data" ∷ [])) refl ∣ Permᴰ.swap refl refl ∣₁

split_pvc_key-make_pvc_key_example : split_pvc_key (make_pvc_key "web" "data") ≡ ("web", "data")
unfolding has_code
split_pvc_key-make_pvc_key_example = split_pvc_key-make_pvc_key "web" "data" refl refl

is_pv_in_my_node_iff_example :
    (is_pv_in_my_node (volume_in bound) "n1" ≡ true) ↔ Selects (volume_in bound) "n1"
is_pv_in_my_node_iff_example = is_pv_in_my_node_iff (volume_in bound) "n1"

-- Two nodes that fit exactly and with room get the scores 0 and 7.
exact_fit_scores : (score_of draw_least 7 7 ≡ pos 0) × (score_of draw_least 3 7 ≡ pos 7)
unfolding score_of
exact_fit_scores = (refl, refl)
