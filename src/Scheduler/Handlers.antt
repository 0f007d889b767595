-- ===== src/Scheduler/Handlers.antt =====
-- pkg/scheduler/predicate.go, prioritize.go and preemption.go.
use kubernetes_local_volume.Base.{
  ℕ, suc, ◌+◌, ◌-◌, ◌%◌, ◌^◌, String, Bool, true, false, ◌&&◌, ◌||◌, Option, List, [], ◌∷◌, ◌++◌,
  leb, ltb, ◌==◌, if◌then◌else◌,
}
use kubernetes_local_volume.Base.Dict.{Dict, insert}
use kubernetes_local_volume.Base.Int.{ℤ, pos, negsuc}
use kubernetes_local_volume.Fault.{Error, Outcome, ok, Reply, got, refused, deref}
use kubernetes_local_volume.Fault.Pure.{◌>>=◌}
use kubernetes_local_volume.Scheduler.{Cache, get_pod_local_volume_request_size, get_node_free_size}
use kubernetes_local_volume.Types.Objects.{Pod, Node}

-- schedulerapi.ExtenderArgs; the pod and the node list are pointers.
pub record ExtenderArgs : Type 0 where
  pub pod : Option Pod
  pub nodes : Option (List Node)

-- schedulerapi.ExtenderFilterResult
pub record FilterResult : Type 0 where
  pub nodes : List Node
  pub failed_nodes : Dict String
  pub error : String

-- schedulerapi.HostPriority
pub record HostPriority : Type 0 where
  pub host : String
  pub score : ℤ

-- What `predicate` answers for sizes already read.
unfoldable pub fits : ℕ → ℕ → Bool
fits request_size lv_free_size =
    if request_size == 0 then true else if leb request_size lv_free_size then true else false

module _ (C : Cache) where
  -- The error of `predicate` is always nil.
  unfoldable pub predicate : Pod → Node → Outcome (Reply Bool)
  unfolding fits
  predicate pod node = do
    request_size ← get_pod_local_volume_request_size C pod
    ok (got (fits request_size (get_node_free_size C node.name)))

  unfoldable pub record_answer : (Error → String) → FilterResult → Node → Reply Bool → FilterResult
  unfolding insert
  record_answer text r node (refused e) = record r {
    failed_nodes = insert node.name (text e) r.failed_nodes;
  }
  record_answer text r node (got true) = record r { nodes = r.nodes ++ node ∷ [] }
  record_answer text r node (got false) = r

  unfoldable pub filter_loop :
      (Error → String) → Option Pod → FilterResult → List Node → Outcome FilterResult
  unfolding record_answer predicate
  filter_loop text pod r [] = ok r
  filter_loop text pod r (node ∷ nodes) = do
    p ← deref pod
    answer ← predicate p node
    filter_loop text pod (record_answer text r node answer) nodes

  -- The pod is read once more for the log.
  unfoldable pub predicate_handler : (Error → String) → ExtenderArgs → Outcome FilterResult
  unfolding filter_loop
  predicate_handler text args = do
    nodes ← deref args.nodes
    result ← filter_loop text args.pod (record { nodes = []; failed_nodes = []; error = "" }) nodes
    logged ← deref args.pod
    ok result

-- `int64(u)` of a uint64.
unfoldable pub to_int64 : ℕ → ℤ
to_int64 u = if ltb u (2 ^ 63) then pos u else negsuc (2 ^ 64 - u - 1)

-- Go's `x % 10`, which has the sign of x.
unfoldable pub rem_10 : ℤ → ℤ
rem_10 (pos n) = pos (n % 10)
rem_10 (negsuc n) = if suc n % 10 == 0 then pos 0 else negsuc (suc n % 10 - 1)

unfoldable pub replace_zero : ℤ → ℤ
replace_zero (pos n) = if n == 0 then pos 10 else pos n
replace_zero (negsuc n) = negsuc n

unfoldable pub get_score_by_node_local_volume_size : ℤ → ℤ
unfolding rem_10 replace_zero
get_score_by_node_local_volume_size localvolume_size = replace_zero (rem_10 localvolume_size)

-- `draw n` stands for rand.Int63n(n). The bounds are the constants of the calls below.
unfoldable pub rand_int64_range : (ℕ → ℕ) → ℕ → ℕ → ℕ
rand_int64_range draw min max =
    if leb max min || min == 0 || max == 0 then max else draw (max - min) + min

-- The score of a node, by the pod's request and the node's free size.
unfoldable pub score_of : (ℕ → ℕ) → ℕ → ℕ → ℤ
unfolding rand_int64_range get_score_by_node_local_volume_size to_int64
score_of draw request_size free_size =
    if request_size == 0 && free_size == 0
    then pos (rand_int64_range draw 1 10)
    else if request_size == 0 && ltb 0 free_size
    then pos (rand_int64_range draw 1 5)
    else if ltb request_size free_size
    then get_score_by_node_local_volume_size (to_int64 free_size)
    else pos 0

module _ (C : Cache) (rand : ℕ → ℕ → ℕ) where
  -- The loop over the nodes from index `i` on; `rand i n` is the draw below n that node i makes.
  unfoldable pub priority_loop : ℕ → ℕ → List Node → List HostPriority
  unfolding score_of
  priority_loop request_size i [] = []
  priority_loop request_size i (node ∷ nodes) =
      record {
        host = node.name;
        score = score_of (rand i) request_size (get_node_free_size C node.name);
      }
      ∷ priority_loop request_size (i + 1) nodes

  unfoldable pub prioritize : Pod → List Node → Outcome (List HostPriority)
  unfolding priority_loop
  prioritize pod nodes = do
    request_size ← get_pod_local_volume_request_size C pod
    ok (priority_loop request_size 0 nodes)

  unfoldable pub prioritize_handler : ExtenderArgs → Outcome (List HostPriority)
  unfolding prioritize
  prioritize_handler args = do pod ← deref args.pod; nodes ← deref args.nodes; prioritize pod nodes

-- schedulerapi.ExtenderPreemptionArgs and -Result, with victims by node name.
pub record PreemptionArgs : Type 0 where
  pub pod : Option Pod
  pub victims : Dict (List Pod)
  pub meta_victims : Dict (List String)

unfoldable pub preemption : Pod → Dict (List Pod) → Dict (List String) → Dict (List String)
preemption pod victims meta_victims = []

unfoldable pub preemption_handler : PreemptionArgs → Outcome (Dict (List String))
unfolding preemption
preemption_handler args = do
  pod ← deref args.pod
  ok (preemption pod args.victims args.meta_victims)
