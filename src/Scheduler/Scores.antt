-- ===== src/Scheduler/Scores.antt =====
-- The scores of pkg/scheduler/prioritize.go.
use kubernetes_local_volume.Base.{
  ℕ, ◌+◌, ◌^◌, ◌<◌, ◌≤◌, ◌≡◌, ◌≢◌, ◌↔◌, refl, ap, String, List, [], ◌∷◌, arith, All, some,
}
use kubernetes_local_volume.Base.Int.{ℤ, pos, negsuc}
use kubernetes_local_volume.Scheduler.{Cache, get_node_free_size, get_pod_local_volume_request_size}
use kubernetes_local_volume.Fault.{ok}
use kubernetes_local_volume.Scheduler.Handlers.{
  HostPriority, score_of, priority_loop, prioritize_handler,
}
use kubernetes_local_volume.Types.Objects.{Node, Pod}

-- A score that the scheduler accepts: a number from 0 to 10.
abbrev pub InRange : ℤ → Type 0
InRange (pos n) = n ≤ 10
InRange (negsuc n) = ⊥

-- What rand.Int63n is documented to do for a bound that is positive.
abbrev pub Draws : (ℕ → ℕ) → Type 0
Draws draw = (n : ℕ) → 0 < n → draw n < n

-- A score is between 0 and 10 if the free size is an int64; it is 0 just when the pod requests some
-- space and the node does not have more than that.
pub score_of_range :
    (draw : ℕ → ℕ) (request free : ℕ)
    → Draws draw
    → free < 2 ^ 63
    → InRange (score_of draw request free)
      × ((score_of draw request free ≡ pos 0) ↔ ((request ≢ 0) × (free ≤ request)))
unfolding score_of
score_of_range draw request free draws h =
    ground (arith, draws 9 (omega arith), draws 4 (omega arith))

abbrev pub hosts : List HostPriority → List String
hosts [] = []
hosts (p ∷ ps) = p.host ∷ hosts ps

abbrev pub names : List Node → List String
names [] = []
names (n ∷ ns) = n.name ∷ names ns

-- The priorities name the nodes, in their order.
hosts-priority_loop :
    (C : Cache) (rand : ℕ → ℕ → ℕ) (request i : ℕ) (nodes : List Node)
    → hosts (priority_loop C rand request i nodes) ≡ names nodes
unfolding priority_loop
hosts-priority_loop C rand request i [] = refl
hosts-priority_loop C rand request i (node ∷ nodes) =
    ap (◌∷◌ node.name) (hosts-priority_loop C rand request (i + 1) nodes)

scores-priority_loop :
    (C : Cache) (rand : ℕ → ℕ → ℕ) (request i : ℕ) (nodes : List Node)
    → ((j : ℕ) → Draws (rand j))
    → All (λ node. get_node_free_size C node.name < 2 ^ 63) nodes
    → All (λ p. InRange p.score) (priority_loop C rand request i nodes)
unfolding priority_loop
scores-priority_loop C rand request i [] draws small = tt
scores-priority_loop C rand request i (node ∷ nodes) draws (s, ss) = (
  (score_of_range (rand i) request (get_node_free_size C node.name) (draws i) s).0,
  scores-priority_loop C rand request (i + 1) nodes draws ss,
)

-- The answer to a request for priorities names the nodes of the request, in their order, and gives each
-- a score from 0 to 10, if the nodes' free sizes are int64.
pub prioritize_handler_answer :
    (C : Cache) (rand : ℕ → ℕ → ℕ) (pod : Pod) (nodes : List Node) (request : ℕ)
    → get_pod_local_volume_request_size C pod ≡ ok request
    → ((j : ℕ) → Draws (rand j))
    → All (λ node. get_node_free_size C node.name < 2 ^ 63) nodes
    → (ps : List HostPriority) × (prioritize_handler C rand
          (record { pod = some pod; nodes = some nodes })
        ≡ ok ps)
      × (hosts ps ≡ names nodes)
      × All (λ p. InRange p.score) ps
unfolding prioritize_handler
prioritize_handler_answer C rand pod nodes request requested draws small = (
  priority_loop C rand request 0 nodes,
  rw requested refl,
  hosts-priority_loop C rand request 0 nodes,
  scores-priority_loop C rand request 0 nodes draws small,
)
