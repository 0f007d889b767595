-- ===== src/Agent/Enqueueing.antt =====
-- enqueueLocalVolumePV of pkg/agent/agent.go against IsPVInMyNode.
use kubernetes_local_volume.Base.{
  ◌≡◌, refl, ap, ◌∙◌, String, str_eq, Bool, false, ◌&&◌, ◌||◌, Option, none, some, List, [], ◌∷◌,
  ◌++◌, arith, Option-cases, inl, inr, elem, any,
}
use kubernetes_local_volume.Types.{names_node, selects_node, is_pv_in_my_node}
use kubernetes_local_volume.Types.Objects.{Pv, Requirement, Term, NamespacedName}
use kubernetes_local_volume.Agent.Reconciler.{
  default_names, expression_keys, expressions_keys, terms_keys, enqueue_local_volume_pv,
}

-- The key of the node's local volume, `default/<node>`, is among the keys.
abbrev pub enqueues : String → List NamespacedName → Bool
enqueues node_id = any λ key. str_eq key.namespace "default" && str_eq key.name node_id

enqueues-append :
    (n : String) (xs ys : List NamespacedName)
    → enqueues n (xs ++ ys) ≡ (enqueues n xs || enqueues n ys)
enqueues-append n [] ys = refl
enqueues-append n (x ∷ xs) ys = ground (arith, enqueues-append n xs ys)

enqueues-default_names :
    (n : String) (nodes : List String) → enqueues n (default_names nodes) ≡ elem n nodes
unfolding default_names
enqueues-default_names n [] = refl
enqueues-default_names n (x ∷ xs) = ap (◌||◌ (str_eq x n)) (enqueues-default_names n xs)

enqueues-expression :
    (n : String) (v : Requirement) → enqueues n (expression_keys v) ≡ names_node n v
unfolding expression_keys names_node
enqueues-expression n v = ground (arith, enqueues-default_names n v.values)

enqueues-expressions :
    (n : String) (vs : List Requirement) → enqueues n (expressions_keys vs) ≡ any (names_node n) vs
unfolding expressions_keys
enqueues-expressions n [] = refl
enqueues-expressions n (v ∷ vs) =
    enqueues-append n (expression_keys v) (expressions_keys vs)
    ∙ rw (enqueues-expression n v, enqueues-expressions n vs)

enqueues-term :
    (n : String) (o : Option (List Requirement))
    → enqueues n (elim o [ none ↦ [] | some vs ↦ expressions_keys vs ])
      ≡ elim o [ none ↦ false | some vs ↦ any (names_node n) vs ]
enqueues-term n none = refl
enqueues-term n (some vs) = enqueues-expressions n vs

enqueues-terms :
    (n : String) (terms : List Term) → enqueues n (terms_keys terms) ≡ any (selects_node n) terms
unfolding terms_keys selects_node
enqueues-terms n [] = refl
enqueues-terms n (t ∷ ts) =
    enqueues-append n (elim t.match_expressions [ none ↦ [] | some vs ↦ expressions_keys vs ])
      (terms_keys ts)
    ∙ rw (enqueues-term n t.match_expressions, enqueues-terms n ts)

-- A change of a volume enqueues the key of a node's local volume, in the namespace `default` and with the
-- name of the node, just when the volume is in that node.
pub enqueues-is_pv_in_my_node :
    (pv : Pv) (node_id : String)
    → enqueues node_id (enqueue_local_volume_pv pv) ≡ is_pv_in_my_node pv node_id
unfolding enqueue_local_volume_pv is_pv_in_my_node
enqueues-is_pv_in_my_node pv node_id = elim (Option-cases pv.node_affinity) [
  | inl e ↦ rw (e, enqueue_local_volume_pv, is_pv_in_my_node) refl
  | inr (a, has_affinity) ↦
      rw (has_affinity, enqueue_local_volume_pv, is_pv_in_my_node)
        (elim (Option-cases a.required) [
          | inl e ↦ rw e refl
          | inr (s, has_selector) ↦ rw has_selector (elim (Option-cases s.node_selector_terms) [
            | inl e ↦ rw e refl
            | inr (terms, has_terms) ↦ rw has_terms (enqueues-terms node_id terms)
          ])
        ])
]
