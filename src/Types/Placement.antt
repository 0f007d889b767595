-- ===== src/Types/Placement.antt =====
-- IsPVInMyNode of pkg/common/types/types.go against a description by membership.
use mathlib.Core.Bool.{false≢true}
use kubernetes_local_volume.Base.{
  String, str_eq, eq_iff, eq_refl, ◌≡◌, ◌↔◌, subst, true, some, List, arith, In, any-In, In-any,
  Option-cases, inl, inr,
}
use kubernetes_local_volume.Types.{topology_node_key, names_node, selects_node, is_pv_in_my_node}
use kubernetes_local_volume.Types.Objects.{Pv, NodeAffinity, NodeSelector, Term, Requirement}

-- The expression is about the topology key, and the node is one of its values.
pub record Names (node_id : String) (expression : Requirement) : Type 0 where
  pub key_is : expression.key ≡ topology_node_key
  pub value_in : In node_id expression.values

-- The volume's node affinity has a term with an expression that names the node.
pub record Selects (pv : Pv) (node_id : String) : Type 0 where
  pub affinity : NodeAffinity
  pub selector : NodeSelector
  pub terms : List Term
  pub term : Term
  pub expressions : List Requirement
  pub expression : Requirement
  pub has_affinity : pv.node_affinity ≡ some affinity
  pub has_selector : affinity.required ≡ some selector
  pub has_terms : selector.node_selector_terms ≡ some terms
  pub term_in : In term terms
  pub has_expressions : term.match_expressions ≡ some expressions
  pub expression_in : In expression expressions
  pub names : Names node_id expression

names_node-Names :
    (node_id : String) (v : Requirement) → names_node node_id v ≡ true → Names node_id v
unfolding names_node
names_node-Names node_id v h =
    let (value, i, same) = any-In (λ t. str_eq t node_id) v.values (ground arith) in
    record {
      key_is = (eq_iff v.key topology_node_key).0 (ground arith);
      value_in = subst (λ n. In n v.values) ((eq_iff value node_id).0 same) i;
    }

Names-names_node :
    (node_id : String) (v : Requirement) → Names node_id v → names_node node_id v ≡ true
unfolding names_node
Names-names_node node_id v n =
    rw ((eq_iff v.key topology_node_key).1 n.key_is) (In-any _ _ n.value_in (eq_refl node_id))

Selects-is_pv_in_my_node :
    (pv : Pv) (node_id : String) → Selects pv node_id → is_pv_in_my_node pv node_id ≡ true
unfolding is_pv_in_my_node
Selects-is_pv_in_my_node pv node_id s =
    rw (s.has_affinity, is_pv_in_my_node)
      (rw (s.has_selector, is_pv_in_my_node)
        (rw (s.has_terms, is_pv_in_my_node) (In-any _ _ s.term_in chosen)))
  where
    chosen : selects_node node_id s.term ≡ true
    chosen =
        rw (s.has_expressions, selects_node)
          (In-any _ _ s.expression_in (Names-names_node node_id s.expression s.names))

selects_node-Names :
    (node_id : String) (term : Term)
    → selects_node node_id term ≡ true
    → (expressions : List Requirement) × (term.match_expressions ≡ some expressions)
      × ((v : Requirement) × In v expressions × Names node_id v)
unfolding selects_node
selects_node-Names node_id term h = elim (Option-cases term.match_expressions) [
  | inl e ↦ absurd (false≢true (rw (e, selects_node) at h))
  | inr (expressions, e) ↦
      let (v, i, q) = any-In _ expressions (rw (e, selects_node) at h) in
      (expressions, e, (v, i, names_node-Names node_id v q))
]

is_pv_in_my_node-Selects :
    (pv : Pv) (node_id : String) → is_pv_in_my_node pv node_id ≡ true → Selects pv node_id
unfolding is_pv_in_my_node
is_pv_in_my_node-Selects pv node_id h = elim (Option-cases pv.node_affinity) [
  | inl e ↦ absurd (false≢true (rw (e, is_pv_in_my_node) at h))
  | inr (affinity, has_affinity) ↦
      let h1 = rw (has_affinity, is_pv_in_my_node) at h in
      elim (Option-cases affinity.required) [
        | inl e ↦ absurd (false≢true (rw (e, is_pv_in_my_node) at h1))
        | inr (selector, has_selector) ↦
            let h2 = rw (has_selector, is_pv_in_my_node) at h1 in
            elim (Option-cases selector.node_selector_terms) [
              | inl e ↦ absurd (false≢true (rw (e, is_pv_in_my_node) at h2))
              | inr (terms, has_terms) ↦
                  let (term, i, q) = any-In _ terms (rw (has_terms, is_pv_in_my_node) at h2) in
                  let (expressions, e, (v, j, n)) = selects_node-Names node_id term q in
                  record {
                    affinity = affinity;
                    selector = selector;
                    terms = terms;
                    term = term;
                    expressions = expressions;
                    expression = v;
                    has_affinity = has_affinity;
                    has_selector = has_selector;
                    has_terms = has_terms;
                    term_in = i;
                    has_expressions = e;
                    expression_in = j;
                    names = n;
                  }
            ]
      ]
]

-- A volume is in a node just when its node affinity has a term with an expression on the topology
-- key whose values hold the node.
pub is_pv_in_my_node_iff :
    (pv : Pv) (node_id : String) → (is_pv_in_my_node pv node_id ≡ true) ↔ Selects pv node_id
is_pv_in_my_node_iff pv node_id =
    (is_pv_in_my_node-Selects pv node_id, Selects-is_pv_in_my_node pv node_id)
