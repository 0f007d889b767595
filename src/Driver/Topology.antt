-- ===== src/Driver/Topology.antt =====
-- The node of a volume (pkg/driver/controllerserver.go).
use kubernetes_local_volume.Base.{
  ◌≡◌, ◌≢◌, refl, sym, String, str_eq, eq_iff, Bool, true, false, arith, if◌then◌else◌,
  Option-cases, inl, inr, List, [], ◌∷◌, ◌++◌, Option, none, some,
}
use kubernetes_local_volume.Base.Dict.{Dict, lookup}
use kubernetes_local_volume.Fault.{Error, ok, fail, ok-injective}
use kubernetes_local_volume.Types.{topology_node_key}
use kubernetes_local_volume.Driver.Services.{
  TopologyRequirement, CreateRequest, CreatedVolume, first_node, pick_node_id, create_volume,
}

first_node-append :
    (xs ys : List (Dict String))
    → first_node (xs ++ ys) ≡ elim (first_node xs) [ none ↦ first_node ys | some n ↦ some n ]
unfolding first_node
first_node-append [] ys = refl
first_node-append (x ∷ xs) ys = elim (Option-cases (lookup topology_node_key x)) [
  | inl e ↦ rw (e, first_node) (first_node-append xs ys)
  | inr (n, e) ↦ rw (e, first_node) refl
]

-- The topologies of a request, the preferred ones first.
abbrev pub topologies : Option TopologyRequirement → List (Dict String)
topologies none = []
topologies (some r) = r.preferred ++ r.requisite

abbrev pub or_empty : Option String → String
or_empty none = ""
or_empty (some n) = n

pick_node_id-first :
    (o : Option TopologyRequirement) → pick_node_id o ≡ or_empty (first_node (topologies o))
unfolding pick_node_id
pick_node_id-first none = refl
pick_node_id-first (some r) =
    rw (first_node-append r.preferred r.requisite) (elim (Option-cases (first_node r.preferred)) [
      | inl e ↦
          rw (e, pick_node_id)
            (elim (Option-cases (first_node r.requisite)) [
              | inl f ↦ rw (f, pick_node_id) refl
              | inr (n, f) ↦ rw (f, pick_node_id) refl
            ])
      | inr (n, e) ↦ rw (e, pick_node_id) refl
    ])

checked :
    {A : Type 0} (unnamed : Bool) (caps : Option (List String)) (nowhere : Bool) (made volume : A)
    (e f g : Error)
    → (if unnamed
        then fail e
        else elim caps [ none ↦ fail f | some _ ↦ if nowhere then fail g else ok made ])
      ≡ ok volume
    → (unnamed ≡ false) × (caps ≢ none) × (nowhere ≡ false) × (volume ≡ made)
checked true caps nowhere made volume e f g h = cc
checked false none nowhere made volume e f g h = cc
checked false (some c) true made volume e f g h = cc
checked false (some c) false made volume e f g h = (refl, λ x. cc, refl, sym (ok-injective h))

-- Where a volume is created, the request is valid for the driver and has a name and capabilities, and
-- the first topology with a node, of the preferred ones and then the requisite ones, has a node whose
-- name is not empty; the volume has the name and the size asked for, and that node alone.
pub create_volume_node :
    (valid : Option Error) (req : CreateRequest) (volume : CreatedVolume)
    → create_volume valid req ≡ ok volume
    → let node_id = or_empty (first_node (topologies req.accessibility_requirements)) in
      (valid ≡ none)
      × (req.name ≢ "")
      × (req.volume_capabilities ≢ none)
      × (node_id ≢ "")
      × (volume ≡ record {
        volume_id = req.name;
        capacity_bytes = req.required_bytes;
        volume_context = req.parameters;
        accessible_topology = ((topology_node_key, node_id) ∷ []) ∷ [];
      })
unfolding create_volume
create_volume_node (some e) req volume made = cc
create_volume_node none req volume made =
    let node_id = pick_node_id req.accessibility_requirements in
    let (named, caps, somewhere, e) =
      checked (str_eq req.name "") req.volume_capabilities (str_eq node_id "") _ volume _ _ _
        made in
    rw (← pick_node_id-first req.accessibility_requirements) (
      refl,
      λ f. ground (arith, eq_iff req.name ""),
      caps,
      λ f. ground (arith, eq_iff node_id ""),
      e,
    )
