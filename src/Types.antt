-- ===== src/Types.antt =====
-- pkg/common/types/types.go and the string slices of pkg/common/utils/util.go, over the parts of
-- the Kubernetes objects that the program reads (Types/Objects).
pub mod Objects
pub mod Keys
pub mod Placement
pub mod Slices
use kubernetes_local_volume.Base.{
  String, ◌<>◌, str_eq, split, Bool, true, false, ◌&&◌, ◌||◌, Option, none, some, List, [], ◌∷◌,
  ◌++◌, any, elem, if◌then◌else◌,
}
use Objects.{Pv, NodeAffinity, NodeSelector, Term, Requirement}

abbrev pub driver_name : String
driver_name = "local.volume.csi.kubernetes.io"

abbrev pub version : String
version = "0.0.1"

abbrev pub topology_node_key : String
topology_node_key = "topology.local.volume.csi/hostname"

abbrev pub vg_name : String
vg_name = "local-volume-csi"

abbrev pub nsenter_cmd : String
nsenter_cmd = "/nsenter --mount=/proc/1/ns/mnt"

abbrev pub local_volume_gc_tag : String
local_volume_gc_tag = "finalizers.localvolume.kubernetes.io/gc"

abbrev pub device_chars : List String
device_chars =
    "b" ∷ "c" ∷ "d" ∷ "e" ∷ "f" ∷ "g" ∷ "h" ∷ "i" ∷ "j" ∷ "k" ∷ "l" ∷ "m" ∷ "n" ∷ "o" ∷ "p" ∷ "q"
    ∷ "r" ∷ "s" ∷ "t" ∷ "u" ∷ "v" ∷ "w" ∷ "x" ∷ "y" ∷ "z" ∷ []

unfoldable pub make_pvc_key : String → String → String
make_pvc_key namespace name = namespace <> "/" <> name

abbrev two_parts : List String → String × String
two_parts (a ∷ b ∷ []) = (a, b)
two_parts _ = ("", "")

unfoldable pub split_pvc_key : String → String × String
unfolding split
split_pvc_key key = two_parts (split b'/' key)

-- The body of the innermost loops: some value of the requirement is the node.
unfoldable pub names_node : String → Requirement → Bool
names_node node_id v = str_eq v.key topology_node_key && elem node_id v.values

unfoldable pub selects_node : String → Term → Bool
unfolding names_node
selects_node node_id match = elim match.match_expressions [
  | none ↦ false
  | some expressions ↦ any (names_node node_id) expressions
]

unfoldable pub is_pv_in_my_node : Pv → String → Bool
unfolding selects_node
is_pv_in_my_node pv node_id = elim pv.node_affinity [
  | none ↦ false
  | some affinity ↦ elim affinity.required [
    | none ↦ false
    | some selector ↦ elim selector.node_selector_terms [
      | none ↦ false
      | some terms ↦ any (selects_node node_id) terms
    ]
  ]
]

unfoldable pub slice_contains_string : List String → String → Bool
slice_contains_string [] s = false
slice_contains_string (item ∷ slice) s =
    if str_eq item s then true else slice_contains_string slice s

slice_remove_onto : List String → List String → String → List String
slice_remove_onto result [] s = result
slice_remove_onto result (item ∷ slice) s =
    slice_remove_onto (if str_eq item s then result else result ++ item ∷ []) slice s

unfoldable pub slice_remove_string : List String → String → List String
unfolding slice_remove_onto
slice_remove_string slice s = slice_remove_onto [] slice s
