-- ===== src/Driver/Services.antt =====
-- pkg/driver/controllerserver.go and identityserver.go.
use kubernetes_local_volume.Base.{
  ℕ, String, str_eq, Bool, true, Option, none, some, List, [], ◌∷◌, if◌then◌else◌,
}
use kubernetes_local_volume.Base.Dict.{Dict, lookup}
use kubernetes_local_volume.Fault.{Error, status, invalid_argument, unavailable, Outcome, ok, fail}
use kubernetes_local_volume.Types.{topology_node_key}

-- csi.TopologyRequirement, each topology by its segments.
pub record TopologyRequirement : Type 0 where
  pub preferred : List (Dict String)
  pub requisite : List (Dict String)

-- csi.CreateVolumeRequest; the capabilities are a slice that may be nil.
pub record CreateRequest : Type 0 where
  pub name : String
  pub volume_capabilities : Option (List String)
  pub required_bytes : ℕ
  pub parameters : Dict String
  pub accessibility_requirements : Option TopologyRequirement

-- csi.Volume
pub record CreatedVolume : Type 0 where
  pub volume_id : String
  pub capacity_bytes : ℕ
  pub volume_context : Dict String
  pub accessible_topology : List (Dict String)

-- One loop of pickNodeID: the node of the first topology that has one.
unfoldable pub first_node : List (Dict String) → Option String
first_node [] = none
first_node (segments ∷ topologies) = elim (lookup topology_node_key segments) [
  | some node_id ↦ some node_id
  | none ↦ first_node topologies
]

unfoldable pub pick_node_id : Option TopologyRequirement → String
unfolding first_node
pick_node_id none = ""
pick_node_id (some requirement) = elim (first_node requirement.preferred) [
  | some node_id ↦ node_id
  | none ↦ elim (first_node requirement.requisite) [ some node_id ↦ node_id | none ↦ "" ]
]

abbrev invalid {ℓ} : {A : Type ℓ} → String → Outcome A
invalid message = fail (status invalid_argument message)

-- `valid` is what ValidateControllerServiceRequest answers for the capability to create volumes.
unfoldable pub create_volume : Option Error → CreateRequest → Outcome CreatedVolume
unfolding pick_node_id
create_volume (some e) req = fail e
create_volume none req =
    if str_eq req.name ""
    then invalid "Volume Name cannot be empty"
    else elim req.volume_capabilities [
      | none ↦ invalid "Volume Capabilities cannot be empty"
      | some _ ↦
          let node_id = pick_node_id req.accessibility_requirements in
          if str_eq node_id ""
          then invalid "NodeID cannot be empty"
          else ok (record {
            volume_id = req.name;
            capacity_bytes = req.required_bytes;
            volume_context = req.parameters;
            accessible_topology = ((topology_node_key, node_id) ∷ []) ∷ [];
          })
    ]

-- DeleteVolume does nothing.
pub delete_volume : Outcome (Unit {0})
delete_volume = ok tt

-- ControllerExpandVolume: the size asked for, and that the node has to expand too.
unfoldable pub controller_expand_volume : ℕ → Outcome (ℕ × Bool)
controller_expand_volume required_bytes = ok (required_bytes, true)

-- GetPluginInfo, by the driver's name and version.
unfoldable pub get_plugin_info : String → String → Outcome (String × String)
get_plugin_info driver_name driver_version =
    if str_eq driver_name ""
    then fail (status unavailable "Driver name not configured")
    else if str_eq driver_version ""
    then fail (status unavailable "Driver is missing version")
    else ok (driver_name, driver_version)

pub probe : Outcome (Unit {0})
probe = ok tt

pub data PluginCapability : Type 0 where
  controller_service volume_accessibility_constraints volume_expansion_offline : PluginCapability

pub get_plugin_capabilities : List PluginCapability
get_plugin_capabilities =
    controller_service ∷ volume_accessibility_constraints ∷ volume_expansion_offline ∷ []
