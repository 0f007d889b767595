-- ===== src/Driver/Start.antt =====
-- NewLocalVolumeDriver (pkg/driver/driver.go), and NewNodeServer (pkg/driver/nodeserver.go) up to the
-- client of the API server.
use kubernetes_local_volume.Base.{
  String, str_eq, ◌≡◌, refl, Option, none, some, List, [], ◌∷◌, In, here, false,
}
use kubernetes_local_volume.Fault.{Error, Reply, Outcome, ok, deref, outcome_of}
use kubernetes_local_volume.Fault.Pure.{◌>>=◌}
use kubernetes_local_volume.Driver.Services.{
  CreateRequest, CreatedVolume, create_volume, get_plugin_info,
}

-- csi.ControllerServiceCapability_RPC_Type, and the access mode, as far as they are named.
pub data Rpc : Type 0 where
  create_delete_volume publish_unpublish_volume expand_volume : Rpc

pub data AccessMode : Type 0 where
  multi_node_multi_writer : AccessMode

-- What is called of csi-common, whose NewCSIDriver may give nil, and of client-go.
pub record CsiCommon (D F K : Type 0) : Type 0 where
  pub new_csi_driver : String → String → String → Option D
  pub add_capabilities : List Rpc → D → D
  pub add_access_modes : List AccessMode → D → D
  pub validate : D → Rpc → Option Error
  pub build_config_from_flags : Reply F
  pub kube_client_for : F → Reply K

-- What its documentation says: a capability that was added is valid, the access modes besides.
pub record CsiCommonLaws {D F K : Type 0} (S : CsiCommon D F K) : Type 0 where
  pub valid :
      (d : D) (rpcs : List Rpc) (modes : List AccessMode) (rpc : Rpc)
      → In rpc rpcs
      → S.validate (S.add_access_modes modes (S.add_capabilities rpcs d)) rpc ≡ none

pub record LocalVolumeDriver (D K : Type 0) : Type 0 where
  pub driver_name : String
  pub driver_version : String
  pub node_id : String
  pub endpoint : String
  pub csi_driver : D
  pub node_client : K

module _ {D F K : Type 0} (S : CsiCommon D F K) where
  -- The client of the node server; an error ends the process.
  unfoldable pub new_node_server : Outcome K
  new_node_server = do
    cfg ← outcome_of S.build_config_from_flags
    outcome_of (S.kube_client_for cfg)

  abbrev pub enabled : List Rpc
  enabled = create_delete_volume ∷ publish_unpublish_volume ∷ expand_volume ∷ []

  -- The driver, around what csi-common and client-go made.
  abbrev pub driver_with : String → String → String → String → D → K → LocalVolumeDriver D K
  driver_with driver_name driver_version node_id endpoint csi_driver client = record {
    driver_name = driver_name;
    driver_version = driver_version;
    node_id = node_id;
    endpoint = endpoint;
    csi_driver =
        S.add_access_modes (multi_node_multi_writer ∷ []) (S.add_capabilities enabled csi_driver);
    node_client = client;
  }

  unfoldable pub new_local_volume_driver :
      String → String → String → String → Outcome (LocalVolumeDriver D K)
  unfolding new_node_server
  new_local_volume_driver driver_name driver_version node_id endpoint = do
    csi_driver ← deref (S.new_csi_driver driver_name driver_version node_id)
    client ← new_node_server
    ok (driver_with driver_name driver_version node_id endpoint csi_driver client)

  -- CreateVolume and GetPluginInfo of the servers of a driver.
  abbrev pub create_volume_of : LocalVolumeDriver D K → CreateRequest → Outcome CreatedVolume
  create_volume_of driver req =
      create_volume (S.validate driver.csi_driver create_delete_volume) req

  -- A driver that is made with a name and a version says both, and refuses no request to create a
  -- volume for a capability that it does not have.
  pub new_local_volume_driver_serves :
      CsiCommonLaws S
      → (driver_name driver_version node_id endpoint : String) (d : D) (k : K)
      → S.new_csi_driver driver_name driver_version node_id ≡ some d
      → new_node_server ≡ ok k
      → str_eq driver_name "" ≡ false
      → str_eq driver_version "" ≡ false
      → (driver : LocalVolumeDriver D K) × (new_local_volume_driver driver_name driver_version
            node_id endpoint
          ≡ ok driver)
        × ((req : CreateRequest) → create_volume_of driver req ≡ create_volume none req)
        × (get_plugin_info driver.driver_name driver.driver_version
            ≡ ok (driver_name, driver_version))
  unfolding new_local_volume_driver get_plugin_info
  new_local_volume_driver_serves laws driver_name driver_version node_id endpoint d k made client
        named versioned =
      (
        driver_with driver_name driver_version node_id endpoint d k,
        rw (made, new_local_volume_driver) (rw client refl),
        λ req.
            rw
              (laws.valid d enabled (multi_node_multi_writer ∷ []) create_delete_volume (here refl))
              refl,
        rw (named, versioned) refl,
      )
