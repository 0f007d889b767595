-- ===== src/Client/Typed.antt =====
-- The typed client of local volumes (pkg/client/clientset/versioned/typed/storage/v1alpha1/
-- localvolume.go). A request is its verb with the calls that build it, in order. A duration, and a
-- number of seconds, is an int64, given by its residue modulo 2^64.
pub mod Fake
use kubernetes_local_volume.Base.{
  ℕ, ◌*◌, ◌%◌, ◌^◌, String, Bool, true, Option, none, some, List, [], ◌∷◌,
}
use kubernetes_local_volume.Fault.{Error}
use kubernetes_local_volume.Types.Objects.{LocalVolume}
use kubernetes_local_volume.Agent.Reconciler.{empty_local_volume}

-- v1.ListOptions: the fields that the client reads or writes, and the others.
pub record ListOptions (R : Type 0) : Type 0 where
  pub timeout_seconds : Option ℕ
  pub watch : Bool
  pub others : R

-- The other types of the arguments.
pub record Arguments : Type 1 where
  pub GetOptions : Type 0
  pub Selection : Type 0
  pub DeleteOptions : Type 0
  pub PatchType : Type 0
  pub Data : Type 0

pub data Verb (P : Type 0) : Type 0 where
  get_verb post_verb put_verb delete_verb : Verb P
  patch_verb : P → Verb P

-- The calls of rest.Request: Namespace, Resource, Name, SubResource, VersionedParams, Timeout and Body.
pub data Call (T : Arguments) : Type 0 where
  in_namespace : String → Call T
  of_resource : String → Call T
  named : String → Call T
  of_sub_resource : List String → Call T
  with_get_options : T.GetOptions → Call T
  with_list_options : ListOptions T.Selection → Call T
  with_timeout : ℕ → Call T
  with_volume : LocalVolume → Call T
  with_delete_options : T.DeleteOptions → Call T
  with_data : T.Data → Call T

pub record Request (T : Arguments) : Type 0 where
  pub verb : Verb T.PatchType
  pub calls : List (Call T)

-- rest.Interface, by the ends of a request: Into for a volume and for a list, Error, and Watch.
pub record Rest (T : Arguments) (L W : Type 0) : Type 0 where
  pub into_volume : Request T → LocalVolume → LocalVolume × Option Error
  pub into_list : Request T → L → L × Option Error
  pub error : Request T → Option Error
  pub watch : Request T → Option W × Option Error
  pub empty_list : L

-- localVolumes
pub record LocalVolumes (T : Arguments) (L W : Type 0) : Type 0 where
  pub client : Rest T L W
  pub ns : String

abbrev pub second : ℕ
second = 1000000000

-- `time.Duration(*opts.TimeoutSeconds) * time.Second`, or zero.
unfoldable pub timeout_of : Option ℕ → ℕ
timeout_of none = 0
timeout_of (some seconds) = (seconds * second) % 2 ^ 64

module _ {T : Arguments} where
  -- The requests of the operations, in a namespace.
  unfoldable pub get_request : String → String → T.GetOptions → Request T
  get_request ns name options = record {
    verb = get_verb;
    calls =
        in_namespace ns ∷ of_resource "localvolumes" ∷ named name ∷ with_get_options options ∷ [];
  }

  unfoldable pub list_request : String → ListOptions T.Selection → Request T
  unfolding timeout_of
  list_request ns opts = record {
    verb = get_verb;
    calls =
        in_namespace ns
        ∷ of_resource "localvolumes"
        ∷ with_list_options opts
        ∷ with_timeout (timeout_of opts.timeout_seconds)
        ∷ [];
  }

  unfoldable pub watch_request : String → ListOptions T.Selection → Request T
  unfolding timeout_of
  watch_request ns opts = record {
    verb = get_verb;
    calls =
        in_namespace ns
        ∷ of_resource "localvolumes"
        ∷ with_list_options (record opts { watch = true })
        ∷ with_timeout (timeout_of opts.timeout_seconds)
        ∷ [];
  }

  unfoldable pub create_request : String → LocalVolume → Request T
  create_request ns local_volume = record {
    verb = post_verb;
    calls = in_namespace ns ∷ of_resource "localvolumes" ∷ with_volume local_volume ∷ [];
  }

  unfoldable pub update_request : String → LocalVolume → Request T
  update_request ns local_volume = record {
    verb = put_verb;
    calls =
        in_namespace ns
        ∷ of_resource "localvolumes"
        ∷ named local_volume.name
        ∷ with_volume local_volume
        ∷ [];
  }

  unfoldable pub update_status_request : String → LocalVolume → Request T
  update_status_request ns local_volume = record {
    verb = put_verb;
    calls =
        in_namespace ns
        ∷ of_resource "localvolumes"
        ∷ named local_volume.name
        ∷ of_sub_resource ("status" ∷ [])
        ∷ with_volume local_volume
        ∷ [];
  }

  unfoldable pub delete_request : String → String → T.DeleteOptions → Request T
  delete_request ns name options = record {
    verb = delete_verb;
    calls =
        in_namespace ns
        ∷ of_resource "localvolumes"
        ∷ named name
        ∷ with_delete_options options
        ∷ [];
  }

  unfoldable pub delete_collection_request :
      String → T.DeleteOptions → ListOptions T.Selection → Request T
  unfolding timeout_of
  delete_collection_request ns options list_options = record {
    verb = delete_verb;
    calls =
        in_namespace ns
        ∷ of_resource "localvolumes"
        ∷ with_list_options list_options
        ∷ with_timeout (timeout_of list_options.timeout_seconds)
        ∷ with_delete_options options
        ∷ [];
  }

  unfoldable pub patch_request : String → String → T.PatchType → T.Data → List String → Request T
  patch_request ns name pt data_ subresources = record {
    verb = patch_verb pt;
    calls =
        in_namespace ns
        ∷ of_resource "localvolumes"
        ∷ of_sub_resource subresources
        ∷ named name
        ∷ with_data data_
        ∷ [];
  }

module _ {T : Arguments} {L W : Type 0} where
  -- The operations. Into fills an empty volume, or an empty list.
  abbrev into_new : Rest T L W → Request T → LocalVolume × Option Error
  into_new client request = client.into_volume request (empty_local_volume "")

  unfoldable pub get : LocalVolumes T L W → String → T.GetOptions → LocalVolume × Option Error
  unfolding get_request
  get c name options = into_new c.client (get_request c.ns name options)

  unfoldable pub list : LocalVolumes T L W → ListOptions T.Selection → L × Option Error
  unfolding list_request
  list c opts = c.client.into_list (list_request c.ns opts) c.client.empty_list

  unfoldable pub watch : LocalVolumes T L W → ListOptions T.Selection → Option W × Option Error
  unfolding watch_request
  watch c opts = c.client.watch (watch_request c.ns opts)

  unfoldable pub create : LocalVolumes T L W → LocalVolume → LocalVolume × Option Error
  unfolding create_request
  create c local_volume = into_new c.client (create_request c.ns local_volume)

  unfoldable pub update : LocalVolumes T L W → LocalVolume → LocalVolume × Option Error
  unfolding update_request
  update c local_volume = into_new c.client (update_request c.ns local_volume)

  unfoldable pub update_status : LocalVolumes T L W → LocalVolume → LocalVolume × Option Error
  unfolding update_status_request
  update_status c local_volume = into_new c.client (update_status_request c.ns local_volume)

  unfoldable pub delete : LocalVolumes T L W → String → T.DeleteOptions → Option Error
  unfolding delete_request
  delete c name options = c.client.error (delete_request c.ns name options)

  unfoldable pub delete_collection :
      LocalVolumes T L W → T.DeleteOptions → ListOptions T.Selection → Option Error
  unfolding delete_collection_request
  delete_collection c options list_options =
      c.client.error (delete_collection_request c.ns options list_options)

  unfoldable pub patch :
      LocalVolumes T L W → String → T.PatchType → T.Data → List String → LocalVolume × Option Error
  unfolding patch_request
  patch c name pt data_ subresources =
      into_new c.client (patch_request c.ns name pt data_ subresources)
