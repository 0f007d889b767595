-- ===== src/Client/Typed/Fake.antt =====
-- The fake client of local volumes for tests (pkg/client/clientset/versioned/typed/storage/v1alpha1/
-- fake/fake_localvolume.go).
use kubernetes_local_volume.Base.{
  String, Bool, Option, none, some, List, [], ◌∷◌, ◌++◌, if◌then◌else◌,
}
use kubernetes_local_volume.Fault.Pure.{◌>>=◌}
use kubernetes_local_volume.Fault.{Error, Outcome, ok, deref}
use kubernetes_local_volume.Types.Objects.{LocalVolume}
use kubernetes_local_volume.Client.Typed.{Arguments, ListOptions}

pub record GroupVersionResource : Type 0 where
  pub group : String
  pub version : String
  pub resource : String

pub record GroupVersionKind : Type 0 where
  pub group : String
  pub version : String
  pub kind : String

abbrev pub localvolumes_resource : GroupVersionResource
localvolumes_resource = record {
  group = "local.volume.storage";
  version = "v1alpha1";
  resource = "localvolumes";
}

abbrev pub localvolumes_kind : GroupVersionKind
localvolumes_kind = record {
  group = "local.volume.storage";
  version = "v1alpha1";
  kind = "LocalVolume";
}

-- The calls of k8s.io/client-go/testing that make an action, NewGetAction and the others.
pub data Action (T : Arguments) : Type 0 where
  get_action : GroupVersionResource → String → String → Action T
  list_action :
      GroupVersionResource → GroupVersionKind → String → ListOptions T.Selection → Action T
  watch_action : GroupVersionResource → String → ListOptions T.Selection → Action T
  create_action : GroupVersionResource → String → LocalVolume → Action T
  update_action : GroupVersionResource → String → LocalVolume → Action T
  update_subresource_action : GroupVersionResource → String → String → LocalVolume → Action T
  delete_action : GroupVersionResource → String → String → Action T
  delete_collection_action : GroupVersionResource → String → ListOptions T.Selection → Action T
  patch_subresource_action :
      GroupVersionResource → String → String → T.PatchType → T.Data → List String → Action T

-- The object that Invokes answers with where no reaction handles the action.
pub data Default : Type 0 where
  default_volume default_list : Default

pub record LocalVolumeList (Meta : Type 0) : Type 0 where
  pub list_meta : Meta
  pub items : List LocalVolume

-- Invokes and InvokesWatch of testing.Fake, with the type assertions of the objects, and the labels of
-- list options and volumes.
pub record Tracker (T : Arguments) (Object Meta Label W : Type 0) : Type 0 where
  pub invokes : Action T → Default → Option Object × Option Error
  pub invokes_watch : Action T → Option W × Option Error
  pub as_volume : Object → Option LocalVolume
  pub as_list : Object → Option (LocalVolumeList Meta)
  pub label_of : ListOptions T.Selection → Option Label
  pub everything : Label
  pub matches : Label → LocalVolume → Bool

-- FakeLocalVolumes
pub record FakeLocalVolumes (T : Arguments) (Object Meta Label W : Type 0) : Type 0 where
  pub fake : Tracker T Object Meta Label W
  pub ns : String

module _ {T : Arguments} {Object Meta Label W : Type 0} where
  -- The answer with a volume: nil for a nil object, else the object as a volume.
  abbrev pub volume_of :
      Tracker T Object Meta Label W
      → Option Object × Option Error
      → Outcome (Option LocalVolume × Option Error)
  volume_of fake (none, err) = ok (none, err)
  volume_of fake (some obj, err) = do v ← deref (fake.as_volume obj); ok (some v, err)

  unfoldable pub get :
      FakeLocalVolumes T Object Meta Label W
      → String
      → T.GetOptions
      → Outcome (Option LocalVolume × Option Error)
  get c name options =
      volume_of c.fake (c.fake.invokes (get_action localvolumes_resource c.ns name) default_volume)

  -- The loop of List: an item is appended if the label matches it.
  unfoldable pub append_matching :
      Tracker T Object Meta Label W → Label → List LocalVolume → List LocalVolume → List LocalVolume
  append_matching fake label items [] = items
  append_matching fake label items (item ∷ rest) =
      append_matching fake label (if fake.matches label item then items ++ item ∷ [] else items)
        rest

  -- The objects of a list that match the label of the options, or all without one.
  unfoldable pub filtered :
      Tracker T Object Meta Label W
      → ListOptions T.Selection
      → LocalVolumeList Meta
      → LocalVolumeList Meta
  unfolding append_matching
  filtered fake opts obj =
      let label : Label = elim (fake.label_of opts) [ none ↦ fake.everything | some l ↦ l ] in
      record { list_meta = obj.list_meta; items = append_matching fake label [] obj.items }

  unfoldable pub list :
      FakeLocalVolumes T Object Meta Label W
      → ListOptions T.Selection
      → Outcome (Option (LocalVolumeList Meta) × Option Error)
  unfolding filtered
  list c opts =
      let (obj, err) =
        c.fake.invokes (list_action localvolumes_resource localvolumes_kind c.ns opts)
          default_list in
      elim obj [
        | none ↦ ok (none, err)
        | some o ↦ do l ← deref (c.fake.as_list o); ok (some (filtered c.fake opts l), err)
      ]

  unfoldable pub watch :
      FakeLocalVolumes T Object Meta Label W → ListOptions T.Selection → Option W × Option Error
  watch c opts = c.fake.invokes_watch (watch_action localvolumes_resource c.ns opts)

  unfoldable pub create :
      FakeLocalVolumes T Object Meta Label W
      → LocalVolume
      → Outcome (Option LocalVolume × Option Error)
  create c local_volume =
      volume_of c.fake
        (c.fake.invokes (create_action localvolumes_resource c.ns local_volume) default_volume)

  unfoldable pub update :
      FakeLocalVolumes T Object Meta Label W
      → LocalVolume
      → Outcome (Option LocalVolume × Option Error)
  update c local_volume =
      volume_of c.fake
        (c.fake.invokes (update_action localvolumes_resource c.ns local_volume) default_volume)

  unfoldable pub update_status :
      FakeLocalVolumes T Object Meta Label W
      → LocalVolume
      → Outcome (Option LocalVolume × Option Error)
  update_status c local_volume = volume_of c.fake (
      c.fake.invokes (update_subresource_action localvolumes_resource "status" c.ns local_volume)
        default_volume)

  unfoldable pub delete :
      FakeLocalVolumes T Object Meta Label W → String → T.DeleteOptions → Option Error
  delete c name options =
      (c.fake.invokes (delete_action localvolumes_resource c.ns name) default_volume).1

  unfoldable pub delete_collection :
      FakeLocalVolumes T Object Meta Label W
      → T.DeleteOptions
      → ListOptions T.Selection
      → Option Error
  delete_collection c options list_options =
      (c.fake.invokes (delete_collection_action localvolumes_resource c.ns list_options)
        default_list).1

  unfoldable pub patch :
      FakeLocalVolumes T Object Meta Label W
      → String
      → T.PatchType
      → T.Data
      → List String
      → Outcome (Option LocalVolume × Option Error)
  patch c name pt data_ subresources = volume_of c.fake (
      c.fake.invokes
        (patch_subresource_action localvolumes_resource c.ns name pt data_ subresources)
        default_volume)
