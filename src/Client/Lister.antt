-- ===== src/Client/Lister.antt =====
-- The lister of local volumes (pkg/client/listers/storage/v1alpha1/localvolume.go).
pub mod Finding
pub mod Rereading
use kubernetes_local_volume.Base.{String, ◌<>◌, Option, none, some, List, [], ◌∷◌, ◌++◌}
use kubernetes_local_volume.Fault.Pure.{◌>>=◌}
use kubernetes_local_volume.Fault.{
  Error, missing_object, Reply, got, refused, Outcome, ok, fail, deref,
}

-- cache.Indexer, as far as the lister calls it: GetByKey, and the objects for which ListAll and
-- ListAllByNamespace call the function that they are given, with their error. `as_local_volume` is the
-- type assertion of an object.
pub record Indexer (Object Selector V : Type 0) : Type 0 where
  pub get_by_key : String → Reply (Option Object)
  pub list_all : Selector → List Object × Option Error
  pub list_all_by_namespace : String → Selector → List Object × Option Error
  pub as_local_volume : Object → Option V

pub record LocalVolumeNamespaceLister (Object Selector V : Type 0) : Type 0 where
  pub indexer : Indexer Object Selector V
  pub namespace : String

-- The function that appends each object to `ret`.
unfoldable pub append_all :
    {Object V : Type 0} → (Object → Option V) → List V → List Object → Outcome (List V)
append_all as_local_volume ret [] = ok ret
append_all as_local_volume ret (m ∷ ms) = do
  v ← deref (as_local_volume m)
  append_all as_local_volume (ret ++ v ∷ []) ms

module _ {Object Selector V : Type 0} where
  -- List, of all local volumes and of those of a namespace.
  unfoldable pub list : Indexer Object Selector V → Selector → Outcome (List V × Option Error)
  unfolding append_all
  list indexer selector =
      let (ms, err) = indexer.list_all selector in
      do ret ← append_all indexer.as_local_volume [] ms; ok (ret, err)

  unfoldable pub list_in_namespace :
      LocalVolumeNamespaceLister Object Selector V → Selector → Outcome (List V × Option Error)
  unfolding append_all
  list_in_namespace s selector =
      let (ms, err) = s.indexer.list_all_by_namespace s.namespace selector in
      do ret ← append_all s.indexer.as_local_volume [] ms; ok (ret, err)

  -- LocalVolumes
  abbrev pub local_volumes :
      Indexer Object Selector V → String → LocalVolumeNamespaceLister Object Selector V
  local_volumes indexer namespace = record { indexer = indexer; namespace = namespace }

  unfoldable pub get : LocalVolumeNamespaceLister Object Selector V → String → Outcome V
  get s name = elim (s.indexer.get_by_key (s.namespace <> "/" <> name)) [
    | refused err ↦ fail err
    | got none ↦ fail (missing_object name)
    | got (some obj) ↦ deref (s.indexer.as_local_volume obj)
  ]
