-- ===== src/Tests/Readers.antt =====
-- The lister of local volumes on two volumes.
use kubernetes_local_volume.Base.{
  String, ◌<>◌, str_eq, ◌≡◌, refl, Option-cases, inl, inr, Option, none, some, List, [], ◌∷◌, All,
}
use kubernetes_local_volume.Fault.{missing_object, Reply, got, refused, ok, outcome_of}
use kubernetes_local_volume.Types.Keys.{has_code}
use kubernetes_local_volume.Types.Objects.{LocalVolume, NamespacedName}
use kubernetes_local_volume.Controller.{safe_key}
use kubernetes_local_volume.Agent.Reconciler.{empty_local_volume, reconciler, reconcile}
use kubernetes_local_volume.Client.Lister.{Indexer, local_volumes, get}
use kubernetes_local_volume.Client.Lister.Finding.{
  IsNamed, IsIndexOf, meta_namespace_key, find_volume, get-find_volume,
}
use kubernetes_local_volume.Client.Lister.Rereading.{reconcile-safe_key}
use kubernetes_local_volume.Tests.Data.{host, unmarshal}

abbrev in_default : String → LocalVolume
in_default name = record (empty_local_volume name) { namespace = "default" }

abbrev volumes : List LocalVolume
volumes = empty_local_volume "n1" ∷ in_default "n1" ∷ []

volumes-IsNamed : All (λ v. IsNamed v.namespace v.name) volumes
unfolding has_code
volumes-IsNamed = ((refl, refl), ((refl, refl), tt))

abbrev found : String → Option LocalVolume
found key = find_volume (λ v. str_eq (meta_namespace_key v.namespace v.name) key) volumes

abbrev indexer : Indexer LocalVolume String LocalVolume
indexer = record {
  get_by_key = λ key. got (elim (found key) [ none ↦ none | some v ↦ some v ]);
  list_all = λ selector. (volumes, none);
  list_all_by_namespace = λ namespace selector. (volumes, none);
  as_local_volume = λ v. some v;
}

volumes-IsIndexOf : IsIndexOf indexer (λ v. v) volumes
volumes-IsIndexOf = record { kept = λ key. refl; typed = λ v. refl }

default_n1-IsNamed : IsNamed "default" "n1"
unfolding has_code
default_n1-IsNamed = (refl, refl)

get-find_volume_example : get (local_volumes indexer "default") "n1" ≡ ok (in_default "n1")
unfolding get
get-find_volume_example =
    get-find_volume indexer (λ v. v) volumes volumes-IsIndexOf volumes-IsNamed "default" "n1" refl
      default_n1-IsNamed

-- The answers of the lister.
abbrev reply_of : Option LocalVolume → String → Reply LocalVolume
reply_of none name = refused (missing_object name)
reply_of (some v) name = got v

abbrev lister : String → String → Reply LocalVolume
lister namespace name = reply_of (found (namespace <> "/" <> name)) name

lister_answers :
    (namespace name : String)
    → outcome_of (lister namespace name) ≡ get (local_volumes indexer namespace) name
unfolding get
lister_answers namespace name = elim (Option-cases (found (namespace <> "/" <> name))) [
  | inl missing ↦ rw (missing, get) refl
  | inr (v, one) ↦ rw (one, get) refl
]

abbrev n1 : NamespacedName
n1 = record { namespace = "default"; name = "n1" }

reconcile-safe_key_example :
    reconcile host unmarshal "n1" lister (got []) (safe_key n1) []
    ≡ reconciler host unmarshal "n1" (got []) (in_default "n1") []
reconcile-safe_key_example =
    reconcile-safe_key host unmarshal "n1" indexer (λ v. v) volumes volumes-IsIndexOf
      volumes-IsNamed lister lister_answers (got []) n1 [] refl default_n1-IsNamed
