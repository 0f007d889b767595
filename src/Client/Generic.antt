-- ===== src/Client/Generic.antt =====
-- ForResource (pkg/client/informers/externalversions/generic.go), and the names of the resources of the
-- group (pkg/apis/storage/v1alpha1/register.go).
use kubernetes_local_volume.Base.{ℕ, String, str_eq, Bool, ◌&&◌, if◌then◌else◌}
use kubernetes_local_volume.Fault.{plain, Reply, got, refused}
use kubernetes_local_volume.Store.{Region}
use kubernetes_local_volume.Client.Factory.{SharedInformerFactory}
use kubernetes_local_volume.Client.Packages.{Makers, local_volumes, local_volume_informer}
use kubernetes_local_volume.Client.Typed.Fake.{GroupVersionResource, GroupVersionKind}

pub record GroupResource : Type 0 where
  pub group : String
  pub resource : String

pub record GroupKind : Type 0 where
  pub group : String
  pub kind : String

-- `SchemeGroupVersion.WithResource(resource)` and `SchemeGroupVersion.WithKind(kind)`
abbrev pub with_resource : String → GroupVersionResource
with_resource resource = record {
  group = "local.volume.storage";
  version = "v1alpha1";
  resource = resource;
}

abbrev pub with_kind : String → GroupVersionKind
with_kind kind = record { group = "local.volume.storage"; version = "v1alpha1"; kind = kind }

abbrev pub group_resource : GroupVersionResource → GroupResource
group_resource r = record { group = r.group; resource = r.resource }

-- Resource and Kind
unfoldable pub resource_of : String → GroupResource
resource_of resource = group_resource (with_resource resource)

unfoldable pub kind_of : String → GroupKind
kind_of kind = let k = with_kind kind in record { group = k.group; kind = k.kind }

pub record GenericInformer (I : Type 0) : Type 0 where
  pub informer : I
  pub resource : GroupResource

abbrev same_resource : GroupVersionResource → GroupVersionResource → Bool
same_resource a b =
    str_eq a.group b.group && str_eq a.version b.version && str_eq a.resource b.resource

-- The informer of the resource, of the factory at the address. The error's text has the resource.
unfoldable pub for_resource :
    {Config LC KC KF I T : Type 0}
    → Makers Config LC KC KF I T
    → (GroupVersionResource → String)
    → ℕ
    → GroupVersionResource
    → Region (SharedInformerFactory LC I T)
    → Region (SharedInformerFactory LC I T) × Reply (GenericInformer I)
unfolding local_volume_informer
for_resource M no_informer r resource fs =
    let made = local_volume_informer M (local_volumes r (fs.cell r)) fs in
    if same_resource resource (with_resource "localvolumes")
    then (made.0, got (record { informer = made.1; resource = group_resource resource }))
    else (fs, refused (plain (no_informer resource)))
