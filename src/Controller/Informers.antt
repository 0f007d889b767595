-- ===== src/Controller/Informers.antt =====
-- What an informer's event makes of an object that is gone, which comes in a tombstone.
use kubernetes_local_volume.Base.{ℕ, ◌≡◌, refl, String, false, some}
use kubernetes_local_volume.Controller.{
  Meta, accessor, tombstone, filter, filter_with_name, filter_with_name_and_namespace, enqueue,
  enqueue_after, enqueue_controller_of, enqueue_label_of_namespace_scoped_resource,
  enqueue_label_of_cluster_scoped_resource,
}

-- Every way to enqueue an object takes the object in a tombstone like the object itself, while every
-- filter refuses each tombstone.
pub tombstone_cases :
    (m : Meta) (delay : ℕ) (a b : String)
    → let gone = tombstone (some m) in
      (enqueue gone ≡ enqueue (accessor m))
      × (enqueue_after gone delay ≡ enqueue_after (accessor m) delay)
      × (enqueue_controller_of gone ≡ enqueue_controller_of (accessor m))
      × (enqueue_label_of_namespace_scoped_resource a b gone
          ≡ enqueue_label_of_namespace_scoped_resource a b (accessor m))
      × (enqueue_label_of_cluster_scoped_resource a gone
          ≡ enqueue_label_of_cluster_scoped_resource a (accessor m))
      × (filter a b gone ≡ false)
      × (filter_with_name a gone ≡ false)
      × (filter_with_name_and_namespace a b gone ≡ false)
unfolding enqueue enqueue_after enqueue_controller_of enqueue_label_of_namespace_scoped_resource
    enqueue_label_of_cluster_scoped_resource filter filter_with_name filter_with_name_and_namespace
tombstone_cases m delay a b = (refl, refl, refl, refl, refl, refl, refl, refl)
