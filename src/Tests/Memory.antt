-- ===== src/Tests/Memory.antt =====
-- Deep copies in a memory with two maps and one volume.
use kubernetes_local_volume.Base.{◌≡◌, refl, true, some, [], ◌∷◌, arith}
use kubernetes_local_volume.Base.Dict.{lookup}
use kubernetes_local_volume.Scheduler.Binding.{preallocate}
use kubernetes_local_volume.Store.Volumes.{Maps, Heap, StoredVolume, StoredList, deep_copy_list}
use kubernetes_local_volume.Store.Copies.{Keeps, IsStored}
use kubernetes_local_volume.Store.Lists.{AreItemsFresh, see_items, deep_copy_list-see}
use kubernetes_local_volume.Store.Edits.{mark, refresh, edit_copy}
use kubernetes_local_volume.Store.Edits.Unaliased.{AllStored, Unaliased, edit_copy-preallocate}
use kubernetes_local_volume.Store.Edits.Refreshing.{refreshed, edit_copy-next_status}
use kubernetes_local_volume.Tests.Data.{info}

abbrev maps : Maps
maps = record { size = 1; cell = λ i. ("web/data", "") ∷ ("web/logs", "") ∷ [] }

abbrev n1 : StoredVolume
n1 = record {
  namespace = "default";
  name = "n1";
  status = record { total_size = 20; free_size = 10; pre_allocated = some 0 };
}

abbrev heap : Heap
heap = record { maps = maps; volumes = record { size = 1; cell = λ i. n1 } }

abbrev volumes : StoredList
volumes = record { items = some (n1 ∷ n1 ∷ []) }

maps-IsStored : IsStored maps (some 0)
unfolding lookup
maps-IsStored = (omega arith, (refl, (refl, tt)))

heap-AllStored : AllStored heap
heap-AllStored i old = maps-IsStored

deep_copy_list-see_example :
    let (copy, M2) = deep_copy_list volumes maps in
    (see_items M2 copy.items ≡ see_items maps volumes.items)
    × AreItemsFresh maps M2 copy.items
    × Keeps maps M2
deep_copy_list-see_example = deep_copy_list-see volumes maps (maps-IsStored, (maps-IsStored, tt))

edit_copy-preallocate_example :
    Unaliased
      (λ original. (preallocate (("web/new", "") ∷ []) original, true))
      heap
      0
      (edit_copy (mark (("web/new", "") ∷ [])) 0 heap)
edit_copy-preallocate_example =
    edit_copy-preallocate (("web/new", "") ∷ []) heap 0 heap-AllStored (omega arith)

edit_copy-next_status_example :
    Unaliased
      (refreshed info ("web/data" ∷ []))
      heap
      0
      (edit_copy (refresh info ("web/data" ∷ [])) 0 heap)
edit_copy-next_status_example =
    edit_copy-next_status info ("web/data" ∷ []) heap 0 heap-AllStored (omega arith)
