-- ===== src/Store/Edits/Unaliased.antt =====
-- The change of a deep copy, and the objects of the caches.
use kubernetes_local_volume.Base.{
  ℕ, ◌<◌, ◌≤◌, String, Bool, true, ◌≡◌, refl, ap, subst, sym, ◌∙◌, Option, none, some, List, [],
  ◌∷◌, arith,
}
use kubernetes_local_volume.Base.Dict.{Dict, values}
use kubernetes_local_volume.Types.Objects.{LocalVolume}
use kubernetes_local_volume.Scheduler.Binding.{preallocate, mark_all, made_map}
use kubernetes_local_volume.Store.{
  put, alloc, put-put, put-cell, cell-put, cell-put_other, cell-alloc, cell-alloc_old, put-alloc,
}
use kubernetes_local_volume.Store.Volumes.{
  Maps, Heap, StoredVolume, see, see_map, deep_copy, deep_copy_into,
}
use kubernetes_local_volume.Store.Copies.{Keeps, IsStored, IsFresh, see_map-kept}
use kubernetes_local_volume.Store.Lists.{deep_copy_into-see, see_with}
use kubernetes_local_volume.Store.Edits.{mark_loop, make_missing, mark, edit_copy}

-- `f` does in memory what `g` does on values, and where the map of its object is none of an earlier
-- memory, it changes no map of that memory.
abbrev pub Implements :
    (StoredVolume → Maps → (StoredVolume × Bool) × Maps)
    → (LocalVolume → LocalVolume × Bool)
    → Type 0
Implements f g =
    (M0 M : Maps) (lv : StoredVolume)
    → Keeps M0 M
    → IsFresh M0 M lv.status.pre_allocated
    → let ((sent, changed), M2) = f lv M in ((see M2 sent, changed) ≡ g (see M lv)) × Keeps M0 M2

-- Every volume that is allocated has its map in memory.
abbrev pub AllStored : Heap → Type 0
AllStored h = (i : ℕ) → i < h.volumes.size → IsStored h.maps (h.volumes.cell i).status.pre_allocated

-- What is sent is `g` of the object at `lv`, and every object that was in memory reads as before.
abbrev pub Unaliased :
    (LocalVolume → LocalVolume × Bool) → Heap → ℕ → Option (StoredVolume × Bool) × Heap → Type 0
Unaliased g h lv (sent, h2) =
    (elim sent [ none ↦ none | some (copy, changed) ↦ some (see h2.maps copy, changed) ]
      ≡ some (g (see h.maps (h.volumes.cell lv))))
    × ((i : ℕ)
        → i < h.volumes.size
        → see h2.maps (h2.volumes.cell i) ≡ see h.maps (h.volumes.cell i))

mark_loop-put :
    (vs : List String) (r : ℕ) (M : Maps) → mark_loop vs r M ≡ put r (mark_all vs (M.cell r)) M
unfolding mark_loop mark_all
mark_loop-put [] r M = sym (put-cell r M)
mark_loop-put (v ∷ vs) r M = mark_loop-put vs r _ ∙ rw (put-put, cell-put) refl

pub put-Keeps :
    (r : ℕ) (m : Dict String) (M0 M : Maps) → Keeps M0 M → M0.size ≤ r → Keeps M0 (put r m M)
unfolding put
put-Keeps r m M0 M (more, same) new =
    (more, λ i old. cell-put_other i r m M (omega arith) ∙ same i old)

alloc-Keeps : (m : Dict String) (M0 M : Maps) → Keeps M0 M → Keeps M0 (alloc m M)
unfolding alloc
alloc-Keeps m M0 M (more, same) =
    (omega arith, λ i old. cell-alloc_old i m M (omega arith) ∙ same i old)

marked_map :
    (vs : List String) (m : Option ℕ) (M : Maps)
    → let (r, M2) = make_missing m M in
      (mark_loop vs r M2).cell r ≡ mark_all vs (made_map (see_map M m))
marked_map vs none M = rw mark_loop-put (cell-put M.size _ (alloc [] M) ∙ rw cell-alloc refl)
marked_map vs (some r) M = rw mark_loop-put (cell-put r _ M)

marked-Keeps :
    (vs : List String) (m : Option ℕ) (M0 M : Maps)
    → Keeps M0 M
    → IsFresh M0 M m
    → let (r, M2) = make_missing m M in Keeps M0 (mark_loop vs r M2)
marked-Keeps vs none M0 M kept _ =
    rw mark_loop-put (put-Keeps M.size _ M0 (alloc [] M) (alloc-Keeps [] M0 M kept) kept.0)
marked-Keeps vs (some r) M0 M kept (new, _) = rw mark_loop-put (put-Keeps r _ M0 M kept new)

mark-Implements :
    (pvc_names : Dict String) → Implements (mark pvc_names) (λ lv. (preallocate pvc_names lv, true))
unfolding mark preallocate
mark-Implements pvc_names M0 M lv kept fresh = (
  ap
      (λ m. (
        record {
          namespace = lv.namespace;
          name = lv.name;
          status = record {
            total_size = lv.status.total_size;
            free_size = lv.status.free_size;
            pre_allocated = some m;
          };
        },
        true,
      ))
      (marked_map (values pvc_names) lv.status.pre_allocated M),
  marked-Keeps (values pvc_names) lv.status.pre_allocated M0 M kept fresh,
)

edit_copy-alloc :
    (f : StoredVolume → Maps → (StoredVolume × Bool) × Maps) (h : Heap) (lv : ℕ)
    → let (copy, M) = deep_copy_into (h.volumes.cell lv) h.maps in
      let (sent, M2) = f copy M in
      edit_copy f lv h ≡ (some sent, record { maps = M2; volumes = alloc sent.0 h.volumes })
unfolding edit_copy deep_copy
edit_copy-alloc f h lv = rw cell-alloc (rw put-alloc refl)

pub edit_copy-Implements :
    (f : StoredVolume → Maps → (StoredVolume × Bool) × Maps) (g : LocalVolume → LocalVolume × Bool)
    → Implements f g
    → (h : Heap) (lv : ℕ) → AllStored h
    → lv < h.volumes.size
    → Unaliased g h lv (edit_copy f lv h)
edit_copy-Implements f g implements h lv stored known =
    let copy = (deep_copy_into (h.volumes.cell lv) h.maps).0 in
    let M = (deep_copy_into (h.volumes.cell lv) h.maps).1 in
    let (same, fresh, kept) = deep_copy_into-see (h.volumes.cell lv) h.maps (stored lv known) in
    let (done, kept_all) = implements h.maps M copy kept fresh in
    subst (Unaliased g h lv) (sym (edit_copy-alloc f h lv)) (
      ap some (done ∙ ap g same),
      λ i old.
          ap (see (f copy M).1) (cell-alloc_old i (f copy M).0.0 h.volumes old)
          ∙ see_with (h.volumes.cell i) h.maps (f copy M).1 (h.volumes.cell i).status.pre_allocated
              (see_map-kept h.maps (f copy M).1 (h.volumes.cell i).status.pre_allocated kept_all
                (stored i old)),
    )

-- The bind of a pod's claims on the deep copy of a local volume, in a memory where the map of each
-- volume is allocated and has no key twice: what is sent reads as `preallocate` of that volume, and
-- every volume that was allocated before reads as before.
pub edit_copy-preallocate :
    (pvc_names : Dict String) (h : Heap) (lv : ℕ)
    → AllStored h
    → lv < h.volumes.size
    → Unaliased
        (λ original. (preallocate pvc_names original, true))
        h
        lv
        (edit_copy (mark pvc_names) lv h)
edit_copy-preallocate pvc_names h lv stored known =
    edit_copy-Implements (mark pvc_names) (λ original. (preallocate pvc_names original, true))
      (mark-Implements pvc_names) h lv stored known
