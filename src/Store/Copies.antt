-- ===== src/Store/Copies.antt =====
-- What deep copies hold, and what they leave alone (zz_generated.deepcopy.go).
use kubernetes_local_volume.Base.{
  ℕ, ◌<◌, ◌≤◌, String, ◌≡◌, refl, ap, subst, sym, ◌∙◌, append-nil, true, false, Option, none, some,
  List, [], ◌∷◌, ◌++◌, append_assoc, arith,
}
use kubernetes_local_volume.Base.Dict.{
  Dict, insert, lookup, has, IsMap, has-head, has-tail, has-insert_new, insert-new,
}
use kubernetes_local_volume.Store.{
  put, alloc, put-put, put-cell, cell-put, cell-alloc, cell-alloc_old, put-alloc,
}
use kubernetes_local_volume.Store.Volumes.{Maps, StoredVolume, see_map, copy_loop, copy_map}

insert_all : Dict String → Dict String → Dict String
insert_all [] acc = acc
insert_all ((k, v) ∷ m) acc = insert_all m (insert k v acc)

copy_loop-put :
    (m : Dict String) (out : ℕ) (M : Maps)
    → copy_loop m out M ≡ put out (insert_all m (M.cell out)) M
unfolding copy_loop insert_all
copy_loop-put [] out M = sym (put-cell out M)
copy_loop-put ((k, v) ∷ m) out M =
    copy_loop-put m out (put out (insert k v (M.cell out)) M) ∙ rw (put-put, cell-put) refl

insert_all-append :
    (m acc : Dict String)
    → IsMap m
    → ((j : String) → has j m ≡ true → has j acc ≡ false)
    → insert_all m acc ≡ acc ++ m
unfolding insert_all
insert_all-append [] acc _ apart = sym (append-nil acc)
insert_all-append ((k, v) ∷ m) acc (fresh, keys) apart =
    insert_all-append m (insert k v acc) keys
      (λ j there. has-insert_new j k v m acc fresh there (apart j (has-tail j k v m there)))
    ∙ rw (insert-new k v acc (apart k (has-head k v m))) (append_assoc acc ((k, v) ∷ []) m)

-- The copy of a map is a new map with the same entries.
pub copy_map-alloc :
    (r : ℕ) (M : Maps) → IsMap (M.cell r) → copy_map (some r) M ≡ (some M.size, alloc (M.cell r) M)
unfolding lookup
copy_map-alloc r M keys =
    ap (λ M2. (some M.size, M2))
      (copy_loop-put (M.cell r) M.size (alloc [] M)
        ∙ rw (cell-alloc, insert_all-append (M.cell r) [] keys (λ j there. refl))
            (put-alloc [] (M.cell r) M))

-- No cell of the first memory changes in the second.
abbrev pub Keeps : Maps → Maps → Type 0
Keeps M M2 = (M.size ≤ M2.size) × ((i : ℕ) → i < M.size → M2.cell i ≡ M.cell i)

-- The address of a map is one that is allocated, and no key of that map stands twice.
abbrev pub IsStored : Maps → Option ℕ → Type 0
IsStored M none = Unit {0}
IsStored M (some r) = (r < M.size) × IsMap (M.cell r)

-- The address is none of the first memory.
abbrev pub IsFresh : Maps → Maps → Option ℕ → Type 0
IsFresh M M2 none = Unit {0}
IsFresh M M2 (some r) = (M.size ≤ r) × (r < M2.size)

-- A copy in the memory `M2` of a map of the memory `M`.
abbrev pub IsCopy : Maps → Option ℕ → Option ℕ → Maps → Type 0
IsCopy M in_map out_map M2 =
    (see_map M2 out_map ≡ see_map M in_map) × IsFresh M M2 out_map × Keeps M M2

alloc-IsCopy : (r : ℕ) (M : Maps) → IsCopy M (some r) (some M.size) (alloc (M.cell r) M)
unfolding alloc
alloc-IsCopy r M = (
  ap some (cell-alloc (M.cell r) M),
  (omega arith, omega arith),
  (omega arith, λ i old. cell-alloc_old i (M.cell r) M old),
)

pub copy_map-IsCopy :
    (in_map : Option ℕ) (M : Maps)
    → IsStored M in_map
    → IsCopy M in_map (copy_map in_map M).0 (copy_map in_map M).1
copy_map-IsCopy none M _ = (refl, tt, (omega arith, λ i old. refl))
copy_map-IsCopy (some r) M (_, keys) =
    subst (λ s. IsCopy M (some r) s.0 s.1) (sym (copy_map-alloc r M keys)) (alloc-IsCopy r M)

-- A list of volumes whose maps are stored.
abbrev pub AreStored : Maps → List StoredVolume → Type 0
AreStored M [] = Unit {0}
AreStored M (lv ∷ rest) = IsStored M lv.status.pre_allocated × AreStored M rest

pub kept-IsStored : (M M2 : Maps) (m : Option ℕ) → Keeps M M2 → IsStored M m → IsStored M2 m
kept-IsStored M M2 none _ _ = tt
kept-IsStored M M2 (some r) (more, same) (old, keys) =
    (omega arith, subst IsMap (sym (same r old)) keys)

pub kept-AreStored :
    (M M2 : Maps) (items : List StoredVolume) → Keeps M M2 → AreStored M items → AreStored M2 items
kept-AreStored M M2 [] _ _ = tt
kept-AreStored M M2 (lv ∷ rest) kept (one, others) =
    (kept-IsStored M M2 lv.status.pre_allocated kept one, kept-AreStored M M2 rest kept others)

pub see_map-kept :
    (M M2 : Maps) (m : Option ℕ) → Keeps M M2 → IsStored M m → see_map M2 m ≡ see_map M m
see_map-kept M M2 none _ _ = refl
see_map-kept M M2 (some r) (_, same) (old, _) = ap some (same r old)

pub Keeps-trans : (M M2 M3 : Maps) → Keeps M M2 → Keeps M2 M3 → Keeps M M3
Keeps-trans M M2 M3 (more, same) (more2, same2) =
    (omega arith, λ i old. same2 i (omega arith) ∙ same i old)
