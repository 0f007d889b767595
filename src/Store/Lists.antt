-- ===== src/Store/Lists.antt =====
-- Deep copies of volumes and of lists of them (zz_generated.deepcopy.go).
use kubernetes_local_volume.Base.{ℕ, ◌≡◌, refl, ap, ◌∙◌, Option, none, some, List, [], ◌∷◌, arith}
use kubernetes_local_volume.Types.Objects.{LocalVolume}
use kubernetes_local_volume.Store.Volumes.{
  Maps, StoredVolume, StoredList, see, see_map, copy_map, deep_copy_into, copy_items, copy_slice,
  deep_copy_list,
}
use kubernetes_local_volume.Store.Copies.{
  Keeps, IsStored, IsFresh, AreStored, copy_map-IsCopy, kept-AreStored, see_map-kept, Keeps-trans,
}

-- The map of each volume is at an address of `M2` that is none of `M`.
abbrev pub AreFresh : Maps → Maps → List StoredVolume → Type 0
AreFresh M M2 [] = Unit {0}
AreFresh M M2 (lv ∷ rest) = IsFresh M M2 lv.status.pre_allocated × AreFresh M M2 rest

abbrev pub see_all : Maps → List StoredVolume → List LocalVolume
see_all M [] = []
see_all M (lv ∷ rest) = see M lv ∷ see_all M rest

abbrev pub see_items : Maps → Option (List StoredVolume) → Option (List LocalVolume)
see_items M none = none
see_items M (some items) = some (see_all M items)

abbrev pub AreItemsStored : Maps → Option (List StoredVolume) → Type 0
AreItemsStored M none = Unit {0}
AreItemsStored M (some items) = AreStored M items

abbrev pub AreItemsFresh : Maps → Maps → Option (List StoredVolume) → Type 0
AreItemsFresh M M2 none = Unit {0}
AreItemsFresh M M2 (some items) = AreFresh M M2 items

pub see_with :
    (lv : StoredVolume) (M M2 : Maps) (copy : Option ℕ)
    → see_map M2 copy ≡ see_map M lv.status.pre_allocated
    → see M2 (record lv { status = record (lv.status) { pre_allocated = copy } }) ≡ see M lv
see_with lv M M2 copy same =
    ap
      (λ m. record {
        namespace = lv.namespace;
        name = lv.name;
        status = record {
          total_size = lv.status.total_size;
          free_size = lv.status.free_size;
          pre_allocated = m;
        };
      })
      same

pub deep_copy_into-see :
    (lv : StoredVolume) (M : Maps)
    → IsStored M lv.status.pre_allocated
    → let (copy, M2) = deep_copy_into lv M in
      (see M2 copy ≡ see M lv) × IsFresh M M2 copy.status.pre_allocated × Keeps M M2
unfolding deep_copy_into
deep_copy_into-see lv M stored =
    let (same, fresh, kept) = copy_map-IsCopy lv.status.pre_allocated M stored in
    (
      see_with lv M (copy_map lv.status.pre_allocated M).1 (copy_map lv.status.pre_allocated M).0
          same,
      fresh,
      kept,
    )

IsFresh-Keeps : (M M2 M3 : Maps) (m : Option ℕ) → IsFresh M M2 m → Keeps M2 M3 → IsFresh M M3 m
IsFresh-Keeps M M2 M3 none _ _ = tt
IsFresh-Keeps M M2 M3 (some r) (new, old) (more, _) = (omega arith, omega arith)

AreFresh-Keeps :
    (M M2 M3 : Maps) (items : List StoredVolume)
    → Keeps M M2
    → AreFresh M2 M3 items
    → AreFresh M M3 items
AreFresh-Keeps M M2 M3 [] _ _ = tt
AreFresh-Keeps M M2 M3 (lv ∷ rest) kept (fresh, others) =
    (one lv.status.pre_allocated fresh, AreFresh-Keeps M M2 M3 rest kept others)
  where
    one : (m : Option ℕ) → IsFresh M2 M3 m → IsFresh M M3 m
    one none _ = tt
    one (some r) (new, old) = let more = kept.0 in (omega arith, omega arith)

see_map-fresh :
    (M M2 M3 : Maps) (m : Option ℕ) → IsFresh M M2 m → Keeps M2 M3 → see_map M3 m ≡ see_map M2 m
see_map-fresh M M2 M3 none _ _ = refl
see_map-fresh M M2 M3 (some r) (_, old) (_, same) = ap some (same r old)

see_all-kept :
    (M M2 : Maps) (items : List StoredVolume)
    → Keeps M M2
    → AreStored M items
    → see_all M2 items ≡ see_all M items
see_all-kept M M2 [] _ _ = refl
see_all-kept M M2 (lv ∷ rest) kept (one, others) =
    ap (λ x. x ∷ see_all M2 rest)
      (see_with lv M M2 lv.status.pre_allocated
        (see_map-kept M M2 lv.status.pre_allocated kept one))
    ∙ ap (λ xs. see M lv ∷ xs) (see_all-kept M M2 rest kept others)

copy_items-see :
    (items : List StoredVolume) (M : Maps)
    → AreStored M items
    → let (copies, M2) = copy_items items M in
      (see_all M2 copies ≡ see_all M items) × AreFresh M M2 copies × Keeps M M2
unfolding copy_items
copy_items-see [] M _ = (refl, tt, (omega arith, λ i old. refl))
copy_items-see (lv ∷ rest) M (one, others) =
    let copy = (deep_copy_into lv M).0 in
    let M2 = (deep_copy_into lv M).1 in
    let (same, fresh, kept) = deep_copy_into-see lv M one in
    let M3 = (copy_items rest M2).1 in
    let (same_rest, fresh_rest, kept_rest) =
      copy_items-see rest M2 (kept-AreStored M M2 rest kept others) in
    (
      ap (λ x. x ∷ see_all M3 (copy_items rest M2).0)
            (see_with copy M2 M3 copy.status.pre_allocated
                (see_map-fresh M M2 M3 copy.status.pre_allocated fresh kept_rest)
              ∙ same)
          ∙ ap (λ xs. see M lv ∷ xs) (same_rest ∙ see_all-kept M M2 rest kept others),
      (
        IsFresh-Keeps M M2 M3 copy.status.pre_allocated fresh kept_rest,
        AreFresh-Keeps M M2 M3 (copy_items rest M2).0 kept fresh_rest,
      ),
      Keeps-trans M M2 M3 kept kept_rest,
    )

copy_slice-see :
    (items : Option (List StoredVolume)) (M : Maps)
    → AreItemsStored M items
    → let (copies, M2) = copy_slice items M in
      (see_items M2 copies ≡ see_items M items) × AreItemsFresh M M2 copies × Keeps M M2
copy_slice-see none M _ = (refl, tt, (omega arith, λ i old. refl))
copy_slice-see (some items) M stored =
    let (same, fresh, kept) = copy_items-see items M stored in (ap some same, fresh, kept)

-- The deep copy of a list whose maps are allocated and have no key twice reads as the list did, its
-- maps are at addresses that were not allocated before, and no map that was allocated before changes.
pub deep_copy_list-see :
    (l : StoredList) (M : Maps)
    → AreItemsStored M l.items
    → let (copy, M2) = deep_copy_list l M in
      (see_items M2 copy.items ≡ see_items M l.items) × AreItemsFresh M M2 copy.items × Keeps M M2
unfolding deep_copy_list
deep_copy_list-see l M stored = copy_slice-see l.items M stored
