-- ===== src/Types/Slices.antt =====
-- The string slices of pkg/common/utils/util.go.
use mathlib.Core.List.{append-nil, append_assoc}
use kubernetes_local_volume.Base.{
  String, str_eq, eq_iff, ◌≡◌, sym, false, Bool, not, List, [], ◌∷◌, ◌++◌, arith, select,
  if◌then◌else◌, Bool-cases, inl, inr,
}
use kubernetes_local_volume.Types.{slice_contains_string, slice_remove_onto, slice_remove_string}

abbrev differs : String → String → Bool
differs s item = not (str_eq item s)

slice_remove_onto-select :
    (s : String) (slice result : List String)
    → slice_remove_onto result slice s ≡ result ++ select (differs s) slice
unfolding slice_remove_onto
slice_remove_onto-select s [] result = sym (append-nil result)
slice_remove_onto-select s (item ∷ slice) result = elim (Bool-cases (str_eq item s)) [
  | inl same ↦ rw same (slice_remove_onto-select s slice result)
  | inr other ↦
      rw other (rw (slice_remove_onto-select s slice (result ++ item ∷ [])) (rw append_assoc))
]

pub slice_remove_string-select :
    (slice : List String) (s : String) → slice_remove_string slice s ≡ select (differs s) slice
unfolding slice_remove_string
slice_remove_string-select slice s = slice_remove_onto-select s slice []

contains-select :
    (t s : String) (slice : List String)
    → slice_contains_string (select (differs s) slice) t
      ≡ (if str_eq s t then false else slice_contains_string slice t)
unfolding slice_contains_string
contains-select t s [] = ground arith
contains-select t s (item ∷ slice) =
    ground (arith, eq_iff item s, eq_iff item t, eq_iff s t, contains-select t s slice)

-- After a removal the removed text is no longer found, and every other text is found just when it
-- was found before.
pub contains-slice_remove_string :
    (slice : List String) (s t : String)
    → slice_contains_string (slice_remove_string slice s) t
      ≡ (if str_eq s t then false else slice_contains_string slice t)
contains-slice_remove_string slice s t = rw slice_remove_string-select (contains-select t s slice)
