-- ===== src/Client/Lister/Finding.antt =====
-- Get of the lister of local volumes, on an indexer of the objects of a list.
use kubernetes_local_volume.Base.{
  String, str_eq, eq_iff, ◌≡◌, ◌≢◌, refl, sym, ap, ◌∙◌, Bool, true, false, Bool-cases, Option-cases,
  ◌&&◌, ◌↔◌, Option, none, some, List, [], ◌∷◌, inl, inr, if◌then◌else◌, All,
}
use kubernetes_local_volume.Fault.{missing_object, got, ok, fail}
use kubernetes_local_volume.Types.{make_pvc_key, split_pvc_key}
use kubernetes_local_volume.Types.Keys.{has_code, split_no_separator, split_pvc_key-make_pvc_key}
use kubernetes_local_volume.Types.Objects.{LocalVolume}
use kubernetes_local_volume.Client.Lister.{Indexer, local_volumes, get}

-- cache.MetaNamespaceKeyFunc: the key under which an indexer keeps an object.
abbrev pub meta_namespace_key : String → String → String
meta_namespace_key namespace name =
    if str_eq namespace "" then name else make_pvc_key namespace name

-- The first volume of the list with the name, in the namespace.
abbrev pub find_volume : (LocalVolume → Bool) → List LocalVolume → Option LocalVolume
find_volume p [] = none
find_volume p (v ∷ vs) = if p v then some v else find_volume p vs

abbrev pub is_volume : String → String → LocalVolume → Bool
is_volume namespace name v = str_eq v.namespace namespace && str_eq v.name name

-- Kubernetes' names have no slash.
abbrev pub IsNamed : String → String → Type 0
IsNamed namespace name = (has_code b'/' namespace ≡ false) × (has_code b'/' name ≡ false)

-- Two true tests that imply each other are one.
test_eq : (a b : Bool) → (a ≡ true → b ≡ true) → (b ≡ true → a ≡ true) → a ≡ b
test_eq true b there back = sym (there refl)
test_eq false true there back = back refl
test_eq false false there back = refl

make_pvc_key_injective :
    (namespace name namespace' name' : String)
    → IsNamed namespace name
    → IsNamed namespace' name'
    → make_pvc_key namespace name ≡ make_pvc_key namespace' name'
    → (namespace ≡ namespace') × (name ≡ name')
make_pvc_key_injective namespace name namespace' name' (a, b) (c, d) e =
    let both =
      sym (split_pvc_key-make_pvc_key namespace name a b)
      ∙ ap split_pvc_key e
      ∙ split_pvc_key-make_pvc_key namespace' name' c d in
    (ap (λ k. k.0) both, ap (λ k. k.1) both)

-- A text without a slash has no two parts.
split_pvc_key_plain : (name : String) → has_code b'/' name ≡ false → split_pvc_key name ≡ ("", "")
unfolding split_pvc_key
split_pvc_key_plain name h = rw (split_no_separator b'/' name h) refl

is_volume_iff :
    (namespace name : String) (v : LocalVolume)
    → (is_volume namespace name v ≡ true) ↔ ((v.namespace ≡ namespace) × (v.name ≡ name))
is_volume_iff namespace name v =
    let same_namespace = eq_iff v.namespace namespace in
    let same_name = eq_iff v.name name in
    (
      λ e. elim (Bool-cases (str_eq v.namespace namespace)) [
        | inl one ↦ (same_namespace.0 one, same_name.0 (rw one at e))
        | inr other ↦ absurd (cc)
      ],
      λ (one, two). rw (same_namespace.1 one) (same_name.1 two),
    )

-- A name without a slash is no key of a namespace.
name_no_key :
    (namespace name key : String)
    → str_eq namespace "" ≡ false
    → IsNamed namespace name
    → has_code b'/' key ≡ false
    → key ≢ make_pvc_key namespace name
name_no_key namespace name key some_namespace (a, b) plain e =
    let empty =
      ap (λ k. k.0)
        (sym (split_pvc_key-make_pvc_key namespace name a b)
          ∙ ap split_pvc_key (sym e)
          ∙ split_pvc_key_plain key plain) in
    let yes = (eq_iff namespace "").1 empty in cc

-- The key under which a volume is kept is the one that is asked for, if the volume is.
key-is_volume :
    (namespace name : String) (v : LocalVolume)
    → str_eq namespace "" ≡ false
    → IsNamed namespace name
    → IsNamed v.namespace v.name
    → str_eq (meta_namespace_key v.namespace v.name) (make_pvc_key namespace name)
      ≡ is_volume namespace name v
key-is_volume namespace name v some_namespace named v_named =
    elim (Bool-cases (str_eq v.namespace "")) [
      | inl empty ↦ rw empty (
          test_eq (str_eq v.name (make_pvc_key namespace name)) (is_volume namespace name v)
            (λ e. absurd (
              name_no_key namespace name v.name some_namespace named v_named.1
                ((eq_iff v.name (make_pvc_key namespace name)).0 e)))
            (λ e.
              let (one, two) = (is_volume_iff namespace name v).0 e in
              let gone = (rw one at empty) in cc))
      | inr full ↦ rw full (
          test_eq (str_eq (make_pvc_key v.namespace v.name) (make_pvc_key namespace name))
            (is_volume namespace name v)
            (λ e. (is_volume_iff namespace name v).1 (
              make_pvc_key_injective v.namespace v.name namespace name v_named named
                ((eq_iff _ _).0 e)))
            (λ e.
              let (one, two) = (is_volume_iff namespace name v).0 e in
              (eq_iff _ _).1
                (ap (λ n. make_pvc_key n v.name) one ∙ ap (make_pvc_key namespace) two)))
    ]

find_volume-eq :
    (p q : LocalVolume → Bool) (vs : List LocalVolume)
    → All (λ v. p v ≡ q v) vs
    → find_volume p vs ≡ find_volume q vs
find_volume-eq p q [] all = refl
find_volume-eq p q (v ∷ vs) (one, others) = rw (one, find_volume-eq p q vs others) refl

keys_are_volumes :
    (namespace name : String) (vs : List LocalVolume)
    → str_eq namespace "" ≡ false
    → IsNamed namespace name
    → All (λ v. IsNamed v.namespace v.name) vs
    → All
        (λ v.
          str_eq (meta_namespace_key v.namespace v.name) (make_pvc_key namespace name)
          ≡ is_volume namespace name v)
        vs
keys_are_volumes namespace name [] some_namespace named all = tt
keys_are_volumes namespace name (v ∷ vs) some_namespace named (one, others) = (
  key-is_volume namespace name v some_namespace named one,
  keys_are_volumes namespace name vs some_namespace named others,
)

module _ {Object Selector : Type 0} where
  -- The indexer keeps the objects of the volumes by their keys.
  pub record IsIndexOf (indexer : Indexer Object Selector LocalVolume)
      (object : LocalVolume → Object) (vs : List LocalVolume) : Type 0 where
    pub kept :
        (key : String)
        → indexer.get_by_key key
          ≡ got (elim (find_volume (λ v. str_eq (meta_namespace_key v.namespace v.name) key) vs) [
            | none ↦ none
            | some v ↦ some (object v)
          ])
    pub typed : (v : LocalVolume) → indexer.as_local_volume (object v) ≡ some v

  -- Where the indexer keeps the volumes of a list by MetaNamespaceKeyFunc, and no name and no
  -- namespace has a slash, Get of the lister of a namespace, which is not empty, answers with the first
  -- volume of the list that has the name and the namespace, or with an error that it is not found.
  pub get-find_volume :
      (indexer : Indexer Object Selector LocalVolume) (object : LocalVolume → Object)
      (vs : List LocalVolume)
      → IsIndexOf indexer object vs
      → All (λ v. IsNamed v.namespace v.name) vs
      → (namespace name : String) → str_eq namespace "" ≡ false
      → IsNamed namespace name
      → get (local_volumes indexer namespace) name
        ≡ (elim (find_volume (is_volume namespace name) vs) [
          | none ↦ fail (missing_object name)
          | some v ↦ ok v
        ])
  unfolding get make_pvc_key
  get-find_volume indexer object vs index all namespace name some_namespace named =
      let found =
        index.kept (make_pvc_key namespace name)
        ∙ ap (λ o. got (elim o [ none ↦ none | some v ↦ some (object v) ]))
            (find_volume-eq _ (is_volume namespace name) vs
              (keys_are_volumes namespace name vs some_namespace named all)) in
      elim (Option-cases (find_volume (is_volume namespace name) vs)) [
        | inl missing ↦ rw missing (rw (found, missing) refl)
        | inr (v, one) ↦ rw one (rw (found, one) (rw (index.typed v) refl))
      ]
