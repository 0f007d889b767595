-- ===== src/Client/Packages/Setup.antt =====
-- SetupInformers (pkg/common/injection/informers.go) with the packages of pkg/client: what the context
-- holds after it.
pub mod Feeding
pub mod Running
pub mod Sorting
pub mod Ready
use kubernetes_local_volume.Base.{
  ◌≡◌, refl, subst, sym, Bool, true, false, Option, none, some, List, [], ◌∷◌, In, here, there,
  if◌then◌else◌,
}
use kubernetes_local_volume.Fault.{Outcome, deref}
use kubernetes_local_volume.Fault.Pure.{◌>>=◌}
use kubernetes_local_volume.Store.{Region}
use kubernetes_local_volume.Client.Factory.{SharedInformerFactory}
use kubernetes_local_volume.Client.Packages.{
  Kind, pods, persistent_volume_claims, persistent_volumes, storage_classes, Injected, Makers,
  Package, local_client_package, kube_client_package, local_factory_package, kube_factory_package,
  local_volume_package, kube_informer_package, same_kind, set_local_client, set_kube_client,
  set_local_factory, set_kube_factory, set_local_volume, set_kube_informer, LocalVolumeInformer,
  local_volume_informer,
}

abbrev pub is_some : {A : Type 0} → Option A → Bool
is_some none = false
is_some (some _) = true

is_some-if :
    {A : Type 0} (b : Bool) (a : A) (o : Option A)
    → is_some o ≡ true
    → is_some (if b then some a else o) ≡ true
is_some-if true a o known = refl
is_some-if false a o known = known

pub some_of : {A : Type 0} (o : Option A) → is_some o ≡ true → (a : A) × (o ≡ some a)
some_of none h = cc
some_of (some a) h = (a, refl)

pub bind-some :
    {A B : Type 0} (o : Option A) (a : A) (f : A → Outcome B) → o ≡ some a → (deref o >>= f) ≡ f a
bind-some o a f e = rw e refl

pub same_kind_refl : (k : Kind) → same_kind k k ≡ true
same_kind_refl pods = refl
same_kind_refl persistent_volume_claims = refl
same_kind_refl persistent_volumes = refl
same_kind_refl storage_classes = refl

pub in_either :
    {A : Type 0} (P : A → Type 0) (a : A) (xs : List A) (x : A)
    → In x (a ∷ xs)
    → P a
    → (In x xs → P x)
    → P x
in_either P a xs x (here e) one others = subst P (sym e) one
in_either P a xs x (there i) one others = others i

-- The context holds what the package puts there.
abbrev pub is_present : {LC KC KF I T : Type 0} → Package → Injected LC KC KF I T → Bool
is_present local_client_package s = is_some s.context.local_client
is_present kube_client_package s = is_some s.context.kube_client
is_present local_factory_package s = is_some s.context.local_factory
is_present kube_factory_package s = is_some s.context.kube_factory
is_present local_volume_package s = is_some s.context.local_volume
is_present (kube_informer_package kind) s = is_some (s.context.kube_informers kind)

-- The package that another one imports for its injector.
abbrev pub needed : Package → Option Package
needed local_factory_package = some local_client_package
needed kube_factory_package = some kube_client_package
needed local_volume_package = some local_factory_package
needed (kube_informer_package _) = some kube_factory_package
needed _ = none

abbrev pub Needs : {LC KC KF I T : Type 0} → Package → Injected LC KC KF I T → Type 0
Needs p s = elim (needed p) [ none ↦ Unit {0} | some q ↦ is_present q s ≡ true ]

-- Every informer that the context gives is in the list.
abbrev pub informer_at :
    {Config LC KC KF I T : Type 0}
    → Makers Config LC KC KF I T
    → Package
    → Injected LC KC KF I T
    → Option I
informer_at M local_volume_package s = elim s.context.local_volume [
  | none ↦ none
  | some inf ↦ some (local_volume_informer M inf s.factories).1
]
informer_at M (kube_informer_package kind) s = elim (s.context.kube_informers kind) [
  | none ↦ none
  | some f ↦ some (M.kube_informer f kind)
]
informer_at M _ s = none

abbrev pub Fed :
    {Config LC KC KF I T : Type 0}
    → Makers Config LC KC KF I T
    → Injected LC KC KF I T
    → List I
    → Type 0
Fed {I = I} M s infs = (p : Package) (i : I) → informer_at M p s ≡ some i → In i infs

abbrev pub is_informer_package : Package → Bool
is_informer_package local_volume_package = true
is_informer_package (kube_informer_package _) = true
is_informer_package _ = false

-- The context holds no informer.
abbrev pub Blank : {LC KC KF I T : Type 0} → Injected LC KC KF I T → Type 0
Blank s = (s.context.local_volume ≡ none) × ((kind : Kind) → s.context.kube_informers kind ≡ none)

module _ {LC KC KF I T : Type 0} where
  -- The later context has all that the earlier one has.
  abbrev pub Grows : Injected LC KC KF I T → Injected LC KC KF I T → Type 0
  Grows s s' = (p : Package) → is_present p s ≡ true → is_present p s' ≡ true

  pub set_local_client-Grows : (c : LC) (s : Injected LC KC KF I T) → Grows s (set_local_client c s)
  set_local_client-Grows c s local_client_package known = refl
  set_local_client-Grows c s _ known = known

  pub set_kube_client-Grows : (c : KC) (s : Injected LC KC KF I T) → Grows s (set_kube_client c s)
  set_kube_client-Grows c s kube_client_package known = refl
  set_kube_client-Grows c s _ known = known

  pub set_local_factory-Grows :
      (c : LC) (s : Injected LC KC KF I T) → Grows s (set_local_factory c s)
  unfolding set_local_factory
  set_local_factory-Grows c s local_factory_package known = refl
  set_local_factory-Grows c s _ known = known

  pub set_local_factory_present :
      (c : LC) (s : Injected LC KC KF I T)
      → is_present local_factory_package (set_local_factory c s) ≡ true
  unfolding set_local_factory
  set_local_factory_present c s = refl

  pub set_local_factory-Blank :
      (c : LC) (s : Injected LC KC KF I T) → Blank s → Blank (set_local_factory c s)
  unfolding set_local_factory
  set_local_factory-Blank c s empty = empty

  pub set_kube_factory-Grows : (f : KF) (s : Injected LC KC KF I T) → Grows s (set_kube_factory f s)
  set_kube_factory-Grows f s kube_factory_package known = refl
  set_kube_factory-Grows f s _ known = known

  pub set_local_volume-Grows :
      (inf : LocalVolumeInformer T) (fs : Region (SharedInformerFactory LC I T))
      (s : Injected LC KC KF I T)
      → Grows s (set_local_volume inf fs s)
  set_local_volume-Grows inf fs s local_volume_package known = refl
  set_local_volume-Grows inf fs s _ known = known

  pub set_kube_informer-Grows :
      (kind : Kind) (f : KF) (s : Injected LC KC KF I T) → Grows s (set_kube_informer kind f s)
  set_kube_informer-Grows kind f s (kube_informer_package k) known =
      is_some-if (same_kind kind k) f (s.context.kube_informers k) known
  set_kube_informer-Grows kind f s _ known = known

module _ {LC KC KF I T : Type 0} where
  -- The packages of a list in turn, where each finds what it needs, before the list or in it.
  abbrev pub AllNeeds : List Package → Injected LC KC KF I T → Type 0
  AllNeeds [] s = Unit {0}
  AllNeeds (p ∷ ps) s = Needs p s × AllNeeds ps s

  Needs-Grows : (p : Package) (s s' : Injected LC KC KF I T) → Grows s s' → Needs p s → Needs p s'
  Needs-Grows local_factory_package s s' grows needs = grows local_client_package needs
  Needs-Grows kube_factory_package s s' grows needs = grows kube_client_package needs
  Needs-Grows local_volume_package s s' grows needs = grows local_factory_package needs
  Needs-Grows (kube_informer_package kind) s s' grows needs = grows kube_factory_package needs
  Needs-Grows _ s s' grows needs = needs

  pub AllNeeds-Grows :
      (ps : List Package) (s s' : Injected LC KC KF I T)
      → Grows s s'
      → AllNeeds ps s
      → AllNeeds ps s'
  AllNeeds-Grows [] s s' grows needs = tt
  AllNeeds-Grows (p ∷ ps) s s' grows (one, others) =
      (Needs-Grows p s s' grows one, AllNeeds-Grows ps s s' grows others)
