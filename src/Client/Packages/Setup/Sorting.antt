-- ===== src/Client/Packages/Setup/Sorting.antt =====
-- The packages by the stage of SetupInformers in which they run.
use kubernetes_local_volume.Base.{
  All, ◌≡◌, refl, ap, Bool, true, false, some, List, [], ◌∷◌, ◌++◌, map, append-nil, In, In-select,
  select-In, here, there, select,
}
use kubernetes_local_volume.Injection.Stages.{is_client, is_factory, is_duck, is_informer, staged}
use kubernetes_local_volume.Client.Packages.{
  Injected, Makers, Package, local_client_package, kube_client_package, local_factory_package,
  kube_factory_package, local_volume_package, kube_informer_package, init,
}
use kubernetes_local_volume.Client.Packages.Setup.{
  is_present, needed, Needs, AllNeeds, is_informer_package, Blank, Fed, informer_at, Grows,
}

abbrev pub is_client_package : Package → Bool
is_client_package local_client_package = true
is_client_package kube_client_package = true
is_client_package _ = false

abbrev pub is_factory_package : Package → Bool
is_factory_package local_factory_package = true
is_factory_package kube_factory_package = true
is_factory_package _ = false

pub all_of : {P : Package → Type 0} (qs : List Package) → ((p : Package) → In p qs → P p) → All P qs
all_of [] each = tt
all_of (q ∷ qs) each = (each q (here refl), all_of qs (λ p i. each p (there i)))

module _ {LC KC KF I T : Type 0} where
  pub all_needs :
      (qs : List Package) (s : Injected LC KC KF I T)
      → ((p : Package) → In p qs → Needs p s)
      → AllNeeds qs s
  all_needs [] s each = tt
  all_needs (q ∷ qs) s each = (each q (here refl), all_needs qs s (λ p i. each p (there i)))

  pub client-Needs :
      (p : Package) (s : Injected LC KC KF I T) → is_client_package p ≡ true → Needs p s
  client-Needs local_client_package s e = tt
  client-Needs kube_client_package s e = tt
  client-Needs _ s e = cc

  -- A factory needs a client, and an informer a factory.
  pub factory-Needs :
      (p : Package)
      → is_factory_package p ≡ true
      → (q : Package) × (needed p ≡ some q)
        × (is_client_package q ≡ true)
        × ((s : Injected LC KC KF I T) → is_present q s ≡ true → Needs p s)
  factory-Needs local_factory_package e = (local_client_package, refl, refl, λ s h. h)
  factory-Needs kube_factory_package e = (kube_client_package, refl, refl, λ s h. h)
  factory-Needs _ e = cc

  pub informer-Needs :
      (p : Package)
      → is_informer_package p ≡ true
      → (q : Package) × (needed p ≡ some q)
        × (is_factory_package q ≡ true)
        × ((s : Injected LC KC KF I T) → is_present q s ≡ true → Needs p s)
  informer-Needs local_volume_package e = (local_factory_package, refl, refl, λ s h. h)
  informer-Needs (kube_informer_package _) e = (kube_factory_package, refl, refl, λ s h. h)
  informer-Needs _ e = cc

module _ {Config LC KC KF I T : Type 0} (M : Makers Config LC KC KF I T) where
  select-init :
      (ps : List Package)
      → (select is_client (map (init M) ps) ≡ map (init M) (select is_client_package ps))
        × (select is_factory (map (init M) ps) ≡ map (init M) (select is_factory_package ps))
        × (select is_duck (map (init M) ps) ≡ [])
        × (select is_informer (map (init M) ps) ≡ map (init M) (select is_informer_package ps))
  unfolding init
  select-init [] = (refl, refl, refl, refl)
  select-init (local_client_package ∷ ps) =
      let (c, f, d, i) = select-init ps in (ap (λ rs. init M local_client_package ∷ rs) c, f, d, i)
  select-init (kube_client_package ∷ ps) =
      let (c, f, d, i) = select-init ps in (ap (λ rs. init M kube_client_package ∷ rs) c, f, d, i)
  select-init (local_factory_package ∷ ps) =
      let (c, f, d, i) = select-init ps in (c, ap (λ rs. init M local_factory_package ∷ rs) f, d, i)
  select-init (kube_factory_package ∷ ps) =
      let (c, f, d, i) = select-init ps in (c, ap (λ rs. init M kube_factory_package ∷ rs) f, d, i)
  select-init (local_volume_package ∷ ps) =
      let (c, f, d, i) = select-init ps in (c, f, d, ap (λ rs. init M local_volume_package ∷ rs) i)
  select-init (kube_informer_package kind ∷ ps) =
      let (c, f, d, i) = select-init ps in
      (c, f, d, ap (λ rs. init M (kube_informer_package kind) ∷ rs) i)

  -- The packages in the order of the stages.
  pub staged-init :
      (ps : List Package)
      → staged (map (init M) ps)
        ≡ map (init M) (select is_client_package ps)
          ++ (map (init M) (select is_factory_package ps)
              ++ (map (init M) (select is_informer_package ps) ++ []))
  staged-init ps = let (c, f, d, i) = select-init ps in rw (c, f, d, i, append-nil) refl

  -- What a package needs is in the context after the stage before.
  pub stage-Needs :
      (before of_stage : Package → Bool)
      → ((p : Package)
          → of_stage p ≡ true
          → (q : Package) × (needed p ≡ some q)
            × (before q ≡ true)
            × ((s : Injected LC KC KF I T) → is_present q s ≡ true → Needs p s))
      → (ps : List Package) (s : Injected LC KC KF I T)
      → ((p q : Package) → In p ps → needed p ≡ some q → In q ps)
      → ((q : Package) → In q (select before ps) → is_present q s ≡ true)
      → AllNeeds (select of_stage ps) s
  stage-Needs before of_stage needs ps s closed present = all_needs (select of_stage ps) s (λ p i.
      let (j, kind) = select-In of_stage ps i in
      let (q, e, earlier, found) = needs p kind in
      found s (present q (In-select before ps earlier (closed p q j e))))

  pub Blank-Fed : (s : Injected LC KC KF I T) (infs : List I) → Blank s → Fed M s infs
  Blank-Fed s infs (volume, kinds) local_volume_package i = rw (volume, informer_at) (λ e. cc)
  Blank-Fed s infs (volume, kinds) (kube_informer_package kind) i =
      rw (kinds kind, informer_at) (λ e. cc)
  Blank-Fed s infs empty _ i = λ e. cc

  -- A package has a stage, and what it puts into the context there stays.
  pub at_its_stage :
      (p : Package) (ps : List Package) (s1 s2 s3 : Injected LC KC KF I T)
      → ((q : Package) → In q (select is_client_package ps) → is_present q s1 ≡ true)
      → ((q : Package) → In q (select is_factory_package ps) → is_present q s2 ≡ true)
      → ((q : Package) → In q (select is_informer_package ps) → is_present q s3 ≡ true)
      → Grows s1 s2
      → Grows s2 s3
      → In p ps
      → is_present p s3 ≡ true
  at_its_stage local_client_package ps s1 s2 s3 one two three grow grown i =
      grown local_client_package (
        grow local_client_package
          (one local_client_package (In-select is_client_package ps refl i)))
  at_its_stage kube_client_package ps s1 s2 s3 one two three grow grown i =
      grown kube_client_package
        (grow kube_client_package (one kube_client_package (In-select is_client_package ps refl i)))
  at_its_stage local_factory_package ps s1 s2 s3 one two three grow grown i =
      grown local_factory_package
        (two local_factory_package (In-select is_factory_package ps refl i))
  at_its_stage kube_factory_package ps s1 s2 s3 one two three grow grown i =
      grown kube_factory_package (two kube_factory_package (In-select is_factory_package ps refl i))
  at_its_stage local_volume_package ps s1 s2 s3 one two three grow grown i =
      three local_volume_package (In-select is_informer_package ps refl i)
  at_its_stage (kube_informer_package kind) ps s1 s2 s3 one two three grow grown i =
      three (kube_informer_package kind) (In-select is_informer_package ps refl i)

  pub clients_not_informers :
      (p : Package) → is_client_package p ≡ true → is_informer_package p ≡ false
  clients_not_informers local_client_package e = refl
  clients_not_informers kube_client_package e = refl
  clients_not_informers _ e = cc

  pub factories_not_informers :
      (p : Package) → is_factory_package p ≡ true → is_informer_package p ≡ false
  factories_not_informers local_factory_package e = refl
  factories_not_informers kube_factory_package e = refl
  factories_not_informers _ e = cc
