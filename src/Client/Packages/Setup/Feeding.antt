-- ===== src/Client/Packages/Setup/Feeding.antt =====
-- The informers that a context gives, and those that its injectors returned.
use kubernetes_local_volume.Base.{
  ◌≡◌, refl, ap, Bool, true, false, Option, none, some, List, [], ◌∷◌, ◌++◌, In, In-append_left,
  In-append_right, here, if◌then◌else◌,
}
use kubernetes_local_volume.Store.{Region, cell-put}
use kubernetes_local_volume.Client.Factory.Sharing.{informer_for_twice}
use kubernetes_local_volume.Client.Factory.{SharedInformerFactory}
use kubernetes_local_volume.Client.Packages.{
  Kind, pods, persistent_volume_claims, persistent_volumes, storage_classes, Injected, Makers,
  local_volume_package, kube_informer_package, same_kind, default_informer, local_volume_type,
  set_local_volume, set_kube_informer, LocalVolumeInformer, local_volume_informer,
}
use kubernetes_local_volume.Client.Packages.Setup.{Fed}

same_kind_eq : (k j : Kind) → same_kind k j ≡ true → k ≡ j
same_kind_eq pods pods e = refl
same_kind_eq persistent_volume_claims persistent_volume_claims e = refl
same_kind_eq persistent_volumes persistent_volumes e = refl
same_kind_eq storage_classes storage_classes e = refl
same_kind_eq _ _ e = cc

module _ {Config LC KC KF I T : Type 0} (M : Makers Config LC KC KF I T) where
  -- The shared informer is the same when it is asked for again.
  pub local_volume_informer_again :
      (inf : LocalVolumeInformer T) (fs : Region (SharedInformerFactory LC I T))
      → (local_volume_informer M inf (local_volume_informer M inf fs).0).1
        ≡ (local_volume_informer M inf fs).1
  unfolding local_volume_informer
  local_volume_informer_again inf fs = rw cell-put (
      ap (λ r. r.1)
        (informer_for_twice local_volume_type (default_informer M inf) (default_informer M inf)
          (fs.cell inf.factory)))

  pub local_volume-Fed :
      (inf : LocalVolumeInformer T) (s : Injected LC KC KF I T) (infs : List I)
      → Fed M s infs
      → let made = local_volume_informer M inf s.factories in
        Fed M (set_local_volume inf made.0 s) (infs ++ made.1 ∷ [])
  local_volume-Fed inf s infs fed local_volume_package i e =
      (let again = local_volume_informer_again inf s.factories in In-append_right infs (here (cc)))
  local_volume-Fed inf s infs fed (kube_informer_package kind) i e =
      In-append_left _ (fed (kube_informer_package kind) i e)
  local_volume-Fed inf s infs fed _ i e = cc

  kube_informer_either :
      (kind k : Kind) (f : KF) (o : Option KF) (infs : List I) (i : I) (b : Bool)
      → (b ≡ true → kind ≡ k)
      → ((elim o [ none ↦ none | some g ↦ some (M.kube_informer g k) ]) ≡ some i → In i infs)
      → (elim (if b then some f else o) [ none ↦ none | some g ↦ some (M.kube_informer g k) ])
        ≡ some i
      → In i (infs ++ M.kube_informer f kind ∷ [])
  kube_informer_either kind k f o infs i true same fed e =
      let one_kind = same refl in In-append_right infs (here (cc))
  kube_informer_either kind k f o infs i false same fed e = In-append_left _ (fed e)

  pub kube_informer-Fed :
      (kind : Kind) (f : KF) (s : Injected LC KC KF I T) (infs : List I)
      → Fed M s infs
      → Fed M (set_kube_informer kind f s) (infs ++ M.kube_informer f kind ∷ [])
  kube_informer-Fed kind f s infs fed local_volume_package i =
      λ e. In-append_left _ (fed local_volume_package i e)
  kube_informer-Fed kind f s infs fed (kube_informer_package k) i =
      kube_informer_either kind k f (s.context.kube_informers k) infs i (same_kind kind k)
        (same_kind_eq kind k) (fed (kube_informer_package k) i)
  kube_informer-Fed kind f s infs fed _ i = λ e. cc
