-- ===== src/Client/Packages/Setup/Running.antt =====
-- The injectors of packages in turn, where each finds in the context what it needs.
use kubernetes_local_volume.Base.{
  All, ◌≡◌, refl, subst, ◌∙◌, true, false, List, [], ◌∷◌, ◌++◌, map, append-nil, append_assoc, In,
}
use mathlib.Core.List.{map-append}
use kubernetes_local_volume.Fault.{Outcome, ok}
use kubernetes_local_volume.Fault.Pure.{◌>>=◌}
use kubernetes_local_volume.Injection.Stages.{Registration, run_all}
use kubernetes_local_volume.Client.Packages.{
  Injected, Makers, Package, local_client_package, kube_client_package, local_factory_package,
  kube_factory_package, local_volume_package, kube_informer_package, local_volumes, init,
  with_local_client, with_kube_client, with_local_factory, with_kube_factory, with_local_volume,
  with_kube_informer, set_local_client, set_kube_client, set_local_factory, set_local_volume,
  set_kube_informer, local_volume_informer,
}
use kubernetes_local_volume.Client.Packages.Setup.{
  is_present, Needs, Fed, is_informer_package, Blank, Grows, in_either, some_of, bind-some,
  same_kind_refl, set_local_client-Grows, set_kube_client-Grows, set_local_factory-Grows,
  set_kube_factory-Grows, set_local_volume-Grows, set_kube_informer-Grows,
  set_local_factory_present, set_local_factory-Blank, AllNeeds, AllNeeds-Grows,
}
use kubernetes_local_volume.Client.Packages.Setup.Feeding.{local_volume-Fed, kube_informer-Fed}

module _ {Config LC KC KF I T : Type 0} (M : Makers Config LC KC KF I T) (cfg : Config) where
  abbrev pub Registrations : Type 0
  Registrations = List (Registration (Outcome (Injected LC KC KF I T)) Config (Outcome I))

  -- The run of an injector that makes no informer, and of one that makes one.
  ends_plain :
      (m : Outcome (Injected LC KC KF I T)) (s' : Injected LC KC KF I T)
      → m ≡ ok s'
      → (rs : Registrations) (infs : List (Outcome I))
      → run_all cfg rs (m, infs) ≡ run_all cfg rs (ok s', infs ++ map ok [])
  ends_plain m s' e rs infs = rw (e, append-nil) refl

  ends_made :
      (m : Outcome (Injected LC KC KF I T × I)) (s' : Injected LC KC KF I T) (i : I)
      → m ≡ ok (s', i)
      → (rs : Registrations) (infs : List (Outcome I))
      → run_all cfg rs (
        m >>= (λ (r : Injected LC KC KF I T × I). ok r.0),
        infs ++ (m >>= (λ (r : Injected LC KC KF I T × I). ok r.1)) ∷ [],
      )
        ≡ run_all cfg rs (ok s', infs ++ map ok (i ∷ []))
  ends_made m s' i e rs infs = rw e refl

  -- How a package ends.
  record Ran (p : Package) (s s' : Injected LC KC KF I T) (made : List I) : Type 0 where
    ends :
        (rs : Registrations) (infs : List (Outcome I))
        → run_all cfg (init M p ∷ rs) (ok s, infs) ≡ run_all cfg rs (ok s', infs ++ map ok made)
    present : is_present p s' ≡ true
    grows : Grows s s'
    blank : is_informer_package p ≡ false → Blank s → Blank s'
    feeds : is_informer_package p ≡ true → (infs : List I) → Fed M s infs → Fed M s' (infs ++ made)

  abbrev Runs : Package → Injected LC KC KF I T → Type 0
  Runs p s = (s' : Injected LC KC KF I T) × (made : List I) × Ran p s s' made

  module _ (lc : LC) (kc : KC) (local_made : M.local_for_config_or_die cfg ≡ ok lc)
      (kube_made : M.kube_for_config_or_die cfg ≡ ok kc) where
    runs : (p : Package) (s : Injected LC KC KF I T) → Needs p s → Runs p s
    unfolding init with_local_client with_kube_client with_local_factory with_kube_factory
        with_local_volume with_kube_informer
    runs local_client_package s needs = (
      set_local_client lc s,
      [],
      record {
        ends = ends_plain (with_local_client M s cfg) (set_local_client lc s) (rw local_made refl);
        present = refl;
        grows = set_local_client-Grows lc s;
        blank = λ kind empty. empty;
        feeds = λ kind. cc;
      },
    )
    runs kube_client_package s needs = (
      set_kube_client kc s,
      [],
      record {
        ends = ends_plain (with_kube_client M s cfg) (set_kube_client kc s) (rw kube_made refl);
        present = refl;
        grows = set_kube_client-Grows kc s;
        blank = λ kind empty. empty;
        feeds = λ kind. cc;
      },
    )
    runs local_factory_package s needs =
        let (c, e) = some_of s.context.local_client needs in
        (
          set_local_factory c s,
          [],
          record {
            ends = ends_plain (with_local_factory M s) _ (bind-some s.context.local_client c _ e);
            present = set_local_factory_present c s;
            grows = set_local_factory-Grows c s;
            blank = λ kind empty. set_local_factory-Blank c s empty;
            feeds = λ kind. cc;
          },
        )
    runs kube_factory_package s needs =
        let (c, e) = some_of s.context.kube_client needs in
        (
          _,
          [],
          record {
            ends = ends_plain (with_kube_factory M s) _ (bind-some s.context.kube_client c _ e);
            present = refl;
            grows = set_kube_factory-Grows _ s;
            blank = λ kind empty. empty;
            feeds = λ kind. cc;
          },
        )
    runs local_volume_package s needs =
        let (r, e) = some_of s.context.local_factory needs in
        let inf = local_volumes r (s.factories.cell r) in
        let made = local_volume_informer M inf s.factories in
        (
          set_local_volume inf made.0 s,
          made.1 ∷ [],
          record {
            ends = ends_made (with_local_volume M s) _ _ (bind-some s.context.local_factory r _ e);
            present = refl;
            grows = set_local_volume-Grows inf made.0 s;
            blank = λ kind. cc;
            feeds = λ kind infs fed. local_volume-Fed M inf s infs fed;
          },
        )
    runs (kube_informer_package kind) s needs =
        let (f, e) = some_of s.context.kube_factory needs in
        (
          set_kube_informer kind f s,
          M.kube_informer f kind ∷ [],
          record {
            ends =
                ends_made (with_kube_informer M kind s) _ _
                  (bind-some s.context.kube_factory f _ e);
            present = rw (same_kind_refl kind) refl;
            grows = set_kube_informer-Grows kind f s;
            blank = λ kind. cc;
            feeds = λ _ infs fed. kube_informer-Fed M kind f s infs fed;
          },
        )

    -- The run of a list of packages.
    pub record RanAll (ps : List Package) (s s' : Injected LC KC KF I T) (made : List I)
        : Type 0 where
      pub ends :
          (rs : Registrations) (infs : List (Outcome I))
          → run_all cfg (map (init M) ps ++ rs) (ok s, infs)
            ≡ run_all cfg rs (ok s', infs ++ map ok made)
      pub present : (p : Package) → In p ps → is_present p s' ≡ true
      pub grows : Grows s s'
      pub blank : All (λ p. is_informer_package p ≡ false) ps → Blank s → Blank s'
      pub feeds :
          All (λ p. is_informer_package p ≡ true) ps
          → (infs : List I) → Fed M s infs
          → Fed M s' (infs ++ made)

    pub runs_all :
        (ps : List Package) (s : Injected LC KC KF I T)
        → AllNeeds ps s
        → (s' : Injected LC KC KF I T) × (made : List I) × RanAll ps s s' made
    runs_all [] s needs = (
      s,
      [],
      record {
        ends = λ rs infs. rw append-nil refl;
        present = λ p i. elim i [ ];
        grows = λ p known. known;
        blank = λ all empty. empty;
        feeds = λ all infs fed. rw append-nil fed;
      },
    )
    runs_all (p ∷ ps) s (one, others) =
        let (s1, made, ran) = runs p s one in
        let (s2, more, later) = runs_all ps s1 (AllNeeds-Grows ps s s1 ran.grows others) in
        (
          s2,
          made ++ more,
          record {
            ends = λ rs infs.
                ran.ends (map (init M) ps ++ rs) infs
                ∙ later.ends rs (infs ++ map ok made)
                ∙ simp (map-append, append_assoc);
            present = λ q i.
                in_either (λ x. is_present x s2 ≡ true) p ps q i (later.grows p ran.present)
                  (later.present q);
            grows = λ q known. later.grows q (ran.grows q known);
            blank = λ all empty. later.blank all.1 (ran.blank all.0 empty);
            feeds = λ all infs fed.
                subst (Fed M s2) (append_assoc infs made more)
                  (later.feeds all.1 (infs ++ made) (ran.feeds all.0 infs fed));
          },
        )
