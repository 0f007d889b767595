-- ===== src/Client/Packages/Setup/Ready.antt =====
-- SetupInformers with packages, each with those that it imports.
use kubernetes_local_volume.Base.{
  ◌≡◌, ap, ◌∙◌, true, some, List, [], ◌++◌, map, In, select-In, select,
}
use mathlib.Core.List.{map-append}
use kubernetes_local_volume.Fault.{ok}
use kubernetes_local_volume.Injection.{setup_informers, empty_registry}
use kubernetes_local_volume.Injection.Stages.{run_all, register_all, setup_informers-staged}
use kubernetes_local_volume.Client.Packages.{Injected, Makers, Package, init}
use kubernetes_local_volume.Client.Packages.Setup.{
  is_present, needed, is_informer_package, Blank, Fed,
}
use kubernetes_local_volume.Client.Packages.Setup.Running.{runs_all}
use kubernetes_local_volume.Client.Packages.Setup.Sorting.{
  is_client_package, is_factory_package, all_of, all_needs, client-Needs, factory-Needs,
  informer-Needs, staged-init, stage-Needs, Blank-Fed, clients_not_informers,
  factories_not_informers, at_its_stage,
}

map-append_twice :
    {A B : Type 0} (f : A → B) (xs ys zs : List A)
    → map f xs ++ map f ys ++ map f zs ≡ map f (xs ++ ys ++ zs)
map-append_twice f xs ys zs = simp map-append

module _ {Config LC KC KF I T : Type 0} (M : Makers Config LC KC KF I T) where
  -- SetupInformers with packages whose imports are among them, registered in any order, in a context
  -- without informers, where the makers of both clients do not panic: it does not panic, the context
  -- holds afterwards what each of the packages puts there, and every informer that the context gives is
  -- one of those returned.
  pub setup_ready :
      (ps : List Package)
      → ((p q : Package) → In p ps → needed p ≡ some q → In q ps)
      → (cfg : Config) (lc : LC) (kc : KC) → M.local_for_config_or_die cfg ≡ ok lc
      → M.kube_for_config_or_die cfg ≡ ok kc
      → (s : Injected LC KC KF I T) → Blank s
      → (s' : Injected LC KC KF I T) × (infs : List I) × (setup_informers
            (register_all (map (init M) ps) empty_registry)
            (ok s)
            cfg
          ≡ (ok s', map ok infs))
        × ((p : Package) → In p ps → is_present p s' ≡ true)
        × Fed M s' infs
  setup_ready ps closed cfg lc kc local_made kube_made s empty =
      let all = runs_all M cfg lc kc local_made kube_made in
      let clients = select is_client_package ps in
      let factories = select is_factory_package ps in
      let informers = select is_informer_package ps in
      let (s1, made1, ran1) =
        all clients s
          (all_needs clients s (λ p i. client-Needs p s (select-In is_client_package ps i).1)) in
      let (s2, made2, ran2) = all factories s1 (
        stage-Needs M is_client_package is_factory_package factory-Needs ps s1 closed
          ran1.present) in
      let (s3, made3, ran3) = all informers s2 (
        stage-Needs M is_factory_package is_informer_package informer-Needs ps s2 closed
          ran2.present) in
      (
        s3,
        made1 ++ made2 ++ made3,
        setup_informers-staged cfg (map (init M) ps) (ok s)
            ∙ ap (λ rs. run_all cfg rs (ok s, [])) (staged-init M ps)
            ∙ ran1.ends _ []
            ∙ ran2.ends _ _
            ∙ ran3.ends [] _
            ∙ ap (λ l. (ok s3, l)) (map-append_twice ok made1 made2 made3),
        λ p.
            at_its_stage M p ps s1 s2 s3 ran1.present ran2.present ran3.present ran2.grows
              ran3.grows,
        ran3.feeds (all_of informers (λ p i. (select-In is_informer_package ps i).1))
            (made1 ++ made2)
            (Blank-Fed M s2 (made1 ++ made2) (
              ran2.blank
                (all_of factories
                  (λ p i. factories_not_informers M p (select-In is_factory_package ps i).1))
                (ran1.blank
                  (all_of clients
                    (λ p i. clients_not_informers M p (select-In is_client_package ps i).1))
                  empty))),
      )
