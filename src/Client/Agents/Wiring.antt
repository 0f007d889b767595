-- ===== src/Client/Agents/Wiring.antt =====
-- The informers with handlers of NewAgent and NewGC, after SetupInformers.
use kubernetes_local_volume.Base.{
  ◌≡◌, refl, subst, true, some, List, [], ◌∷◌, map, In, here, there, String, sym, ap,
}
use kubernetes_local_volume.Base.Int.{ℤ}
use kubernetes_local_volume.Fault.{missing_object, Reply, refused, ok}
use kubernetes_local_volume.Host.{Host, History, got_lv}
use kubernetes_local_volume.Types.Objects.{LocalVolume}
use kubernetes_local_volume.Lvm.{create_vg}
use kubernetes_local_volume.Types.{vg_name}
use kubernetes_local_volume.Injection.{setup_informers, empty_registry}
use kubernetes_local_volume.Injection.Stages.{register_all}
use kubernetes_local_volume.Agent.Reconciler.{
  create_lv, registration, register_node_local_volume_storage,
}
use kubernetes_local_volume.Client.Packages.{
  persistent_volumes, Injected, Makers, Package, local_client_package, kube_client_package,
  local_volume_package, kube_informer_package, init,
}
use kubernetes_local_volume.Client.Packages.Setup.{
  is_present, needed, Blank, Fed, informer_at, some_of,
}
use kubernetes_local_volume.Client.Packages.Setup.Ready.{setup_ready}
use kubernetes_local_volume.Client.Packages.Setup.Feeding.{local_volume_informer_again}
use kubernetes_local_volume.Client.Scheduling.{Listing}
use kubernetes_local_volume.Client.Agents.{
  Handed, AddedHandler, AgentMade, GcMade, agent_made, new_agent, gc_made, new_gc,
}

-- The packages that pkg/agent imports.
abbrev pub agent_imports : List Package
agent_imports =
    local_client_package
    ∷ local_volume_package
    ∷ kube_informer_package persistent_volumes
    ∷ kube_client_package
    ∷ []

-- The registration of the node ends without an error.
registration_ok :
    (H : Host) (node_id : String) (found : Reply LocalVolume) (h : History)
    → (registration H node_id found h).0 ≡ ok tt
unfolding create_lv
registration_ok H node_id (refused (missing_object _)) h = refl
registration_ok H node_id _ h = refl

register_ok :
    (H : Host) (node_id : String) (h : History)
    → register_node_local_volume_storage H node_id h
      ≡ (ok tt, (register_node_local_volume_storage H node_id h).1)
unfolding register_node_local_volume_storage
register_ok H node_id h =
    ap (λ o. (o, (register_node_local_volume_storage H node_id h).1))
      (registration_ok H node_id (H.get_lv h "default" node_id) (got_lv "default" node_id ∷ h))

one_handled :
    {I O : Type 0} (infs : List I) (x a : AddedHandler I O)
    → In a (x ∷ [])
    → In x.informer infs
    → In a.informer infs
one_handled infs x a (here e) first =
    subst (λ (b : AddedHandler _ _). In b.informer infs) (sym e) first
one_handled infs x a (there i) first = elim i [ ]

two_handled :
    {I O : Type 0} (infs : List I) (x y a : AddedHandler I O)
    → In a (x ∷ y ∷ [])
    → In x.informer infs
    → In y.informer infs
    → In a.informer infs
two_handled infs x y a (here e) first second =
    subst (λ (b : AddedHandler _ _). In b.informer infs) (sym e) first
two_handled infs x y a (there i) first second = one_handled infs y a i second

module _ {Config LC KC KF I T X KL Q Logger O : Type 0} (M : Makers Config LC KC KF I T)
    (L : Listing KF I X KL) (A : Handed O) (new_queue : String → Q) (logger : Logger)
    (node_id : String) where
  -- Every informer with a handler is in the list.
  abbrev pub Handles : List (AddedHandler I O) → List I → Type 0
  Handles added infs = (a : AddedHandler I O) → In a added → In a.informer infs

  agent_made-Handles :
      (s : Injected LC KC KF I T) (infs : List I)
      → ((p : Package) → In p agent_imports → is_present p s ≡ true)
      → Fed M s infs
      → (made : AgentMade M L A new_queue logger node_id) × ((H : Host) (h h1 : History) (n : ℤ)
          → create_vg H vg_name h ≡ (ok n, h1)
          → new_agent M L A new_queue logger node_id H s h
            ≡ (ok made, (register_node_local_volume_storage H node_id h1).1))
        × Handles made.added infs
  unfolding new_agent agent_made
  agent_made-Handles s infs present fed =
      let (lc, at_lc) = some_of s.context.local_client (present local_client_package (here refl)) in
      let (lv, at_lv) =
        some_of s.context.local_volume (present local_volume_package (there (here refl))) in
      let (pv, at_pv) =
        some_of (s.context.kube_informers persistent_volumes)
          (present (kube_informer_package persistent_volumes) (there (there (here refl)))) in
      (
        agent_made M L A new_queue logger node_id lc lv pv s,
        λ H h h1 n made.
            rw (at_lc, at_lv, at_pv, new_agent) (rw made (rw (register_ok H node_id h1) refl)),
        λ a i.
            two_handled infs _ _ a i
              (subst (λ j. In j infs) (sym (local_volume_informer_again M lv s.factories))
                (fed local_volume_package _ (rw (at_lv, informer_at) refl)))
              (fed (kube_informer_package persistent_volumes) _ (rw (at_pv, informer_at) refl)),
      )

  gc_made-Handles :
      (s : Injected LC KC KF I T) (infs : List I)
      → ((p : Package) → In p agent_imports → is_present p s ≡ true)
      → Fed M s infs
      → (made : GcMade M L A new_queue logger node_id) × (new_gc M L A new_queue logger node_id s
          ≡ ok made)
        × Handles made.added infs
  unfolding new_gc gc_made
  gc_made-Handles s infs present fed =
      let (kc, at_kc) =
        some_of s.context.kube_client
          (present kube_client_package (there (there (there (here refl))))) in
      let (pv, at_pv) =
        some_of (s.context.kube_informers persistent_volumes)
          (present (kube_informer_package persistent_volumes) (there (there (here refl)))) in
      let read = fed (kube_informer_package persistent_volumes) _ (rw (at_pv, informer_at) refl) in
      (
        gc_made M L A new_queue logger node_id kc pv s,
        rw (at_kc, at_pv, new_gc) refl,
        λ a i. one_handled infs _ a i read,
      )

  -- SetupInformers with packages whose imports are among them, those of the agent being some of them,
  -- in a context without informers, where the makers of both clients do not panic: it does not panic.
  -- On the context that it makes NewGC does not panic, and NewAgent ends with a controller on every
  -- machine where CreateVG ends without an error. Each informer to which the two add a handler is one
  -- that SetupInformers returned.
  pub setup_informers-Handles :
      (ps : List Package)
      → ((p q : Package) → In p ps → needed p ≡ some q → In q ps)
      → ((p : Package) → In p agent_imports → In p ps)
      → (cfg : Config) (lc : LC) (kc : KC) → M.local_for_config_or_die cfg ≡ ok lc
      → M.kube_for_config_or_die cfg ≡ ok kc
      → (s : Injected LC KC KF I T) → Blank s
      → (s' : Injected LC KC KF I T) × (infs : List I) × (agent : AgentMade M L A new_queue logger
          node_id)
        × (gc : GcMade M L A new_queue logger node_id) × (setup_informers
              (register_all (map (init M) ps) empty_registry)
              (ok s)
              cfg
            ≡ (ok s', map ok infs))
        × ((H : Host) (h h1 : History) (n : ℤ)
            → create_vg H vg_name h ≡ (ok n, h1)
            → new_agent M L A new_queue logger node_id H s' h
              ≡ (ok agent, (register_node_local_volume_storage H node_id h1).1))
        × (new_gc M L A new_queue logger node_id s' ≡ ok gc)
        × Handles agent.added infs
        × Handles gc.added infs
  setup_informers-Handles ps closed imports cfg lc kc local_made kube_made s empty =
      let (s', infs, set, present, fed) =
        setup_ready M ps closed cfg lc kc local_made kube_made s empty in
      let imported : (p : Package) → In p agent_imports → is_present p s' ≡ true =
        λ p i. present p (imports p i) in
      let (agent, runs, handles) = agent_made-Handles s' infs imported fed in
      let (gc, made, handled) = gc_made-Handles s' infs imported fed in
      (s', infs, agent, gc, set, runs, made, handles, handled)
