-- ===== src/Client/Factory.antt =====
-- The shared informers (pkg/client/informers/externalversions/factory.go and generic.go). A type of
-- objects is its name; clients `C`, informers `I` and tweaks of the list options `T` are of any types.
pub mod Counting
pub mod Sharing
use kubernetes_local_volume.Base.{
  ℕ, String, Bool, true, false, Option, none, some, List, [], ◌∷◌, if◌then◌else◌,
}
use kubernetes_local_volume.Base.Dict.{Dict, lookup, insert}

pub record SharedInformerFactory (C I T : Type 0) : Type 0 where
  pub client : C
  pub namespace : String
  pub tweak_list_options : Option T
  pub default_resync : ℕ
  pub custom_resync : Dict ℕ
  pub informers : Dict I
  pub started_informers : Dict Bool

abbrev pub SharedInformerOption : Type 0 → Type 0 → Type 0 → Type 0
SharedInformerOption C I T = SharedInformerFactory C I T → SharedInformerFactory C I T

-- `for k, v := range resyncConfig`
unfoldable pub set_resyncs : Dict ℕ → Dict ℕ → Dict ℕ
unfolding insert
set_resyncs [] custom = custom
set_resyncs ((k, v) ∷ rest) custom = set_resyncs rest (insert k v custom)

-- `f.startedInformers[t]`, which is false where the key is missing.
abbrev pub is_started : String → Dict Bool → Bool
is_started t started = elim (lookup t started) [ none ↦ false | some b ↦ b ]

-- The loop of Start: what is started after it, and the informers whose Run it calls, each in a
-- goroutine, with their types.
unfoldable pub start_loop : {I : Type 0} → Dict I → Dict Bool → Dict Bool × List (String × I)
unfolding lookup insert
start_loop [] started = (started, [])
start_loop ((t, informer) ∷ rest) started =
    let skipped = start_loop rest started in
    let (after, runs) = start_loop rest (insert t true started) in
    if is_started t started then skipped else (after, (t, informer) ∷ runs)

-- `has_synced` is cache.WaitForCacheSync.
unfoldable pub sync_loop : {I : Type 0} → (I → Bool) → Dict Bool → Dict I → Dict Bool
unfolding lookup
sync_loop has_synced started [] = []
sync_loop has_synced started ((t, informer) ∷ rest) =
    let res = sync_loop has_synced started rest in
    if is_started t started then (t, has_synced informer) ∷ res else res

module _ {C I T : Type 0} where
  unfoldable pub with_custom_resync_config : Dict ℕ → SharedInformerOption C I T
  unfolding set_resyncs
  with_custom_resync_config resync_config factory = record factory {
    custom_resync = set_resyncs resync_config factory.custom_resync;
  }

  unfoldable pub with_tweak_list_options : Option T → SharedInformerOption C I T
  with_tweak_list_options tweak factory = record factory { tweak_list_options = tweak }

  unfoldable pub with_namespace : String → SharedInformerOption C I T
  with_namespace namespace factory = record factory { namespace = namespace }

  unfoldable pub apply_options :
      List (SharedInformerOption C I T) → SharedInformerFactory C I T → SharedInformerFactory C I T
  apply_options [] factory = factory
  apply_options (opt ∷ options) factory = apply_options options (opt factory)

  unfoldable pub new_shared_informer_factory_with_options :
      C → ℕ → List (SharedInformerOption C I T) → SharedInformerFactory C I T
  unfolding apply_options
  new_shared_informer_factory_with_options client default_resync options =
      apply_options options (record {
        client = client;
        namespace = "";
        tweak_list_options = none;
        default_resync = default_resync;
        custom_resync = [];
        informers = [];
        started_informers = [];
      })

  unfoldable pub new_shared_informer_factory : C → ℕ → SharedInformerFactory C I T
  unfolding new_shared_informer_factory_with_options
  new_shared_informer_factory client default_resync =
      new_shared_informer_factory_with_options client default_resync []

  unfoldable pub new_filtered_shared_informer_factory :
      C → ℕ → String → Option T → SharedInformerFactory C I T
  unfolding new_shared_informer_factory_with_options with_namespace with_tweak_list_options
  new_filtered_shared_informer_factory client default_resync namespace tweak =
      new_shared_informer_factory_with_options client default_resync
        (with_namespace namespace ∷ with_tweak_list_options tweak ∷ [])

  unfoldable pub start :
      SharedInformerFactory C I T → SharedInformerFactory C I T × List (String × I)
  unfolding start_loop
  start f =
      let (started, runs) = start_loop f.informers f.started_informers in
      (record f { started_informers = started }, runs)

  unfoldable pub wait_for_cache_sync : (I → Bool) → SharedInformerFactory C I T → Dict Bool
  unfolding sync_loop
  wait_for_cache_sync has_synced f = sync_loop has_synced f.started_informers f.informers

  -- The period of a type: a custom one, or the default.
  abbrev pub resync_period : SharedInformerFactory C I T → String → ℕ
  resync_period f informer_type = elim (lookup informer_type f.custom_resync) [
    | none ↦ f.default_resync
    | some period ↦ period
  ]

  -- InformerFor, on the type of `obj`.
  unfoldable pub informer_for :
      String → (C → ℕ → I) → SharedInformerFactory C I T → SharedInformerFactory C I T × I
  unfolding lookup insert
  informer_for informer_type new_func f = elim (lookup informer_type f.informers) [
    | some informer ↦ (f, informer)
    | none ↦
        let informer = new_func f.client (resync_period f informer_type) in
        (record f { informers = insert informer_type informer f.informers }, informer)
  ]
