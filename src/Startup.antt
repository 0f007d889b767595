-- ===== src/Startup.antt =====
-- The start of a process with controllers: StartInformers, RunInformers and StartAll of
-- pkg/common/controller/controller.go, pkg/common/signals/signal.go, and MainWithConfig of
-- pkg/common/sharemain/main.go. Goroutines are the calls that start them, in order; whether
-- cache.WaitForCacheSync succeeds for the informer at an index is a parameter.
pub mod Launch
pub mod Config
use kubernetes_local_volume.Base.{
  ℕ, ◌+◌, ◌*◌, String, ◌<>◌, show_ℕ, Bool, true, false, List, [], ◌∷◌, ◌++◌, map, length,
  if◌then◌else◌,
}
use kubernetes_local_volume.Fault.{Error, plain, Outcome, ok, panic, Reply, got, refused}
use kubernetes_local_volume.Injection.{Registry, setup_informers}

-- What the process does, of informers `I` and controllers `K`.
pub data Action (I K : Type 0) : Type 0 where
  runs_informer : I → Action I K
  waits_for_cache : ℕ → Action I K
  runs_controller : K → ℕ → Action I K
  exits : Action I K

abbrev pub default_threads_per_controller : ℕ
default_threads_per_controller = 2

abbrev pub failed_to_wait : ℕ → Error
failed_to_wait i = plain ("failed to wait for cache at index " <> show_ℕ i <> " to sync")

module _ {I K : Type 0} where
  abbrev pub run_each : List I → List (Action I K)
  run_each informers = map runs_informer informers

  module _ (has_synced : ℕ → Bool) where
    -- The second loop, from the index `i` on.
    unfoldable pub wait_loop : ℕ → List I → List (Action I K) × Reply (Unit {0})
    wait_loop i [] = ([], got tt)
    wait_loop i (informer ∷ informers) =
        let (calls, result) = wait_loop (i + 1) informers in
        if has_synced i
        then (waits_for_cache i ∷ calls, result)
        else (waits_for_cache i ∷ [], refused (failed_to_wait i))

    unfoldable pub start_informers : List I → List (Action I K) × Reply (Unit {0})
    unfolding wait_loop
    start_informers informers =
        (run_each informers ++ (wait_loop 0 informers).0, (wait_loop 0 informers).1)

    -- The same, with the number of goroutines that the returned function waits for.
    unfoldable pub run_informers : List I → List (Action I K) × ℕ × Reply (Unit {0})
    unfolding wait_loop
    run_informers informers = (
      run_each informers ++ (wait_loop 0 informers).0,
      length informers,
      (wait_loop 0 informers).1,
    )

  unfoldable pub start_all : List K → List (Action I K)
  start_all [] = []
  start_all (c ∷ cs) = runs_controller c default_threads_per_controller ∷ start_all cs

-- The controllers run if the informers started; otherwise the logger's Fatal ends the process.
unfoldable pub launch :
    {I K : Type 0} → List (Action I K) × Reply (Unit {0}) → List K → List (Action I K)
unfolding start_all
launch (calls, refused _) controllers = calls ++ exits ∷ []
launch (calls, got _) controllers = calls ++ start_all controllers

-- SetupSignalHandler closes a channel: at the second call that panics. The flag tells whether it is
-- closed.
unfoldable pub setup_signal_handler : Bool → Outcome Bool
setup_signal_handler true = panic
setup_signal_handler false = ok true

module _ {Context Config I K : Type 0} (has_synced : ℕ → Bool) where
  -- `ctx` is the context of the signals.
  unfoldable pub main_with_config :
      Registry Context Config I → Context → Config → List (Context → K) → List (Action I K)
  unfolding launch
  main_with_config registry ctx cfg ctors =
      let (injected, informers) = setup_informers registry ctx cfg in
      let controllers = map (λ cf. cf injected) ctors in
      launch (start_informers has_synced informers) controllers
