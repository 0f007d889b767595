-- ===== src/Startup/Launch.antt =====
-- What a process with controllers does at its start (pkg/common/sharemain/main.go), by the first
-- informer whose cache does not synchronize.
use kubernetes_local_volume.Base.{
  ℕ, zero, suc, ◌+◌, ◌<◌, ◌≤◌, ◌≡◌, ◌⊎◌, inl, inr, refl, Bool, true, false, Bool-cases, List, [],
  ◌∷◌, ◌++◌, map, length, arith, ◌==◌, append_assoc,
}
use kubernetes_local_volume.Fault.{Reply, got, refused}
use kubernetes_local_volume.Injection.{Registry, setup_informers}
use kubernetes_local_volume.Startup.{
  Action, waits_for_cache, exits, failed_to_wait, run_each, wait_loop, start_informers, start_all,
  launch, main_with_config,
}

module _ {I K : Type 0} where
  -- The waits for `n` caches from the index `i` on.
  abbrev pub waits : ℕ → ℕ → List (Action I K)
  waits i zero = []
  waits i (suc n) = waits_for_cache i ∷ waits (i + 1) n

-- The first index from `i` on that does not synchronize, of `n`.
pub record FirstUnsynced (has_synced : ℕ → Bool) (i n k : ℕ) : Type 0 where
  pub low : i ≤ k
  pub high : k < i + n
  pub unsynced : has_synced k ≡ false
  pub earlier : (j : ℕ) → i ≤ j → j < k → has_synced j ≡ true

-- All of the `n` indexes from `i` on synchronize.
abbrev pub AllSynced : (ℕ → Bool) → ℕ → ℕ → Type 0
AllSynced has_synced i n = (j : ℕ) → i ≤ j → j < i + n → has_synced j ≡ true

module _ (has_synced : ℕ → Bool) where
  from_here :
      (i j : ℕ)
      → has_synced i ≡ true
      → i ≤ j
      → (i + 1 ≤ j → has_synced j ≡ true)
      → has_synced j ≡ true
  from_here i j here low next = elim (Bool-cases (j == i)) [
    | inl e ↦ rw (same e) here
    | inr e ↦ next (ground arith)
  ]
    where
      same : (j == i) ≡ true → j ≡ i
      same e = ground arith

module _ {I K : Type 0} (has_synced : ℕ → Bool) where
  -- What the loop leaves of `n` informers from the index `i` on: a wait for each, or waits up to the
  -- first that fails.
  abbrev Waited : ℕ → ℕ → List (Action I K) × Reply (Unit {0}) → Type 0
  Waited i n out =
      (AllSynced has_synced i n × (out ≡ (waits i n, got tt)))
      ⊎ ((k : ℕ) × (m : ℕ) × FirstUnsynced has_synced i n k
          × (k ≡ i + m)
          × (out ≡ (waits i (suc m), refused (failed_to_wait k))))

  one_more :
      (i n : ℕ) (out : List (Action I K) × Reply (Unit {0}))
      → has_synced i ≡ true
      → Waited (i + 1) n out
      → Waited i (suc n) (waits_for_cache i ∷ out.0, out.1)
  one_more i n out here (inl (all, e)) =
      inl (λ j l h. from_here has_synced i j here l (λ later. all j later (omega arith)), rw e refl)
  one_more i n out here (inr (k, m, first, place, e)) = inr (
    k,
    suc m,
    record {
      low = omega (arith, first.low);
      high = omega (arith, first.high);
      unsynced = first.unsynced;
      earlier = λ j l h. from_here has_synced i j here l (λ later. first.earlier j later h);
    },
    omega (arith, place),
    rw e refl,
  )

  wait_loop-Waited :
      (informers : List I) (i : ℕ) → Waited i (length informers) (wait_loop has_synced i informers)
  unfolding wait_loop
  wait_loop-Waited [] i = inl (λ j l h. absurd (omega arith), refl)
  wait_loop-Waited (x ∷ xs) i = elim (Bool-cases (has_synced i)) [
    | inl here ↦ rw here (one_more i (length xs) _ here (wait_loop-Waited xs (i + 1)))
    | inr missing ↦ rw missing (
        inr (
          i,
          0,
          record {
            low = omega arith;
            high = omega arith;
            unsynced = missing;
            earlier = λ j l h. absurd (omega arith);
          },
          omega arith,
          refl,
        ))
  ]

module _ {I K : Type 0} (has_synced : ℕ → Bool) where
  start_informers-waited :
      (informers : List I) {calls : List (Action I K)} {result : Reply (Unit {0})}
      → wait_loop has_synced 0 informers ≡ (calls, result)
      → start_informers has_synced informers ≡ (run_each informers ++ calls, result)
  unfolding start_informers
  start_informers-waited informers e = rw e refl

module _ {Context Config I K : Type 0} (has_synced : ℕ → Bool) where
  -- The process runs every informer and waits for their caches in order. If all synchronize it runs
  -- the controllers that the constructors make, and otherwise it exits behind the wait that failed, and
  -- no controller runs.
  pub main_with_config_cases :
      (registry : Registry Context Config I) (ctx : Context) (cfg : Config)
      (ctors : List (Context → K))
      → let (injected, informers) = setup_informers registry ctx cfg in
        let done = main_with_config has_synced registry ctx cfg ctors in
        (AllSynced has_synced 0 (length informers)
          × (done
              ≡ run_each informers
                ++ (waits 0 (length informers) ++ start_all (map (λ cf. cf injected) ctors))))
        ⊎ ((k : ℕ) × FirstUnsynced has_synced 0 (length informers) k
            × (done ≡ run_each informers ++ (waits 0 (suc k) ++ exits ∷ [])))
  unfolding main_with_config launch
  main_with_config_cases registry ctx cfg ctors =
      let (injected, informers) = setup_informers registry ctx cfg in
      elim (wait_loop-Waited {I = I} {K = K} has_synced informers 0) [
        | inl (all, e) ↦ inl (
          all,
          rw (start_informers-waited has_synced informers e) (
              append_assoc (run_each informers) (waits 0 (length informers))
                (start_all (map (λ cf. cf injected) ctors))),
        )
        | inr (k, m, first, place, e) ↦ inr (
          k,
          first,
          rw (start_informers-waited has_synced informers e) (
              rw (same k m place)
                (append_assoc (run_each informers) (waits 0 (suc m)) (exits ∷ []))),
        )
      ]
    where
      same : (k m : ℕ) → k ≡ 0 + m → k ≡ m
      same k m e = omega arith
