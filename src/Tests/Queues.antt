-- ===== src/Tests/Queues.antt =====
-- The workers on simple queues, the routes on a router that is a list, and the start of a process.
use kubernetes_local_volume.Base.{
  ◌≤◌, ◌<◌, ◌≡◌, ◌≢◌, ◌⊎◌, inl, inr, refl, sym, String, Bool, true, false, Option, Bool-cases, none,
  some, List, [], ◌∷◌, ◌++◌, append-nil, arith, length, In, if◌then◌else◌,
}
use kubernetes_local_volume.Fault.{plain}
use kubernetes_local_volume.Types.Objects.{NamespacedName}
use kubernetes_local_volume.Controller.{
  Act, calls, reconciles, safe_key, process_next_work_item, Call, add, add_after, add_rate_limited,
  forget, done, Item, key_item, shutdown, failure, transient, panics,
}
use kubernetes_local_volume.Controller.Queue.{WorkQueue, Fifo, Drains, Reconciler, worker, returned}
use kubernetes_local_volume.Controller.Queue.Draining.{worker-reconciles, worker-returned}
use kubernetes_local_volume.Controller.Queue.Closing.{
  run_itself, a_worker, act, Timely, Waited, act_all, stop, ended, Closes,
}
use kubernetes_local_volume.Controller.Queue.Closing.Ending.{stop-ended}
use kubernetes_local_volume.Controller.Queue.Workers.{
  Exclusive, takes, moves, its_act, enqueued, Turns, started, turned, holds, without, same_key,
  same_key_iff, holds-without,
}
use kubernetes_local_volume.Controller.Queue.Exclusion.{Turns-Exact, Exact}

-- The keys that wait, and whether the queue is shutting down.
abbrev Simple : Type 0
Simple = List NamespacedName × Bool

abbrev push : NamespacedName → Simple → Simple
push key (keys, false) = (keys ++ key ∷ [], false)
push key (keys, true) = (keys, true)

abbrev simple_get : Simple → Option (Item × Simple)
simple_get ([], false) = none
simple_get ([], true) = some (shutdown, ([], true))
simple_get (key ∷ keys, stopping) = some (key_item key, (keys, stopping))

abbrev simple_apply : Call → Simple → Simple
simple_apply (add key) q = push key q
simple_apply (add_after key delay) q = push key q
simple_apply (add_rate_limited key) q = push key q
simple_apply (forget key) q = q
simple_apply (done key) q = q

abbrev simple : WorkQueue Simple
simple = record { get = simple_get; apply = simple_apply; shutting_down = λ q. q.1 }

push-appends :
    (key : NamespacedName) (q : Simple)
    → (more : List NamespacedName) × ((push key q).0 ≡ q.0 ++ more)
push-appends key (keys, false) = (key ∷ [], refl)
push-appends key (keys, true) = ([], rw (append-nil keys) refl)

simple-Fifo : Fifo simple
simple-Fifo = record { pending = λ q. q.0; get_first = first; appends = append }
  where
    first :
        (q : Simple) (key : NamespacedName) (keys : List NamespacedName)
        → q.0 ≡ key ∷ keys
        → (rest : Simple) × (simple_get q ≡ some (key_item key, rest)) × (rest.0 ≡ keys)
    first (keys, stopping) k ks e = ((ks, stopping), rw e refl, refl)

    append :
        (c : Call) (q : Simple)
        → (more : List NamespacedName) × ((simple_apply c q).0 ≡ q.0 ++ more)
    append (add key) q = push-appends key q
    append (add_after key delay) q = push-appends key q
    append (add_rate_limited key) q = push-appends key q
    append (forget key) q = ([], rw (append-nil q.0) refl)
    append (done key) q = ([], rw (append-nil q.0) refl)

push-ignores :
    (key : NamespacedName) (q : Simple)
    → q.1 ≡ true
    → ((push key q).1 ≡ true) × (length (push key q).0 ≤ length q.0)
push-ignores key (keys, false) e = cc
push-ignores key (keys, true) e = (refl, omega arith)

simple-Drains : Drains simple
simple-Drains = record { load = λ q. length q.0; get_last = last; ignores = ignore }
  where
    last :
        (q : Simple)
        → q.1 ≡ true
        → ((rest : Simple) × (simple_get q ≡ some (shutdown, rest)))
          ⊎ ((key : NamespacedName) × (rest : Simple) × (simple_get q ≡ some (key_item key, rest))
              × (rest.1 ≡ true)
              × (length rest.0 < length q.0))
    last ([], false) e = cc
    last ([], true) e = inl (([], true), refl)
    last (key ∷ keys, stopping) e = inr (key, (keys, stopping), refl, e, omega arith)

    ignore :
        (c : Call) (q : Simple)
        → q.1 ≡ true
        → ((simple_apply c q).1 ≡ true) × (length (simple_apply c q).0 ≤ length q.0)
    ignore (add key) q e = push-ignores key q e
    ignore (add_after key delay) q e = push-ignores key q e
    ignore (add_rate_limited key) q e = push-ignores key q e
    ignore (forget key) q e = (e, omega arith)
    ignore (done key) q e = (e, omega arith)

abbrev first_key : NamespacedName
first_key = record { namespace = "default"; name = "n1" }

abbrev second_key : NamespacedName
second_key = record { namespace = "default"; name = "n2" }

-- A reconciler that fails each time.
abbrev failing : Reconciler
failing log key = failure (transient (plain "failed"))

failing-calm : (log : List String) (key : String) → failing log key ≢ panics
failing-calm log key e = cc

worker-reconciles_example :
    In (safe_key second_key) (worker simple failing 2 [] (first_key ∷ second_key ∷ [], false)).log
unfolding simple-Fifo
worker-reconciles_example =
    worker-reconciles simple-Fifo failing failing-calm (first_key ∷ []) [] second_key 2 []
      (first_key ∷ second_key ∷ [], false) refl (omega arith)

worker-returned_example :
    (worker simple failing 3 [] (first_key ∷ second_key ∷ [], true)).goroutine ≡ returned
unfolding simple-Drains
worker-returned_example =
    worker-returned simple-Drains failing failing-calm 3 [] (first_key ∷ second_key ∷ [], true) refl
      (omega arith)

simple_shut_down : Simple → Simple
simple_shut_down (keys, _) = (keys, true)

given :
    (s rest : Simple)
    → ◌≡◌ {A = Option (Item × Simple)} (some (shutdown, s)) (some (shutdown, rest))
    → s ≡ rest
given s rest e = cc

simple-Closes : Closes simple (λ q. length q.0)
unfolding simple-Drains
simple-Closes = record { drains = simple-Drains; last_get = last }
  where
    last :
        (q rest : Simple)
        → simple_get q ≡ some (shutdown, rest)
        → (length rest.0 ≡ 0) × (rest.1 ≡ true) × (length rest.0 ≤ length q.0)
    last ([], false) rest e = cc
    last ([], true) rest e = rw (sym (given ([], true) rest e)) (refl, refl, omega arith)
    last (key ∷ keys, stopping) rest e = cc

stop-ended_example :
    let first =
      stop simple
        (λ q. length q.0)
        failing
        simple_shut_down
        2
        []
        (first_key ∷ second_key ∷ [], false) in
    let now =
      act_all simple (λ q. length q.0) failing (a_worker ∷ a_worker ∷ run_itself ∷ []) first in
    let c =
      act_all simple
        (λ q. length q.0)
        failing
        ((a_worker ∷ run_itself ∷ a_worker ∷ a_worker ∷ a_worker ∷ [])
          ++ run_itself ∷ run_itself ∷ [])
        first in
    Waited simple (λ q. length q.0) failing (a_worker ∷ a_worker ∷ run_itself ∷ []) first
    × Timely now.stage
        (act simple (λ q. length q.0) failing run_itself now).stage
        (length now.queue.0)
        now.workers
    × ((c.stage ≡ ended) × (c.workers ≡ 0) × (length c.queue.0 ≡ 0))
unfolding simple_shut_down simple-Closes simple-Drains
stop-ended_example =
    stop-ended simple-Closes failing failing-calm simple_shut_down (λ q. refl) 2 []
      (first_key ∷ second_key ∷ [], false) (a_worker ∷ a_worker ∷ run_itself ∷ [])
      (a_worker ∷ run_itself ∷ a_worker ∷ a_worker ∷ a_worker ∷ []) (omega arith) (omega arith)

-- The keys that wait, and those that are being processed.
abbrev Guarded : Type 0
Guarded = List NamespacedName × List NamespacedName

abbrev guarded_get : Guarded → Option (Item × Guarded)
guarded_get ([], busy) = none
guarded_get (key ∷ keys, busy) =
    if holds key busy then none else some (key_item key, (keys, key ∷ busy))

abbrev guarded_apply : Call → Guarded → Guarded
guarded_apply (add key) (keys, busy) = (keys ++ key ∷ [], busy)
guarded_apply (add_after key delay) (keys, busy) = (keys ++ key ∷ [], busy)
guarded_apply (add_rate_limited key) (keys, busy) = (keys ++ key ∷ [], busy)
guarded_apply (forget key) q = q
guarded_apply (done key) (keys, busy) = (keys, without key busy)

abbrev guarded : WorkQueue Guarded
guarded = record { get = guarded_get; apply = guarded_apply; shutting_down = λ q. false }

taken :
    (x key : NamespacedName) (s rest : Guarded)
    → ◌≡◌ {A = Option (Item × Guarded)} (some (key_item x, s)) (some (key_item key, rest))
    → (x ≡ key) × (s ≡ rest)
taken x key s rest e = (cc, cc)

guarded_free :
    (q rest : Guarded) (key : NamespacedName)
    → guarded_get q ≡ some (key_item key, rest)
    → (holds key q.1 ≡ false)
      × ((k : NamespacedName) → holds k rest.1 ≡ (if same_key key k then true else holds k q.1))
guarded_free ([], busy) rest key = λ e. cc
guarded_free (x ∷ xs, busy) rest key = elim (Bool-cases (holds x busy)) [
  | inl held ↦ rw held (λ e. cc)
  | inr idle ↦ rw idle (λ e.
      let (same, left) = taken x key (xs, x ∷ busy) rest e in
      rw (← same) (rw (← left) (idle, λ k. ground (arith, same_key_iff k x, same_key_iff x k))))
]

guarded-Exclusive : Exclusive guarded
guarded-Exclusive = record {
  processing = λ q k. holds k q.1;
  get_free = guarded_free;
  done_frees = λ q key k. holds-without k key q.1;
  others_keep = λ q key k delay. (refl, refl, refl, refl);
}

-- What is left of the round of the first key, behind its reconciliation.
abbrev rest_of_round : List Act
rest_of_round = calls (add_rate_limited first_key) ∷ calls (done first_key) ∷ []

-- The only worker takes the first key and reconciles it, and the key is then enqueued once more.
taking :
    Turns guarded 1
      (first_key ∷ second_key ∷ [], [])
      (record {
        held = record { key = first_key; todo = rest_of_round } ∷ [];
        queue = (second_key ∷ first_key ∷ [], first_key ∷ []);
      })
unfolding process_next_work_item
taking =
    turned
      (turned
        (turned started
          (takes first_key (second_key ∷ [], first_key ∷ []) (failing []) false (omega arith) refl))
        (moves (its_act first_key (reconciles (safe_key first_key)) rest_of_round [])))
      (enqueued (add first_key) refl)

Turns-Exact_example : Exact guarded-Exclusive 1 (record {
  held = record { key = first_key; todo = rest_of_round } ∷ [];
  queue = (second_key ∷ first_key ∷ [], first_key ∷ []);
})
unfolding guarded-Exclusive
Turns-Exact_example = Turns-Exact guarded-Exclusive (λ k. refl) taking
