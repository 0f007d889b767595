-- ===== src/Controller/Queue.antt =====
-- The worker of Impl.Run (pkg/common/controller/controller.go) on a work queue. The queue is that of
-- client-go: its operations, and what its documentation says of them, are parameters.
pub mod Draining
pub mod Workers
pub mod Exclusion
pub mod Closing
use kubernetes_local_volume.Base.{
  ℕ, zero, suc, ◌+◌, ◌≤◌, ◌<◌, ◌≡◌, ◌⊎◌, String, Bool, true, false, Option, none, some, List, [],
  ◌∷◌, ◌++◌,
}
use kubernetes_local_volume.Types.Objects.{NamespacedName}
use kubernetes_local_volume.Controller.{
  Call, Act, calls, reconciles, Item, key_item, shutdown, other_item, Reconciled,
  process_next_work_item,
}

-- The operations of workqueue.RateLimitingInterface. `get` is `none` where Get waits for ever.
pub record WorkQueue (Q : Type 0) : Type 0 where
  pub get : Q → Option (Item × Q)
  pub apply : Call → Q → Q
  pub shutting_down : Q → Bool

module _ {Q : Type 0} where
  -- What an act does to the queue.
  abbrev pub perform : WorkQueue Q → Act → Q → Q
  perform K (calls c) q = K.apply c q
  perform K (reconciles _) q = q

  abbrev pub perform_all : WorkQueue Q → List Act → Q → Q
  perform_all K [] q = q
  perform_all K (a ∷ acts) q = perform_all K acts (perform K a q)

-- A worker's goroutine: it goes on, or has returned, or crashed, or waits in Get.
pub data Goroutine : Type 0 where
  running returned crashed waiting : Goroutine

-- The texts that the reconciler was called with, in order, and the queue.
pub record Worked (Q : Type 0) : Type 0 where
  pub goroutine : Goroutine
  pub log : List String
  pub queue : Q

-- The texts with which the acts call the reconciler.
abbrev pub reconciled_texts : List Act → List String
reconciled_texts [] = []
reconciled_texts (calls _ ∷ acts) = reconciled_texts acts
reconciled_texts (reconciles text ∷ acts) = text ∷ reconciled_texts acts

abbrev pub goroutine_of : Option Bool → Goroutine
goroutine_of none = crashed
goroutine_of (some true) = running
goroutine_of (some false) = returned

-- A goroutine that is running goes on.
abbrev pub resume : {Q : Type 0} → Worked Q → Worked Q → Goroutine → Worked Q
resume next done running = next
resume next done _ = done

-- What the reconciler answers may depend on the texts that it had before.
abbrev pub Reconciler : Type 0
Reconciler = List String → String → Reconciled

module _ {Q : Type 0} (K : WorkQueue Q) (reconcile : Reconciler) where
  -- What processNextWorkItem does with an item that Get gave.
  unfoldable pub process : Item → List String → Q → Worked Q
  process item log q =
      let (result, acts) = process_next_work_item item (reconcile log) (K.shutting_down q) in
      record {
        goroutine = goroutine_of result;
        log = log ++ reconciled_texts acts;
        queue = perform_all K acts q;
      }

  -- `for c.processNextWorkItem() {}`, for a number of rounds.
  unfoldable pub worker : ℕ → List String → Q → Worked Q
  worker zero log q = record { goroutine = running; log = log; queue = q }
  worker (suc rounds) log q = elim (K.get q) [
    | none ↦ record { goroutine = waiting; log = log; queue = q }
    | some (item, rest) ↦
        let done = process item log rest in
        resume (worker rounds done.log done.queue) done done.goroutine
  ]

-- The queue hands keys out in their order, and every other call only appends to it.
pub record Fifo {Q : Type 0} (K : WorkQueue Q) : Type 0 where
  pub pending : Q → List NamespacedName
  pub get_first :
      (q : Q) (key : NamespacedName) (keys : List NamespacedName)
      → pending q ≡ key ∷ keys
      → (rest : Q) × (K.get q ≡ some (key_item key, rest)) × (pending rest ≡ keys)
  pub appends :
      (c : Call) (q : Q)
      → (more : List NamespacedName) × (pending (K.apply c q) ≡ pending q ++ more)

-- A queue that is shutting down ignores what is added, hands out what it holds, and then ends its
-- workers. `load` counts what it still may hand out.
pub record Drains {Q : Type 0} (K : WorkQueue Q) : Type 0 where
  pub load : Q → ℕ
  pub get_last :
      (q : Q)
      → K.shutting_down q ≡ true
      → ((rest : Q) × (K.get q ≡ some (shutdown, rest)))
        ⊎ ((key : NamespacedName) × (rest : Q) × (K.get q ≡ some (key_item key, rest))
            × (K.shutting_down rest ≡ true)
            × (load rest < load q))
  pub ignores :
      (c : Call) (q : Q)
      → K.shutting_down q ≡ true
      → (K.shutting_down (K.apply c q) ≡ true) × (load (K.apply c q) ≤ load q)
