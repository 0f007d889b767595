-- ===== src/Controller/Queue/Closing.antt =====
-- The end of Impl.Run (pkg/common/controller/controller.go): the queue shuts down, and Run waits until
-- it is empty and its workers have returned.
pub mod Ending
use kubernetes_local_volume.Base.{
  ◌⊎◌, ◌++◌, String, ℕ, zero, suc, ◌≤◌, ◌==◌, ◌≡◌, true, Option, none, some, List, [], ◌∷◌,
  if◌then◌else◌,
}
use kubernetes_local_volume.Controller.{Item, shutdown}
use kubernetes_local_volume.Controller.Queue.{
  WorkQueue, Goroutine, running, Reconciler, process, Drains,
}

-- Where Run is: in the loop on the length of the queue, in sg.Wait, or at its end.
pub data Stage : Type 0 where
  emptying joining ended : Stage

-- `workers` counts the goroutines that have not returned.
pub record Closing (Q : Type 0) : Type 0 where
  pub stage : Stage
  pub workers : ℕ
  pub log : List String
  pub queue : Q

-- Whose turn it is: Run's own goroutine, or one of the workers.
pub data Actor : Type 0 where
  run_itself a_worker : Actor

abbrev pub left : ℕ → Goroutine → ℕ
left others running = suc others
left others _ = others

-- A look at the length of the queue, or at the workers.
abbrev pub look : Stage → ℕ → ℕ → Stage
look emptying len workers = if len == 0 then joining else emptying
look joining len workers = if workers == 0 then ended else joining
look ended len workers = ended

-- How the next look of Run may change where it is: the loop ends only at an empty queue, and Run only when
-- no worker is left; then the queue is empty too.
abbrev pub Timely : Stage → Stage → ℕ → ℕ → Type 0
Timely emptying emptying len workers = Unit {0}
Timely emptying joining len workers = len ≡ 0
Timely joining joining len workers = Unit {0}
Timely joining ended len workers = (workers ≡ 0) × (len ≡ 0)
Timely ended ended len workers = (workers ≡ 0) × (len ≡ 0)
Timely _ _ len workers = ⊥

module _ {Q : Type 0} (K : WorkQueue Q) (len : Q → ℕ) (reconcile : Reconciler) where
  -- A round of a worker that got `item`, beside `others`.
  abbrev pub round : Stage → ℕ → List String → Item × Q → Closing Q
  round stage others log (item, rest) =
      let done = process K reconcile item log rest in
      record {
        stage = stage;
        workers = left others done.goroutine;
        log = done.log;
        queue = done.queue;
      }

  abbrev pub work : Closing Q → ℕ → Option (Item × Q) → Closing Q
  work c zero _ = c
  work c (suc others) none = c
  work c (suc others) (some next) = round c.stage others c.log next

  unfoldable pub act : Actor → Closing Q → Closing Q
  act run_itself c = record c { stage = look c.stage (len c.queue) c.workers }
  act a_worker c = work c c.workers (K.get c.queue)

  unfoldable pub act_all : List Actor → Closing Q → Closing Q
  act_all [] c = c
  act_all (a ∷ s) c = act_all s (act a c)

  -- Run when stopCh is closed; `shut_down` is ShutDown of the queue.
  abbrev pub stop : (Q → Q) → ℕ → List String → Q → Closing Q
  stop shut_down threadiness log q = record {
    stage = emptying;
    workers = threadiness;
    log = log;
    queue = shut_down q;
  }

abbrev pub worker_turns : List Actor → ℕ
worker_turns [] = 0
worker_turns (run_itself ∷ s) = worker_turns s
worker_turns (a_worker ∷ s) = suc (worker_turns s)

-- A queue ends its workers when it is empty.
pub record Closes {Q : Type 0} (K : WorkQueue Q) (len : Q → ℕ) : Type 0 where
  pub drains : Drains K
  pub last_get :
      (q rest : Q)
      → K.get q ≡ some (shutdown, rest)
      → (len rest ≡ 0) × (K.shutting_down rest ≡ true) × (drains.load rest ≤ drains.load q)

module _ {Q : Type 0} (K : WorkQueue Q) (len : Q → ℕ) (reconcile : Reconciler) where
  -- Run is in its loop on the length of the queue, or one of its looks found the queue empty.
  abbrev pub Waited : List Actor → Closing Q → Type 0
  Waited s c =
      ((act_all K len reconcile s c).stage ≡ emptying)
      ⊎ ((t : List Actor) × (u : List Actor) × (s ≡ t ++ run_itself ∷ u)
          × (len (act_all K len reconcile t c).queue ≡ 0))
