-- ===== src/Controller/Queue/Draining.antt =====
-- The loop of a worker (Impl.Run, processNextWorkItem of pkg/common/controller/controller.go): the
-- keys that it takes, and its end at shutdown.
use kubernetes_local_volume.Base.{
  ap, Bool, false, if◌then◌else◌, ℕ, zero, suc, ◌≤◌, ◌<◌, ◌≡◌, ◌≢◌, refl, String, true, some, List,
  [], ◌∷◌, ◌++◌, arith, append-nil, append_assoc, length, In, here, In-append_left, In-append_right,
  Option-cases, inl, inr, ◌∙◌,
}
use kubernetes_local_volume.Types.Objects.{NamespacedName}
use kubernetes_local_volume.Controller.{
  Act, calls, reconciles, add_rate_limited, forget, done, Item, key_item, shutdown, Reconciled,
  success, failure, panics, safe_key, process_next_work_item,
}
use kubernetes_local_volume.Controller.Work.{
  process_next_work_item_cases, goes_on, goes_back, is_forgotten,
}
use kubernetes_local_volume.Controller.Queue.{
  WorkQueue, perform, perform_all, running, returned, Goroutine, crashed, waiting, resume, Worked,
  reconciled_texts, goroutine_of, Reconciler, process, worker, Fifo, Drains,
}

module _ {Q : Type 0} (K : WorkQueue Q) (reconcile : Reconciler)
    (calm : (log : List String) (key : String) → reconcile log key ≢ panics) where
  -- A round on a key goes on.
  pub process-running :
      (key : NamespacedName) (log : List String) (q : Q)
      → (process K reconcile (key_item key) log q).goroutine ≡ running
  unfolding process
  process-running key log q =
      rw (process_next_work_item_cases key (reconcile log) (K.shutting_down q))
        (on (reconcile log (safe_key key)) (calm log (safe_key key)))
    where
      on : (r : Reconciled) → r ≢ panics → goroutine_of (goes_on r) ≡ running
      on success c = refl
      on (failure e) c = refl
      on panics c = absurd (c refl)

  -- A round on a key calls the reconciler with its text.
  process-log :
      (key : NamespacedName) (log : List String) (q : Q)
      → (process K reconcile (key_item key) log q).log ≡ log ++ safe_key key ∷ []
  unfolding process
  process-log key log q =
      rw (process_next_work_item_cases key (reconcile log) (K.shutting_down q)) (
        ap (λ texts. log ++ safe_key key ∷ texts)
          (no_more (goes_back (reconcile log (safe_key key)) (K.shutting_down q))
            (is_forgotten (reconcile log (safe_key key)) (K.shutting_down q))))
    where
      no_more :
          (back forgotten : Bool)
          → reconciled_texts (
              (if back then calls (add_rate_limited key) ∷ [] else [])
              ++ ((if forgotten then calls (forget key) ∷ [] else []) ++ calls (done key) ∷ []))
            ≡ []
      no_more true true = refl
      no_more true false = refl
      no_more false true = refl
      no_more false false = refl

  worker-next :
      (key : NamespacedName) (rounds : ℕ) (log : List String) (q rest : Q)
      → K.get q ≡ some (key_item key, rest)
      → let d = process K reconcile (key_item key) log rest in
        worker K reconcile (suc rounds) log q ≡ worker K reconcile rounds d.log d.queue
  unfolding worker process
  worker-next key rounds log q rest e = rw (e, worker) (rw (process-running key log rest) refl)

  worker-logged :
      (text : String) (rounds : ℕ) (log : List String) (q : Q)
      → In text log
      → In text (worker K reconcile rounds log q).log
  unfolding worker process
  worker-logged text zero log q i = i
  worker-logged text (suc rounds) log q i = elim (Option-cases (K.get q)) [
    | inl e ↦ rw (e, worker) i
    | inr ((item, rest), e) ↦
        rw (e, worker)
          (go _ (process K reconcile item log rest) _
            (worker-logged text rounds _ _ (In-append_left _ i)) (In-append_left _ i))
  ]
    where
      go :
          (next d : Worked Q) (g : Goroutine)
          → In text next.log
          → In text d.log
          → In text (resume next d g).log
      go next d running on off = on
      go next d returned on off = off
      go next d crashed on off = off
      go next d waiting on off = off

module _ {Q : Type 0} {K : WorkQueue Q} (F : Fifo K) where
  perform-appends :
      (a : Act) (q : Q)
      → (more : List NamespacedName) × (F.pending (perform K a q) ≡ F.pending q ++ more)
  perform-appends (calls c) q = F.appends c q
  perform-appends (reconciles _) q = ([], rw (append-nil (F.pending q)) refl)

  perform_all-appends :
      (acts : List Act) (q : Q)
      → (more : List NamespacedName) × (F.pending (perform_all K acts q) ≡ F.pending q ++ more)
  perform_all-appends [] q = ([], rw (append-nil (F.pending q)) refl)
  perform_all-appends (a ∷ acts) q =
      let (ms, e) = perform_all-appends acts (perform K a q) in
      let (m, f) = perform-appends a q in (m ++ ms, e ∙ rw f (append_assoc (F.pending q) m ms))

  process-appends :
      (reconcile : Reconciler) (item : Item) (log : List String) (q : Q)
      → (more : List NamespacedName) × (F.pending (process K reconcile item log q).queue
          ≡ F.pending q ++ more)
  unfolding process
  process-appends reconcile item log q =
      perform_all-appends (process_next_work_item item (reconcile log) (K.shutting_down q)).1 q

module _ {Q : Type 0} {K : WorkQueue Q} (F : Fifo K) (reconcile : Reconciler)
    (calm : (log : List String) (key : String) → reconcile log key ≢ panics) where
  -- The reconciler is called in time for a key that is queued behind others: a worker that runs for more
  -- rounds than there are keys before it has called it with the key's text, however the reconciliations
  -- of those keys end and whatever they put back. (The queue is first-in first-out, and the reconciler
  -- does not panic.)
  pub worker-reconciles :
      (before after : List NamespacedName) (key : NamespacedName) (rounds : ℕ) (log : List String)
      (q : Q)
      → F.pending q ≡ before ++ key ∷ after
      → length before < rounds
      → In (safe_key key) (worker K reconcile rounds log q).log
  worker-reconciles before after key zero log q e few = absurd (omega arith)
  worker-reconciles [] after key (suc rounds) log q e few =
      let (rest, got, left) = F.get_first q key after e in
      rw (worker-next K reconcile calm key rounds log q rest got) (
        worker-logged K reconcile calm (safe_key key) rounds _ _
          (rw (process-log K reconcile calm key log rest) (In-append_right log (here refl))))
  worker-reconciles (k ∷ before) after key (suc rounds) log q e few =
      let (rest, got, left) = F.get_first q k (before ++ key ∷ after) e in
      let (more, f) = process-appends F reconcile (key_item k) log rest in
      rw (worker-next K reconcile calm k rounds log q rest got) (
        worker-reconciles before (after ++ more) key rounds _ _
          (f ∙ rw left (append_assoc before (key ∷ after) more)) (omega arith))

module _ {Q : Type 0} {K : WorkQueue Q} (D : Drains K) where
  perform-ignores :
      (a : Act) (q : Q)
      → K.shutting_down q ≡ true
      → (K.shutting_down (perform K a q) ≡ true) × (D.load (perform K a q) ≤ D.load q)
  perform-ignores (calls c) q s = D.ignores c q s
  perform-ignores (reconciles _) q s = (s, omega arith)

  perform_all-ignores :
      (acts : List Act) (q : Q)
      → K.shutting_down q ≡ true
      → (K.shutting_down (perform_all K acts q) ≡ true) × (D.load (perform_all K acts q) ≤ D.load q)
  perform_all-ignores [] q s = (s, omega arith)
  perform_all-ignores (a ∷ acts) q s =
      let (t, l) = perform-ignores a q s in
      let (u, m) = perform_all-ignores acts (perform K a q) t in (u, omega arith)

  pub process-ignores :
      (reconcile : Reconciler) (item : Item) (log : List String) (q : Q)
      → K.shutting_down q ≡ true
      → let done = (process K reconcile item log q).queue in
        (K.shutting_down done ≡ true) × (D.load done ≤ D.load q)
  unfolding process
  process-ignores reconcile item log q =
      perform_all-ignores (process_next_work_item item (reconcile log) (K.shutting_down q)).1 q

module _ {Q : Type 0} {K : WorkQueue Q} (D : Drains K) (reconcile : Reconciler)
    (calm : (log : List String) (key : String) → reconcile log key ≢ panics) where
  process-shutdown :
      (log : List String) (q : Q) → (process K reconcile shutdown log q).goroutine ≡ returned
  unfolding process process_next_work_item
  process-shutdown log q = refl

  -- Once the queue is shutting down a worker returns, after at most one round more than the queue still
  -- has to hand out. (At shutdown the queue ignores what is added, and the reconciler does not panic.)
  pub worker-returned :
      (rounds : ℕ) (log : List String) (q : Q)
      → K.shutting_down q ≡ true
      → D.load q < rounds
      → (worker K reconcile rounds log q).goroutine ≡ returned
  unfolding worker
  worker-returned zero log q s few = absurd (omega arith)
  worker-returned (suc rounds) log q s few = elim (D.get_last q s) [
    | inl (rest, e) ↦ rw (e, worker) (rw (process-shutdown log rest) refl)
    | inr (key, rest, e, t, l) ↦
        let (u, m) = process-ignores D reconcile (key_item key) log rest t in
        rw (worker-next K reconcile calm key rounds log q rest e) (
          worker-returned rounds _ (process K reconcile (key_item key) log rest).queue u
            (omega arith))
  ]
