-- ===== src/Controller/Work.antt =====
-- One round of a controller's worker, on every path.
use kubernetes_local_volume.Base.{
  Option, none, some, ◌≡◌, String, Bool, true, false, [], ◌∷◌, ◌++◌, arith, if◌then◌else◌,
}
use kubernetes_local_volume.Controller.{
  calls, reconciles, add_rate_limited, forget, done, permanent_error, transient, Reconciled,
  success, failure, panics, key_item, safe_key, process_next_work_item,
}
use kubernetes_local_volume.Types.Objects.{NamespacedName}

-- The item goes back to the queue: a transient failure while the queue is not shutting down.
abbrev pub goes_back : Reconciled → Bool → Bool
goes_back (failure (transient _)) false = true
goes_back _ _ = false

-- The item's rate limiter is reset: a round that ends without a panic and does not requeue.
abbrev pub is_forgotten : Reconciled → Bool → Bool
is_forgotten success _ = true
is_forgotten (failure (permanent_error _)) _ = true
is_forgotten (failure (transient _)) shutting_down = shutting_down
is_forgotten panics _ = false

-- The worker takes the next item; a panic leaves no answer.
abbrev pub goes_on : Reconciled → Option Bool
goes_on panics = none
goes_on _ = some true

-- The text of a key taken from the queue is given to the reconciler; then the key is put back with a
-- rate limit, forgotten, or, at a panic, neither, and at last it is marked as done on every path; the
-- worker goes on unless the reconciler panics.
pub process_next_work_item_cases :
    (key : NamespacedName) (reconcile : String → Reconciled) (shutting_down : Bool)
    → let r = reconcile (safe_key key) in
      process_next_work_item (key_item key) reconcile shutting_down ≡ (
        goes_on r,
        reconciles (safe_key key)
            ∷ ((if goes_back r shutting_down then calls (add_rate_limited key) ∷ [] else [])
                ++ ((if is_forgotten r shutting_down then calls (forget key) ∷ [] else [])
                    ++ calls (done key) ∷ [])),
      )
unfolding process_next_work_item
process_next_work_item_cases key reconcile shutting_down = ground arith
