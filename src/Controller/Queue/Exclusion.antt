-- ===== src/Controller/Queue/Exclusion.antt =====
-- The keys in the hands of the workers of Impl.Run (pkg/common/controller/controller.go).
use mathlib.Core.Bool.{false≢true}
use kubernetes_local_volume.Base.{
  String, All, ℕ, ◌<◌, ◌≤◌, ◌≡◌, refl, sym, Bool, true, false, ◌&&◌, some, List, [], ◌∷◌, ◌++◌,
  arith, length, if◌then◌else◌, ◌∙◌, not, Bool-cases, inl, inr,
}
use kubernetes_local_volume.Types.Objects.{NamespacedName}
use kubernetes_local_volume.Controller.{
  Act, calls, reconciles, Reconciled, safe_key, process_next_work_item, Call, add, add_after,
  add_rate_limited, forget, done, key_item,
}
use kubernetes_local_volume.Controller.Work.{process_next_work_item_cases, goes_back, is_forgotten}
use kubernetes_local_volume.Controller.Queue.{WorkQueue, perform}
use kubernetes_local_volume.Controller.Queue.Workers.{
  same_key, holds, Distinct, Exclusive, Hand, keys_of, Pool, keep, enqueues, Moves, its_act,
  another_worker, Turn, takes, moves, enqueued, Turns, started, turned, same_key_iff,
}

-- The round marks its key as done last, and no key before.
abbrev NotDone : Act → Type 0
NotDone (calls (done _)) = ⊥
NotDone _ = Unit {0}

abbrev pub EndsDone : NamespacedName → List Act → Type 0
EndsDone key [] = ⊥
EndsDone key (act ∷ []) = act ≡ calls (done key)
EndsDone key (act ∷ next ∷ todo) = NotDone act × EndsDone key (next ∷ todo)

process_next_work_item-EndsDone :
    (key : NamespacedName) (reconcile : String → Reconciled) (shutting_down : Bool)
    → EndsDone key (process_next_work_item (key_item key) reconcile shutting_down).1
process_next_work_item-EndsDone key reconcile shutting_down =
    rw (process_next_work_item_cases key reconcile shutting_down) (
      go (goes_back (reconcile (safe_key key)) shutting_down)
        (is_forgotten (reconcile (safe_key key)) shutting_down))
  where
    go :
        (back forgotten : Bool)
        → EndsDone key (
            reconciles (safe_key key)
            ∷ ((if back then calls (add_rate_limited key) ∷ [] else [])
                ++ ((if forgotten then calls (forget key) ∷ [] else []) ++ calls (done key) ∷ [])))
    go true true = (tt, (tt, (tt, refl)))
    go true false = (tt, (tt, refl))
    go false true = (tt, (tt, refl))
    go false false = (tt, refl)

module _ {Q : Type 0} {K : WorkQueue Q} (E : Exclusive K) where
  enqueued-keeps :
      (c : Call) (q : Q) (k : NamespacedName)
      → enqueues c ≡ true
      → E.processing (K.apply c q) k ≡ E.processing q k
  enqueued-keeps (add key) q k e = (E.others_keep q key k 0).0
  enqueued-keeps (add_after key delay) q k e = (E.others_keep q key k delay).1
  enqueued-keeps (add_rate_limited key) q k e = (E.others_keep q key k 0).2
  enqueued-keeps (forget key) q k e = (E.others_keep q key k 0).3
  enqueued-keeps (done key) q k e = cc

  perform-keeps :
      (act : Act) (q : Q) (k : NamespacedName)
      → NotDone act
      → E.processing (perform K act q) k ≡ E.processing q k
  perform-keeps (reconciles text) q k n = refl
  perform-keeps (calls (add key)) q k n = enqueued-keeps (add key) q k refl
  perform-keeps (calls (add_after key delay)) q k n = enqueued-keeps (add_after key delay) q k refl
  perform-keeps (calls (add_rate_limited key)) q k n =
      enqueued-keeps (add_rate_limited key) q k refl
  perform-keeps (calls (forget key)) q k n = enqueued-keeps (forget key) q k refl
  perform-keeps (calls (done key)) q k n = absurd n

  -- What a move leaves: the keys that it frees were in hand, and are neither in hand nor processed.
  abbrev Frees : List Hand → Q → List Hand → Q → Type 0
  Frees hands q after r =
      All (λ hand. EndsDone hand.key hand.todo) after
      × (length after ≤ length hands)
      × ((freed : NamespacedName → Bool) × ((k : NamespacedName)
            → freed k ≡ true
            → holds k (keys_of hands) ≡ true)
          × ((k : NamespacedName)
              → holds k (keys_of after) ≡ (holds k (keys_of hands) && not (freed k)))
          × ((k : NamespacedName) → E.processing r k ≡ (E.processing q k && not (freed k))))

  first-Frees :
      (key : NamespacedName) (act : Act) (todo : List Act) (hands : List Hand) (q : Q)
      → EndsDone key (act ∷ todo)
      → All (λ hand. EndsDone hand.key hand.todo) hands
      → holds key (keys_of hands) ≡ false
      → Frees
          (record { key = key; todo = act ∷ todo } ∷ hands)
          q
          (keep key todo hands)
          (perform K act q)
  first-Frees key act [] hands q last rest fresh = (
    rest,
    omega arith,
    (
      same_key key,
      λ k e. ground (arith, same_key_iff key k, same_key_iff k key),
      λ k. elim (Bool-cases (same_key key k)) [
        | inl same ↦
            rw (← (same_key_iff key k).0 same) (rw fresh (ground (arith, same_key_iff key key)))
        | inr differs ↦ ground (arith, same_key_iff key k, same_key_iff k key)
      ],
      λ k. rw last (E.done_frees q key k ∙ ground arith),
    ),
  )
  first-Frees key act (next ∷ todo) hands q (before, last) rest fresh = (
    (last, rest),
    omega arith,
    (
      (λ k. false),
      (λ k e. cc),
      λ k. ground arith,
      λ k. perform-keeps act q k before ∙ ground arith,
    ),
  )

  Moves-Frees :
      {q r : Q} {hands after : List Hand}
      → Moves K q hands after r
      → All (λ hand. EndsDone hand.key hand.todo) hands
      → Distinct (keys_of hands)
      → Frees hands q after r
  Moves-Frees {q} (its_act key act todo hands) (ends, rest) (fresh, d) =
      first-Frees key act todo hands q ends rest fresh
  Moves-Frees (another_worker hand {hands} m) (ends, rest) (fresh, d) =
      let (ends2, fewer, (freed, were, held, processed)) = Moves-Frees m rest d in
      (
        (ends, ends2),
        omega arith,
        (
          freed,
          λ k e. rw (were k e) (ground arith),
          λ k. elim (Bool-cases (same_key k hand.key)) [
            | inr differs ↦ rw differs (held k)
            | inl same ↦ rw same (elim (Bool-cases (freed k)) [
              | inr kept ↦ rw kept refl
              | inl gone ↦
                  let there = were k gone in
                  let same2 = (same_key_iff k hand.key).0 same in
                  absurd (false≢true (sym fresh ∙ (rw (← same2) there)))
            ])
          ],
          processed,
        ),
      )

  Frees-Distinct :
      {q r : Q} {hands after : List Hand}
      → Moves K q hands after r
      → All (λ hand. EndsDone hand.key hand.todo) hands
      → Distinct (keys_of hands)
      → Distinct (keys_of after)
  Frees-Distinct (its_act key act [] hands) ends (fresh, d) = d
  Frees-Distinct (its_act key act (next ∷ todo) hands) ends d = d
  Frees-Distinct (another_worker hand m) (ends, rest) (fresh, d) =
      let (ends2, fewer, (freed, were, held, processed)) = Moves-Frees m rest d in
      (held hand.key ∙ rw fresh refl, Frees-Distinct m rest d)

  -- In the hands of the workers are different keys, no more than workers, each round marks its key as done
  -- at its end and not before, and the keys in hand are those that the queue takes for being processed.
  abbrev pub Exact : ℕ → Pool Q → Type 0
  Exact threadiness s =
      Distinct (keys_of s.held)
      × (length s.held ≤ threadiness)
      × All (λ hand. EndsDone hand.key hand.todo) s.held
      × ((k : NamespacedName) → E.processing s.queue k ≡ holds k (keys_of s.held))

  take-Exact :
      {threadiness : ℕ} (s : Pool Q) (key : NamespacedName) (rest : Q) (todo : List Act)
      → EndsDone key todo
      → length s.held < threadiness
      → K.get s.queue ≡ some (key_item key, rest)
      → Exact threadiness s
      → Exact threadiness (record { held = keep key todo s.held; queue = rest })
  take-Exact s key rest [] ends free got x = absurd ends
  take-Exact s key rest (act ∷ todo) ends free got (d, few, all, x) =
      let (fresh, taken) = E.get_free s.queue rest key got in
      (
        (sym (x key) ∙ fresh, d),
        omega arith,
        (ends, all),
        λ k. taken k ∙ rw (x k) (ground (arith, same_key_iff key k, same_key_iff k key)),
      )

  Turn-Exact :
      {threadiness : ℕ} {s t : Pool Q}
      → Turn K threadiness s t
      → Exact threadiness s
      → Exact threadiness t
  Turn-Exact {s = s} (takes key rest reconcile shutting_down free got) x =
      take-Exact s key rest _ (process_next_work_item-EndsDone key reconcile shutting_down) free got
        x
  Turn-Exact (moves m) (d, few, all, x) =
      let (ends, fewer, (freed, were, held, processed)) = Moves-Frees m all d in
      (Frees-Distinct m all d, omega arith, ends, λ k. processed k ∙ rw (x k) (sym (held k)))
  Turn-Exact {s = s} (enqueued c e) (d, few, all, x) =
      (d, few, all, λ k. enqueued-keeps c s.queue k e ∙ x k)

  -- Whatever the workers and the informers do on a queue on which nothing is being processed, the single
  -- acts of the rounds (the reconciliation and the calls on the queue) in any order: no key is ever in the
  -- hands of two workers with something of its round left to do, there are no more rounds than workers,
  -- each ends with marking its key as done, and the queue takes exactly the keys in hand for being
  -- processed. (The queue hands out no key that is being processed.)
  pub Turns-Exact :
      {threadiness : ℕ} {q : Q} {s : Pool Q}
      → ((k : NamespacedName) → E.processing q k ≡ false)
      → Turns K threadiness q s
      → Exact threadiness s
  Turns-Exact idle started = (tt, omega arith, tt, idle)
  Turns-Exact idle (turned r t) = Turn-Exact t (Turns-Exact idle r)
