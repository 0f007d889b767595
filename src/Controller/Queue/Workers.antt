-- ===== src/Controller/Queue/Workers.antt =====
-- The workers of Impl.Run (pkg/common/controller/controller.go) on one queue, by the steps in which
-- they take a key from it and do, one by one, what a round does with the key.
use mathlib.Core.Path.{ap₂}
use kubernetes_local_volume.Base.{
  String, ℕ, ◌<◌, ◌↔◌, ◌≡◌, str_eq, eq_iff, eq_refl, Bool, true, false, ◌&&◌, some, List, [], ◌∷◌,
  arith, any, length, if◌then◌else◌, select, not, Bool-cases, inl, inr,
}
use kubernetes_local_volume.Types.Objects.{NamespacedName}
use kubernetes_local_volume.Controller.{
  Act, Reconciled, process_next_work_item, Call, add, add_after, add_rate_limited, forget, done,
  key_item,
}
use kubernetes_local_volume.Controller.Queue.{WorkQueue, perform}

abbrev pub same_key : NamespacedName → NamespacedName → Bool
same_key a b = str_eq a.namespace b.namespace && str_eq a.name b.name

abbrev pub holds : NamespacedName → List NamespacedName → Bool
holds key = any (same_key key)

-- No key twice.
abbrev pub Distinct : List NamespacedName → Type 0
Distinct [] = Unit {0}
Distinct (k ∷ ks) = (holds k ks ≡ false) × Distinct ks

abbrev pub without : NamespacedName → List NamespacedName → List NamespacedName
without key = select (λ k. not (same_key key k))

-- The queue hands out no key that is being processed: one that was handed out and not marked as done.
pub record Exclusive {Q : Type 0} (K : WorkQueue Q) : Type 0 where
  pub processing : Q → NamespacedName → Bool
  pub get_free :
      (q rest : Q) (key : NamespacedName)
      → K.get q ≡ some (key_item key, rest)
      → (processing q key ≡ false)
        × ((k : NamespacedName)
            → processing rest k ≡ (if same_key key k then true else processing q k))
  pub done_frees :
      (q : Q) (key k : NamespacedName)
      → processing (K.apply (done key) q) k ≡ (if same_key key k then false else processing q k)
  pub others_keep :
      (q : Q) (key k : NamespacedName) (delay : ℕ)
      → (processing (K.apply (add key) q) k ≡ processing q k)
        × (processing (K.apply (add_after key delay) q) k ≡ processing q k)
        × (processing (K.apply (add_rate_limited key) q) k ≡ processing q k)
        × (processing (K.apply (forget key) q) k ≡ processing q k)

-- A key in the hands of a worker, and what is left of the round.
pub record Hand : Type 0 where
  pub key : NamespacedName
  pub todo : List Act

abbrev pub keys_of : List Hand → List NamespacedName
keys_of [] = []
keys_of (hand ∷ hands) = hand.key ∷ keys_of hands

-- The hands of the workers, and the queue.
pub record Pool (Q : Type 0) : Type 0 where
  pub held : List Hand
  pub queue : Q

-- The worker is free again where nothing is left to do.
abbrev pub keep : NamespacedName → List Act → List Hand → List Hand
keep key [] hands = hands
keep key (act ∷ todo) hands = record { key = key; todo = act ∷ todo } ∷ hands

-- A call from outside the workers: an informer's handler enqueues, or a resync does.
abbrev pub enqueues : Call → Bool
enqueues (done _) = false
enqueues _ = true

module _ {Q : Type 0} (K : WorkQueue Q) where
  -- One of the workers does the next thing of its round.
  pub data Moves (q : Q) : List Hand → List Hand → Q → Type 0 where
    its_act :
        (key : NamespacedName) (act : Act) (todo : List Act) (hands : List Hand)
        → Moves q
            (record { key = key; todo = act ∷ todo } ∷ hands)
            (keep key todo hands)
            (perform K act q)
    another_worker :
        (hand : Hand) {hands after : List Hand} {r : Q}
        → Moves q hands after r
        → Moves q (hand ∷ hands) (hand ∷ after) r

module _ {Q : Type 0} (K : WorkQueue Q) (threadiness : ℕ) where
  -- A worker that is free takes a key, whose round has the answers of any reconciler, and of the queue on
  -- its shutdown; a worker goes on with its round; or somebody else enqueues.
  pub data Turn (s : Pool Q) : Pool Q → Type 0 where
    takes :
        (key : NamespacedName) (rest : Q) (reconcile : String → Reconciled) (shutting_down : Bool)
        → length s.held < threadiness
        → K.get s.queue ≡ some (key_item key, rest)
        → Turn s (record {
          held = keep key (process_next_work_item (key_item key) reconcile shutting_down).1 s.held;
          queue = rest;
        })
    moves :
        {after : List Hand} {r : Q}
        → Moves K s.queue s.held after r
        → Turn s (record { held = after; queue = r })
    enqueued :
        (c : Call)
        → enqueues c ≡ true
        → Turn s (record { held = s.held; queue = K.apply c s.queue })

  pub data Turns (q : Q) : Pool Q → Type 0 where
    started : Turns q (record { held = []; queue = q })
    turned : {s t : Pool Q} → Turns q s → Turn s t → Turns q t

-- Two keys are the same, or they are not.
pub same_key_iff : (a b : NamespacedName) → (same_key a b ≡ true) ↔ (a ≡ b)
same_key_iff a b = (
  λ e.
      ap₂ (λ n m. record { namespace = n; name = m })
        ((eq_iff a.namespace b.namespace).0 (ground arith))
        ((eq_iff a.name b.name).0 (ground arith)),
  λ e. rw e (rw (eq_refl b.namespace) (eq_refl b.name)),
)

pub holds-without :
    (j k : NamespacedName) (ks : List NamespacedName)
    → holds j (without k ks) ≡ (if same_key k j then false else holds j ks)
holds-without j k [] = ground arith
holds-without j k (x ∷ xs) = elim (Bool-cases (same_key k x)) [
  | inl same ↦
      rw same
        (ground (arith, holds-without j k xs, same_key_iff k x, same_key_iff k j, same_key_iff j x))
  | inr other ↦
      rw other
        (ground (arith, holds-without j k xs, same_key_iff k x, same_key_iff k j, same_key_iff j x))
]
