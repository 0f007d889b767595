-- ===== src/Controller.antt =====
-- pkg/common/controller/controller.go and meta.go: objects become keys, keys go through a work queue
-- to a reconciler. The queue is client-go's: its calls are recorded in order, and what it answers is
-- a parameter.
pub mod Work
pub mod References
pub mod Informers
pub mod Queue
use kubernetes_local_volume.Base.{
  ℕ, ◌+◌, ◌*◌, String, ◌<>◌, str_eq, Bool, true, false, not, ◌&&◌, Option, none, some, List, [],
  ◌∷◌, ◌++◌, if◌then◌else◌,
}
use kubernetes_local_volume.Base.Dict.{Dict, lookup}
use kubernetes_local_volume.Fault.{Error, plain, Outcome, ok, fail, panic, Reply, got, refused}
use kubernetes_local_volume.Types.Objects.{NamespacedName}

-- What is read of a metav1.OwnerReference.
pub record OwnerReference : Type 0 where
  pub api_version : String
  pub kind : String
  pub name : String

-- What is read of an object that is an Accessor. `owner` is what metav1.GetControllerOf gives.
pub record Meta : Type 0 where
  pub namespace : String
  pub name : String
  pub labels : Dict String
  pub owner : Option OwnerReference

-- An `interface{}` as an informer hands it over: an object, the tombstone of a deleted one, or a
-- value of another type.
pub data Object : Type 0 where
  accessor : Meta → Object
  tombstone : Option Meta → Object
  other_object : Object

unfoldable pub deletion_handling_accessor : Object → Reply Meta
deletion_handling_accessor (accessor m) = got m
deletion_handling_accessor (tombstone (some m)) = got m
deletion_handling_accessor (tombstone none) =
    refused (plain "the object that Tombstone contained is not of kmeta.Accessor")
deletion_handling_accessor other_object = refused (plain "couldn't get Accessor from tombstone")

-- `obj.(metav1.Object)`: a tombstone is no object.
abbrev as_object : Object → Option Meta
as_object (accessor m) = some m
as_object _ = none

-- `gv` is the text of the group and version.
unfoldable pub filter : String → String → Object → Bool
filter gv kind obj = elim (as_object obj) [
  | none ↦ false
  | some m ↦ elim m.owner [
    | none ↦ false
    | some owner ↦ str_eq owner.api_version gv && str_eq owner.kind kind
  ]
]

unfoldable pub filter_with_name : String → Object → Bool
filter_with_name name obj = elim (as_object obj) [ none ↦ false | some m ↦ str_eq name m.name ]

unfoldable pub filter_with_name_and_namespace : String → String → Object → Bool
filter_with_name_and_namespace namespace name obj = elim (as_object obj) [
  | none ↦ false
  | some m ↦ str_eq name m.name && str_eq namespace m.namespace
]

unfoldable pub pass_new {ℓ κ} : {A : Type ℓ} {B : Type κ} → (A → B) → A → A → B
pass_new f first second = f second

-- The three handlers of cache.ResourceEventHandlerFuncs.
pub record EventHandler {ℓ κ} (A : Type ℓ) (B : Type κ) : Type (ℓ ⊔ κ) where
  pub add_func : A → B
  pub update_func : A → A → B
  pub delete_func : A → B

unfoldable pub handle_all {ℓ κ} : {A : Type ℓ} {B : Type κ} → (A → B) → EventHandler A B
unfolding pass_new
handle_all h = record { add_func = h; update_func = pass_new h; delete_func = h }

-- The calls on the work queue. A delay is in nanoseconds.
pub data Call : Type 0 where
  add : NamespacedName → Call
  add_after : NamespacedName → ℕ → Call
  add_rate_limited : NamespacedName → Call
  forget : NamespacedName → Call
  done : NamespacedName → Call

unfoldable pub enqueue_key : NamespacedName → List Call
enqueue_key key = add key ∷ []

unfoldable pub enqueue_key_after : NamespacedName → ℕ → List Call
enqueue_key_after key delay = add_after key delay ∷ []

abbrev key_of : Meta → NamespacedName
key_of m = record { namespace = m.namespace; name = m.name }

-- What is done with an object that has an accessor; any other is logged only.
abbrev with_accessor : Object → (Meta → List Call) → List Call
with_accessor obj f = elim (deletion_handling_accessor obj) [ refused _ ↦ [] | got m ↦ f m ]

unfoldable pub enqueue_after : Object → ℕ → List Call
unfolding deletion_handling_accessor enqueue_key_after
enqueue_after obj after = with_accessor obj λ m. enqueue_key_after (key_of m) after

unfoldable pub enqueue : Object → List Call
unfolding deletion_handling_accessor enqueue_key
enqueue obj = with_accessor obj λ m. enqueue_key (key_of m)

unfoldable pub enqueue_sentinel : NamespacedName → Object → List Call
unfolding enqueue_key
enqueue_sentinel k obj = enqueue_key k

unfoldable pub enqueue_controller_of : Object → List Call
unfolding deletion_handling_accessor enqueue_key
enqueue_controller_of obj = with_accessor obj λ m. elim m.owner [
  | none ↦ []
  | some owner ↦ enqueue_key (record { namespace = m.namespace; name = owner.name })
]

unfoldable pub enqueue_label_of_namespace_scoped_resource : String → String → Object → List Call
unfolding deletion_handling_accessor enqueue_key lookup
enqueue_label_of_namespace_scoped_resource namespace_label name_label obj = with_accessor obj λ m.
    elim (lookup name_label m.labels) [
      | none ↦ []
      | some controller_key ↦
          if not (str_eq namespace_label "")
          then elim (lookup namespace_label m.labels) [
            | none ↦ []
            | some controller_namespace ↦
                enqueue_key (record { namespace = controller_namespace; name = controller_key })
          ]
          else enqueue_key (record { namespace = m.namespace; name = controller_key })
    ]

unfoldable pub enqueue_label_of_cluster_scoped_resource : String → Object → List Call
unfolding deletion_handling_accessor enqueue_key lookup
enqueue_label_of_cluster_scoped_resource name_label obj = with_accessor obj λ m.
    elim (lookup name_label m.labels) [
      | none ↦ []
      | some controller_key ↦ enqueue_key (record { namespace = ""; name = controller_key })
    ]

-- An error of a reconciler; a permanent one may wrap nil.
pub data ReconcileError : Type 0 where
  permanent_error : Option Error → ReconcileError
  transient : Error → ReconcileError

unfoldable pub new_permanent_error : Option Error → ReconcileError
new_permanent_error e = permanent_error e

unfoldable pub is_permanent_error : ReconcileError → Bool
is_permanent_error (permanent_error _) = true
is_permanent_error (transient _) = false

-- permanentError.Error, with the text of the wrapped error.
unfoldable pub permanent_error_text : (Error → String) → Option Error → String
permanent_error_text text none = ""
permanent_error_text text (some e) = text e

unfoldable pub safe_key : NamespacedName → String
safe_key key = if str_eq key.namespace "" then key.name else key.namespace <> "/" <> key.name

unfoldable pub handle_err : Bool → ReconcileError → NamespacedName → List Call
unfolding is_permanent_error
handle_err shutting_down err key =
    if not (is_permanent_error err) && not shutting_down
    then add_rate_limited key ∷ []
    else forget key ∷ []

-- How a reconciliation ends.
pub data Reconciled : Type 0 where
  success : Reconciled
  failure : ReconcileError → Reconciled
  panics : Reconciled

-- What WorkQueue.Get gives: a key, an item of another type, or the end at shutdown.
pub data Item : Type 0 where
  key_item : NamespacedName → Item
  other_item : Item
  shutdown : Item

-- What a round does, in order: calls on the queue, and the call of the reconciler with a text.
pub data Act : Type 0 where
  calls : Call → Act
  reconciles : String → Act

abbrev pub call_acts : List Call → List Act
call_acts [] = []
call_acts (c ∷ cs) = calls c ∷ call_acts cs

-- The call of Reconcile, and what is done with its answer.
abbrev reconciling :
    (String → Reconciled) → String → (Reconciled → Option Bool × List Call) → Option Bool × List Act
reconciling reconcile text rest =
    let (result, cs) = rest (reconcile text) in (result, reconciles text ∷ call_acts cs)

-- `defer c.WorkQueue.Done(obj)`: on every path the call comes last.
abbrev deferred_done : NamespacedName → Option Bool × List Act → Option Bool × List Act
deferred_done key (result, acts) = (result, acts ++ calls (done key) ∷ [])

-- The result of one round, `none` where it panics, and what it did.
unfoldable pub process_next_work_item : Item → (String → Reconciled) → Bool → Option Bool × List Act
unfolding handle_err safe_key
process_next_work_item shutdown reconcile shutting_down = (some false, [])
process_next_work_item other_item reconcile shutting_down = (none, [])
process_next_work_item (key_item key) reconcile shutting_down = deferred_done key (
    reconciling reconcile (safe_key key) λ r. elim r [
      | success ↦ (some true, forget key ∷ [])
      | failure err ↦ (some true, handle_err shutting_down err key)
      | panics ↦ (none, [])
    ])

-- The delays that `wait.Jitter` draws for the objects, in order, come as the function `jitter`.
filtered_loop : (Object → Bool) → (ℕ → ℕ) → ℕ → List Object → List Call
unfolding enqueue_after
filtered_loop f jitter i [] = []
filtered_loop f jitter i (obj ∷ list) =
    let calls = filtered_loop f jitter (i + 1) list in
    if f obj then enqueue_after obj (jitter i) ++ calls else calls

unfoldable pub filtered_global_resync : (Object → Bool) → (ℕ → ℕ) → Bool → List Object → List Call
unfolding filtered_loop
filtered_global_resync f jitter shutting_down list =
    if shutting_down then [] else filtered_loop f jitter 0 list

unfoldable pub global_resync : (ℕ → ℕ) → Bool → List Object → List Call
unfolding filtered_global_resync
global_resync jitter shutting_down list =
    filtered_global_resync (λ _. true) jitter shutting_down list

-- GetResyncPeriod, by the value that the context holds for it. A period is in nanoseconds.
abbrev pub default_resync_period : ℕ
default_resync_period = 10 * 60 * 60 * 1000 * 1000 * 1000

unfoldable pub get_resync_period : Option ℕ → ℕ
get_resync_period none = default_resync_period
get_resync_period (some period) = period

unfoldable pub get_tracker_lease : Option ℕ → ℕ
unfolding get_resync_period
get_tracker_lease period = 3 * get_resync_period period
