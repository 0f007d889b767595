-- ===== src/Controller/References.antt =====
-- NewImpl, the event recorder in a context (pkg/common/controller/controller.go), and ObjectReference
-- (pkg/common/controller/meta.go).
use kubernetes_local_volume.Base.{String, Option, none, some}
use kubernetes_local_volume.Controller.{Meta}

-- Impl. The reconciler, the queue and the logger are of any types.
pub record Impl (Reconciler Queue Logger : Type 0) : Type 0 where
  pub reconciler : Reconciler
  pub work_queue : Queue
  pub logger : Logger

-- `new_queue` is workqueue.NewNamedRateLimitingQueue with the default rate limiter.
unfoldable pub new_impl_with_stats :
    {Reconciler Queue Logger : Type 0}
    → (String → Queue)
    → Reconciler
    → Logger
    → String
    → Impl Reconciler Queue Logger
new_impl_with_stats new_queue r logger work_queue_name = record {
  reconciler = r;
  work_queue = new_queue work_queue_name;
  logger = logger;
}

unfoldable pub new_impl :
    {Reconciler Queue Logger : Type 0}
    → (String → Queue)
    → Reconciler
    → Logger
    → String
    → Impl Reconciler Queue Logger
unfolding new_impl_with_stats
new_impl new_queue r logger work_queue_name = new_impl_with_stats new_queue r logger work_queue_name

-- The recorder in a context: what it holds for the key, which is nil for a nil recorder.
unfoldable pub with_event_recorder :
    {Recorder : Type 0} → Option Recorder → Option Recorder → Option Recorder
with_event_recorder value er = er

unfoldable pub get_event_recorder : {Recorder : Type 0} → Option Recorder → Option Recorder
get_event_recorder none = none
get_event_recorder (some er) = some er

-- corev1.ObjectReference
pub record Reference : Type 0 where
  pub api_version : String
  pub kind : String
  pub namespace : String
  pub name : String

-- `gvk` is the text of the object's API version, and its kind.
unfoldable pub object_reference : String × String → Meta → Reference
object_reference gvk obj = record {
  api_version = gvk.0;
  kind = gvk.1;
  namespace = obj.namespace;
  name = obj.name;
}
