-- ===== src/Scheduler/Responses.antt =====
-- What the routes of pkg/scheduler/routes.go answer to a request that cannot be decoded.
use kubernetes_local_volume.Base.{ℕ, ◌≡◌, refl, String, Option, none, some, List}
use kubernetes_local_volume.Base.Dict.{Dict}
use kubernetes_local_volume.Fault.{Error, Outcome, ok, fail, panic, Reply, got, refused}
use kubernetes_local_volume.Scheduler.Handlers.{
  ExtenderArgs, FilterResult, HostPriority, PreemptionArgs,
}
use kubernetes_local_volume.Scheduler.Routes.{
  check_body, decode, send, Request, Write, predicate_route, prioritize_route, preemption_route,
  status_sent,
}

abbrev pub status_of : Outcome (List Write) → Outcome ℕ
status_of (ok ws) = ok (status_sent ws)
status_of (fail e) = fail e
status_of panic = panic

-- A body that no route can decode, with results that can be marshalled: the filter answers with the
-- status 200, the priorities panic, and the preemption answers with the status 400.
pub undecodable_status :
    (args_of : String → Reply ExtenderArgs) (preempted_of : String → Reply PreemptionArgs)
    (filtered : Option FilterResult × String → Reply String)
    (prioritized : List HostPriority → Reply String)
    (preempted : Option (Dict (List String)) → Reply String)
    (filter : ExtenderArgs → Outcome FilterResult)
    (prioritise : ExtenderArgs → Outcome (List HostPriority))
    (preempt : PreemptionArgs → Outcome (Dict (List String))) (text : Error → String)
    (body : String) (e f : Error) (b c : String)
    → args_of body ≡ refused e
    → preempted_of body ≡ refused f
    → filtered (none, text e) ≡ got b
    → preempted none ≡ got c
    → let r : Request = record { body = some body } in
      (status_of (predicate_route args_of filtered filter text r) ≡ ok 200)
      × (prioritize_route args_of prioritized prioritise r ≡ panic)
      × (status_of (preemption_route preempted_of preempted preempt r) ≡ ok 400)
unfolding send decode check_body predicate_route prioritize_route preemption_route status_sent
undecodable_status args_of preempted_of filtered prioritized preempted filter prioritise preempt
      text body e f b c bad bad2 sent sent2 =
    (rw (bad, send, sent) refl, rw bad refl, rw (bad2, send, sent2) refl)
