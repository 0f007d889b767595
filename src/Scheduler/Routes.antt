-- ===== src/Scheduler/Routes.antt =====
-- pkg/scheduler/routes.go: the HTTP routes around the handlers. The decoding and encoding of JSON
-- are parameters, and so is what the handler does; a response is the list of the calls that write it.
use kubernetes_local_volume.Base.{ℕ, String, Option, none, some, List, [], ◌∷◌, ◌++◌}
use kubernetes_local_volume.Fault.{Error, Outcome, ok, fail, panic, Reply, got, refused}
use kubernetes_local_volume.Fault.Pure.{◌>>=◌}
use kubernetes_local_volume.Scheduler.Handlers.{
  ExtenderArgs, FilterResult, HostPriority, PreemptionArgs,
}
use kubernetes_local_volume.Scheduler.Binding.{BindingArgs, BindingResult}
use kubernetes_local_volume.Base.Dict.{Dict}

-- The calls on http.ResponseWriter.
pub data Write : Type 0 where
  http_error : String → ℕ → Write
  content_type_json : Write
  write_header : ℕ → Write
  write_body : String → Write

pub record Request : Type 0 where
  pub body : Option String

unfoldable pub check_body : Request → List Write
check_body r = elim r.body [ none ↦ http_error "Please send a request body" 400 ∷ [] | some _ ↦ [] ]

-- The decoder reads the body through a tee; it panics at a body that is nil.
module _ {A : Type 0} (decode_json : String → Reply A) where
  unfoldable pub decode : Request → Outcome (Reply A)
  decode r = elim r.body [ none ↦ panic | some text ↦ ok (decode_json text) ]

module _ {R : Type 0} (marshal : R → Reply String) where
  -- Marshalling the result, with `panic(err)`, and the three calls that send it.
  unfoldable pub send : R → Outcome (List Write)
  send result = elim (marshal result) [
    | refused _ ↦ panic
    | got body ↦ ok (content_type_json ∷ write_header 200 ∷ write_body body ∷ [])
  ]

abbrev after : List Write → Outcome (List Write) → Outcome (List Write)
after ws o = o >>= λ more. ok (ws ++ more)

module _ (decode_json : String → Reply ExtenderArgs)
    (marshal : Option (FilterResult) × String → Reply String)
    (handler : ExtenderArgs → Outcome FilterResult) (text : Error → String) where
  -- The result of a request that cannot be decoded has no nodes, and the error's text.
  unfoldable pub predicate_route : Request → Outcome (List Write)
  unfolding check_body decode send
  predicate_route r = after (check_body r) (
      decode decode_json r >>= λ args. elim args [
        | refused e ↦ send marshal (none, text e)
        | got a ↦ handler a >>= λ result. send marshal (some result, result.error)
      ])

module _ (decode_json : String → Reply ExtenderArgs) (marshal : List HostPriority → Reply String)
    (handler : ExtenderArgs → Outcome (List HostPriority)) where
  unfoldable pub prioritize_route : Request → Outcome (List Write)
  unfolding check_body decode send
  prioritize_route r = after (check_body r) (
      decode decode_json r >>= λ args. elim args [
        | refused e ↦ panic
        | got a ↦ elim (handler a) [
          | ok priorities ↦ send marshal priorities
          | fail _ ↦ panic
          | panic ↦ panic
        ]
      ])

module _ (decode_json : String → Reply BindingArgs) (marshal : BindingResult → Reply String)
    (handler : BindingArgs → Outcome BindingResult) (text : Error → String) where
  unfoldable pub bind_route : Request → Outcome (List Write)
  unfolding check_body decode send
  bind_route r = after (check_body r) (
      decode decode_json r >>= λ args. elim args [
        | refused e ↦ send marshal (record { error = text e })
        | got a ↦ handler a >>= send marshal
      ])

module _ (decode_json : String → Reply PreemptionArgs)
    (marshal : Option (Dict (List String)) → Reply String)
    (handler : PreemptionArgs → Outcome (Dict (List String))) where
  -- A request that cannot be decoded gets the status 400, and the nil result is sent all the same.
  unfoldable pub preemption_route : Request → Outcome (List Write)
  unfolding check_body decode send
  preemption_route r = after (check_body r) (
      decode decode_json r >>= λ args. elim args [
        | refused e ↦ after (content_type_json ∷ write_header 400 ∷ []) (send marshal none)
        | got a ↦ handler a >>= λ result. send marshal (some result)
      ])

-- The status that the client gets: the first one written, and 200 where none is.
unfoldable pub status_sent : List Write → ℕ
status_sent [] = 200
status_sent (http_error _ n ∷ _) = n
status_sent (write_header n ∷ _) = n
status_sent (write_body _ ∷ _) = 200
status_sent (content_type_json ∷ ws) = status_sent ws
