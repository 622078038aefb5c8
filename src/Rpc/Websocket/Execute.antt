-- ===== src/Rpc/Websocket/Execute.antt =====
-- `WebsocketClient.execute`: when its promise settles, and with what.
use subql_cosmos.Base.{
  ◌≡◌, refl, ap, ◌∙◌, ◌↔◌, inl, inr, true, false, Option, none, some, List, [], ◌∷◌, ◌++◌, All,
  Bool-cases, if◌then◌else◌, Fault, Result, ok, err,
}
use subql_cosmos.Rpc.{
  RpcLib, JsonRpcRequest, JsonRpcResponse, answers, result_of, SocketMessage, to_json_rpc_response,
}
use subql_cosmos.Rpc.Producer.{SocketEvent, message, failure, end}
use subql_cosmos.Rpc.Websocket.{settled_by, executed, response_for_request_id, execute}

module _ (lib : RpcLib) (no_event : Fault) (request : JsonRpcRequest) where
  -- A response to another request.
  abbrev pub PassedOver : SocketEvent → Type 0
  PassedOver (message m) =
      (response : JsonRpcResponse) × (to_json_rpc_response lib m ≡ ok response)
      × (answers request response ≡ false)
  PassedOver (failure e) = ⊥
  PassedOver end = ⊥

  passes_over :
      (before events : List SocketEvent)
      → All PassedOver before
      → response_for_request_id lib no_event request (before ++ events)
        ≡ response_for_request_id lib no_event request events
  unfolding response_for_request_id
  passes_over [] events h = refl
  passes_over (message m ∷ before) events ((response, e, other), h) =
      ap
        (λ r.
          settled_by request r (response_for_request_id lib no_event request (before ++ events)))
        e
      ∙ ap
          (λ b.
            if b
            then some (ok response)
            else response_for_request_id lib no_event request (before ++ events))
          other
      ∙ passes_over before events h
  passes_over (failure e ∷ before) events h = absurd h.0
  passes_over (end ∷ before) events h = absurd h.0

  pending_settled_by :
      (m : SocketMessage) (r : Result JsonRpcResponse) (rest : Option (Result JsonRpcResponse))
      → to_json_rpc_response lib m ≡ r
      → (settled_by request r rest ≡ none) ↔ (PassedOver (message m) × (rest ≡ none))
  pending_settled_by m (err e) rest parsed =
      (λ h. cc h, λ ((response, e', other), last). absurd (cc (parsed, e')))
  pending_settled_by m (ok response) rest parsed = elim (Bool-cases (answers request response)) [
    | inl t ↦ rw t (λ h. cc h, λ ((response', e', other), last). absurd (cc (parsed, e', other, t)))
    | inr f ↦ rw f (λ h. ((response, parsed, f), h), λ h. h.1)
  ]

  pending :
      (events : List SocketEvent)
      → (response_for_request_id lib no_event request events ≡ none) ↔ All PassedOver events
  unfolding response_for_request_id
  pending [] = (λ h. tt, λ h. refl)
  pending (message m ∷ events) =
      let (there, back) =
        pending_settled_by m (to_json_rpc_response lib m)
          (response_for_request_id lib no_event request events) refl in
      (λ h. ((there h).0, (pending events).0 (there h).1), λ h. back (h.0, (pending events).1 h.1))
  pending (failure e ∷ events) = (λ h. cc h, λ h. absurd h.0)
  pending (end ∷ events) = (λ h. cc h, λ h. absurd h.0)

  executed-pending : (o : Option (Result JsonRpcResponse)) → (executed lib o ≡ none) ↔ (o ≡ none)
  executed-pending none = (λ h. h, λ h. h)
  executed-pending (some r) = (λ h. cc h, λ h. cc h)

  -- The promise of a request that was queued stays pending just while every event is a response to
  -- another request.
  pub execute_pending_iff :
      (events : List SocketEvent)
      → (execute lib no_event (ok tt) request events ≡ none) ↔ All PassedOver events
  unfolding execute
  execute_pending_iff events =
      let (there, back) = executed-pending (response_for_request_id lib no_event request events) in
      (λ h. (pending events).0 (there h), λ h. back ((pending events).1 h))

  -- Where a response to a request that was queued comes after responses to other requests alone,
  -- the promise settles: it gives that response, or throws its error as text.
  pub execute_settles :
      (before after : List SocketEvent) (m : SocketMessage) (response : JsonRpcResponse)
      → All PassedOver before
      → to_json_rpc_response lib m ≡ ok response
      → answers request response ≡ true
      → execute lib no_event (ok tt) request (before ++ message m ∷ after)
        ≡ some (result_of lib response)
  unfolding execute response_for_request_id
  execute_settles before after m response h parsed answered = ap (executed lib) (
      passes_over before (message m ∷ after) h
      ∙ ap (λ r. settled_by request r (response_for_request_id lib no_event request after)) parsed
      ∙ ap
          (λ b.
            if b then some (ok response) else response_for_request_id lib no_event request after)
          answered)
