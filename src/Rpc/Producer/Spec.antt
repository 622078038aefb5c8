-- ===== src/Rpc/Producer/Spec.antt =====
-- `RpcEventProducer`: what its caller can see of it, without the numbers of the subscriptions.
use subql_cosmos.Base.{
  ℕ, suc, zero, ◌≤◌, ◌≡◌, refl, ap, ◌∙◌, sym, inl, inr, true, false, List, [], ◌∷◌, All, Bool-cases,
  nat_strict, if◌then◌else◌, Result, ok, err, arith,
}
use subql_cosmos.Value.{Value}
use subql_cosmos.Rpc.{
  RpcLib, JsonRpcRequest, JsonRpcResponse, success, error, answers, to_json_rpc_response,
}
use subql_cosmos.Rpc.Producer.{
  Role, by_id, by_event, non_response, Subscription, Producer, Signal, error_text, error_fault,
  complete, dispatch, deliver, handle_event, SocketEvent, message, failure, end, is_live,
  on_response, on_answer, on_end,
}
use subql_cosmos.Rpc.Producer.Delivery.{
  dispatch-live, dispatch-gone, All-live, ended, error-ended, on_end-ended, dispatch-idle,
}
use subql_cosmos.Rpc.Producer.Results.{passed_on, success-passed_on, Ready}
use subql_cosmos.Rpc.Producer.Invariant.{count, Roled, sessions, Inv}

-- What an event means to the listener of a producer.
pub data Meaning : Type 0 where
  result : Value → Meaning
  final : Signal → Meaning
  nothing : Meaning

abbrev pub repeat : ℕ → Signal → List Signal
repeat zero signal = []
repeat (suc n) signal = signal ∷ repeat n signal

abbrev pub after : Meaning → Producer → Producer
after (result v) p = passed_on v p.live p
after (final signal) p = ended signal p
after nothing p = p

module _ (lib : RpcLib) where
  abbrev pub meaning_of : JsonRpcRequest → JsonRpcResponse → Meaning
  meaning_of request (success id v) = if answers request (success id v) then result v else nothing
  meaning_of request (error id e) =
      if answers request (error id e) then final (error_text (lib.stringify e)) else nothing

  abbrev pub meaning : JsonRpcRequest → SocketEvent → Meaning
  meaning request (message m) = elim (to_json_rpc_response lib m) [
    | ok response ↦ meaning_of request response
    | err e ↦ final (error_fault e)
  ]
  meaning request (failure e) = final (error_fault e)
  meaning request end = final complete

  unanswered :
      (response : JsonRpcResponse) (listeners : List Subscription) (p : Producer)
      → answers p.request response ≡ false
      → dispatch (on_response lib response) listeners p ≡ p
  unfolding dispatch on_response
  unanswered response [] p h = refl
  unanswered response (s ∷ listeners) p h = elim (Bool-cases (is_live s p)) [
    | inl t ↦
        dispatch-live _ s listeners p t
        ∙ ap
            (λ b.
              dispatch (on_response lib response) listeners
                (if b then on_answer lib s response p else p))
            h
        ∙ unanswered response listeners p h
    | inr f ↦ dispatch-gone _ s listeners p f ∙ unanswered response listeners p h
  ]

  All-Ready : (p : Producer) → Inv p → All (Ready p) p.live
  All-Ready p v = go p.live v.roled (All-live p)
    where
      go :
          (live : List Subscription)
          → All Roled live
          → All (λ s. is_live s p ≡ true) live
          → All (Ready p) live
      go [] roled alive = tt
      go (s ∷ live) (roled, more) (alive, rest) = ((roled, λ e. alive), go live more rest)

  response-after :
      (response : JsonRpcResponse) (p : Producer)
      → Inv p
      → 1 ≤ sessions p
      → dispatch (on_response lib response) p.live p ≡ after (meaning_of p.request response) p
  response-after (success id x) p v open_sessions =
      elim (Bool-cases (answers p.request (success id x))) [
        | inl t ↦
            success-passed_on lib id x p.live p t (All-Ready p v)
            ∙ sym (ap (λ b. after (if b then result x else nothing) p) t)
        | inr f ↦
            unanswered (success id x) p.live p f
            ∙ sym (ap (λ b. after (if b then result x else nothing) p) f)
      ]
  response-after (error id e) p v open_sessions =
      elim (Bool-cases (answers p.request (error id e))) [
        | inl t ↦
            error-ended lib p id e v open_sessions t
            ∙ sym
                (ap (λ b. after (if b then final (error_text (lib.stringify e)) else nothing) p) t)
        | inr f ↦
            unanswered (error id e) p.live p f
            ∙ sym
                (ap (λ b. after (if b then final (error_text (lib.stringify e)) else nothing) p) f)
      ]

  pub deliver-after :
      (event : SocketEvent) (p : Producer)
      → Inv p
      → 1 ≤ sessions p
      → deliver lib event p ≡ after (meaning p.request event) p
  unfolding deliver handle_event
  deliver-after (message m) p v h = go (to_json_rpc_response lib m)
    where
      go :
          (r : Result JsonRpcResponse)
          → dispatch
              (elim r [ ok response ↦ on_response lib response | err e ↦ on_end (error_fault e) ])
              p.live
              p
            ≡ after
                (elim r [
                  | ok response ↦ meaning_of p.request response
                  | err e ↦ final (error_fault e)
                ])
                p
      go (ok response) = response-after response p v h
      go (err e) = on_end-ended lib p (error_fault e) v h
  deliver-after (failure e) p v h = on_end-ended lib p (error_fault e) v h
  deliver-after end p v h = on_end-ended lib p complete v h

  no_live :
      (live : List Subscription)
      → count by_id live ≡ 0
      → count by_event live ≡ 0
      → count non_response live ≡ 0
      → live ≡ []
  no_live [] a b c = refl
  no_live (s ∷ live) a b c = go s.role a b c
    where
      go :
          (r : Role)
          → count by_id (record { number = s.number; role = r } ∷ live) ≡ 0
          → count by_event (record { number = s.number; role = r } ∷ live) ≡ 0
          → count non_response (record { number = s.number; role = r } ∷ live) ≡ 0
          → s ∷ live ≡ []
      go by_id a b c = absurd (omega arith)
      go by_event a b c = absurd (omega arith)
      go non_response a b c = absurd (omega arith)

  pub deliver-idle :
      (event : SocketEvent) (p : Producer) → Inv p → sessions p ≡ 0 → deliver lib event p ≡ p
  unfolding deliver
  deliver-idle event p v none_open =
      dispatch-idle (handle_event lib event) p.live p
        (no_live p.live (omega (arith, v.few)) none_open (omega (arith, v.balanced)))
