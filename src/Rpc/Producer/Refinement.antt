-- ===== src/Rpc/Producer/Refinement.antt =====
-- `RpcEventProducer` implements a machine that only counts its connections.
use subql_cosmos.Base.{
  ℕ, suc, zero, ◌+◌, ◌≡◌, refl, ap, ap₂, ◌∙◌, inl, inr, Bool, true, false, List, [], ◌∷◌, ◌++◌,
  Bool-cases, nat_strict, if◌then◌else◌, Fault, Result, ok, err, arith,
}
use subql_cosmos.Value.{Value}
use subql_cosmos.Rpc.{RpcLib, JsonRpcRequest}
use subql_cosmos.Rpc.Producer.{
  by_event, Subscription, Producer, Signal, next, Call, starts, stops, delivers, step, run, start,
  stop, queue_request, deliver, connect_to_client, SocketEvent, new_producer, start_unless,
}
use subql_cosmos.Rpc.Producer.Results.{results}
use subql_cosmos.Rpc.Producer.Spec.{
  Meaning, result, final, nothing, repeat, after, meaning, deliver-after, deliver-idle,
}
use subql_cosmos.Rpc.Producer.Invariant.{is_role, count, sessions, Inv, count-append}
use subql_cosmos.Rpc.Producer.Preserved.{count-without_all, step-Inv, new_producer-Inv}

pub record View : Type 0 where
  pub request : JsonRpcRequest
  pub running : Bool
  pub connections : ℕ
  pub sent : List JsonRpcRequest
  pub signals : List Signal

abbrev pub view : Producer → View
view p = record {
  request = p.request;
  running = p.running;
  connections = sessions p;
  sent = p.sent;
  signals = p.signals;
}

abbrev pub spec_queue : Result (Unit {0}) → JsonRpcRequest → View → View
spec_queue (ok u) request w = record w { sent = w.sent ++ request ∷ [] }
spec_queue (err e) request w = w

abbrev pub spec_event : ℕ → Meaning → View → View
spec_event zero meaning w = w
spec_event (suc n) (result v) w = record w { signals = w.signals ++ repeat (suc n) (next v) }
spec_event (suc n) (final signal) w = record w {
  connections = 0;
  signals = w.signals ++ signal ∷ [];
}
spec_event (suc n) nothing w = w

module _ (lib : RpcLib) where
  abbrev pub spec_step : Call → View → View
  spec_step (starts queued) w =
      if w.running
      then w
      else spec_queue queued w.request
          (record w { running = true; connections = suc w.connections })
  spec_step (stops queued) w =
      spec_queue queued (record w.request { method = "unsubscribe" }) (record w { running = false })
  spec_step (delivers event) w = spec_event w.connections (meaning lib w.request event) w

  abbrev pub spec_run : List Call → View → View
  spec_run [] w = w
  spec_run (call ∷ calls) w = spec_run calls (spec_step call w)

results-repeat :
    (v : Value) (live : List Subscription) → results v live ≡ repeat (count by_event live) (next v)
results-repeat v [] = refl
results-repeat v (s ∷ live) = elim (Bool-cases (is_role by_event s.role)) [
  | inl t ↦
      let one : 1 + count by_event live ≡ suc (count by_event live) = omega arith in
      rw (t, one) (ap (λ l. next v ∷ l) (results-repeat v live))
  | inr f ↦
      let none_more : 0 + count by_event live ≡ count by_event live = omega arith in
      rw (f, none_more) (results-repeat v live)
]

after-view :
    (m : Meaning) (p : Producer) (n : ℕ)
    → Inv p
    → sessions p ≡ suc n
    → view (after m p) ≡ spec_event (suc n) m (view p)
after-view (result v) p n inv e =
    ap₂ (λ c l. record (view p) { connections = c; signals = p.signals ++ l })
      (count-without_all by_event p.live p.live (omega arith) inv.roled inv.roled)
      (results-repeat v p.live ∙ ap (λ k. repeat k (next v)) e)
after-view (final signal) p n inv e = refl
after-view nothing p n inv e = refl

module _ (lib : RpcLib) (is_disconnection : Fault → Bool) where
  deliver-view :
      (event : SocketEvent) (p : Producer)
      → Inv p
      → view (deliver lib event p) ≡ spec_event (sessions p) (meaning lib p.request event) (view p)
  deliver-view event p v = go (sessions p) refl
    where
      go :
          (n : ℕ)
          → sessions p ≡ n
          → view (deliver lib event p) ≡ spec_event n (meaning lib p.request event) (view p)
      go zero e = ap view (deliver-idle lib event p v e)
      go (suc n) e =
          ap view (deliver-after lib event p v (omega arith))
          ∙ after-view (meaning lib p.request event) p n v e

  queue-view :
      (r : Result (Unit {0})) (request : JsonRpcRequest) (p : Producer)
      → view (queue_request r request p).1 ≡ spec_queue r request (view p)
  queue-view (ok u) request p = refl
  queue-view (err e) request p = refl

  connect-view :
      (p : Producer)
      → view (connect_to_client p) ≡ record (view p) { connections = suc (sessions p) }
  unfolding connect_to_client
  connect-view p =
      ap (λ c. record (view p) { connections = c }) (count-append by_event p.live _ ∙ omega arith)

  step-view :
      (call : Call) (p : Producer)
      → Inv p
      → view (step lib is_disconnection call p) ≡ spec_step lib call (view p)
  unfolding step start stop start_unless
  step-view (starts queued) p v = go p.running
    where
      go :
          (b : Bool)
          → view (start_unless b queued p).1 ≡ (
              if b
              then view p
              else spec_queue queued p.request
                  (record (view p) { running = true; connections = suc (sessions p) }))
      go true = refl
      go false =
          queue-view queued p.request _
          ∙ ap (spec_queue queued p.request) (connect-view (record p { running = true }))
  step-view (stops queued) p v = queue-view queued _ _
  step-view (delivers event) p v = deliver-view event p v

  pub run-spec_run :
      (calls : List Call) (p : Producer)
      → Inv p
      → view (run lib is_disconnection calls p) ≡ spec_run lib calls (view p)
  unfolding run
  run-spec_run [] p v = refl
  run-spec_run (call ∷ calls) p v =
      run-spec_run calls _ (step-Inv lib is_disconnection call p v)
      ∙ ap (spec_run lib calls) (step-view call p v)

module _ (lib : RpcLib) (is_disconnection : Fault → Bool) where
  -- Whatever is called and whatever the socket gives, what a caller sees of a new producer is what
  -- the machine does that counts connections: a result is passed on once for each of them, an error
  -- or the end is passed on once and drops them all, and any other response is passed over.
  pub new_run-spec_run :
      (request : JsonRpcRequest) (calls : List Call)
      → view (run lib is_disconnection calls (new_producer request))
        ≡ spec_run lib calls (view (new_producer request))
  new_run-spec_run request calls =
      run-spec_run lib is_disconnection calls _ (new_producer-Inv request)
