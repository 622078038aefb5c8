-- ===== src/Rpc/Producer/Restart.antt =====
-- `RpcEventProducer`: restarts, the silence after the end, and how many subscriptions it holds.
use subql_cosmos.Base.{
  ℕ, suc, zero, ◌+◌, ◌*◌, ◌≤◌, ◌≡◌, refl, ap, ◌∙◌, sym, inl, inr, Bool, true, false, List, [], ◌∷◌,
  ◌++◌, All, any, ◌==◌, nat_strict, length, Bool-cases, Fault, Result, ok, err, arith,
}
use mathlib.Core.List.{append-nil}
use subql_cosmos.Value.{Value}
use subql_cosmos.Rpc.{RpcLib, JsonRpcRequest}
use subql_cosmos.Rpc.Producer.{
  Role, by_id, by_event, non_response, Subscription, Producer, Signal, next, Call, starts, stops,
  delivers, run, SocketEvent, new_producer,
}
use subql_cosmos.Rpc.Producer.Spec.{Meaning, result, final, nothing, repeat, meaning}
use subql_cosmos.Rpc.Producer.Invariant.{count, sessions, Inv}
use subql_cosmos.Rpc.Producer.Preserved.{run-Inv, new_producer-Inv}
use subql_cosmos.Rpc.Producer.Refinement.{
  View, view, spec_queue, spec_event, spec_step, spec_run, new_run-spec_run, run-spec_run,
}

-- Stopped and started `n` times, with requests that the socket takes.
abbrev pub reconnects : ℕ → List Call
reconnects zero = []
reconnects (suc n) = stops (ok tt) ∷ starts (ok tt) ∷ reconnects n

abbrev pub Silent : Call → Type 0
Silent (starts queued) = ⊥
Silent (stops queued) = Unit
Silent (delivers event) = Unit

abbrev pub start_count : List Call → ℕ
start_count [] = 0
start_count (starts queued ∷ calls) = suc (start_count calls)
start_count (call ∷ calls) = start_count calls

length-count :
    (live : List Subscription)
    → length live ≡ count by_id live + count by_event live + count non_response live
length-count [] = omega arith
length-count (s ∷ live) = go s.role (length-count live)
  where
    go :
        (r : Role)
        → length live ≡ count by_id live + count by_event live + count non_response live
        → suc (length live)
          ≡ count by_id (record { number = s.number; role = r } ∷ live)
            + count by_event (record { number = s.number; role = r } ∷ live)
            + count non_response (record { number = s.number; role = r } ∷ live)
    go by_id e = omega arith
    go by_event e = omega arith
    go non_response e = omega arith

spec_event-result :
    (n : ℕ) (v : Value) (w : View)
    → (spec_event n (result v) w).signals ≡ w.signals ++ repeat n (next v)
spec_event-result zero v w = sym (append-nil w.signals)
spec_event-result (suc n) v w = refl

spec_event-connections-le :
    (n : ℕ) (m : Meaning) (w : View) → (spec_event n m w).connections ≤ w.connections
spec_event-connections-le zero m w = omega arith
spec_event-connections-le (suc n) (result v) w = omega arith
spec_event-connections-le (suc n) (final signal) w = omega arith
spec_event-connections-le (suc n) nothing w = omega arith

spec_queue-connections :
    (r : Result (Unit {0})) (request : JsonRpcRequest) (w : View)
    → (spec_queue r request w).connections ≡ w.connections
spec_queue-connections (ok u) request w = refl
spec_queue-connections (err e) request w = refl

module _ (lib : RpcLib) where
  reconnected :
      (n : ℕ) (w : View) (event : SocketEvent) (v : Value)
      → w.running ≡ true
      → meaning lib w.request event ≡ result v
      → (spec_run lib (reconnects n ++ delivers event ∷ []) w).signals
        ≡ w.signals ++ repeat (w.connections + n) (next v)
  reconnected zero w event v h e =
      let same : w.connections + 0 ≡ w.connections = omega arith in
      ap (λ m. (spec_event w.connections m w).signals) e
      ∙ spec_event-result w.connections v w
      ∙ ap (λ k. w.signals ++ repeat k (next v)) (sym same)
  reconnected (suc n) w event v h e =
      let next_w = spec_step lib (starts (ok tt)) (spec_step lib (stops (ok tt)) w) in
      let more : suc w.connections + n ≡ w.connections + suc n = omega arith in
      reconnected n next_w event v refl e ∙ ap (λ k. w.signals ++ repeat k (next v)) more

  silent :
      (calls : List Call) (w : View)
      → w.connections ≡ 0
      → All Silent calls
      → (spec_run lib calls w).signals ≡ w.signals
  silent [] w h all = refl
  silent (starts queued ∷ calls) w h all = absurd all.0
  silent (stops (ok u) ∷ calls) w h all = silent calls _ h all.1
  silent (stops (err e) ∷ calls) w h all = silent calls _ h all.1
  silent (delivers event ∷ calls) w h all =
      ap (λ k. (spec_run lib calls (spec_event k (meaning lib w.request event) w)).signals) h
      ∙ silent calls w h all.1

  step-connections-le :
      (call : Call) (w : View)
      → (spec_step lib call w).connections ≤ w.connections + start_count (call ∷ [])
  step-connections-le (starts queued) w = elim (Bool-cases w.running) [
    | inl t ↦ rw t (omega arith)
    | inr f ↦ rw f (
        omega (
          arith,
          spec_queue-connections queued w.request
              (record w { running = true; connections = suc w.connections }),
        ))
  ]
  step-connections-le (stops queued) w = omega (
    arith,
    spec_queue-connections queued (record w.request { method = "unsubscribe" })
        (record w { running = false }),
  )
  step-connections-le (delivers event) w =
      omega (arith, spec_event-connections-le w.connections (meaning lib w.request event) w)

  start_count-cons :
      (call : Call) (calls : List Call)
      → start_count (call ∷ calls) ≡ start_count (call ∷ []) + start_count calls
  start_count-cons (starts queued) calls = omega arith
  start_count-cons (stops queued) calls = omega arith
  start_count-cons (delivers event) calls = omega arith

  few_connections :
      (calls : List Call) (w : View)
      → (spec_run lib calls w).connections ≤ w.connections + start_count calls
  few_connections [] w = omega arith
  few_connections (call ∷ calls) w = omega (
    arith,
    few_connections calls (spec_step lib call w),
    step-connections-le call w,
    start_count-cons call calls,
  )

  -- A producer that was started, and then stopped and started again n times, passes each result on
  -- n + 1 times.
  pub reconnects-repeat :
      (is_disconnection : Fault → Bool) (request : JsonRpcRequest) (n : ℕ) (event : SocketEvent)
      (v : Value)
      → meaning lib request event ≡ result v
      → (run lib is_disconnection
          (starts (ok tt) ∷ reconnects n ++ delivers event ∷ [])
          (new_producer request)).signals
        ≡ repeat (suc n) (next v)
  unfolding new_producer
  reconnects-repeat d request n event v e =
      let started = spec_step lib (starts (ok tt)) (view (new_producer request)) in
      let one : 1 + n ≡ suc n = omega arith in
      ap (λ w. w.signals) (new_run-spec_run lib d request _)
      ∙ reconnected n started event v refl e
      ∙ ap (λ k. repeat k (next v)) one

  -- Where an error or the end reaches a producer that is connected, it is the last thing that the
  -- listener gets until the producer is started again, and it gets it once.
  pub final_once :
      (is_disconnection : Fault → Bool) (p : Producer) (event : SocketEvent) (signal : Signal)
      (calls : List Call)
      → Inv p
      → 1 ≤ sessions p
      → meaning lib p.request event ≡ final signal
      → All Silent calls
      → (run lib is_disconnection (delivers event ∷ calls) p).signals ≡ p.signals ++ signal ∷ []
  final_once d p event signal calls inv connected e all =
      ap (λ w. w.signals) (run-spec_run lib d (delivers event ∷ calls) p inv)
      ∙ ap (λ m. (spec_run lib calls (spec_event (sessions p) m (view p))).signals) e
      ∙ go (sessions p) connected
    where
      go :
          (n : ℕ)
          → 1 ≤ n
          → (spec_run lib calls (spec_event n (final signal) (view p))).signals
            ≡ p.signals ++ signal ∷ []
      go zero h = absurd (omega arith)
      go (suc n) h = silent calls _ refl all

  -- A producer holds three subscriptions for each connection, and has no more connections than
  -- times that it was started; each subscription that gets events is one that it holds.
  pub subscriptions_bounded :
      (is_disconnection : Fault → Bool) (request : JsonRpcRequest) (calls : List Call)
      → let p = run lib is_disconnection calls (new_producer request) in
        (length p.subscriptions ≡ 3 * sessions p)
        × (length p.live ≤ length p.subscriptions)
        × All (λ s. any (λ n. n == s.number) p.subscriptions ≡ true) p.live
        × (sessions p ≤ start_count calls)
  unfolding new_producer
  subscriptions_bounded d request calls = (
    inv.held,
    omega (arith, inv.held, inv.balanced, inv.few, length-count p.live),
    inv.owned,
    omega (
      arith,
      ap (λ w. w.connections) (new_run-spec_run lib d request calls),
      few_connections calls (view (new_producer request)),
    ),
  )
    where
      p : Producer
      p = run lib d calls (new_producer request)

      inv : Inv p
      inv = run-Inv lib d calls _ (new_producer-Inv request)
