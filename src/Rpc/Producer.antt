-- ===== src/Rpc/Producer.antt =====
-- `RpcEventProducer` of packages/node/src/indexer/rpc-clients/WebsocketClient.ts: its state, and the
-- subscriptions of it that the stream of the socket's events still has.
pub mod Invariant
pub mod Delivery
pub mod Results
pub mod Spec
pub mod Preserved
pub mod Refinement
pub mod Restart
use subql_cosmos.Base.{
  ℕ, suc, ◌+◌, String, Bool, true, false, not, ◌||◌, Option, none, some, List, [], ◌∷◌, ◌++◌, any,
  ◌==◌, text_strict, nat_strict, if◌then◌else◌, Fault, Result, ok, err, fail, ◌>>=◌,
}
use subql_cosmos.Value.{Value}
use subql_cosmos.Rpc.{
  RpcLib, JsonRpcRequest, JsonRpcResponse, success, error, answers, SocketMessage,
  to_json_rpc_response,
}

-- The three listeners that `connectToClient` subscribes.
pub data Role : Type 0 where
  by_id by_event non_response : Role

pub record Subscription : Type 0 where
  pub number : ℕ
  pub role : Role

-- What the producer's listener gets.
pub data Signal : Type 0 where
  next : Value → Signal
  error_text : String → Signal
  error_fault : Fault → Signal
  complete : Signal

-- `live` are the subscriptions that get the socket's events, in the order in which they subscribed;
-- `fresh` numbers the next one. `sent` and `signals` are in the order of the calls.
pub record Producer : Type 0 where
  pub request : JsonRpcRequest
  pub running : Bool
  pub subscriptions : List ℕ
  pub live : List Subscription
  pub fresh : ℕ
  pub sent : List JsonRpcRequest
  pub signals : List Signal

unfoldable pub new_producer : JsonRpcRequest → Producer
new_producer request = record {
  request = request;
  running = false;
  subscriptions = [];
  live = [];
  fresh = 0;
  sent = [];
  signals = [];
}

unfoldable pub without : ℕ → List Subscription → List Subscription
without n [] = []
without n (s ∷ live) = let rest = without n live in if s.number == n then rest else s ∷ rest

unfoldable pub without_all : List ℕ → List Subscription → List Subscription
unfolding without
without_all [] live = live
without_all (n ∷ numbers) live = without_all numbers (without n live)

unfoldable pub unsubscribe : ℕ → Producer → Producer
unfolding without
unsubscribe n p = record p { live = without n p.live }

unfoldable pub close_subscriptions : Producer → Producer
unfolding without_all
close_subscriptions p = record p { live = without_all p.subscriptions p.live; subscriptions = [] }

unfoldable pub emit : Signal → Producer → Producer
emit signal p = record p { signals = p.signals ++ signal ∷ [] }

unfoldable pub connect_to_client : Producer → Producer
connect_to_client p = record p {
  subscriptions = p.subscriptions ++ n ∷ suc n ∷ suc (suc n) ∷ [];
  live =
      p.live
      ++ record { number = n; role = by_id }
        ∷ record { number = suc n; role = by_event }
        ∷ record { number = suc (suc n); role = non_response }
        ∷ [];
  fresh = suc (suc (suc n));
}
  where
    n : ℕ
    n = p.fresh

-- `queueRequest` either keeps the request or throws.
abbrev pub queue_request :
    Result (Unit {0}) → JsonRpcRequest → Producer → Result (Unit {0}) × Producer
queue_request (ok u) request p = (ok u, record p { sent = p.sent ++ request ∷ [] })
queue_request (err e) request p = (err e, p)

abbrev pub already_started : Result (Unit {0})
already_started = fail "Already started. Please stop first before restarting."

-- `start`, by whether the producer is running.
unfoldable pub start_unless : Bool → Result (Unit {0}) → Producer → Result (Unit {0}) × Producer
unfolding connect_to_client
start_unless true queued p = (already_started, p)
start_unless false queued p =
    queue_request queued p.request (connect_to_client (record p { running = true }))

unfoldable pub start : Result (Unit {0}) → Producer → Result (Unit {0}) × Producer
unfolding start_unless
start queued p = start_unless p.running queued p

-- The `catch` block. `is_disconnection` tells an error whose message has "socket has disconnected".
abbrev pub ignoring : (Fault → Bool) → Result (Unit {0}) → Result (Unit {0})
ignoring is_disconnection (ok u) = ok u
ignoring is_disconnection (err e) = if is_disconnection e then ok tt else err e

unfoldable pub stop : (Fault → Bool) → Result (Unit {0}) → Producer → Result (Unit {0}) × Producer
stop is_disconnection queued p =
    let (r, q) =
      queue_request queued (record p.request { method = "unsubscribe" })
        (record p { running = false }) in
    (ignoring is_disconnection r, q)

-- What the socket's stream gives: a message, an error, or its end.
pub data SocketEvent : Type 0 where
  message : SocketMessage → SocketEvent
  failure : Fault → SocketEvent
  end : SocketEvent

abbrev pub is_live : Subscription → Producer → Bool
is_live s p = any (λ l. l.number == s.number) p.live

-- The listeners get an event in order; one that has unsubscribed meanwhile does not.
unfoldable pub dispatch :
    (Subscription → Producer → Producer) → List Subscription → Producer → Producer
dispatch handle [] p = p
dispatch handle (s ∷ listeners) p =
    dispatch handle listeners (if is_live s p then handle s p else p)

-- The calls of the stream that the producer feeds, and the events of the socket.
pub data Call : Type 0 where
  starts : Result (Unit {0}) → Call
  stops : Result (Unit {0}) → Call
  delivers : SocketEvent → Call

-- The handlers of the end and of an error, which only the third listener has.
unfoldable pub on_end : Signal → Subscription → Producer → Producer
unfolding emit close_subscriptions
on_end signal s p = elim s.role [ non_response ↦ emit signal (close_subscriptions p) | _ ↦ p ]

module _ (lib : RpcLib) where
  unfoldable pub on_answer : Subscription → JsonRpcResponse → Producer → Producer
  unfolding unsubscribe close_subscriptions emit
  on_answer s response p = elim s.role [
    | by_id ↦ elim response [
      | error id e ↦
          unsubscribe s.number (emit (error_text (lib.stringify e)) (close_subscriptions p))
      | success id result ↦ unsubscribe s.number p
    ]
    | by_event ↦ elim response [
      | error id e ↦ emit (error_text (lib.stringify e)) (close_subscriptions p)
      | success id result ↦ emit (next result) p
    ]
    | non_response ↦ p
  ]

  unfoldable pub on_response : JsonRpcResponse → Subscription → Producer → Producer
  unfolding on_answer answers
  on_response response s p = if answers p.request response then on_answer s response p else p

  -- A message that is no response becomes an error of the stream of responses.
  unfoldable pub handle_event : SocketEvent → Subscription → Producer → Producer
  unfolding on_response on_end to_json_rpc_response
  handle_event (message m) = elim (to_json_rpc_response lib m) [
    | ok response ↦ on_response response
    | err e ↦ on_end (error_fault e)
  ]
  handle_event (failure e) = on_end (error_fault e)
  handle_event end = on_end complete

  unfoldable pub deliver : SocketEvent → Producer → Producer
  unfolding dispatch handle_event
  deliver event p = dispatch (handle_event event) p.live p

  unfoldable pub step : (Fault → Bool) → Call → Producer → Producer
  unfolding start stop deliver
  step d (starts queued) p = (start queued p).1
  step d (stops queued) p = (stop d queued p).1
  step d (delivers event) p = deliver event p

  unfoldable pub run : (Fault → Bool) → List Call → Producer → Producer
  unfolding step
  run d [] p = p
  run d (call ∷ calls) p = run d calls (step d call p)
