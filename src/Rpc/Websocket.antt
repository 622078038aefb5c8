-- ===== src/Rpc/Websocket.antt =====
-- `WebsocketClient` of packages/node/src/indexer/rpc-clients/WebsocketClient.ts.
pub mod Execute
pub mod Listen
use subql_cosmos.Base.{
  ℕ, suc, zero, String, Bool, true, false, not, Option, none, some, List, [], ◌∷◌, ◌++◌, ◌==◌,
  text_strict, if◌then◌else◌, length, get_elem?, Fault, Result, ok, err, fail, ◌>>=◌,
}
use subql_cosmos.Value.{Value, undefined, str, get_property}
use subql_cosmos.Rpc.{
  RpcLib, JsonRpcRequest, JsonRpcResponse, response_id, answers, result_of, SocketMessage,
  to_json_rpc_response,
}
use subql_cosmos.Rpc.Http.{has_protocol}
use subql_cosmos.Rpc.Producer.{Producer, new_producer, SocketEvent, message, failure, end}

-- The text of the URL that the socket connects to. `to_string` is `new URL(text).toString()`, which
-- throws where the text is no URL, and `with_ws` the text after its protocol was set to `ws`.
unfoldable pub socket_url : (String → Result String) → (String → String) → String → Result String
unfolding has_protocol
socket_url to_string with_ws base_url =
    to_string base_url >>= λ url. ok (if has_protocol base_url then url else with_ws base_url)

-- The stream of a query is the place of its producer among those that the client made.
pub record Client : Type 0 where
  pub streams : List (String × ℕ)
  pub producers : List Producer

abbrev pub new_client : Client
new_client = record { streams = []; producers = [] }

-- `subscriptionStreams.get(query)`
unfoldable pub stream_of : List (String × ℕ) → String → Option ℕ
stream_of [] query = none
stream_of ((q, stream) ∷ streams) query =
    let rest = stream_of streams query in if q == query then some stream else rest

-- The stream of a query that was found, or a new one with its producer.
abbrev pub found_or_new : JsonRpcRequest → String → Client → Option ℕ → ℕ × Client
found_or_new request query client (some stream) = (stream, client)
found_or_new request query client none = (
  length client.producers,
  record {
    streams = (query, length client.producers) ∷ client.streams;
    producers = client.producers ++ new_producer request ∷ [];
  },
)

unfoldable pub query_stream : JsonRpcRequest → String → Client → ℕ × Client
unfolding stream_of
query_stream request query client =
    found_or_new request query client (stream_of client.streams query)

abbrev pub query_text : Value → Result String
query_text (str query) = ok query
query_text _ = fail "request.params.query must be a string"

abbrev pub no_subscription : String
no_subscription = "Request method must be \"subscribe\" to start event listening"

-- `listen`, which gives the place of the producer of the query. The stream that the code makes of it
-- is a new one for each call, filtered by `is_delivered`.
unfoldable pub listen : JsonRpcRequest → Client → Result (ℕ × Client)
unfolding query_stream
listen request client =
    if request.method == "subscribe"
    then (get_property request.params "query" >>= λ found.
        query_text found >>= λ query. ok (query_stream request query client))
    else fail no_subscription

abbrev is_undefined : Value → Bool
is_undefined undefined = true
is_undefined v = false

-- The filter of the stream that `listen` gives: `response.query !== undefined`.
unfoldable pub is_delivered : Value → Result Bool
is_delivered response = get_property response "query" >>= λ query. ok (not (is_undefined query))

-- What a message does to the promise of the response; `rest` is what the later events do.
abbrev pub settled_by :
    JsonRpcRequest
    → Result JsonRpcResponse
    → Option (Result JsonRpcResponse)
    → Option (Result JsonRpcResponse)
settled_by request (err e) rest = some (err e)
settled_by request (ok response) rest =
    if answers request response then some (ok response) else rest

abbrev pub executed : RpcLib → Option (Result JsonRpcResponse) → Option (Result JsonRpcResponse)
executed lib none = none
executed lib (some settled) = some (settled >>= λ response. result_of lib response)

module _ (lib : RpcLib) where
  -- How the promise of the first response with the request's id settles, by the events that come
  -- after the request; none where it is still pending. `no_event` is the error that `firstEvent`
  -- gives where the stream ends.
  unfoldable pub response_for_request_id :
      Fault → JsonRpcRequest → List SocketEvent → Option (Result JsonRpcResponse)
  response_for_request_id no_event request [] = none
  response_for_request_id no_event request (end ∷ events) = some (err no_event)
  response_for_request_id no_event request (failure e ∷ events) = some (err e)
  response_for_request_id no_event request (message m ∷ events) =
      let rest = response_for_request_id no_event request events in
      settled_by request (to_json_rpc_response lib m) rest

  -- `execute`, by what `queueRequest` does and the events that follow.
  unfoldable pub execute :
      Fault
      → Result (Unit {0})
      → JsonRpcRequest
      → List SocketEvent
      → Option (Result JsonRpcResponse)
  unfolding response_for_request_id
  execute no_event queued request events = elim queued [
    | err e ↦ some (err e)
    | ok sent ↦ executed lib (response_for_request_id no_event request events)
  ]
