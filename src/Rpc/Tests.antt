-- ===== src/Rpc/Tests.antt =====
-- Requests, events and endpoints that are concrete.
use subql_cosmos.Base.{
  true, All, any, ◌==◌, nat_strict, ℕ, ◌≤◌, ◌≡◌, ◌≢◌, ◌↔◌, ◌⊎◌, ◌*◌, refl, String, Option, none,
  some, [], ◌∷◌, ◌++◌, length, Fault, Result, ok, err, fail, type_error, Bool, false, ◌==◌,
  text_strict, if◌then◌else◌, arith,
}
use Prim.Native.String.{◌++◌ as ◌<>◌}
use subql_cosmos.Value.{Value, str, obj, field, end as no_fields, get_property}
use subql_cosmos.Rpc.{
  RpcLib, JsonRpcRequest, JsonRpcResponse, success, error, SocketMessage, to_json_rpc_response,
  answers,
}
use subql_cosmos.Rpc.Http.{
  HttpClient, Headers, http_endpoint, text, new_http_client, text_before, drop_last, header_of,
  of_endpoint, api_key, slice_to, with_api_key, move_key,
}
use subql_cosmos.Rpc.Http.Laws.{new_http_client_fails_iff, new_http_client_moves_key}
use subql_cosmos.Rpc.Producer.{
  Producer, next, error_text, new_producer, run, starts, delivers, message,
}
use subql_cosmos.Rpc.Producer.Invariant.{sessions}
use subql_cosmos.Rpc.Producer.Preserved.{run-Inv, new_producer-Inv}
use subql_cosmos.Rpc.Producer.Refinement.{view, spec_run, new_run-spec_run}
use subql_cosmos.Rpc.Producer.Restart.{
  reconnects, reconnects-repeat, final_once, subscriptions_bounded,
}
use subql_cosmos.Rpc.Websocket.{Client, new_client, listen, execute}
use subql_cosmos.Rpc.Websocket.Listen.{Valid, new_client-Valid, listen_twice}
use subql_cosmos.Rpc.Websocket.Execute.{execute_settles}

abbrev responses : Value → Result JsonRpcResponse
responses (str s) =
    if s == "result"
    then ok (success (str "1") (str "event"))
    else if s == "refused"
    then ok (error (str "1") (str "no"))
    else if s == "other"
    then ok (success (str "2") (str "event"))
    else fail "Invalid response"
responses v = fail "Invalid response"

abbrev stringified : Value → String
stringified (str s) = s
stringified v = ""

abbrev lib : RpcLib
lib = record { parse_json = λ s. ok (str s); parse_response = responses; stringify = stringified }

abbrev subscribe_to : String → JsonRpcRequest
subscribe_to query = record {
  id = str "1";
  method = "subscribe";
  params = obj (field "query" (str query) no_fields);
}

abbrev request : JsonRpcRequest
request = subscribe_to "tm.event='NewBlock'"

abbrev a_message : String → SocketMessage
a_message body = record { type = "message"; body = body }

abbrev ignores_none : Fault → Bool
ignores_none e = false

abbrev no_event : Fault
no_event = type_error

abbrev connected : Producer
connected = run lib ignores_none (starts (ok tt) ∷ []) (new_producer request)

new_run-spec_run_example :
    view (
      run lib ignores_none
        (starts (ok tt) ∷ delivers (message (a_message "result")) ∷ [])
        (new_producer request))
    ≡ spec_run lib
        (starts (ok tt) ∷ delivers (message (a_message "result")) ∷ [])
        (view (new_producer request))
new_run-spec_run_example =
    new_run-spec_run lib ignores_none request
      (starts (ok tt) ∷ delivers (message (a_message "result")) ∷ [])

reconnects-repeat_example :
    (run lib ignores_none
      (starts (ok tt) ∷ reconnects 1 ++ delivers (message (a_message "result")) ∷ [])
      (new_producer request)).signals
    ≡ next (str "event") ∷ next (str "event") ∷ []
unfolding to_json_rpc_response answers
reconnects-repeat_example =
    reconnects-repeat lib ignores_none request 1 (message (a_message "result")) (str "event") refl

final_once_example :
    (run lib ignores_none
      (delivers (message (a_message "refused")) ∷ delivers (message (a_message "result")) ∷ [])
      connected).signals
    ≡ error_text "no" ∷ []
unfolding run new_producer to_json_rpc_response answers
final_once_example =
    final_once lib ignores_none connected (message (a_message "refused")) (error_text "no")
      (delivers (message (a_message "result")) ∷ [])
      (run-Inv lib ignores_none (starts (ok tt) ∷ []) (new_producer request)
        (new_producer-Inv request))
      (omega arith) refl (tt, tt)

subscriptions_bounded_example :
    (length connected.subscriptions ≡ 3 * sessions connected)
    × (length connected.live ≤ length connected.subscriptions)
    × All (λ s. any (λ n. n == s.number) connected.subscriptions ≡ true) connected.live
    × (sessions connected ≤ 1)
subscriptions_bounded_example = subscriptions_bounded lib ignores_none request (starts (ok tt) ∷ [])

execute_settles_example :
    execute lib no_event
      (ok tt)
      request
      (message (a_message "other") ∷ message (a_message "result") ∷ [])
    ≡ some (ok (success (str "1") (str "event")))
unfolding to_json_rpc_response answers
execute_settles_example =
    execute_settles lib no_event request (message (a_message "other") ∷ []) [] (a_message "result")
      (success (str "1") (str "event")) ((success (str "2") (str "event"), refl, refl), tt) refl
      refl

abbrev blocks : String
blocks = "tm.event='NewBlock'"

abbrev txs : String
txs = "tm.event='Tx'"

listen_twice_example :
    (i : ℕ) × (c : Client) × (j : ℕ) × (c' : Client) × (listen (subscribe_to blocks) new_client
      ≡ ok (i, c))
    × (listen (subscribe_to txs) c ≡ ok (j, c'))
    × ((i ≡ j) ↔ (blocks ≡ txs))
    × Valid c'
unfolding get_property
listen_twice_example =
    listen_twice (subscribe_to blocks) (subscribe_to txs) blocks txs new_client new_client-Valid
      (refl, refl) (refl, refl)

abbrev keyed : String → Result (Option String)
keyed url = ok (some "k")

new_http_client_fails_iff_example :
    (new_http_client keyed (text "node.io?apikey=k") ≡ err type_error)
    ↔ ((api_key (some "k") ≢ none) × ((of_endpoint (text "node.io?apikey=k")).headers ≡ none))
new_http_client_fails_iff_example =
    new_http_client_fails_iff keyed (text "node.io?apikey=k") (some "k") refl

text_fails : new_http_client keyed (text "node.io?apikey=k") ≡ err type_error
unfolding new_http_client of_endpoint with_api_key move_key
text_fails = refl

abbrev agent : Headers
agent = ("User-Agent", "SubQuery-Node") ∷ []

abbrev key : String
key = "k"

not_empty : key ≢ ""
not_empty e = cc e

abbrev agent_name : String
agent_name = "User-Agent"

not_the_key : agent_name ≢ "apikey"
not_the_key e = cc e

new_http_client_moves_key_example :
    (client : HttpClient) × (sent : Headers) × (new_http_client keyed
        (http_endpoint "http://node.io?apikey=k" (some agent))
      ≡ ok client)
    × (client.headers ≡ some sent)
    × (header_of "apikey" sent ≡ some "k")
    × (header_of "User-Agent" sent ≡ header_of "User-Agent" agent)
    × (((rest : String) × ("http://node.io?apikey=k" ≡ client.url <> ("?apikey" <> rest)))
        ⊎ ((text_before "?apikey" "http://node.io?apikey=k" ≡ none)
            × (client.url ≡ drop_last "http://node.io?apikey=k")))
new_http_client_moves_key_example =
    new_http_client_moves_key keyed "http://node.io?apikey=k" "k" agent "User-Agent" refl not_empty
      not_the_key

key_moved : slice_to "?apikey" "http://node.io?apikey=k" ≡ "http://node.io"
unfolding slice_to
key_moved = refl

-- The key stays where another parameter stands before it.
key_kept : slice_to "?apikey" "http://node.io?x=1&apikey=k" ≡ "http://node.io?x=1&apikey="
unfolding slice_to
key_kept = refl
