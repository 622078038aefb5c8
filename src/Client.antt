-- ===== src/Client.antt =====
-- The chain client and its connection: packages/node/src/indexer/api.service.ts and
-- packages/node/src/indexer/cosmosClient.connection.ts.
pub mod Errors
pub mod Decoding
pub mod Types
pub mod Connection
pub mod Registry
pub mod Safe
mod Tests
pub mod Init
mod SetupTests
use subql_cosmos.Base.{
  String, Bool, true, false, ◌||◌, ◌&&◌, not, Option, none, some, List, [], ◌∷◌, any, ◌==◌,
  text_strict, if◌then◌else◌, JsError, Result, ok, err, ◌>>=◌,
}
use Prim.Native.String.{◌++◌ as ◌<>◌}
use text.Mathlib.Text.{starts_with, find?}
use subql_cosmos.Base.Number.{Number, nan, int, pos, number_eq}
use subql_cosmos.Value.{
  Value, undefined, null, bool, num, str, long, obj, Fields, end, field, get_property,
}
use subql_cosmos.Chain.{DecodeObject}
use subql_cosmos.Project.{is_present}

-- `parse_json` is `JSON.parse`; `includes` and `template` are the method of that name and the text
-- in a template literal of a value that is no text;
-- `decode` the registry's, `decode_text` is `new TextDecoder().decode`.
pub record ClientLib : Type 0 where
  pub parse_json : String → Result Value
  pub includes : Value → String → Result Bool
  pub template : Value → String
  pub decode : DecodeObject → Result Value
  pub decode_text : Value → Result String

abbrev pub truthy : Value → Bool
truthy undefined = false
truthy null = false
truthy (bool b) = b
truthy (num n) = number_is_truthy n
  where
    number_is_truthy : Number → Bool
    number_is_truthy nan = false
    number_is_truthy n = not (number_eq n (int (pos 0)))
truthy (str s) = not (s == "")
truthy (long l) = true
truthy (obj fields) = true

abbrev pub not_available : String
not_available = "is not available, lowest height is"

abbrev pub pruned_note : String
pruned_note =
    "\nINFO: This most likely means the provided endpoint is a pruned node. An archive/full node is needed to access historical data"

-- `decodedMsg.msg = value` on an object: the property is replaced, or added at the end.
unfoldable pub set_field : Fields → String → Value → Fields
set_field end key value = field key value end
set_field (field k v fields) key value =
    let rest = set_field fields key value in
    if k == key then field k value fields else field k v rest

abbrev pub set_property : Value → String → Value → Value
set_property (obj fields) key value = obj (set_field fields key value)
set_property v key value = v

abbrev pub json_types : List String
json_types =
    "/cosmwasm.wasm.v1.MsgExecuteContract" ∷ "/cosmwasm.wasm.v1.MsgMigrateContract"
    ∷ "/cosmwasm.wasm.v1.MsgInstantiateContract" ∷ []

module _ (lib : ClientLib) where
  unfoldable pub data_includes : Value → String → Result Bool
  data_includes (str s) part = ok (is_present (find? s part))
  data_includes v part = lib.includes v part

  -- The `try` block: the data of a message about a height that is not available.
  unfoldable pub pruned_data : String → Result (Option Value)
  unfolding data_includes
  pruned_data message = lib.parse_json message >>= λ parsed.
      get_property parsed "data" >>= λ found_data.
      if truthy found_data
      then (data_includes found_data not_available >>= λ found.
          ok (if found then some found_data else none))
      else ok none

  -- A value in a template literal.
  abbrev pub text_of : Value → String
  text_of (str s) = s
  text_of v = lib.template v

  -- The error after the `try` block, by what it gave or threw.
  unfoldable pub formatted : JsError → Result (Option Value) → JsError
  formatted e (ok (some found)) = record { name = e.name; message = text_of found <> pruned_note }
  formatted e (ok none) = e
  formatted e (err fault) =
      if e.message == "Request failed with status code 429"
      then record { name = "RateLimitError"; message = e.message }
      else if e.message == "Request failed with status code 403"
      then record { name = "Forbidden"; message = e.message }
      else e

  -- `CosmosClient.handleError`
  unfoldable pub handle_error : JsError → JsError
  unfolding pruned_data formatted
  handle_error e = formatted e (pruned_data e.message)

  unfoldable pub decode_msg : DecodeObject → Result Value
  unfolding set_field
  decode_msg msg = lib.decode msg >>= λ decoded.
      if any (λ type. type == msg.type_url) json_types
      then (get_property decoded "msg" >>= λ bytes. lib.decode_text bytes >>= λ decoded_text.
          lib.parse_json decoded_text >>= λ json. ok (set_property decoded "msg" json))
      else ok decoded

pub data ApiErrorType : Type 0 where
  timeout connection rate_limit default : ApiErrorType

pub record ApiConnectionError : Type 0 where
  pub name : String
  pub message : String
  pub error_type : ApiErrorType

unfoldable pub handle_rate_limit_error : JsError → ApiConnectionError
handle_rate_limit_error e = record {
  name = "RateLimit";
  message = e.message;
  error_type = rate_limit;
}

unfoldable pub handle_timeout_error : JsError → ApiConnectionError
handle_timeout_error e = record { name = "TimeoutError"; message = e.message; error_type = timeout }

unfoldable pub handle_disconnection_error : JsError → ApiConnectionError
handle_disconnection_error e = record {
  name = "ConnectionError";
  message = e.message;
  error_type = connection;
}

abbrev pub oversized_note : String
oversized_note =
    "Oversized RPC node response. This issue is related to the network's RPC nodes configuration, not your application. You may report it to the network's maintainers or try a different RPC node.\n\n"

unfoldable pub handle_large_response_error : JsError → ApiConnectionError
handle_large_response_error e = record {
  name = "RpcInternalError";
  message = oversized_note <> e.message;
  error_type = default;
}

abbrev pub timed_out : String → Bool
timed_out m = starts_with m "No response received from RPC endpoint in"

abbrev pub disconnected : String → Bool
disconnected m = starts_with m "disconnected from "

abbrev pub limited : String → Bool
limited m = starts_with m "Request failed with status code 429"

abbrev pub oversized : String → Bool
oversized m = is_present (find? m "Exceeded max limit of")

-- `CosmosClientConnection.handleError`
unfoldable pub connection_error : JsError → ApiConnectionError
unfolding handle_timeout_error handle_disconnection_error handle_rate_limit_error
    handle_large_response_error
connection_error e =
    if timed_out e.message
    then handle_timeout_error e
    else if disconnected e.message
    then handle_disconnection_error e
    else if limited e.message
    then handle_rate_limit_error e
    else if oversized e.message
    then handle_large_response_error e
    else record { name = e.name; message = e.message; error_type = default }

pub data RpcClient : Type 0 where
  websocket : String → RpcClient
  http : String → RpcClient

-- The client that a connection's endpoint asks for.
unfoldable pub rpc_client : String → RpcClient
rpc_client endpoint =
    if is_present (find? endpoint "ws://") || is_present (find? endpoint "wss://")
    then websocket endpoint
    else http endpoint
