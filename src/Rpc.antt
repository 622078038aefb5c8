-- ===== src/Rpc.antt =====
-- JSON-RPC as the clients of packages/node/src/indexer/rpc-clients use it: requests, responses, and
-- the functions of the packages `@cosmjs/json-rpc` and `@cosmjs/socket` that they call.
pub mod Http
pub mod Producer
pub mod Websocket
mod Tests
use subql_cosmos.Base.{
  String, Bool, true, false, ◌==◌, text_strict, if◌then◌else◌, Result, ok, fail, ◌>>=◌,
}
use Prim.Native.String.{◌++◌ as ◌<>◌}
use subql_cosmos.Value.{Value, strict_eq}

pub record JsonRpcRequest : Type 0 where
  pub id : Value
  pub method : String
  pub params : Value

pub data JsonRpcResponse : Type 0 where
  success : Value → Value → JsonRpcResponse
  error : Value → Value → JsonRpcResponse

abbrev pub response_id : JsonRpcResponse → Value
response_id (success id result) = id
response_id (error id e) = id

-- `response.id === request.id`
unfoldable pub answers : JsonRpcRequest → JsonRpcResponse → Bool
unfolding strict_eq
answers request response = strict_eq (response_id response) request.id

-- `parse_json` is `JSON.parse`, `parse_response` is `parseJsonRpcResponse`, `stringify` is
-- `JSON.stringify`.
pub record RpcLib : Type 0 where
  pub parse_json : String → Result Value
  pub parse_response : Value → Result JsonRpcResponse
  pub stringify : Value → String

module _ (lib : RpcLib) where
  -- What both clients do with the response to a request.
  abbrev pub result_of : JsonRpcResponse → Result JsonRpcResponse
  result_of (error id e) = fail (lib.stringify e)
  result_of (success id result) = ok (success id result)

-- A message of the socket.
pub record SocketMessage : Type 0 where
  pub type : String
  pub body : String

unfoldable pub to_json_rpc_response : RpcLib → SocketMessage → Result JsonRpcResponse
to_json_rpc_response lib message =
    if message.type == "message"
    then (lib.parse_json message.body >>= λ json. lib.parse_response json)
    else fail ("Unexcepted message type on websocket: " <> message.type)
