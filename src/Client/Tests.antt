-- ===== src/Client/Tests.antt =====
-- Errors, messages and chain types that are concrete.
use subql_cosmos.Base.{
  String, ◌≡◌, refl, ◌≢◌, some, List, [], ◌∷◌, All, JsError, Result, ok, err, fail, type_error,
  ◌==◌, text_strict, if◌then◌else◌,
}
use Prim.Native.String.{◌++◌ as ◌<>◌}
use subql_cosmos.Value.{Value, obj, str, end, field, Fields, field_of, get_property}
use subql_cosmos.Chain.{DecodeObject}
use subql_cosmos.Client.{
  ClientLib, handle_error, decode_msg, pruned_note, text_of, rpc_client, websocket,
}
use subql_cosmos.Client.Errors.{Pruned, handle_error_lem}
use subql_cosmos.Client.Decoding.{decode_msg_contract}
use subql_cosmos.Client.Types.{ChainType, get_chain_type, Registered, Named, get_chain_type_lem}

abbrev unavailable : String
unavailable = "height 5 is not available, lowest height is 9"

-- It reads one error, and one message.
abbrev parse : String → Result Value
parse s =
    if s == "{\"data\":1}"
    then ok (obj (field "data" (str unavailable) end))
    else if s == "{}"
    then ok (obj end)
    else fail "Unexpected token"

abbrev lib : ClientLib
lib = record {
  parse_json = parse;
  includes = λ v part. err type_error;
  template = λ v. "";
  decode = λ msg. ok (obj (field "sender" (str "juno1") (field "msg" (str "bytes") end)));
  decode_text = λ v. ok "{}";
}

abbrev limit : JsError
limit = record { name = "Error"; message = "Request failed with status code 429" }

abbrev pruned : JsError
pruned = record { name = "Error"; message = "{\"data\":1}" }

pruned_message : (handle_error lib pruned).message ≡ unavailable <> pruned_note
unfolding handle_error get_property
pruned_message = refl

no_json : (v : Value) → lib.parse_json limit.message ≢ ok v
no_json v h = cc h

handle_error_lem_example :
    ((d : Value)
      → Pruned lib pruned.message d
      → handle_error lib pruned
        ≡ record { name = pruned.name; message = text_of lib d <> pruned_note })
    × (((d : Value) → ¬ Pruned lib pruned.message d)
        → (handle_error lib pruned).message ≡ pruned.message)
handle_error_lem_example = handle_error_lem lib pruned

abbrev execute : DecodeObject
execute = record { type_url = "/cosmwasm.wasm.v1.MsgExecuteContract"; value = [] }

abbrev decoded : Fields
decoded = field "sender" (str "juno1") (field "msg" (str "bytes") end)

decode_msg_contract_example :
    (fields : Fields) × (decode_msg lib execute ≡ ok (obj fields))
    × (field_of fields "msg" ≡ obj end)
    × ((k : String) → k ≢ "msg" → field_of fields k ≡ field_of decoded k)
decode_msg_contract_example =
    decode_msg_contract lib execute decoded "{}" (obj end) refl refl refl refl

-- Each name is its own type.
abbrev look_up : String → Result String
look_up name = ok name

abbrev chain : ChainType
chain = record {
  user_package_name = "osmosis";
  package_name = some "osmosis.gamm.v1beta1";
  messages = "MsgSwap" ∷ [];
}

abbrev types : List (String × String)
types = ("/osmosis.gamm.v1beta1.MsgSwap", "osmosis.gamm.v1beta1.MsgSwap") ∷ []

types_found : get_chain_type look_up (some (chain ∷ [])) ≡ ok types
unfolding get_chain_type
types_found = refl

get_chain_type_lem_example : All (Registered look_up types) (chain ∷ []) × All (Named look_up) types
get_chain_type_lem_example = get_chain_type_lem look_up (chain ∷ []) types types_found

websocket_endpoint : rpc_client "wss://rpc.juno.example" ≡ websocket "wss://rpc.juno.example"
unfolding rpc_client
websocket_endpoint = refl
