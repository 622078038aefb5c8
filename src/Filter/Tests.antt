-- ===== src/Filter/Tests.antt =====
-- The filters at concrete inputs, some of them from packages/node/src/utils/cosmos.spec.ts.
use subql_cosmos.Base.{ℕ, ◌≡◌, refl, ◌↔◌, Bool, true, false, Option, none, some, List, [], ◌∷◌, ok}
use subql_cosmos.Base.Number.{int, pos}
use subql_cosmos.Value.{
  Value, str, num, obj, long, field, end, ValueLib, get_property, has_property, strict_eq,
}
use subql_cosmos.Value.Property.{split_dots, get_path}
use subql_cosmos.Chain.{CosmosBlock, CosmosTransaction, CosmosMessage, CosmosEvent, Header}
use subql_cosmos.Filter.{
  MessageFilter, EventFilter, OneOrMany, single, many, filter_block, filter_message_data,
  filter_event, execute_contract,
}
use subql_cosmos.Filter.Messages.{Matches, filter_message_data_iff}
use subql_cosmos.Filter.Events.{EventMatches, filter_event_iff}
use subql_cosmos.Filter.Select.{filter_messages, filter_events}
use subql_cosmos.Filter.SelectLaws.{Selection, Accepts, filter_messages-Selection}

abbrev object_like : Value → Bool
object_like (obj fields) = true
object_like (long l) = true
object_like _ = false

-- The two packages, by the low half of a `Long` alone.
abbrev sample_lib : ValueLib
sample_lib = record {
  to_number = λ l. int l.low;
  to_string = λ l. "1";
  is_object_like = object_like;
}

abbrev sample_header : Header
sample_header = record { height = 3266772; chain_id = "juno-1"; last_block_id = none }

abbrev sample_block : CosmosBlock
sample_block = record {
  block_id = record { hash = [] };
  block = record { id = "AB"; header = sample_header; txs = [] };
  header = sample_header;
  txs = [];
}

abbrev sample_tx : ℕ → CosmosTransaction
sample_tx code = record {
  idx = 0;
  block = sample_block;
  hash = "F0";
  tx = record { code = code; log = none };
  decoded_tx = ok (record { messages = [] });
}

abbrev swap_msg : Value
swap_msg = obj (
    field "msg" (obj (field "swap" (obj (field "input_token" (str "Token2") end)) end))
      (field "amount" (long (record { low = pos 7; high = pos 0; unsigned = false })) end))

abbrev sample_message : ℕ → CosmosMessage
sample_message code = record {
  idx = 0;
  block = sample_block;
  tx = sample_tx code;
  msg = record { type_url = execute_contract; decoded_msg = ok swap_msg };
}

abbrev swap_filter : MessageFilter
swap_filter = record {
  tx_filter = record { include_failed_tx = none };
  type = execute_contract;
  contract_call = some "swap";
  values = some (("msg.swap.input_token", str "Token2") ∷ ("amount", num (int (pos 7))) ∷ []);
}

abbrev sample_event : CosmosEvent
sample_event = record {
  idx = 0;
  block = sample_block;
  tx = some (sample_tx 0);
  msg = some (sample_message 0);
  log = none;
  event = record { type = "wasm"; attributes = record { key = "action"; value = "7" } ∷ [] };
}

abbrev wasm_filter : Value → EventFilter
wasm_filter wanted = record {
  type = "wasm";
  message_filter = some swap_filter;
  attributes = some (("action", wanted) ∷ []);
}

swap_accepted :
    (filter_message_data sample_lib (sample_message 0) (some swap_filter) ≡ ok true)
    × (filter_message_data sample_lib (sample_message 5) (some swap_filter) ≡ ok false)
unfolding filter_message_data get_path get_property has_property strict_eq split_dots
swap_accepted = (refl, refl)

event_accepted : filter_event sample_lib sample_event (some (wasm_filter (str "7"))) ≡ ok true
unfolding filter_event get_path get_property has_property strict_eq split_dots
event_accepted = refl

modulo_tests :
    (filter_block sample_block (some (record { modulo = some 2; timestamp = none })) ≡ true)
    × (filter_block sample_block (some (record { modulo = some 5; timestamp = none })) ≡ false)
unfolding filter_block
modulo_tests = (refl, refl)

filter_message_data_iff_example :
    (filter_message_data sample_lib (sample_message 0) (some swap_filter) ≡ ok true)
    ↔ Matches sample_lib (sample_message 0) swap_filter
filter_message_data_iff_example = filter_message_data_iff sample_lib (sample_message 0) swap_filter

filter_event_iff_example :
    (filter_event sample_lib sample_event (some (wasm_filter (str "7"))) ≡ ok true)
    ↔ EventMatches sample_lib sample_event (wasm_filter (str "7"))
filter_event_iff_example = filter_event_iff sample_lib sample_event (wasm_filter (str "7"))

abbrev two_messages : List CosmosMessage
two_messages = sample_message 5 ∷ sample_message 0 ∷ []

abbrev swap_filters : Option (OneOrMany MessageFilter)
swap_filters = some (many (swap_filter ∷ []))

one_kept : filter_messages sample_lib (some two_messages) swap_filters ≡ ok (sample_message 0 ∷ [])
unfolding filter_messages filter_message_data get_path get_property has_property strict_eq
    split_dots
one_kept = refl

filter_messages-Selection_example :
    Selection
      (λ m. Accepts (Matches sample_lib m) swap_filters)
      two_messages
      (sample_message 0 ∷ [])
filter_messages-Selection_example =
    filter_messages-Selection sample_lib two_messages (sample_message 0 ∷ []) swap_filters one_kept

abbrev wasm_filters : Option (OneOrMany EventFilter)
wasm_filters = some (single (wasm_filter (str "7")))

event_kept : filter_events sample_lib (sample_event ∷ []) wasm_filters ≡ ok (sample_event ∷ [])
unfolding filter_events filter_event get_path get_property has_property strict_eq split_dots
event_kept = refl
