-- ===== src/Filter.antt =====
-- The handler filters of packages/node/src/utils/cosmos.ts, with the filter types of
-- packages/types/src/project.ts.
pub mod Messages
pub mod Events
pub mod Select
pub mod SelectLaws
mod Tests
use subql_cosmos.Base.{
  ℕ, ◌%◌, String, Bool, true, false, not, ◌&&◌, ◌||◌, Option, none, some, List, [], ◌∷◌, ◌==◌,
  nat_strict, any, text_strict, if◌then◌else◌, Result, ok, ◌>>=◌, and_also,
}
use subql_cosmos.Base.Number.{Number, int, pos}
use subql_cosmos.Value.{Value, num, str, long, ValueLib, get_property, has_property, strict_eq}
use subql_cosmos.Value.Property.{split_dots, get_path}
use subql_cosmos.Chain.{CosmosBlock, CosmosTransaction, CosmosMessage, CosmosEvent, Attribute}

-- An absent field is `none`.
pub record BlockFilter : Type 0 where
  pub modulo : Option ℕ
  pub timestamp : Option String

pub record TxFilter : Type 0 where
  pub include_failed_tx : Option Bool

-- `values` lists the entries of the object in the order of `for … in`.
pub record MessageFilter : Type 0 where
  pub tx_filter : TxFilter
  pub open tx_filter use *
  pub type : String
  pub contract_call : Option String
  pub values : Option (List (String × Value))

pub record EventFilter : Type 0 where
  pub type : String
  pub message_filter : Option MessageFilter
  pub attributes : Option (List (String × Value))

-- A filter or an array of filters.
pub data OneOrMany {ℓ} (A : Type ℓ) : Type ℓ where
  single : A → OneOrMany A
  many : List A → OneOrMany A

-- `filter.modulo && height % filter.modulo !== 0`
abbrev off_modulo : Option ℕ → ℕ → Bool
off_modulo none height = false
off_modulo (some modulo) height = not (modulo == 0) && not (height % modulo == 0)

unfoldable pub filter_block : CosmosBlock → Option BlockFilter → Bool
filter_block block none = true
filter_block block (some filter) =
    if off_modulo filter.modulo block.block.header.height then false else true

abbrev truthy : Option Bool → Bool
truthy none = false
truthy (some b) = b

abbrev pub includes_failed : Option TxFilter → Bool
includes_failed none = false
includes_failed (some filter) = truthy filter.include_failed_tx

unfoldable pub filter_tx : CosmosTransaction → Option TxFilter → Bool
filter_tx tx filter =
    if not (includes_failed filter) && not (tx.tx.code == 0)
    then false
    else if includes_failed filter
    then true
    else true

abbrev pub execute_contract : String
execute_contract = "/cosmwasm.wasm.v1.MsgExecuteContract"

-- An absent object has no entries.
abbrev pub entries_of : Option (List (String × Value)) → List (String × Value)
entries_of none = []
entries_of (some entries) = entries

-- The loop over `filter.attributes`: each entry is found among the event's attributes.
unfoldable pub filter_attributes : List Attribute → List (String × Value) → Bool
filter_attributes attributes [] = true
filter_attributes attributes ((key, wanted) ∷ entries) =
    if any (λ a. a.key == key && strict_eq (str a.value) wanted) attributes
    then filter_attributes attributes entries
    else false

module _ (lib : ValueLib) where
  -- A `Long` is compared as a number where the filter gives a number, else as a text.
  unfoldable pub comparable : Value → Value → Value
  comparable (num n) (long l) = num (lib.to_number l)
  comparable wanted (long l) = str (lib.to_string l)
  comparable wanted found = found

  -- The loop over `filter.values`: true where no entry returned false.
  unfoldable pub filter_values : Result Value → List (String × Value) → Result Bool
  unfolding comparable
  filter_values decoded [] = ok true
  filter_values decoded ((key, wanted) ∷ entries) = do
    v ← decoded
    found ← get_path v (split_dots key)
    if strict_eq wanted (comparable wanted found) then filter_values decoded entries else ok false

  -- `contractCall === msg || (isObjectLike(msg) && contractCall in msg)`
  unfoldable pub calls : String → Value → Result Bool
  calls call msg =
      if strict_eq (str call) msg
      then ok true
      else if lib.is_object_like msg
      then has_property msg call
      else ok false

  -- The condition on `contractCall`: true where the filter does not return false by it.
  unfoldable pub filter_contract_call : Result Value → String → Option String → Result Bool
  unfolding calls
  filter_contract_call decoded type none = ok true
  filter_contract_call decoded type (some call) =
      if type == execute_contract && not (call == "")
      then (do v ← decoded; msg ← get_property v "msg"; calls call msg)
      else ok true

  unfoldable pub filter_message_data : CosmosMessage → Option MessageFilter → Result Bool
  unfolding filter_tx filter_values filter_contract_call
  filter_message_data message none = ok true
  filter_message_data message (some filter) =
      if not (filter_tx message.tx (some filter.tx_filter))
      then ok false
      else if not (filter.type == message.msg.type_url)
      then ok false
      else and_also (filter_values message.msg.decoded_msg (entries_of filter.values))
          (filter_contract_call message.msg.decoded_msg filter.type filter.contract_call)

  -- `event.msg` and the message filter, where the filter has one.
  unfoldable pub filter_event_message : Option CosmosMessage → Option MessageFilter → Result Bool
  unfolding filter_message_data
  filter_event_message msg none = ok true
  filter_event_message none (some filter) = ok false
  filter_event_message (some msg) (some filter) = filter_message_data msg (some filter)

  unfoldable pub filter_event : CosmosEvent → Option EventFilter → Result Bool
  unfolding filter_event_message filter_attributes
  filter_event event none = ok true
  filter_event event (some filter) =
      if not (filter.type == event.event.type)
      then ok false
      else and_also (filter_event_message event.msg filter.message_filter)
          (ok (filter_attributes event.event.attributes (entries_of filter.attributes)))
