-- ===== src/Manifest/Rules.antt =====
-- The rules that the classes of packages/common-cosmos/src/project/models.ts declare for
-- class-validator, on the own properties of an instance. The `groups` of a rule only matter to a
-- validation that names groups.
pub mod Laws
mod Tests
use subql_cosmos.Base.{
  String, Bool, true, false, ◌&&◌, Option, none, some, List, [], ◌∷◌, ◌++◌, map,
}
use subql_cosmos.Value.{Value, str, Fields, field_of, strict_eq}
use subql_cosmos.Project.{
  CosmosHandlerKind, block, transaction, message, event, kind_text, handler_kinds, parse_kind,
}

-- class-validator's decorators. `optional` and `validate_if` stand in front of a property's other
-- rules; `nested` validates an object, or each item of an array, and `nested_each` each value of a map.
-- `whitelisted` is what `validateObject` of @subql/common asks of every object that is validated: it
-- gets the properties that the object's class declares.
pub record ValidatorLib : Type 0 where
  pub is_int : Value → Bool
  pub is_string : Value → Bool
  pub is_boolean : Value → Bool
  pub is_object : Value → Bool
  pub is_array : Value → Bool
  pub is_enum : List String → Value → Bool
  pub optional : (Value → Bool) → Value → Bool
  pub validate_if : Bool → (Value → Bool) → Value → Bool
  pub nested : (Fields → Bool) → Value → Bool
  pub nested_each : (Fields → Bool) → Value → Bool
  pub whitelisted : List String → Fields → Bool

-- The rules of the class BlockFilter.
unfoldable pub block_filter_valid : ValidatorLib → Fields → Bool
unfolding field_of
block_filter_valid lib o =
    lib.whitelisted ("modulo" ∷ "timestamp" ∷ []) o
    && (lib.optional lib.is_int (field_of o "modulo")
        && lib.optional lib.is_string (field_of o "timestamp"))

-- The rule that a message filter has from TxFilter.
abbrev pub failed_valid : ValidatorLib → Value → Bool
failed_valid lib = lib.optional lib.is_boolean

unfoldable pub tx_filter_valid : ValidatorLib → Fields → Bool
unfolding field_of
tx_filter_valid lib o =
    lib.whitelisted ("includeFailedTx" ∷ []) o && failed_valid lib (field_of o "includeFailedTx")

abbrev pub contract_type : Value
contract_type = str "/cosmwasm.wasm.v1.MsgExecuteContract"

unfoldable pub message_filter_valid : ValidatorLib → Fields → Bool
unfolding field_of strict_eq
message_filter_valid lib o =
    lib.whitelisted ("includeFailedTx" ∷ "type" ∷ "values" ∷ "contractCall" ∷ []) o
    && (failed_valid lib (field_of o "includeFailedTx")
        && (lib.is_string (field_of o "type")
            && (lib.optional lib.is_object (field_of o "values")
                && lib.validate_if (strict_eq (field_of o "type") contract_type)
                    (lib.optional lib.is_string) (field_of o "contractCall"))))

-- `messageFilter` has a class and is optional, but has no rule of its own.
unfoldable pub event_filter_valid : ValidatorLib → Fields → Bool
unfolding field_of
event_filter_valid lib o =
    lib.whitelisted ("type" ∷ "messageFilter" ∷ "attributes" ∷ []) o
    && (lib.is_string (field_of o "type")
        && (lib.optional (λ v. true) (field_of o "messageFilter")
            && lib.optional lib.is_object (field_of o "attributes")))

-- `kind` and `handler`, which every handler has; the enumeration has the kinds of all handlers.
unfoldable pub names_valid : ValidatorLib → Fields → Bool
unfolding field_of
names_valid lib o =
    lib.is_enum (map kind_text handler_kinds) (field_of o "kind")
    && lib.is_string (field_of o "handler")

-- `filter` has a class and is optional, but has no rule of its own.
unfoldable pub block_handler_valid : ValidatorLib → Fields → Bool
unfolding names_valid field_of
block_handler_valid lib o =
    lib.whitelisted ("kind" ∷ "handler" ∷ "filter" ∷ []) o
    && (names_valid lib o && lib.optional (λ v. true) (field_of o "filter"))

unfoldable pub transaction_handler_valid : ValidatorLib → Fields → Bool
unfolding names_valid
transaction_handler_valid lib o = lib.whitelisted ("kind" ∷ "handler" ∷ []) o && (names_valid lib o)

unfoldable pub message_handler_valid : ValidatorLib → Fields → Bool
unfolding names_valid message_filter_valid field_of
message_handler_valid lib o =
    lib.whitelisted ("kind" ∷ "handler" ∷ "filter" ∷ []) o
    && (names_valid lib o
        && lib.optional (lib.nested (message_filter_valid lib)) (field_of o "filter"))

unfoldable pub event_handler_valid : ValidatorLib → Fields → Bool
unfolding names_valid event_filter_valid field_of
event_handler_valid lib o =
    lib.whitelisted ("filter" ∷ "kind" ∷ "handler" ∷ []) o
    && (lib.optional (lib.nested (event_filter_valid lib)) (field_of o "filter")
        && names_valid lib o)

unfoldable pub custom_handler_valid : ValidatorLib → Fields → Bool
unfolding field_of
custom_handler_valid lib o =
    lib.whitelisted ("kind" ∷ "handler" ∷ "filter" ∷ []) o
    && (lib.is_string (field_of o "kind")
        && (lib.is_string (field_of o "handler")
            && lib.optional lib.is_object (field_of o "filter")))

-- The rules of the class that the transformation of a runtime mapping gives a handler. It throws
-- on a kind that is none of the four.
unfoldable pub class_valid : ValidatorLib → Option CosmosHandlerKind → Fields → Bool
unfolding block_handler_valid transaction_handler_valid message_handler_valid event_handler_valid
class_valid lib none o = false
class_valid lib (some block) o = block_handler_valid lib o
class_valid lib (some transaction) o = transaction_handler_valid lib o
class_valid lib (some message) o = message_handler_valid lib o
class_valid lib (some event) o = event_handler_valid lib o

abbrev pub class_of : Value → Option CosmosHandlerKind
unfolding parse_kind
class_of (str kind) = parse_kind kind
class_of v = none

unfoldable pub runtime_handler_valid : ValidatorLib → Fields → Bool
unfolding class_valid field_of
runtime_handler_valid lib o = class_valid lib (class_of (field_of o "kind")) o

unfoldable pub runtime_mapping_valid : ValidatorLib → Fields → Bool
unfolding runtime_handler_valid field_of
runtime_mapping_valid lib o =
    lib.whitelisted ("handlers" ∷ "file" ∷ []) o
    && (lib.is_array (field_of o "handlers")
        && (lib.nested (runtime_handler_valid lib) (field_of o "handlers")
            && lib.is_string (field_of o "file")))

unfoldable pub custom_mapping_valid : ValidatorLib → Fields → Bool
unfolding custom_handler_valid field_of
custom_mapping_valid lib o =
    lib.whitelisted ("handlers" ∷ "file" ∷ []) o
    && (lib.is_array (field_of o "handlers")
        && (lib.nested (custom_handler_valid lib) (field_of o "handlers")
            && lib.is_string (field_of o "file")))

unfoldable pub processor_options_valid : ValidatorLib → Fields → Bool
unfolding field_of
processor_options_valid lib o =
    lib.whitelisted ("abi" ∷ []) o && (lib.optional lib.is_string (field_of o "abi"))

unfoldable pub file_reference_valid : ValidatorLib → Fields → Bool
unfolding field_of
file_reference_valid lib o = lib.whitelisted ("file" ∷ []) o && (lib.is_string (field_of o "file"))

unfoldable pub custom_module_valid : ValidatorLib → Fields → Bool
unfolding field_of
custom_module_valid lib o =
    lib.whitelisted ("file" ∷ "messages" ∷ []) o
    && (lib.is_string (field_of o "file") && lib.is_array (field_of o "messages"))

-- `base_names` and `base_valid` are the properties and the rules of BaseDataSource, which is not in the
-- repository.
unfoldable pub custom_data_source_valid :
    ValidatorLib → List String → (Fields → Bool) → Fields → Bool
unfolding custom_mapping_valid file_reference_valid field_of
custom_data_source_valid lib base_names base_valid o =
    lib.whitelisted (base_names ++ "kind" ∷ "mapping" ∷ "assets" ∷ "processor" ∷ []) o
    && (base_valid o
        && (lib.is_string (field_of o "kind")
            && (lib.nested (custom_mapping_valid lib) (field_of o "mapping")
                && (lib.nested_each (file_reference_valid lib) (field_of o "assets")
                    && lib.is_object (field_of o "processor")))))
