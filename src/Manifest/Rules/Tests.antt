-- ===== src/Manifest/Rules/Tests.antt =====
-- A validator and handlers that are concrete.
use subql_cosmos.Base.{
  String, ◌≡◌, refl, Bool, true, false, ◌&&◌, ◌||◌, not, some, List, any, ◌==◌, text_strict,
}
use subql_cosmos.Value.{
  Value, undefined, null, bool, num, str, obj, Fields, end, field, field_of, strict_eq,
}
use subql_cosmos.Project.{message, parse_kind}
use subql_cosmos.Manifest.Rules.{
  transaction_handler_valid, ValidatorLib, message_filter_valid, names_valid, block_handler_valid,
  message_handler_valid, class_valid, runtime_handler_valid,
}
use subql_cosmos.Manifest.Rules.Laws.{
  declared, without_filter, Documented, with_filter, filter_valid, class_valid-with_filter,
}

abbrev is_str : Value → Bool
is_str (str s) = true
is_str v = false

abbrev is_num : Value → Bool
is_num (num n) = true
is_num v = false

abbrev is_bool : Value → Bool
is_bool (bool b) = true
is_bool v = false

abbrev is_obj : Value → Bool
is_obj (obj o) = true
is_obj v = false

abbrev one_of : List String → Value → Bool
one_of texts (str s) = any (λ t. t == s) texts
one_of texts v = false

abbrev optional : (Value → Bool) → Value → Bool
optional f undefined = true
optional f null = true
optional f v = f v

abbrev nested : (Fields → Bool) → Value → Bool
nested f (obj o) = f o
nested f v = false

abbrev each : (Fields → Bool) → Fields → Bool
each f end = true
each f (field k v o) = let rest = each f o in nested f v && rest

abbrev nested_each : (Fields → Bool) → Value → Bool
nested_each f (obj o) = each f o
nested_each f v = false

abbrev lib : ValidatorLib
lib = record {
  is_int = is_num;
  is_string = is_str;
  is_boolean = is_bool;
  is_object = is_obj;
  is_array = is_obj;
  is_enum = one_of;
  optional = optional;
  validate_if = λ cond f v. not cond || f v;
  nested = nested;
  nested_each = nested_each;
  whitelisted = declared;
}

lib-Documented : Documented lib
lib-Documented = record {
  optional_undefined = λ f. refl;
  optional_obj = λ f o. refl;
  nested_obj = λ f o. refl;
  whitelisted_declared = λ names o. refl;
}

abbrev wrong : Fields
wrong = field "modulo" (str "ten") end

abbrev contract_call : Fields
contract_call =
    field "type" (str "/cosmwasm.wasm.v1.MsgExecuteContract") (field "contractCall" null end)

-- A block handler is valid with a modulo that is a text.
block_filter_unread :
    runtime_handler_valid lib (with_filter (str "cosmos/BlockHandler") (str "handle") (obj wrong))
    ≡ true
unfolding runtime_handler_valid class_valid block_handler_valid names_valid field_of parse_kind
block_filter_unread = refl

-- A message handler is not valid where its filter has no type.
message_filter_read :
    runtime_handler_valid lib (with_filter (str "cosmos/MessageHandler") (str "handle") (obj wrong))
    ≡ false
unfolding runtime_handler_valid class_valid message_handler_valid message_filter_valid names_valid
    field_of parse_kind strict_eq
message_filter_read = refl

-- A transaction handler is not valid with the filter that its type allows.
transaction_filter_refused :
    runtime_handler_valid lib (
      with_filter
        (str "cosmos/TransactionHandler")
        (str "handle")
        (obj (field "includeFailedTx" (bool true) end)))
    ≡ false
unfolding runtime_handler_valid class_valid transaction_handler_valid names_valid field_of
    parse_kind
transaction_filter_refused = refl

class_valid-with_filter_example :
    class_valid lib
      (some message)
      (with_filter (str "cosmos/MessageHandler") (str "handle") (obj contract_call))
    ≡ (class_valid lib (some message) (without_filter (str "cosmos/MessageHandler") (str "handle"))
        && filter_valid lib message contract_call)
class_valid-with_filter_example =
    class_valid-with_filter lib lib-Documented (str "cosmos/MessageHandler") (str "handle")
      contract_call message
