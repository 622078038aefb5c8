-- ===== src/Manifest/Rules/Laws.antt =====
-- What validating a handler looks at: the rules of
-- packages/common-cosmos/src/project/models.ts.
use subql_cosmos.Base.{
  String, List, any, ◌==◌, text_strict, ◌≡◌, refl, ap, sym, ◌∙◌, Bool, true, false, ◌&&◌, some,
}
use subql_cosmos.Value.{Value, undefined, obj, Fields, end, field, field_of}
use subql_cosmos.Project.{CosmosHandlerKind, block, transaction, message, event}
use subql_cosmos.Manifest.Rules.{
  ValidatorLib, message_filter_valid, event_filter_valid, names_valid, block_handler_valid,
  transaction_handler_valid, message_handler_valid, event_handler_valid, class_valid,
}

-- All properties of the object are among the names.
abbrev pub declared : List String → Fields → Bool
declared names end = true
declared names (field k v o) = any (λ name. name == k) names && declared names o

-- What class-validator documents of optional properties, of nested objects and of its options
-- `whitelist` and `forbidNonWhitelisted`.
pub record Documented (lib : ValidatorLib) : Type 0 where
  pub optional_undefined : (f : Value → Bool) → lib.optional f undefined ≡ true
  pub optional_obj : (f : Value → Bool) (o : Fields) → lib.optional f (obj o) ≡ f (obj o)
  pub nested_obj : (f : Fields → Bool) (o : Fields) → lib.nested f (obj o) ≡ f o
  pub whitelisted_declared :
      (names : List String) (o : Fields) → lib.whitelisted names o ≡ declared names o

abbrev pub without_filter : Value → Value → Fields
without_filter kind handler = field "kind" kind (field "handler" handler end)

abbrev pub with_filter : Value → Value → Value → Fields
with_filter kind handler filter =
    field "kind" kind (field "handler" handler (field "filter" filter end))

-- The filter that a handler of the kind may have: any object for a block, one that is valid by its
-- class for a message or an event, none for a transaction.
abbrev pub filter_valid : ValidatorLib → CosmosHandlerKind → Fields → Bool
unfolding message_filter_valid event_filter_valid
filter_valid lib block o = true
filter_valid lib transaction o = false
filter_valid lib message o = message_filter_valid lib o
filter_valid lib event o = event_filter_valid lib o

and_true : (a : Bool) → (a && true) ≡ a
and_true true = refl
and_true false = refl

and_comm : (a b : Bool) → (a && b) ≡ (b && a)
and_comm true b = sym (and_true b)
and_comm false true = refl
and_comm false false = refl

and_false : (a : Bool) → false ≡ (a && false)
and_false true = refl
and_false false = refl

module _ (lib : ValidatorLib) (documented : Documented lib) (kind handler : Value)
    (filter : Fields) where
  abbrev names : Bool
  names = names_valid lib (without_filter kind handler)

  -- The optional property, with the object and without it.
  given : (f : Value → Bool) → lib.optional f (obj filter) ≡ f (obj filter)
  given f = documented.optional_obj f filter

  nested_given : (f : Fields → Bool) → lib.optional (lib.nested f) (obj filter) ≡ f filter
  nested_given f = given (lib.nested f) ∙ documented.nested_obj f filter

  listed :
      (names : List String) (o : Fields) (rules : Bool)
      → (lib.whitelisted names o && rules) ≡ (declared names o && rules)
  listed names o rules = ap (λ b. b && rules) (documented.whitelisted_declared names o)

  -- Where validation does as documented, a handler with a filter is valid exactly where it is valid
  -- without it and the filter is one that a handler of the kind may have: any object for a block,
  -- one that is valid by its class for a message or an event, none for a transaction.
  pub class_valid-with_filter :
      (k : CosmosHandlerKind)
      → class_valid lib (some k) (with_filter kind handler (obj filter))
        ≡ (class_valid lib (some k) (without_filter kind handler) && filter_valid lib k filter)
  unfolding class_valid names_valid block_handler_valid transaction_handler_valid
      message_handler_valid event_handler_valid field_of
  class_valid-with_filter block =
      listed _ (with_filter kind handler (obj filter)) _
      ∙ ap (λ b. names && b) (given (λ v. true))
      ∙ sym (
          ap (λ b. b && true)
            (listed _ (without_filter kind handler) _
              ∙ ap (λ b. names && b) (documented.optional_undefined (λ v. true)))
          ∙ and_true (names && true))
  class_valid-with_filter transaction =
      listed _ (with_filter kind handler (obj filter)) _ ∙ and_false _
  class_valid-with_filter message =
      listed _ (with_filter kind handler (obj filter)) _
      ∙ ap (λ b. names && b) (nested_given (message_filter_valid lib))
      ∙ sym (
          ap (λ b. b && message_filter_valid lib filter)
            (listed _ (without_filter kind handler) _
              ∙ ap (λ b. names && b) (documented.optional_undefined _)
              ∙ and_true names))
  class_valid-with_filter event =
      listed _ (with_filter kind handler (obj filter)) _
      ∙ ap (λ b. b && names) (nested_given (event_filter_valid lib))
      ∙ and_comm (event_filter_valid lib filter) names
      ∙ sym (
          ap (λ b. b && event_filter_valid lib filter)
            (listed _ (without_filter kind handler) _
              ∙ ap (λ b. b && names) (documented.optional_undefined _)))
