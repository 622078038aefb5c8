-- ===== src/Dictionary.antt =====
-- The dictionary query of the fetch service: packages/node/src/indexer/fetch.service.ts.
pub mod Plan
pub mod Coverage
mod Tests
use subql_cosmos.Base.{
  String, Bool, true, false, not, ◌&&◌, Option, none, some, List, [], ◌∷◌, ◌++◌, map, any, ◌==◌,
  text_strict, if◌then◌else◌, Result, ok, err, fail, type_error, ◌>>=◌,
}
use Prim.Native.String.{◌++◌ as ◌<>◌}
use subql_cosmos.Value.{Value, undefined, str, obj, end}
use subql_cosmos.Filter.{OneOrMany, single, many}
use subql_cosmos.Project.{
  CosmosHandlerKind, block, transaction, message, event, MessageQuery, HandlerFilter, Handler,
  DataSource, is_present, is_custom_cosmos_ds, is_runtime_cosmos_ds, is_base_handler,
  is_custom_handler, parse_kind,
}

pub record Condition : Type 0 where
  pub field : String
  pub value : Value
  pub matcher : String

pub record QueryEntry : Type 0 where
  pub entity : String
  pub conditions : List Condition

-- A processor of one kind of handler; an absent field is `none`.
pub record HandlerProcessor : Type 0 where
  pub base_handler_kind : Option CosmosHandlerKind
  pub base_filter : Option (OneOrMany HandlerFilter)
  pub dictionary_query : Option (Option HandlerFilter → DataSource → Result (Option QueryEntry))

-- The object `handlerProcessors` of a processor.
abbrev pub Plugin : Type 0
Plugin = String → Option HandlerProcessor

-- `set_with` and `uniq_by` are lodash's, `condition_key` is `JSON.stringify` of the conditions
-- sorted by field, `get_ds_processor` is that of the node's core library.
pub record DictionaryLib : Type 0 where
  pub set_with : Value → String → Value → Value
  pub condition_key : List Condition → String
  pub uniq_by : (QueryEntry → String) → List QueryEntry → List QueryEntry
  pub get_ds_processor : DataSource → Result Plugin

-- A text field that may be absent.
abbrev pub text_or_undefined : Option String → Value
text_or_undefined none = undefined
text_or_undefined (some s) = str s

abbrev pub type_condition : Option String → Condition
type_condition type = record { field = "type"; value = text_or_undefined type; matcher = "equalTo" }

-- `{...f, field: 'msgType'}` for the field `type`.
unfoldable pub rename_type : Condition → Condition
rename_type c =
    if c.field == "type"
    then record { field = "msgType"; value = c.value; matcher = c.matcher }
    else c

-- The filters of a list that are there: `filter(Boolean)`.
unfoldable pub present : List (Option HandlerFilter) → List HandlerFilter
present [] = []
present (none ∷ fs) = present fs
present (some f ∷ fs) = f ∷ present fs

module _ (lib : DictionaryLib) where
  unfoldable pub nest : Value → List (String × Value) → Value
  nest nested [] = nested
  nest nested ((key, value) ∷ values) = nest (lib.set_with nested key value) values

  abbrev pub data_conditions : Option (List (String × Value)) → List Condition
  unfolding nest
  data_conditions none = []
  data_conditions (some values) =
      record { field = "data"; value = nest (obj end) values; matcher = "contains" } ∷ []

  unfoldable pub message_filter_to_query_entry : MessageQuery → QueryEntry
  message_filter_to_query_entry filter = record {
    entity = "messages";
    conditions = type_condition filter.type ∷ data_conditions filter.values;
  }

  abbrev pub message_conditions : Option MessageQuery → List Condition
  unfolding message_filter_to_query_entry rename_type
  message_conditions none = []
  message_conditions (some filter) =
      map rename_type (message_filter_to_query_entry filter).conditions

  unfoldable pub event_filter_to_query_entry : HandlerFilter → QueryEntry
  event_filter_to_query_entry filter = record {
    entity = "events";
    conditions = type_condition filter.type ∷ message_conditions filter.message_filter;
  }

  unfoldable pub get_base_handler_kind : DataSource → Handler → Result (Option CosmosHandlerKind)
  unfolding is_runtime_cosmos_ds is_base_handler is_custom_cosmos_ds is_custom_handler parse_kind
  get_base_handler_kind ds handler =
      if is_runtime_cosmos_ds ds && is_base_handler handler
      then ok (parse_kind handler.kind)
      else if is_custom_cosmos_ds ds && is_custom_handler handler
      then (lib.get_ds_processor ds >>= λ plugin.
          let missing : Result (Option CosmosHandlerKind) =
            fail ("handler type " <> handler.kind <> " not found in processor for " <> ds.kind) in
          elim (plugin handler.kind) [
            | none ↦ missing
            | some processor ↦ elim processor.base_handler_kind [
              | none ↦ missing
              | some kind ↦ ok (some kind)
            ]
          ])
      else ok none

  unfoldable pub get_base_handler_filters :
      DataSource → String → Result (List (Option HandlerFilter))
  unfolding is_custom_cosmos_ds
  get_base_handler_filters ds kind =
      if is_custom_cosmos_ds ds
      then (lib.get_ds_processor ds >>= λ plugin. elim (plugin kind) [
        | none ↦ err type_error
        | some processor ↦ elim processor.base_filter [
          | none ↦ ok (none ∷ [])
          | some (single filter) ↦ ok (some filter ∷ [])
          | some (many filters) ↦ ok (map some filters)
        ]
      ])
      else fail "Expected a custom datasource here"

  -- The entries of filters that each name a type; `none` where one does not: `return []`.
  unfoldable pub typed_entries :
      (HandlerFilter → QueryEntry) → List HandlerFilter → Option (List QueryEntry)
  typed_entries entry [] = some []
  typed_entries entry (filter ∷ filters) = elim filter.type [
    | none ↦ none
    | some type ↦ elim (typed_entries entry filters) [
      | none ↦ none
      | some entries ↦ some (entry filter ∷ entries)
    ]
  ]

  -- The `switch` on the base kind.
  unfoldable pub kind_entries :
      Option CosmosHandlerKind → List HandlerFilter → Option (List QueryEntry)
  unfolding typed_entries message_filter_to_query_entry event_filter_to_query_entry
  kind_entries (some block) filters =
      if any (λ f. not (is_present f.modulo)) filters then none else some []
  kind_entries (some message) filters =
      typed_entries (λ f. message_filter_to_query_entry f.message_query) filters
  kind_entries (some event) filters = typed_entries event_filter_to_query_entry filters
  kind_entries (some transaction) filters = some []
  kind_entries none filters = some []

  unfoldable pub filter_list_entries :
      Option CosmosHandlerKind → List (Option HandlerFilter) → Option (List QueryEntry)
  unfolding kind_entries present
  filter_list_entries kind filters = elim (present filters) [
    | [] ↦ none
    | f ∷ fs ↦ kind_entries kind (f ∷ fs)
  ]

  -- The entry of a processor's own query, where it gives one.
  unfoldable pub own_query : HandlerProcessor → Handler → DataSource → Result (Option QueryEntry)
  own_query processor handler ds = elim processor.dictionary_query [
    | none ↦ ok none
    | some query ↦ query handler.filter ds
  ]

  unfoldable pub custom_entries :
      Option Plugin
      → DataSource
      → Handler
      → Option CosmosHandlerKind
      → Result (Option (List QueryEntry))
  unfolding own_query get_base_handler_filters filter_list_entries
  custom_entries none ds handler kind = err type_error
  custom_entries (some plugin) ds handler kind = elim (plugin handler.kind) [
    | none ↦ err type_error
    | some processor ↦ own_query processor handler ds >>= λ query. elim query [
      | some entry ↦ ok (some (entry ∷ []))
      | none ↦ get_base_handler_filters ds handler.kind >>= λ filters.
          ok (filter_list_entries kind filters)
    ]
  ]

  unfoldable pub handler_entries :
      Option Plugin → DataSource → Handler → Result (Option (List QueryEntry))
  unfolding get_base_handler_kind is_custom_cosmos_ds custom_entries filter_list_entries
  handler_entries plugin ds handler = get_base_handler_kind ds handler >>= λ kind.
      if is_custom_cosmos_ds ds
      then custom_entries plugin ds handler kind
      else ok (filter_list_entries kind (handler.filter ∷ []))

  -- The loops over handlers and data sources, with the entries pushed so far; `none` is the
  -- early `return []`.
  unfoldable pub over_handlers :
      Option Plugin
      → DataSource
      → List Handler
      → List QueryEntry
      → Result (Option (List QueryEntry))
  unfolding handler_entries
  over_handlers plugin ds [] pushed = ok (some pushed)
  over_handlers plugin ds (handler ∷ handlers) pushed = handler_entries plugin ds handler >>= λ r.
      elim r [
        | none ↦ ok none
        | some entries ↦ over_handlers plugin ds handlers (pushed ++ entries)
      ]

  unfoldable pub plugin_of : DataSource → Result (Option Plugin)
  unfolding is_custom_cosmos_ds
  plugin_of ds =
      if is_custom_cosmos_ds ds
      then (lib.get_ds_processor ds >>= λ plugin. ok (some plugin))
      else ok none

  unfoldable pub over_sources :
      List DataSource → List QueryEntry → Result (Option (List QueryEntry))
  unfolding over_handlers plugin_of
  over_sources [] pushed = ok (some pushed)
  over_sources (ds ∷ sources) pushed = plugin_of ds >>= λ plugin.
      over_handlers plugin ds ds.handlers pushed >>= λ r. elim r [
        | none ↦ ok none
        | some entries ↦ over_sources sources entries
      ]

  unfoldable pub entry_key : QueryEntry → String
  entry_key item = item.entity <> "|" <> lib.condition_key item.conditions

  unfoldable pub build_dictionary_query_entries : List DataSource → Result (List QueryEntry)
  unfolding over_sources entry_key
  build_dictionary_query_entries sources = over_sources sources [] >>= λ r. elim r [
    | none ↦ ok []
    | some entries ↦ ok (lib.uniq_by entry_key entries)
  ]
