-- ===== src/Project.antt =====
-- Data sources, handlers and handler processors: packages/types/src/project.ts, with the tests of
-- packages/common-cosmos/src/project/utils.ts, packages/node/src/utils/project.ts and
-- packages/node/src/indexer/ds-processor.service.ts.
pub mod Kinds
mod Tests
use subql_cosmos.Base.{
  ℕ, String, ◌≡◌, Bool, true, false, not, ◌&&◌, ◌||◌, Option, none, some, List, [], ◌∷◌, any, ◌==◌,
  text_strict, if◌then◌else◌, Result, ok, fail,
}
use subql_cosmos.Value.{Value}

pub data CosmosHandlerKind : Type 0 where
  block transaction message event : CosmosHandlerKind

abbrev pub kind_text : CosmosHandlerKind → String
kind_text block = "cosmos/BlockHandler"
kind_text transaction = "cosmos/TransactionHandler"
kind_text message = "cosmos/MessageHandler"
kind_text event = "cosmos/EventHandler"

abbrev pub kind_eq : CosmosHandlerKind → CosmosHandlerKind → Bool
kind_eq block block = true
kind_eq transaction transaction = true
kind_eq message message = true
kind_eq event event = true
kind_eq _ _ = false

-- A handler's filter as the untyped object of the manifest: each field may be absent.
pub record MessageQuery : Type 0 where
  pub type : Option String
  pub values : Option (List (String × Value))

pub record HandlerFilter : Type 0 where
  pub message_query : MessageQuery
  pub open message_query use *
  pub modulo : Option ℕ
  pub message_filter : Option MessageQuery

pub record Handler : Type 0 where
  pub kind : String
  pub handler : String
  pub filter : Option HandlerFilter

-- `processor` is the file of a custom data source's processor.
pub record DataSource : Type 0 where
  pub kind : String
  pub processor : Option String
  pub handlers : List Handler

abbrev pub runtime_kind : String
runtime_kind = "cosmos/Runtime"

abbrev pub is_present {ℓ} : {A : Type ℓ} → Option A → Bool
is_present none = false
is_present (some a) = true

unfoldable pub is_custom_cosmos_ds : DataSource → Bool
is_custom_cosmos_ds ds = not (ds.kind == runtime_kind) && is_present ds.processor

unfoldable pub is_runtime_cosmos_ds : DataSource → Bool
is_runtime_cosmos_ds ds = ds.kind == runtime_kind

-- `Object.values(CosmosHandlerKind)`
abbrev pub handler_kinds : List CosmosHandlerKind
handler_kinds = block ∷ transaction ∷ message ∷ event ∷ []

unfoldable pub is_base_handler : Handler → Bool
is_base_handler h = any (λ k. kind_text k == h.kind) handler_kinds

unfoldable pub is_custom_handler : Handler → Bool
unfolding is_base_handler
is_custom_handler h = not (is_base_handler h)

-- The kind that a handler's `kind` spells.
unfoldable pub parse_kind : String → Option CosmosHandlerKind
parse_kind s =
    if s == "cosmos/BlockHandler"
    then some block
    else if s == "cosmos/TransactionHandler"
    then some transaction
    else if s == "cosmos/MessageHandler"
    then some message
    else if s == "cosmos/EventHandler"
    then some event
    else none

unfoldable pub is_block_handler_processor : CosmosHandlerKind → Bool
is_block_handler_processor base = kind_eq base block

unfoldable pub is_transaction_handler_processor : CosmosHandlerKind → Bool
is_transaction_handler_processor base = kind_eq base transaction

unfoldable pub is_message_handler_processor : CosmosHandlerKind → Bool
is_message_handler_processor base = kind_eq base message

unfoldable pub is_event_handler_processor : CosmosHandlerKind → Bool
is_event_handler_processor base = kind_eq base event
