-- ===== src/Filter/Select.antt =====
-- `filterMessages` and `filterEvents` of packages/node/src/utils/cosmos.ts, and the filter of a
-- custom handler, `baseCustomHandlerFilter` of packages/node/src/indexer/indexer.manager.ts.
use subql_cosmos.Base.{
  Bool, true, false, Option, none, some, List, [], ◌∷◌, Result, ok, ◌>>=◌, ltb, length,
  if◌then◌else◌,
}
use subql_cosmos.Value.{ValueLib}
use subql_cosmos.Chain.{CosmosBlock, CosmosTransaction, CosmosMessage, CosmosEvent}
use subql_cosmos.Filter.{
  BlockFilter, TxFilter, MessageFilter, EventFilter, OneOrMany, single, many, filter_block,
  filter_tx, filter_message_data, filter_event,
}

module _ {ℓ} {A : Type ℓ} where
  -- `xs.find(p)`, as a test: whether some element passes; it stops at the first that does.
  unfoldable pub finds : (A → Result Bool) → List A → Result Bool
  finds p [] = ok false
  finds p (x ∷ xs) = p x >>= λ found. if found then ok true else finds p xs

  -- `xs.filter(p)`
  unfoldable pub filter_result : (A → Result Bool) → List A → Result (List A)
  filter_result p [] = ok []
  filter_result p (x ∷ xs) =
      p x >>= λ keep. filter_result p xs >>= λ rest. ok (if keep then x ∷ rest else rest)

-- The filters as an array; `none` where there is nothing to filter by.
abbrev pub filters_of {ℓ} : {F : Type ℓ} → Option (OneOrMany F) → Option (List F)
filters_of none = none
filters_of (some (single f)) = some (f ∷ [])
filters_of (some (many [])) = none
filters_of (some (many (f ∷ fs))) = some (f ∷ fs)

module _ (lib : ValueLib) where
  abbrev pub passes_message : List MessageFilter → CosmosMessage → Result Bool
  passes_message filters message = finds (λ f. filter_message_data lib message (some f)) filters

  -- `messages` is `none` where it is `null`.
  unfoldable pub filter_messages :
      Option (List CosmosMessage) → Option (OneOrMany MessageFilter) → Result (List CosmosMessage)
  unfolding filter_result finds
  filter_messages none filters = ok []
  filter_messages (some messages) filters = elim (filters_of filters) [
    | none ↦ ok messages
    | some fs ↦ filter_result (passes_message fs) messages
  ]

  abbrev pub passes_event : List EventFilter → CosmosEvent → Result Bool
  passes_event filters event = finds (λ f. filter_event lib event (some f)) filters

  unfoldable pub filter_events :
      List CosmosEvent → Option (OneOrMany EventFilter) → Result (List CosmosEvent)
  unfolding filter_result finds
  filter_events events filters = elim (filters_of filters) [
    | none ↦ ok events
    | some fs ↦ filter_result (passes_event fs) events
  ]

  -- The data of a handler with the base filter of its processor, by the handler's kind.
  pub data Filtered : Type 0 where
    block_data : CosmosBlock → Option BlockFilter → Filtered
    tx_data : CosmosTransaction → Option TxFilter → Filtered
    message_data : CosmosMessage → Option (OneOrMany MessageFilter) → Filtered
    event_data : CosmosEvent → Option (OneOrMany EventFilter) → Filtered

  unfoldable pub base_custom_handler_filter : Filtered → Result Bool
  unfolding filter_messages filter_events
  base_custom_handler_filter (block_data block filter) = ok (filter_block block filter)
  base_custom_handler_filter (tx_data tx filter) = ok (filter_tx tx filter)
  base_custom_handler_filter (message_data message filter) =
      filter_messages (some (message ∷ [])) filter >>= λ kept. ok (ltb 0 (length kept))
  base_custom_handler_filter (event_data event filter) =
      filter_events (event ∷ []) filter >>= λ kept. ok (ltb 0 (length kept))
