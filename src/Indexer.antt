-- ===== src/Indexer.antt =====
-- The order in which a block's data is handed to the handlers: `indexBlockData` and the functions
-- it calls, packages/node/src/indexer/indexer.manager.ts.
pub mod Plan
pub mod BlockPlan
pub mod Reads
pub mod Ready
pub mod Order
mod Tests
use subql_cosmos.Base.{
  ℕ, Bool, true, false, ◌&&◌, Option, none, some, List, [], ◌∷◌, ◌==◌, nat_strict, text_strict,
  Result, ok, err, type_error, if◌then◌else◌,
}
use subql_cosmos.Chain.{CosmosBlock, CosmosTransaction, CosmosMessage, CosmosEvent}
use subql_cosmos.Content.{ChainLib}
use subql_cosmos.Content.Lazy.{
  LazyBlockContent, Exec, get_block, get_transactions, get_messages, get_events,
  get_begin_block_events, get_end_block_events,
}
use subql_cosmos.Filter.Select.{filter_result}
use subql_cosmos.Project.{DataSource}

-- The kind and the data of a call of `indexData`.
pub data Input : Type 0 where
  block_input : CosmosBlock → Input
  transaction_input : CosmosTransaction → Input
  message_input : CosmosMessage → Input
  event_input : CosmosEvent → Input

-- A statement that changes a state and may throw.
abbrev pub Action : Type 0 → Type 0
Action St = St → Result (Unit {0}) × St

module _ {St : Type 0} where
  -- The statement after one that returned.
  abbrev pub next : Result (Unit {0}) → Action St → Action St
  next (ok done) k st = k st
  next (err e) k st = (err e, st)

  unfoldable pub seq : Action St → Action St → Action St
  seq a k st = let (r, st') = a st in next r k st'

  -- `for (const x of xs) await f(x)`
  unfoldable pub for_each {ℓ} : {A : Type ℓ} → (A → Action St) → List A → Action St
  for_each f [] st = (ok tt, st)
  for_each f (x ∷ xs) st = let (r, st') = f x st in next r (for_each f xs) st'

-- `msg.tx.hash === tx.hash`
unfoldable pub is_message_of : CosmosTransaction → CosmosMessage → Result Bool
is_message_of tx msg = ok (msg.tx.hash == tx.hash)

abbrev pub has_idx : ℕ → Option CosmosMessage → Bool
has_idx idx none = false
has_idx idx (some msg) = msg.idx == idx

-- `event.tx.hash === tx.hash && event.msg?.idx === msg.idx`
unfoldable pub is_event_of : CosmosTransaction → CosmosMessage → CosmosEvent → Result Bool
is_event_of tx msg event = elim event.tx [
  | none ↦ err type_error
  | some t ↦ ok (t.hash == tx.hash && has_idx msg.idx event.msg)
]

-- The content of the block and the handlers' state.
abbrev pub World : Type 0 → Type 0
World S = LazyBlockContent × S

module _ {S : Type 0} where
  -- What the handlers do leaves the content as it is.
  abbrev pub on_handlers : Action S → Action (World S)
  on_handlers a (c, s) = let (r, s') = a s in (r, (c, s'))

  abbrev pub on_read : {A : Type 0} → Result A → (A → Action (World S)) → Action (World S)
  on_read (ok a) k w = k a w
  on_read (err e) k w = (err e, w)

  -- A getter of the content, and what is done with its value.
  unfoldable pub reading : {A : Type 0} → Exec A → (A → Action (World S)) → Action (World S)
  reading get k (c, s) = let (r, c') = get c in on_read r k (c', s)

-- `indexData` of the node's core library runs the handlers of a data source on a state of its own.
module _ {S : Type 0} (lib : ChainLib) (index_data : Input → DataSource → Action S)
    (sources : List DataSource) where
  -- Each `index…` method: the data goes to every data source in turn. The list is fixed: a data source
  -- that a handler creates, which the core library appends to it, is not among them.
  unfoldable pub index_input : Input → Action S
  unfolding for_each
  index_input input = for_each (index_data input) sources

  unfoldable pub index : Input → Action (World S)
  unfolding index_input
  index input = on_handlers (index_input input)

  unfoldable pub index_events : List CosmosEvent → Action (World S)
  unfolding for_each index
  index_events events = for_each (λ event. index (event_input event)) events

  -- A filter of a list that may throw, and what is done with its value.
  abbrev pub selecting :
      {A : Type 0} → Result (List A) → (List A → Action (World S)) → Action (World S)
  selecting r k = on_read r k

  unfoldable pub index_message : CosmosTransaction → CosmosMessage → Action (World S)
  unfolding seq index reading index_events filter_result
  index_message tx msg = seq (index (message_input msg)) (
      reading (get_events lib)
        (λ events. selecting (filter_result (is_event_of tx msg) events) index_events))

  unfoldable pub index_transaction : CosmosTransaction → Action (World S)
  unfolding seq index reading for_each index_message filter_result
  index_transaction tx = seq (index (transaction_input tx)) (
      reading (get_messages lib) (λ messages.
        selecting (filter_result (is_message_of tx) messages)
          (λ msgs. for_each (index_message tx) msgs)))

  -- The block's getter is read for each data source.
  unfoldable pub index_block_content : Action (World S)
  unfolding for_each reading
  index_block_content =
      for_each
        (λ ds. reading (get_block lib) (λ block. on_handlers (index_data (block_input block) ds)))
        sources

  unfoldable pub index_block_data : Action (World S)
  unfolding index_block_content seq reading index_events for_each index_transaction
  index_block_data = seq index_block_content (
      seq (reading (get_begin_block_events lib) index_events) (
        seq (reading (get_transactions lib) (λ txs. for_each index_transaction txs))
          (reading (get_end_block_events lib) index_events)))
