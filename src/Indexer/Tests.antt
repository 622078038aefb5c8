-- ===== src/Indexer/Tests.antt =====
-- The order of the calls for a concrete block, with handlers that write down what they are given.
use subql_cosmos.Base.{ℕ, ◌≡◌, refl, Result, ok, err, List, [], ◌∷◌, none}
use subql_cosmos.Chain.{CosmosTransaction, CosmosMessage}
use subql_cosmos.Content.{
  wrap_tx, wrap_msg, wrap_event, wrap_block, wrap_block_begin_and_end_events,
}
use subql_cosmos.Content.Lazy.{
  LazyBlockContent, new_content, get_block, get_begin_block_events, get_transactions, get_messages,
  get_events, get_end_block_events,
}
use subql_cosmos.Content.Tests.{chain_lib, block_info, block_results}
use subql_cosmos.Project.{DataSource}
use subql_cosmos.Indexer.{
  Input, block_input, transaction_input, message_input, event_input, Action, index_block_data,
  is_message_of, is_event_of,
}
use subql_cosmos.Indexer.BlockPlan.{block_plan}
use subql_cosmos.Indexer.Reads.{the_block, the_begin_events}
use subql_cosmos.Indexer.Ready.{the_events}
use subql_cosmos.Indexer.Order.{run, ends, index_block_data-block_plan}

-- What a call was for: the kind and the index.
abbrev label : Input → ℕ × ℕ
label (block_input block) = (0, block.block.header.height)
label (transaction_input tx) = (1, tx.idx)
label (message_input msg) = (2, msg.idx)
label (event_input event) = (3, event.idx)

abbrev write_down : Input → DataSource → Action (List (ℕ × ℕ))
write_down input ds written = (ok tt, label input ∷ written)

abbrev one_source : List DataSource
one_source = record { kind = "cosmos/Runtime"; processor = none; handlers = [] } ∷ []

abbrev txs : List CosmosTransaction
txs =
    elim (wrap_tx chain_lib (the_block chain_lib block_info block_results) block_results.results) [
      | ok l ↦ l
      | err e ↦ []
    ]

abbrev msgs : List CosmosMessage
msgs = elim (wrap_msg chain_lib (the_block chain_lib block_info block_results) txs) [
  | ok l ↦ l
  | err e ↦ []
]

written :
    (index_block_data chain_lib write_down one_source
      (new_content block_info block_results, [])).1.1
    ≡ (3, 4) ∷ (3, 3) ∷ (3, 2) ∷ (2, 0) ∷ (1, 0) ∷ (3, 1) ∷ (3, 0) ∷ (0, 42) ∷ []
unfolding index_block_data new_content wrap_event wrap_msg wrap_tx wrap_block
    wrap_block_begin_and_end_events get_block get_begin_block_events get_transactions get_messages
    get_events get_end_block_events is_message_of is_event_of
written = refl

wraps_txs :
    wrap_tx chain_lib (the_block chain_lib block_info block_results) block_results.results ≡ ok txs
unfolding wrap_tx wrap_block
wraps_txs = refl

wraps_msgs : wrap_msg chain_lib (the_block chain_lib block_info block_results) txs ≡ ok msgs
unfolding wrap_msg wrap_tx wrap_block
wraps_msgs = refl

-- The calls of the plan.
abbrev calls : Result (Unit {0}) × List (ℕ × ℕ)
calls =
    run chain_lib write_down one_source block_info block_results txs msgs
      (block_plan (the_block chain_lib block_info block_results)
        (the_begin_events chain_lib block_info block_results) txs msgs
        (the_events chain_lib block_info block_results txs msgs)
        (ends chain_lib write_down one_source block_info block_results txs msgs wraps_txs
          wraps_msgs))
      []

index_block_data-block_plan_example :
    (c : LazyBlockContent) × (index_block_data chain_lib write_down one_source
        (new_content block_info block_results, [])
      ≡ (calls.0, (c, calls.1)))
index_block_data-block_plan_example =
    index_block_data-block_plan chain_lib write_down one_source block_info block_results txs msgs
      wraps_txs wraps_msgs []
