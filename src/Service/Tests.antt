-- ===== src/Service/Tests.antt =====
-- A block that is fetched and indexed, with handlers that write down what they are given.
use subql_cosmos.Base.{ℕ, ◌≡◌, true, none, List, [], ◌∷◌, Result, ok, err, fail, type_error}
use subql_cosmos.Value.{obj, end}
use subql_cosmos.Chain.{BlockResponse, BlockResultsResponse, CosmosTransaction, CosmosMessage}
use subql_cosmos.Client.{ClientLib}
use subql_cosmos.Content.{wrap_tx, wrap_msg}
use subql_cosmos.Content.Lazy.{LazyBlockContent}
use subql_cosmos.Content.Tests.{chain_lib, block_info, block_results}
use subql_cosmos.Fetch.{Api, fetch_blocks_batches}
use subql_cosmos.Project.{DataSource}
use subql_cosmos.Indexer.{Input, block_input, transaction_input, message_input, event_input, Action}
use subql_cosmos.Indexer.Reads.{the_block}
use subql_cosmos.Service.{Internal}

abbrev client : ClientLib
client = record {
  parse_json = λ s. fail "Unexpected token";
  includes = λ v part. err type_error;
  template = λ v. "";
  decode = λ msg. ok (obj end);
  decode_text = λ v. ok "";
}

abbrev api : Api
api = record { block_info = λ h. ok block_info; block_results = λ h. ok block_results }

abbrev batches : List ℕ → Result (List LazyBlockContent)
batches heights = fetch_blocks_batches client api (0 ∷ []) (λ h. true) heights

abbrev label : Input → ℕ
label (block_input block) = 0
label (transaction_input tx) = 1
label (message_input msg) = 2
label (event_input event) = 3

abbrev write_down : Input → DataSource → Action (List ℕ)
write_down input ds written = (ok tt, label input ∷ written)

abbrev one_source : List DataSource
one_source = record { kind = "cosmos/Runtime"; processor = none; handlers = [] } ∷ []

abbrev internal : Internal (List ℕ) ℕ (Unit {0})
internal sources get_api index w = index sources w

abbrev the_txs : List CosmosTransaction
the_txs =
    elim (wrap_tx chain_lib (the_block chain_lib block_info block_results) block_results.results) [
      | ok l ↦ l
      | err e ↦ []
    ]

abbrev the_msgs : List CosmosMessage
the_msgs = elim (wrap_msg chain_lib (the_block chain_lib block_info block_results) the_txs) [
  | ok l ↦ l
  | err e ↦ []
]

abbrev Wrapped : BlockResponse → BlockResultsResponse → Type 0
Wrapped info res =
    (txs : List CosmosTransaction)
    → wrap_tx chain_lib (the_block chain_lib info res) res.results ≡ ok txs
    → (msgs : List CosmosMessage) × (wrap_msg chain_lib (the_block chain_lib info res) txs
        ≡ ok msgs)
