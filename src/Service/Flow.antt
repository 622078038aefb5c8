-- ===== src/Service/Flow.antt =====
-- From the height of a block to the calls of its handlers.
use subql_cosmos.Base.{
  Option, none, ◌+◌, ◌⊎◌, any, length, if◌then◌else◌, ℕ, ◌≡◌, Bool, some, List, Result, ok, err,
  Fault,
}
use subql_cosmos.Chain.{BlockResponse, BlockResultsResponse, CosmosTransaction, CosmosMessage}
use subql_cosmos.Content.{ChainLib, wrap_tx, wrap_msg, wrap_block_begin_and_end_events}
use subql_cosmos.Content.Lazy.{LazyBlockContent, Exec, get_block}
use subql_cosmos.Client.{ClientLib}
use subql_cosmos.Fetch.{Api, fetch_blocks_batches}
use subql_cosmos.Project.{DataSource}
use subql_cosmos.Indexer.{Input, Action, World, for_each, index_input}
use subql_cosmos.Indexer.Reads.{the_block, the_begin_events}
use subql_cosmos.Indexer.Ready.{the_events}
use subql_cosmos.Indexer.BlockPlan.{block_plan, has_message}
use subql_cosmos.Service.{Internal, get_block_height, get_api, dispatch_block}

-- The node's core library fetches blocks by what a connection fetches.
abbrev pub Relays : ClientLib → Api → (List ℕ → Result (List LazyBlockContent)) → Type 0
Relays client api fetch_blocks =
    (heights : List ℕ) (contents : List LazyBlockContent)
    → fetch_blocks heights ≡ ok contents
    → (order : List ℕ) × (results_first : ℕ → Bool) × (fetch_blocks_batches client api order
          results_first heights
        ≡ ok contents)

-- Where no handler creates a data source, `internalIndexBlock` indexes the data of the block once, for
-- the data sources that are active, and does not hide an error of it; it may have read the block
-- before. Or it ends early, before any handler was called: it throws, or asks for a reindexing.
pub record IndexesOrSkips {S Client Response : Type 0} (lib : ChainLib)
    (internal : Internal S Client Response) : Type 0 where
  pub active : List DataSource → List DataSource
  pub finish : Result (Unit {0}) → Result Response
  pub keeps_errors : (e : Fault) → finish (err e) ≡ err e
  pub early : List DataSource → LazyBlockContent → S → Option (Result Response)
  pub indexes :
      (sources : List DataSource) (get_api : Exec Client)
      (index : List DataSource → Action (World S)) (c : LazyBlockContent) (s : S)
      → early sources c s ≡ none
      → (c₁ : LazyBlockContent) × ((c₁ ≡ c) ⊎ (c₁ ≡ (get_block lib c).1))
        × (internal sources get_api index (c, s)
            ≡ (finish (index (active sources) (c₁, s)).0, (index (active sources) (c₁, s)).1))
  pub skips :
      (sources : List DataSource) (get_api : Exec Client)
      (index : List DataSource → Action (World S)) (c : LazyBlockContent) (s : S)
      (r : Result Response)
      → early sources c s ≡ some r
      → (c₁ : LazyBlockContent) × (internal sources get_api index (c, s) ≡ (r, (c₁, s)))

module _ (lib : ChainLib) where
  -- The messages of the block that the node has at a height can be wrapped.
  abbrev pub Decodes : Api → ℕ → Type 0
  Decodes api height =
      (info : BlockResponse) (res : BlockResultsResponse) (txs : List CosmosTransaction)
      → api.block_info height ≡ ok info
      → api.block_results height ≡ ok res
      → wrap_tx lib (the_block lib info res) res.results ≡ ok txs
      → (msgs : List CosmosMessage) × (wrap_msg lib (the_block lib info res) txs ≡ ok msgs)

  -- The calls of a block. Its end events are numbered after its begin events, and after the events of
  -- its transactions where one of them has a message.
  abbrev pub plan :
      BlockResponse
      → BlockResultsResponse
      → List CosmosTransaction
      → List CosmosMessage
      → List Input
  plan info res txs msgs =
      let begins = the_begin_events lib info res in
      let events = the_events lib info res txs msgs in
      block_plan (the_block lib info res) begins txs msgs events (
        wrap_block_begin_and_end_events lib (the_block lib info res) res.end_block_events
          (length begins + (if any (has_message msgs) txs then length events else 0)))

module _ {S Client Response : Type 0} (lib : ChainLib) (index_data : Input → DataSource → Action S)
    (safe_api : ℕ → Result Client) (internal : Internal S Client Response)
    (core : IndexesOrSkips lib internal) (sources_at : ℕ → List DataSource) where
  -- The handlers' calls of a plan for the data sources that are active at a height.
  abbrev pub run_at : ℕ → List Input → Action S
  run_at height = for_each (index_input lib index_data (core.active (sources_at height)))

  -- The block's calls were made, and the core library returns or throws what it makes of them.
  abbrev pub Indexed :
      BlockResponse
      → BlockResultsResponse
      → List CosmosTransaction
      → List CosmosMessage
      → S
      → Result Response × World S
      → Type 0
  Indexed info res txs msgs s end =
      let (r, s') = run_at info.block.header.height (plan lib info res txs msgs) s in
      (c : LazyBlockContent) × (end ≡ (core.finish r, (c, s')))

  -- How the core library ends early on a content whose height was read.
  abbrev pub early_at : ℕ → LazyBlockContent → S → Option (Result Response)
  early_at height content s = core.early (sources_at height) (get_block_height lib content).1 s

  -- Either the block's calls were made, or the core library ended early and no handler was called.
  abbrev pub CallsOf :
      BlockResponse
      → BlockResultsResponse
      → List CosmosTransaction
      → List CosmosMessage
      → LazyBlockContent
      → S
      → Type 0
  CallsOf info res txs msgs content s =
      let early = early_at info.block.header.height content s in
      let end =
        dispatch_block lib index_data safe_api internal (λ height. ok (sources_at height))
          (content, s) in
      (early ≡ none → Indexed info res txs msgs s end)
      × ((r : Result Response) → early ≡ some r → (end.0 ≡ r) × (end.1.1 ≡ s))
