-- ===== src/Service.antt =====
-- How a block is fetched and indexed: packages/node/src/indexer/worker/worker.service.ts,
-- blockDispatcher/block-dispatcher.service.ts and the methods of indexer.manager.ts that they call.
pub mod Flow
mod Tests
use subql_cosmos.Base.{ℕ, String, Option, none, some, List, [], ◌∷◌, Result, ok, err, ◌>>=◌}
use subql_cosmos.Chain.{Bytes, BlockId}
use subql_cosmos.Content.{ChainLib}
use subql_cosmos.Content.Lazy.{LazyBlockContent, Exec, ◌>>=◌ as ◌then◌, get_block}
use subql_cosmos.Project.{DataSource}
use subql_cosmos.Indexer.{Input, Action, World, index_block_data}

-- A method of the classes of the node's core library, over the content and the handlers' state.
abbrev pub Method : Type 0 → Type 0 → Type 0
Method S A = World S → Result A × World S

module _ (lib : ChainLib) where
  -- `getBlockHeight` of IndexerManager and of BlockDispatcherService.
  unfoldable pub get_block_height : Exec ℕ
  unfolding get_block ◌then◌
  get_block_height = get_block lib then λ block c. (ok block.block.header.height, c)

  unfoldable pub get_block_hash : Exec String
  unfolding get_block ◌then◌
  get_block_hash = get_block lib then λ block c. (ok block.block.id, c)

  abbrev parent_of : (Bytes → String) → Option BlockId → Option String
  parent_of to_string none = none
  parent_of to_string (some id) = some (to_string id.hash)

  -- `toBlockResponse`, with `toString` of the bytes of a hash.
  unfoldable pub to_block_response : (Bytes → String) → Exec (Option String)
  unfolding get_block ◌then◌
  to_block_response to_string =
      get_block lib then λ block c. (ok (parent_of to_string block.header.last_block_id), c)

  -- `getApi`, with `getSafeApi` of the API service.
  unfoldable pub get_api : {Client : Type 0} → (ℕ → Result Client) → Exec Client
  unfolding get_block_height ◌then◌
  get_api safe_api = get_block_height then λ height c. (safe_api height, c)

-- `const [block] = …`
abbrev pub first_block : List LazyBlockContent → Option LazyBlockContent
first_block [] = none
first_block (block ∷ blocks) = some block

-- `fetchChainBlock`, with `fetchBlocks` of the API service.
unfoldable pub fetch_chain_block :
    (List ℕ → Result (List LazyBlockContent)) → ℕ → Result (Option LazyBlockContent)
fetch_chain_block fetch_blocks height =
    fetch_blocks (height ∷ []) >>= λ blocks. ok (first_block blocks)

-- `internal_index_block` is `internalIndexBlock`: it gets the data sources, the method that gets the
-- API and the one that indexes a block's data for the data sources that it passes.
abbrev pub Internal : Type 0 → Type 0 → Type 0 → Type 0
Internal S Client Response =
    List DataSource → Exec Client → (List DataSource → Action (World S)) → Method S Response

module _ {S Client Response : Type 0} (lib : ChainLib) (index_data : Input → DataSource → Action S)
    (safe_api : ℕ → Result Client) (internal_index_block : Internal S Client Response) where
  -- `IndexerManager.indexBlock`
  unfoldable pub index_block : List DataSource → Method S Response
  unfolding get_api index_block_data
  index_block sources =
      internal_index_block sources (get_api lib safe_api)
        (λ active. index_block_data lib index_data active)

  -- `processFetchedBlock` of the worker's service.
  unfoldable pub process_fetched_block : List DataSource → Method S Response
  unfolding index_block
  process_fetched_block sources = index_block sources

  abbrev pub with_sources : Result (List DataSource) → Method S Response
  with_sources (err e) w = (err e, w)
  with_sources (ok sources) w = index_block sources w

  abbrev pub at_height : (ℕ → Result (List DataSource)) → Result ℕ → Method S Response
  at_height get_data_sources (err e) w = (err e, w)
  at_height get_data_sources (ok height) w = with_sources (get_data_sources height) w

  -- `indexBlock` of the block dispatcher, with `getDataSources` of the project service.
  unfoldable pub dispatch_block : (ℕ → Result (List DataSource)) → Method S Response
  unfolding get_block_height index_block
  dispatch_block get_data_sources (c, s) =
      let (height, c') = get_block_height lib c in at_height get_data_sources height (c', s)
