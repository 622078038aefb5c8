-- ===== src/Finalized.antt =====
-- Block headers by height: packages/node/src/indexer/unfinalizedBlocks.service.ts, and the service
-- of a worker, worker/worker.unfinalizedBlocks.service.ts beside it, and the heights of fetch.service.ts.
pub mod Laws
mod Tests
use subql_cosmos.Base.{
  ◌∷◌, ◌*◌, ◌/◌, min, ℕ, zero, suc, String, Bool, true, false, Option, List, Result, fail, ok,
  if◌then◌else◌,
}
use subql_cosmos.Base.Number.{Number, int, pos, sub_one, to_text, parse_int}
use subql_cosmos.Chain.{CosmosBlock}

-- A header of the node's core library.
pub record Header : Type 0 where
  pub block_height : Number
  pub block_hash : String
  pub parent_hash : String

unfoldable pub cosmos_block_to_header : Number → Header
cosmos_block_to_header height = record {
  block_height = height;
  block_hash = to_text height;
  parent_hash = to_text (sub_one height);
}

unfoldable pub get_header_for_height : Number → Header
unfolding cosmos_block_to_header
get_header_for_height height = cosmos_block_to_header height

unfoldable pub get_header_for_hash : String → Header
unfolding get_header_for_height
get_header_for_hash hash = get_header_for_height (parse_int hash)

unfoldable pub block_to_header : CosmosBlock → Header
unfolding cosmos_block_to_header
block_to_header block = cosmos_block_to_header (int (pos block.header.height))

-- The head that the node reports: its height, or the error of the request.
unfoldable pub get_finalized_head : Result ℕ → Result Header
unfolding get_header_for_height
get_finalized_head (ok height) = ok (get_header_for_height (int (pos height)))
get_finalized_head (Result.err e) = Result.err e

-- `getFinalizedHeight` of the fetch service: it registers the header of the height, here at the
-- front of those that were registered.
unfoldable pub get_finalized_height : Result ℕ → List Header → Result ℕ × List Header
unfolding cosmos_block_to_header
get_finalized_height (ok height) registered =
    (ok height, cosmos_block_to_header (int (pos height)) ∷ registered)
get_finalized_height (Result.err e) registered = (Result.err e, registered)

-- `calcInterval`, in milliseconds.
abbrev pub calc_interval : ℕ
calc_interval = 6000

-- `getChainInterval`: nine tenths of the interval, at most five seconds.
unfoldable pub get_chain_interval : ℕ
get_chain_interval = min 5000 (calc_interval * 9 / 10)

-- The methods of the worker's service. The host's `unfinalizedBlocksProcess` is a parameter.
module _ (host : Header → Result (Option ℕ)) where
  unfoldable pub new_worker_service : Bool → Result (Unit {0})
  new_worker_service is_main_thread =
      if is_main_thread then fail "Expected to be worker thread" else ok tt

  unfoldable pub process_unfinalized_blocks : CosmosBlock → Result (Option ℕ)
  unfolding cosmos_block_to_header
  process_unfinalized_blocks block = host (cosmos_block_to_header (int (pos block.header.height)))

  unfoldable pub process_unfinalized_block_header : Header → Result (Option ℕ)
  process_unfinalized_block_header header = host header

abbrev from_worker {ℓ} : {A : Type ℓ} → Result A
from_worker = fail "This method should not be called from a worker"

unfoldable pub init : Result ℕ
init = from_worker

unfoldable pub reset_unfinalized_blocks : Result (Unit {0})
reset_unfinalized_blocks = from_worker

unfoldable pub reset_last_finalized_verified_height : Result (Unit {0})
reset_last_finalized_verified_height = from_worker

unfoldable pub get_metadata_unfinalized_blocks : Result (List Header)
get_metadata_unfinalized_blocks = from_worker
