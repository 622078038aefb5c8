-- ===== src/Fetch.antt =====
-- The fetch of a batch of blocks: packages/node/src/utils/cosmos.ts.
pub mod Promises
pub mod Batches
mod Tests
use subql_cosmos.Base.{
  ℕ, String, Bool, true, false, Option, none, some, List, [], ◌∷◌, map, map_result, length, ◌==◌,
  nat_strict, if◌then◌else◌, JsError, Fault, type_error, thrown, Result, ok, err, ◌>>=◌,
}
use Prim.Native.String.{◌++◌ as ◌<>◌}
use subql_cosmos.Base.Decimal.{to_decimal}
use subql_cosmos.Chain.{BlockResponse, BlockResultsResponse}
use subql_cosmos.Client.{ClientLib, handle_error}
use subql_cosmos.Content.Lazy.{LazyBlockContent, new_content}
use subql_cosmos.Fetch.Promises.{promise_all, promise_both}

-- The requests of a client: what each returns or rejects with.
pub record Api : Type 0 where
  pub block_info : ℕ → Result BlockResponse
  pub block_results : ℕ → Result BlockResultsResponse

-- `.catch((e) => { throw CosmosClient.handleError(e) })`; the message of an engine's own error is
-- no JSON.
unfoldable pub rethrow {ℓ} : {A : Type ℓ} → ClientLib → Result A → Result A
unfolding handle_error
rethrow lib (ok a) = ok a
rethrow lib (err type_error) = err type_error
rethrow lib (err (thrown e)) = err (thrown (handle_error lib e))

module _ (lib : ClientLib) (api : Api) where
  -- `results_first` tells whether the second request settles before the first.
  unfoldable pub get_block_by_height : Bool → ℕ → Result (BlockResponse × BlockResultsResponse)
  unfolding rethrow
  get_block_by_height results_first height =
      promise_both results_first (rethrow lib (api.block_info height))
        (rethrow lib (api.block_results height))

  -- `order` lists the blocks by the time they settle.
  unfoldable pub fetch_cosmos_blocks_array :
      List ℕ → (ℕ → Bool) → List ℕ → Result (List (BlockResponse × BlockResultsResponse))
  unfolding get_block_by_height
  fetch_cosmos_blocks_array order results_first heights =
      promise_all order (map (λ h. get_block_by_height (results_first h) h) heights)

  abbrev pub mismatch : BlockResponse → BlockResultsResponse → String
  mismatch info res =
      "txInfos doesn't match up with block ("
      <> (to_decimal info.block.header.height
          <> (") transactions expected "
              <> (to_decimal (length info.block.txs)
                  <> (", received: " <> to_decimal (length res.results)))))

  unfoldable pub prepare : BlockResponse × BlockResultsResponse → Result LazyBlockContent
  unfolding new_content
  prepare (info, res) =
      if length res.results == length info.block.txs
      then ok (new_content info res)
      else err (thrown (record { name = "AssertionError"; message = mismatch info res }))

  unfoldable pub fetch_blocks_batches :
      List ℕ → (ℕ → Bool) → List ℕ → Result (List LazyBlockContent)
  unfolding fetch_cosmos_blocks_array prepare
  fetch_blocks_batches order results_first heights =
      fetch_cosmos_blocks_array order results_first heights >>= λ blocks. map_result prepare blocks
