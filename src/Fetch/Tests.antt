-- ===== src/Fetch/Tests.antt =====
-- A batch of one block.
use subql_cosmos.Base.{◌≡◌, refl, true, List, [], ◌∷◌, ok, err, fail, type_error}
use subql_cosmos.Value.{obj, end}
use subql_cosmos.Client.{ClientLib}
use subql_cosmos.Content.Lazy.{LazyBlockContent, new_content}
use subql_cosmos.Content.Tests.{block_info, block_results}
use subql_cosmos.Fetch.{Api, fetch_blocks_batches}
use subql_cosmos.Fetch.Promises.{promise_all, promise_both}
use subql_cosmos.Fetch.Batches.{FetchedAll, fetch_blocks_batches-FetchedAll}

abbrev client : ClientLib
client = record {
  parse_json = λ s. fail "Unexpected token";
  includes = λ v part. err type_error;
  template = λ v. "";
  decode = λ msg. ok (obj end);
  decode_text = λ v. ok "";
}

abbrev api : Api
api = record { block_info = λ h. ok block_info; block_results = λ h. ok block_results }

abbrev fetched : List LazyBlockContent
fetched = new_content block_info block_results ∷ new_content block_info block_results ∷ []

returned : fetch_blocks_batches client api (1 ∷ 0 ∷ []) (λ h. true) (42 ∷ 42 ∷ []) ≡ ok fetched
unfolding fetch_blocks_batches promise_all promise_both
returned = refl

fetch_blocks_batches-FetchedAll_example : FetchedAll client api (42 ∷ 42 ∷ []) fetched
fetch_blocks_batches-FetchedAll_example =
    fetch_blocks_batches-FetchedAll client api (1 ∷ 0 ∷ []) (λ h. true) (42 ∷ 42 ∷ []) fetched
      returned
