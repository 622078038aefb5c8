-- ===== src/Fetch/Batches.antt =====
-- What a fetched batch of blocks holds.
use subql_cosmos.Base.{
  ℕ, zero, suc, ◌+◌, ◌<◌, ◌≡◌, refl, subst, sym, ap, ◌∙◌, Bool, Bool-cases, inl, inr, some, List,
  [], ◌∷◌, map, map_result, get_elem?, length, ◌==◌, nat_strict, nat_beq_iff, arith, Result, ok,
  err, type_error, thrown, ◌>>=◌, >>=_returned,
}
use subql_cosmos.Chain.{
  Bytes, TxData, CosmosBlock, CosmosTransaction, BlockResponse, BlockResultsResponse,
}
use subql_cosmos.Content.{ChainLib, wrap_block, wrap_one_tx, wrap_tx_from, wrap_tx}
use subql_cosmos.Content.Lazy.{LazyBlockContent, new_content}
use subql_cosmos.Client.{ClientLib}
use subql_cosmos.Fetch.{
  Api, rethrow, get_block_by_height, fetch_cosmos_blocks_array, prepare, fetch_blocks_batches,
}
use subql_cosmos.Fetch.Promises.{promise_all_ok, promise_both_ok}

get_elem?-some :
    {A : Type 0} (xs : List A) (i : ℕ) → i < length xs → (x : A) × (get_elem? xs i ≡ some x)
get_elem?-some [] i h = absurd (omega (arith, h))
get_elem?-some (x ∷ xs) zero h = (x, refl)
get_elem?-some (x ∷ xs) (suc i) h = get_elem?-some xs i (omega (arith, h))

module _ (lib : ChainLib) where
  wrap_one :
      (block : CosmosBlock) (i : ℕ) (tx : TxData) (raw : Bytes)
      → (first : CosmosTransaction) × (wrap_one_tx lib block i tx (some raw) ≡ ok first)
  unfolding wrap_one_tx
  wrap_one block i tx raw = (_, refl)

  wrap_tx_from-returns :
      (block : CosmosBlock) (i : ℕ) (results : List TxData)
      → i + length results ≡ length block.block.txs
      → (txs : List CosmosTransaction) × (wrap_tx_from lib block i results ≡ ok txs)
        × (length txs ≡ length results)
  unfolding wrap_tx_from
  wrap_tx_from-returns block i [] h = ([], refl, refl)
  wrap_tx_from-returns block i (tx ∷ results) h =
      let (raw, e) = get_elem?-some block.block.txs i (omega (arith, h)) in
      let (rest, e', same) = wrap_tx_from-returns block (suc i) results (omega (arith, h)) in
      let (first, one) = wrap_one block i tx raw in
      let all = λ (m : Result CosmosTransaction).
        m >>= λ f. wrap_tx_from lib block (suc i) results >>= λ fs. ok (f ∷ fs) in
      let later = λ (m : Result (List CosmosTransaction)). m >>= λ fs. ok (first ∷ fs) in
      (first ∷ rest, ap all (ap (wrap_one_tx lib block i tx) e ∙ one) ∙ ap later e', ap suc same)

  -- With as many results as transactions, every transaction is wrapped.
  pub wrap_tx_total :
      (block : CosmosBlock) (results : List TxData)
      → length results ≡ length block.block.txs
      → (txs : List CosmosTransaction) × (wrap_tx lib block results ≡ ok txs)
        × (length txs ≡ length results)
  unfolding wrap_tx
  wrap_tx_total block results h = wrap_tx_from-returns block 0 results (omega (arith, h))

module _ (client : ClientLib) (api : Api) where
  -- The content is a fresh one of what the two requests for the height returned, and all its
  -- transactions can be wrapped.
  abbrev pub Fetched : ℕ → LazyBlockContent → Type 0
  Fetched height content =
      (info : BlockResponse) × (res : BlockResultsResponse) × (api.block_info height ≡ ok info)
      × (api.block_results height ≡ ok res)
      × (content ≡ new_content info res)
      × ((lib : ChainLib)
          → (txs : List CosmosTransaction) × (wrap_tx lib (wrap_block lib info res.results)
                res.results
              ≡ ok txs)
            × (length txs ≡ length info.block.txs))

  -- One content for each height, in the order of the heights.
  abbrev pub FetchedAll : List ℕ → List LazyBlockContent → Type 0
  FetchedAll [] [] = Unit
  FetchedAll (h ∷ heights) (c ∷ contents) = Fetched h c × FetchedAll heights contents
  FetchedAll _ _ = ⊥

  rethrow_ok : {A : Type 0} (r : Result A) (a : A) → rethrow client r ≡ ok a → r ≡ ok a
  unfolding rethrow
  rethrow_ok (ok x) a h = h
  rethrow_ok (err type_error) a h = absurd (cc h)
  rethrow_ok (err (thrown e)) a h = absurd (cc h)

  prepared-Fetched :
      (height : ℕ) (info : BlockResponse) (res : BlockResultsResponse) (content : LazyBlockContent)
      → api.block_info height ≡ ok info
      → api.block_results height ≡ ok res
      → prepare client api (info, res) ≡ ok content
      → Fetched height content
  unfolding prepare wrap_block
  prepared-Fetched height info res content e e' h =
      elim (Bool-cases (length res.results == length info.block.txs)) [
        | inl t ↦
            let counts = (nat_beq_iff (length res.results) (length info.block.txs)).0 t in
            let same : new_content info res ≡ content = cc (rw t at h) in
            (
              info,
              res,
              e,
              e',
              sym same,
              λ lib.
                  let (txs, wraps, l) =
                    wrap_tx_total lib (wrap_block lib info res.results) res.results counts in
                  (txs, wraps, l ∙ counts),
            )
        | inr f ↦ absurd (cc (rw f at h))
      ]

  prepared-FetchedAll :
      (results_first : ℕ → Bool) (heights : List ℕ)
      (blocks : List (BlockResponse × BlockResultsResponse)) (contents : List LazyBlockContent)
      → map (λ h. get_block_by_height client api (results_first h) h) heights ≡ map ok blocks
      → map_result (prepare client api) blocks ≡ ok contents
      → FetchedAll heights contents
  unfolding get_block_by_height
  prepared-FetchedAll results_first [] [] contents h k =
      let e : [] ≡ contents = cc k in subst (FetchedAll []) e tt
  prepared-FetchedAll results_first [] (b ∷ blocks) contents h k = absurd (cc h)
  prepared-FetchedAll results_first (height ∷ heights) [] contents h k = absurd (cc h)
  prepared-FetchedAll results_first (height ∷ heights) ((info, res) ∷ blocks) contents h k =
      let (first, e, k₁) = >>=_returned (prepare client api (info, res)) _ k in
      let (rest, es, k₂) = >>=_returned (map_result (prepare client api) blocks) _ k₁ in
      let both : get_block_by_height client api (results_first height) height ≡ ok (info, res) =
        cc h in
      let later : map (λ h. get_block_by_height client api (results_first h) h) heights
          ≡ map ok blocks =
        cc h in
      let (e₁, e₂) = promise_both_ok (results_first height) _ _ info res both in
      let one =
        prepared-Fetched height info res first (rethrow_ok _ info e₁) (rethrow_ok _ res e₂) e in
      let all = prepared-FetchedAll results_first heights blocks rest later es in
      let same : first ∷ rest ≡ contents = cc k₂ in
      subst (FetchedAll (height ∷ heights)) same (one, all)

  -- Where a batch is returned, in whatever order the requests settle, it has a fresh content for
  -- each height, in the order of the heights, made of what the node returned for that height; all
  -- transactions of each block can be wrapped, as many as the block has.
  pub fetch_blocks_batches-FetchedAll :
      (order : List ℕ) (results_first : ℕ → Bool) (heights : List ℕ)
      (contents : List LazyBlockContent)
      → fetch_blocks_batches client api order results_first heights ≡ ok contents
      → FetchedAll heights contents
  unfolding fetch_blocks_batches fetch_cosmos_blocks_array
  fetch_blocks_batches-FetchedAll order results_first heights contents h =
      let (blocks, fetches, prepares) =
        >>=_returned (fetch_cosmos_blocks_array client api order results_first heights) _ h in
      prepared-FetchedAll results_first heights blocks contents
        (promise_all_ok order _ blocks fetches) prepares
