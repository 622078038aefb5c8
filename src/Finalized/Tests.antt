-- ===== src/Finalized/Tests.antt =====
-- Headers at concrete heights.
use subql_cosmos.Base.{◌≡◌, refl}
use subql_cosmos.Base.Decimal.{to_decimal}
use subql_cosmos.Base.Number.{int, pos, sub_one, to_text}
use subql_cosmos.Finalized.{get_chain_interval, cosmos_block_to_header, get_header_for_hash}
use subql_cosmos.Finalized.Laws.{
  ancestor, get_header_for_hash-cosmos_block_to_header, ancestor-cosmos_block_to_header,
}

genesis_parent : (cosmos_block_to_header (int (pos 0))).parent_hash ≡ "-1"
unfolding cosmos_block_to_header to_text to_decimal
genesis_parent = refl

get_header_for_hash-cosmos_block_to_header_example :
    (get_header_for_hash (cosmos_block_to_header (int (pos 42))).block_hash
      ≡ cosmos_block_to_header (int (pos 42)))
    × (get_header_for_hash (cosmos_block_to_header (int (pos 42))).parent_hash
        ≡ cosmos_block_to_header (sub_one (int (pos 42))))
get_header_for_hash-cosmos_block_to_header_example =
    get_header_for_hash-cosmos_block_to_header (int (pos 42))

ancestor-cosmos_block_to_header_example :
    ancestor 3 (cosmos_block_to_header (int (pos 45))) ≡ cosmos_block_to_header (int (pos 42))
ancestor-cosmos_block_to_header_example = ancestor-cosmos_block_to_header 3 42

interval : get_chain_interval ≡ 5000
unfolding get_chain_interval
interval = refl
