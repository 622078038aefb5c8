-- ===== src/Finalized/Laws.antt =====
-- Heights serve as hashes: a header is found again by its hash, and the parents form a chain.
use subql_cosmos.Base.{ℕ, zero, suc, ◌+◌, ◌≡◌, ap, ◌∙◌, arith}
use subql_cosmos.Base.Number.{Number, int, pos, sub_one, parse_int-to_text}
use subql_cosmos.Finalized.{Header, cosmos_block_to_header, get_header_for_hash}

-- The header of a block is found by its hash, and the header before it by its parent hash.
pub get_header_for_hash-cosmos_block_to_header :
    (height : Number)
    → (get_header_for_hash (cosmos_block_to_header height).block_hash
        ≡ cosmos_block_to_header height)
      × (get_header_for_hash (cosmos_block_to_header height).parent_hash
          ≡ cosmos_block_to_header (sub_one height))
unfolding get_header_for_hash
get_header_for_hash-cosmos_block_to_header height = (
  ap cosmos_block_to_header (parse_int-to_text height),
  ap cosmos_block_to_header (parse_int-to_text (sub_one height)),
)

-- The header that is reached by `n` parent hashes.
pub ancestor : ℕ → Header → Header
ancestor zero header = header
ancestor (suc n) header = ancestor n (get_header_for_hash header.parent_hash)

-- From height k + n, n parent hashes lead to the header of height k.
pub ancestor-cosmos_block_to_header :
    (n k : ℕ)
    → ancestor n (cosmos_block_to_header (int (pos (n + k)))) ≡ cosmos_block_to_header (int (pos k))
unfolding ancestor
ancestor-cosmos_block_to_header zero k =
    ap (λ m. cosmos_block_to_header (int (pos m))) (omega arith)
ancestor-cosmos_block_to_header (suc n) k =
    let e : suc n + k ≡ suc (n + k) = omega arith in
    rw e (
      ap (ancestor n) (get_header_for_hash-cosmos_block_to_header (int (pos (suc (n + k))))).1
      ∙ ancestor-cosmos_block_to_header n k)

-- Two heights with one hash are one height.
pub block_hash_injective :
    (a b : Number)
    → (cosmos_block_to_header a).block_hash ≡ (cosmos_block_to_header b).block_hash
    → a ≡ b
unfolding cosmos_block_to_header
block_hash_injective a b h = cc (parse_int-to_text a, parse_int-to_text b)
