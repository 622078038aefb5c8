-- ===== src/Content.antt =====
-- The wrappers of packages/node/src/utils/cosmos.ts, which build transactions, messages and events
-- from a node's responses, and the fetch of a batch of blocks.
pub mod Lazy
pub mod Wrapped
pub mod Transactions
pub mod Tests
use Prim.Native.Char.{Char, code}
use Prim.Native.String
use subql_cosmos.Base.{
  ℕ, zero, suc, ◌+◌, String, Bool, true, false, Option, none, some, List, [], ◌∷◌, ◌++◌, length,
  get_elem?, ◌==◌, nat_strict, if◌then◌else◌, Result, ok, err, type_error, ◌>>=◌,
}
use subql_cosmos.Value.{Value}
use subql_cosmos.Chain.{
  Bytes, RawBlock, BlockResponse, TxData, RawEvent, Event, Log, DecodeObject, DecodedTx,
  CosmosBlock, CosmosTransaction, CosmosMessage, CosmosEvent,
}

-- The packages that the wrappers call, and the client's `decodeMsg`.
pub record ChainLib : Type 0 where
  pub to_hex : Bytes → String
  pub sha256 : Bytes → Bytes
  pub decode_tx_raw : Bytes → Result DecodedTx
  pub from_tendermint_event : RawEvent → Event
  pub parse_raw_log : Option String → Result (List Log)
  pub decode_msg : DecodeObject → Result Value

-- `toUpperCase` on the digits of a hexadecimal text.
upper_digit : Char → Char
upper_digit c =
    if code c == 97
    then "A"
    else if code c == 98
    then "B"
    else if code c == 99
    then "C"
    else if code c == 100
    then "D"
    else if code c == 101
    then "E"
    else if code c == 102
    then "F"
    else c

unfoldable pub upper_hex : String → String
unfolding upper_digit
upper_hex String.[] = String.[]
upper_hex (String.◌∷◌ c s) = String.◌∷◌ (upper_digit c) (upper_hex s)

-- `null` where the transaction or block event has no message.
abbrev some_or_null {ℓ} : {A : Type ℓ} → Result A → Option A
some_or_null (ok a) = some a
some_or_null (err e) = none

module _ (lib : ChainLib) where
  unfoldable pub wrap_block : BlockResponse → List TxData → CosmosBlock
  unfolding upper_hex
  wrap_block block txs = record {
    block_id = block.block_id;
    block = record {
      id = upper_hex (lib.to_hex block.block_id.hash);
      header = block.block.header;
      txs = block.block.txs;
    };
    header = block.block.header;
    txs = txs;
  }

  -- One transaction. For a result without a transaction the code goes on with undefined bytes, where
  -- the model stops: fetchBlocksBatches asserts that a block has as many of both.
  unfoldable pub wrap_one_tx : CosmosBlock → ℕ → TxData → Option Bytes → Result CosmosTransaction
  unfolding upper_hex
  wrap_one_tx block idx tx none = err type_error
  wrap_one_tx block idx tx (some raw) = ok (record {
    idx = idx;
    block = block;
    hash = upper_hex (lib.to_hex (lib.sha256 raw));
    tx = tx;
    decoded_tx = lib.decode_tx_raw raw;
  })

  unfoldable pub wrap_tx_from : CosmosBlock → ℕ → List TxData → Result (List CosmosTransaction)
  unfolding wrap_one_tx
  wrap_tx_from block idx [] = ok []
  wrap_tx_from block idx (tx ∷ results) = do
    first ← wrap_one_tx block idx tx (get_elem? block.block.txs idx)
    rest ← wrap_tx_from block (suc idx) results
    ok (first ∷ rest)

  unfoldable pub wrap_tx : CosmosBlock → List TxData → Result (List CosmosTransaction)
  unfolding wrap_tx_from
  wrap_tx block results = wrap_tx_from block 0 results

  -- `rawMessage.typeUrl` throws where there is no message at the index.
  unfoldable pub wrap_raw :
      CosmosBlock → CosmosTransaction → ℕ → Option DecodeObject → Result CosmosMessage
  wrap_raw block tx idx none = err type_error
  wrap_raw block tx idx (some raw) = ok (record {
    idx = idx;
    block = block;
    tx = tx;
    msg = record { type_url = raw.type_url; decoded_msg = lib.decode_msg raw };
  })

  unfoldable pub wrap_cosmos_msg : CosmosBlock → CosmosTransaction → ℕ → Result CosmosMessage
  unfolding wrap_raw
  wrap_cosmos_msg block tx idx = do
    decoded ← tx.decoded_tx
    wrap_raw block tx idx (get_elem? decoded.messages idx)

  -- The inner loop of `wrapMsg`, by the rounds that are left.
  unfoldable pub wrap_msgs_of :
      CosmosBlock → CosmosTransaction → ℕ → ℕ → Result (List CosmosMessage)
  unfolding wrap_cosmos_msg
  wrap_msgs_of block tx i zero = ok []
  wrap_msgs_of block tx i (suc left) = do
    first ← wrap_cosmos_msg block tx i
    rest ← wrap_msgs_of block tx (suc i) left
    ok (first ∷ rest)

  unfoldable pub wrap_msg : CosmosBlock → List CosmosTransaction → Result (List CosmosMessage)
  unfolding wrap_msgs_of
  wrap_msg block [] = ok []
  wrap_msg block (tx ∷ txs) = do
    decoded ← tx.decoded_tx
    msgs ← wrap_msgs_of block tx 0 (length decoded.messages)
    rest ← wrap_msg block txs
    ok (msgs ++ rest)

  unfoldable pub wrap_block_begin_and_end_events :
      CosmosBlock → List RawEvent → ℕ → List CosmosEvent
  wrap_block_begin_and_end_events block [] offset = []
  wrap_block_begin_and_end_events block (event ∷ events) offset =
      record {
        idx = offset;
        block = block;
        tx = none;
        msg = none;
        log = none;
        event = lib.from_tendermint_event event;
      }
      ∷ wrap_block_begin_and_end_events block events (suc offset)

  -- The events of one log entry.
  unfoldable pub wrap_log :
      CosmosBlock
      → CosmosTransaction
      → Log
      → Option CosmosMessage
      → List Event
      → ℕ
      → List CosmosEvent
  wrap_log block tx log msg [] offset = []
  wrap_log block tx log msg (event ∷ events) offset =
      record { idx = offset; block = block; tx = some tx; msg = msg; log = some log; event = event }
      ∷ wrap_log block tx log msg events (suc offset)

  -- The loop over a transaction's log: a message that cannot be wrapped leaves `msg` undefined.
  unfoldable pub wrap_logs : CosmosBlock → CosmosTransaction → List Log → ℕ → List CosmosEvent
  unfolding wrap_log wrap_cosmos_msg
  wrap_logs block tx [] offset = []
  wrap_logs block tx (log ∷ logs) offset =
      wrap_log block tx log (some_or_null (wrap_cosmos_msg block tx log.msg_index)) log.events
        offset
      ++ wrap_logs block tx logs (offset + length log.events)

  abbrev pub logs_of : CosmosTransaction → List Log
  logs_of tx = elim (lib.parse_raw_log tx.tx.log) [ ok logs ↦ logs | err e ↦ [] ]

  -- A transaction whose log does not parse has no events.
  unfoldable pub wrap_event : CosmosBlock → List CosmosTransaction → ℕ → List CosmosEvent
  unfolding wrap_logs
  wrap_event block [] offset = []
  wrap_event block (tx ∷ txs) offset =
      let events = wrap_logs block tx (logs_of tx) offset in
      events ++ wrap_event block txs (offset + length events)
