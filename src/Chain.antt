-- ===== src/Chain.antt =====
-- Blocks, transactions, messages and events: packages/types/src/interfaces.ts, with the response
-- types of the Tendermint client, by the fields that the program reads.
pub mod Getter
use subql_cosmos.Base.{ℕ, String, Option, List, Result}
use subql_cosmos.Value.{Value}

abbrev pub Bytes : Type 0
Bytes = List ℕ

pub record BlockId : Type 0 where
  pub hash : Bytes

pub record Header : Type 0 where
  pub height : ℕ
  pub chain_id : String
  pub last_block_id : Option BlockId

-- `Block` of the Tendermint client: the raw transactions are bytes.
pub record RawBlock : Type 0 where
  pub header : Header
  pub txs : List Bytes

pub record BlockResponse : Type 0 where
  pub block_id : BlockId
  pub block : RawBlock

-- The result of one transaction; `code` is 0 where it succeeded.
pub record TxData : Type 0 where
  pub code : ℕ
  pub log : Option String

-- An event as the node returns it: its attributes are bytes.
pub record RawEvent : Type 0 where
  pub type : String
  pub attributes : List (Bytes × Bytes)

pub record BlockResultsResponse : Type 0 where
  pub height : ℕ
  pub results : List TxData
  pub begin_block_events : List RawEvent
  pub end_block_events : List RawEvent

pub record Attribute : Type 0 where
  pub key : String
  pub value : String

pub record Event : Type 0 where
  pub type : String
  pub attributes : List Attribute

-- One entry of a transaction's raw log.
pub record Log : Type 0 where
  pub msg_index : ℕ
  pub events : List Event

-- A message as it stands in a transaction, still encoded.
pub record DecodeObject : Type 0 where
  pub type_url : String
  pub value : Bytes

pub record DecodedTx : Type 0 where
  pub messages : List DecodeObject

-- The field `block` of a `CosmosBlock`: the raw block with its id.
pub record IdentifiedBlock : Type 0 where
  pub id : String
  pub header : Header
  pub txs : List Bytes

pub record CosmosBlock : Type 0 where
  pub block_id : BlockId
  pub block : IdentifiedBlock
  pub header : Header
  pub txs : List TxData

-- `decoded_tx` and `decoded_msg` are what the first read of the getter returns or throws. The getter
-- of a value that was decoded returns it again; after a decode that threw, a later read gives
-- undefined (Chain/Getter), which the wrappers and filters do not model.
pub record CosmosTransaction : Type 0 where
  pub idx : ℕ
  pub block : CosmosBlock
  pub hash : String
  pub tx : TxData
  pub decoded_tx : Result DecodedTx

pub record Msg : Type 0 where
  pub type_url : String
  pub decoded_msg : Result Value

pub record CosmosMessage : Type 0 where
  pub idx : ℕ
  pub block : CosmosBlock
  pub tx : CosmosTransaction
  pub msg : Msg

-- Block events have no message, transaction or log.
pub record CosmosEvent : Type 0 where
  pub idx : ℕ
  pub block : CosmosBlock
  pub tx : Option CosmosTransaction
  pub msg : Option CosmosMessage
  pub log : Option Log
  pub event : Event
