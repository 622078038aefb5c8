-- ===== src/Client/Safe.antt =====
-- `CosmosSafeClient` of packages/node/src/indexer/api.service.ts: a client whose queries are pinned to
-- one height.
use subql_cosmos.Base.{
  ℕ, ◌≡◌, ap, ◌∙◌, sym, String, Option, none, some, List, map, Result, ok, ◌>>=◌,
}
use Prim.Native.String.{◌++◌ as ◌<>◌}
use package.text.Mathlib.TextLemmas.{append_cancel_left}
use subql_cosmos.Base.Decimal.{to_decimal, read_digits, read_digits-to_decimal}
use subql_cosmos.Chain.{Bytes, RawEvent, Event, Attribute}
use subql_cosmos.Content.{upper_hex}

-- What the Tendermint client answers; `Time` is the package's time with nanoseconds.
pub record VersionedHeader (Time : Type 0) : Type 0 where
  pub version_block : ℕ
  pub version_app : ℕ
  pub height : ℕ
  pub chain_id : String
  pub time : Time

pub record VersionedBlock (Time : Type 0) : Type 0 where
  pub hash : Bytes
  pub header : VersionedHeader Time
  pub txs : List Bytes

pub record TxResponse : Type 0 where
  pub index : ℕ
  pub height : ℕ
  pub hash : Bytes
  pub code : ℕ
  pub log : Option String
  pub gas_used : ℕ
  pub gas_wanted : ℕ
  pub events : List RawEvent
  pub tx : Bytes

-- `Block` of the package @cosmjs/stargate.
pub record SafeBlock : Type 0 where
  pub id : String
  pub version_block : String
  pub version_app : String
  pub height : ℕ
  pub chain_id : String
  pub time : String
  pub txs : List Bytes

pub record IndexedTx : Type 0 where
  pub tx_index : ℕ
  pub height : ℕ
  pub hash : String
  pub code : ℕ
  pub raw_log : String
  pub tx : Bytes
  pub gas_used : ℕ
  pub gas_wanted : ℕ
  pub events : List Event

-- `to_hex`, `uint53` (`new Uint53(n).toString()`, which throws above 2^53 - 1), `to_rfc3339` and
-- `utf8` (`Buffer.from(bytes).toString('utf8')`), and the three requests.
pub record SafeLib (Time Validator : Type 0) : Type 0 where
  pub to_hex : Bytes → String
  pub uint53 : ℕ → Result String
  pub to_rfc3339 : Time → String
  pub utf8 : Bytes → String
  pub tm_block : ℕ → Result (VersionedBlock Time)
  pub tm_validators : ℕ → Result (List Validator)
  pub tx_search_all : String → Result (List TxResponse)

module _ {Time Validator : Type 0} (lib : SafeLib Time Validator) where
  -- `getBlock` of a client of a height.
  unfoldable pub get_safe_block : ℕ → Result SafeBlock
  get_safe_block height = lib.tm_block height >>= λ response.
      lib.uint53 response.header.version_block >>= λ version_block.
      lib.uint53 response.header.version_app >>= λ version_app. ok (record {
        id = upper_hex (lib.to_hex response.hash);
        version_block = version_block;
        version_app = version_app;
        height = response.header.height;
        chain_id = response.header.chain_id;
        time = lib.to_rfc3339 response.header.time;
        txs = response.txs;
      })

  unfoldable pub validators : ℕ → Result (List Validator)
  validators height = lib.tm_validators height

  -- `tx.result.log || ''`
  abbrev pub log_text : Option String → String
  log_text none = ""
  log_text (some log) = log

  abbrev pub text_attribute : Bytes × Bytes → Attribute
  text_attribute (key, value) = record { key = lib.utf8 key; value = lib.utf8 value }

  unfoldable pub text_event : RawEvent → Event
  text_event event = record { type = event.type; attributes = map text_attribute event.attributes }

  unfoldable pub indexed_tx : TxResponse → IndexedTx
  unfolding text_event
  indexed_tx tx = record {
    tx_index = tx.index;
    height = tx.height;
    hash = upper_hex (lib.to_hex tx.hash);
    code = tx.code;
    raw_log = log_text tx.log;
    tx = tx.tx;
    gas_used = tx.gas_used;
    gas_wanted = tx.gas_wanted;
    events = map text_event tx.events;
  }

  unfoldable pub safe_txs_query : String → Result (List IndexedTx)
  unfolding indexed_tx
  safe_txs_query query = lib.tx_search_all query >>= λ txs. ok (map indexed_tx txs)

  abbrev pub height_query : ℕ → String
  height_query height = "tx.height=" <> to_decimal height

  unfoldable pub search_tx : ℕ → Result (List IndexedTx)
  unfolding safe_txs_query
  search_tx height = safe_txs_query (height_query height)

  -- Clients of two heights never send the same query for transactions.
  height_query_inj : (h h' : ℕ) → height_query h ≡ height_query h' → h ≡ h'
  height_query_inj h h' e =
      let same : to_decimal h ≡ to_decimal h' = append_cancel_left "tx.height=" _ _ e in
      sym (read_digits-to_decimal h) ∙ ap (read_digits 0) same ∙ read_digits-to_decimal h'
