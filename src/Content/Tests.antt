-- ===== src/Content/Tests.antt =====
-- The block content at a concrete block: two begin events, one transaction with a message and two
-- events, one end event.
use subql_cosmos.Base.{ℕ, String, ◌≡◌, refl, none, some, List, [], ◌∷◌, ok, err, type_error}
use subql_cosmos.Value.{undefined}
use subql_cosmos.Chain.{
  BlockResponse, BlockResultsResponse, CosmosEvent, RawEvent, Event, Log, Bytes, DecodeObject,
}
use subql_cosmos.Chain.Getter.{getter, read, reads}
use subql_cosmos.Content.{
  ChainLib, wrap_event, wrap_msg, wrap_tx, wrap_block, wrap_block_begin_and_end_events,
}
use subql_cosmos.Content.Lazy.{LazyBlockContent, new_content, get_events, perform_all, Read}
use subql_cosmos.Content.Lazy.Numbering.{perform_all-new_content}
use subql_cosmos.Content.Lazy.Ranges.{IsNumbered}
use subql_cosmos.Content.Lazy.Stored.{get_events_again}

abbrev hex : Bytes → String
hex [] = ""
hex (b ∷ bs) = "af"

abbrev transfer : Event
transfer = record { type = "transfer"; attributes = [] }

abbrev send : DecodeObject
send = record { type_url = "/cosmos.bank.v1beta1.MsgSend"; value = 1 ∷ [] }

abbrev send_log : Log
send_log = record { msg_index = 0; events = transfer ∷ transfer ∷ [] }

abbrev pub chain_lib : ChainLib
chain_lib = record {
  to_hex = hex;
  sha256 = λ bs. bs;
  decode_tx_raw = λ bs. ok (record { messages = send ∷ [] });
  from_tendermint_event = λ e. record { type = e.type; attributes = [] };
  parse_raw_log = λ log. ok (send_log ∷ []);
  decode_msg = λ m. ok undefined;
}

abbrev raw_event : RawEvent
raw_event = record { type = "mint"; attributes = [] }

abbrev pub block_info : BlockResponse
block_info = record {
  block_id = record { hash = 7 ∷ [] };
  block = record {
    header = record { height = 42; chain_id = "juno-1"; last_block_id = none };
    txs = (9 ∷ []) ∷ [];
  };
}

abbrev pub block_results : BlockResultsResponse
block_results = record {
  height = 42;
  results = record { code = 0; log = some "[]" } ∷ [];
  begin_block_events = raw_event ∷ raw_event ∷ [];
  end_block_events = raw_event ∷ [];
}

abbrev content : LazyBlockContent
content = new_content block_info block_results

abbrev sample_reads : List Read
sample_reads =
    Read.begin_block_events ∷ Read.messages ∷ Read.events ∷ Read.end_block_events ∷ Read.events ∷ []

five_events : (perform_all chain_lib sample_reads content).event_idx ≡ 5
unfolding perform_all new_content wrap_event wrap_msg wrap_tx wrap_block
    wrap_block_begin_and_end_events
five_events = refl

perform_all-new_content_example : IsNumbered (perform_all chain_lib sample_reads content)
perform_all-new_content_example =
    perform_all-new_content chain_lib block_info block_results sample_reads

abbrev after_events : LazyBlockContent
after_events = perform_all chain_lib (Read.events ∷ []) content

abbrev two_events : List CosmosEvent
two_events = elim (get_events chain_lib content).0 [ ok es ↦ es | err e ↦ [] ]

events_returned : get_events chain_lib content ≡ (ok two_events, after_events)
unfolding get_events perform_all new_content wrap_event wrap_tx wrap_block
events_returned = refl

get_events_again_example :
    get_events chain_lib (perform_all chain_lib sample_reads after_events)
    ≡ (ok two_events, perform_all chain_lib sample_reads after_events)
get_events_again_example =
    get_events_again chain_lib content after_events two_events sample_reads events_returned

-- A failed decode is seen once.
failed_decode : reads {A = ℕ} 3 (getter (err type_error)) ≡ err type_error ∷ ok none ∷ ok none ∷ []
unfolding reads read
failed_decode = refl
