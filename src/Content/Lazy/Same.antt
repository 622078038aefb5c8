-- ===== src/Content/Lazy/Same.antt =====
-- The getters that compute no events leave the stored events and the running index alone.
use subql_cosmos.Base.{◌≡◌, refl, ◌∙◌, Option, none, some, List, Result, ok, err}
use subql_cosmos.Chain.{CosmosBlock, CosmosTransaction, CosmosMessage}
use subql_cosmos.Content.{ChainLib, wrap_tx, wrap_msg}
use subql_cosmos.Content.Lazy.{
  LazyBlockContent, Exec, ◌>>=◌, >>=_rule, block_of, get_block, keep_transactions, transactions_of,
  get_transactions, keep_messages, messages_of,
}

-- What is left alone by the getters that compute no events.
pub record SameEvents (c d : LazyBlockContent) : Type 0 where
  pub event : d.wrapped_event ≡ c.wrapped_event
  pub begin : d.wrapped_begin_block_events ≡ c.wrapped_begin_block_events
  pub end : d.wrapped_end_block_events ≡ c.wrapped_end_block_events
  pub idx : d.event_idx ≡ c.event_idx

pub SameEvents-refl : (c : LazyBlockContent) → SameEvents c c
SameEvents-refl c = record { event = refl; begin = refl; end = refl; idx = refl }

pub SameEvents-trans : {c d e : LazyBlockContent} → SameEvents c d → SameEvents d e → SameEvents c e
SameEvents-trans h k = record {
  event = k.event ∙ h.event;
  begin = k.begin ∙ h.begin;
  end = k.end ∙ h.end;
  idx = k.idx ∙ h.idx;
}

pub SameEvents-bind :
    {A B : Type 0} (m : Exec A) (f : A → Exec B) (c : LazyBlockContent)
    → SameEvents c (m c).1
    → ((a : A) (d : LazyBlockContent) → SameEvents d (f a d).1)
    → SameEvents c ((m >>= f) c).1
SameEvents-bind m f c h k =
    >>=_rule (SameEvents c) (SameEvents c) m f c h (λ d s. s) λ a d s. SameEvents-trans s (k a d)

module _ (lib : ChainLib) where
  pub block_of-SameEvents :
      (o : Option CosmosBlock) (c : LazyBlockContent) → SameEvents c (block_of lib o c).1
  unfolding block_of
  block_of-SameEvents none c = record { event = refl; begin = refl; end = refl; idx = refl }
  block_of-SameEvents (some b) c = SameEvents-refl c

  pub get_block-SameEvents : (c : LazyBlockContent) → SameEvents c (get_block lib c).1
  unfolding get_block
  get_block-SameEvents c = block_of-SameEvents c.wrapped_block c

  pub keep_transactions-SameEvents :
      (r : Result (List CosmosTransaction)) (c : LazyBlockContent)
      → SameEvents c (keep_transactions lib r c).1
  unfolding keep_transactions
  keep_transactions-SameEvents (ok txs) c = record {
    event = refl;
    begin = refl;
    end = refl;
    idx = refl;
  }
  keep_transactions-SameEvents (err e) c = SameEvents-refl c

  pub transactions_of-SameEvents :
      (o : Option (List CosmosTransaction)) (c : LazyBlockContent)
      → SameEvents c (transactions_of lib o c).1
  unfolding transactions_of
  transactions_of-SameEvents none c =
      SameEvents-bind (get_block lib) _ c (get_block-SameEvents c)
        λ block d. keep_transactions-SameEvents (wrap_tx lib block c.results.results) d
  transactions_of-SameEvents (some txs) c = SameEvents-refl c

  pub get_transactions-SameEvents : (c : LazyBlockContent) → SameEvents c (get_transactions lib c).1
  unfolding get_transactions
  get_transactions-SameEvents c = transactions_of-SameEvents c.wrapped_transaction c

  pub keep_messages-SameEvents :
      (r : Result (List CosmosMessage)) (c : LazyBlockContent)
      → SameEvents c (keep_messages lib r c).1
  unfolding keep_messages
  keep_messages-SameEvents (ok msgs) c = record {
    event = refl;
    begin = refl;
    end = refl;
    idx = refl;
  }
  keep_messages-SameEvents (err e) c = SameEvents-refl c

  pub messages_of-SameEvents :
      (o : Option (List CosmosMessage)) (c : LazyBlockContent)
      → SameEvents c (messages_of lib o c).1
  unfolding messages_of
  messages_of-SameEvents none c =
      SameEvents-bind (get_block lib) _ c (get_block-SameEvents c) λ block d.
        SameEvents-bind (get_transactions lib) _ d (get_transactions-SameEvents d)
          λ txs e. keep_messages-SameEvents (wrap_msg lib block txs) e
  messages_of-SameEvents (some msgs) c = SameEvents-refl c
