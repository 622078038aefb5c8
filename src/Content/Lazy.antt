-- ===== src/Content/Lazy.antt =====
-- `LazyBlockContent` of packages/node/src/utils/cosmos.ts: six getters that compute once and keep
-- what they computed, with one running index for all events of the block.
pub mod Same
pub mod Ranges
pub mod Numbering
mod Extends
mod Getters
pub mod Stored
use subql_cosmos.Base.{
  ◌≡◌, refl, ap, ℕ, ◌+◌, Option, none, some, List, [], ◌∷◌, length, Result, ok, err, nat_strict,
}
use subql_cosmos.Chain.{
  BlockResponse, BlockResultsResponse, CosmosBlock, CosmosTransaction, CosmosMessage, CosmosEvent,
}
use subql_cosmos.Content.{
  ChainLib, wrap_block, wrap_tx, wrap_msg, wrap_event, wrap_block_begin_and_end_events,
}

pub record LazyBlockContent : Type 0 where
  pub block_info : BlockResponse
  pub results : BlockResultsResponse
  pub wrapped_block : Option CosmosBlock
  pub wrapped_transaction : Option (List CosmosTransaction)
  pub wrapped_message : Option (List CosmosMessage)
  pub wrapped_event : Option (List CosmosEvent)
  pub wrapped_begin_block_events : Option (List CosmosEvent)
  pub wrapped_end_block_events : Option (List CosmosEvent)
  pub event_idx : ℕ

-- The constructor.
unfoldable pub new_content : BlockResponse → BlockResultsResponse → LazyBlockContent
new_content block_info results = record {
  block_info = block_info;
  results = results;
  wrapped_block = none;
  wrapped_transaction = none;
  wrapped_message = none;
  wrapped_event = none;
  wrapped_begin_block_events = none;
  wrapped_end_block_events = none;
  event_idx = 0;
}

-- A getter may throw; what it has stored before stays stored.
abbrev pub Exec : Type 0 → Type 0
Exec A = LazyBlockContent → Result A × LazyBlockContent

abbrev continue : {A B : Type 0} → Result A → (A → Exec B) → Exec B
continue (ok a) f c = f a c
continue (err e) f c = (err e, c)

infixl 10 ◌>>=◌
unfoldable pub ◌>>=◌ : {A B : Type 0} → Exec A → (A → Exec B) → Exec B
◌>>=◌ m f c = let (r, c') = m c in continue r f c'

-- What holds of the state after the first step, and is kept by the second, holds after both.
pub >>=_rule :
    {A B : Type 0} (Q P : LazyBlockContent → Type 0) (m : Exec A) (f : A → Exec B)
    (c : LazyBlockContent)
    → Q (m c).1
    → ((d : LazyBlockContent) → Q d → P d)
    → ((a : A) (d : LazyBlockContent) → Q d → P (f a d).1)
    → P ((m >>= f) c).1
unfolding ◌>>=◌
>>=_rule {A} {B} Q P m f c h weaken keep = go (m c).0 (m c).1 h
  where
    go : (r : Result A) (d : LazyBlockContent) → Q d → P (continue r f d).1
    go (ok a) d q = keep a d q
    go (err e) d q = weaken d q

-- Inversion of two steps that returned.
pub >>=_ok :
    {A B : Type 0} (m : Exec A) (f : A → Exec B) (c d : LazyBlockContent) (b : B)
    → (m >>= f) c ≡ (ok b, d)
    → (a : A) × (c' : LazyBlockContent) × (m c ≡ (ok a, c')) × (f a c' ≡ (ok b, d))
unfolding ◌>>=◌
>>=_ok {A} {B} m f c d b h = go (m c).0 (m c).1 refl h
  where
    go :
        (r : Result A) (c' : LazyBlockContent)
        → m c ≡ (r, c')
        → continue r f c' ≡ (ok b, d)
        → (a : A) × (c' : LazyBlockContent) × (m c ≡ (ok a, c')) × (f a c' ≡ (ok b, d))
    go (ok a) c' e k = (a, c', e, k)
    go (err x) c' e k = cc (ap (λ (r : Result B × LazyBlockContent). r.0) k)

module _ (lib : ChainLib) where
  unfoldable pub block_of : Option CosmosBlock → Exec CosmosBlock
  block_of (some block) c = (ok block, c)
  block_of none c =
      let block = wrap_block lib c.block_info c.results.results in
      (ok block, record c { wrapped_block = some block })

  unfoldable pub get_block : Exec CosmosBlock
  unfolding block_of
  get_block c = block_of c.wrapped_block c

  -- A wrapper's result is stored if it did not throw.
  unfoldable pub keep_transactions : Result (List CosmosTransaction) → Exec (List CosmosTransaction)
  keep_transactions (ok txs) c = (ok txs, record c { wrapped_transaction = some txs })
  keep_transactions (err e) c = (err e, c)

  unfoldable pub transactions_of : Option (List CosmosTransaction) → Exec (List CosmosTransaction)
  unfolding keep_transactions get_block ◌>>=◌
  transactions_of (some txs) c = (ok txs, c)
  transactions_of none c =
      (get_block >>= λ block. keep_transactions (wrap_tx lib block c.results.results)) c

  unfoldable pub get_transactions : Exec (List CosmosTransaction)
  unfolding transactions_of
  get_transactions c = transactions_of c.wrapped_transaction c

  unfoldable pub keep_messages : Result (List CosmosMessage) → Exec (List CosmosMessage)
  keep_messages (ok msgs) c = (ok msgs, record c { wrapped_message = some msgs })
  keep_messages (err e) c = (err e, c)

  unfoldable pub messages_of : Option (List CosmosMessage) → Exec (List CosmosMessage)
  unfolding keep_messages get_block get_transactions ◌>>=◌
  messages_of (some msgs) c = (ok msgs, c)
  messages_of none c =
      (get_block >>= λ block. get_transactions >>= λ txs. keep_messages (wrap_msg lib block txs)) c

  unfoldable pub get_messages : Exec (List CosmosMessage)
  unfolding messages_of
  get_messages c = messages_of c.wrapped_message c

  unfoldable pub keep_events : CosmosBlock → List CosmosTransaction → Exec (List CosmosEvent)
  keep_events block txs c =
      let events = wrap_event lib block txs c.event_idx in
      (ok events, record c { wrapped_event = some events; event_idx = c.event_idx + length events })

  unfoldable pub events_of : Option (List CosmosEvent) → Exec (List CosmosEvent)
  unfolding keep_events get_block get_transactions ◌>>=◌
  events_of (some events) c = (ok events, c)
  events_of none c = (get_block >>= λ block. get_transactions >>= λ txs. keep_events block txs) c

  unfoldable pub get_events : Exec (List CosmosEvent)
  unfolding events_of
  get_events c = events_of c.wrapped_event c

  unfoldable pub keep_begin_block_events : CosmosBlock → Exec (List CosmosEvent)
  keep_begin_block_events block c =
      let events =
        wrap_block_begin_and_end_events lib block c.results.begin_block_events c.event_idx in
      (
        ok events,
        record c {
          wrapped_begin_block_events = some events;
          event_idx = c.event_idx + length events;
        },
      )

  unfoldable pub begin_block_events_of : Option (List CosmosEvent) → Exec (List CosmosEvent)
  unfolding keep_begin_block_events get_block ◌>>=◌
  begin_block_events_of (some events) c = (ok events, c)
  begin_block_events_of none c = (get_block >>= λ block. keep_begin_block_events block) c

  unfoldable pub get_begin_block_events : Exec (List CosmosEvent)
  unfolding begin_block_events_of
  get_begin_block_events c = begin_block_events_of c.wrapped_begin_block_events c

  unfoldable pub keep_end_block_events : CosmosBlock → Exec (List CosmosEvent)
  keep_end_block_events block c =
      let events =
        wrap_block_begin_and_end_events lib block c.results.end_block_events c.event_idx in
      (
        ok events,
        record c {
          wrapped_end_block_events = some events;
          event_idx = c.event_idx + length events;
        },
      )

  unfoldable pub end_block_events_of : Option (List CosmosEvent) → Exec (List CosmosEvent)
  unfolding keep_end_block_events get_block ◌>>=◌
  end_block_events_of (some events) c = (ok events, c)
  end_block_events_of none c = (get_block >>= λ block. keep_end_block_events block) c

  unfoldable pub get_end_block_events : Exec (List CosmosEvent)
  unfolding end_block_events_of
  get_end_block_events c = end_block_events_of c.wrapped_end_block_events c

-- One of the six getters.
pub data Read : Type 0 where
  block transactions messages events begin_block_events end_block_events : Read

module _ (lib : ChainLib) where
  -- A read of a getter, its result dropped.
  unfoldable pub perform : Read → LazyBlockContent → LazyBlockContent
  unfolding get_block get_transactions get_messages get_events get_begin_block_events
      get_end_block_events
  perform block c = (get_block lib c).1
  perform transactions c = (get_transactions lib c).1
  perform messages c = (get_messages lib c).1
  perform events c = (get_events lib c).1
  perform begin_block_events c = (get_begin_block_events lib c).1
  perform end_block_events c = (get_end_block_events lib c).1

  unfoldable pub perform_all : List Read → LazyBlockContent → LazyBlockContent
  unfolding perform
  perform_all [] c = c
  perform_all (r ∷ rs) c = perform_all rs (perform r c)
