-- ===== src/Content/Lazy/Getters.antt =====
-- The getters of messages and events keep the values that a content has stored.
use subql_cosmos.Base.{◌≡◌, ◌∙◌, Option, none, some, List, Result, ok, err}
use subql_cosmos.Chain.{CosmosBlock, CosmosTransaction, CosmosMessage, CosmosEvent}
use subql_cosmos.Content.{ChainLib}
use subql_cosmos.Content.Lazy.{
  LazyBlockContent, >>=_rule, get_block, get_transactions, keep_messages, messages_of, keep_events,
  events_of, keep_begin_block_events, begin_block_events_of, keep_end_block_events,
  end_block_events_of,
}
use subql_cosmos.Content.Lazy.Same.{
  SameEvents, SameEvents-trans, get_block-SameEvents, get_transactions-SameEvents,
}
use subql_cosmos.Content.Lazy.Extends.{
  Kept-none, Extends, Extends-refl, Extends-trans, get_block-Extends, get_block-rest,
  get_transactions-Extends,
}

module _ (lib : ChainLib) where
  keep_messages-Extends :
      (r : Result (List CosmosMessage)) (c : LazyBlockContent)
      → c.wrapped_message ≡ none
      → Extends c (keep_messages lib r c).1
  unfolding keep_messages
  keep_messages-Extends (ok msgs) c e = record {
    block = λ x p. p;
    transactions = λ x p. p;
    messages = Kept-none _ e;
    events = λ x p. p;
    begin_events = λ x p. p;
    end_events = λ x p. p;
  }
  keep_messages-Extends (err x) c e = Extends-refl c

  pub messages_of-Extends :
      (o : Option (List CosmosMessage)) (c : LazyBlockContent)
      → c.wrapped_message ≡ o
      → Extends c (messages_of lib o c).1
  unfolding messages_of
  messages_of-Extends none c e =
      >>=_rule (λ d. Extends c d × (d.wrapped_message ≡ none)) (Extends c) (get_block lib) _ c
        (get_block-Extends lib c, (get_block-rest lib c).1 ∙ e) (λ d q. q.0)
        λ block d q.
          >>=_rule (λ f. Extends c f × (f.wrapped_message ≡ none)) (Extends c)
            (get_transactions lib) _ d
            (
              Extends-trans q.0 (get_transactions-Extends lib d).0,
              (get_transactions-Extends lib d).1 ∙ q.1,
            )
            (λ f t. t.0) λ txs f t. Extends-trans t.0 (keep_messages-Extends _ f t.1)
  messages_of-Extends (some msgs) c e = Extends-refl c

  keep_events-Extends :
      (block : CosmosBlock) (txs : List CosmosTransaction) (c : LazyBlockContent)
      → c.wrapped_event ≡ none
      → Extends c (keep_events lib block txs c).1
  unfolding keep_events
  keep_events-Extends block txs c e = record {
    block = λ x p. p;
    transactions = λ x p. p;
    messages = λ x p. p;
    events = Kept-none _ e;
    begin_events = λ x p. p;
    end_events = λ x p. p;
  }

  pub events_of-Extends :
      (o : Option (List CosmosEvent)) (c : LazyBlockContent)
      → c.wrapped_event ≡ o
      → Extends c (events_of lib o c).1
  unfolding events_of
  events_of-Extends none c e =
      >>=_rule (λ d. Extends c d × SameEvents c d) (Extends c) (get_block lib) _ c
        (get_block-Extends lib c, get_block-SameEvents lib c) (λ d q. q.0)
        λ block d q.
          >>=_rule (λ f. Extends c f × SameEvents c f) (Extends c) (get_transactions lib) _ d
            (
              Extends-trans q.0 (get_transactions-Extends lib d).0,
              SameEvents-trans q.1 (get_transactions-SameEvents lib d),
            )
            (λ f t. t.0)
            λ txs f t. Extends-trans t.0 (keep_events-Extends block txs f (t.1.event ∙ e))
  events_of-Extends (some es) c e = Extends-refl c

  keep_begin_block_events-Extends :
      (block : CosmosBlock) (c : LazyBlockContent)
      → c.wrapped_begin_block_events ≡ none
      → Extends c (keep_begin_block_events lib block c).1
  unfolding keep_begin_block_events
  keep_begin_block_events-Extends block c e = record {
    block = λ x p. p;
    transactions = λ x p. p;
    messages = λ x p. p;
    events = λ x p. p;
    begin_events = Kept-none _ e;
    end_events = λ x p. p;
  }

  keep_end_block_events-Extends :
      (block : CosmosBlock) (c : LazyBlockContent)
      → c.wrapped_end_block_events ≡ none
      → Extends c (keep_end_block_events lib block c).1
  unfolding keep_end_block_events
  keep_end_block_events-Extends block c e = record {
    block = λ x p. p;
    transactions = λ x p. p;
    messages = λ x p. p;
    events = λ x p. p;
    begin_events = λ x p. p;
    end_events = Kept-none _ e;
  }

  pub begin_block_events_of-Extends :
      (o : Option (List CosmosEvent)) (c : LazyBlockContent)
      → c.wrapped_begin_block_events ≡ o
      → Extends c (begin_block_events_of lib o c).1
  unfolding begin_block_events_of
  begin_block_events_of-Extends none c e =
      >>=_rule (λ d. Extends c d × SameEvents c d) (Extends c) (get_block lib) _ c
        (get_block-Extends lib c, get_block-SameEvents lib c) (λ d q. q.0)
        λ block d q. Extends-trans q.0 (keep_begin_block_events-Extends block d (q.1.begin ∙ e))
  begin_block_events_of-Extends (some es) c e = Extends-refl c

  pub end_block_events_of-Extends :
      (o : Option (List CosmosEvent)) (c : LazyBlockContent)
      → c.wrapped_end_block_events ≡ o
      → Extends c (end_block_events_of lib o c).1
  unfolding end_block_events_of
  end_block_events_of-Extends none c e =
      >>=_rule (λ d. Extends c d × SameEvents c d) (Extends c) (get_block lib) _ c
        (get_block-Extends lib c, get_block-SameEvents lib c) (λ d q. q.0)
        λ block d q. Extends-trans q.0 (keep_end_block_events-Extends block d (q.1.end ∙ e))
  end_block_events_of-Extends (some es) c e = Extends-refl c
