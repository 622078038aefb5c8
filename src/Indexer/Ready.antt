-- ===== src/Indexer/Ready.antt =====
-- What the getters give once a block's transactions were read.
use subql_cosmos.Base.{
  Option, Bool, true, false, if◌then◌else◌, ℕ, ◌+◌, ◌≡◌, refl, ap, sym, subst, ◌∙◌, ◌⊎◌, inl, inr,
  none, some, List, length, ok, arith,
}
use subql_cosmos.Chain.{
  BlockResponse, BlockResultsResponse, CosmosTransaction, CosmosMessage, CosmosEvent,
}
use subql_cosmos.Content.{ChainLib, wrap_tx, wrap_msg, wrap_event, wrap_block_begin_and_end_events}
use subql_cosmos.Content.Lazy.{
  LazyBlockContent, ◌>>=◌, block_of, get_block, keep_transactions, transactions_of,
  get_transactions, keep_messages, messages_of, get_messages, keep_events, events_of, get_events,
  keep_end_block_events, end_block_events_of, get_end_block_events,
}
use subql_cosmos.Indexer.Plan.{Gives}
use subql_cosmos.Indexer.Reads.{>>=_step, the_block, the_begin_events, Begun}

module _ (lib : ChainLib) (info : BlockResponse) (res : BlockResultsResponse)
    (txs : List CosmosTransaction) (msgs : List CosmosMessage) where
  abbrev pub the_events : List CosmosEvent
  the_events = wrap_event lib (the_block lib info res) txs (length (the_begin_events lib info res))

  -- How many events the running index has counted.
  abbrev pub counted : Bool → ℕ
  counted read = length (the_begin_events lib info res) + (if read then length the_events else 0)

  abbrev stored : Bool → Option (List CosmosEvent)
  stored true = some the_events
  stored false = none

  -- The transactions were read, messages may have been, and events were as `read` tells.
  pub record Ready (read : Bool) (c : LazyBlockContent) : Type 0 where
    pub ready_results : c.results ≡ res
    pub ready_block : c.wrapped_block ≡ some (the_block lib info res)
    pub ready_transactions : c.wrapped_transaction ≡ some txs
    pub ready_messages : (c.wrapped_message ≡ some msgs) ⊎ (c.wrapped_message ≡ none)
    pub ready_events : c.wrapped_event ≡ stored read
    pub ready_idx : c.event_idx ≡ counted read
    pub ready_end_events : c.wrapped_end_block_events ≡ none

  block_stored :
      (c : LazyBlockContent)
      → c.wrapped_block ≡ some (the_block lib info res)
      → get_block lib c ≡ (ok (the_block lib info res), c)
  unfolding get_block block_of
  block_stored c e = subst (λ o. block_of lib o c ≡ (ok (the_block lib info res), c)) (sym e) refl

  transactions_stored :
      (c : LazyBlockContent)
      → c.wrapped_transaction ≡ some txs
      → get_transactions lib c ≡ (ok txs, c)
  unfolding get_transactions transactions_of
  transactions_stored c e = subst (λ o. transactions_of lib o c ≡ (ok txs, c)) (sym e) refl

  pub get_transactions-Ready :
      wrap_tx lib (the_block lib info res) res.results ≡ ok txs
      → Gives (Begun lib info res) (Ready false) (get_transactions lib) txs
  unfolding get_transactions transactions_of keep_transactions
  get_transactions-Ready wraps c begun =
      let wrapped : wrap_tx lib (the_block lib info res) c.results.results ≡ ok txs =
        rw begun.begun_results wraps in
      let step =
        >>=_step (get_block lib)
          (λ block. keep_transactions lib (wrap_tx lib block c.results.results)) c c
          (the_block lib info res) (block_stored c begun.begun_block) in
      (
        record c { wrapped_transaction = some txs },
        ap (λ o. transactions_of lib o c) begun.begun_transactions
            ∙ (step ∙ ap (λ r. keep_transactions lib r c) wrapped),
        record {
          ready_results = begun.begun_results;
          ready_block = begun.begun_block;
          ready_transactions = refl;
          ready_messages = inr begun.begun_messages;
          ready_events = begun.begun_events;
          ready_idx = omega (arith, begun.begun_idx);
          ready_end_events = begun.begun_end_events;
        },
      )

  pub get_messages-Ready :
      (read : Bool)
      → wrap_msg lib (the_block lib info res) txs ≡ ok msgs
      → Gives (Ready read) (Ready read) (get_messages lib) msgs
  unfolding get_messages messages_of keep_messages
  get_messages-Ready read wraps c ready = elim ready.ready_messages [
    | inl e ↦ (c, subst (λ o. messages_of lib o c ≡ (ok msgs, c)) (sym e) refl, ready)
    | inr e ↦
        let step =
          >>=_step (get_block lib)
            (λ block. get_transactions lib >>= λ l. keep_messages lib (wrap_msg lib block l)) c c
            (the_block lib info res) (block_stored c ready.ready_block) in
        let step₂ =
          >>=_step (get_transactions lib)
            (λ l. keep_messages lib (wrap_msg lib (the_block lib info res) l)) c c txs
            (transactions_stored c ready.ready_transactions) in
        (
          record c { wrapped_message = some msgs },
          ap (λ o. messages_of lib o c) e ∙ (step ∙ step₂ ∙ ap (λ r. keep_messages lib r c) wraps),
          record {
            ready_results = ready.ready_results;
            ready_block = ready.ready_block;
            ready_transactions = ready.ready_transactions;
            ready_messages = inl refl;
            ready_events = ready.ready_events;
            ready_idx = ready.ready_idx;
            ready_end_events = ready.ready_end_events;
          },
        )
  ]

  pub get_events-Ready : (read : Bool) → Gives (Ready read) (Ready true) (get_events lib) the_events
  unfolding get_events events_of keep_events
  get_events-Ready true c ready =
      (c, subst (λ o. events_of lib o c ≡ (ok the_events, c)) (sym ready.ready_events) refl, ready)
  get_events-Ready false c ready =
      let step =
        >>=_step (get_block lib) (λ block. get_transactions lib >>= λ l. keep_events lib block l) c
          c (the_block lib info res) (block_stored c ready.ready_block) in
      let step₂ =
        >>=_step (get_transactions lib) (λ l. keep_events lib (the_block lib info res) l) c c txs
          (transactions_stored c ready.ready_transactions) in
      let idx : c.event_idx ≡ length (the_begin_events lib info res) =
        omega (arith, ready.ready_idx) in
      let value : wrap_event lib (the_block lib info res) txs c.event_idx ≡ the_events =
        rw idx refl in
      (
        record c { wrapped_event = some the_events; event_idx = c.event_idx + length the_events },
        ap (λ o. events_of lib o c) ready.ready_events
            ∙ (step
                ∙ step₂
                ∙ ap
                    (λ l. (
                      ok l,
                      record c { wrapped_event = some l; event_idx = c.event_idx + length l },
                    ))
                    value),
        record {
          ready_results = ready.ready_results;
          ready_block = ready.ready_block;
          ready_transactions = ready.ready_transactions;
          ready_messages = ready.ready_messages;
          ready_events = refl;
          ready_idx = omega (arith, idx);
          ready_end_events = ready.ready_end_events;
        },
      )

  -- The end events are numbered after the events read so far.
  pub get_end_block_events-Ready :
      (read : Bool) (c : LazyBlockContent)
      → Ready read c
      → (c' : LazyBlockContent) × (get_end_block_events lib c ≡ (
        ok (
            wrap_block_begin_and_end_events lib
              (the_block lib info res)
              res.end_block_events
              (counted read)),
        c',
      ))
  unfolding get_end_block_events end_block_events_of keep_end_block_events
  get_end_block_events-Ready read c ready =
      let ends =
        wrap_block_begin_and_end_events lib (the_block lib info res) c.results.end_block_events
          c.event_idx in
      let step =
        >>=_step (get_block lib) (λ block. keep_end_block_events lib block) c c
          (the_block lib info res) (block_stored c ready.ready_block) in
      let value : ends
          ≡ wrap_block_begin_and_end_events lib (the_block lib info res) res.end_block_events
              (counted read) =
        rw ready.ready_results (rw ready.ready_idx refl) in
      (
        record c { wrapped_end_block_events = some ends; event_idx = c.event_idx + length ends },
        ap (λ o. end_block_events_of lib o c) ready.ready_end_events
            ∙ (step
                ∙ ap
                    (λ l. (
                      ok l,
                      record c {
                        wrapped_end_block_events = some ends;
                        event_idx = c.event_idx + length ends;
                      },
                    ))
                    value),
      )
