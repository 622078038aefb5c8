-- ===== src/Indexer/Reads.antt =====
-- What the getters give while a block is indexed, in the order in which the indexer reads them.
use subql_cosmos.Base.{
  ◌+◌, ◌≡◌, refl, ap, ◌∙◌, ◌⊎◌, inl, inr, Option, none, some, List, length, ok, arith,
}
use subql_cosmos.Chain.{BlockResponse, BlockResultsResponse, CosmosBlock, CosmosEvent}
use subql_cosmos.Content.{ChainLib, wrap_block, wrap_block_begin_and_end_events}
use subql_cosmos.Content.Lazy.{
  LazyBlockContent, Exec, ◌>>=◌, new_content, block_of, get_block, keep_begin_block_events,
  begin_block_events_of, get_begin_block_events,
}
use subql_cosmos.Indexer.Plan.{Gives}

pub >>=_step :
    {A B : Type 0} (m : Exec A) (f : A → Exec B) (c c' : LazyBlockContent) (a : A)
    → m c ≡ (ok a, c')
    → (m >>= f) c ≡ f a c'
unfolding ◌>>=◌
>>=_step m f c c' a e = rw e refl

module _ (lib : ChainLib) (info : BlockResponse) (res : BlockResultsResponse) where
  abbrev pub the_block : CosmosBlock
  the_block = wrap_block lib info res.results

  abbrev pub the_begin_events : List CosmosEvent
  the_begin_events = wrap_block_begin_and_end_events lib the_block res.begin_block_events 0

  -- Nothing but the block was read.
  pub record Start (c : LazyBlockContent) : Type 0 where
    pub info_kept : c.block_info ≡ info
    pub results_kept : c.results ≡ res
    pub block_read : (c.wrapped_block ≡ some the_block) ⊎ (c.wrapped_block ≡ none)
    pub no_transactions : c.wrapped_transaction ≡ none
    pub no_messages : c.wrapped_message ≡ none
    pub no_events : c.wrapped_event ≡ none
    pub no_begin_events : c.wrapped_begin_block_events ≡ none
    pub no_end_events : c.wrapped_end_block_events ≡ none
    pub idx_zero : c.event_idx ≡ 0

  pub Start-new_content : Start (new_content info res)
  unfolding new_content
  Start-new_content = record {
    info_kept = refl;
    results_kept = refl;
    block_read = inr refl;
    no_transactions = refl;
    no_messages = refl;
    no_events = refl;
    no_begin_events = refl;
    no_end_events = refl;
    idx_zero = refl;
  }

  abbrev Stored : LazyBlockContent → Type 0
  Stored c = Start c × (c.wrapped_block ≡ some the_block)

  get_block-Stored : Gives Start Stored (get_block lib) the_block
  unfolding get_block block_of
  get_block-Stored c start = go c.wrapped_block refl start.block_read
    where
      go :
          (o : Option CosmosBlock)
          → c.wrapped_block ≡ o
          → (o ≡ some the_block) ⊎ (o ≡ none)
          → (c' : LazyBlockContent) × (block_of lib o c ≡ (ok the_block, c')) × Stored c'
      go (some x) e h =
          let same : x ≡ the_block = elim h [ inl p ↦ cc p | inr p ↦ cc p ] in
          (c, ap (λ y. (ok y, c)) same, (start, e ∙ ap some same))
      go none e h =
          let same : wrap_block lib c.block_info c.results.results ≡ the_block =
            rw (start.info_kept, start.results_kept) refl in
          (
            record c { wrapped_block = some the_block },
            ap (λ y. (ok y, record c { wrapped_block = some y })) same,
            (
              record {
                info_kept = start.info_kept;
                results_kept = start.results_kept;
                block_read = inl refl;
                no_transactions = start.no_transactions;
                no_messages = start.no_messages;
                no_events = start.no_events;
                no_begin_events = start.no_begin_events;
                no_end_events = start.no_end_events;
                idx_zero = start.idx_zero;
              },
              refl,
            ),
          )

  pub get_block-Start : Gives Start Start (get_block lib) the_block
  get_block-Start c start = let (c', e, s) = get_block-Stored c start in (c', e, s.0)

  -- The begin events were read too.
  pub record Begun (c : LazyBlockContent) : Type 0 where
    pub begun_results : c.results ≡ res
    pub begun_block : c.wrapped_block ≡ some the_block
    pub begun_transactions : c.wrapped_transaction ≡ none
    pub begun_messages : c.wrapped_message ≡ none
    pub begun_events : c.wrapped_event ≡ none
    pub begun_end_events : c.wrapped_end_block_events ≡ none
    pub begun_idx : c.event_idx ≡ length the_begin_events

  pub get_begin_block_events-Begun : Gives Start Begun (get_begin_block_events lib) the_begin_events
  unfolding get_begin_block_events begin_block_events_of keep_begin_block_events
  get_begin_block_events-Begun c start =
      let (c₁, e, (s, stored)) = get_block-Stored c start in
      let step =
        >>=_step (get_block lib) (λ block. keep_begin_block_events lib block) c c₁ the_block e in
      let value : wrap_block_begin_and_end_events lib the_block c₁.results.begin_block_events
            c₁.event_idx
          ≡ the_begin_events =
        rw (s.results_kept, s.idx_zero) refl in
      (
        record c₁ {
          wrapped_begin_block_events = some the_begin_events;
          event_idx = c₁.event_idx + length the_begin_events;
        },
        ap (λ o. begin_block_events_of lib o c) start.no_begin_events
            ∙ (step
                ∙ ap
                    (λ l. (
                      ok l,
                      record c₁ {
                        wrapped_begin_block_events = some l;
                        event_idx = c₁.event_idx + length l;
                      },
                    ))
                    value),
        record {
          begun_results = s.results_kept;
          begun_block = stored;
          begun_transactions = s.no_transactions;
          begun_messages = s.no_messages;
          begun_events = s.no_events;
          begun_end_events = s.no_end_events;
          begun_idx = omega (arith, s.idx_zero);
        },
      )
