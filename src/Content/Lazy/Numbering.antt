-- ===== src/Content/Lazy/Numbering.antt =====
-- The event indexes of a block over any sequence of reads of its getters.
use subql_cosmos.Base.{
  ◌+◌, ◌≡◌, ◌∙◌, refl, inl, inr, Option, none, some, List, [], ◌∷◌, length, arith,
}
use subql_cosmos.Chain.{
  CosmosBlock, CosmosTransaction, CosmosEvent, BlockResponse, BlockResultsResponse,
}
use subql_cosmos.Content.{ChainLib}
use subql_cosmos.Content.Wrapped.{wrap_event-Numbered, wrap_block_begin_and_end_events-Numbered}
use subql_cosmos.Content.Lazy.{
  LazyBlockContent, new_content, >>=_rule, get_block, get_transactions, keep_events, events_of,
  keep_begin_block_events, begin_block_events_of, keep_end_block_events, end_block_events_of, Read,
  perform, perform_all,
}
use subql_cosmos.Content.Lazy.Same.{
  SameEvents, SameEvents-trans, get_block-SameEvents, get_transactions-SameEvents,
  messages_of-SameEvents,
}
use subql_cosmos.Content.Lazy.Ranges.{cached, IsNumbered, IsNumbered-SameEvents}

module _ (lib : ChainLib) where
  keep_events-IsNumbered :
      (block : CosmosBlock) (txs : List CosmosTransaction) (c : LazyBlockContent)
      → IsNumbered c
      → c.wrapped_event ≡ none
      → IsNumbered (keep_events lib block txs c).1
  unfolding keep_events
  keep_events-IsNumbered block txs c n e =
      let counts : length (cached c.wrapped_begin_block_events)
            + 0
            + length (cached c.wrapped_end_block_events)
          ≡ c.event_idx =
        rw e at n.counted in
      record {
        begin_start = n.begin_start;
        event_start = c.event_idx;
        end_start = n.end_start;
        begin_numbered = n.begin_numbered;
        event_numbered = wrap_event-Numbered lib block txs c.event_idx;
        end_numbered = n.end_numbered;
        begin_within = omega (arith, n.begin_within);
        event_within = omega arith;
        end_within = omega (arith, n.end_within);
        begin_event = inl n.begin_within;
        begin_end = n.begin_end;
        event_end = inr n.end_within;
        counted = omega (arith, counts);
      }

  keep_begin_block_events-IsNumbered :
      (block : CosmosBlock) (c : LazyBlockContent)
      → IsNumbered c
      → c.wrapped_begin_block_events ≡ none
      → IsNumbered (keep_begin_block_events lib block c).1
  unfolding keep_begin_block_events
  keep_begin_block_events-IsNumbered block c n e =
      let counts : 0 + length (cached c.wrapped_event) + length (cached c.wrapped_end_block_events)
          ≡ c.event_idx =
        rw e at n.counted in
      record {
        begin_start = c.event_idx;
        event_start = n.event_start;
        end_start = n.end_start;
        begin_numbered =
            wrap_block_begin_and_end_events-Numbered lib block c.results.begin_block_events
              c.event_idx;
        event_numbered = n.event_numbered;
        end_numbered = n.end_numbered;
        begin_within = omega arith;
        event_within = omega (arith, n.event_within);
        end_within = omega (arith, n.end_within);
        begin_event = inr n.event_within;
        begin_end = inr n.end_within;
        event_end = n.event_end;
        counted = omega (arith, counts);
      }

  keep_end_block_events-IsNumbered :
      (block : CosmosBlock) (c : LazyBlockContent)
      → IsNumbered c
      → c.wrapped_end_block_events ≡ none
      → IsNumbered (keep_end_block_events lib block c).1
  unfolding keep_end_block_events
  keep_end_block_events-IsNumbered block c n e =
      let counts : length (cached c.wrapped_begin_block_events)
            + length (cached c.wrapped_event)
            + 0
          ≡ c.event_idx =
        rw e at n.counted in
      record {
        begin_start = n.begin_start;
        event_start = n.event_start;
        end_start = c.event_idx;
        begin_numbered = n.begin_numbered;
        event_numbered = n.event_numbered;
        end_numbered =
            wrap_block_begin_and_end_events-Numbered lib block c.results.end_block_events
              c.event_idx;
        begin_within = omega (arith, n.begin_within);
        event_within = omega (arith, n.event_within);
        end_within = omega arith;
        begin_event = n.begin_event;
        begin_end = inl n.begin_within;
        event_end = inl n.event_within;
        counted = omega (arith, counts);
      }

  events_of-IsNumbered :
      (o : Option (List CosmosEvent)) (c : LazyBlockContent)
      → c.wrapped_event ≡ o
      → IsNumbered c
      → IsNumbered (events_of lib o c).1
  unfolding events_of
  events_of-IsNumbered none c e n =
      >>=_rule (SameEvents c) IsNumbered (get_block lib) _ c (get_block-SameEvents lib c)
        (λ d s. IsNumbered-SameEvents s n)
        λ block d s.
          >>=_rule (SameEvents c) IsNumbered (get_transactions lib) _ d
            (SameEvents-trans s (get_transactions-SameEvents lib d))
            (λ f t. IsNumbered-SameEvents t n)
            λ txs f t. keep_events-IsNumbered block txs f (IsNumbered-SameEvents t n) (t.event ∙ e)
  events_of-IsNumbered (some es) c e n = n

  begin_block_events_of-IsNumbered :
      (o : Option (List CosmosEvent)) (c : LazyBlockContent)
      → c.wrapped_begin_block_events ≡ o
      → IsNumbered c
      → IsNumbered (begin_block_events_of lib o c).1
  unfolding begin_block_events_of
  begin_block_events_of-IsNumbered none c e n =
      >>=_rule (SameEvents c) IsNumbered (get_block lib) _ c (get_block-SameEvents lib c)
        (λ d s. IsNumbered-SameEvents s n)
        λ block d s.
          keep_begin_block_events-IsNumbered block d (IsNumbered-SameEvents s n) (s.begin ∙ e)
  begin_block_events_of-IsNumbered (some es) c e n = n

  end_block_events_of-IsNumbered :
      (o : Option (List CosmosEvent)) (c : LazyBlockContent)
      → c.wrapped_end_block_events ≡ o
      → IsNumbered c
      → IsNumbered (end_block_events_of lib o c).1
  unfolding end_block_events_of
  end_block_events_of-IsNumbered none c e n =
      >>=_rule (SameEvents c) IsNumbered (get_block lib) _ c (get_block-SameEvents lib c)
        (λ d s. IsNumbered-SameEvents s n)
        λ block d s.
          keep_end_block_events-IsNumbered block d (IsNumbered-SameEvents s n) (s.end ∙ e)
  end_block_events_of-IsNumbered (some es) c e n = n

  perform-IsNumbered :
      (r : Read) (c : LazyBlockContent) → IsNumbered c → IsNumbered (perform lib r c)
  unfolding perform
  perform-IsNumbered Read.block c n = IsNumbered-SameEvents (get_block-SameEvents lib c) n
  perform-IsNumbered Read.transactions c n =
      IsNumbered-SameEvents (get_transactions-SameEvents lib c) n
  perform-IsNumbered Read.messages c n =
      IsNumbered-SameEvents (messages_of-SameEvents lib c.wrapped_message c) n
  perform-IsNumbered Read.events c n = events_of-IsNumbered c.wrapped_event c refl n
  perform-IsNumbered Read.begin_block_events c n =
      begin_block_events_of-IsNumbered c.wrapped_begin_block_events c refl n
  perform-IsNumbered Read.end_block_events c n =
      end_block_events_of-IsNumbered c.wrapped_end_block_events c refl n

  perform_all-IsNumbered :
      (rs : List Read) (c : LazyBlockContent) → IsNumbered c → IsNumbered (perform_all lib rs c)
  unfolding perform_all
  perform_all-IsNumbered [] c n = n
  perform_all-IsNumbered (r ∷ rs) c n =
      perform_all-IsNumbered rs (perform lib r c) (perform-IsNumbered r c n)

  -- Whatever getters of a fresh content are read and in whatever order, with reads that throw
  -- among them, the events of the three lists have different indexes, without a gap in each list,
  -- and the running index is the number of the events.
  pub perform_all-new_content :
      (block_info : BlockResponse) (results : BlockResultsResponse) (rs : List Read)
      → IsNumbered (perform_all lib rs (new_content block_info results))
  unfolding new_content
  perform_all-new_content block_info results rs =
      perform_all-IsNumbered rs (new_content block_info results) (record {
        begin_start = 0;
        event_start = 0;
        end_start = 0;
        begin_numbered = tt;
        event_numbered = tt;
        end_numbered = tt;
        begin_within = omega arith;
        event_within = omega arith;
        end_within = omega arith;
        begin_event = inl (omega arith);
        begin_end = inl (omega arith);
        event_end = inl (omega arith);
        counted = refl;
      })
