-- ===== src/Content/Lazy/Ranges.antt =====
-- Numbered ranges of events that do not meet.
use subql_cosmos.Base.{ℕ, ◌+◌, ◌≤◌, ◌≡◌, ◌⊎◌, Option, none, some, List, [], length}
use subql_cosmos.Chain.{CosmosEvent}
use subql_cosmos.Content.Wrapped.{Numbered}
use subql_cosmos.Content.Lazy.{LazyBlockContent}
use subql_cosmos.Content.Lazy.Same.{SameEvents}

abbrev pub cached : Option (List CosmosEvent) → List CosmosEvent
cached none = []
cached (some es) = es

-- Two ranges of indexes, each given by its start and length, do not meet.
abbrev pub Apart : ℕ → ℕ → ℕ → ℕ → Type 0
Apart a m b n = (a + m ≤ b) ⊎ (b + n ≤ a)

-- The stored event lists are numbered without a gap, in ranges that do not meet, and the running
-- index is the number of all events stored.
pub record IsNumbered (c : LazyBlockContent) : Type 0 where
  pub begin_start : ℕ
  pub event_start : ℕ
  pub end_start : ℕ
  pub begin_numbered : Numbered begin_start (cached c.wrapped_begin_block_events)
  pub event_numbered : Numbered event_start (cached c.wrapped_event)
  pub end_numbered : Numbered end_start (cached c.wrapped_end_block_events)
  pub begin_within : begin_start + length (cached c.wrapped_begin_block_events) ≤ c.event_idx
  pub event_within : event_start + length (cached c.wrapped_event) ≤ c.event_idx
  pub end_within : end_start + length (cached c.wrapped_end_block_events) ≤ c.event_idx
  pub begin_event :
      Apart begin_start
        (length (cached c.wrapped_begin_block_events))
        event_start
        (length (cached c.wrapped_event))
  pub begin_end :
      Apart begin_start
        (length (cached c.wrapped_begin_block_events))
        end_start
        (length (cached c.wrapped_end_block_events))
  pub event_end :
      Apart event_start
        (length (cached c.wrapped_event))
        end_start
        (length (cached c.wrapped_end_block_events))
  pub counted :
      length (cached c.wrapped_begin_block_events)
        + length (cached c.wrapped_event)
        + length (cached c.wrapped_end_block_events)
      ≡ c.event_idx

pub IsNumbered-SameEvents : {c d : LazyBlockContent} → SameEvents c d → IsNumbered c → IsNumbered d
IsNumbered-SameEvents s n = record {
  begin_start = n.begin_start;
  event_start = n.event_start;
  end_start = n.end_start;
  begin_numbered = rw s.begin n.begin_numbered;
  event_numbered = rw s.event n.event_numbered;
  end_numbered = rw s.end n.end_numbered;
  begin_within = rw s.begin (rw s.idx n.begin_within);
  event_within = rw s.event (rw s.idx n.event_within);
  end_within = rw s.end (rw s.idx n.end_within);
  begin_event = rw s.begin (rw s.event n.begin_event);
  begin_end = rw s.begin (rw s.end n.begin_end);
  event_end = rw s.event (rw s.end n.event_end);
  counted = rw s.begin (rw s.event (rw s.end (rw s.idx n.counted)));
}
