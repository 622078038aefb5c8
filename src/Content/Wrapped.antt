-- ===== src/Content/Wrapped.antt =====
-- What the wrappers return: the numbering of events, and the shape of transactions and messages.
use subql_cosmos.Base.{ℕ, suc, ◌+◌, ◌≡◌, refl, ap, Option, List, [], ◌∷◌, ◌++◌, length, arith}
use subql_cosmos.Chain.{
  RawEvent, Event, Log, CosmosBlock, CosmosTransaction, CosmosMessage, CosmosEvent,
}
use subql_cosmos.Content.{
  ChainLib, wrap_block_begin_and_end_events, wrap_log, wrap_logs, logs_of, wrap_event, some_or_null,
  wrap_cosmos_msg,
}

-- The events carry the indexes n, n + 1, and so on.
abbrev pub Numbered : ℕ → List CosmosEvent → Type 0
Numbered n [] = Unit
Numbered n (e ∷ es) = (e.idx ≡ n) × Numbered (suc n) es

pub Numbered-append :
    (n : ℕ) (xs ys : List CosmosEvent)
    → Numbered n xs
    → Numbered (n + length xs) ys
    → Numbered n (xs ++ ys)
Numbered-append n [] ys h k = let e : n + 0 ≡ n = omega arith in rw e at k
Numbered-append n (x ∷ xs) ys (h, hs) k =
    let e : n + suc (length xs) ≡ suc n + length xs = omega arith in
    (h, Numbered-append (suc n) xs ys hs (rw e at k))

module _ (lib : ChainLib) where
  pub wrap_block_begin_and_end_events-Numbered :
      (block : CosmosBlock) (events : List RawEvent) (n : ℕ)
      → Numbered n (wrap_block_begin_and_end_events lib block events n)
  unfolding wrap_block_begin_and_end_events
  wrap_block_begin_and_end_events-Numbered block [] n = tt
  wrap_block_begin_and_end_events-Numbered block (e ∷ es) n =
      (refl, wrap_block_begin_and_end_events-Numbered block es (suc n))

  wrap_log-Numbered :
      (block : CosmosBlock) (tx : CosmosTransaction) (log : Log) (msg : Option CosmosMessage)
      (events : List Event) (n : ℕ)
      → Numbered n (wrap_log lib block tx log msg events n)
  unfolding wrap_log
  wrap_log-Numbered block tx log msg [] n = tt
  wrap_log-Numbered block tx log msg (e ∷ es) n =
      (refl, wrap_log-Numbered block tx log msg es (suc n))

  length-wrap_log :
      (block : CosmosBlock) (tx : CosmosTransaction) (log : Log) (msg : Option CosmosMessage)
      (events : List Event) (n : ℕ)
      → length (wrap_log lib block tx log msg events n) ≡ length events
  unfolding wrap_log
  length-wrap_log block tx log msg [] n = refl
  length-wrap_log block tx log msg (e ∷ es) n = ap suc (length-wrap_log block tx log msg es (suc n))

  wrap_logs-Numbered :
      (block : CosmosBlock) (tx : CosmosTransaction) (logs : List Log) (n : ℕ)
      → Numbered n (wrap_logs lib block tx logs n)
  unfolding wrap_logs
  wrap_logs-Numbered block tx [] n = tt
  wrap_logs-Numbered block tx (log ∷ logs) n =
      let msg = some_or_null (wrap_cosmos_msg lib block tx log.msg_index) in
      Numbered-append n (wrap_log lib block tx log msg log.events n) _
        (wrap_log-Numbered block tx log msg log.events n)
        (rw length-wrap_log (wrap_logs-Numbered block tx logs (n + length log.events)))

  pub wrap_event-Numbered :
      (block : CosmosBlock) (txs : List CosmosTransaction) (n : ℕ)
      → Numbered n (wrap_event lib block txs n)
  unfolding wrap_event
  wrap_event-Numbered block [] n = tt
  wrap_event-Numbered block (tx ∷ txs) n =
      let events = wrap_logs lib block tx (logs_of lib tx) n in
      Numbered-append n events _ (wrap_logs-Numbered block tx (logs_of lib tx) n)
        (wrap_event-Numbered block txs (n + length events))
