-- ===== src/Content/Transactions.antt =====
-- The events of transaction logs keep their transaction.
use subql_cosmos.Base.{ℕ, ◌≡◌, refl, Option, some, List, [], ◌∷◌, ◌++◌, All}
use subql_cosmos.Chain.{CosmosBlock, CosmosTransaction, CosmosMessage, CosmosEvent, Event, Log}
use subql_cosmos.Content.{ChainLib, wrap_log, wrap_logs, logs_of, wrap_event}

-- The event has a transaction.
abbrev pub HasTx : CosmosEvent → Type 0
HasTx event = (tx : CosmosTransaction) × (event.tx ≡ some tx)

module _ (lib : ChainLib) where
  All-append :
      (P : CosmosEvent → Type 0) (xs ys : List CosmosEvent) → All P xs → All P ys → All P (xs ++ ys)
  All-append P [] ys p q = q
  All-append P (x ∷ xs) ys (p, ps) q = (p, All-append P xs ys ps q)

  wrap_log-HasTx :
      (block : CosmosBlock) (tx : CosmosTransaction) (log : Log) (msg : Option CosmosMessage)
      (events : List Event) (n : ℕ)
      → All HasTx (wrap_log lib block tx log msg events n)
  unfolding wrap_log
  wrap_log-HasTx block tx log msg [] n = tt
  wrap_log-HasTx block tx log msg (event ∷ events) n =
      ((tx, refl), wrap_log-HasTx block tx log msg events _)

  wrap_logs-HasTx :
      (block : CosmosBlock) (tx : CosmosTransaction) (logs : List Log) (n : ℕ)
      → All HasTx (wrap_logs lib block tx logs n)
  unfolding wrap_logs
  wrap_logs-HasTx block tx [] n = tt
  wrap_logs-HasTx block tx (log ∷ logs) n =
      All-append HasTx _ _ (wrap_log-HasTx block tx log _ log.events n)
        (wrap_logs-HasTx block tx logs _)

  pub wrap_event-HasTx :
      (block : CosmosBlock) (txs : List CosmosTransaction) (n : ℕ)
      → All HasTx (wrap_event lib block txs n)
  unfolding wrap_event
  wrap_event-HasTx block [] n = tt
  wrap_event-HasTx block (tx ∷ txs) n =
      All-append HasTx _ _ (wrap_logs-HasTx block tx (logs_of lib tx) n)
        (wrap_event-HasTx block txs _)
