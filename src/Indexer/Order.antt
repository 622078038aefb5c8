-- ===== src/Indexer/Order.antt =====
-- The handlers see a block's data in one order, whatever the getters have stored.
use subql_cosmos.Base.{
  Bool, true, false, ◌||◌, any, if◌then◌else◌, ◌+◌, ◌≡◌, refl, ap, sym, subst, ◌∙◌, List, ◌∷◌, ◌++◌,
  map, ◌==◌, nat_strict, text_strict, length, Result, ok, err,
}
use mathlib.Core.Path.{fun_ext}
use subql_cosmos.Chain.{
  BlockResponse, BlockResultsResponse, CosmosBlock, CosmosTransaction, CosmosMessage, CosmosEvent,
}
use subql_cosmos.Content.{ChainLib, wrap_tx, wrap_msg, wrap_block_begin_and_end_events}
use subql_cosmos.Content.Transactions.{wrap_event-HasTx}
use subql_cosmos.Content.Lazy.{
  LazyBlockContent, new_content, get_block, get_end_block_events, get_begin_block_events,
  get_transactions, get_messages, get_events,
}
use subql_cosmos.Project.{DataSource}
use subql_cosmos.Indexer.{
  Input, block_input, event_input, Action, next, seq, for_each, reading, is_message_of, is_event_of,
  index_input, index, index_events, index_message, index_transaction, index_block_content,
  index_block_data,
}
use subql_cosmos.Indexer.Plan.{
  seq_assoc, for_each-append, Runs, seq-Runs, for_each-Runs, for_each-Runs-any, or_true,
  on_handlers-Runs, reading-Runs,
}
use subql_cosmos.Indexer.Reads.{
  the_block, the_begin_events, Start, Start-new_content, Begun, get_block-Start,
  get_begin_block_events-Begun,
}
use subql_cosmos.Indexer.Ready.{
  the_events, Ready, get_transactions-Ready, get_messages-Ready, get_events-Ready,
  get_end_block_events-Ready,
}
use subql_cosmos.Indexer.BlockPlan.{
  select, concat_map, belongs, has_message, any-select, message_plan, transaction_plan, block_plan,
  filter_result-select, for_each-map, for_each-concat_map, is_event_of-belongs, is_message_of-All,
}

module _ {S : Type 0} (lib : ChainLib) (index_data : Input → DataSource → Action S)
    (sources : List DataSource) (info : BlockResponse) (res : BlockResultsResponse)
    (txs : List CosmosTransaction) (msgs : List CosmosMessage) where
  -- The handlers' calls of a plan, in order, until one throws.
  abbrev pub run : List Input → Action S
  run = for_each (index_input lib index_data sources)

  abbrev Here : Bool → LazyBlockContent → Type 0
  Here = Ready lib info res txs msgs

  abbrev events : List CosmosEvent
  events = the_events lib info res txs msgs

  index_events-Runs :
      (xs : List CosmosEvent) (K : LazyBlockContent → Type 0)
      → Runs K K (index_events lib index_data sources xs) (run (map event_input xs))
  unfolding index_events index
  index_events-Runs xs K =
      subst (Runs K K (index_events lib index_data sources xs))
        (sym (fun_ext (for_each-map (index_input lib index_data sources) event_input xs)))
        (for_each-Runs K _ _ (λ event. on_handlers-Runs K _) xs)

  index_message-Runs :
      (tx : CosmosTransaction) (read : Bool) (msg : CosmosMessage)
      → Runs
          (Here read)
          (Here true)
          (index_message lib index_data sources tx msg)
          (run (message_plan events tx msg))
  unfolding index_message for_each seq
  index_message-Runs tx read msg =
      seq-Runs (Here read) (Here read) (Here true) _ _ _
        (run (map event_input (select (belongs tx msg) events))) (on_handlers-Runs (Here read) _)
        (reading-Runs (Here read) (Here true) (Here true) (get_events lib) events _ _
          (get_events-Ready lib info res txs msgs read)
          (rw
            (filter_result-select (is_event_of tx msg) (belongs tx msg) events
              (is_event_of-belongs tx msg events (wrap_event-HasTx lib _ txs _)))
            (index_events-Runs (select (belongs tx msg) events) (Here true))))

  module _ (wraps_txs : wrap_tx lib (the_block lib info res) res.results ≡ ok txs)
      (wraps_msgs : wrap_msg lib (the_block lib info res) txs ≡ ok msgs) where
    own_messages-Runs :
        (tx : CosmosTransaction) (read : Bool) (own : List CosmosMessage) {some_own : Bool}
        → any (λ msg. true) own ≡ some_own
        → Runs
            (Here read)
            (Here (read || some_own))
            (for_each (index_message lib index_data sources tx) own)
            (for_each (λ msg. run (message_plan events tx msg)) own)
    own_messages-Runs tx read own e =
        let each = λ (b : Bool) (msg : CosmosMessage).
          subst
            (λ b'.
              Runs (Here b) (Here b') (index_message lib index_data sources tx msg)
                (run (message_plan events tx msg)))
            (sym (or_true b)) (index_message-Runs tx b msg) in
        subst
          (λ b.
            Runs (Here read) (Here (read || b))
              (for_each (index_message lib index_data sources tx) own)
              (for_each (λ msg. run (message_plan events tx msg)) own))
          e (for_each-Runs-any Here (λ msg. true) _ _ each read own)

    index_transaction-Runs :
        (read : Bool) (tx : CosmosTransaction)
        → Runs
            (Here read)
            (Here (read || has_message msgs tx))
            (index_transaction lib index_data sources tx)
            (run (transaction_plan msgs events tx))
    unfolding index_transaction for_each seq
    index_transaction-Runs read tx =
        let own = select (λ msg. msg.tx.hash == tx.hash) msgs in
        let After = Here (read || has_message msgs tx) in
        let each =
          subst (Runs (Here read) After (for_each (index_message lib index_data sources tx) own))
            (sym (
              fun_ext (
                for_each-concat_map (index_input lib index_data sources) (message_plan events tx)
                  own)))
            (own_messages-Runs tx read own (any-select (λ msg. msg.tx.hash == tx.hash) msgs)) in
        seq-Runs (Here read) (Here read) After _ _ _ (run (concat_map (message_plan events tx) own))
          (on_handlers-Runs (Here read) _)
          (reading-Runs (Here read) (Here read) After (get_messages lib) msgs _ _
            (get_messages-Ready lib info res txs msgs read wraps_msgs)
            (rw
              (filter_result-select (is_message_of tx) (λ msg. msg.tx.hash == tx.hash) msgs
                (is_message_of-All tx msgs))
              each))

    abbrev block : CosmosBlock
    block = the_block lib info res

    abbrev begins : List CosmosEvent
    begins = the_begin_events lib info res

    -- Whether a message was handed over, so that the events were read.
    abbrev pub reads_events : Bool
    reads_events = any (has_message msgs) txs

    -- Everything before the end events.
    before_end-Runs :
        Runs
          (Start lib info res)
          (Here reads_events)
          (seq
            (seq
              (index_block_content lib index_data sources)
              (reading (get_begin_block_events lib) (index_events lib index_data sources)))
            (reading
              (get_transactions lib)
              (λ l. for_each (index_transaction lib index_data sources) l)))
          (seq
            (seq
              (index_input lib index_data sources (block_input block))
              (run (map event_input begins)))
            (run (concat_map (transaction_plan msgs events) txs)))
    unfolding index_block_content index_input
    before_end-Runs =
        let Fresh = Start lib info res in
        let Going = Begun lib info res in
        let Done = Here reads_events in
        seq-Runs Fresh Going Done _ _ _ _
          (seq-Runs Fresh Fresh Going _ _ _ _
            (for_each-Runs Fresh _ (index_data (block_input block))
              (λ ds.
                reading-Runs Fresh Fresh Fresh (get_block lib) block _ _
                  (get_block-Start lib info res) (on_handlers-Runs Fresh _))
              sources)
            (reading-Runs Fresh Going Going (get_begin_block_events lib) begins _ _
              (get_begin_block_events-Begun lib info res) (index_events-Runs begins Going)))
          (reading-Runs Going (Here false) Done (get_transactions lib) txs _ _
            (get_transactions-Ready lib info res txs msgs wraps_txs)
            (subst
              (Runs (Here false) Done (for_each (index_transaction lib index_data sources) txs))
              (sym (
                fun_ext (
                  for_each-concat_map (index_input lib index_data sources)
                    (transaction_plan msgs events) txs)))
              (for_each-Runs-any Here (has_message msgs) _ _ index_transaction-Runs false txs)))

    -- The end events, numbered after the begin events, and after the events of the transactions
    -- where some transaction has a message.
    abbrev pub ends : List CosmosEvent
    ends =
        wrap_block_begin_and_end_events lib block res.end_block_events
          (length begins + (if any (has_message msgs) txs then length events else 0))

    -- The end events after what came before.
    end_after :
        (r : Result (Unit {0})) (c : LazyBlockContent) (s : S)
        → (r ≡ ok tt → Here reads_events c)
        → (c' : LazyBlockContent) × (next r
              (reading (get_end_block_events lib) (index_events lib index_data sources))
              (c, s)
            ≡ (
              (next r (run (map event_input ends)) s).0,
              (c', (next r (run (map event_input ends)) s).1),
            ))
    unfolding reading Runs
    end_after (err e) c s here = (c, refl)
    end_after (ok done) c s here =
        let (c', e) = get_end_block_events-Ready lib info res txs msgs reads_events c (here refl) in
        let (c'', h, k) = index_events-Runs ends (λ c. Unit) c' s tt in (c'', rw e h)

    -- The plan's calls before the end events.
    abbrev start : Action S
    start =
        seq
          (seq (index_input lib index_data sources (block_input block))
            (run (map event_input begins)))
          (run (concat_map (transaction_plan msgs events) txs))

    run-block_plan :
        (s : S)
        → run (block_plan block begins txs msgs events ends) s
          ≡ seq start (run (map event_input ends)) s
    unfolding seq for_each
    run-block_plan s =
        let first = block_input block ∷ map event_input begins in
        let middle = concat_map (transaction_plan msgs events) txs in
        for_each-append (index_input lib index_data sources) (first ++ middle)
          (map event_input ends) s
        ∙ ap (λ a. seq a (run (map event_input ends)) s)
            (fun_ext (for_each-append (index_input lib index_data sources) first middle))

    -- The same from a content of which nothing but the block was read.
    pub index_block_data-Start :
        (c₀ : LazyBlockContent) (s : S)
        → Start lib info res c₀
        → (c : LazyBlockContent) × (index_block_data lib index_data sources (c₀, s) ≡ (
          (run (block_plan block begins txs msgs events ends) s).0,
          (c, (run (block_plan block begins txs msgs events ends) s).1),
        ))
    unfolding index_block_data seq Runs
    index_block_data-Start c₀ s fresh =
        let contents = index_block_content lib index_data sources in
        let reads_begin =
          reading (get_begin_block_events lib) (index_events lib index_data sources) in
        let reads_txs =
          reading (get_transactions lib)
            (λ l. for_each (index_transaction lib index_data sources) l) in
        let reads_end = reading (get_end_block_events lib) (index_events lib index_data sources) in
        let w : LazyBlockContent × S = (c₀, s) in
        let (c, e, k) = before_end-Runs c₀ s fresh in
        let (c', h) = end_after (start s).0 c (start s).1 k in
        (
          c',
          seq_assoc contents reads_begin (seq reads_txs reads_end) w
              ∙ seq_assoc (seq contents reads_begin) reads_txs reads_end w
              ∙ ap (λ p. next p.0 reads_end p.1) e
              ∙ h
              ∙ ap (λ p. (p.0, (c', p.1))) (sym (run-block_plan s)),
        )

    -- Where the transactions and the messages of a block can be wrapped, indexing a fresh content
    -- makes the handlers' calls of the block's plan: the same state and the same error come of it.
    -- The end events are numbered after the begin events, and after the events of the transactions
    -- exactly where some transaction of the block has a message.
    pub index_block_data-block_plan :
        (s : S)
        → (c : LazyBlockContent) × (index_block_data lib index_data sources
              (new_content info res, s)
            ≡ (
              (run (block_plan block begins txs msgs events ends) s).0,
              (c, (run (block_plan block begins txs msgs events ends) s).1),
            ))
    index_block_data-block_plan s =
        index_block_data-Start (new_content info res) s (Start-new_content lib info res)
