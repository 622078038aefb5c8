-- ===== src/Indexer/BlockPlan.antt =====
-- The calls for one block as a list, and the indexer's loops and filters over lists.
use subql_cosmos.Base.{
  ◌≡◌, refl, ap, ◌∙◌, Bool, true, false, ◌&&◌, any, Bool-cases, inl, inr, none, some, List, [], ◌∷◌,
  ◌++◌, map, ◌==◌, nat_strict, text_strict, All, if◌then◌else◌, Result, ok,
}
use mathlib.Core.Path.{fun_ext}
use subql_cosmos.Chain.{CosmosBlock, CosmosTransaction, CosmosMessage, CosmosEvent}
use subql_cosmos.Content.Transactions.{HasTx}
use subql_cosmos.Filter.Select.{filter_result}
use subql_cosmos.Indexer.{
  Input, block_input, transaction_input, message_input, event_input, Action, next, seq, for_each,
  is_message_of, has_idx, is_event_of,
}
use subql_cosmos.Indexer.Plan.{for_each-append}

abbrev pub select : {A : Type 0} → (A → Bool) → List A → List A
select p [] = []
select p (x ∷ xs) = if p x then x ∷ select p xs else select p xs

abbrev pub concat_map : {A B : Type 0} → (A → List B) → List A → List B
concat_map f [] = []
concat_map f (x ∷ xs) = f x ++ concat_map f xs

-- The event is one of a message of a transaction.
abbrev pub belongs : CosmosTransaction → CosmosMessage → CosmosEvent → Bool
belongs tx msg event = elim event.tx [
  | none ↦ false
  | some t ↦ t.hash == tx.hash && has_idx msg.idx event.msg
]

abbrev pub message_plan : List CosmosEvent → CosmosTransaction → CosmosMessage → List Input
message_plan events tx msg = message_input msg ∷ map event_input (select (belongs tx msg) events)

abbrev pub transaction_plan : List CosmosMessage → List CosmosEvent → CosmosTransaction → List Input
transaction_plan msgs events tx =
    transaction_input tx
    ∷ concat_map (message_plan events tx) (select (λ msg. msg.tx.hash == tx.hash) msgs)

-- The block's messages have one of the transaction.
abbrev pub has_message : List CosmosMessage → CosmosTransaction → Bool
has_message msgs tx = any (λ msg. msg.tx.hash == tx.hash) msgs

pub any-select :
    {A : Type 0} (p : A → Bool) (xs : List A) → any (λ x. true) (select p xs) ≡ any p xs
any-select p [] = refl
any-select p (x ∷ xs) = elim (Bool-cases (p x)) [
  | inl t ↦ rw t refl
  | inr f ↦ rw f (any-select p xs)
]

-- The block, its begin events, each transaction followed by its messages, each message followed by
-- its events, and the end events.
abbrev pub block_plan :
    CosmosBlock
    → List CosmosEvent
    → List CosmosTransaction
    → List CosmosMessage
    → List CosmosEvent
    → List CosmosEvent
    → List Input
block_plan block begins txs msgs events ends =
    ((block_input block ∷ map event_input begins) ++ concat_map (transaction_plan msgs events) txs)
    ++ map event_input ends

pub filter_result-select :
    {A : Type 0} (r : A → Result Bool) (p : A → Bool) (xs : List A)
    → All (λ x. r x ≡ ok (p x)) xs
    → filter_result r xs ≡ ok (select p xs)
unfolding filter_result
filter_result-select r p [] h = refl
filter_result-select r p (x ∷ xs) (e, h) = rw e (rw (filter_result-select r p xs h) refl)

module _ {St : Type 0} {A B : Type 0} where
  pub for_each-map :
      (f : B → Action St) (h : A → B) (xs : List A) (st : St)
      → for_each f (map h xs) st ≡ for_each (λ x. f (h x)) xs st
  unfolding for_each
  for_each-map f h [] st = refl
  for_each-map f h (x ∷ xs) st =
      ap (λ k. next (f (h x) st).0 k (f (h x) st).1) (fun_ext (for_each-map f h xs))

  pub for_each-concat_map :
      (f : B → Action St) (p : A → List B) (xs : List A) (st : St)
      → for_each f (concat_map p xs) st ≡ for_each (λ x. for_each f (p x)) xs st
  unfolding for_each seq
  for_each-concat_map f p [] st = refl
  for_each-concat_map f p (x ∷ xs) st =
      for_each-append f (p x) (concat_map p xs) st
      ∙ ap (λ k. next (for_each f (p x) st).0 k (for_each f (p x) st).1)
          (fun_ext (for_each-concat_map f p xs))

pub is_event_of-belongs :
    (tx : CosmosTransaction) (msg : CosmosMessage) (events : List CosmosEvent)
    → All HasTx events
    → All (λ event. is_event_of tx msg event ≡ ok (belongs tx msg event)) events
unfolding is_event_of
is_event_of-belongs tx msg [] h = tt
is_event_of-belongs tx msg (event ∷ events) ((t, e), h) =
    (rw e refl, is_event_of-belongs tx msg events h)

pub is_message_of-All :
    (tx : CosmosTransaction) (msgs : List CosmosMessage)
    → All (λ msg. is_message_of tx msg ≡ ok (msg.tx.hash == tx.hash)) msgs
unfolding is_message_of
is_message_of-All tx [] = tt
is_message_of-All tx (msg ∷ msgs) = (refl, is_message_of-All tx msgs)
