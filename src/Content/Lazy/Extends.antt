-- ===== src/Content/Lazy/Extends.antt =====
-- The values that a content has stored, and which of them the block and the transactions keep.
use subql_cosmos.Base.{◌≡◌, refl, ◌∙◌, Option, none, some, List, Result, ok, err}
use subql_cosmos.Chain.{CosmosBlock, CosmosTransaction}
use subql_cosmos.Content.{ChainLib, wrap_tx}
use subql_cosmos.Content.Lazy.{
  LazyBlockContent, >>=_rule, block_of, get_block, keep_transactions, transactions_of,
  get_transactions,
}

abbrev pub Kept {ℓ} : {A : Type ℓ} → Option A → Option A → Type ℓ
Kept {A} o p = (x : A) → o ≡ some x → p ≡ some x

-- Every value that `c` has stored is stored in `d`.
pub record Extends (c d : LazyBlockContent) : Type 0 where
  pub block : Kept c.wrapped_block d.wrapped_block
  pub transactions : Kept c.wrapped_transaction d.wrapped_transaction
  pub messages : Kept c.wrapped_message d.wrapped_message
  pub events : Kept c.wrapped_event d.wrapped_event
  pub begin_events : Kept c.wrapped_begin_block_events d.wrapped_begin_block_events
  pub end_events : Kept c.wrapped_end_block_events d.wrapped_end_block_events

pub Extends-refl : (c : LazyBlockContent) → Extends c c
Extends-refl c = record {
  block = λ x e. e;
  transactions = λ x e. e;
  messages = λ x e. e;
  events = λ x e. e;
  begin_events = λ x e. e;
  end_events = λ x e. e;
}

pub Extends-trans : {c d e : LazyBlockContent} → Extends c d → Extends d e → Extends c e
Extends-trans h k = record {
  block = λ x p. k.block x (h.block x p);
  transactions = λ x p. k.transactions x (h.transactions x p);
  messages = λ x p. k.messages x (h.messages x p);
  events = λ x p. k.events x (h.events x p);
  begin_events = λ x p. k.begin_events x (h.begin_events x p);
  end_events = λ x p. k.end_events x (h.end_events x p);
}

-- A value is stored where nothing was.
pub Kept-none {ℓ} : {A : Type ℓ} {o : Option A} (p : Option A) → o ≡ none → Kept o p
Kept-none p e x q = cc

module _ (lib : ChainLib) where
  block_of-Extends :
      (o : Option CosmosBlock) (c : LazyBlockContent)
      → c.wrapped_block ≡ o
      → Extends c (block_of lib o c).1
  unfolding block_of
  block_of-Extends none c e = record {
    block = Kept-none _ e;
    transactions = λ x p. p;
    messages = λ x p. p;
    events = λ x p. p;
    begin_events = λ x p. p;
    end_events = λ x p. p;
  }
  block_of-Extends (some b) c e = Extends-refl c

  pub get_block-Extends : (c : LazyBlockContent) → Extends c (get_block lib c).1
  unfolding get_block
  get_block-Extends c = block_of-Extends c.wrapped_block c refl

  -- The block is stored alone.
  block_of-rest :
      (o : Option CosmosBlock) (c : LazyBlockContent)
      → ((block_of lib o c).1.wrapped_transaction ≡ c.wrapped_transaction)
        × ((block_of lib o c).1.wrapped_message ≡ c.wrapped_message)
  unfolding block_of
  block_of-rest none c = (refl, refl)
  block_of-rest (some b) c = (refl, refl)

  pub get_block-rest :
      (c : LazyBlockContent)
      → ((get_block lib c).1.wrapped_transaction ≡ c.wrapped_transaction)
        × ((get_block lib c).1.wrapped_message ≡ c.wrapped_message)
  unfolding get_block
  get_block-rest c = block_of-rest c.wrapped_block c

  keep_transactions-Extends :
      (r : Result (List CosmosTransaction)) (c : LazyBlockContent)
      → c.wrapped_transaction ≡ none
      → Extends c (keep_transactions lib r c).1
  unfolding keep_transactions
  keep_transactions-Extends (ok txs) c e = record {
    block = λ x p. p;
    transactions = Kept-none _ e;
    messages = λ x p. p;
    events = λ x p. p;
    begin_events = λ x p. p;
    end_events = λ x p. p;
  }
  keep_transactions-Extends (err x) c e = Extends-refl c

  keep_transactions-rest :
      (r : Result (List CosmosTransaction)) (c : LazyBlockContent)
      → (keep_transactions lib r c).1.wrapped_message ≡ c.wrapped_message
  unfolding keep_transactions
  keep_transactions-rest (ok txs) c = refl
  keep_transactions-rest (err x) c = refl

  transactions_of-Extends :
      (o : Option (List CosmosTransaction)) (c : LazyBlockContent)
      → c.wrapped_transaction ≡ o
      → Extends c (transactions_of lib o c).1
        × ((transactions_of lib o c).1.wrapped_message ≡ c.wrapped_message)
  unfolding transactions_of
  transactions_of-Extends none c e =
      >>=_rule
        (λ d.
          Extends c d × (d.wrapped_transaction ≡ none) × (d.wrapped_message ≡ c.wrapped_message))
        (λ d. Extends c d × (d.wrapped_message ≡ c.wrapped_message)) (get_block lib) _ c
        (get_block-Extends c, (get_block-rest c).0 ∙ e, (get_block-rest c).1) (λ d q. (q.0, q.2))
        λ block d q. (
          Extends-trans q.0 (keep_transactions-Extends _ d q.1),
          keep_transactions-rest (wrap_tx lib block c.results.results) d ∙ q.2,
        )
  transactions_of-Extends (some txs) c e = (Extends-refl c, refl)

  pub get_transactions-Extends :
      (c : LazyBlockContent)
      → Extends c (get_transactions lib c).1
        × ((get_transactions lib c).1.wrapped_message ≡ c.wrapped_message)
  unfolding get_transactions
  get_transactions-Extends c = transactions_of-Extends c.wrapped_transaction c refl
