-- ===== src/Content/Lazy/Stored.antt =====
-- What a getter has stored is never computed again or replaced.
use subql_cosmos.Base.{◌≡◌, refl, sym, ap, ◌∙◌, Option, none, some, List, [], ◌∷◌, ok}
use subql_cosmos.Chain.{CosmosBlock, CosmosTransaction, CosmosEvent}
use subql_cosmos.Content.{ChainLib, wrap_event}
use subql_cosmos.Content.Lazy.{
  LazyBlockContent, >>=_ok, get_block, get_transactions, keep_events, events_of, get_events, Read,
  perform, perform_all,
}
use subql_cosmos.Content.Lazy.Extends.{
  Extends, Extends-refl, Extends-trans, get_block-Extends, get_transactions-Extends,
}
use subql_cosmos.Content.Lazy.Getters.{
  messages_of-Extends, events_of-Extends, begin_block_events_of-Extends,
  end_block_events_of-Extends,
}

module _ (lib : ChainLib) where
  perform-Extends : (r : Read) (c : LazyBlockContent) → Extends c (perform lib r c)
  unfolding perform
  perform-Extends Read.block c = get_block-Extends lib c
  perform-Extends Read.transactions c = (get_transactions-Extends lib c).0
  perform-Extends Read.messages c = messages_of-Extends lib c.wrapped_message c refl
  perform-Extends Read.events c = events_of-Extends lib c.wrapped_event c refl
  perform-Extends Read.begin_block_events c =
      begin_block_events_of-Extends lib c.wrapped_begin_block_events c refl
  perform-Extends Read.end_block_events c =
      end_block_events_of-Extends lib c.wrapped_end_block_events c refl

  -- No sequence of reads replaces a value that a getter has stored.
  pub perform_all-Extends :
      (rs : List Read) (c : LazyBlockContent) → Extends c (perform_all lib rs c)
  unfolding perform_all
  perform_all-Extends [] c = Extends-refl c
  perform_all-Extends (r ∷ rs) c =
      Extends-trans (perform-Extends r c) (perform_all-Extends rs (perform lib r c))

  stored_by_keep :
      (block : CosmosBlock) (txs : List CosmosTransaction) (c d : LazyBlockContent)
      (es : List CosmosEvent)
      → keep_events lib block txs c ≡ (ok es, d)
      → d.wrapped_event ≡ some es
  unfolding keep_events
  stored_by_keep block txs c d es h =
      let state = ap (λ r. r.1.wrapped_event) h in
      let value : wrap_event lib block txs c.event_idx ≡ es = cc (ap (λ r. r.0) h) in
      sym state ∙ ap some value

  stored_by_events_of :
      (o : Option (List CosmosEvent)) (c d : LazyBlockContent) (es : List CosmosEvent)
      → c.wrapped_event ≡ o
      → events_of lib o c ≡ (ok es, d)
      → d.wrapped_event ≡ some es
  unfolding events_of
  stored_by_events_of (some fs) c d es e h =
      let same : c.wrapped_event ≡ d.wrapped_event = ap (λ r. r.1.wrapped_event) h in
      let value : fs ≡ es = cc (ap (λ r. r.0) h) in sym same ∙ e ∙ ap some value
  stored_by_events_of none c d es e h =
      let (block, b, p, q) = >>=_ok (get_block lib) _ c d es h in
      let (txs, f, p', q') = >>=_ok (get_transactions lib) _ b d es q in
      stored_by_keep block txs f d es q'

  get_events_again_of :
      (o : Option (List CosmosEvent)) (c : LazyBlockContent) (es : List CosmosEvent)
      → o ≡ some es
      → events_of lib o c ≡ (ok es, c)
  unfolding events_of
  get_events_again_of none c es e = cc
  get_events_again_of (some fs) c es e = cc

  -- Once `events` has returned a list, every later read of it returns that list and changes
  -- nothing, whatever other getters were read between.
  pub get_events_again :
      (c d : LazyBlockContent) (es : List CosmosEvent) (rs : List Read)
      → get_events lib c ≡ (ok es, d)
      → get_events lib (perform_all lib rs d) ≡ (ok es, perform_all lib rs d)
  unfolding get_events
  get_events_again c d es rs h =
      get_events_again_of _ (perform_all lib rs d) es
        ((perform_all-Extends rs d).events es (stored_by_events_of c.wrapped_event c d es refl h))
