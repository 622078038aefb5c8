-- ===== src/Project/Kinds.antt =====
-- The tests on kinds agree with one another.
use subql_cosmos.Base.{
  String, ◌≡◌, refl, ◌↔◌, true, false, not, ◌&&◌, some, ◌==◌, text_strict, arith, eq_iff,
}
use subql_cosmos.Project.{
  CosmosHandlerKind, block, transaction, message, event, kind_text, Handler, DataSource,
  is_custom_cosmos_ds, is_runtime_cosmos_ds, is_base_handler, parse_kind, is_present,
}

-- A data source is not both a runtime and a custom one; with a processor it is one of them.
pub runtime_or_custom :
    (ds : DataSource) (file : String)
    → ((is_custom_cosmos_ds ds && is_runtime_cosmos_ds ds) ≡ false)
      × (ds.processor ≡ some file → is_custom_cosmos_ds ds ≡ not (is_runtime_cosmos_ds ds))
unfolding is_custom_cosmos_ds is_runtime_cosmos_ds
runtime_or_custom ds file = ground arith

flip : (s t : String) → (t == s) ≡ (s == t)
flip s t = ground (arith, eq_iff s t, eq_iff t s)

-- What each test on a text says.
abbrev Tells : String → String → Type 0
Tells s t = ((s == t) ≡ true) ↔ (s ≡ t)

abbrev texts :
    (s : String)
    → Tells s "cosmos/BlockHandler"
      × Tells s "cosmos/TransactionHandler"
      × Tells s "cosmos/MessageHandler"
      × Tells s "cosmos/EventHandler"
texts s = (eq_iff s _, eq_iff s _, eq_iff s _, eq_iff s _)

parse_kind-kind_text : (k : CosmosHandlerKind) → parse_kind (kind_text k) ≡ some k
unfolding parse_kind
parse_kind-kind_text block = refl
parse_kind-kind_text transaction = refl
parse_kind-kind_text message = refl
parse_kind-kind_text event = refl

parse_kind_sound : (s : String) (k : CosmosHandlerKind) → parse_kind s ≡ some k → s ≡ kind_text k
unfolding parse_kind
parse_kind_sound s block h = ground (arith, texts s)
parse_kind_sound s transaction h = ground (arith, texts s)
parse_kind_sound s message h = ground (arith, texts s)
parse_kind_sound s event h = ground (arith, texts s)

-- The texts of the kinds are read back, and no other text is a kind.
pub parse_kind_iff :
    (s : String) (k : CosmosHandlerKind) → (parse_kind s ≡ some k) ↔ (s ≡ kind_text k)
parse_kind_iff s k = (parse_kind_sound s k, λ e. rw e (parse_kind-kind_text k))

-- A handler is a base handler exactly where its kind is one of the four.
pub is_base_handler_lem : (h : Handler) → is_base_handler h ≡ is_present (parse_kind h.kind)
unfolding is_base_handler parse_kind
is_base_handler_lem h = ground (
  arith,
  flip h.kind "cosmos/BlockHandler",
  flip h.kind "cosmos/TransactionHandler",
  flip h.kind "cosmos/MessageHandler",
  flip h.kind "cosmos/EventHandler",
)
