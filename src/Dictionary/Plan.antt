-- ===== src/Dictionary/Plan.antt =====
-- The query for runtime data sources as one plan over all their handlers.
use subql_cosmos.Base.{
  ◌≡◌, refl, ap, sym, ◌∙◌, Bool, true, false, not, ◌||◌, Option, none, some, List, [], ◌∷◌, ◌++◌,
  any, Bool-cases, Option-cases, inl, inr, arith, if◌then◌else◌, ok, All,
}
use mathlib.Core.List.{append_assoc, append-nil}
use subql_cosmos.Project.{
  CosmosHandlerKind, block, transaction, message, event, Handler, HandlerFilter, DataSource,
  is_present, is_custom_cosmos_ds, is_runtime_cosmos_ds, is_base_handler, parse_kind,
}
use subql_cosmos.Project.Kinds.{is_base_handler_lem}
use subql_cosmos.Dictionary.{
  QueryEntry, DictionaryLib, message_filter_to_query_entry, event_filter_to_query_entry,
  get_base_handler_kind, typed_entries, kind_entries, filter_list_entries, handler_entries, present,
  over_handlers, plugin_of, over_sources, entry_key, build_dictionary_query_entries,
}

-- Whether a filter of a kind leaves every block to be read.
abbrev pub filter_needs_scan : Option CosmosHandlerKind → HandlerFilter → Bool
filter_needs_scan (some block) filter = not (is_present filter.modulo)
filter_needs_scan (some message) filter = not (is_present filter.type)
filter_needs_scan (some event) filter = not (is_present filter.type)
filter_needs_scan _ filter = false

abbrev pub needs_scan : Handler → Bool
needs_scan handler = elim handler.filter [
  | none ↦ true
  | some filter ↦ filter_needs_scan (parse_kind handler.kind) filter
]

-- The handlers of all data sources, in order.
abbrev pub all_handlers : List DataSource → List Handler
all_handlers [] = []
all_handlers (ds ∷ sources) = ds.handlers ++ all_handlers sources

module _ (lib : DictionaryLib) where
  abbrev pub filter_query : Option CosmosHandlerKind → HandlerFilter → List QueryEntry
  filter_query (some message) filter = message_filter_to_query_entry lib filter.message_query ∷ []
  filter_query (some event) filter = event_filter_to_query_entry lib filter ∷ []
  filter_query _ filter = []

  -- The entry that a handler asks for.
  abbrev pub handler_query : Handler → List QueryEntry
  handler_query handler = elim handler.filter [
    | none ↦ []
    | some filter ↦ filter_query (parse_kind handler.kind) filter
  ]

  abbrev pub handler_queries : List Handler → List QueryEntry
  handler_queries [] = []
  handler_queries (handler ∷ handlers) = handler_query handler ++ handler_queries handlers

  typed_entries_one :
      (entry : HandlerFilter → QueryEntry) (filter : HandlerFilter)
      → typed_entries lib entry (filter ∷ [])
        ≡ (if not (is_present filter.type) then none else some (entry filter ∷ []))
  unfolding typed_entries
  typed_entries_one entry filter = elim (Option-cases filter.type) [
    | inl e ↦ rw e refl
    | inr (t, e) ↦ simp e
  ]

  kind_entries_one :
      (kind : Option CosmosHandlerKind) (filter : HandlerFilter)
      → kind_entries lib kind (filter ∷ [])
        ≡ (if filter_needs_scan kind filter then none else some (filter_query kind filter))
  unfolding kind_entries typed_entries
  kind_entries_one none filter = refl
  kind_entries_one (some transaction) filter = refl
  kind_entries_one (some block) filter = ground arith
  kind_entries_one (some message) filter =
      typed_entries_one (λ f. message_filter_to_query_entry lib f.message_query) filter
  kind_entries_one (some event) filter = typed_entries_one (event_filter_to_query_entry lib) filter

  filter_list_entries_one :
      (handler : Handler)
      → filter_list_entries lib (parse_kind handler.kind) (handler.filter ∷ [])
        ≡ (if needs_scan handler then none else some (handler_query handler))
  unfolding filter_list_entries present
  filter_list_entries_one handler = elim (Option-cases handler.filter) [
    | inl e ↦ rw e refl
    | inr (filter, e) ↦ rw e (kind_entries_one (parse_kind handler.kind) filter)
  ]

  -- A runtime data source is not a custom one.
  runtime_not_custom :
      (ds : DataSource) → is_runtime_cosmos_ds ds ≡ true → is_custom_cosmos_ds ds ≡ false
  unfolding is_runtime_cosmos_ds is_custom_cosmos_ds
  runtime_not_custom ds runtime = rw runtime refl

  base_kind_runtime :
      (ds : DataSource) (handler : Handler)
      → is_runtime_cosmos_ds ds ≡ true
      → get_base_handler_kind lib ds handler ≡ ok (parse_kind handler.kind)
  unfolding get_base_handler_kind
  base_kind_runtime ds handler runtime =
      let known = is_base_handler_lem handler in
      elim (Option-cases (parse_kind handler.kind)) [
        | inl e ↦
            let f : is_base_handler handler ≡ false = rw e at known in
            rw runtime (rw f (ap ok (sym e)))
        | inr (k, e) ↦
            let t : is_base_handler handler ≡ true = rw e at known in rw runtime (rw t refl)
      ]

  handler_entries_runtime :
      (ds : DataSource) (handler : Handler)
      → is_runtime_cosmos_ds ds ≡ true
      → handler_entries lib none ds handler
        ≡ ok (if needs_scan handler then none else some (handler_query handler))
  unfolding handler_entries
  handler_entries_runtime ds handler runtime =
      rw (base_kind_runtime ds handler runtime)
        (rw (runtime_not_custom ds runtime) (ap ok (filter_list_entries_one handler)))

  -- What is pushed after the handlers; `none` where one of them needs a full scan.
  abbrev pub pushed_by : List Handler → List QueryEntry → Option (List QueryEntry)
  pushed_by handlers pushed =
      if any needs_scan handlers then none else some (pushed ++ handler_queries handlers)

  over_handlers_runtime :
      (ds : DataSource)
      → is_runtime_cosmos_ds ds ≡ true
      → (handlers : List Handler) (pushed : List QueryEntry)
      → over_handlers lib none ds handlers pushed ≡ ok (pushed_by handlers pushed)
  unfolding over_handlers
  over_handlers_runtime ds runtime [] pushed = ap (λ l. ok (some l)) (sym (append-nil pushed))
  over_handlers_runtime ds runtime (handler ∷ handlers) pushed =
      rw (handler_entries_runtime ds handler runtime) (elim (Bool-cases (needs_scan handler)) [
        | inl t ↦ rw t refl
        | inr f ↦ rw f (
            over_handlers_runtime ds runtime handlers (pushed ++ handler_query handler)
            ∙ ap (λ l. ok (if any needs_scan handlers then none else some l))
                (append_assoc pushed (handler_query handler) (handler_queries handlers)))
      ])

  pub any-append :
      (xs ys : List Handler) → any needs_scan (xs ++ ys) ≡ (any needs_scan xs || any needs_scan ys)
  any-append [] ys = refl
  any-append (handler ∷ xs) ys = ground (arith, any-append xs ys)

  pub handler_queries-append :
      (xs ys : List Handler) → handler_queries (xs ++ ys) ≡ handler_queries xs ++ handler_queries ys
  handler_queries-append [] ys = refl
  handler_queries-append (handler ∷ xs) ys =
      ap (λ l. handler_query handler ++ l) (handler_queries-append xs ys)
      ∙ sym (append_assoc (handler_query handler) (handler_queries xs) (handler_queries ys))

  over_sources_runtime :
      (sources : List DataSource) (pushed : List QueryEntry)
      → All (λ ds. is_runtime_cosmos_ds ds ≡ true) sources
      → over_sources lib sources pushed ≡ ok (pushed_by (all_handlers sources) pushed)
  unfolding over_sources plugin_of
  over_sources_runtime [] pushed runtime = ap (λ l. ok (some l)) (sym (append-nil pushed))
  over_sources_runtime (ds ∷ sources) pushed (runtime, others) =
      rw (runtime_not_custom ds runtime) (
        rw (over_handlers_runtime ds runtime ds.handlers pushed) (
          rw (any-append ds.handlers (all_handlers sources))
            (elim (Bool-cases (any needs_scan ds.handlers)) [
              | inl t ↦ rw t refl
              | inr f ↦
                  let queries = handler_queries ds.handlers in
                  rw f (
                    over_sources_runtime sources (pushed ++ queries) others
                    ∙ ap (λ l. ok (if any needs_scan (all_handlers sources) then none else some l))
                        (append_assoc pushed queries (handler_queries (all_handlers sources))
                          ∙ ap (λ l. pushed ++ l)
                              (sym (handler_queries-append ds.handlers (all_handlers sources)))))
            ])))

  -- For runtime data sources the query is empty where a handler needs a full scan: it has no
  -- filter, or filters blocks without a modulo, or messages or events without a type. Otherwise it
  -- is what `uniqBy` makes of the entries of all handlers in order.
  pub build_runtime :
      (sources : List DataSource)
      → All (λ ds. is_runtime_cosmos_ds ds ≡ true) sources
      → build_dictionary_query_entries lib sources
        ≡ ok (
            if any needs_scan (all_handlers sources)
            then []
            else lib.uniq_by (entry_key lib) (handler_queries (all_handlers sources)))
  unfolding build_dictionary_query_entries
  build_runtime sources runtime =
      rw (over_sources_runtime sources [] runtime)
        (elim (Bool-cases (any needs_scan (all_handlers sources))) [
          | inl t ↦ rw t refl
          | inr f ↦ rw f refl
        ])
