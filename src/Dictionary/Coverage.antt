-- ===== src/Dictionary/Coverage.antt =====
-- Which blocks the dictionary query finds, against the handlers of the data sources.
use subql_cosmos.Base.{
  String, ◌≡◌, refl, sym, ◌∙◌, ◌≢◌, true, false, some, List, [], ◌∷◌, ◌++◌, any, Bool-cases, inl,
  inr, ◌⊎◌, arith, ok, All, Any,
}
use subql_cosmos.Project.{
  transaction, Handler, HandlerFilter, DataSource, is_runtime_cosmos_ds, parse_kind,
}
use subql_cosmos.Dictionary.{QueryEntry, DictionaryLib, entry_key, build_dictionary_query_entries}
use subql_cosmos.Dictionary.Plan.{
  needs_scan, all_handlers, handler_query, handler_queries, any-append, handler_queries-append,
  build_runtime,
}

module _ {A : Type 0} where
  abbrev pub In : A → List A → Type 0
  In x xs = Any (λ y. y ≡ x) xs

  Any-append_left : (P : A → Type 0) (xs ys : List A) → Any P xs → Any P (xs ++ ys)
  Any-append_left P (x ∷ xs) ys (inl p) = inl p
  Any-append_left P (x ∷ xs) ys (inr p) = inr (Any-append_left P xs ys p)
  Any-append_left P [] ys p = absurd p

  Any-append_right : (P : A → Type 0) (xs ys : List A) → Any P ys → Any P (xs ++ ys)
  Any-append_right P [] ys p = p
  Any-append_right P (x ∷ xs) ys p = inr (Any-append_right P xs ys p)

  All-append_left : (P : A → Type 0) (xs ys : List A) → All P (xs ++ ys) → All P xs
  All-append_left P [] ys p = tt
  All-append_left P (x ∷ xs) ys (p, ps) = (p, All-append_left P xs ys ps)

  All-append_right : (P : A → Type 0) (xs ys : List A) → All P (xs ++ ys) → All P ys
  All-append_right P [] ys p = p
  All-append_right P (x ∷ xs) ys (p, ps) = All-append_right P xs ys ps

  All-append : (P : A → Type 0) (xs ys : List A) → All P xs → All P ys → All P (xs ++ ys)
  All-append P [] ys p q = q
  All-append P (x ∷ xs) ys (p, ps) q = (p, All-append P xs ys ps q)

  All-map : (P Q : A → Type 0) → ((x : A) → P x → Q x) → (xs : List A) → All P xs → All Q xs
  All-map P Q f [] p = tt
  All-map P Q f (x ∷ xs) (p, ps) = (f x p, All-map P Q f xs ps)

  All-In : (P : A → Type 0) (xs : List A) → ((x : A) → In x xs → P x) → All P xs
  All-In P [] f = tt
  All-In P (x ∷ xs) f = (f x (inl refl), All-In P xs (λ y h. f y (inr h)))

-- lodash's `uniqBy`: it keeps an element of each key, and makes up none.
pub record Uniq (uniq_by : (QueryEntry → String) → List QueryEntry → List QueryEntry) : Type 0 where
  pub keeps :
      (key : QueryEntry → String) (xs : List QueryEntry) (x : QueryEntry)
      → In x xs
      → Any (λ y. key y ≡ key x) (uniq_by key xs)
  pub within :
      (key : QueryEntry → String) (xs : List QueryEntry) → All (λ y. In y xs) (uniq_by key xs)

module _ (lib : DictionaryLib) where
  -- The handler needs no scan, and each entry it asks for has one of its key in the result.
  abbrev pub Covered : List QueryEntry → Handler → Type 0
  Covered result handler =
      (needs_scan handler ≡ false)
      × All (λ q. Any (λ e. entry_key lib e ≡ entry_key lib q) result) (handler_query lib handler)

  abbrev pub Asked : List Handler → QueryEntry → Type 0
  Asked handlers entry = Any (λ h. In entry (handler_query lib h)) handlers

  handlers-Covered :
      (result : List QueryEntry) (handlers : List Handler)
      → any needs_scan handlers ≡ false
      → All
          (λ q. Any (λ e. entry_key lib e ≡ entry_key lib q) result)
          (handler_queries lib handlers)
      → All (Covered result) handlers
  handlers-Covered result [] none_scans finds = tt
  handlers-Covered result (handler ∷ handlers) none_scans finds =
      let here : needs_scan handler ≡ false = ground arith in
      let later : any needs_scan handlers ≡ false = ground arith in
      let found = λ (q : QueryEntry). Any (λ e. entry_key lib e ≡ entry_key lib q) result in
      let own = handler_query lib handler in
      let rest = handler_queries lib handlers in
      (
        (here, All-append_left found own rest finds),
        handlers-Covered result handlers later (All-append_right found own rest finds),
      )

  In-append : (x : QueryEntry) (xs ys : List QueryEntry) → In x (xs ++ ys) → In x xs ⊎ In x ys
  In-append x [] ys h = inr h
  In-append x (y ∷ xs) ys (inl e) = inl (inl e)
  In-append x (y ∷ xs) ys (inr h) = elim (In-append x xs ys h) [
    | inl a ↦ inl (inr a)
    | inr b ↦ inr b
  ]

  queries-Asked :
      (handlers : List Handler) (entry : QueryEntry)
      → In entry (handler_queries lib handlers)
      → Asked handlers entry
  queries-Asked [] entry h = absurd h
  queries-Asked (handler ∷ handlers) entry h =
      elim (In-append entry (handler_query lib handler) (handler_queries lib handlers) h) [
        | inl a ↦ inl a
        | inr b ↦ inr (queries-Asked handlers entry b)
      ]

  -- Where `uniqBy` keeps an element of each key and makes up none, a query of runtime data sources
  -- that is not empty covers every handler: none needs a full scan, and the entries of each are in
  -- the query, up to those of the same key. Each entry of the query is asked for by a handler.
  pub build_covers :
      (sources : List DataSource) (result : List QueryEntry)
      → Uniq lib.uniq_by
      → All (λ ds. is_runtime_cosmos_ds ds ≡ true) sources
      → build_dictionary_query_entries lib sources ≡ ok result
      → result ≢ []
      → All (Covered result) (all_handlers sources) × All (Asked (all_handlers sources)) result
  build_covers sources result uniq runtime built filled =
      let handlers = all_handlers sources in
      let queries = handler_queries lib handlers in
      let planned = sym (build_runtime lib sources runtime) ∙ built in
      elim (Bool-cases (any needs_scan handlers)) [
        | inl t ↦ absurd (filled (cc (rw t at planned)))
        | inr f ↦
            let e : lib.uniq_by (entry_key lib) queries ≡ result = cc (rw f at planned) in
            (
              handlers-Covered result handlers f (
                  rw⁻¹ e
                    (All-In _ queries (λ q inside. uniq.keeps (entry_key lib) queries q inside))),
              rw⁻¹ e (All-map _ _ (queries-Asked handlers) _ (uniq.within (entry_key lib) queries)),
            )
      ]

  -- A transaction handler with a filter plays no part in the query: it is the query of the other
  -- handlers, wherever the handler stands among them.
  pub build_transaction :
      (sources others : List DataSource) (xs ys : List Handler) (handler : Handler)
      (filter : HandlerFilter)
      → All (λ ds. is_runtime_cosmos_ds ds ≡ true) sources
      → All (λ ds. is_runtime_cosmos_ds ds ≡ true) others
      → all_handlers sources ≡ xs ++ handler ∷ ys
      → all_handlers others ≡ xs ++ ys
      → parse_kind handler.kind ≡ some transaction
      → handler.filter ≡ some filter
      → build_dictionary_query_entries lib sources ≡ build_dictionary_query_entries lib others
  build_transaction sources others xs ys handler filter runtime runtime' with_it without kind
        given =
      let quiet : needs_scan handler ≡ false = rw (given, kind) refl in
      let asks_none : handler_query lib handler ≡ [] = rw (given, kind) refl in
      let same_scan : any needs_scan (xs ++ handler ∷ ys) ≡ any needs_scan (xs ++ ys) =
        rw (any-append lib xs (handler ∷ ys), any-append lib xs ys, quiet) refl in
      let same_queries : handler_queries lib (xs ++ handler ∷ ys) ≡ handler_queries lib (xs ++ ys) =
        rw
          (
            handler_queries-append lib xs (handler ∷ ys),
            handler_queries-append lib xs ys,
            asks_none,
          )
          refl in
      build_runtime lib sources runtime
      ∙ rw (with_it, without, same_scan, same_queries) refl
      ∙ sym (build_runtime lib others runtime')
