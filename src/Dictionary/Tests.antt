-- ===== src/Dictionary/Tests.antt =====
-- The dictionary query at concrete data sources.
use subql_cosmos.Base.{
  String, ◌≡◌, refl, sym, ap, ◌∙◌, ◌≢◌, inl, inr, true, Option, none, some, List, [], ◌∷◌, ◌==◌,
  text_strict, Bool-cases, eq_iff, arith, if◌then◌else◌, ok, err, type_error, All, Any,
}
use subql_cosmos.Value.{str}
use subql_cosmos.Project.{
  Handler, MessageQuery, HandlerFilter, DataSource, is_runtime_cosmos_ds, parse_kind,
}
use subql_cosmos.Dictionary.{
  QueryEntry, DictionaryLib, Condition, event_filter_to_query_entry, message_conditions,
  data_conditions, build_dictionary_query_entries,
}
use subql_cosmos.Dictionary.Plan.{all_handlers, handler_queries, build_runtime}
use subql_cosmos.Dictionary.Coverage.{In, Uniq, Covered, Asked, build_covers, build_transaction}
use subql_cosmos.Dictionary.{entry_key}

-- The first element of each key.
module _ (key : QueryEntry → String) where
  without_key : String → List QueryEntry → List QueryEntry
  without_key k [] = []
  without_key k (x ∷ xs) = let rest = without_key k xs in if key x == k then rest else x ∷ rest

  uniq_first : List QueryEntry → List QueryEntry
  uniq_first [] = []
  uniq_first (x ∷ xs) = x ∷ without_key (key x) (uniq_first xs)

  without_key_keeps :
      (k l : String)
      → l ≢ k
      → (xs : List QueryEntry) → Any (λ y. key y ≡ l) xs
      → Any (λ y. key y ≡ l) (without_key k xs)
  unfolding without_key
  without_key_keeps k l apart [] h = h
  without_key_keeps k l apart (x ∷ xs) h = elim (Bool-cases (key x == k)) [
    | inl t ↦ elim h [
      | inl e ↦ absurd (apart (sym e ∙ (eq_iff (key x) k).0 t))
      | inr later ↦ rw t (without_key_keeps k l apart xs later)
    ]
    | inr f ↦ elim h [
      | inl e ↦ rw f (inl e)
      | inr later ↦ rw f (inr (without_key_keeps k l apart xs later))
    ]
  ]

  uniq_first_keeps :
      (xs : List QueryEntry) (x : QueryEntry) → In x xs → Any (λ y. key y ≡ key x) (uniq_first xs)
  unfolding uniq_first
  uniq_first_keeps (y ∷ xs) x (inl e) = inl (ap key e)
  uniq_first_keeps (y ∷ xs) x (inr h) = elim (Bool-cases (key x == key y)) [
    | inl t ↦ inl (sym ((eq_iff (key x) (key y)).0 t))
    | inr f ↦
        let apart : key x ≢ key y = ground (arith, eq_iff (key x) (key y)) in
        inr (without_key_keeps (key y) (key x) apart (uniq_first xs) (uniq_first_keeps xs x h))
  ]
  uniq_first_keeps [] x h = absurd h

  without_key_within :
      (k : String) (P : QueryEntry → Type 0) (xs : List QueryEntry)
      → All P xs
      → All P (without_key k xs)
  unfolding without_key
  without_key_within k P [] p = p
  without_key_within k P (x ∷ xs) (p, ps) = elim (Bool-cases (key x == k)) [
    | inl t ↦ rw t (without_key_within k P xs ps)
    | inr f ↦ rw f (p, without_key_within k P xs ps)
  ]

  later-In :
      (x : QueryEntry) (xs zs : List QueryEntry)
      → All (λ y. In y xs) zs
      → All (λ y. In y (x ∷ xs)) zs
  later-In x xs [] h = h
  later-In x xs (z ∷ zs) (p, ps) = (inr p, later-In x xs zs ps)

  uniq_first_within : (xs : List QueryEntry) → All (λ y. In y xs) (uniq_first xs)
  unfolding uniq_first
  uniq_first_within [] = tt
  uniq_first_within (x ∷ xs) = (
    inl refl,
    later-In x xs _ (without_key_within (key x) _ (uniq_first xs) (uniq_first_within xs)),
  )

uniq_lem : Uniq uniq_first
uniq_lem = record { keeps = uniq_first_keeps; within = uniq_first_within }

-- A key that names the fields, without the values.
condition_fields : List Condition → String
condition_fields [] = ""
condition_fields (c ∷ cs) = c.field

abbrev lib : DictionaryLib
lib = record {
  set_with = λ nested key value. nested;
  condition_key = condition_fields;
  uniq_by = uniq_first;
  get_ds_processor = λ ds. err type_error;
}

abbrev query : Option String → MessageQuery
query type = record { type = type; values = none }

abbrev sends : HandlerFilter
sends = record {
  message_query = query (some "/cosmos.bank.v1beta1.MsgSend");
  modulo = none;
  message_filter = none;
}

abbrev no_type : HandlerFilter
no_type = record { message_query = query none; modulo = none; message_filter = none }

abbrev on_message : Handler
on_message = record { kind = "cosmos/MessageHandler"; handler = "f"; filter = some sends }

abbrev on_tx : Handler
on_tx = record { kind = "cosmos/TransactionHandler"; handler = "g"; filter = some no_type }

abbrev runtime_ds : List Handler → DataSource
runtime_ds handlers = record { kind = "cosmos/Runtime"; processor = none; handlers = handlers }

abbrev transfers : HandlerFilter
transfers = record {
  message_query = query (some "transfer");
  modulo = none;
  message_filter = some (query (some "/cosmos.bank.v1beta1.MsgSend"));
}

event_entry :
    (event_filter_to_query_entry lib transfers).conditions
    ≡ record { field = "type"; value = str "transfer"; matcher = "equalTo" }
      ∷ record {
        field = "msgType";
        value = str "/cosmos.bank.v1beta1.MsgSend";
        matcher = "equalTo";
      }
      ∷ []
unfolding event_filter_to_query_entry message_conditions data_conditions
event_entry = refl

abbrev both : List DataSource
both = runtime_ds (on_message ∷ on_tx ∷ []) ∷ []

runtime_both : All (λ ds. is_runtime_cosmos_ds ds ≡ true) both
unfolding is_runtime_cosmos_ds
runtime_both = (refl, tt)

abbrev found : List QueryEntry
found = handler_queries lib (on_message ∷ [])

built_both : build_dictionary_query_entries lib both ≡ ok found
unfolding build_dictionary_query_entries uniq_first without_key
built_both = refl

build_runtime_example :
    build_dictionary_query_entries lib both
    ≡ ok (lib.uniq_by (entry_key lib) (handler_queries lib (all_handlers both)))
unfolding uniq_first parse_kind
build_runtime_example = build_runtime lib both runtime_both

filled : found ≢ []
unfolding parse_kind
filled e = cc e

build_covers_example :
    All (Covered lib found) (all_handlers both) × All (Asked lib (all_handlers both)) found
unfolding parse_kind
build_covers_example = build_covers lib both found uniq_lem runtime_both built_both filled

build_transaction_example :
    build_dictionary_query_entries lib both
    ≡ build_dictionary_query_entries lib (runtime_ds (on_message ∷ []) ∷ [])
unfolding is_runtime_cosmos_ds parse_kind
build_transaction_example =
    build_transaction lib both (runtime_ds (on_message ∷ []) ∷ []) (on_message ∷ []) [] on_tx
      no_type runtime_both (refl, tt) refl refl refl refl
