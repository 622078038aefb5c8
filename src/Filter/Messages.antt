-- ===== src/Filter/Messages.antt =====
-- When a message filter accepts a message, described without the code.
use subql_cosmos.Base.{
  String, ◌≡◌, refl, sym, subst, ◌≢◌, ◌↔◌, ◌⊎◌, inl, inr, Bool, true, false, not, ◌&&◌, Option,
  some, List, [], ◌∷◌, ◌==◌, nat_strict, text_strict, All, Bool-cases, Option-cases, Result, ok,
  >>=_returned, and_also-eq-true_iff, arith, eq_iff, if◌then◌else◌,
}
use subql_cosmos.Value.{Value, str, ValueLib, get_property, has_property, strict_eq}
use subql_cosmos.Value.Property.{split_dots, get_path}
use subql_cosmos.Chain.{CosmosMessage, CosmosTransaction}
use subql_cosmos.Filter.{
  MessageFilter, TxFilter, includes_failed, entries_of, execute_contract, comparable, filter_tx,
  filter_values, calls, filter_contract_call, filter_message_data,
}

pub strict_eq-str_iff : (s : String) (v : Value) → (strict_eq (str s) v ≡ true) ↔ (v ≡ str s)
unfolding strict_eq
strict_eq-str_iff s (str t) = ground (arith, eq_iff s t)
strict_eq-str_iff s Value.undefined = (λ h. cc, λ h. cc)
strict_eq-str_iff s _ = (λ h. cc, λ h. cc)

-- A failed transaction passes only where the filter includes failed ones.
pub filter_tx_iff :
    (tx : CosmosTransaction) (filter : Option TxFilter)
    → (filter_tx tx filter ≡ true) ↔ ((includes_failed filter ≡ true) ⊎ (tx.tx.code ≡ 0))
unfolding filter_tx
filter_tx_iff tx filter = ground arith

pub false_ok : ok false ≡ ok true → ⊥
false_ok h = cc

two_guards_iff :
    (a b : Bool) (r : Result Bool)
    → ((if not a then ok false else if not b then ok false else r) ≡ ok true)
      ↔ ((a ≡ true) × (b ≡ true) × (r ≡ ok true))
two_guards_iff true true r = (λ h. (refl, refl, h), λ h. h.2)
two_guards_iff true false r = (λ h. absurd (false_ok h), λ h. cc)
two_guards_iff false b r = (λ h. absurd (false_ok h), λ h. cc)

module _ (lib : ValueLib) where
  -- The dotted path leads to a value that is the wanted one.
  abbrev pub Agrees : Result Value → String × Value → Type 0
  Agrees decoded e =
      (v w : Value) × (decoded ≡ ok v)
      × (get_path v (split_dots e.0) ≡ ok w)
      × (strict_eq e.1 (comparable lib e.1 w) ≡ true)

  -- The message field is the called name, or an object with a property of that name.
  abbrev pub Names : String → Value → Type 0
  Names call msg =
      (msg ≡ str call) ⊎ ((lib.is_object_like msg ≡ true) × (has_property msg call ≡ ok true))

  abbrev pub IsCalled : Result Value → String → Type 0
  IsCalled decoded call =
      (v msg : Value) × (decoded ≡ ok v) × (get_property v "msg" ≡ ok msg) × Names call msg

  filter_values_sound :
      (decoded : Result Value) (entries : List (String × Value))
      → filter_values lib decoded entries ≡ ok true
      → All (Agrees decoded) entries
  unfolding filter_values
  filter_values_sound decoded [] h = tt
  filter_values_sound decoded ((key, wanted) ∷ entries) h =
      let (v, decodes, h₁) = >>=_returned decoded _ h in
      let (w, leads, h₂) = >>=_returned (get_path v (split_dots key)) _ h₁ in
      elim (Bool-cases (strict_eq wanted (comparable lib wanted w))) [
        | inl same ↦
            ((v, w, decodes, leads, same), filter_values_sound decoded entries (rw same at h₂))
        | inr other ↦ absurd (false_ok (rw other at h₂))
      ]

  filter_values_complete :
      (decoded : Result Value) (entries : List (String × Value))
      → All (Agrees decoded) entries
      → filter_values lib decoded entries ≡ ok true
  unfolding filter_values
  filter_values_complete decoded [] h = refl
  filter_values_complete decoded ((key, wanted) ∷ entries) ((v, w, decodes, leads, same), h) =
      rw decodes (rw leads (rw same (filter_values_complete decoded entries h)))

  calls_iff : (call : String) (msg : Value) → (calls lib call msg ≡ ok true) ↔ Names call msg
  unfolding calls
  calls_iff call msg = ground (arith, strict_eq-str_iff call msg)

  -- The condition on `contractCall`, where the filter has one.
  abbrev pub ContractCalled : Result Value → MessageFilter → Type 0
  ContractCalled decoded filter =
      (call : String)
      → filter.contract_call ≡ some call
      → filter.type ≡ execute_contract
      → call ≢ ""
      → IsCalled decoded call

  filter_contract_call_sound :
      (decoded : Result Value) (type call : String)
      → filter_contract_call lib decoded type (some call) ≡ ok true
      → type ≡ execute_contract
      → call ≢ ""
      → IsCalled decoded call
  unfolding filter_contract_call
  filter_contract_call_sound decoded type call h same given =
      let tested : (type == execute_contract && not (call == "")) ≡ true =
        ground (arith, eq_iff type execute_contract, eq_iff call "") in
      let (v, decodes, h₁) = >>=_returned decoded _ (rw tested at h) in
      let (msg, reads, h₂) = >>=_returned (get_property v "msg") _ h₁ in
      (v, msg, decodes, reads, (calls_iff call msg).0 h₂)

  filter_contract_call_complete :
      (decoded : Result Value) (type call : String)
      → (type ≡ execute_contract → call ≢ "" → IsCalled decoded call)
      → filter_contract_call lib decoded type (some call) ≡ ok true
  unfolding filter_contract_call
  filter_contract_call_complete decoded type call h =
      elim (Bool-cases (type == execute_contract && not (call == ""))) [
        | inl tested ↦
            let same : type ≡ execute_contract = ground (arith, eq_iff type execute_contract) in
            let given : call ≢ "" = ground (arith, eq_iff call "") in
            let (v, msg, decodes, reads, names) = h same given in
            rw tested (rw decodes (rw reads ((calls_iff call msg).1 names)))
        | inr other ↦ rw other
      ]

  filter_contract_call_iff :
      (decoded : Result Value) (filter : MessageFilter)
      → (filter_contract_call lib decoded filter.type filter.contract_call ≡ ok true)
        ↔ ContractCalled decoded filter
  filter_contract_call_iff decoded filter = elim (Option-cases filter.contract_call) [
    | inl absent ↦ (λ _ call given. cc, λ _. rw absent (unfold filter_contract_call in refl))
    | inr (call, given) ↦ (
      λ h call' given' same full.
          let one : call ≡ call' = cc in
          subst (IsCalled decoded) one (
            filter_contract_call_sound decoded filter.type call (rw given at h) same
              (rw (sym one) at full)),
      λ h. rw given (filter_contract_call_complete decoded filter.type call (h call given)),
    )
  ]

  -- What a message filter asks of a message.
  pub record Matches (message : CosmosMessage) (filter : MessageFilter) : Type 0 where
    pub succeeded : (includes_failed (some filter.tx_filter) ≡ true) ⊎ (message.tx.tx.code ≡ 0)
    pub typed : filter.type ≡ message.msg.type_url
    pub agreed : All (Agrees message.msg.decoded_msg) (entries_of filter.values)
    pub called : ContractCalled message.msg.decoded_msg filter

  -- `filterMessageData` accepts a message exactly where the filter's conditions hold of it.
  pub filter_message_data_iff :
      (message : CosmosMessage) (filter : MessageFilter)
      → (filter_message_data lib message (some filter) ≡ ok true) ↔ Matches message filter
  unfolding filter_message_data
  filter_message_data_iff message filter =
      let decoded = message.msg.decoded_msg in
      let (tx_to, tx_from) = filter_tx_iff message.tx (some filter.tx_filter) in
      let (type_to, type_from) = eq_iff filter.type message.msg.type_url in
      let (call_to, call_from) = filter_contract_call_iff decoded filter in
      (
        λ h.
            let (a, b, r) = (two_guards_iff _ _ _).0 h in
            let (values, call) = (and_also-eq-true_iff _ _).0 r in
            record {
              succeeded = tx_to a;
              typed = type_to b;
              agreed = filter_values_sound decoded _ values;
              called = call_to call;
            },
        λ m. (two_guards_iff _ _ _).1 (
          tx_from m.succeeded,
          type_from m.typed,
          (and_also-eq-true_iff _ _).1
              (filter_values_complete decoded _ m.agreed, call_from m.called),
        ),
      )
