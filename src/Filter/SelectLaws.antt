-- ===== src/Filter/SelectLaws.antt =====
-- What the filters over arrays keep.
use subql_cosmos.Base.{
  ◌≡◌, refl, subst, ◌↔◌, ◌⊎◌, inl, inr, Bool, true, false, Option, none, some, List, [], ◌∷◌, Any,
  Bool-cases, Result, ok, err, ◌>>=◌, >>=_returned, arith, if◌then◌else◌, ltb, length,
}
use subql_cosmos.Value.{ValueLib}
use subql_cosmos.Chain.{CosmosMessage, CosmosEvent}
use subql_cosmos.Filter.{
  MessageFilter, EventFilter, OneOrMany, single, many, filter_message_data, filter_event,
}
use subql_cosmos.Filter.Messages.{Matches, filter_message_data_iff}
use subql_cosmos.Filter.Events.{EventMatches, filter_event_iff}
use subql_cosmos.Filter.Select.{
  finds, filter_result, passes_message, filter_messages, passes_event, filter_events, message_data,
  event_data, base_custom_handler_filter,
}

-- `out` holds, in order, the elements of a list that satisfy `P`, and no other.
pub data Selection {ℓ} {A : Type ℓ} (P : A → Type 0) : List A → List A → Type ℓ where
  nil : Selection P [] []
  keep : {x : A} {xs out : List A} → P x → Selection P xs out → Selection P (x ∷ xs) (x ∷ out)
  skip : {x : A} {xs out : List A} → ¬ (P x) → Selection P xs out → Selection P (x ∷ xs) out

-- Some filter accepts; with no filter, or an empty array of them, everything is accepted.
abbrev pub Accepts {ℓ} : {F : Type ℓ} → (F → Type 0) → Option (OneOrMany F) → Type 0
Accepts P none = Unit
Accepts P (some (single f)) = P f
Accepts P (some (many [])) = Unit
Accepts P (some (many (f ∷ fs))) = P f ⊎ Any P fs

module _ {ℓ} {A : Type ℓ} (p : A → Result Bool) (P : A → Type 0)
    (decides : (x : A) → (p x ≡ ok true) ↔ P x) where
  finds_iff : (xs : List A) (b : Bool) → finds p xs ≡ ok b → (b ≡ true) ↔ Any P xs
  unfolding finds
  finds_iff [] b h = (λ e. cc, λ a. absurd a)
  finds_iff (x ∷ xs) b h =
      let (found, tests, rest) = >>=_returned (p x) _ h in
      elim (Bool-cases found) [
        | inl t ↦ ground (arith, decides x)
        | inr f ↦ ground (arith, decides x, finds_iff xs b (rw f at rest))
      ]

module _ {ℓ} {A : Type ℓ} (p : A → Result Bool) (P : A → Type 0)
    (decides : (x : A) (b : Bool) → p x ≡ ok b → (b ≡ true) ↔ P x) where
  filter_result-Selection : (xs out : List A) → filter_result p xs ≡ ok out → Selection P xs out
  unfolding filter_result
  filter_result-Selection [] out h = let e : [] ≡ out = cc in subst (Selection P []) e nil
  filter_result-Selection (x ∷ xs) out h =
      let (b, tests, h₁) = >>=_returned (p x) _ h in
      let (rest, filters, h₂) = >>=_returned (filter_result p xs) _ h₁ in
      let later = filter_result-Selection xs rest filters in
      let (to, from) = decides x b tests in
      elim (Bool-cases b) [
        | inl t ↦
            let e : x ∷ rest ≡ out = ground arith in
            subst (Selection P (x ∷ xs)) e (keep (to t) later)
        | inr f ↦
            let e : rest ≡ out = ground arith in
            let dropped : ¬ (P x) = λ q. cc (from q) in
            subst (Selection P (x ∷ xs)) e (skip dropped later)
      ]

Selection-everything {ℓ} :
    {A : Type ℓ} (P : A → Type 0) (all : (x : A) → P x) (xs : List A) → Selection P xs xs
Selection-everything P all [] = nil
Selection-everything P all (x ∷ xs) = keep (all x) (Selection-everything P all xs)

Selection-kept {ℓ} : {A : Type ℓ} (xs out : List A) → xs ≡ out → Selection (λ x. Unit) xs out
Selection-kept xs out e =
    subst (Selection (λ x. Unit) xs) e (Selection-everything (λ x. Unit) (λ x. tt) xs)

-- One test of a list that has no other.
Selection-single {ℓ} :
    {A : Type ℓ} (P : A → Type 0) {xs out : List A}
    → Selection (λ x. P x ⊎ ⊥) xs out
    → Selection P xs out
Selection-single P nil = nil
Selection-single P (keep (inl h) s) = keep h (Selection-single P s)
Selection-single P (keep (inr h) s) = absurd h
Selection-single P (skip h s) = skip (λ p. h (inl p)) (Selection-single P s)

-- One element filtered by one test, and counted.
kept_one {ℓ} :
    {A : Type ℓ} (x : A) (r : Result Bool)
    → (((r >>= λ found. if found then ok true else ok false) >>= λ keep.
          ok (if keep then x ∷ [] else []))
        >>= λ kept. ok (ltb 0 (length kept)))
      ≡ r
kept_one x (ok true) = refl
kept_one x (ok false) = refl
kept_one x (err e) = refl

module _ (lib : ValueLib) where
  passes_message_iff :
      (fs : List MessageFilter) (m : CosmosMessage) (b : Bool)
      → passes_message lib fs m ≡ ok b
      → (b ≡ true) ↔ Any (Matches lib m) fs
  passes_message_iff fs m b =
      finds_iff (λ f. filter_message_data lib m (some f)) (Matches lib m)
        (filter_message_data_iff lib m) fs b

  passes_event_iff :
      (fs : List EventFilter) (e : CosmosEvent) (b : Bool)
      → passes_event lib fs e ≡ ok b
      → (b ≡ true) ↔ Any (EventMatches lib e) fs
  passes_event_iff fs e b =
      finds_iff (λ f. filter_event lib e (some f)) (EventMatches lib e) (filter_event_iff lib e) fs
        b

  messages_by :
      (messages out : List CosmosMessage) (fs : List MessageFilter)
      → filter_result (passes_message lib fs) messages ≡ ok out
      → Selection (λ m. Any (Matches lib m) fs) messages out
  messages_by messages out fs =
      filter_result-Selection (passes_message lib fs) (λ m. Any (Matches lib m) fs)
        (passes_message_iff fs) messages out

  events_by :
      (events out : List CosmosEvent) (fs : List EventFilter)
      → filter_result (passes_event lib fs) events ≡ ok out
      → Selection (λ e. Any (EventMatches lib e) fs) events out
  events_by events out fs =
      filter_result-Selection (passes_event lib fs) (λ e. Any (EventMatches lib e) fs)
        (passes_event_iff fs) events out

  -- Where `filterMessages` returns, it returns the messages that some filter accepts, in order;
  -- with no filter, or an empty array of them, it returns all messages.
  pub filter_messages-Selection :
      (messages out : List CosmosMessage) (filters : Option (OneOrMany MessageFilter))
      → filter_messages lib (some messages) filters ≡ ok out
      → Selection (λ m. Accepts (Matches lib m) filters) messages out
  unfolding filter_messages
  filter_messages-Selection messages out none h = Selection-kept messages out (cc h)
  filter_messages-Selection messages out (some (single f)) h =
      Selection-single (λ m. Matches lib m f) (messages_by messages out (f ∷ []) h)
  filter_messages-Selection messages out (some (many [])) h = Selection-kept messages out (cc h)
  filter_messages-Selection messages out (some (many (f ∷ fs))) h =
      messages_by messages out (f ∷ fs) h

  -- Where `filterEvents` returns, it returns the events that some filter accepts, in order; with no
  -- filter, or an empty array of them, it returns all events.
  pub filter_events-Selection :
      (events out : List CosmosEvent) (filters : Option (OneOrMany EventFilter))
      → filter_events lib events filters ≡ ok out
      → Selection (λ e. Accepts (EventMatches lib e) filters) events out
  unfolding filter_events
  filter_events-Selection events out none h = Selection-kept events out (cc h)
  filter_events-Selection events out (some (single f)) h =
      Selection-single (λ e. EventMatches lib e f) (events_by events out (f ∷ []) h)
  filter_events-Selection events out (some (many [])) h = Selection-kept events out (cc h)
  filter_events-Selection events out (some (many (f ∷ fs))) h = events_by events out (f ∷ fs) h

  -- With one filter, the filter of a custom handler is that of a runtime handler for messages and
  -- for events, errors included.
  pub base_custom_handler_filter_single :
      (m : CosmosMessage) (f : MessageFilter) (e : CosmosEvent) (g : EventFilter)
      → (base_custom_handler_filter lib (message_data m (some (single f)))
          ≡ filter_message_data lib m (some f))
        × (base_custom_handler_filter lib (event_data e (some (single g)))
            ≡ filter_event lib e (some g))
  unfolding base_custom_handler_filter filter_messages filter_events filter_result finds
  base_custom_handler_filter_single m f e g =
      (kept_one m (filter_message_data lib m (some f)), kept_one e (filter_event lib e (some g)))
