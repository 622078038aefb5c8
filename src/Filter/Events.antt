-- ===== src/Filter/Events.antt =====
-- When an event filter accepts an event, described without the code.
use subql_cosmos.Base.{
  String, ◌≡◌, refl, subst, ◌↔◌, ◌≢◌, inl, inr, Bool, true, false, not, ◌&&◌, Option, none, some,
  List, [], ◌∷◌, ◌==◌, text_strict, All, Any, any_iff, Result, ok, and_also-eq-true_iff, arith,
  eq_iff, if◌then◌else◌,
}
use subql_cosmos.Base.Number.{Number}
use subql_cosmos.Value.{Value, str, num, ValueLib, strict_eq}
use subql_cosmos.Chain.{CosmosMessage, CosmosEvent, Attribute}
use subql_cosmos.Filter.{
  MessageFilter, EventFilter, entries_of, filter_attributes, filter_event_message, filter_event,
}
use subql_cosmos.Filter.Messages.{Matches, filter_message_data_iff, strict_eq-str_iff, false_ok}

-- An attribute of the event has the entry's key and its value.
abbrev pub Has : List Attribute → String × Value → Type 0
Has attributes e = Any (λ a. (a.key ≡ e.0) × (e.1 ≡ str a.value)) attributes

found_iff :
    (key : String) (wanted : Value) (a : Attribute)
    → ((a.key == key && strict_eq (str a.value) wanted) ≡ true)
      ↔ ((a.key ≡ key) × (wanted ≡ str a.value))
found_iff key wanted a = ground (arith, eq_iff a.key key, strict_eq-str_iff a.value wanted)

filter_attributes_iff :
    (attributes : List Attribute) (entries : List (String × Value))
    → (filter_attributes attributes entries ≡ true) ↔ All (Has attributes) entries
unfolding filter_attributes
filter_attributes_iff attributes [] = (λ h. tt, λ h. refl)
filter_attributes_iff attributes ((key, wanted) ∷ entries) = ground (
  arith,
  any_iff (λ a. a.key == key && strict_eq (str a.value) wanted)
      (λ a. (a.key ≡ key) × (wanted ≡ str a.value)) (found_iff key wanted) attributes,
  filter_attributes_iff attributes entries,
)

-- An entry whose value is a number finds no attribute, since those are texts.
not-Has-num :
    (attributes : List Attribute) (key : String) (n : Number) → ¬ Has attributes (key, num n)
not-Has-num [] key n h = h
not-Has-num (a ∷ attributes) key n (inl h) = cc
not-Has-num (a ∷ attributes) key n (inr h) = not-Has-num attributes key n h

-- An event passes a message filter if it has a message that matches.
abbrev pub MessageMatches : ValueLib → Option CosmosMessage → Option MessageFilter → Type 0
MessageMatches lib msg filter =
    (f : MessageFilter) → filter ≡ some f → (m : CosmosMessage) × (msg ≡ some m) × Matches lib m f

-- What an event filter asks of an event.
pub record EventMatches (lib : ValueLib) (event : CosmosEvent) (filter : EventFilter) : Type 0 where
  pub typed : filter.type ≡ event.event.type
  pub caused : MessageMatches lib event.msg filter.message_filter
  pub attributed : All (Has event.event.attributes) (entries_of filter.attributes)

guard_iff :
    (a : Bool) (r : Result Bool)
    → ((if not a then ok false else r) ≡ ok true) ↔ ((a ≡ true) × (r ≡ ok true))
guard_iff true r = (λ h. (refl, h), λ h. h.1)
guard_iff false r = (λ h. absurd (false_ok h), λ h. cc)

ok_iff : {a : Bool} → (ok a ≡ ok true) ↔ (a ≡ true)
ok_iff = (λ h. cc, λ h. cc)

filter_event_message_iff :
    (lib : ValueLib) (msg : Option CosmosMessage) (filter : Option MessageFilter)
    → (filter_event_message lib msg filter ≡ ok true) ↔ MessageMatches lib msg filter
unfolding filter_event_message
filter_event_message_iff lib msg none = (λ h f e. cc, λ h. refl)
filter_event_message_iff lib none (some f) =
    (λ h. absurd (false_ok h), λ h. let (m, e, p) = h f refl in cc)
filter_event_message_iff lib (some m) (some f) =
    let (to, from) = filter_message_data_iff lib m f in
    (
      λ h g e. let one : f ≡ g = cc in (m, refl, subst (Matches lib m) one (to h)),
      λ h.
          let (m', e, p) = h f refl in
          let one : m' ≡ m = cc in from (subst (λ x. Matches lib x f) one p),
    )

-- `filterEvent` accepts an event exactly where the filter's conditions hold of it.
pub filter_event_iff :
    (lib : ValueLib) (event : CosmosEvent) (filter : EventFilter)
    → (filter_event lib event (some filter) ≡ ok true) ↔ EventMatches lib event filter
unfolding filter_event
filter_event_iff lib event filter =
    let attributes = event.event.attributes in
    let (type_to, type_from) = eq_iff filter.type event.event.type in
    let (msg_to, msg_from) = filter_event_message_iff lib event.msg filter.message_filter in
    let (attr_to, attr_from) = filter_attributes_iff attributes (entries_of filter.attributes) in
    (
      λ h.
          let (a, r) = (guard_iff _ _).0 h in
          let (m, s) = (and_also-eq-true_iff _ _).0 r in
          record { typed = type_to a; caused = msg_to m; attributed = attr_to (ok_iff.0 s) },
      λ m. (guard_iff _ _).1 (
        type_from m.typed,
        (and_also-eq-true_iff _ _).1 (msg_from m.caused, ok_iff.1 (attr_from m.attributed)),
      ),
    )

-- A filter that gives a number for an attribute accepts no event.
pub filter_event_num :
    (lib : ValueLib) (event : CosmosEvent) (filter : EventFilter) (key : String) (n : Number)
    (entries : List (String × Value))
    → filter.attributes ≡ some ((key, num n) ∷ entries)
    → filter_event lib event (some filter) ≢ ok true
filter_event_num lib event filter key n entries e accepted =
    let m = (filter_event_iff lib event filter).0 accepted in
    not-Has-num event.event.attributes key n
      ((subst (λ o. All (Has event.event.attributes) (entries_of o)) e m.attributed).0)
