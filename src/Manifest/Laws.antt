-- ===== src/Manifest/Laws.antt =====
-- Which handlers a mapping may have, and which assets are accepted.
use subql_cosmos.Base.{
  ◌≡◌, refl, ap, ◌∙◌, sym, ◌⊎◌, inl, inr, String, true, false, Option, none, some, List, [], ◌∷◌,
  ◌++◌, All, map, if◌then◌else◌, Result, ok, fail, ◌>>=◌, map_result,
}
use Prim.Native.String.{◌++◌ as ◌<>◌}
use subql_cosmos.Value.{Value}
use subql_cosmos.Project.{
  Handler, CosmosHandlerKind, kind_text, parse_kind, is_base_handler, is_present,
}
use subql_cosmos.Project.Kinds.{parse_kind_iff, is_base_handler_lem}
use subql_cosmos.Manifest.{
  Instance, instance_of, transform_handler, transform_handlers, is_valid_file_reference,
  finds_reference, validate_assets,
}

-- The instance has the class of its handler's kind.
abbrev pub Classed : Instance → Type 0
Classed i = kind_text i.class ≡ i.plain.kind

abbrev pub plains : List Instance → List Handler
plains = map (λ i. i.plain)

-- The values that are no valid file reference, and give no error.
abbrev pub Invalid : Value → Type 0
Invalid v = is_valid_file_reference v ≡ ok false

finds_reference-Invalid :
    (before values : List Value)
    → All Invalid before
    → finds_reference (before ++ values) ≡ finds_reference values
unfolding finds_reference
finds_reference-Invalid [] values h = refl
finds_reference-Invalid (v ∷ before) values (invalid, h) =
    ap (λ r. r >>= λ valid. if valid then ok true else finds_reference (before ++ values)) invalid
    ∙ finds_reference-Invalid before values h

-- Assets are accepted as soon as one of them is a valid file reference that stands after none that
-- gives an error, whatever stands after it.
pub validate_assets_first :
    (before after : List Value) (v : Value)
    → All Invalid before
    → is_valid_file_reference v ≡ ok true
    → validate_assets (some (before ++ v ∷ after)) ≡ ok true
unfolding validate_assets finds_reference
validate_assets_first before after v h valid =
    finds_reference-Invalid before (v ∷ after) h
    ∙ ap (λ r. r >>= λ valid. if valid then ok true else finds_reference after) valid

transform_handler-instance_of :
    (handler : Handler) (o : Option CosmosHandlerKind)
    → parse_kind handler.kind ≡ o
    → transform_handler handler ≡ instance_of o handler
unfolding transform_handler
transform_handler-instance_of handler o e = ap (λ k. instance_of k handler) e

abbrev pub unsupported : Handler → String
unsupported handler = "handler " <> (handler.kind <> " not supported")

abbrev pub Bases : List Handler → Type 0
Bases = All (λ h. is_base_handler h ≡ true)

-- All handlers are base handlers, and each has an instance of the class of its kind, in order.
abbrev pub Transformed : List Handler → Type 0
Transformed handlers =
    (instances : List Instance) × (transform_handlers handlers ≡ ok instances)
    × (plains instances ≡ handlers)
    × All Classed instances
    × Bases handlers

-- The error names the kind of the first handler that is no base handler.
abbrev pub Refused : List Handler → Type 0
Refused handlers =
    (before : List Handler) × (h : Handler) × (after : List Handler) × (handlers
      ≡ before ++ h ∷ after)
    × Bases before
    × (is_base_handler h ≡ false)
    × (transform_handlers handlers ≡ fail (unsupported h))

-- The handlers of a mapping are transformed in order, each to the class of its kind, where all of
-- them are base handlers; else the error names the kind of the first that is none.
pub transform_handlers_lem : (handlers : List Handler) → Transformed handlers ⊎ Refused handlers
unfolding transform_handlers
transform_handlers_lem [] = inl ([], refl, refl, tt, tt)
transform_handlers_lem (h ∷ handlers) =
    of_kind (parse_kind h.kind) refl (transform_handlers_lem handlers)
  where
    rest : Result Instance → Result (List Instance)
    rest r = r >>= λ i. map_result transform_handler handlers >>= λ is. ok (i ∷ is)

    with_first : CosmosHandlerKind → Result (List Instance) → Result (List Instance)
    with_first k r = r >>= λ is. ok (record { class = k; plain = h } ∷ is)

    of_kind :
        (o : Option CosmosHandlerKind)
        → parse_kind h.kind ≡ o
        → Transformed handlers ⊎ Refused handlers
        → Transformed (h ∷ handlers) ⊎ Refused (h ∷ handlers)
    of_kind none e ih = inr (
      [],
      h,
      handlers,
      refl,
      tt,
      is_base_handler_lem h ∙ ap is_present e,
      ap rest (transform_handler-instance_of h none e),
    )
    of_kind (some k) e (inl (instances, done, same, classed, base)) = inl (
      record { class = k; plain = h } ∷ instances,
      ap rest (transform_handler-instance_of h (some k) e) ∙ ap (with_first k) done,
      ap (λ l. h ∷ l) same,
      (sym ((parse_kind_iff h.kind k).0 e), classed),
      (is_base_handler_lem h ∙ ap is_present e, base),
    )
    of_kind (some k) e (inr (before, h', after, split, base, not_base, thrown)) = inr (
      h ∷ before,
      h',
      after,
      ap (λ l. h ∷ l) split,
      (is_base_handler_lem h ∙ ap is_present e, base),
      not_base,
      ap rest (transform_handler-instance_of h (some k) e) ∙ ap (with_first k) thrown,
    )
