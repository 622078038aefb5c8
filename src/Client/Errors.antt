-- ===== src/Client/Errors.antt =====
-- What the two error handlers make of an error.
use subql_cosmos.Base.{
  String, ◌≡◌, refl, ◌≢◌, ◌↔◌, inl, inr, true, false, Bool-cases, text_strict, Option, none, some,
  JsError, subst, ap, ◌∙◌, Result, ok, err, >>=_returned, arith,
}
use Prim.Native.String.{◌++◌ as ◌<>◌}
use subql_cosmos.Value.{Value, get_property}
use subql_cosmos.Client.{
  ClientLib, truthy, not_available, pruned_note, data_includes, pruned_data, text_of, formatted,
  handle_error, default, timed_out, disconnected, limited, connection_error,
}

-- The connection's handler leaves the type of an error at its default exactly where its message
-- begins neither as a timeout's, a disconnection's nor a rate limit's; the message of an error of
-- another type is kept.
pub connection_error_lem :
    (e : JsError)
    → (((connection_error e).error_type ≡ default) ↔ (
        (timed_out e.message ≡ false)
        × (disconnected e.message ≡ false)
        × (limited e.message ≡ false)))
      × ((connection_error e).error_type ≢ default → (connection_error e).message ≡ e.message)
unfolding connection_error
connection_error_lem e = ground arith

module _ (lib : ClientLib) where
  -- The message is a JSON object whose data says that a height is not available.
  abbrev pub Pruned : String → Value → Type 0
  Pruned message d =
      (v : Value) × (lib.parse_json message ≡ ok v)
      × (get_property v "data" ≡ ok d)
      × (truthy d ≡ true)
      × (data_includes lib d not_available ≡ ok true)

  pruned_data-Pruned :
      (message : String) (d : Value) → pruned_data lib message ≡ ok (some d) → Pruned message d
  unfolding pruned_data
  pruned_data-Pruned message d h =
      let (v, parses, h₁) = >>=_returned (lib.parse_json message) _ h in
      let (d', reads, h₂) = >>=_returned (get_property v "data") _ h₁ in
      elim (Bool-cases (truthy d')) [
        | inl t ↦
            let (found, includes, h₃) =
              >>=_returned (data_includes lib d' not_available) _ (rw t at h₂) in
            elim (Bool-cases found) [
              | inl it_does ↦
                  let same : d' ≡ d = cc (rw it_does at h₃) in
                  subst (Pruned message) same (v, parses, reads, t, includes ∙ ap ok it_does)
              | inr it_does_not ↦ absurd (cc (rw it_does_not at h₃))
            ]
        | inr f ↦ absurd (cc (rw f at h₂))
      ]

  Pruned-pruned_data :
      (message : String) (d : Value) → Pruned message d → pruned_data lib message ≡ ok (some d)
  unfolding pruned_data
  Pruned-pruned_data message d (v, parses, reads, present, includes) =
      rw parses (rw reads (rw present (rw includes refl)))

  -- An error whose message says that a height is not available keeps its name, and its new message
  -- is the data and a note; every other error keeps its message.
  pub handle_error_lem :
      (e : JsError)
      → ((d : Value)
          → Pruned e.message d
          → handle_error lib e ≡ record { name = e.name; message = text_of lib d <> pruned_note })
        × (((d : Value) → ¬ Pruned e.message d) → (handle_error lib e).message ≡ e.message)
  unfolding handle_error formatted
  handle_error_lem e = (
    λ d h. ap (formatted lib e) (Pruned-pruned_data e.message d h),
    λ h. kept h (pruned_data lib e.message) refl,
  )
    where
      kept :
          ((d : Value) → ¬ Pruned e.message d)
          → (r : Result (Option Value)) → pruned_data lib e.message ≡ r
          → (formatted lib e r).message ≡ e.message
      kept h (ok none) same = refl
      kept h (ok (some d)) same = absurd (h d (pruned_data-Pruned e.message d same))
      kept h (err fault) same = ground arith
