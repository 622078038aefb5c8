-- ===== src/Manifest/Tests.antt =====
-- Handlers and assets that are concrete.
use subql_cosmos.Base.{String, ◌≡◌, ◌⊎◌, refl, true, none, some, List, [], ◌∷◌, ok, fail}
use subql_cosmos.Value.{Value, str, obj, field, end, has_property, get_property}
use subql_cosmos.Project.{Handler, parse_kind}
use subql_cosmos.Manifest.{transform_handlers, validate_assets}
use subql_cosmos.Manifest.Laws.{Transformed, Refused, transform_handlers_lem}

abbrev of_kind : String → Handler
of_kind kind = record { kind = kind; handler = "handle"; filter = none }

abbrev mixed : List Handler
mixed = of_kind "cosmos/EventHandler" ∷ of_kind "cosmos/Custom" ∷ []

refused : transform_handlers mixed ≡ fail "handler cosmos/Custom not supported"
unfolding transform_handlers parse_kind
refused = refl

transform_handlers_lem_example : Transformed mixed ⊎ Refused mixed
transform_handlers_lem_example = transform_handlers_lem mixed

abbrev schema : Value
schema = obj (field "file" (str "./schema.json") end)

abbrev broken : Value
broken = obj (field "path" (str "./schema.json") end)

-- The second reference has no file.
second_unread : validate_assets (some (schema ∷ broken ∷ [])) ≡ ok true
unfolding validate_assets has_property get_property
second_unread = refl
