-- ===== src/Manifest.antt =====
-- The manifest's models: packages/common-cosmos/src/project/models.ts, the validator of file
-- references and the test of templates in utils.ts beside it, and validateCosmosManifest of
-- packages/common-cosmos/src/codegen/util.ts.
pub mod Laws
pub mod Rules
mod Tests
use subql_cosmos.Base.{
  String, Bool, true, false, ◌&&◌, ◌||◌, Option, none, some, List, [], ◌∷◌, ◌==◌, text_strict,
  if◌then◌else◌, Result, ok, err, fail, type_error, ◌>>=◌, and_also, map_result,
}
use Prim.Native.String.{◌++◌ as ◌<>◌}
use subql_cosmos.Value.{Value, undefined, null, str, long, obj, get_property, has_property}
use subql_cosmos.Project.{
  Handler, DataSource, CosmosHandlerKind, parse_kind, is_runtime_cosmos_ds, is_custom_cosmos_ds,
}

-- A handler as an instance of the class of its kind.
pub record Instance : Type 0 where
  pub class : CosmosHandlerKind
  pub plain : Handler

unfoldable pub instance_of : Option CosmosHandlerKind → Handler → Result Instance
instance_of (some kind) handler = ok (record { class = kind; plain = handler })
instance_of none handler = fail ("handler " <> (handler.kind <> " not supported"))

-- One step of the transformation of a mapping's handlers: the switch on the kind.
unfoldable pub transform_handler : Handler → Result Instance
unfolding instance_of parse_kind
transform_handler handler = instance_of (parse_kind handler.kind) handler

unfoldable pub transform_handlers : List Handler → Result (List Instance)
unfolding transform_handler
transform_handlers handlers = map_result transform_handler handlers

-- `typeof fileReference === 'object'`
abbrev pub is_object : Value → Bool
is_object null = true
is_object (long l) = true
is_object (obj fields) = true
is_object v = false

abbrev pub is_text : Value → Bool
is_text (str s) = true
is_text v = false

-- `isValidFileReference`
unfoldable pub is_valid_file_reference : Value → Result Bool
unfolding has_property get_property
is_valid_file_reference v =
    and_also (ok (is_object v))
      (and_also (has_property v "file") (get_property v "file" >>= λ file. ok (is_text file)))

-- `!!values.find(…)`: the references are objects, which are truthy.
unfoldable pub finds_reference : List Value → Result Bool
unfolding is_valid_file_reference
finds_reference [] = ok false
finds_reference (v ∷ values) =
    let rest = finds_reference values in
    is_valid_file_reference v >>= λ valid. if valid then ok true else rest

-- `FileReferenceImp.validate`, with the values of the assets' properties; none where they are absent.
unfoldable pub validate_assets : Option (List Value) → Result Bool
unfolding finds_reference
validate_assets none = ok false
validate_assets (some values) = finds_reference values

-- `isCosmosTemplates`; `gte` is that of the package semver.
unfoldable pub is_cosmos_templates :
    (String → String → Bool) → List DataSource → String → Result Bool
unfolding is_runtime_cosmos_ds is_custom_cosmos_ds
is_cosmos_templates gte [] spec_version = err type_error
is_cosmos_templates gte (first ∷ templates) spec_version =
    ok ((is_runtime_cosmos_ds first || is_custom_cosmos_ds first) && gte spec_version "0.2.1")

-- `validateCosmosManifest`, with what parsing the manifest returns or throws.
unfoldable pub validate_cosmos_manifest {ℓ} : {Manifest : Type ℓ} → Result Manifest → Bool
validate_cosmos_manifest (ok manifest) = true
validate_cosmos_manifest (err e) = false
