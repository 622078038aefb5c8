-- ===== src/Processors.antt =====
-- Handler processors, dynamic data sources and sandboxes: ds-processor.service.ts,
-- dynamic-ds.service.ts and sandbox.service.ts of packages/node/src/indexer.
pub mod Versions
pub mod Dynamic
mod Tests
use subql_cosmos.Base.{
  ℕ, String, ◌≡◌, Bool, true, false, not, Option, none, some, List, [], ◌∷◌, ◌++◌, ◌==◌,
  text_strict, if◌then◌else◌, Fault, type_error, thrown, Result, ok, err, fail, ◌>>=◌,
}
use Prim.Native.String.{◌++◌ as ◌<>◌}
use subql_cosmos.Value.{Value}
use subql_cosmos.Project.{DataSource, is_custom_cosmos_ds}

-- `F` is the type of filters, `I` of inputs, `E` of results, `D` of data sources, `C` of clients.
pub record FilterParams (F I D : Type 0) : Type 0 where
  pub filter : Option F
  pub input : I
  pub ds : D

pub record TransformParams (F I D C : Type 0) : Type 0 where
  pub transform_filter : Option F
  pub transform_input : I
  pub transform_ds : D
  pub api : C
  pub assets : Option (List (String × String))

pub record OldProcessor (F I E D C : Type 0) : Type 0 where
  pub old_filter : Option F → I → D → Result Bool
  pub old_transformer : I → D → C → Option (List (String × String)) → Result E

pub record NewProcessor (F I E D C : Type 0) : Type 0 where
  pub new_filter : FilterParams F I D → Result Bool
  pub new_transformer : TransformParams F I D C → Result (List E)

-- A processor by its `specVersion`: `old` has none, `other` has the version that is given.
pub data Processor (F I E D C : Type 0) : Type 0 where
  old : OldProcessor F I E D C → Processor F I E D C
  new : NewProcessor F I E D C → Processor F I E D C
  other : String → Processor F I E D C

abbrev pub version_is : String → Option String → Bool
version_is wanted none = false
version_is wanted (some version) = version == wanted

abbrev pub is_absent : Option String → Bool
is_absent none = true
is_absent (some version) = false

module _ {F I E D C : Type 0} where
  unfoldable pub spec_version : Processor F I E D C → Option String
  spec_version (old p) = none
  spec_version (new p) = some "1.0.0"
  spec_version (other version) = some version

  unfoldable pub is_second_layer_handler_processor_0_0_0 : Processor F I E D C → Bool
  unfolding spec_version
  is_second_layer_handler_processor_0_0_0 p = is_absent (spec_version p)

  unfoldable pub is_second_layer_handler_processor_1_0_0 : Processor F I E D C → Bool
  unfolding spec_version
  is_second_layer_handler_processor_1_0_0 p = version_is "1.0.0" (spec_version p)

  -- `{...processor, specVersion: '1.0.0', filterProcessor, transformer}`
  unfoldable pub upgrade : Processor F I E D C → Processor F I E D C
  upgrade (old p) = new (record {
    new_filter = λ params. p.old_filter params.filter params.input params.ds;
    new_transformer = λ params.
        p.old_transformer params.transform_input params.transform_ds params.api params.assets
        >>= λ res. ok (res ∷ []);
  })
  upgrade p = p

  unfoldable pub as_second_layer_handler_processor_1_0_0 :
      Processor F I E D C → Result (Processor F I E D C)
  unfolding is_second_layer_handler_processor_1_0_0 is_second_layer_handler_processor_0_0_0 upgrade
  as_second_layer_handler_processor_1_0_0 p =
      if is_second_layer_handler_processor_1_0_0 p
      then ok p
      else if not (is_second_layer_handler_processor_0_0_0 p)
      then fail "Unsupported ds processor version"
      else ok (upgrade p)

-- A template, without its name, and the data source that is made of it.
pub record Template : Type 0 where
  pub name : String
  pub source : DataSource
  pub options : List (String × Value)

pub record DatasourceParams : Type 0 where
  pub template_name : String
  pub args : List (String × Value)
  pub start_block : ℕ

pub record DynamicDs : Type 0 where
  pub dynamic_source : DataSource
  pub dynamic_options : List (String × Value)
  pub dynamic_start : ℕ

unfoldable pub find_template : String → List Template → Option Template
find_template name [] = none
find_template name (t ∷ ts) =
    let rest = find_template name ts in if t.name == name then some t else rest

-- `validate` is `validateCustomDs` of the core library; `engine_message` is the message of an error
-- of the engine.
module _ (validate : DynamicDs → Result (Unit {0})) (engine_message : String) where
  abbrev pub fault_message : Fault → String
  fault_message type_error = engine_message
  fault_message (thrown e) = e.message

  -- The `catch` block.
  abbrev pub reported : DynamicDs → Result (Unit {0}) → Result DynamicDs
  reported ds (ok done) = ok ds
  reported ds (err fault) = fail ("Unable to create dynamic datasource.\n " <> fault_message fault)

  -- `{...options, ...args}` as a list that is read from its front.
  unfoldable pub instantiate : DatasourceParams → Template → Result DynamicDs
  unfolding is_custom_cosmos_ds
  instantiate params template =
      if is_custom_cosmos_ds template.source
      then (let ds : DynamicDs = record {
        dynamic_source = template.source;
        dynamic_options = params.args ++ template.options;
        dynamic_start = params.start_block;
      } in
          reported ds (validate ds))
      else ok (record {
        dynamic_source = template.source;
        dynamic_options = template.options;
        dynamic_start = params.start_block;
      })

  -- Taking `name` out of the clone of `undefined` throws, so the check of the template that follows
  -- is never reached without one.
  unfoldable pub get_datasource : List Template → DatasourceParams → Result DynamicDs
  unfolding find_template instantiate
  get_datasource templates params = elim (find_template params.template_name templates) [
    | none ↦ err type_error
    | some template ↦ instantiate params template
  ]

-- The sandboxes by entry, and the globals set on them in order.
pub record Sandboxes (P : Type 0) : Type 0 where
  pub processor_cache : List (String × P)
  pub frozen : List (P × String)

module _ {P : Type 0} (make : String → P) (unsafe : Bool) where
  unfoldable pub cached : String → List (String × P) → Option P
  cached entry [] = none
  cached entry ((key, p) ∷ cache) =
      let rest = cached entry cache in if key == entry then some p else rest

  -- The calls of `freeze`.
  abbrev pub freeze : P → Sandboxes P → Sandboxes P
  freeze p s = record s {
    frozen =
        s.frozen
        ++ ((p, "api") ∷ (p, "registry") ∷ (if unsafe then (p, "unsafeApi") ∷ [] else []))
        ++ ((p, "chainId") ∷ []);
  }

  abbrev pub from_cache : String → Option P → Sandboxes P → P × Sandboxes P
  from_cache entry (some p) s = (p, freeze p s)
  from_cache entry none s =
      let p = make entry in
      (p, freeze p (record s { processor_cache = (entry, p) ∷ s.processor_cache }))

  unfoldable pub get_ds_sandbox : String → Sandboxes P → P × Sandboxes P
  unfolding cached
  get_ds_sandbox entry s = from_cache entry (cached entry s.processor_cache) s
