-- ===== src/Processors/Tests.antt =====
-- Processors, templates and sandboxes that are concrete.
use subql_cosmos.Base.{
  ℕ, String, ◌≡◌, ◌≢◌, All, refl, true, some, [], ◌∷◌, Result, ok, err, type_error,
}
use subql_cosmos.Value.{str}
use subql_cosmos.Processors.{
  FilterParams, TransformParams, OldProcessor, NewProcessor, Processor, old, new, spec_version,
  as_second_layer_handler_processor_1_0_0, Template, DatasourceParams, DynamicDs, get_datasource,
  Sandboxes, upgrade,
}
use subql_cosmos.Processors.Versions.{one_result, as_second_layer_handler_processor_1_0_0_lem}
use subql_cosmos.Processors.Dynamic.{FirstNamed, MadeOf, get_datasource_lem}

-- Filters and inputs are numbers, results are texts.
abbrev first_version : OldProcessor ℕ ℕ String ℕ ℕ
first_version = record {
  old_filter = λ filter input ds. ok true;
  old_transformer = λ input ds api assets. ok "event";
}

abbrev converted : Processor ℕ ℕ String ℕ ℕ
unfolding upgrade
converted = upgrade (old first_version)

conversion : as_second_layer_handler_processor_1_0_0 (old first_version) ≡ ok converted
unfolding as_second_layer_handler_processor_1_0_0
conversion = refl

as_second_layer_handler_processor_1_0_0_lem_example :
    (spec_version converted ≡ some "1.0.0")
    × (as_second_layer_handler_processor_1_0_0 converted ≡ ok converted)
    × ((o : OldProcessor ℕ ℕ String ℕ ℕ)
        → old first_version ≡ old o
        → (n : NewProcessor ℕ ℕ String ℕ ℕ) × (converted ≡ new n)
          × ((x : FilterParams ℕ ℕ ℕ) → n.new_filter x ≡ o.old_filter x.filter x.input x.ds)
          × ((x : TransformParams ℕ ℕ ℕ ℕ)
              → n.new_transformer x
                ≡ one_result (o.old_transformer x.transform_input x.transform_ds x.api x.assets)))
as_second_layer_handler_processor_1_0_0_lem_example =
    as_second_layer_handler_processor_1_0_0_lem (old first_version) converted conversion

abbrev erc20 : Template
erc20 = record {
  name = "erc20";
  source = record { kind = "cosmos/EthermintEvm"; processor = some "bundle.js"; handlers = [] };
  options = ("abi", str "erc20") ∷ [];
}

abbrev at_address : DatasourceParams
at_address = record { template_name = "erc20"; args = ("address", str "0x1") ∷ []; start_block = 7 }

abbrev valid : DynamicDs → Result (Unit {0})
valid ds = ok tt

get_datasource_lem_example :
    ((ds : DynamicDs)
      → get_datasource valid "" (erc20 ∷ []) at_address ≡ ok ds
      → (template : Template) × FirstNamed "erc20" (erc20 ∷ []) template
        × MadeOf valid "" at_address template ds)
    × (All (λ t. t.name ≢ "erc20") (erc20 ∷ [])
        → get_datasource valid "" (erc20 ∷ []) at_address ≡ err type_error)
get_datasource_lem_example = get_datasource_lem valid "" (erc20 ∷ []) at_address

unknown_template : get_datasource valid "" [] at_address ≡ err type_error
unfolding get_datasource
unknown_template = refl

abbrev nothing_cached : Sandboxes String
nothing_cached = record { processor_cache = []; frozen = [] }

abbrev sandbox : String → String
sandbox entry = entry
