-- ===== src/Codegen/Tests.antt =====
-- Paths, chain types and contracts that are concrete.
use subql_cosmos.Base.{
  ℕ, suc, String, ◌≡◌, refl, true, Option, none, some, List, [], ◌∷◌, Result, ok, err, fail,
  type_error, ◌==◌, text_strict, if◌then◌else◌,
}
use Prim.Native.String.{◌++◌ as ◌<>◌}
use subql_cosmos.Codegen.{
  FileLib, CustomModule, ProtobufRenderProps, process_proto_file_path, path_to_namespace,
  path_to_name, prepare_protobuf_render_props, IdlObject, prepare_cosmwasm_jobs,
}
use subql_cosmos.Codegen.Assets.{SourceAssets, prepare_sorted_assets}
use subql_cosmos.Codegen.Props.{modules, planned, prepare_protobuf_render_props_lem}
use subql_cosmos.Codegen.Cleanup.{Tools, generate_in, generate_from, generate_proto}

-- The first letter of one word is raised.
abbrev raise : String → String
raise s = if s == "cosmos" then "Cosmos" else s

abbrev lib : FileLib
lib = record { join = λ a b. a <> "/" <> b; exists = λ path. true; upper_first = raise }

tx_file :
    process_proto_file_path "./proto/cosmos/auth/v1beta1/tx.proto"
    ≡ "./proto-interfaces/cosmos/auth/v1beta1/tx"
unfolding process_proto_file_path
tx_file = refl

tx_namespace : path_to_namespace "./proto/cosmos/auth/v1beta1/tx.proto" ≡ "cosmos.auth.v1beta1.tx"
unfolding path_to_namespace
tx_namespace = refl

tx_name : path_to_name lib "./proto/cosmos/tx.proto" ≡ "Cosmostx"
unfolding path_to_name
tx_name = refl

abbrev swap : CustomModule
swap = record {
  key = "osmosis";
  file = "./proto/osmosis/tx.proto";
  messages = "MsgSwap" ∷ "Pool" ∷ [];
}

abbrev chaintypes : List (Option (List CustomModule))
chaintypes = none ∷ some (swap ∷ []) ∷ []

abbrev swap_props : List ProtobufRenderProps
swap_props =
    record {
      namespace = "osmosis.tx";
      name = "osmosistx";
      message_names = "MsgSwap" ∷ [];
      path = "./proto-interfaces/osmosis/tx";
    }
    ∷ []

prepared : prepare_protobuf_render_props lib (some chaintypes) "." ≡ ok swap_props
unfolding prepare_protobuf_render_props
prepared = refl

prepare_protobuf_render_props_lem_example :
    prepare_protobuf_render_props lib (some chaintypes) "." ≡ planned lib "." (modules chaintypes)
prepare_protobuf_render_props_lem_example = prepare_protobuf_render_props_lem lib "." chaintypes

-- Every call counts; telescope fails where it is told to.
abbrev tools : Result String → Result (Unit {0}) → Tools ℕ
tools made generated = record {
  temp_proto_dir = λ n. (made, suc n);
  prepare_dir = λ path n. (ok tt, suc n);
  telescope = λ tmp path n. (generated, suc n);
  render = λ path props n. (ok tt, suc n);
  rm = λ path n. (elim path [ none ↦ err type_error | some p ↦ ok tt ], suc n);
  engine_message = "";
}

-- The error of a step is formatted, with advice.
step_failed :
    (generate_proto lib (tools (ok "/tmp/x") (fail "Dependency gogoproto")) [] "." 0).0
    ≡ fail (
        "Failed to generate from protobufs. Dependency gogoproto, "
        <> "Please add the missing protobuf file to ./proto directory")
unfolding generate_proto generate_from generate_in prepare_protobuf_render_props
step_failed = refl

abbrev cw20 : IdlObject
cw20 = record { instantiate = some "cosmos"; migrate = none; execute = some "ExecuteMsg" }

abbrev title : Option String → String
title none = ""
title (some s) = raise s

-- A title that is missing leaves its message out.
cw20_jobs :
    prepare_cosmwasm_jobs (λ file. ok cw20) title (("cw20", "./cw20.json") ∷ [])
    ≡ ok (
        record {
          contract = "cw20";
          messages =
              ("MsgInstantiateContract", "Cosmos") ∷ ("MsgExecuteContract", "ExecuteMsg") ∷ [];
        }
        ∷ [])
unfolding prepare_cosmwasm_jobs
cw20_jobs = refl

abbrev contract : SourceAssets
contract = record {
  source = record { kind = "cosmos/Runtime"; processor = none; handlers = [] };
  assets = some (("cw20", "cw20.json") ∷ []);
}

abbrev sorted : List (String × String)
sorted = ("cw20", "./cw20.json") ∷ []

assets_sorted : prepare_sorted_assets lib "." (contract ∷ []) ≡ ok sorted
unfolding prepare_sorted_assets
assets_sorted = refl
