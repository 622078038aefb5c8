-- ===== src/Codegen/StepTests.antt =====
-- Runs of the generators whose calls are counted.
use subql_cosmos.Base.{
  Option, ℕ, suc, String, ◌≡◌, refl, true, none, some, [], ◌∷◌, ok, err, fail, type_error,
}
use Prim.Native.String.{◌++◌ as ◌<>◌}
use subql_cosmos.Codegen.{FileLib}
use subql_cosmos.Codegen.Assets.{SourceAssets}
use subql_cosmos.Codegen.Cleanup.{Tools, generate_from, generate_proto}
use subql_cosmos.Codegen.Contracts.{ContractTools, generate_cosmwasm}
use subql_cosmos.Codegen.TempDir.{TempTools, temp_proto_dir, fill}
use subql_cosmos.Codegen.TempDir.Left.{Directories, LeftWhereThrown, generate_proto-left_behind}

abbrev lib : FileLib
lib = record { join = λ a b. a <> "/" <> b; exists = λ path. true; upper_first = λ s. s }

-- The file system is the one directory that it may have.
abbrev Disk : Type 0
Disk = Option String

-- The project has no directory of protobuf files.
abbrev temp : TempTools Disk
temp = record {
  basename = λ path. path;
  make_temp_dir = λ disk. (ok "/tmp/x", some "/tmp/x");
  copy = λ from to disk. (fail "ENOENT", disk);
  common_protos = [];
}

abbrev tools : Tools Disk
tools = record {
  temp_proto_dir = temp_proto_dir lib temp ".";
  prepare_dir = λ path disk. (ok tt, disk);
  telescope = λ tmp path disk. (ok tt, disk);
  render = λ path props disk. (ok tt, disk);
  rm = λ path disk. elim path [ none ↦ (err type_error, disk) | some p ↦ (ok tt, none) ];
  engine_message = "";
}

abbrev Holds : String → Disk → Type 0
Holds dir disk = disk ≡ some dir

directories : Directories tools temp Holds
directories = record {
  made = λ dir s s₁ e. cc e;
  copied = λ dir from to s e. e;
  removed = λ dir s e. cc e;
  not_removed = λ dir s e. e;
}

stays : (generate_proto lib tools [] "." none).1 ≡ some "/tmp/x"
unfolding generate_proto generate_from temp_proto_dir fill
stays = refl

generate_proto-left_behind_example :
    LeftWhereThrown
      (Holds "/tmp/x")
      (fill lib temp "." "/tmp/x" (some "/tmp/x")).0
      (generate_proto lib tools [] "." none)
generate_proto-left_behind_example =
    generate_proto-left_behind lib temp tools Holds [] "." "/tmp/x" none (some "/tmp/x") directories
      refl refl

-- The generator of contracts fails.
abbrev contract_tools : ContractTools ℕ
contract_tools = record {
  dirname = λ path. path;
  prepare_dir_path = λ path recreate n. (ok tt, suc n);
  cosmwasm_codegen = λ out contracts n. (fail "no schema", suc n);
  load_cosmwasm_abis = λ path. fail "no schema";
  upper_first = λ o. elim o [ none ↦ "" | some s ↦ s ];
  render_template = λ path job n. (ok tt, suc n);
}

abbrev contract : SourceAssets
contract = record {
  source = record { kind = "cosmos/Runtime"; processor = none; handlers = [] };
  assets = some (("cw20", "cw20.json") ∷ []);
}

-- The error is not seen.
failure_hidden : generate_cosmwasm lib contract_tools "." true (contract ∷ []) 0 ≡ (ok tt, 3)
unfolding generate_cosmwasm
failure_hidden = refl
