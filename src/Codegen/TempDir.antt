-- ===== src/Codegen/TempDir.antt =====
-- `tempProtoDir` of packages/common-cosmos/src/codegen/codegen-controller.ts, `tmpProtoDir` of
-- util.ts beside it.
pub mod Left
use subql_cosmos.Base.{String, ◌≡◌, ap, ◌∙◌, Option, none, List, [], ◌∷◌, Fault, Result, ok, err}
use subql_cosmos.Codegen.{FileLib, CustomModule}
use subql_cosmos.Codegen.Cleanup.{Effect, chain}

-- `make_temp_dir` is `makeTempDir` and `copy` is `copySync`; `common_protos` are the paths of the
-- nine packages of protobuf files.
pub record TempTools (S : Type 0) : Type 0 where
  pub basename : String → String
  pub make_temp_dir : Effect S String
  pub copy : String → String → Effect S (Unit {0})
  pub common_protos : List String

module _ {S : Type 0} (lib : FileLib) (temp : TempTools S) where
  unfoldable pub tmp_proto_dir : String → String → String
  tmp_proto_dir tmp_dir proto_path = lib.join tmp_dir (temp.basename proto_path)

  unfoldable pub copy_all : String → List String → Effect S (Unit {0})
  unfolding chain tmp_proto_dir
  copy_all tmp_dir [] s = (ok tt, s)
  copy_all tmp_dir (p ∷ protos) s =
      chain (temp.copy p (tmp_proto_dir tmp_dir p)) (λ copied. copy_all tmp_dir protos) s

  -- What is done after the directory was made.
  unfoldable pub fill : String → String → Effect S String
  unfolding chain copy_all
  fill project tmp_dir = chain (copy_all tmp_dir temp.common_protos) (λ copied.
      chain (temp.copy (lib.join project "./proto") tmp_dir) (λ copied s. (ok tmp_dir, s)))

  unfoldable pub temp_proto_dir : String → Effect S String
  unfolding chain fill
  temp_proto_dir project = chain temp.make_temp_dir (fill project)
