-- ===== src/Codegen.antt =====
-- The code generator: packages/common-cosmos/src/codegen/codegen-controller.ts.
pub mod Props
pub mod Assets
pub mod Cleanup
pub mod Contracts
pub mod TempDir
mod Tests
mod StepTests
use subql_cosmos.Base.{
  ℕ, zero, suc, String, Bool, true, false, not, ◌&&◌, ◌||◌, Option, none, some, List, [], ◌∷◌, ◌++◌,
  map, ◌==◌, text_strict, nat_strict, if◌then◌else◌, JsError, Fault, type_error, thrown, Result, ok,
  err, fail, ◌>>=◌, length,
}
use Prim.Native.Char.{Char, code}
use Prim.Native.String
use Prim.Native.String.{◌++◌ as ◌<>◌}
use text.Mathlib.Text.{starts_with}

drop_chars : ℕ → String → String
drop_chars zero s = s
drop_chars (suc n) String.[] = String.[]
drop_chars (suc n) (String.◌∷◌ c s) = drop_chars n s

-- `/^\.\/proto\//`
strip_proto_dir : String → String
unfolding drop_chars
strip_proto_dir s = if starts_with s "./proto/" then drop_chars 8 s else s

-- `/\.proto$/`
strip_proto_suffix : String → String
strip_proto_suffix String.[] = String.[]
strip_proto_suffix (String.◌∷◌ c s) =
    let rest = strip_proto_suffix s in
    if String.◌∷◌ c s == ".proto" then String.[] else String.◌∷◌ c rest

dots_to_slashes : String → String
dots_to_slashes String.[] = String.[]
dots_to_slashes (String.◌∷◌ c s) = String.◌∷◌ (if code c == 46 then "/" else c) (dots_to_slashes s)

unfoldable pub process_proto_file_path : String → String
unfolding strip_proto_dir strip_proto_suffix dots_to_slashes
process_proto_file_path path =
    "./proto-interfaces/" <> dots_to_slashes (strip_proto_suffix (strip_proto_dir path))

-- `split(/(?<=\\\\)\/|(?<!\\)\//).join('.')`: a slash after exactly one backslash stays; `before`
-- and `last` tell whether the two characters read before are backslashes.
slashes_to_dots : Bool → Bool → String → String
slashes_to_dots before last String.[] = String.[]
slashes_to_dots before last (String.◌∷◌ c s) =
    String.◌∷◌ (if code c == 47 && (before && last || not last) then "." else c)
      (slashes_to_dots last (code c == 92) s)

unfoldable pub path_to_namespace : String → String
unfolding strip_proto_dir strip_proto_suffix slashes_to_dots
path_to_namespace path = slashes_to_dots false false (strip_proto_suffix (strip_proto_dir path))

-- `split('.')`, with the part read so far.
split_at_dots : String → String → List String
split_at_dots part String.[] = part ∷ []
split_at_dots part (String.◌∷◌ c s) =
    let same = split_at_dots (part <> String.◌∷◌ c String.[]) s in
    let next = split_at_dots "" s in if code c == 46 then part ∷ next else same

join_parts : List String → String
join_parts [] = ""
join_parts (s ∷ ss) = s <> join_parts ss

-- A custom module of a chain type, under its key.
pub record CustomModule : Type 0 where
  pub key : String
  pub file : String
  pub messages : List String

pub record ProtobufRenderProps : Type 0 where
  pub namespace : String
  pub name : String
  pub message_names : List String
  pub path : String

-- `join` is that of the module `path`, `exists` is `fs.existsSync`, `upper_first` lodash's.
pub record FileLib : Type 0 where
  pub join : String → String → String
  pub exists : String → Bool
  pub upper_first : String → String

-- `m.indexOf('Msg') === 0`
abbrev pub is_msg : String → Bool
is_msg m = starts_with m "Msg"

unfoldable pub msgs_of : List String → List String
msgs_of [] = []
msgs_of (m ∷ ms) = let rest = msgs_of ms in if is_msg m then m ∷ rest else rest

module _ (lib : FileLib) where
  unfoldable pub path_to_name : String → String
  unfolding path_to_namespace split_at_dots join_parts
  path_to_name path = join_parts (map lib.upper_first (split_at_dots "" (path_to_namespace path)))

  unfoldable pub is_proto_path : String → String → Bool
  is_proto_path file project = starts_with (lib.join project file) (lib.join project "./proto/")

  unfoldable pub props_of : CustomModule → List String → List ProtobufRenderProps
  unfolding path_to_namespace path_to_name process_proto_file_path
  props_of m [] = []
  props_of m (msg ∷ msgs) =
      record {
        namespace = path_to_namespace m.file;
        name = path_to_name m.file;
        message_names = msg ∷ msgs;
        path = process_proto_file_path m.file;
      }
      ∷ []

  abbrev pub missing : CustomModule → String
  missing m = "Error: chainType " <> (m.key <> (", file " <> (m.file <> " does not exist")))

  -- One entry of a chain type; a file outside of the proto directory is only reported.
  unfoldable pub module_props : String → CustomModule → Result (List ProtobufRenderProps)
  unfolding props_of msgs_of
  module_props project m =
      if not (lib.exists (lib.join project m.file))
      then fail (missing m)
      else ok (props_of m (msgs_of m.messages))

  unfoldable pub chaintype_props : String → List CustomModule → Result (List ProtobufRenderProps)
  unfolding module_props
  chaintype_props project [] = ok []
  chaintype_props project (m ∷ ms) =
      module_props project m >>= λ props. chaintype_props project ms >>= λ rest. ok (props ++ rest)

  -- `filter(Boolean)` and `flatMap`: an absent chain type is passed over.
  unfoldable pub chaintypes_props :
      String → List (Option (List CustomModule)) → Result (List ProtobufRenderProps)
  unfolding chaintype_props
  chaintypes_props project [] = ok []
  chaintypes_props project (none ∷ chaintypes) = chaintypes_props project chaintypes
  chaintypes_props project (some chaintype ∷ chaintypes) =
      chaintype_props project chaintype >>= λ props.
      chaintypes_props project chaintypes >>= λ rest. ok (props ++ rest)

  unfoldable pub prepare_protobuf_render_props :
      Option (List (Option (List CustomModule))) → String → Result (List ProtobufRenderProps)
  unfolding chaintypes_props
  prepare_protobuf_render_props none project = ok []
  prepare_protobuf_render_props (some chaintypes) project = chaintypes_props project chaintypes

-- The schemas of a contract's three messages, by their titles.
pub record IdlObject : Type 0 where
  pub instantiate : Option String
  pub migrate : Option String
  pub execute : Option String

pub record CosmwasmRenderJob : Type 0 where
  pub contract : String
  pub messages : List (String × String)

-- The loop that leaves out empty names.
unfoldable pub clean : List (String × String) → List (String × String)
clean [] = []
clean ((key, title) ∷ messages) =
    let rest = clean messages in if title == "" then rest else (key, title) ∷ rest

-- `upperFirst(undefined)` is the empty text.
module _ (load : String → Result IdlObject) (upper_first : Option String → String) where
  unfoldable pub job_of : String × String → Result CosmwasmRenderJob
  unfolding clean
  job_of (key, value) = load value >>= λ contract. ok (record {
    contract = upper_first (some key);
    messages = clean (
        ("MsgInstantiateContract", upper_first contract.instantiate)
        ∷ ("MsgMigrateContract", upper_first contract.migrate)
        ∷ ("MsgExecuteContract", upper_first contract.execute)
        ∷ []);
  })

  unfoldable pub prepare_cosmwasm_jobs : List (String × String) → Result (List CosmwasmRenderJob)
  unfolding job_of
  prepare_cosmwasm_jobs [] = ok []
  prepare_cosmwasm_jobs (asset ∷ assets) =
      job_of asset >>= λ job. prepare_cosmwasm_jobs assets >>= λ jobs. ok (job ∷ jobs)
