-- ===== src/Codegen/Cleanup.antt =====
-- `generateProto` of packages/common-cosmos/src/codegen/codegen-controller.ts: its steps, and the
-- temporary directory.
use subql_cosmos.Base.{
  String, Option, none, some, List, if◌then◌else◌, Fault, thrown, type_error, Result, ok, err,
}
use Prim.Native.String.{◌++◌ as ◌<>◌}
use text.Mathlib.Text.{starts_with}
use subql_cosmos.Codegen.{FileLib, CustomModule, ProtobufRenderProps, prepare_protobuf_render_props}

-- A call that acts on the file system `S`.
abbrev pub Effect : Type 0 → Type 0 → Type 0
Effect S A = S → Result A × S

-- The calls of `generateProto`; `rm` is `fs.rmSync`, whose path may be undefined. `message_of` is
-- the message of an error of the engine.
pub record Tools (S : Type 0) : Type 0 where
  pub temp_proto_dir : Effect S String
  pub prepare_dir : String → Effect S (Unit {0})
  pub telescope : String → String → Effect S (Unit {0})
  pub render : String → List ProtobufRenderProps → Effect S (Unit {0})
  pub rm : Option String → Effect S (Unit {0})
  pub engine_message : String

abbrev pub interface_dir : String
interface_dir = "src/types/proto-interfaces"

module _ {S : Type 0} where
  abbrev pub continue : {A B : Type 0} → Result A → (A → Effect S B) → Effect S B
  continue (ok a) k s = k a s
  continue (err e) k s = (err e, s)

  unfoldable pub chain : {A B : Type 0} → Effect S A → (A → Effect S B) → Effect S B
  chain m k s = let (r, s') = m s in continue r k s'

  module _ (lib : FileLib) (tools : Tools S) where
    -- What follows the creation of the temporary directory in the `try` block.
    unfoldable pub generate_in :
        List (Option (List CustomModule)) → String → String → Effect S (Unit {0})
    unfolding chain prepare_protobuf_render_props
    generate_in chaintypes project tmp =
        let output = lib.join project interface_dir in
        chain (λ s. (prepare_protobuf_render_props lib (some chaintypes) project, s))
          (λ props. chain (tools.prepare_dir output) (λ prepared.
            chain (tools.telescope tmp output) (λ generated.
              tools.render (lib.join project "src/types/CosmosMessageTypes.ts") props)))

    abbrev pub message_of : Fault → String
    message_of type_error = tools.engine_message
    message_of (thrown e) = e.message

    abbrev pub advice : String → String
    advice message =
        if starts_with message "Dependency"
        then "Please add the missing protobuf file to ./proto directory"
        else ""

    -- The `catch` block.
    abbrev pub failed : Fault → Fault
    failed fault = thrown (record {
      name = "Error";
      message =
          "Failed to generate from protobufs. "
          <> (message_of fault <> (", " <> advice (message_of fault)));
    })

    abbrev pub caught : Result (Unit {0}) → Result (Unit {0})
    caught (ok done) = ok done
    caught (err fault) = err (failed fault)

    -- What the function returns or throws, after what the `finally` block did.
    abbrev pub finally : Result (Unit {0}) → Result (Unit {0}) → Result (Unit {0})
    finally (ok done) r = r
    finally (err fault) r = err fault

    abbrev pub cleaned : Option String → Result (Unit {0}) × S → Result (Unit {0}) × S
    cleaned tmp (r, s) = let (removed, s') = tools.rm tmp s in (finally removed (caught r), s')

    unfoldable pub generate_from :
        List (Option (List CustomModule)) → String → Result String × S → Result (Unit {0}) × S
    unfolding generate_in
    generate_from chaintypes project (ok tmp, s) =
        cleaned (some tmp) (generate_in chaintypes project tmp s)
    generate_from chaintypes project (err fault, s) = cleaned none (err fault, s)

    unfoldable pub generate_proto : List (Option (List CustomModule)) → String → Effect S (Unit {0})
    generate_proto chaintypes project s = generate_from chaintypes project (tools.temp_proto_dir s)
