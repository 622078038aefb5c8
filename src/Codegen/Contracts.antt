-- ===== src/Codegen/Contracts.antt =====
-- `generateCosmwasm` of packages/common-cosmos/src/codegen/codegen-controller.ts.
use subql_cosmos.Base.{
  String, Bool, true, false, if◌then◌else◌, List, [], ◌∷◌, map, Option, Result, ok, err,
}
use Prim.Native.String.{◌++◌ as ◌<>◌}
use subql_cosmos.Codegen.{FileLib, IdlObject, CosmwasmRenderJob, prepare_cosmwasm_jobs}
use subql_cosmos.Codegen.Assets.{SourceAssets, prepare_sorted_assets}
use subql_cosmos.Codegen.Cleanup.{Effect, chain}

-- The calls of `generateCosmwasm`; `dirname` is that of the module `path`, and the generator gets
-- the output directory and the contracts, each with its directory.
pub record ContractTools (S : Type 0) : Type 0 where
  pub dirname : String → String
  pub prepare_dir_path : String → Bool → Effect S (Unit {0})
  pub cosmwasm_codegen : String → List (String × String) → Effect S (Unit {0})
  pub load_cosmwasm_abis : String → Result IdlObject
  pub upper_first : Option String → String
  pub render_template : String → CosmwasmRenderJob → Effect S (Unit {0})

abbrev pub interfaces_dir : String
interfaces_dir = "src/types/cosmwasm-interfaces"

abbrev pub wrappers_dir : String
wrappers_dir = "/src/types/cosmwasm-interface-wrappers"

-- `Promise.all` of calls without a value that are all started: the error of the first that threw.
abbrev pub first_fault : Result (Unit {0}) → Result (Unit {0}) → Result (Unit {0})
first_fault (err e) later = err e
first_fault (ok done) later = later

module _ {S : Type 0} where
  abbrev pub both : Effect S (Unit {0}) → Effect S (Unit {0}) → Effect S (Unit {0})
  both a b s = let (r, s') = a s in let (r', s'') = b s' in (first_fault r r', s'')

  -- `Promise.all` of two calls, in the order in which they settle: the second first, or the first.
  unfoldable pub run_both : Bool → Effect S (Unit {0}) → Effect S (Unit {0}) → Effect S (Unit {0})
  run_both second_first a b = if second_first then both b a else both a b

  -- `last_first` tells whether calls that run at once settle from the last to the first, or from the
  -- first to the last.
  module _ (lib : FileLib) (tools : ContractTools S) (project : String) (last_first : Bool) where
    unfoldable pub render_jobs : List CosmwasmRenderJob → Effect S (Unit {0})
    unfolding run_both
    render_jobs [] s = (ok tt, s)
    render_jobs (job ∷ jobs) s =
        run_both last_first
          (tools.render_template
            (lib.join (lib.join project wrappers_dir) (job.contract <> "MsgWrapper.ts")) job)
          (render_jobs jobs) s

    abbrev pub contract_dir : String × String → String × String
    contract_dir (name, dir) = (name, tools.dirname dir)

    -- The `try` block.
    unfoldable pub generate_contracts : List (String × String) → Effect S (Unit {0})
    unfolding chain render_jobs prepare_cosmwasm_jobs
    generate_contracts sorted_assets =
        chain
          (tools.cosmwasm_codegen (lib.join project interfaces_dir)
            (map contract_dir sorted_assets))
          (λ generated.
            chain
              (λ s.
                (prepare_cosmwasm_jobs tools.load_cosmwasm_abis tools.upper_first sorted_assets, s))
              render_jobs)

    -- The `catch` block only reports.
    abbrev pub swallowed : Result (Unit {0}) × S → Result (Unit {0}) × S
    swallowed (r, s) = (ok tt, s)

    unfoldable pub prepare_dirs : Effect S (Unit {0})
    unfolding run_both
    prepare_dirs =
        run_both last_first (tools.prepare_dir_path (lib.join project interfaces_dir) true)
          (tools.prepare_dir_path (lib.join project wrappers_dir) true)

    unfoldable pub generate_sorted : List (String × String) → Effect S (Unit {0})
    unfolding chain prepare_dirs generate_contracts
    generate_sorted [] = tools.prepare_dir_path (lib.join project interfaces_dir) false
    generate_sorted (asset ∷ assets) =
        chain prepare_dirs (λ prepared s. swallowed (generate_contracts (asset ∷ assets) s))

    unfoldable pub generate_cosmwasm : List SourceAssets → Effect S (Unit {0})
    unfolding chain generate_sorted prepare_sorted_assets
    generate_cosmwasm sources =
        chain (λ s. (prepare_sorted_assets lib project sources, s)) generate_sorted
