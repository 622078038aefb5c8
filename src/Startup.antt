-- ===== src/Startup.antt =====
-- How the node starts: `bootstrap` of packages/node/src/init.ts, `initWorker` of
-- packages/node/src/indexer/worker/worker.ts, `DictionaryService.create` of
-- packages/node/src/indexer/dictionary.service.ts and the choice of the block dispatcher in
-- packages/node/src/indexer/fetch.module.ts.
pub mod Laws
mod Tests
use subql_cosmos.Base.{
  ℕ, zero, suc, String, Bool, true, false, not, Option, none, some, List, [], ◌∷◌, ◌++◌, ◌==◌,
  nat_strict, if◌then◌else◌, Fault, JsError, Result, ok, err, thrown, fail, ◌>>=◌,
}
use subql_cosmos.Base.Number.{Number, nan, int, ℤ, pos}

-- What the start does, in the order in which it is called.
pub data Step : Type 0 where
  create_app init_app : Step
  init_api init_project init_fetch : Step
  enable_shutdown_hooks : Step
  listen : Number → Step
  init_worker_services : Step
  exit : ℕ → Step

-- `parseInt(x)` as a number or `null`.
abbrev pub port_number : Number → Option Number
port_number nan = none
port_number p = some p

-- `port_number(argv.port) ?? (await findAvailablePort(DEFAULT_PORT))`
abbrev pub chosen_port : Number → Option Number → Option Number
chosen_port argument available = elim (port_number argument) [ none ↦ available | some p ↦ some p ]

-- `!port` of a number; a port that was not found is undefined.
abbrev pub is_falsy : Number → Bool
is_falsy nan = true
is_falsy (int (pos zero)) = true
is_falsy p = false

-- `attempt` is what each call returns or throws. The steps are those that were begun, in order; the
-- `catch` block ends the process.
module _ (attempt : Step → Result (Unit {0})) where
  -- A call in the `try` block, and the steps that follow where it returns.
  abbrev pub begin : Step → List Step → List Step
  begin s rest = s ∷ elim (attempt s) [ ok done ↦ rest | err e ↦ exit 1 ∷ [] ]

  unfoldable pub start_app : Number → List Step
  start_app port = begin create_app (
      begin init_app (
        begin init_api (
          begin init_project
            (begin init_fetch (begin enable_shutdown_hooks (begin (listen port) []))))))

  unfoldable pub bootstrap_at : Option Number → List Step
  unfolding start_app
  bootstrap_at none = exit 1 ∷ []
  bootstrap_at (some port) = if is_falsy port then exit 1 ∷ [] else start_app port

  -- `bootstrap`, by the number that the argument `port` spells and the port that was found.
  unfoldable pub bootstrap : Number → Option Number → List Step
  unfolding bootstrap_at
  bootstrap argument available = bootstrap_at (chosen_port argument available)

  -- `initWorker`, which throws what a step throws.
  unfoldable pub init_worker : Result (Unit {0})
  init_worker = attempt create_app >>= λ app.
      attempt init_app >>= λ ready. attempt init_project >>= λ project. attempt init_worker_services

-- One dictionary endpoint, or several.
pub data Endpoints : Type 0 where
  one : String → Endpoints
  several : List String → Endpoints

abbrev pub no_several : JsError
no_several = record {
  name = "AssertionError";
  message = "Cosmos doesn't yet support multiple dictionary endpoints";
}

-- The assertion that the URL is a text.
abbrev pub one_endpoint : Option Endpoints → Result String
one_endpoint (some (one url)) = ok url
one_endpoint endpoints = err (thrown no_several)

-- The URL that `DictionaryService.create` gives the service, by the endpoint in the manifest and
-- what `resolveDictionary` of the node's core library finds.
unfoldable pub dictionary_url : Option Endpoints → Result (Option Endpoints) → Result String
dictionary_url (some endpoints) resolved = one_endpoint (some endpoints)
dictionary_url none resolved = resolved >>= λ found. one_endpoint found

pub data Dispatcher : Type 0 where
  worker_block_dispatcher block_dispatcher : Dispatcher

-- The factory of `IBlockDispatcher`, by the number of workers that is configured.
unfoldable pub make_dispatcher : Option ℕ → Dispatcher
make_dispatcher none = block_dispatcher
make_dispatcher (some workers) = worker_block_dispatcher
