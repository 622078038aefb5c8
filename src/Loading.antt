-- ===== src/Loading.antt =====
-- Loading a project: packages/node/src/configure/SubqueryProject.ts, with `processNetworkConfig` of
-- packages/node/src/utils/project.ts and the manifest versions of
-- packages/common-cosmos/src/project/versioned/ProjectManifestVersioned.ts.
pub mod Network
pub mod Laws
pub mod Created
mod Tests
use subql_cosmos.Base.{
  String, Bool, true, false, not, ◌&&◌, Option, none, some, List, [], ◌∷◌, ◌==◌, text_strict,
  if◌then◌else◌, Result, ok, err, fail, ◌>>=◌, thrown,
}
use Prim.Native.String.{◌++◌ as ◌<>◌}
use subql_cosmos.Filter.{OneOrMany, single, many}
use subql_cosmos.Loading.Network.{
  NetworkConfig, NetConfig, NetworkLib, is_set, process_network_config,
}

-- The fields of a manifest that the loader reads; what is in the data sources and the templates is
-- for the node's core library.
pub record Manifest (Source Template : Type 0) : Type 0 where
  pub spec_version : String
  pub network : NetworkConfig
  pub schema_file : String
  pub data_sources : List Source
  pub templates : List Template
  pub node_version : String

pub record SubqueryProject (Root Schema Source Template : Type 0) : Type 0 where
  pub id : String
  pub root : String
  pub net : NetConfig Root
  pub sources : List Source
  pub schema : Schema
  pub project_templates : List Template
  pub runner_version : String

-- `reader_root` is the reader's root, `validate` the manifest's own validation, the other functions
-- are those of the same name of the node's core library.
pub record LoaderLib (Root Schema Source Template : Type 0) : Type 0 where
  pub network_lib : NetworkLib Root
  pub reader_root : Option String
  pub validate : Manifest Source Template → Result (Unit {0})
  pub build_schema : Option String → Result Schema
  pub update_data_sources : List Source → String → Result (List Source)
  pub load_templates : List Template → String → Result (List Template)
  pub validate_semver : String → String → Bool
  pub package_version : String

-- `{...network, ...overrides}`: a field of the overrides wins where it is there.
abbrev pub or_else {ℓ} : {A : Type ℓ} → Option A → Option A → Option A
or_else (some a) b = some a
or_else none b = b

unfoldable pub override : NetworkConfig → NetworkConfig → NetworkConfig
override network overrides = record {
  chain_id = or_else overrides.chain_id network.chain_id;
  genesis_hash = or_else overrides.genesis_hash network.genesis_hash;
  endpoint = or_else overrides.endpoint network.endpoint;
  chaintypes = or_else overrides.chaintypes network.chaintypes;
}

-- A single endpoint becomes a list of one.
abbrev pub as_list : Option (OneOrMany String) → Option (OneOrMany String)
as_list (some (single url)) = some (many (url ∷ []))
as_list endpoint = endpoint

unfoldable pub with_endpoints : NetworkConfig → NetworkConfig
with_endpoints network = record network { endpoint = as_list network.endpoint }

-- An array is there even if it is empty; a text that is empty is not.
abbrev pub has_endpoint : Option (OneOrMany String) → Bool
has_endpoint none = false
has_endpoint (some (single url)) = not (url == "")
has_endpoint (some (many urls)) = true

abbrev pub text_of_chain : Option String → String
text_of_chain none = "undefined"
text_of_chain (some id) = id

module _ {Root Schema Source Template : Type 0} (lib : LoaderLib Root Schema Source Template) where
  -- `getFile` of the schema; its error is replaced.
  abbrev pub fetched_schema : String → Result (Option String) → Result (Option String)
  fetched_schema file (ok text) = ok text
  fetched_schema file (err fault) = fail ("unable to fetch the schema from " <> file)

  abbrev pub checked_endpoint : NetConfig Root → Result (Unit {0})
  checked_endpoint network =
      if has_endpoint network.net_endpoint
      then ok tt
      else fail (
          "Network endpoint must be provided for network. chainId=\""
          <> (text_of_chain network.net_chain_id <> "\""))

  abbrev pub checked_version : String → Result (Unit {0})
  checked_version version =
      if lib.validate_semver lib.package_version version
      then ok tt
      else fail (
          "Runner require node version " <> (version <> (", current node " <> lib.package_version)))

  -- `reader.root ? reader.root : path`
  abbrev pub id_of : String → String
  id_of path = elim lib.reader_root [ none ↦ path | some root ↦ if root == "" then path else root ]

  unfoldable pub load_project_from_manifest_base :
      Manifest Source Template
      → String
      → String
      → NetworkConfig
      → Result (SubqueryProject Root Schema Source Template)
  unfolding process_network_config override with_endpoints
  load_project_from_manifest_base manifest path root overrides =
      process_network_config lib.network_lib (override (with_endpoints manifest.network) overrides)
      >>= λ network. checked_endpoint network >>= λ reachable.
          fetched_schema manifest.schema_file (lib.network_lib.get_file manifest.schema_file)
          >>= λ text. lib.build_schema text >>= λ schema.
              lib.update_data_sources manifest.data_sources root >>= λ sources.
              lib.load_templates manifest.templates root >>= λ templates.
              checked_version manifest.node_version >>= λ compatible. ok (record {
                id = id_of path;
                root = root;
                net = network;
                sources = sources;
                schema = schema;
                project_templates = templates;
                runner_version = manifest.node_version;
              })

  -- The constructor of `CosmosProjectManifestVersioned`, and its validation. A manifest is the fields
  -- that are read of it, which `plainToInstance` keeps.
  unfoldable pub parse_cosmos_project_manifest :
      Manifest Source Template → Result (Manifest Source Template)
  parse_cosmos_project_manifest raw =
      if raw.spec_version == "1.0.0"
      then (lib.validate raw >>= λ valid. ok raw)
      else fail "specVersion not supported for project manifest file"

  unfoldable pub create :
      String
      → Option (Manifest Source Template)
      → String
      → NetworkConfig
      → Result (SubqueryProject Root Schema Source Template)
  unfolding load_project_from_manifest_base parse_cosmos_project_manifest
  create path none root overrides = fail ("Get manifest from project path " <> (path <> " failed"))
  create path (some raw) root overrides = parse_cosmos_project_manifest raw >>= λ manifest.
      if not (manifest.spec_version == "1.0.0")
      then fail "Manifest specVersion <1.0.0 is not supported"
      else load_project_from_manifest_base manifest path root overrides
