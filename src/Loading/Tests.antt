-- ===== src/Loading/Tests.antt =====
-- A project with one chain type.
use subql_cosmos.Base.{String, ◌≡◌, refl, true, false, ◌&&◌, none, some, [], ◌∷◌, if◌then◌else◌, ok}
use subql_cosmos.Filter.{single, many}
use subql_cosmos.Loading.Network.{
  ChainTypeFile, NetworkConfig, NetConfig, NetworkLib, is_set, process_network_config,
}
use subql_cosmos.Loading.{Manifest, SubqueryProject, LoaderLib, create}
use subql_cosmos.Loading.Laws.{Loaded, process_network_config-Loaded}
use subql_cosmos.Loading.Created.{Created, create-Created}

abbrev gamm : ChainTypeFile
gamm = record { file = "./proto/osmosis/gamm.proto"; messages = "MsgSwap" ∷ [] }

-- The genesis hash stands for the chain id.
abbrev network : NetworkConfig
network = record {
  chain_id = none;
  genesis_hash = some "osmosis-1";
  endpoint = some (single "https://rpc.osmosis.example");
  chaintypes = some (("osmosis", gamm) ∷ []);
}

-- A root is the text of its file.
abbrev lib : NetworkLib String
lib = record {
  get_file = λ file. ok (some "syntax");
  new_root = "";
  add = λ root proto. ok proto;
  parse = λ text. ok (some "osmosis.gamm.v1beta1", text);
}

abbrev loaded : NetConfig String
loaded = record {
  net_chain_id = some "osmosis-1";
  net_endpoint = some (single "https://rpc.osmosis.example");
  net_chaintypes =
      (
        "osmosis",
        record { chaintype = gamm; package_name = some "osmosis.gamm.v1beta1"; proto = "syntax" },
      )
      ∷ [];
  proto_root = some "syntax";
}

processed : process_network_config lib network ≡ ok loaded
unfolding process_network_config
processed = refl

process_network_config-Loaded_example :
    ((is_set network.chain_id && is_set network.genesis_hash) ≡ false)
    × Loaded lib network
        (if is_set network.genesis_hash then network.genesis_hash else network.chain_id)
        loaded
process_network_config-Loaded_example = process_network_config-Loaded lib network loaded processed

abbrev loader : LoaderLib String String String String
loader = record {
  network_lib = lib;
  reader_root = some "ipfs://project";
  validate = λ manifest. ok tt;
  build_schema = λ text. ok "schema";
  update_data_sources = λ sources root. ok sources;
  load_templates = λ templates root. ok templates;
  validate_semver = λ current version. true;
  package_version = "3.2.0";
}

abbrev manifest : Manifest String String
manifest = record {
  spec_version = "1.0.0";
  network = network;
  schema_file = "schema.graphql";
  data_sources = "ds" ∷ [];
  templates = [];
  node_version = ">=3.0.0";
}

abbrev no_overrides : NetworkConfig
no_overrides = record { chain_id = none; genesis_hash = none; endpoint = none; chaintypes = none }

abbrev project : SubqueryProject String String String String
project = record {
  id = "ipfs://project";
  root = "/tmp";
  net = record loaded { net_endpoint = some (many ("https://rpc.osmosis.example" ∷ [])) };
  sources = "ds" ∷ [];
  schema = "schema";
  project_templates = [];
  runner_version = ">=3.0.0";
}

created : create loader "." (some manifest) "/tmp" no_overrides ≡ ok project
unfolding create process_network_config
created = refl

create-Created_example :
    (manifest.spec_version ≡ "1.0.0")
    × (loader.validate manifest ≡ ok tt)
    × Created loader manifest "/tmp" no_overrides project
create-Created_example = create-Created loader "." "/tmp" manifest no_overrides project created
