-- ===== src/Loading/Network.antt =====
-- `processNetworkConfig` and `loadNetworkChainType` of packages/node/src/utils/project.ts.
use subql_cosmos.Base.{
  String, Bool, false, not, ◌&&◌, Option, none, some, List, [], ◌∷◌, ◌==◌, text_strict,
  if◌then◌else◌, Result, ok, fail, ◌>>=◌,
}
use Prim.Native.String.{◌++◌ as ◌<>◌}
use subql_cosmos.Filter.{OneOrMany}

-- A value of the map `chaintypes`.
pub record ChainTypeFile : Type 0 where
  pub file : String
  pub messages : List String

pub record NetworkConfig : Type 0 where
  pub chain_id : Option String
  pub genesis_hash : Option String
  pub endpoint : Option (OneOrMany String)
  pub chaintypes : Option (List (String × ChainTypeFile))

pub record LoadedChainType (Root : Type 0) : Type 0 where
  pub chaintype : ChainTypeFile
  pub package_name : Option String
  pub proto : Root

pub record NetConfig (Root : Type 0) : Type 0 where
  pub net_chain_id : Option String
  pub net_endpoint : Option (OneOrMany String)
  pub net_chaintypes : List (String × LoadedChainType Root)
  pub proto_root : Option Root

-- The reader, and protobufjs: a new root, `add`, and `parse` of a file into its package and root.
pub record NetworkLib (Root : Type 0) : Type 0 where
  pub get_file : String → Result (Option String)
  pub new_root : Root
  pub add : Root → Root → Result Root
  pub parse : String → Result (Option String × Root)

-- A text that is there and is not empty.
abbrev pub is_set : Option String → Bool
is_set none = false
is_set (some s) = not (s == "")

module _ {Root : Type 0} (lib : NetworkLib Root) where
  abbrev pub parsed : String → Option String → Result (Option String × Root)
  parsed file none = fail ("Unable to load chain type from " <> file)
  parsed file (some text) =
      if text == "" then fail ("Unable to load chain type from " <> file) else lib.parse text

  unfoldable pub load_network_chain_type : String → Result (Option String × Root)
  load_network_chain_type file = lib.get_file file >>= λ text. parsed file text

  -- The loop over the chain types, with the root so far.
  unfoldable pub load_chaintypes :
      List (String × ChainTypeFile) → Root → Result (List (String × LoadedChainType Root) × Root)
  unfolding load_network_chain_type
  load_chaintypes [] root = ok ([], root)
  load_chaintypes ((key, value) ∷ chaintypes) root = load_network_chain_type value.file >>= λ p.
      lib.add root p.1 >>= λ added. load_chaintypes chaintypes added >>= λ rest.
      ok ((key, record { chaintype = value; package_name = p.0; proto = p.1 }) ∷ rest.0, rest.1)

  unfoldable pub with_chaintypes :
      NetworkConfig
      → Option String
      → Option (List (String × ChainTypeFile))
      → Result (NetConfig Root)
  unfolding load_chaintypes
  with_chaintypes network chain_id none = ok (record {
    net_chain_id = chain_id;
    net_endpoint = network.endpoint;
    net_chaintypes = [];
    proto_root = none;
  })
  with_chaintypes network chain_id (some chaintypes) =
      load_chaintypes chaintypes lib.new_root >>= λ loaded. ok (record {
        net_chain_id = chain_id;
        net_endpoint = network.endpoint;
        net_chaintypes = loaded.0;
        proto_root = some loaded.1;
      })

  unfoldable pub process_network_config : NetworkConfig → Result (NetConfig Root)
  unfolding with_chaintypes
  process_network_config network =
      if is_set network.chain_id && is_set network.genesis_hash
      then fail "Please only provide one of chainId and genesisHash"
      else if is_set network.genesis_hash && not (is_set network.chain_id)
      then with_chaintypes network network.genesis_hash network.chaintypes
      else with_chaintypes network network.chain_id network.chaintypes
