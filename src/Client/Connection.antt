-- ===== src/Client/Connection.antt =====
-- `CosmosClientConnection` of packages/node/src/indexer/cosmosClient.connection.ts: how a connection
-- is created, and its methods.
pub mod Laws
use subql_cosmos.Base.{
  ℕ, String, Bool, Option, none, some, List, [], ◌∷◌, ◌||◌, if◌then◌else◌, Result, ok, err, ◌>>=◌,
}
use Prim.Native.String.{◌++◌ as ◌<>◌}
use subql_cosmos.Client.{RpcClient, websocket, http, rpc_client}
use subql_cosmos.Rpc.Http.{Endpoint, http_endpoint, HttpClient, new_http_client}
use subql_cosmos.Rpc.Websocket.{socket_url}

-- The RPC client that is made: a websocket's with the URL of its socket, or an HTTP client.
pub data Rpc : Type 0 where
  over_socket : String → Rpc
  over_http : HttpClient → Rpc

-- `CosmosClient`: the Tendermint client and the registry that it was made with.
pub record CosmosClient (Tm Registry : Type 0) : Type 0 where
  pub tendermint_client : Tm
  pub registry : Registry

pub record CosmosSafeClient (Tm : Type 0) : Type 0 where
  pub tm_client : Tm
  pub height : ℕ

pub record Connection (Tm Registry : Type 0) : Type 0 where
  pub unsafe_api : CosmosClient Tm Registry
  pub tm_client : Tm
  pub registry : Registry
  pub chain : String

-- `search_param`, `to_string` and `with_ws` read URLs; `create_tendermint` is
-- `Tendermint37Client.create` and `get_chain_id` the client's request for the chain's id.
pub record ConnectionLib (Tm Registry : Type 0) : Type 0 where
  pub package_version : String
  pub search_param : String → Result (Option String)
  pub to_string : String → Result String
  pub with_ws : String → String
  pub create_tendermint : Rpc → Result Tm
  pub get_chain_id : CosmosClient Tm Registry → Result String

module _ {Tm Registry : Type 0} (lib : ConnectionLib Tm Registry) where
  unfoldable pub endpoint_of : String → Endpoint
  endpoint_of endpoint =
      http_endpoint endpoint (some (("User-Agent", "SubQuery-Node " <> lib.package_version) ∷ []))

  unfoldable pub make_rpc : RpcClient → Result Rpc
  unfolding endpoint_of socket_url new_http_client
  make_rpc (websocket endpoint) =
      socket_url lib.to_string lib.with_ws endpoint >>= λ url. ok (over_socket url)
  make_rpc (http endpoint) =
      new_http_client lib.search_param (endpoint_of endpoint) >>= λ client. ok (over_http client)

  -- `CosmosClientConnection.create`
  unfoldable pub create_connection : String → Registry → Result (Connection Tm Registry)
  unfolding make_rpc rpc_client
  create_connection endpoint registry = make_rpc (rpc_client endpoint) >>= λ rpc.
      lib.create_tendermint rpc >>= λ tendermint.
      lib.get_chain_id (record { tendermint_client = tendermint; registry = registry }) >>= λ chain.
      ok (record {
        unsafe_api = record { tendermint_client = tendermint; registry = registry };
        tm_client = tendermint;
        registry = registry;
        chain = chain;
      })

module _ {Tm Registry : Type 0} where
  unfoldable pub safe_api : Connection Tm Registry → ℕ → CosmosSafeClient Tm
  safe_api connection height = record { tm_client = connection.tm_client; height = height }

  -- A new client with the same parts. Clients have no identity in the model.
  unfoldable pub api_connect : Connection Tm Registry → Connection Tm Registry
  api_connect connection = record connection {
    unsafe_api = record {
      tendermint_client = connection.tm_client;
      registry = connection.registry;
    };
  }

  -- `fetchBlocks`, with the function that the connection was created with.
  unfoldable pub fetch_blocks :
      {Block : Type 0}
      → (CosmosClient Tm Registry → List ℕ → Result (List Block))
      → Connection Tm Registry
      → List ℕ
      → Result (List Block)
  fetch_blocks fetch_blocks_batches connection heights =
      fetch_blocks_batches connection.unsafe_api heights
