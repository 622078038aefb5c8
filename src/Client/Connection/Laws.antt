-- ===== src/Client/Connection/Laws.antt =====
-- What a connection that was created has.
use subql_cosmos.Base.{ℕ, ◌≡◌, ◌≢◌, refl, ap, subst, String, some, [], ◌∷◌, ok, ◌>>=◌, >>=_returned}
use Prim.Native.String.{◌++◌ as ◌<>◌}
use subql_cosmos.Client.{http, rpc_client}
use subql_cosmos.Rpc.Http.{Headers, HttpClient, header_of}
use subql_cosmos.Rpc.Http.Laws.{new_http_client_moves_key}
use subql_cosmos.Client.Connection.{
  Rpc, over_http, Connection, ConnectionLib, endpoint_of, make_rpc, create_connection, api_connect,
  safe_api,
}

module _ {Tm Registry : Type 0} (lib : ConnectionLib Tm Registry) where
  abbrev Joined : Registry → ℕ → Rpc → Connection Tm Registry → Type 0
  Joined registry height rpc connection =
      (lib.create_tendermint rpc ≡ ok connection.tm_client)
      × (lib.get_chain_id connection.unsafe_api ≡ ok connection.chain)
      × (connection.registry ≡ registry)
      × ((safe_api connection height).tm_client ≡ connection.unsafe_api.tendermint_client)
      × (api_connect connection ≡ connection)

  -- Where a connection is created, its Tendermint client is the one made for the RPC client that its
  -- endpoint asks for, its chain is what the client answers, every safe client uses that Tendermint
  -- client, and to connect it again changes nothing.
  pub create_connection_lem :
      (endpoint : String) (registry : Registry) (connection : Connection Tm Registry) (height : ℕ)
      → create_connection lib endpoint registry ≡ ok connection
      → (rpc : Rpc) × (make_rpc lib (rpc_client endpoint) ≡ ok rpc)
        × (lib.create_tendermint rpc ≡ ok connection.tm_client)
        × (lib.get_chain_id connection.unsafe_api ≡ ok connection.chain)
        × (connection.registry ≡ registry)
        × ((safe_api connection height).tm_client ≡ connection.unsafe_api.tendermint_client)
        × (api_connect connection ≡ connection)
  unfolding create_connection api_connect safe_api
  create_connection_lem endpoint registry connection height h =
      let (rpc, made, h₁) = >>=_returned (make_rpc lib (rpc_client endpoint)) _ h in
      let (tendermint, created, h₂) = >>=_returned (lib.create_tendermint rpc) _ h₁ in
      let (chain, answered, h₃) =
        >>=_returned
          (lib.get_chain_id (record { tendermint_client = tendermint; registry = registry })) _
          h₂ in
      let same : record {
        unsafe_api = record { tendermint_client = tendermint; registry = registry };
        tm_client = tendermint;
        registry = registry;
        chain = chain;
      }
          ≡ connection =
        cc h₃ in
      let (tm, id, reg, safe, again) =
        subst (Joined registry height rpc) same (created, answered, refl, refl, refl) in
      (rpc, made, tm, id, reg, safe, again)

  -- An HTTP endpoint with an API key: the client is made, with the key among its headers beside the
  -- node's name.
  pub make_rpc_keyed :
      (endpoint key : String)
      → lib.search_param endpoint ≡ ok (some key)
      → key ≢ ""
      → (client : HttpClient) × (sent : Headers) × (make_rpc lib (http endpoint)
          ≡ ok (over_http client))
        × (client.headers ≡ some sent)
        × (header_of "apikey" sent ≡ some key)
        × (header_of "User-Agent" sent ≡ some ("SubQuery-Node " <> lib.package_version))
  unfolding make_rpc endpoint_of header_of
  make_rpc_keyed endpoint key read given =
      let (client, sent, made, has, key_sent, name_sent, url) =
        new_http_client_moves_key lib.search_param endpoint key
          (("User-Agent", "SubQuery-Node " <> lib.package_version) ∷ []) "User-Agent" read given
          not_the_key in
      (client, sent, ap (λ r. r >>= λ c. ok (over_http c)) made, has, key_sent, name_sent)
    where
      name : String
      name = "User-Agent"

      not_the_key : name ≢ "apikey"
      not_the_key e = cc e
