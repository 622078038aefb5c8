-- ===== src/Client/Init.antt =====
-- `init` of the class ApiService, packages/node/src/indexer/api.service.ts: the
-- registry and the connections that the node starts with.
use subql_cosmos.Base.{
  ◌≡◌, ap, sym, subst, ◌∙◌, String, Option, List, Any, Result, ok, ◌>>=◌, >>=_returned,
}
use subql_cosmos.Client.Types.{ChainType, get_chain_type}
use subql_cosmos.Client.Registry.{
  RegistryLib, first_of, last_entry, build_registry, build_registry-lookup_type,
}
use subql_cosmos.Client.Connection.{Connection, ConnectionLib, create_connection, api_connect}
use subql_cosmos.Client.Connection.Laws.{create_connection_lem}

pub record ApiService (Tm Registry : Type 0) : Type 0 where
  pub built_registry : Registry
  pub connections : List (Connection Tm Registry)

-- `createConnections` of the node's core library: from the endpoints, how a connection is created and
-- how it is asked for its chain, the connections of the pool.
abbrev pub Connects : Type 0 → Type 0
Connects Made = List String → (String → Result Made) → (Made → Result String) → Result (List Made)

-- Every connection of the pool was created for one of the endpoints.
abbrev pub Creates : {Made : Type 0} → Connects Made → Type 0
Creates {Made} create_connections =
    (endpoints : List String) (create : String → Result Made) (chain : Made → Result String)
    (pool : List Made)
    → create_connections endpoints create chain ≡ ok pool
    → (made : Made) → Any (λ m. m ≡ made) pool
    → (endpoint : String) × Any (λ e. e ≡ endpoint) endpoints × (create endpoint ≡ ok made)

module _ {T Tm Registry : Type 0} (lib : RegistryLib T Registry)
    (connection_lib : ConnectionLib Tm Registry) (lookup : String → Result T)
    (default_types wasm_types : List (String × T))
    (create_connections : Connects (Connection Tm Registry)) where
  -- `connection.unsafeApi.getChainId()`
  abbrev pub chain_of : Connection Tm Registry → Result String
  chain_of connection = connection_lib.get_chain_id connection.unsafe_api

  unfoldable pub init : List String → Option (List ChainType) → Result (ApiService Tm Registry)
  unfolding build_registry create_connection
  init endpoints chaintypes =
      build_registry lib lookup default_types wasm_types chaintypes >>= λ registry.
      create_connections endpoints (λ endpoint. create_connection connection_lib endpoint registry)
        chain_of
      >>= λ pool. ok (record { built_registry = registry; connections = pool })

  -- The connection was created for one of the endpoints, with the registry.
  abbrev pub Created : List String → Registry → Connection Tm Registry → Type 0
  Created endpoints registry connection =
      (endpoint : String) × Any (λ e. e ≡ endpoint) endpoints
      × (create_connection connection_lib endpoint registry ≡ ok connection)

  -- A URL stands for its type among the chain types, else the contract types, else the default ones.
  abbrev pub Finds : List (String × T) → Registry → Type 0
  Finds chaintypes registry =
      (url : String)
      → lib.lookup_type registry url
        ≡ first_of (last_entry chaintypes url)
            (first_of (last_entry wasm_types url) (last_entry default_types url))

  unsafe_registry :
      (endpoint : String) (registry : Registry) (connection : Connection Tm Registry)
      → create_connection connection_lib endpoint registry ≡ ok connection
      → registry ≡ connection.unsafe_api.registry
  unfolding api_connect
  unsafe_registry endpoint registry connection created =
      let (rpc, made, tm, chain, kept, safe, again) =
        create_connection_lem connection_lib endpoint registry connection 0 created in
      sym kept ∙ ap (λ c. c.unsafe_api.registry) again

  -- Where the service was started and the core library's pool has only connections that it created
  -- for the endpoints, each connection was created for one of them with the service's registry, and
  -- its client finds for a URL the type of the network's chain types, else that of the contract
  -- types, else the default one.
  pub init-lookup_type :
      (creates : Creates create_connections) (endpoints : List String)
      (network : Option (List ChainType)) (chaintypes : List (String × T))
      (service : ApiService Tm Registry)
      → get_chain_type lookup network ≡ ok chaintypes
      → init endpoints network ≡ ok service
      → (connection : Connection Tm Registry) → Any (λ c. c ≡ connection) service.connections
      → Created endpoints service.built_registry connection
        × Finds chaintypes connection.unsafe_api.registry
  unfolding init
  init-lookup_type creates endpoints network chaintypes service found started =
      let (registry, built, h) =
        >>=_returned (build_registry lib lookup default_types wasm_types network) _ started in
      let (pool, made, h₁) =
        >>=_returned
          (create_connections endpoints
            (λ endpoint. create_connection connection_lib endpoint registry) chain_of)
          _ h in
      let (registry', built', finds) =
        build_registry-lookup_type lib lookup default_types wasm_types network chaintypes found in
      let one : registry' ≡ registry = cc (built, built') in
      let same : record { built_registry = registry; connections = pool } ≡ service = cc h₁ in
      subst
        (λ s.
          (connection : Connection Tm Registry)
          → Any (λ c. c ≡ connection) s.connections
          → Created endpoints s.built_registry connection
            × Finds chaintypes connection.unsafe_api.registry)
        same
        (λ connection here.
          let (endpoint, among, created) = creates endpoints _ chain_of pool made connection here in
          (
            (endpoint, among, created),
            subst (Finds chaintypes) (one ∙ unsafe_registry endpoint registry connection created)
                finds,
          ))
