-- ===== src/Client/SetupTests.antt =====
-- A registry and a connection that are concrete.
use subql_cosmos.Base.{
  ℕ, String, ◌≡◌, refl, Option, none, some, List, [], ◌∷◌, ◌==◌, text_strict, if◌then◌else◌, Result,
  ok, fail, Any, inl, inr, subst, ap, ◌∙◌, ◌>>=◌, >>=_returned,
}
use subql_cosmos.Client.{rpc_client}
use subql_cosmos.Client.Types.{ChainType, get_chain_type, add_chain_types, add_messages, put}
use subql_cosmos.Client.Registry.{
  RegistryLib, first_of, last_entry, own_entry, build_registry, register_all,
}
use subql_cosmos.Client.Connection.{Connection, ConnectionLib, make_rpc, create_connection}
use subql_cosmos.Client.Init.{ApiService, Connects, Creates, Created, Finds, init, init-lookup_type}
use subql_cosmos.Rpc.Http.{new_http_client}

-- A registry that is the function of its lookups; a type is a number.
abbrev registry_lib : RegistryLib ℕ (String → Option ℕ)
registry_lib = record {
  new_registry = λ types url. last_entry types url;
  register = λ registry url type url'. first_of (own_entry url type url') (registry url');
  lookup_type = λ registry url. registry url;
  lookup_new = λ types url. refl;
  lookup_registered = λ registry url type url'. refl;
}

abbrev lookup : String → Result ℕ
lookup name = if name == "osmosis.MsgSwap" then ok 3 else fail "no such type"

abbrev osmosis : List ChainType
osmosis =
    record { user_package_name = "osmosis"; package_name = none; messages = "MsgSwap" ∷ [] } ∷ []

abbrev wasm : List (String × ℕ)
wasm = ("/cosmwasm.wasm.v1.MsgStoreCode", 2) ∷ []

abbrev chaintypes : List (String × ℕ)
chaintypes = ("/osmosis.MsgSwap", 3) ∷ []

abbrev connection_lib : ConnectionLib ℕ (String → Option ℕ)
connection_lib = record {
  package_version = "3.0.0";
  search_param = λ url. ok none;
  to_string = λ url. ok url;
  with_ws = λ url. url;
  create_tendermint = λ rpc. ok 7;
  get_chain_id = λ client. ok "juno-1";
}

abbrev empty : String → Option ℕ
empty url = none

abbrev endpoint : String
endpoint = "https://rpc.juno.example"

abbrev juno : Connection ℕ (String → Option ℕ)
juno = record {
  unsafe_api = record { tendermint_client = 7; registry = empty };
  tm_client = 7;
  registry = empty;
  chain = "juno-1";
}

created : create_connection connection_lib endpoint empty ≡ ok juno
unfolding create_connection rpc_client make_rpc new_http_client
created = refl

-- A pool with a connection for each endpoint.
abbrev connect_all : {Made : Type 0} → Connects Made
connect_all [] create chain = ok []
connect_all (endpoint ∷ endpoints) create chain =
    let rest = connect_all endpoints create chain in
    create endpoint >>= λ made. rest >>= λ pool. ok (made ∷ pool)

connect_all-Creates : {Made : Type 0} → Creates {Made = Made} connect_all
connect_all-Creates [] create chain pool h made here =
    let none_left : pool ≡ [] = cc h in absurd (subst (Any (λ m. m ≡ made)) none_left here)
connect_all-Creates (endpoint ∷ endpoints) create chain pool h made here =
    let (first, created, h₁) = >>=_returned (create endpoint) _ h in
    let (others, connected, h₂) = >>=_returned (connect_all endpoints create chain) _ h₁ in
    let split : pool ≡ first ∷ others = cc h₂ in
    elim (subst (Any (λ m. m ≡ made)) split here) [
      | inl e ↦ (endpoint, inl refl, created ∙ ap ok e)
      | inr there ↦
          let (e, among, created') =
            connect_all-Creates endpoints create chain others connected made there in
          (e, inr among, created')
    ]

abbrev juno_registry : String → Option ℕ
juno_registry url = first_of (own_entry "/osmosis.MsgSwap" 3 url) (last_entry wasm url)

abbrev started_juno : Connection ℕ (String → Option ℕ)
started_juno = record {
  unsafe_api = record { tendermint_client = 7; registry = juno_registry };
  tm_client = 7;
  registry = juno_registry;
  chain = "juno-1";
}

abbrev service : ApiService ℕ (String → Option ℕ)
service = record { built_registry = juno_registry; connections = started_juno ∷ [] }

started :
    init registry_lib connection_lib lookup [] wasm connect_all (endpoint ∷ []) (some osmosis)
    ≡ ok service
unfolding init build_registry register_all get_chain_type add_chain_types add_messages put
    create_connection rpc_client make_rpc new_http_client
started = refl

types_found : get_chain_type lookup (some osmosis) ≡ ok chaintypes
unfolding get_chain_type add_chain_types add_messages put
types_found = refl

init-lookup_type_example :
    Created registry_lib connection_lib lookup [] wasm connect_all
      (endpoint ∷ [])
      juno_registry
      started_juno
    × Finds registry_lib connection_lib lookup [] wasm connect_all chaintypes juno_registry
init-lookup_type_example =
    init-lookup_type registry_lib connection_lib lookup [] wasm connect_all connect_all-Creates
      (endpoint ∷ []) (some osmosis) chaintypes service types_found started started_juno (inl refl)
