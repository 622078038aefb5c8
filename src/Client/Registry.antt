-- ===== src/Client/Registry.antt =====
-- `buildRegistry` of packages/node/src/indexer/api.service.ts: which type a URL stands for.
use subql_cosmos.Base.{
  ◌≡◌, refl, ap, ◌∙◌, sym, String, Option, none, some, List, [], ◌∷◌, ◌++◌, ◌==◌, text_strict,
  if◌then◌else◌, Result, ok, ◌>>=◌,
}
use subql_cosmos.Client.Types.{ChainType, get_chain_type}

abbrev pub first_of {ℓ} : {A : Type ℓ} → Option A → Option A → Option A
first_of (some a) o = some a
first_of none o = o

first_of_assoc :
    {T : Type 0} (a b c : Option T) → first_of a (first_of b c) ≡ first_of (first_of a b) c
first_of_assoc (some x) b c = refl
first_of_assoc none b c = refl

module _ {T : Type 0} where
  abbrev pub own_entry : String → T → String → Option T
  own_entry k v key = if k == key then some v else none

  -- The last entry of a key.
  abbrev pub last_entry : List (String × T) → String → Option T
  last_entry [] key = none
  last_entry ((k, v) ∷ entries) key = first_of (last_entry entries key) (own_entry k v key)

  last_entry-append :
      (xs ys : List (String × T)) (key : String)
      → last_entry (xs ++ ys) key ≡ first_of (last_entry ys key) (last_entry xs key)
  last_entry-append [] ys key = go (last_entry ys key)
    where
      go : (o : Option T) → o ≡ first_of o none
      go (some a) = refl
      go none = refl
  last_entry-append ((k, v) ∷ xs) ys key =
      ap (λ o. first_of o (own_entry k v key)) (last_entry-append xs ys key)
      ∙ sym (first_of_assoc (last_entry ys key) (last_entry xs key) (own_entry k v key))

-- The class `Registry` of the package @cosmjs/proto-signing: a new one has the types of a list, a
-- later entry taking the place of an earlier one, and `register` sets one type.
pub record RegistryLib (T Registry : Type 0) : Type 0 where
  pub new_registry : List (String × T) → Registry
  pub register : Registry → String → T → Registry
  pub lookup_type : Registry → String → Option T
  pub lookup_new :
      (types : List (String × T)) (url : String)
      → lookup_type (new_registry types) url ≡ last_entry types url
  pub lookup_registered :
      (registry : Registry) (url : String) (type : T) (url' : String)
      → lookup_type (register registry url type) url'
        ≡ first_of (own_entry url type url') (lookup_type registry url')

-- `wasm_types` and `default_types` are the types that the node imports.
module _ {T Registry : Type 0} (lib : RegistryLib T Registry) (lookup : String → Result T)
    (default_types wasm_types : List (String × T)) where
  -- `for (const typeurl in chaintypes)`
  unfoldable pub register_all : Registry → List (String × T) → Registry
  register_all registry [] = registry
  register_all registry ((url, type) ∷ types) = register_all (lib.register registry url type) types

  unfoldable pub build_registry : Option (List ChainType) → Result Registry
  unfolding get_chain_type register_all
  build_registry network = get_chain_type lookup network >>= λ chaintypes.
      ok (register_all (lib.new_registry (default_types ++ wasm_types)) chaintypes)

  lookup-register_all :
      (registry : Registry) (types : List (String × T)) (url : String)
      → lib.lookup_type (register_all registry types) url
        ≡ first_of (last_entry types url) (lib.lookup_type registry url)
  unfolding register_all
  lookup-register_all registry [] url = refl
  lookup-register_all registry ((k, t) ∷ types) url =
      lookup-register_all (lib.register registry k t) types url
      ∙ ap (first_of (last_entry types url)) (lib.lookup_registered registry k t url)
      ∙ first_of_assoc (last_entry types url) (own_entry k t url) (lib.lookup_type registry url)

  -- Where the types of the network's chain types are found, the registry is built, and a URL stands
  -- for the type that the chain types give it; else for that of the contract types; else for the
  -- default one.
  pub build_registry-lookup_type :
      (network : Option (List ChainType)) (chaintypes : List (String × T))
      → get_chain_type lookup network ≡ ok chaintypes
      → (registry : Registry) × (build_registry network ≡ ok registry)
        × ((url : String)
            → lib.lookup_type registry url
              ≡ first_of
                  (last_entry chaintypes url)
                  (first_of (last_entry wasm_types url) (last_entry default_types url)))
  unfolding build_registry
  build_registry-lookup_type network chaintypes found =
      let started = lib.new_registry (default_types ++ wasm_types) in
      (
        register_all started chaintypes,
        ap (λ r. r >>= λ types. ok (register_all started types)) found,
        λ url.
            lookup-register_all started chaintypes url
            ∙ ap (first_of (last_entry chaintypes url)) (
                lib.lookup_new (default_types ++ wasm_types) url
                ∙ last_entry-append default_types wasm_types url),
      )
