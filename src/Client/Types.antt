-- ===== src/Client/Types.antt =====
-- `getChainType` of packages/node/src/indexer/api.service.ts: the message types of a network.
use subql_cosmos.Base.{
  String, ◌≡◌, refl, ◌∙◌, subst, inl, inr, Option, none, some, List, [], ◌∷◌, All, Any, ◌==◌,
  text_strict, eq_iff, Bool-cases, if◌then◌else◌, Result, ok, ◌>>=◌, >>=_returned,
}
use Prim.Native.String.{◌++◌ as ◌<>◌}

-- An entry of the map `chaintypes`, with the key it stands under.
pub record ChainType : Type 0 where
  pub user_package_name : String
  pub package_name : Option String
  pub messages : List String

abbrev pub package_of : ChainType → String
package_of chain = elim chain.package_name [ none ↦ chain.user_package_name | some name ↦ name ]

-- The entries of the resulting object. `lookup` is `lookupTypeOrEnum` of the root of all types.
module _ {T : Type 0} (lookup : String → Result T) where
  -- `res[key] = value`
  unfoldable pub put : List (String × T) → String → T → List (String × T)
  put [] key value = (key, value) ∷ []
  put ((k, v) ∷ res) key value =
      let rest = put res key value in if k == key then (k, value) ∷ res else (k, v) ∷ rest

  unfoldable pub add_messages :
      String → List String → List (String × T) → Result (List (String × T))
  unfolding put
  add_messages pkg [] res = ok res
  add_messages pkg (msg ∷ messages) res = lookup (pkg <> "." <> msg) >>= λ type.
      add_messages pkg messages (put res ("/" <> (pkg <> "." <> msg)) type)

  unfoldable pub add_chain_types : List ChainType → List (String × T) → Result (List (String × T))
  unfolding add_messages
  add_chain_types [] res = ok res
  add_chain_types (chain ∷ chains) res =
      add_messages (package_of chain) chain.messages res >>= λ added. add_chain_types chains added

  unfoldable pub get_chain_type : Option (List ChainType) → Result (List (String × T))
  unfolding add_chain_types
  get_chain_type none = ok []
  get_chain_type (some chains) = add_chain_types chains []

  -- The entry is the type of its name, under the name with a slash before it.
  abbrev pub Named : String × T → Type 0
  Named (key, type) = (name : String) × (key ≡ "/" <> name) × (lookup name ≡ ok type)

  abbrev pub Has : String → List (String × T) → Type 0
  Has key res = Any (λ entry. entry.0 ≡ key) res

  put-Named :
      (res : List (String × T)) (key : String) (value : T)
      → Named (key, value)
      → All Named res
      → All Named (put res key value)
  unfolding put
  put-Named [] key value named all = (named, tt)
  put-Named ((k, v) ∷ res) key value named (one, rest) = elim (Bool-cases (k == key)) [
    | inl t ↦ let (name, e, found) = named in rw t ((name, (eq_iff k key).0 t ∙ e, found), rest)
    | inr f ↦ rw f (one, put-Named res key value named rest)
  ]

  put-Has : (res : List (String × T)) (key : String) (value : T) → Has key (put res key value)
  unfolding put
  put-Has [] key value = inl refl
  put-Has ((k, v) ∷ res) key value = elim (Bool-cases (k == key)) [
    | inl t ↦ rw t (inl ((eq_iff k key).0 t))
    | inr f ↦ rw f (inr (put-Has res key value))
  ]

  put_keeps-Has :
      (res : List (String × T)) (key key' : String) (value : T)
      → Has key' res
      → Has key' (put res key value)
  unfolding put
  put_keeps-Has ((k, v) ∷ res) key key' value h = elim (Bool-cases (k == key)) [
    | inl t ↦ rw t h
    | inr f ↦ elim h [
      | inl e ↦ rw f (inl e)
      | inr later ↦ rw f (inr (put_keeps-Has res key key' value later))
    ]
  ]
  put_keeps-Has [] key key' value h = absurd h

  -- What holds of a result: its entries are named, and keys stay.
  abbrev Grown : List (String × T) → List (String × T) → Type 0
  Grown res out = (All Named res → All Named out) × ((key : String) → Has key res → Has key out)

  abbrev key_of : String → String → String
  key_of pkg msg = "/" <> (pkg <> "." <> msg)

  add_messages-Grown :
      (pkg : String) (messages : List String) (res out : List (String × T))
      → add_messages pkg messages res ≡ ok out
      → Grown res out × All (λ msg. Has (key_of pkg msg) out) messages
  unfolding add_messages
  add_messages-Grown pkg [] res out h =
      let e : res ≡ out = cc h in (subst (Grown res) e ((λ all. all), (λ key has. has)), tt)
  add_messages-Grown pkg (msg ∷ messages) res out h =
      let (type, found, h₁) = >>=_returned (lookup (pkg <> "." <> msg)) _ h in
      let ((named, keeps), has) =
        add_messages-Grown pkg messages (put res (key_of pkg msg) type) out h₁ in
      (
        (
          (λ all. named (put-Named res (key_of pkg msg) type (pkg <> "." <> msg, refl, found) all)),
          (λ key there. keeps key (put_keeps-Has res (key_of pkg msg) key type there)),
        ),
        (keeps (key_of pkg msg) (put-Has res (key_of pkg msg) type), has),
      )

  abbrev pub Registered : List (String × T) → ChainType → Type 0
  Registered out chain = All (λ msg. Has (key_of (package_of chain) msg) out) chain.messages

  All-Has :
      (pkg : String) (messages : List String) (res out : List (String × T))
      → ((key : String) → Has key res → Has key out)
      → All (λ msg. Has (key_of pkg msg) res) messages
      → All (λ msg. Has (key_of pkg msg) out) messages
  All-Has pkg [] res out keeps h = tt
  All-Has pkg (msg ∷ messages) res out keeps (one, h) =
      (keeps _ one, All-Has pkg messages res out keeps h)

  add_chain_types-Grown :
      (chains : List ChainType) (res out : List (String × T))
      → add_chain_types chains res ≡ ok out
      → Grown res out × All (Registered out) chains
  unfolding add_chain_types
  add_chain_types-Grown [] res out h =
      let e : res ≡ out = cc h in (subst (Grown res) e ((λ all. all), (λ key has. has)), tt)
  add_chain_types-Grown (chain ∷ chains) res out h =
      let (added, adds, h₁) =
        >>=_returned (add_messages (package_of chain) chain.messages res) _ h in
      let ((named, keeps), has) =
        add_messages-Grown (package_of chain) chain.messages res added adds in
      let ((named', keeps'), has') = add_chain_types-Grown chains added out h₁ in
      (
        ((λ all. named' (named all)), (λ key there. keeps' key (keeps key there))),
        (All-Has (package_of chain) chain.messages added out keeps' has, has'),
      )

  -- Where the types of a network's messages are all found, each message of each chain type is a key
  -- of the result, and every entry is the type that is looked up by its key without the slash.
  pub get_chain_type_lem :
      (chains : List ChainType) (out : List (String × T))
      → get_chain_type (some chains) ≡ ok out
      → All (Registered out) chains × All Named out
  unfolding get_chain_type
  get_chain_type_lem chains out h =
      let ((named, keeps), has) = add_chain_types-Grown chains [] out h in (has, named tt)
