-- ===== src/Loading/Laws.antt =====
-- What holds of a network and of a project that were loaded.
use subql_cosmos.Base.{
  String, ◌≡◌, ◌≢◌, refl, ap, subst, ◌∙◌, inl, inr, false, ◌&&◌, Option, none, some, List, [], ◌∷◌,
  ◌==◌, text_strict, eq_iff, Bool-cases, if◌then◌else◌, arith, ok, >>=_returned,
}
use subql_cosmos.Loading.Network.{
  ChainTypeFile, NetworkConfig, LoadedChainType, NetConfig, NetworkLib, is_set, parsed,
  load_network_chain_type, load_chaintypes, with_chaintypes, process_network_config,
}

module _ {Root : Type 0} (lib : NetworkLib Root) where
  -- The chain type's file was read and parsed.
  abbrev pub FromFile : String × ChainTypeFile → String × LoadedChainType Root → Type 0
  FromFile (key, value) (key', loaded) =
      (key ≡ key')
      × (loaded.chaintype ≡ value)
      × ((text : String) × (lib.get_file value.file ≡ ok (some text))
          × (text ≢ "")
          × (lib.parse text ≡ ok (loaded.package_name, loaded.proto)))

  abbrev pub AllFromFiles :
      List (String × ChainTypeFile) → List (String × LoadedChainType Root) → Type 0
  AllFromFiles [] [] = Unit
  AllFromFiles (x ∷ xs) (y ∷ ys) = FromFile x y × AllFromFiles xs ys
  AllFromFiles _ _ = ⊥

  parsed-ok :
      (file : String) (t : Option String) (p : Option String × Root)
      → parsed lib file t ≡ ok p
      → (text : String) × (t ≡ some text) × (text ≢ "") × (lib.parse text ≡ ok p)
  parsed-ok file none p h = absurd (cc h)
  parsed-ok file (some text) p h = elim (Bool-cases (text == "")) [
    | inl t ↦ absurd (cc (rw t at h))
    | inr f ↦ (text, refl, (ground (arith, eq_iff text "")), rw f at h)
  ]

  load_chaintypes-AllFromFiles :
      (chaintypes : List (String × ChainTypeFile)) (root : Root)
      (out : List (String × LoadedChainType Root) × Root)
      → load_chaintypes lib chaintypes root ≡ ok out
      → AllFromFiles chaintypes out.0
  unfolding load_chaintypes load_network_chain_type
  load_chaintypes-AllFromFiles [] root out h =
      let e : ([], root) ≡ out = cc h in
      subst (λ (o : List (String × LoadedChainType Root) × Root). AllFromFiles [] o.0) e tt
  load_chaintypes-AllFromFiles ((key, value) ∷ chaintypes) root out h =
      let (p, loads, h₁) = >>=_returned (load_network_chain_type lib value.file) _ h in
      let (t, reads, parses) = >>=_returned (lib.get_file value.file) _ loads in
      let (text, given, filled, parses') = parsed-ok value.file t p parses in
      let (added, adds, h₂) = >>=_returned (lib.add root p.1) _ h₁ in
      let (rest, loads_rest, h₃) = >>=_returned (load_chaintypes lib chaintypes added) _ h₂ in
      let one : LoadedChainType Root = record {
        chaintype = value;
        package_name = p.0;
        proto = p.1;
      } in
      let e : ((key, one) ∷ rest.0, rest.1) ≡ out = cc h₃ in
      subst
        (λ (o : List (String × LoadedChainType Root) × Root).
          AllFromFiles ((key, value) ∷ chaintypes) o.0)
        e
        (
          (refl, refl, (text, reads ∙ ap ok given, filled, parses')),
          load_chaintypes-AllFromFiles chaintypes added rest loads_rest,
        )

  abbrev pub listed : Option (List (String × ChainTypeFile)) → List (String × ChainTypeFile)
  listed none = []
  listed (some chaintypes) = chaintypes

  -- The network has an id, the endpoint of its configuration, and chain types from their files.
  abbrev pub Loaded : NetworkConfig → Option String → NetConfig Root → Type 0
  Loaded network id out =
      (out.net_chain_id ≡ id)
      × (out.net_endpoint ≡ network.endpoint)
      × AllFromFiles (listed network.chaintypes) out.net_chaintypes

  with_chaintypes-Loaded :
      (network : NetworkConfig) (id : Option String) (out : NetConfig Root)
      → with_chaintypes lib network id network.chaintypes ≡ ok out
      → Loaded network id out
  unfolding with_chaintypes
  with_chaintypes-Loaded network id out h = go network.chaintypes h
    where
      go :
          (o : Option (List (String × ChainTypeFile)))
          → with_chaintypes lib network id o ≡ ok out
          → (out.net_chain_id ≡ id)
            × (out.net_endpoint ≡ network.endpoint)
            × AllFromFiles (listed o) out.net_chaintypes
      go none k =
          let made : NetConfig Root = record {
            net_chain_id = id;
            net_endpoint = network.endpoint;
            net_chaintypes = [];
            proto_root = none;
          } in
          let e : made ≡ out = cc k in
          subst
            (λ (o : NetConfig Root).
              (o.net_chain_id ≡ id)
              × (o.net_endpoint ≡ network.endpoint)
              × AllFromFiles [] o.net_chaintypes)
            e (refl, refl, tt)
      go (some chaintypes) k =
          let (loaded, loads, k₁) =
            >>=_returned (load_chaintypes lib chaintypes lib.new_root) _ k in
          let made : NetConfig Root = record {
            net_chain_id = id;
            net_endpoint = network.endpoint;
            net_chaintypes = loaded.0;
            proto_root = some loaded.1;
          } in
          let e : made ≡ out = cc k₁ in
          subst
            (λ (o : NetConfig Root).
              (o.net_chain_id ≡ id)
              × (o.net_endpoint ≡ network.endpoint)
              × AllFromFiles chaintypes o.net_chaintypes)
            e (refl, refl, load_chaintypes-AllFromFiles chaintypes lib.new_root loaded loads)

  -- A network that is processed does not give both a chain id and a genesis hash; its id is the one it
  -- gives, if any, its endpoint is kept, and each of its chain types was read and parsed from its
  -- file.
  pub process_network_config-Loaded :
      (network : NetworkConfig) (out : NetConfig Root)
      → process_network_config lib network ≡ ok out
      → ((is_set network.chain_id && is_set network.genesis_hash) ≡ false)
        × Loaded network
            (if is_set network.genesis_hash then network.genesis_hash else network.chain_id)
            out
  unfolding process_network_config
  process_network_config-Loaded network out h = elim (Bool-cases (is_set network.chain_id)) [
    | inl c ↦ elim (Bool-cases (is_set network.genesis_hash)) [
      | inl g ↦ absurd (cc (rw (c, g) at h))
      | inr g ↦ (
        rw (c, g) refl,
        rw g (with_chaintypes-Loaded network network.chain_id out (rw (c, g) at h)),
      )
    ]
    | inr c ↦ elim (Bool-cases (is_set network.genesis_hash)) [
      | inl g ↦ (
        rw c refl,
        rw g (with_chaintypes-Loaded network network.genesis_hash out (rw (c, g) at h)),
      )
      | inr g ↦
          (rw c refl, rw g (with_chaintypes-Loaded network network.chain_id out (rw (c, g) at h)))
    ]
  ]
