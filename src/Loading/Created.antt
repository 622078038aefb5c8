-- ===== src/Loading/Created.antt =====
-- What a project that was created relies on.
use subql_cosmos.Base.{
  String, ◌≡◌, subst, ◌⊎◌, inl, inr, true, false, not, some, ◌==◌, text_strict, eq_iff, Bool-cases,
  if◌then◌else◌, ok, fail, >>=_returned,
}
use subql_cosmos.Loading.Network.{NetworkConfig, NetConfig, process_network_config}
use subql_cosmos.Loading.{
  Manifest, SubqueryProject, LoaderLib, override, with_endpoints, has_endpoint, checked_endpoint,
  checked_version, fetched_schema, id_of, load_project_from_manifest_base,
  parse_cosmos_project_manifest, create,
}

module _ {Root Schema Source Template : Type 0} (lib : LoaderLib Root Schema Source Template) where
  -- The network was processed and has an endpoint, the node's version is one that the runner
  -- accepts, and data sources and templates are those of the node's core library.
  abbrev pub Created :
      Manifest Source Template
      → String
      → NetworkConfig
      → SubqueryProject Root Schema Source Template
      → Type 0
  Created manifest root overrides p =
      (process_network_config lib.network_lib (override (with_endpoints manifest.network) overrides)
        ≡ ok p.net)
      × (has_endpoint p.net.net_endpoint ≡ true)
      × (lib.validate_semver lib.package_version manifest.node_version ≡ true)
      × (lib.update_data_sources manifest.data_sources root ≡ ok p.sources)
      × (lib.load_templates manifest.templates root ≡ ok p.project_templates)

  endpoint_checked :
      (network : NetConfig Root) (u : Unit {0})
      → checked_endpoint lib network ≡ ok u
      → has_endpoint network.net_endpoint ≡ true
  endpoint_checked network u h = elim (Bool-cases (has_endpoint network.net_endpoint)) [
    | inl t ↦ t
    | inr f ↦ absurd (cc (rw f at h))
  ]

  version_checked :
      (version : String) (u : Unit {0})
      → checked_version lib version ≡ ok u
      → lib.validate_semver lib.package_version version ≡ true
  version_checked version u h =
      elim (Bool-cases (lib.validate_semver lib.package_version version)) [
        | inl t ↦ t
        | inr f ↦ absurd (cc (rw f at h))
      ]

  load_project_from_manifest_base-Created :
      (manifest : Manifest Source Template) (path root : String) (overrides : NetworkConfig)
      (p : SubqueryProject Root Schema Source Template)
      → load_project_from_manifest_base lib manifest path root overrides ≡ ok p
      → Created manifest root overrides p
  unfolding load_project_from_manifest_base
  load_project_from_manifest_base-Created manifest path root overrides p h =
      let given = override (with_endpoints manifest.network) overrides in
      let (network, processes, h₁) =
        >>=_returned (process_network_config lib.network_lib given) _ h in
      let (u, reachable, h₂) = >>=_returned (checked_endpoint lib network) _ h₁ in
      let (text, fetches, h₃) =
        >>=_returned
          (fetched_schema lib manifest.schema_file (lib.network_lib.get_file manifest.schema_file))
          _ h₂ in
      let (schema, builds, h₄) = >>=_returned (lib.build_schema text) _ h₃ in
      let (sources, updates, h₅) =
        >>=_returned (lib.update_data_sources manifest.data_sources root) _ h₄ in
      let (templates, loads, h₆) = >>=_returned (lib.load_templates manifest.templates root) _ h₅ in
      let (v, compatible, h₇) = >>=_returned (checked_version lib manifest.node_version) _ h₆ in
      let made : SubqueryProject Root Schema Source Template = record {
        id = id_of lib path;
        root = root;
        net = network;
        sources = sources;
        schema = schema;
        project_templates = templates;
        runner_version = manifest.node_version;
      } in
      let e : made ≡ p = cc h₇ in
      subst (Created manifest root overrides) e (
        processes,
        endpoint_checked network u reachable,
        version_checked manifest.node_version v compatible,
        updates,
        loads,
      )

  -- A project that was created comes of a manifest of version 1.0.0 that is valid; its network was
  -- processed and has an endpoint, the node's version is one that the runner accepts, and its data
  -- sources and templates are those that the node's core library made of the manifest's.
  pub create-Created :
      (path root : String) (raw : Manifest Source Template) (overrides : NetworkConfig)
      (p : SubqueryProject Root Schema Source Template)
      → create lib path (some raw) root overrides ≡ ok p
      → (raw.spec_version ≡ "1.0.0") × (lib.validate raw ≡ ok tt) × Created raw root overrides p
  unfolding create parse_cosmos_project_manifest
  create-Created path root raw overrides p h =
      let (manifest, parses, h₁) = >>=_returned (parse_cosmos_project_manifest lib raw) _ h in
      go (Bool-cases (raw.spec_version == "1.0.0")) manifest parses h₁
    where
      go :
          ((raw.spec_version == "1.0.0") ≡ true) ⊎ ((raw.spec_version == "1.0.0") ≡ false)
          → (manifest : Manifest Source Template)
          → parse_cosmos_project_manifest lib raw ≡ ok manifest
          → (if not (manifest.spec_version == "1.0.0")
              then fail "Manifest specVersion <1.0.0 is not supported"
              else load_project_from_manifest_base lib manifest path root overrides)
            ≡ ok p
          → (raw.spec_version ≡ "1.0.0") × (lib.validate raw ≡ ok tt) × Created raw root overrides p
      go (inr f) manifest parses loads = absurd (cc (rw f at parses))
      go (inl t) manifest parses loads =
          let (u, valid, same) = >>=_returned (lib.validate raw) _ (rw t at parses) in
          let from : manifest ≡ raw = cc same in
          let loads' = rw (from, t) at loads in
          (
            (eq_iff raw.spec_version "1.0.0").0 t,
            valid,
            load_project_from_manifest_base-Created raw path root overrides p loads',
          )
