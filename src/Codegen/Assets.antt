-- ===== src/Codegen/Assets.antt =====
-- `prepareSortedAssets` of packages/common-cosmos/src/codegen/codegen-controller.ts: the contracts of
-- the data sources by the names of their assets.
use subql_cosmos.Base.{
  String, ◌≡◌, subst, true, ◌==◌, text_strict, Bool-cases, inl, inr, Option, none, some, List, [],
  ◌∷◌, All, if◌then◌else◌, Result, ok, fail, ◌>>=◌, >>=_returned,
}
use Prim.Native.String.{◌++◌ as ◌<>◌}
use subql_cosmos.Project.{DataSource, is_runtime_cosmos_ds}
use subql_cosmos.Codegen.{FileLib}

-- A data source with its assets, each a name and a file; `none` where it is undefined.
pub record SourceAssets : Type 0 where
  pub source : DataSource
  pub assets : Option (List (String × String))

-- `sortedAssets[name] = filePath`
unfoldable pub assign : List (String × String) → String → String → List (String × String)
assign [] name path = (name, path) ∷ []
assign ((n, p) ∷ sorted) name path =
    let rest = assign sorted name path in if n == name then (n, path) ∷ sorted else (n, p) ∷ rest

module _ (lib : FileLib) (project : String) where
  unfoldable pub sort_assets :
      List (String × String) → List (String × String) → Result (List (String × String))
  unfolding assign
  sort_assets [] sorted = ok sorted
  sort_assets ((name, file) ∷ assets) sorted =
      if lib.exists (lib.join project file)
      then sort_assets assets (assign sorted name (lib.join project file))
      else fail ("Error: Asset " <> (name <> (", file " <> (file <> " does not exist"))))

  abbrev pub runtime_assets : SourceAssets → List (String × String)
  runtime_assets d = elim d.assets [
    | none ↦ []
    | some assets ↦ if is_runtime_cosmos_ds d.source then assets else []
  ]

  unfoldable pub sort_sources :
      List SourceAssets → List (String × String) → Result (List (String × String))
  unfolding sort_assets is_runtime_cosmos_ds
  sort_sources [] sorted = ok sorted
  sort_sources (d ∷ sources) sorted =
      sort_assets (runtime_assets d) sorted >>= λ added. sort_sources sources added

  unfoldable pub prepare_sorted_assets : List SourceAssets → Result (List (String × String))
  unfolding sort_sources
  prepare_sorted_assets sources = sort_sources sources []

  -- The path is there.
  abbrev pub Exists : String × String → Type 0
  Exists (name, path) = lib.exists path ≡ true

  assign-Exists :
      (sorted : List (String × String)) (name path : String)
      → lib.exists path ≡ true
      → All Exists sorted
      → All Exists (assign sorted name path)
  unfolding assign
  assign-Exists [] name path there all = (there, tt)
  assign-Exists ((n, p) ∷ sorted) name path there (one, rest) = elim (Bool-cases (n == name)) [
    | inl t ↦ rw t (there, rest)
    | inr f ↦ rw f (one, assign-Exists sorted name path there rest)
  ]

  sort_assets-Exists :
      (assets sorted out : List (String × String))
      → sort_assets assets sorted ≡ ok out
      → All Exists sorted
      → All Exists out × All (λ a. lib.exists (lib.join project a.1) ≡ true) assets
  unfolding sort_assets
  sort_assets-Exists [] sorted out h all = (subst (All Exists) (cc h) all, tt)
  sort_assets-Exists ((name, file) ∷ assets) sorted out h all =
      elim (Bool-cases (lib.exists (lib.join project file))) [
        | inl t ↦
            let kept = assign-Exists sorted name (lib.join project file) t all in
            let (outs, rest) =
              sort_assets-Exists assets (assign sorted name (lib.join project file)) out (rw t at h)
                kept in
            (outs, (t, rest))
        | inr f ↦ absurd (cc (rw f at h))
      ]

  sort_sources-Exists :
      (sources : List SourceAssets) (sorted out : List (String × String))
      → sort_sources sources sorted ≡ ok out
      → All Exists sorted
      → All Exists out
        × All (λ d. All (λ a. lib.exists (lib.join project a.1) ≡ true) (runtime_assets d)) sources
  unfolding sort_sources
  sort_sources-Exists [] sorted out h all = (subst (All Exists) (cc h) all, tt)
  sort_sources-Exists (d ∷ sources) sorted out h all =
      let (added, adds, h₁) = >>=_returned (sort_assets (runtime_assets d) sorted) _ h in
      let (kept, own) = sort_assets-Exists (runtime_assets d) sorted added adds all in
      let (outs, rest) = sort_sources-Exists sources added out h₁ kept in (outs, (own, rest))

  -- Where assets are returned, every path among them exists, and so does the file of every asset of
  -- the runtime data sources.
  pub prepare_sorted_assets-Exists :
      (sources : List SourceAssets) (out : List (String × String))
      → prepare_sorted_assets sources ≡ ok out
      → All Exists out
        × All (λ d. All (λ a. lib.exists (lib.join project a.1) ≡ true) (runtime_assets d)) sources
  unfolding prepare_sorted_assets
  prepare_sorted_assets-Exists sources out h = sort_sources-Exists sources [] out h tt
