-- ===== src/Processors/Dynamic.antt =====
-- Dynamic data sources and the cache of sandboxes.
use subql_cosmos.Base.{
  String, ◌≡◌, ◌≢◌, refl, ap, sym, ◌∙◌, All, ◌∷◌, [], ◌==◌, subst, Bool, true, false, text_strict,
  eq_iff, Bool-cases, inl, inr, Option, none, some, List, ◌++◌, type_error, Result, ok, err,
}
use subql_cosmos.Project.{is_custom_cosmos_ds}
use subql_cosmos.Processors.{
  Template, DatasourceParams, DynamicDs, find_template, reported, instantiate, get_datasource,
  Sandboxes, cached, from_cache, get_ds_sandbox,
}

-- The template has the name, and none before it has.
abbrev pub FirstNamed : String → List Template → Template → Type 0
FirstNamed name templates template =
    (before : List Template) × (after : List Template) × (templates ≡ before ++ template ∷ after)
    × All (λ t. t.name ≢ name) before
    × (template.name ≡ name)

find_template-FirstNamed :
    (name : String) (templates : List Template) (template : Template)
    → find_template name templates ≡ some template
    → FirstNamed name templates template
unfolding find_template
find_template-FirstNamed name [] template h = absurd (cc h)
find_template-FirstNamed name (t ∷ ts) template h = elim (Bool-cases (t.name == name)) [
  | inl e ↦
      let same : t ≡ template = cc (rw e at h) in
      (
        [],
        ts,
        ap (λ u. u ∷ ts) same,
        tt,
        ap (λ (u : Template). u.name) (sym same) ∙ (eq_iff t.name name).0 e,
      )
  | inr f ↦
      let (before, after, split, other, named) =
        find_template-FirstNamed name ts template (rw f at h) in
      let differs : t.name ≢ name = λ e. cc ((eq_iff t.name name).1 e, f) in
      (t ∷ before, after, ap (λ l. t ∷ l) split, (differs, other), named)
]

find_template-none :
    (name : String) (templates : List Template)
    → All (λ t. t.name ≢ name) templates
    → find_template name templates ≡ none
unfolding find_template
find_template-none name [] h = refl
find_template-none name (t ∷ ts) (other, h) = elim (Bool-cases (t.name == name)) [
  | inl e ↦ absurd (other ((eq_iff t.name name).0 e))
  | inr f ↦ rw f (find_template-none name ts h)
]

module _ (validate : DynamicDs → Result (Unit {0})) (message : String) where
  -- The data source is the template's, from the given block. A custom one has the arguments before
  -- its options and is valid; another one keeps its options.
  abbrev pub MadeOf : DatasourceParams → Template → DynamicDs → Type 0
  MadeOf params template ds =
      (ds.dynamic_source ≡ template.source)
      × (ds.dynamic_start ≡ params.start_block)
      × (is_custom_cosmos_ds template.source ≡ true
          → (ds.dynamic_options ≡ params.args ++ template.options) × (validate ds ≡ ok tt))
      × (is_custom_cosmos_ds template.source ≡ false → ds.dynamic_options ≡ template.options)

  reported_ok :
      (made ds : DynamicDs) (r : Result (Unit {0}))
      → reported validate message made r ≡ ok ds
      → (made ≡ ds) × (r ≡ ok tt)
  reported_ok made ds (ok done) h = (cc h, refl)
  reported_ok made ds (err fault) h = absurd (cc h)

  instantiate-MadeOf :
      (params : DatasourceParams) (template : Template) (ds : DynamicDs)
      → instantiate validate message params template ≡ ok ds
      → MadeOf params template ds
  unfolding instantiate
  instantiate-MadeOf params template ds h =
      elim (Bool-cases (is_custom_cosmos_ds template.source)) [
        | inl t ↦
            let made : DynamicDs = record {
              dynamic_source = template.source;
              dynamic_options = params.args ++ template.options;
              dynamic_start = params.start_block;
            } in
            let (e, valid) = reported_ok made ds (validate made) (rw t at h) in
            subst (MadeOf params template) e
              (refl, refl, (λ c. (refl, valid)), (λ f. absurd (cc (t, f))))
        | inr f ↦
            let made : DynamicDs = record {
              dynamic_source = template.source;
              dynamic_options = template.options;
              dynamic_start = params.start_block;
            } in
            let e : made ≡ ds = cc (rw f at h) in
            subst (MadeOf params template) e (refl, refl, (λ t. absurd (cc (t, f))), (λ c. refl))
      ]

  get_datasource-find_template :
      (templates : List Template) (params : DatasourceParams)
      → ((ds : DynamicDs)
          → get_datasource validate message templates params ≡ ok ds
          → (template : Template) × (find_template params.template_name templates ≡ some template)
            × MadeOf params template ds)
        × (find_template params.template_name templates ≡ none
            → get_datasource validate message templates params ≡ err type_error)
  unfolding get_datasource
  get_datasource-find_template templates params = go (find_template params.template_name templates)
    where
      go :
          (o : Option Template)
          → ((ds : DynamicDs)
              → (elim o [
                | none ↦ err type_error
                | some template ↦ instantiate validate message params template
              ])
                ≡ ok ds
              → (template : Template) × (o ≡ some template) × MadeOf params template ds)
            × (o ≡ none
                → (elim o [
                  | none ↦ err type_error
                  | some template ↦ instantiate validate message params template
                ])
                  ≡ err type_error)
      go none = ((λ ds h. absurd (cc h)), (λ h. refl))
      go (some template) = (
        (λ ds h. (template, refl, instantiate-MadeOf params template ds h)),
        (λ h. absurd (cc h)),
      )

  -- A data source is returned only where a template has the name, and is made of the first such; for
  -- a name without a template the error is the engine's TypeError.
  pub get_datasource_lem :
      (templates : List Template) (params : DatasourceParams)
      → ((ds : DynamicDs)
          → get_datasource validate message templates params ≡ ok ds
          → (template : Template) × FirstNamed params.template_name templates template
            × MadeOf params template ds)
        × (All (λ t. t.name ≢ params.template_name) templates
            → get_datasource validate message templates params ≡ err type_error)
  get_datasource_lem templates params =
      let (made, missing) = get_datasource-find_template templates params in
      (
        λ ds h.
            let (template, found, of) = made ds h in
            (template, find_template-FirstNamed params.template_name templates template found, of),
        λ h. missing (find_template-none params.template_name templates h),
      )

module _ {P : Type 0} (make : String → P) (unsafe : Bool) where
  cached_keeps :
      (entry : String) (s : Sandboxes P)
      → cached make unsafe entry (get_ds_sandbox make unsafe entry s).1.processor_cache
        ≡ some (get_ds_sandbox make unsafe entry s).0
  unfolding get_ds_sandbox cached
  cached_keeps entry s = go (cached make unsafe entry s.processor_cache) refl
    where
      go :
          (o : Option P)
          → cached make unsafe entry s.processor_cache ≡ o
          → cached make unsafe entry (from_cache make unsafe entry o s).1.processor_cache
            ≡ some (from_cache make unsafe entry o s).0
      go (some p) h = h
      go none h = let same = (eq_iff entry entry).1 refl in rw same refl

  -- Once there is a sandbox for an entry, the same one is given for it again.
  pub get_ds_sandbox_again :
      (entry : String) (s : Sandboxes P)
      → (get_ds_sandbox make unsafe entry (get_ds_sandbox make unsafe entry s).1).0
        ≡ (get_ds_sandbox make unsafe entry s).0
  unfolding get_ds_sandbox
  get_ds_sandbox_again entry s = rw (cached_keeps entry s) refl
