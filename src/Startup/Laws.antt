-- ===== src/Startup/Laws.antt =====
-- What comes before the node listens, and which dictionaries it starts with.
use subql_cosmos.Base.{
  ◌≡◌, refl, ap, subst, ◌∙◌, sym, ◌↔◌, ◌⊎◌, inl, inr, String, true, false, Option, none, some, List,
  [], ◌∷◌, ◌++◌, All, Bool-cases, if◌then◌else◌, Fault, Result, ok, err,
}
use subql_cosmos.Base.Number.{Number}
use subql_cosmos.Startup.{
  Step, create_app, init_app, init_api, init_project, init_fetch, enable_shutdown_hooks, listen,
  exit, chosen_port, is_falsy, begin, start_app, bootstrap_at, bootstrap, Endpoints, one, several,
  one_endpoint, dictionary_url,
}

module _ (attempt : Step → Result (Unit {0})) where
  abbrev pub Done : Step → Type 0
  Done s = attempt s ≡ ok tt

  -- Every step was done; or one threw after the ones before it were done, and the process ended.
  abbrev pub AllDone : List Step → List Step → Type 0
  AllDone steps trace = (trace ≡ steps) × All Done steps

  abbrev pub Broken : List Step → List Step → Type 0
  Broken steps trace =
      (before : List Step) × (s : Step) × (after : List Step) × (e : Fault) × (steps
        ≡ before ++ s ∷ after)
      × All Done before
      × (attempt s ≡ err e)
      × (trace ≡ before ++ s ∷ exit 1 ∷ [])

  try_steps : List Step → List Step
  try_steps [] = []
  try_steps (s ∷ steps) = begin attempt s (try_steps steps)

  try_steps_lem :
      (steps : List Step) → AllDone steps (try_steps steps) ⊎ Broken steps (try_steps steps)
  unfolding try_steps
  try_steps_lem [] = inl (refl, tt)
  try_steps_lem (s ∷ steps) = of_result (attempt s) refl (try_steps_lem steps)
    where
      after : Result (Unit {0}) → List Step
      after r = s ∷ elim r [ ok done ↦ try_steps steps | err e ↦ exit 1 ∷ [] ]

      of_result :
          (r : Result (Unit {0}))
          → attempt s ≡ r
          → AllDone steps (try_steps steps) ⊎ Broken steps (try_steps steps)
          → AllDone (s ∷ steps) (try_steps (s ∷ steps)) ⊎ Broken (s ∷ steps) (try_steps (s ∷ steps))
      of_result (err f) e ih = inr ([], s, steps, f, refl, tt, e, ap after e)
      of_result (ok done) e (inl (same, all)) = inl (ap after e ∙ ap (λ l. s ∷ l) same, (e, all))
      of_result (ok done) e (inr (before, t, later, f, split, all, thrown, same)) = inr (
        s ∷ before,
        t,
        later,
        f,
        ap (λ l. s ∷ l) split,
        (e, all),
        thrown,
        ap after e ∙ ap (λ l. s ∷ l) same,
      )

  -- What has to be done before the node listens, in order.
  abbrev pub in_order : Number → List Step
  in_order port =
      create_app
      ∷ init_app
      ∷ init_api
      ∷ init_project
      ∷ init_fetch
      ∷ enable_shutdown_hooks
      ∷ listen port
      ∷ []

  abbrev pub Started : Number → List Step → Type 0
  Started port trace = AllDone (in_order port) trace ⊎ Broken (in_order port) trace

  -- There is no port, or it is zero.
  abbrev pub WithoutPort : Option Number → Type 0
  WithoutPort chosen =
      (chosen ≡ none) ⊎ ((port : Number) × (chosen ≡ some port) × (is_falsy port ≡ true))

  bootstrap_at-try_steps :
      (port : Number)
      → is_falsy port ≡ false
      → bootstrap_at attempt (some port) ≡ try_steps (in_order port)
  unfolding bootstrap_at start_app try_steps
  bootstrap_at-try_steps port h = ap (λ b. if b then exit 1 ∷ [] else start_app attempt port) h

  bootstrap_at_lem :
      (chosen : Option Number)
      → (WithoutPort chosen × (bootstrap_at attempt chosen ≡ exit 1 ∷ []))
        ⊎ ((port : Number) × (chosen ≡ some port) × Started port (bootstrap_at attempt chosen))
  unfolding bootstrap_at
  bootstrap_at_lem none = inl (inl refl, refl)
  bootstrap_at_lem (some port) = elim (Bool-cases (is_falsy port)) [
    | inl t ↦
        inl (inr (port, refl, t), ap (λ b. if b then exit 1 ∷ [] else start_app attempt port) t)
    | inr f ↦ inr (
      port,
      refl,
      subst (Started port) (sym (bootstrap_at-try_steps port f)) (try_steps_lem (in_order port)),
    )
  ]

  -- With a port, the start begins its steps in their order, up to the first that throws, after which
  -- the process ends with code 1: the node listens last, and only where the application and the API,
  -- project and fetch services were initialised. Without a port, or with zero, the process ends at
  -- once.
  pub bootstrap_lem :
      (argument : Number) (available : Option Number)
      → (WithoutPort (chosen_port argument available)
          × (bootstrap attempt argument available ≡ exit 1 ∷ []))
        ⊎ ((port : Number) × (chosen_port argument available ≡ some port)
            × Started port (bootstrap attempt argument available))
  unfolding bootstrap
  bootstrap_lem argument available = bootstrap_at_lem (chosen_port argument available)

one_endpoint_iff :
    (found : Option Endpoints) (url : String)
    → (one_endpoint found ≡ ok url) ↔ (found ≡ some (one url))
one_endpoint_iff none url = (λ h. cc h, λ h. cc h)
one_endpoint_iff (some (one u)) url = (λ h. cc h, λ h. cc h)
one_endpoint_iff (some (several us)) url = (λ h. cc h, λ h. cc h)

-- The service gets the manifest's endpoint where the manifest gives a single one, and the one that
-- is found where the manifest gives none; else an error is thrown, also where none is found.
pub dictionary_url_iff :
    (configured : Option Endpoints) (resolved : Result (Option Endpoints)) (url : String)
    → (dictionary_url configured resolved ≡ ok url)
      ↔ ((configured ≡ some (one url)) ⊎ ((configured ≡ none) × (resolved ≡ ok (some (one url)))))
unfolding dictionary_url
dictionary_url_iff (some endpoints) resolved url =
    let (there, back) = one_endpoint_iff (some endpoints) url in
    (λ h. inl (there h), λ h. elim h [ inl e ↦ back e | inr (e, found) ↦ cc e ])
dictionary_url_iff none (ok found) url =
    let (there, back) = one_endpoint_iff found url in
    (
      λ h. inr (refl, ap ok (there h)),
      λ h. elim h [ inl e ↦ cc e | inr (e, same) ↦ back (cc same) ],
    )
dictionary_url_iff none (err f) url =
    (λ h. cc h, λ h. elim h [ inl e ↦ cc e | inr (e, same) ↦ cc same ])
