-- ===== src/Startup/Tests.antt =====
-- Starts that are concrete.
use subql_cosmos.Base.{◌≡◌, ◌↔◌, ◌⊎◌, refl, none, some, [], ◌∷◌, String, Option, Result, ok, fail}
use subql_cosmos.Base.Number.{Number, int, pos, nan}
use subql_cosmos.Startup.{
  Step, create_app, init_app, init_api, exit, chosen_port, bootstrap, Endpoints, one,
  dictionary_url,
}
use subql_cosmos.Startup.Laws.{Started, WithoutPort, bootstrap_lem, dictionary_url_iff}

-- The API cannot be initialised.
abbrev attempt : Step → Result (Unit {0})
attempt init_api = fail "getaddrinfo ENOTFOUND"
attempt s = ok tt

abbrev port : Number
port = int (pos 3000)

api_fails : bootstrap attempt nan (some port) ≡ create_app ∷ init_app ∷ init_api ∷ exit 1 ∷ []
unfolding bootstrap
api_fails = refl

port_zero : bootstrap attempt (int (pos 0)) (some port) ≡ exit 1 ∷ []
unfolding bootstrap
port_zero = refl

bootstrap_lem_example :
    (WithoutPort attempt (chosen_port nan (some port))
      × (bootstrap attempt nan (some port) ≡ exit 1 ∷ []))
    ⊎ ((p : Number) × (chosen_port nan (some port) ≡ some p)
        × Started attempt p (bootstrap attempt nan (some port)))
bootstrap_lem_example = bootstrap_lem attempt nan (some port)

abbrev url : String
url = "https://api.subquery.network/sq/subquery/cosmos-juno-dictionary"

dictionary_url_iff_example : (dictionary_url none (ok (some (one url))) ≡ ok url) ↔ (
    (◌≡◌ {A = Option Endpoints} none (some (one url)))
    ⊎ ((◌≡◌ {A = Option Endpoints} none none)
        × (◌≡◌ {A = Result (Option Endpoints)} (ok (some (one url))) (ok (some (one url))))))
dictionary_url_iff_example = dictionary_url_iff none (ok (some (one url))) url
