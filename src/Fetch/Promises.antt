-- ===== src/Fetch/Promises.antt =====
-- `Promise.all`, by the order in which the promises settle.
use subql_cosmos.Base.{
  ℕ, ◌≡◌, refl, ap₂, Bool, Option, none, some, List, [], ◌∷◌, get_elem?, map, map_result,
  if◌then◌else◌, Fault, Result, ok, err, >>=_returned,
}

module _ {A : Type 0} where
  -- The rejection of a promise before those of the others.
  abbrev pub error_before : Option (Result A) → Option Fault → Option Fault
  error_before (some (err e)) later = some e
  error_before _ later = later

  unfoldable pub first_error : List ℕ → List (Result A) → Option Fault
  first_error [] promises = none
  first_error (i ∷ order) promises =
      error_before (get_elem? promises i) (first_error order promises)

  unfoldable pub promise_all : List ℕ → List (Result A) → Result (List A)
  unfolding first_error
  promise_all order promises = elim (first_error order promises) [
    | some e ↦ err e
    | none ↦ map_result (λ p. p) promises
  ]

  map_result_ok :
      (promises : List (Result A)) (values : List A)
      → map_result (λ p. p) promises ≡ ok values
      → promises ≡ map ok values
  map_result_ok [] values h = let e : [] ≡ values = cc h in rw⁻¹ e refl
  map_result_ok (p ∷ promises) values h =
      let (v, e, h₁) = >>=_returned p _ h in
      let (vs, es, h₂) = >>=_returned (map_result (λ p. p) promises) _ h₁ in
      let same : v ∷ vs ≡ values = cc h₂ in
      rw⁻¹ same (ap₂ (λ x xs. x ∷ xs) e (map_result_ok promises vs es))

  -- Whatever the order, all promises give their values where `Promise.all` returns.
  pub promise_all_ok :
      (order : List ℕ) (promises : List (Result A)) (values : List A)
      → promise_all order promises ≡ ok values
      → promises ≡ map ok values
  unfolding promise_all
  promise_all_ok order promises values h = go (first_error order promises) h
    where
      go :
          (o : Option Fault)
          → (elim o [ some e ↦ err e | none ↦ map_result (λ p. p) promises ]) ≡ ok values
          → promises ≡ map ok values
      go none k = map_result_ok promises values k
      go (some e) k = absurd (cc k)

abbrev pub both_error : Bool → Fault → Fault → Fault
both_error second_first e f = if second_first then f else e

unfoldable pub promise_both : {A B : Type 0} → Bool → Result A → Result B → Result (A × B)
promise_both second_first (ok a) (ok b) = ok (a, b)
promise_both second_first (err e) (ok b) = err e
promise_both second_first (ok a) (err f) = err f
promise_both second_first (err e) (err f) = err (both_error second_first e f)

pub promise_both_ok :
    {A B : Type 0} (second_first : Bool) (p : Result A) (q : Result B) (a : A) (b : B)
    → promise_both second_first p q ≡ ok (a, b)
    → (p ≡ ok a) × (q ≡ ok b)
unfolding promise_both
promise_both_ok second_first (ok x) (ok y) a b h = (cc h, cc h)
promise_both_ok second_first (err e) (ok y) a b h = absurd (cc h)
promise_both_ok second_first (ok x) (err f) a b h = absurd (cc h)
promise_both_ok second_first (err e) (err f) a b h = absurd (cc h)
