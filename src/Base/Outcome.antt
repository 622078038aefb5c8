-- ===== src/Base/Outcome.antt =====
-- Exceptions as values: what a call of the program returns or throws.
use Prim.Native.String.{String}
use mathlib.Core.Path.{◌≡◌, refl}
use mathlib.Core.Logic.{◌↔◌}
use mathlib.Core.Bool.{Bool, true, false}
use mathlib.Core.List.{List, [], ◌∷◌}

-- The fields of an `Error` object that the program reads and writes.
pub record JsError : Type 0 where
  pub name : String
  pub message : String

-- `type_error` is the engine's own TypeError, such as a property read of `undefined`.
pub data Fault : Type 0 where
  type_error : Fault
  thrown : JsError → Fault

pub data Result {ℓ} (A : Type ℓ) : Type ℓ where
  ok : A → Result A
  err : Fault → Result A

-- `throw new Error(message)`
abbrev pub fail {ℓ} : {A : Type ℓ} → String → Result A
fail message = err (thrown (record { name = "Error"; message = message }))

module _ {ℓ κ} {X : Type ℓ} {Y : Type κ} where
  infixl 5 ◌>>=◌
  -- The rest of a function, which an error skips.
  abbrev pub ◌>>=◌ : Result X → (X → Result Y) → Result Y
  err fault >>= rest = err fault
  ok x >>= rest = rest x

  -- A sequence that returned: its first step returned too.
  pub >>=_returned :
      (first : Result X) (rest : X → Result Y) {y : Y}
      → (first >>= rest) ≡ ok y
      → (x : X) × (first ≡ ok x) × (rest x ≡ ok y)
  >>=_returned (err fault) rest e = cc
  >>=_returned (ok x) rest e = (x, refl, e)

-- A test that goes on only where the one before it held.
abbrev pub and_also : Result Bool → Result Bool → Result Bool
and_also (ok true) k = k
and_also (ok false) k = ok false
and_also (err e) k = err e

pub and_also-eq-true_iff :
    (m k : Result Bool) → (and_also m k ≡ ok true) ↔ ((m ≡ ok true) × (k ≡ ok true))
and_also-eq-true_iff (ok true) k = (λ h. (refl, h), λ h. h.1)
and_also-eq-true_iff (ok false) k = (λ h. (h, cc), λ h. h.0)
and_also-eq-true_iff (err e) k = (λ h. (h, cc), λ h. h.0)

-- The first error stops the rest, as an exception in a callback of `map` does.
abbrev pub map_result {ℓ κ} : {A : Type ℓ} {B : Type κ} → (A → Result B) → List A → Result (List B)
map_result f [] = ok []
map_result f (x ∷ xs) = do y ← f x; ys ← map_result f xs; ok (y ∷ ys)
