-- ===== src/Base/Lists.antt =====
-- Lists measured and indexed by native numbers, predicates on lists, and searches.
use Prim.Native.Nat.{ℕ, zero, suc, ◌+◌}
use mathlib.Core.Path.{◌≡◌, refl, ap}
use mathlib.Core.Bool.{Bool, true, false, ◌&&◌, ◌||◌}
use mathlib.Core.Logic.{◌⊎◌, ◌↔◌}
use mathlib.Core.List.{List, [], ◌∷◌, ◌++◌, map}
use mathlib.Core.Option.{Option, none, some}
use native.Mathlib.Omega.{arith}

module _ {ℓ} {A : Type ℓ} where
  abbrev pub length : List A → ℕ
  length [] = 0
  length (x ∷ xs) = suc (length xs)

  abbrev pub get_elem? : List A → ℕ → Option A
  get_elem? [] i = none
  get_elem? (x ∷ xs) zero = some x
  get_elem? (x ∷ xs) (suc i) = get_elem? xs i

  pub length-append : (xs ys : List A) → length (xs ++ ys) ≡ length xs + length ys
  length-append [] ys = omega arith
  length-append (x ∷ xs) ys = omega (arith, length-append xs ys)

  abbrev pub all : (A → Bool) → List A → Bool
  all p [] = true
  all p (x ∷ xs) = p x && all p xs

  abbrev pub any : (A → Bool) → List A → Bool
  any p [] = false
  any p (x ∷ xs) = p x || any p xs

module _ {ℓ κ} {A : Type ℓ} where
  pub length-map : {B : Type κ} (f : A → B) (xs : List A) → length (map f xs) ≡ length xs
  length-map f [] = refl
  length-map f (x ∷ xs) = ap suc (length-map f xs)

  -- Every element satisfies `P`.
  abbrev pub All : (A → Type κ) → List A → Type κ
  All P [] = Unit
  All P (x ∷ xs) = P x × All P xs

module _ {ℓ} {A : Type ℓ} where
  -- Some element satisfies `P`.
  abbrev pub Any : (A → Type 0) → List A → Type 0
  Any P [] = ⊥
  Any P (x ∷ xs) = P x ⊎ Any P xs

  pub any_iff :
      (p : A → Bool) (P : A → Type 0)
      → ((x : A) → (p x ≡ true) ↔ P x)
      → (xs : List A) → (any p xs ≡ true) ↔ Any P xs
  any_iff p P decides [] = (λ h. cc, λ h. absurd h)
  any_iff p P decides (x ∷ xs) = ground (arith, decides x, any_iff p P decides xs)

  pub all_iff :
      (p : A → Bool) (P : A → Type 0)
      → ((x : A) → (p x ≡ true) ↔ P x)
      → (xs : List A) → (all p xs ≡ true) ↔ All P xs
  all_iff p P decides [] = (λ h. tt, λ h. refl)
  all_iff p P decides (x ∷ xs) = ground (arith, decides x, all_iff p P decides xs)
