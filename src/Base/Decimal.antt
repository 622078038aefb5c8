-- ===== src/Base/Decimal.antt =====
-- Decimal numerals of the non-negative integers: printing, and reading a run of digits.
use Prim.Native.Nat.{ℕ, zero, suc, ◌+◌, ◌-◌, ◌*◌, ◌/◌, ◌%◌, ◌≤◌, ◌<◌}
use Prim.Native.Char.{Char, code}
use Prim.Native.String.{String, [], ◌∷◌}
use mathlib.Core.Path.{◌≡◌, refl}
use mathlib.Core.Logic.{inl, inr}
use mathlib.Core.Bool.{Bool, true, false, ◌&&◌}
use native.Mathlib.Omega.{arith}
use subql_cosmos.Base.Tests.{leb, ◌==◌, nat_strict, if◌then◌else◌, Bool-cases}

digit_char : ℕ → Char
digit_char zero = "0"
digit_char (suc zero) = "1"
digit_char (suc (suc zero)) = "2"
digit_char (suc (suc (suc zero))) = "3"
digit_char (suc (suc (suc (suc zero)))) = "4"
digit_char (suc (suc (suc (suc (suc zero))))) = "5"
digit_char (suc (suc (suc (suc (suc (suc zero)))))) = "6"
digit_char (suc (suc (suc (suc (suc (suc (suc zero))))))) = "7"
digit_char (suc (suc (suc (suc (suc (suc (suc (suc zero)))))))) = "8"
digit_char _ = "9"

code-digit_char : (d : ℕ) → d < 10 → code (digit_char d) ≡ 48 + d
unfolding digit_char
code-digit_char zero h = refl
code-digit_char (suc zero) h = refl
code-digit_char (suc (suc zero)) h = refl
code-digit_char (suc (suc (suc zero))) h = refl
code-digit_char (suc (suc (suc (suc zero)))) h = refl
code-digit_char (suc (suc (suc (suc (suc zero))))) h = refl
code-digit_char (suc (suc (suc (suc (suc (suc zero)))))) h = refl
code-digit_char (suc (suc (suc (suc (suc (suc (suc zero))))))) h = refl
code-digit_char (suc (suc (suc (suc (suc (suc (suc (suc zero)))))))) h = refl
code-digit_char (suc (suc (suc (suc (suc (suc (suc (suc (suc zero))))))))) h = refl
code-digit_char (suc (suc (suc (suc (suc (suc (suc (suc (suc (suc d)))))))))) h =
    absurd (omega arith)

-- The digits of `n`, written in front of `out`; each round divides `n` by ten.
digits_before : ℕ → ℕ → String → String
digits_before zero n out = out
digits_before (suc fuel) n out =
    let rest = digits_before fuel (n / 10) (digit_char (n % 10) ∷ out) in
    if n == 0 then out else rest

unfoldable pub to_decimal : ℕ → String
unfolding digits_before digit_char
to_decimal zero = "0"
to_decimal n = digits_before n n []

abbrev pub is_digit : Char → Bool
is_digit c = leb 48 (code c) && leb (code c) 57

-- The number that the digits at the head of a text continue, up to the first other character.
unfoldable pub read_digits : ℕ → String → ℕ
read_digits n [] = n
read_digits n (c ∷ s) = if is_digit c then read_digits (n * 10 + (code c - 48)) s else n

read_digits-digit :
    (n : ℕ) (out : String) → read_digits (n / 10) (digit_char (n % 10) ∷ out) ≡ read_digits n out
unfolding read_digits
read_digits-digit n out = ground (arith, code-digit_char (n % 10))

read_digits-digits_before :
    (fuel n : ℕ) (out : String)
    → n ≤ fuel
    → read_digits 0 (digits_before fuel n out) ≡ read_digits n out
unfolding digits_before
read_digits-digits_before zero zero out h = refl
read_digits-digits_before zero (suc n) out h = elim h [ ]
read_digits-digits_before (suc fuel) n out h = ground (
  arith,
  read_digits-digit n out,
  read_digits-digits_before fuel (n / 10) (digit_char (n % 10) ∷ out),
)

-- A printed number is read back.
pub read_digits-to_decimal : (n : ℕ) → read_digits 0 (to_decimal n) ≡ n
unfolding to_decimal read_digits
read_digits-to_decimal zero = refl
read_digits-to_decimal (suc n) = read_digits-digits_before (suc n) (suc n) [] (omega arith)

abbrev pub head_is_digit : String → Bool
head_is_digit [] = false
head_is_digit (c ∷ s) = is_digit c

head_is_digit-digit_char :
    (d : ℕ) (out : String) → d < 10 → head_is_digit (digit_char d ∷ out) ≡ true
head_is_digit-digit_char d out h = ground (arith, code-digit_char d h)

head_is_digit-digits_before :
    (fuel n : ℕ) (out : String)
    → head_is_digit out ≡ true
    → head_is_digit (digits_before fuel n out) ≡ true
unfolding digits_before
head_is_digit-digits_before zero n out h = h
head_is_digit-digits_before (suc fuel) n out h = elim (Bool-cases (n == 0)) [
  | inl done ↦ rw done h
  | inr more ↦ rw more (
      head_is_digit-digits_before fuel (n / 10) (digit_char (n % 10) ∷ out)
        (head_is_digit-digit_char (n % 10) out (omega arith)))
]

pub head_is_digit-to_decimal : (n : ℕ) → head_is_digit (to_decimal n) ≡ true
unfolding to_decimal digits_before
head_is_digit-to_decimal zero = refl
head_is_digit-to_decimal (suc n) =
    let positive : (suc n == 0) ≡ false = ground arith in
    rw positive (
      head_is_digit-digits_before n (suc n / 10) (digit_char (suc n % 10) ∷ [])
        (head_is_digit-digit_char (suc n % 10) [] (omega arith)))
