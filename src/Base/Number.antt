-- ===== src/Base/Number.antt =====
-- JavaScript numbers, as far as the program needs them: the integers and NaN. Every integer below
-- 2^53 in absolute value is exact there, as here.
use Prim.Native.Nat.{ℕ, zero, suc}
use Prim.Native.Char.{code}
use Prim.Native.String.{String, [], ◌∷◌}
use mathlib.Core.Path.{◌≡◌, refl, ap, ◌≡⟨◌⟩◌, ◌∎}
use mathlib.Core.Logic.{◌↔◌}
use mathlib.Core.Bool.{Bool, true, false, ◌&&◌, ◌||◌}
use native.Mathlib.Omega.{arith}
use subql_cosmos.Base.Tests.{leb, ◌==◌, nat_strict, if◌then◌else◌}
use subql_cosmos.Base.Decimal.{
  is_digit, read_digits, to_decimal, read_digits-to_decimal, head_is_digit,
  head_is_digit-to_decimal,
}

-- `negsuc n` is -(n + 1).
pub data ℤ : Type 0 where
  pos : ℕ → ℤ
  negsuc : ℕ → ℤ

pub data Number : Type 0 where
  nan : Number
  int : ℤ → Number

abbrev pub int_eq : ℤ → ℤ → Bool
int_eq (pos a) (pos b) = a == b
int_eq (negsuc a) (negsuc b) = a == b
int_eq _ _ = false

pub int_eq_iff : (a b : ℤ) → (int_eq a b ≡ true) ↔ (a ≡ b)
int_eq_iff (pos a) (pos b) = ground arith
int_eq_iff (pos a) (negsuc b) = ground arith
int_eq_iff (negsuc a) (pos b) = ground arith
int_eq_iff (negsuc a) (negsuc b) = ground arith

-- `===` on numbers: NaN equals nothing.
abbrev pub number_eq : Number → Number → Bool
number_eq (int a) (int b) = int_eq a b
number_eq _ _ = false

abbrev pub decrement : ℤ → ℤ
decrement (pos zero) = negsuc 0
decrement (pos (suc n)) = pos n
decrement (negsuc n) = negsuc (suc n)

-- `x - 1`
abbrev pub sub_one : Number → Number
sub_one nan = nan
sub_one (int a) = int (decrement a)

-- `x.toString()`
unfoldable pub to_text : Number → String
to_text nan = "NaN"
to_text (int (pos n)) = to_decimal n
to_text (int (negsuc n)) = "-" ∷ to_decimal (suc n)

abbrev is_space : ℕ → Bool
is_space c = leb 9 c && leb c 13 || c == 32 || c == 160

-- The digits behind a sign: at least one, else NaN.
read_unsigned : (ℕ → ℤ) → String → Number
read_unsigned sign [] = nan
read_unsigned sign (c ∷ s) = if is_digit c then int (sign (read_digits 0 (c ∷ s))) else nan

negate : ℕ → ℤ
negate zero = pos 0
negate (suc n) = negsuc n

-- `parseInt(s, 10)`: leading space, a sign, then the longest run of digits.
unfoldable pub parse_int : String → Number
unfolding read_unsigned negate
parse_int [] = nan
parse_int (c ∷ s) =
    if is_space (code c)
    then parse_int s
    else if code c == 45
    then read_unsigned negate s
    else if code c == 43
    then read_unsigned pos s
    else read_unsigned pos (c ∷ s)

read_unsigned_lem :
    (sign : ℕ → ℤ) (s : String)
    → head_is_digit s ≡ true
    → read_unsigned sign s ≡ int (sign (read_digits 0 s))
unfolding read_unsigned
read_unsigned_lem sign [] h = cc
read_unsigned_lem sign (c ∷ s) h = rw h

parse_int-digits : (s : String) → head_is_digit s ≡ true → parse_int s ≡ int (pos (read_digits 0 s))
unfolding parse_int
parse_int-digits [] h = cc
parse_int-digits (c ∷ s) h = ground (arith, read_unsigned_lem pos (c ∷ s) h)

parse_int-minus : (s : String) → parse_int ("-" ∷ s) ≡ read_unsigned negate s
unfolding parse_int
parse_int-minus s = refl

-- `parseInt(x.toString(), 10)` is `x`, for every integer, and NaN for NaN.
pub parse_int-to_text : (x : Number) → parse_int (to_text x) ≡ x
unfolding to_text negate
parse_int-to_text nan = unfold parse_int in refl
parse_int-to_text (int (pos n)) =
    rw (parse_int-digits (to_decimal n) (head_is_digit-to_decimal n), read_digits-to_decimal n)
parse_int-to_text (int (negsuc n)) =
    parse_int ("-" ∷ to_decimal (suc n))
    ≡⟨ parse_int-minus (to_decimal (suc n)) ⟩ read_unsigned negate (to_decimal (suc n))
    ≡⟨ read_unsigned_lem negate _ (head_is_digit-to_decimal (suc n)) ⟩
      int (negate (read_digits 0 (to_decimal (suc n))))
    ≡⟨ ap (λ k. int (negate k)) (read_digits-to_decimal (suc n)) ⟩ int (negsuc n) ∎
