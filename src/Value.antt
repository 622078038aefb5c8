-- ===== src/Value.antt =====
-- The values of decoded messages and of manifest filters: what `any` stands for in
-- packages/types/src/interfaces.ts and in packages/node/src/utils/cosmos.ts.
pub mod Property
use subql_cosmos.Base.{
  ℕ, suc, ◌+◌, String, ◌≡◌, Bool, true, false, ◌&&◌, ◌||◌, Option, none, some, List, [], ◌∷◌, ltb,
  ◌==◌, nat_strict, text_strict, if◌then◌else◌, Result, ok, err, type_error, ◌>>=◌,
}
use subql_cosmos.Base.Number.{ℤ, pos, Number, int, number_eq}
use subql_cosmos.Base.Decimal.{to_decimal}
use Prim.Native.Char.{code}
use Prim.Native.String

-- An instance of the class of the package `long`: its own properties.
pub record Long : Type 0 where
  pub low : ℤ
  pub high : ℤ
  pub unsigned : Bool

-- `obj` is any plain object or array, by its own enumerable properties (those of an array are its
-- indexes and `length`). Inherited properties are not part of the model.
mutual
  pub data Value : Type 0 where
    undefined : Value
    null : Value
    bool : Bool → Value
    num : Number → Value
    str : String → Value
    long : Long → Value
    obj : Fields → Value

  pub data Fields : Type 0 where
    end : Fields
    field : String → Value → Fields → Fields

unfoldable pub field_of : Fields → String → Value
field_of end key = undefined
field_of (field k v fs) key = if k == key then v else field_of fs key

unfoldable pub has_field : Fields → String → Bool
has_field end key = false
has_field (field k v fs) key = k == key || has_field fs key

-- The code units of a text, and the unit at an index that `key` spells.
units : String → ℕ
units String.[] = 0
units (String.◌∷◌ c s) = (if ltb (code c) 0x10000 then 1 else 2) + units s

unit_of : ℕ → String → String → Value
unit_of i String.[] key = undefined
unit_of i (String.◌∷◌ c s) key =
    if to_decimal i == key then str (String.◌∷◌ c String.[]) else unit_of (suc i) s key

text_property : String → String → Value
text_property s key = if key == "length" then num (int (pos (units s))) else unit_of 0 s key

long_property : Long → String → Value
long_property l key =
    if key == "low"
    then num (int l.low)
    else if key == "high"
    then num (int l.high)
    else if key == "unsigned"
    then bool l.unsigned
    else if key == "__isLong__"
    then bool true
    else undefined

-- `v[key]`
unfoldable pub get_property : Value → String → Result Value
unfolding text_property unit_of units long_property field_of
get_property undefined key = err type_error
get_property null key = err type_error
get_property (str s) key = ok (text_property s key)
get_property (long l) key = ok (long_property l key)
get_property (obj fs) key = ok (field_of fs key)
get_property _ key = ok undefined

-- `key in v`, which throws where `v` is no object.
unfoldable pub has_property : Value → String → Result Bool
unfolding has_field
has_property (obj fs) key = ok (has_field fs key)
has_property (long l) key =
    ok (key == "low" || key == "high" || key == "unsigned" || key == "__isLong__")
has_property _ key = err type_error

-- `a === b`, where two objects are never one: one comes from the manifest and one from the chain.
unfoldable pub strict_eq : Value → Value → Bool
strict_eq undefined undefined = true
strict_eq null null = true
strict_eq (bool true) (bool b) = b
strict_eq (bool false) (bool true) = false
strict_eq (bool false) (bool false) = true
strict_eq (num a) (num b) = number_eq a b
strict_eq (str a) (str b) = a == b
strict_eq _ _ = false

-- The operations of the packages `long` and `lodash` that the program calls on values.
pub record ValueLib : Type 0 where
  pub to_number : Long → Number
  pub to_string : Long → String
  pub is_object_like : Value → Bool
