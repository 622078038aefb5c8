-- ===== src/Value/Property.antt =====
-- Dotted paths into a value: `key.split('.').reduce((acc, curr) => acc[curr], v)` of
-- packages/node/src/utils/cosmos.ts.
use Prim.Native.Char.{code}
use Prim.Native.String
use subql_cosmos.Base.{
  String, ◌≡◌, refl, List, [], ◌∷◌, ◌==◌, nat_strict, if◌then◌else◌, Result, ok, ◌>>=◌,
}
use subql_cosmos.Value.{Value, get_property}

-- `s.split('.')`, with the part read so far.
split_from : String → String → List String
split_from part String.[] = part ∷ []
split_from part (String.◌∷◌ c s) =
    let longer = String.◌++◌ part (String.◌∷◌ c String.[]) in
    let rest = split_from (if code c == 46 then "" else longer) s in
    if code c == 46 then part ∷ rest else rest

unfoldable pub split_dots : String → List String
unfolding split_from
split_dots s = split_from "" s

-- The reduction over the parts of a path.
unfoldable pub get_path : Value → List String → Result Value
get_path v [] = ok v
get_path v (part ∷ parts) = do w ← get_property v part; get_path w parts

split_dots_nested : split_dots "msg.swap.a" ≡ "msg" ∷ "swap" ∷ "a" ∷ []
unfolding split_dots
split_dots_nested = refl

split_dots_empty : split_dots "" ≡ "" ∷ []
unfolding split_dots
split_dots_empty = refl
