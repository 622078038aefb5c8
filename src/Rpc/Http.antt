-- ===== src/Rpc/Http.antt =====
-- `HttpClient` of packages/node/src/indexer/rpc-clients/HttpClient.ts.
pub mod Laws
use subql_cosmos.Base.{
  String, Bool, true, false, not, Option, none, some, List, [], ◌∷◌, ◌==◌, text_strict,
  if◌then◌else◌, Result, ok, err, type_error, ◌>>=◌,
}
use Prim.Native.Char.{Char}
use Prim.Native.String
use Prim.Native.String.{◌++◌ as ◌<>◌}
use package.text.Mathlib.Text.{starts_with}
use subql_cosmos.Value.{Value}
use subql_cosmos.Rpc.{RpcLib, JsonRpcRequest, JsonRpcResponse, result_of}

abbrev pub here_or_later : Bool → Char → Option String → Option String
here_or_later true c later = some ""
here_or_later false c none = none
here_or_later false c (some t) = some (String.◌∷◌ c t)

-- The text before the first place of `part` in a text.
unfoldable pub text_before : String → String → Option String
text_before part String.[] = if starts_with "" part then some "" else none
text_before part (String.◌∷◌ c s) =
    here_or_later (starts_with (String.◌∷◌ c s) part) c (text_before part s)

-- `text.slice(0, -1)`, where the last character is one code unit.
unfoldable pub drop_last : String → String
drop_last String.[] = String.[]
drop_last (String.◌∷◌ c s) = let rest = drop_last s in if s == "" then "" else String.◌∷◌ c rest

-- `indexOf` answers -1 where the part does not occur, which `slice` reads from the end.
unfoldable pub sliced : String → Option String → String
unfolding drop_last
sliced s none = drop_last s
sliced s (some before) = before

-- `text.slice(0, text.indexOf(part))`
unfoldable pub slice_to : String → String → String
unfolding text_before sliced
slice_to part s = sliced s (text_before part s)

unfoldable pub has_protocol : String → Bool
unfolding text_before
has_protocol url = elim (text_before "://" url) [ none ↦ false | some t ↦ true ]

abbrev pub Headers : Type 0
Headers = List (String × String)

pub data Endpoint : Type 0 where
  text : String → Endpoint
  http_endpoint : String → Option Headers → Endpoint

pub record HttpClient : Type 0 where
  pub url : String
  pub headers : Option Headers

-- `headers[name] = value`
unfoldable pub set_header : String → String → Headers → Headers
set_header name value [] = (name, value) ∷ []
set_header name value ((n, v) ∷ headers) =
    let rest = set_header name value headers in
    if n == name then (n, value) ∷ headers else (n, v) ∷ rest

unfoldable pub header_of : String → Headers → Option String
header_of name [] = none
header_of name ((n, v) ∷ headers) =
    let rest = header_of name headers in if n == name then some v else rest

-- The fields that the constructor sets before it reads the URL.
unfoldable pub of_endpoint : Endpoint → HttpClient
unfolding has_protocol
of_endpoint (text s) = record { url = if has_protocol s then s else "http://" <> s; headers = none }
of_endpoint (http_endpoint url headers) = record { url = url; headers = headers }

-- The key that the URL has: absent and empty ones are passed over.
abbrev pub api_key : Option String → Option String
api_key none = none
api_key (some key) = if key == "" then none else some key

-- `this.headers.apikey = …`, which throws without headers, and the assignment of the URL.
unfoldable pub move_key : HttpClient → String → Option Headers → Result HttpClient
unfolding slice_to set_header
move_key client key none = err type_error
move_key client key (some headers) = ok (record {
  url = slice_to "?apikey" client.url;
  headers = some (set_header "apikey" key headers);
})

unfoldable pub with_api_key : HttpClient → Option String → Result HttpClient
unfolding move_key
with_api_key client none = ok client
with_api_key client (some key) = move_key client key client.headers

-- The constructor. `search_param` is the search parameter `apikey` of `new URL(url)`, which throws
-- where the text is no URL. The client's connection has the URL and the headers of the result.
unfoldable pub new_http_client : (String → Result (Option String)) → Endpoint → Result HttpClient
unfolding of_endpoint with_api_key
new_http_client search_param endpoint = search_param (of_endpoint endpoint).url >>= λ key.
    with_api_key (of_endpoint endpoint) (api_key key)

-- `execute`, with what the post of the request answers.
unfoldable pub execute_http :
    RpcLib → (JsonRpcRequest → Result Value) → JsonRpcRequest → Result JsonRpcResponse
execute_http lib post request =
    post request >>= λ body. lib.parse_response body >>= λ response. result_of lib response
