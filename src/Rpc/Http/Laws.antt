-- ===== src/Rpc/Http/Laws.antt =====
-- `HttpClient`: where an API key of the URL goes, and when the constructor throws.
use subql_cosmos.Base.{
  ◌≡◌, ◌≢◌, refl, ap, ◌∙◌, sym, ◌↔◌, ◌⊎◌, inl, inr, String, Bool, true, false, Option, none, some,
  [], ◌∷◌, eq_iff, Bool-cases, if◌then◌else◌, Result, ok, err, type_error, ◌>>=◌, ◌==◌, text_strict,
}
use Prim.Native.String.{◌++◌ as ◌<>◌}
use Prim.Native.String.append
use package.text.Mathlib.TextEquality.{starts_with_iff}
use package.text.Mathlib.Text.{starts_with}
use subql_cosmos.Rpc.Http.{
  Headers, Endpoint, text, http_endpoint, HttpClient, here_or_later, text_before, slice_to, sliced,
  set_header, header_of, of_endpoint, api_key, move_key, drop_last, with_api_key, new_http_client,
}

same_text : (s : String) → (s == s) ≡ true
same_text s = (eq_iff s s).1 refl

other_text : (s t : String) → s ≢ t → (s == t) ≡ false
other_text s t h = elim (Bool-cases (s == t)) [
  | inl same ↦ absurd (h ((eq_iff s t).0 same))
  | inr differ ↦ differ
]

header_of-set_header :
    (name value : String) (headers : Headers)
    → header_of name (set_header name value headers) ≡ some value
unfolding header_of set_header
header_of-set_header name value [] = ap (λ b. if b then some value else none) (same_text name)
header_of-set_header name value ((n, v) ∷ headers) = elim (Bool-cases (n == name)) [
  | inl t ↦ rw (t, t) refl
  | inr f ↦ rw (f, f) (header_of-set_header name value headers)
]

header_of-set_header_other :
    (name other value : String) (headers : Headers)
    → name ≢ other
    → header_of other (set_header name value headers) ≡ header_of other headers
unfolding header_of set_header
header_of-set_header_other name other value [] h =
    ap (λ b. if b then some value else none) (other_text name other h)
header_of-set_header_other name other value ((n, v) ∷ headers) h = elim (Bool-cases (n == name)) [
  | inl t ↦
      let differ : (n == other) ≡ false =
        other_text n other (λ e. h (sym ((eq_iff n name).0 t) ∙ e)) in
      rw t (
        ap (λ b. if b then some value else header_of other headers) differ
        ∙ sym (ap (λ b. if b then some v else header_of other headers) differ))
  | inr f ↦ rw (f, header_of-set_header_other name other value headers h) refl
]

at_once :
    (part s t : String)
    → starts_with s part ≡ true
    → some "" ≡ some t
    → (rest : String) × (s ≡ t <> (part <> rest))
at_once part s t e h =
    let (rest, split) = (starts_with_iff s part).0 e in
    let front : "" ≡ t = cc h in
    (rest, sym split ∙ sym (append.nil (part <> rest)) ∙ ap (λ v. v <> (part <> rest)) front)

-- What `text_before` gives: the text in front of the part.
text_before-split :
    (part s t : String) → text_before part s ≡ some t → (rest : String) × (s ≡ t <> (part <> rest))
unfolding text_before
text_before-split part String.[] t h = elim (Bool-cases (starts_with "" part)) [
  | inl e ↦ at_once part "" t e (sym (ap (λ b. if b then some "" else none) e) ∙ h)
  | inr e ↦ absurd (cc (sym (ap (λ b. if b then some "" else none) e) ∙ h))
]
text_before-split part (String.◌∷◌ c s) t h =
    later_split (starts_with (String.◌∷◌ c s) part) (text_before part s) refl
      (λ u e. text_before-split part s u e) h
  where
    later_split :
        (b : Bool) (o : Option String)
        → starts_with (String.◌∷◌ c s) part ≡ b
        → ((u : String) → o ≡ some u → (rest : String) × (s ≡ u <> (part <> rest)))
        → here_or_later b c o ≡ some t
        → (rest : String) × (String.◌∷◌ c s ≡ t <> (part <> rest))
    later_split true o e ih k = at_once part (String.◌∷◌ c s) t e k
    later_split false none e ih k = absurd (cc k)
    later_split false (some u) e ih k =
        let (rest, split) = ih u refl in
        let front : String.◌∷◌ c u ≡ t = cc k in
        (
          rest,
          ap (String.◌∷◌ c) split
              ∙ sym (append.cons c u (part <> rest))
              ∙ ap (λ v. v <> (part <> rest)) front,
        )

move_key-fails :
    (client : HttpClient) (key : String) (headers : Option Headers)
    → (move_key client key headers ≡ err type_error) ↔ (headers ≡ none)
unfolding move_key
move_key-fails client key none = (λ h. refl, λ h. refl)
move_key-fails client key (some headers) = (λ h. cc h, λ h. cc h)

with_api_key-fails :
    (client : HttpClient) (key : Option String)
    → (with_api_key client key ≡ err type_error) ↔ ((key ≢ none) × (client.headers ≡ none))
unfolding with_api_key
with_api_key-fails client none = (λ h. cc h, λ h. absurd (h.0 refl))
with_api_key-fails client (some key) =
    let (there, back) = move_key-fails client key client.headers in
    (λ h. (λ e. cc e, there h), λ h. back h.1)

slice_to-before :
    (part s : String)
    → ((rest : String) × (s ≡ slice_to part s <> (part <> rest)))
      ⊎ ((text_before part s ≡ none) × (slice_to part s ≡ drop_last s))
unfolding slice_to sliced
slice_to-before part s = go (text_before part s) refl
  where
    go :
        (o : Option String)
        → text_before part s ≡ o
        → ((rest : String) × (s ≡ sliced s o <> (part <> rest)))
          ⊎ ((text_before part s ≡ none) × (sliced s o ≡ drop_last s))
    go none e = inr (e, refl)
    go (some t) e = inl (text_before-split part s t e)

-- Where the URL can be read, the constructor throws a TypeError exactly where the URL has an API key
-- and the endpoint has no headers.
pub new_http_client_fails_iff :
    (search_param : String → Result (Option String)) (endpoint : Endpoint) (key : Option String)
    → search_param (of_endpoint endpoint).url ≡ ok key
    → (new_http_client search_param endpoint ≡ err type_error)
      ↔ ((api_key key ≢ none) × ((of_endpoint endpoint).headers ≡ none))
unfolding new_http_client
new_http_client_fails_iff search_param endpoint key read =
    let (there, back) = with_api_key-fails (of_endpoint endpoint) (api_key key) in
    let step = ap (λ r. r >>= λ k. with_api_key (of_endpoint endpoint) (api_key k)) read in
    (λ h. there (sym step ∙ h), λ h. step ∙ back h)

-- Where the URL has an API key and the endpoint has headers, the client is made: the key becomes a
-- header_of and the other headers stay. Either "?apikey" occurs in the URL, and the client's URL is what
-- stands before it; or it does not, and the client's URL is the endpoint's without its last
-- character.
pub new_http_client_moves_key :
    (search_param : String → Result (Option String)) (url key : String) (headers : Headers)
    (other : String)
    → search_param url ≡ ok (some key)
    → key ≢ ""
    → other ≢ "apikey"
    → (client : HttpClient) × (sent : Headers) × (new_http_client search_param
          (http_endpoint url (some headers))
        ≡ ok client)
      × (client.headers ≡ some sent)
      × (header_of "apikey" sent ≡ some key)
      × (header_of other sent ≡ header_of other headers)
      × (((rest : String) × (url ≡ client.url <> ("?apikey" <> rest)))
          ⊎ ((text_before "?apikey" url ≡ none) × (client.url ≡ drop_last url)))
unfolding new_http_client with_api_key move_key of_endpoint
new_http_client_moves_key search_param url key headers other read some_key differs = (
  record { url = slice_to "?apikey" url; headers = some (set_header "apikey" key headers) },
  set_header "apikey" key headers,
  ap (λ r. r >>= λ k. with_api_key (of_endpoint endpoint) (api_key k)) read
      ∙ ap (λ b. with_api_key (of_endpoint endpoint) (if b then none else some key))
          (other_text key "" some_key),
  refl,
  header_of-set_header "apikey" key headers,
  header_of-set_header_other "apikey" other key headers (λ e. differs (sym e)),
  slice_to-before "?apikey" url,
)
  where
    endpoint : Endpoint
    endpoint = http_endpoint url (some headers)
