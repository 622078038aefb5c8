-- ===== src/Rpc/Websocket/Listen.antt =====
-- `WebsocketClient.listen`: one stream for each query.
use subql_cosmos.Base.{
  ℕ, ◌<◌, ◌≡◌, ◌≢◌, refl, ap, ◌∙◌, sym, ◌↔◌, ◌⊎◌, inl, inr, String, Option, none, some, List, [],
  ◌∷◌, Bool-cases, if◌then◌else◌, length, length-append, eq_iff, ok, fail, ◌>>=◌, ◌==◌, text_strict,
  arith,
}
use subql_cosmos.Value.{str, get_property}
use subql_cosmos.Rpc.{JsonRpcRequest}
use subql_cosmos.Rpc.Producer.{new_producer}
use subql_cosmos.Rpc.Websocket.{
  Client, found_or_new, new_client, stream_of, query_stream, query_text, listen, no_subscription,
}

-- Every stream has its producer, and two queries never share one.
pub record Valid (client : Client) : Type 0 where
  pub bounded :
      (query : String) (stream : ℕ)
      → stream_of client.streams query ≡ some stream
      → stream < length client.producers
  pub apart :
      (q q' : String) (stream : ℕ)
      → stream_of client.streams q ≡ some stream
      → stream_of client.streams q' ≡ some stream
      → q ≡ q'

pub new_client-Valid : Valid new_client
unfolding stream_of
new_client-Valid = record { bounded = λ query stream e. cc e; apart = λ q q' stream e e'. cc e }

stream_of-cons :
    (query q : String) (stream : ℕ) (streams : List (String × ℕ))
    → ((query ≡ q) × (stream_of ((query, stream) ∷ streams) q ≡ some stream))
      ⊎ (query ≢ q × (stream_of ((query, stream) ∷ streams) q ≡ stream_of streams q))
unfolding stream_of
stream_of-cons query q stream streams = elim (Bool-cases (query == q)) [
  | inl t ↦ rw t (inl ((eq_iff query q).0 t, refl))
  | inr f ↦ rw f (inr (λ e. absurd (cc ((eq_iff query q).1 e, f)), refl))
]

-- The stream that a listener gets is the query's from then on, and the streams of the other queries
-- stay as they were.
found-stream_of :
    (request : JsonRpcRequest) (query : String) (client : Client) (o : Option ℕ)
    → stream_of client.streams query ≡ o
    → stream_of (found_or_new request query client o).1.streams query
      ≡ some (found_or_new request query client o).0
found-stream_of request query client (some stream) e = e
found-stream_of request query client none e =
    elim (stream_of-cons query query (length client.producers) client.streams) [
      | inl (same, found) ↦ found
      | inr (differ, same) ↦ absurd (differ refl)
    ]

-- A stream that was there before stays its query's.
found_keeps :
    (request : JsonRpcRequest) (query q : String) (client : Client) (o : Option ℕ) (stream : ℕ)
    → stream_of client.streams query ≡ o
    → stream_of client.streams q ≡ some stream
    → stream_of (found_or_new request query client o).1.streams q ≡ some stream
found_keeps request query q client (some s) stream e h = h
found_keeps request query q client none stream e h =
    elim (stream_of-cons query q (length client.producers) client.streams) [
      | inl (same, found) ↦ absurd (cc (e, h, same))
      | inr (differ, same) ↦ same ∙ h
    ]

found-Valid :
    (request : JsonRpcRequest) (query : String) (client : Client) (o : Option ℕ)
    → Valid client
    → Valid (found_or_new request query client o).1
found-Valid request query client (some stream) v = v
found-Valid request query client none v = record {
  bounded = λ q stream h. elim (old_or_new q stream h) [
    | inl (fresh, same) ↦ omega (arith, length-append client.producers (new_producer request ∷ []))
    | inr before ↦ omega (
      arith,
      length-append client.producers (new_producer request ∷ []),
      v.bounded q stream before,
    )
  ];
  apart = λ q q' stream h h'. elim (old_or_new q stream h) [
    | inl (fresh, same) ↦ elim (old_or_new q' stream h') [
      | inl (fresh', same') ↦ sym same ∙ same'
      | inr before ↦ absurd (omega (arith, v.bounded q' stream before))
    ]
    | inr before ↦ elim (old_or_new q' stream h') [
      | inl (fresh', same') ↦ absurd (omega (arith, v.bounded q stream before))
      | inr before' ↦ v.apart q q' stream before before'
    ]
  ];
}
  where
    old_or_new :
        (q : String) (stream : ℕ)
        → stream_of ((query, length client.producers) ∷ client.streams) q ≡ some stream
        → ((stream ≡ length client.producers) × (query ≡ q))
          ⊎ (stream_of client.streams q ≡ some stream)
    old_or_new q stream h = elim (stream_of-cons query q (length client.producers) client.streams) [
      | inl (same, found) ↦ inl (cc (h, found), same)
      | inr (differ, kept) ↦ inr (sym kept ∙ h)
    ]

query_stream-stream_of :
    (request : JsonRpcRequest) (query : String) (client : Client)
    → stream_of (query_stream request query client).1.streams query
      ≡ some (query_stream request query client).0
unfolding query_stream
query_stream-stream_of request query client = found-stream_of request query client _ refl

query_stream-Valid :
    (request : JsonRpcRequest) (query : String) (client : Client)
    → Valid client
    → Valid (query_stream request query client).1
unfolding query_stream
query_stream-Valid request query client v = found-Valid request query client _ v

-- The request subscribes to the query.
abbrev pub Asks : JsonRpcRequest → String → Type 0
Asks request query =
    (request.method ≡ "subscribe") × (get_property request.params "query" ≡ ok (str query))

listen-query_stream :
    (request : JsonRpcRequest) (query : String) (client : Client)
    → Asks request query
    → listen request client ≡ ok (query_stream request query client)
unfolding listen
listen-query_stream request query client (method, asked) =
    ap
      (λ b.
        if b
        then (get_property request.params "query" >>= λ found.
            query_text found >>= λ q. ok (query_stream request q client))
        else fail no_subscription)
      ((eq_iff request.method "subscribe").1 method)
    ∙ ap (λ r. r >>= λ found. query_text found >>= λ q. ok (query_stream request q client)) asked

-- Of two requests that subscribe to queries, one after the other, both get a stream, and it is the
-- same one exactly where the queries are equal. The client's streams stay apart.
pub listen_twice :
    (request request' : JsonRpcRequest) (q q' : String) (client : Client)
    → Valid client
    → Asks request q
    → Asks request' q'
    → (i : ℕ) × (c : Client) × (j : ℕ) × (c' : Client) × (listen request client ≡ ok (i, c))
      × (listen request' c ≡ ok (j, c'))
      × ((i ≡ j) ↔ (q ≡ q'))
      × Valid c'
unfolding query_stream
listen_twice request request' q q' client v asks asks' = (
  first.0,
  first.1,
  second.0,
  second.1,
  listen-query_stream request q client asks,
  listen-query_stream request' q' first.1 asks',
  (
    λ e. valid.apart q q' second.0 (kept ∙ ap some e) (query_stream-stream_of request' q' first.1),
    λ e.
        cc (
          sym kept
          ∙ ap (stream_of second.1.streams) e
          ∙ query_stream-stream_of request' q' first.1),
  ),
  valid,
)
  where
    first : ℕ × Client
    first = query_stream request q client

    second : ℕ × Client
    second = query_stream request' q' first.1

    valid : Valid second.1
    valid = query_stream-Valid request' q' first.1 (query_stream-Valid request q client v)

    kept : stream_of second.1.streams q ≡ some first.0
    kept =
        found_keeps request' q' q first.1 _ first.0 refl (query_stream-stream_of request q client)
