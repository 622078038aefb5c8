-- ===== src/Rpc/Producer/Delivery.antt =====
-- `RpcEventProducer`: what the delivery of one event of the socket does.
use subql_cosmos.Base.{
  ℕ, ◌≤◌, ◌≡◌, refl, ap, ◌∙◌, ◌⊎◌, inl, inr, Bool, true, false, ◌||◌, List, [], ◌∷◌, ◌++◌, All, Any,
  any, Bool-cases, ◌==◌, nat_strict, if◌then◌else◌, arith,
}
use subql_cosmos.Value.{Value}
use subql_cosmos.Rpc.{RpcLib, JsonRpcResponse, error, answers}
use subql_cosmos.Rpc.Producer.{
  Role, by_id, by_event, non_response, Subscription, Producer, Signal, error_text, emit,
  unsubscribe, close_subscriptions, dispatch, is_live, on_response, on_answer, on_end,
}
use subql_cosmos.Rpc.Producer.Invariant.{is_role, count, sessions, Inv, without_all-Owned}

-- The producer after its listener was told of an error or of the end.
abbrev pub ended : Signal → Producer → Producer
ended signal p = record p { live = []; subscriptions = []; signals = p.signals ++ signal ∷ [] }

-- A listener that still gets events handles this one.
pub dispatch-live :
    (handle : Subscription → Producer → Producer) (s : Subscription) (listeners : List Subscription)
    (p : Producer)
    → is_live s p ≡ true
    → dispatch handle (s ∷ listeners) p ≡ dispatch handle listeners (handle s p)
unfolding dispatch
dispatch-live handle s listeners p e =
    ap (λ b. dispatch handle listeners (if b then handle s p else p)) e

pub dispatch-gone :
    (handle : Subscription → Producer → Producer) (s : Subscription) (listeners : List Subscription)
    (p : Producer)
    → is_live s p ≡ false
    → dispatch handle (s ∷ listeners) p ≡ dispatch handle listeners p
unfolding dispatch
dispatch-gone handle s listeners p e =
    ap (λ b. dispatch handle listeners (if b then handle s p else p)) e

pub dispatch-idle :
    (handle : Subscription → Producer → Producer) (listeners : List Subscription) (p : Producer)
    → p.live ≡ []
    → dispatch handle listeners p ≡ p
unfolding dispatch
dispatch-idle handle [] p e = refl
dispatch-idle handle (s ∷ listeners) p e =
    dispatch-gone handle s listeners p (ap (any (λ l. l.number == s.number)) e)
    ∙ dispatch-idle handle listeners p e

-- One listener ends the producer, and those before it do nothing.
dispatch-ended :
    (handle : Subscription → Producer → Producer) (Ends : Subscription → Type 0) (p q : Producer)
    → q.live ≡ []
    → (listeners : List Subscription) → All (λ s. is_live s p ≡ true) listeners
    → ((s : Subscription) → (Ends s × (handle s p ≡ q)) ⊎ (¬ Ends s × (handle s p ≡ p)))
    → Any Ends listeners
    → dispatch handle listeners p ≡ q
dispatch-ended handle Ends p q e [] _ handles ends = elim ends [ ]
dispatch-ended handle Ends p q e (s ∷ listeners) (live, alive) handles ends =
    dispatch-live handle s listeners p live ∙ elim (handles s) [
      | inl (h, done) ↦ ap (dispatch handle listeners) done ∙ dispatch-idle handle listeners q e
      | inr (h, same) ↦ ap (dispatch handle listeners) same ∙ elim ends [
        | inl this ↦ absurd (h this)
        | inr later ↦ dispatch-ended handle Ends p q e listeners alive handles later
      ]
    ]

-- Every subscription of the producer that gets events is live when an event arrives.
pub All-live : (p : Producer) → All (λ s. is_live s p ≡ true) p.live
All-live p = go p.live (λ n h. h)
  where
    go :
        (listeners : List Subscription)
        → ((n : ℕ)
            → any (λ l. l.number == n) listeners ≡ true
            → any (λ l. l.number == n) p.live ≡ true)
        → All (λ s. is_live s p ≡ true) listeners
    go [] sub = tt
    go (s ∷ listeners) sub =
        (sub s.number (ground arith), go listeners (λ n h. sub n (ground arith)))

count-Any :
    (r : Role) (Q : Subscription → Type 0)
    → ((s : Subscription) → is_role r s.role ≡ true → Q s)
    → (live : List Subscription) → 1 ≤ count r live
    → Any Q live
count-Any r Q q [] h = absurd (omega arith)
count-Any r Q q (s ∷ live) h = elim (Bool-cases (is_role r s.role)) [
  | inl t ↦ inl (q s t)
  | inr f ↦ inr (count-Any r Q q live (ground arith))
]

close-ended :
    (p : Producer) (signal : Signal) → Inv p → emit signal (close_subscriptions p) ≡ ended signal p
unfolding emit close_subscriptions
close-ended p signal v =
    ap (λ l. record p { live = l; subscriptions = []; signals = p.signals ++ signal ∷ [] })
      (without_all-Owned p.subscriptions p.live v.owned)

module _ (lib : RpcLib) where
  -- What a handler does at each role, for `dispatch-ended`.
  abbrev At :
      (Role → Bool)
      → (Subscription → Producer → Producer)
      → Producer
      → Producer
      → Subscription
      → Type 0
  At ends handle p q s =
      ((ends s.role ≡ true) × (handle s p ≡ q)) ⊎ (¬ (ends s.role ≡ true) × (handle s p ≡ p))

  on_end-At :
      (p : Producer) (signal : Signal) (n : ℕ) (r : Role)
      → Inv p
      → At
          (is_role non_response)
          (on_end signal)
          p
          (ended signal p)
          (record { number = n; role = r })
  unfolding on_end
  on_end-At p signal n by_id v = inr (λ h. cc h, refl)
  on_end-At p signal n by_event v = inr (λ h. cc h, refl)
  on_end-At p signal n non_response v = inl (refl, close-ended p signal v)

  pub on_end-ended :
      (p : Producer) (signal : Signal)
      → Inv p
      → 1 ≤ sessions p
      → dispatch (on_end signal) p.live p ≡ ended signal p
  on_end-ended p signal v some_live =
      dispatch-ended (on_end signal) (λ s. is_role non_response s.role ≡ true) p (ended signal p)
        refl p.live (All-live p) (λ s. on_end-At p signal s.number s.role v)
        (count-Any non_response _ (λ s h. h) p.live (omega (arith, v.balanced)))

  abbrev answering : Role → Bool
  answering r = is_role by_id r || is_role by_event r

  pub on_response-on_answer :
      (response : JsonRpcResponse) (s : Subscription) (p : Producer)
      → answers p.request response ≡ true
      → on_response lib response s p ≡ on_answer lib s response p
  unfolding on_response
  on_response-on_answer response s p h = ap (λ b. if b then on_answer lib s response p else p) h

  on_response-At :
      (p : Producer) (id e : Value) (n : ℕ) (r : Role)
      → Inv p
      → answers p.request (error id e) ≡ true
      → At answering
          (on_response lib (error id e))
          p
          (ended (error_text (lib.stringify e)) p)
          (record { number = n; role = r })
  unfolding on_answer unsubscribe
  on_response-At p id e n by_id v h =
      inl (refl, on_response-on_answer _ _ p h ∙ ap (unsubscribe n) (close-ended p _ v))
  on_response-At p id e n by_event v h =
      inl (refl, on_response-on_answer _ _ p h ∙ close-ended p _ v)
  on_response-At p id e n non_response v h = inr (λ k. cc k, on_response-on_answer _ _ p h)

  pub error-ended :
      (p : Producer) (id e : Value)
      → Inv p
      → 1 ≤ sessions p
      → answers p.request (error id e) ≡ true
      → dispatch (on_response lib (error id e)) p.live p ≡ ended (error_text (lib.stringify e)) p
  error-ended p id e v some_live answered =
      dispatch-ended _ (λ s. answering s.role ≡ true) p (ended (error_text (lib.stringify e)) p)
        refl p.live (All-live p) (λ s. on_response-At p id e s.number s.role v answered)
        (count-Any by_event _ (λ s h. ground arith) p.live some_live)
