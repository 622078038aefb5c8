-- ===== src/Rpc/Producer/Results.antt =====
-- `RpcEventProducer`: a result goes to the listener once for each time the producer has connected.
use subql_cosmos.Base.{
  ℕ, ◌%◌, ◌≡◌, refl, ap, ◌∙◌, sym, ◌≢◌, inl, inr, true, false, List, [], ◌∷◌, ◌++◌, All, any,
  Bool-cases, ◌==◌, nat_strict, if◌then◌else◌, arith,
}
use mathlib.Core.List.{append_assoc, append-nil}
use subql_cosmos.Value.{Value}
use subql_cosmos.Rpc.{RpcLib, success, answers}
use subql_cosmos.Rpc.Producer.{
  Role, by_id, by_event, non_response, Subscription, Producer, Signal, next, without, without_all,
  emit, unsubscribe, dispatch, is_live, on_response, on_answer,
}
use subql_cosmos.Rpc.Producer.Delivery.{dispatch-live, dispatch-gone, on_response-on_answer}
use subql_cosmos.Rpc.Producer.Invariant.{is_role, Roled}

-- The results that the listeners in `live` pass on.
abbrev pub results : Value → List Subscription → List Signal
results v [] = []
results v (s ∷ live) =
    let rest = results v live in if is_role by_event s.role then next v ∷ rest else rest

abbrev pub first_listeners : List Subscription → List ℕ
first_listeners [] = []
first_listeners (s ∷ live) =
    let rest = first_listeners live in if is_role by_id s.role then s.number ∷ rest else rest

-- The producer after its listeners `live` got a result.
abbrev pub passed_on : Value → List Subscription → Producer → Producer
passed_on v listeners p = record p {
  live = without_all (first_listeners listeners) p.live;
  signals = p.signals ++ results v listeners;
}

is_live-without :
    (n : ℕ) (s : Subscription) (live : List Subscription)
    → n ≢ s.number
    → any (λ l. l.number == s.number) (without n live) ≡ any (λ l. l.number == s.number) live
unfolding without
is_live-without n s [] h = refl
is_live-without n s (l ∷ live) h = ground (arith, is_live-without n s live h)

without-absent :
    (n : ℕ) (live : List Subscription)
    → any (λ l. l.number == n) live ≡ false
    → without n live ≡ live
unfolding without
without-absent n [] h = refl
without-absent n (l ∷ live) h = ground (arith, without-absent n live)

-- The listeners of results stay: a number tells the role, and only others unsubscribe.
abbrev pub Ready : Producer → Subscription → Type 0
Ready p s = Roled s × (is_role by_event s.role ≡ true → is_live s p ≡ true)

Ready-without :
    (p : Producer) (n : ℕ)
    → n % 3 ≡ 0
    → (listeners : List Subscription) → All (Ready p) listeners
    → All (Ready (unsubscribe n p)) listeners
unfolding unsubscribe
Ready-without p n h [] all = tt
Ready-without p n h (s ∷ listeners) ((roled, live), all) = (
  (roled, λ e. is_live-without n s p.live (ground arith) ∙ live e),
  Ready-without p n h listeners all,
)

module _ (lib : RpcLib) where
  abbrev pub Passes : Value → Value → List Subscription → Type 0
  Passes id v listeners =
      (p : Producer)
      → answers p.request (success id v) ≡ true
      → All (Ready p) listeners
      → dispatch (on_response lib (success id v)) listeners p ≡ passed_on v listeners p

  Passes-by_id :
      (id v : Value) (n : ℕ) (listeners : List Subscription)
      → Passes id v listeners
      → Passes id v (record { number = n; role = by_id } ∷ listeners)
  unfolding on_answer unsubscribe without_all
  Passes-by_id id v n listeners ih p h ((roled, live), all) = elim (Bool-cases (is_live s p)) [
    | inl t ↦
        dispatch-live _ s listeners p t
        ∙ ap (dispatch _ listeners) (on_response-on_answer lib _ s p h)
        ∙ ih (unsubscribe n p) h (Ready-without p n roled listeners all)
    | inr f ↦
        dispatch-gone _ s listeners p f
        ∙ ih p h all
        ∙ ap
            (λ l. record p {
              live = without_all (first_listeners listeners) l;
              signals = p.signals ++ results v listeners;
            })
            (sym (without-absent n p.live f))
  ]
    where
      s : Subscription
      s = record { number = n; role = by_id }

  Passes-by_event :
      (id v : Value) (n : ℕ) (listeners : List Subscription)
      → Passes id v listeners
      → Passes id v (record { number = n; role = by_event } ∷ listeners)
  unfolding on_answer emit
  Passes-by_event id v n listeners ih p h ((roled, live), all) =
      dispatch-live _ s listeners p (live refl)
      ∙ ap (dispatch _ listeners) (on_response-on_answer lib _ s p h)
      ∙ ih (emit (next v) p) h all
      ∙ ap (λ l. record p { live = without_all (first_listeners listeners) p.live; signals = l })
          (append_assoc p.signals (next v ∷ []) (results v listeners))
    where
      s : Subscription
      s = record { number = n; role = by_event }

  Passes-non_response :
      (id v : Value) (n : ℕ) (listeners : List Subscription)
      → Passes id v listeners
      → Passes id v (record { number = n; role = non_response } ∷ listeners)
  unfolding on_answer
  Passes-non_response id v n listeners ih p h ((roled, live), all) =
      elim (Bool-cases (is_live s p)) [
        | inl t ↦
            dispatch-live _ s listeners p t
            ∙ ap (dispatch _ listeners) (on_response-on_answer lib _ s p h)
            ∙ ih p h all
        | inr f ↦ dispatch-gone _ s listeners p f ∙ ih p h all
      ]
    where
      s : Subscription
      s = record { number = n; role = non_response }

  pub success-passed_on : (id v : Value) (listeners : List Subscription) → Passes id v listeners
  unfolding dispatch without_all
  success-passed_on id v [] p h all =
      ap (λ l. record p { signals = l }) (sym (append-nil p.signals))
  success-passed_on id v (s ∷ listeners) p h all =
      go s.role (success-passed_on id v listeners) p h all
    where
      go :
          (r : Role)
          → Passes id v listeners
          → Passes id v (record { number = s.number; role = r } ∷ listeners)
      go by_id = Passes-by_id id v s.number listeners
      go by_event = Passes-by_event id v s.number listeners
      go non_response = Passes-non_response id v s.number listeners
