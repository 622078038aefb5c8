-- ===== src/Rpc/Producer/Preserved.antt =====
-- Every call keeps the invariant of `RpcEventProducer`.
use subql_cosmos.Base.{
  ℕ, suc, zero, ◌≤◌, ◌≡◌, refl, subst, ◌∙◌, sym, inl, inr, Bool, true, false, List, [], ◌∷◌, All,
  Bool-cases, nat_strict, Fault, Result, ok, err, arith,
}
use subql_cosmos.Value.{Value}
use subql_cosmos.Rpc.{RpcLib, JsonRpcRequest}
use subql_cosmos.Rpc.Producer.{
  Role, by_id, by_event, non_response, Subscription, Producer, Call, starts, stops, delivers, step,
  run, start, stop, queue_request, without_all, deliver, SocketEvent, new_producer, start_unless,
}
use subql_cosmos.Rpc.Producer.Results.{passed_on, first_listeners}
use subql_cosmos.Rpc.Producer.Spec.{
  Meaning, result, final, nothing, after, deliver-after, deliver-idle,
}
use subql_cosmos.Rpc.Producer.Invariant.{
  role_number, is_role, count, Roled, Owned, sessions, Inv, All-without, count-without,
  count-without-le, connect-Inv,
}

All-without_all :
    (P : Subscription → Type 0) (numbers : List ℕ) (live : List Subscription)
    → All P live
    → All P (without_all numbers live)
unfolding without_all
All-without_all P [] live h = h
All-without_all P (n ∷ numbers) live h = All-without_all P numbers _ (All-without P n live h)

count-without_all-le :
    (r : Role) (numbers : List ℕ) (live : List Subscription)
    → count r (without_all numbers live) ≤ count r live
unfolding without_all
count-without_all-le r [] live = omega arith
count-without_all-le r (n ∷ numbers) live =
    omega (arith, count-without-le r n live, count-without_all-le r numbers _)

-- Listeners of other roles stay when those of the first response unsubscribe.
pub count-without_all :
    (r : Role) (listeners live : List Subscription)
    → 1 ≤ role_number r
    → All Roled listeners
    → All Roled live
    → count r (without_all (first_listeners listeners) live) ≡ count r live
unfolding without_all
count-without_all r [] live h roled all = refl
count-without_all r (s ∷ listeners) live h (role, roled) all =
    elim (Bool-cases (is_role by_id s.role)) [
      | inl t ↦ rw t (
          count-without_all r listeners _ h roled (All-without Roled s.number live all)
          ∙ count-without r s.number live (ground arith) all)
      | inr f ↦ rw f (count-without_all r listeners live h roled all)
    ]

passed_on-Inv : (v : Value) (p : Producer) → Inv p → Inv (passed_on v p.live p)
passed_on-Inv v p inv = record {
  owned = All-without_all (Owned p.subscriptions) _ p.live inv.owned;
  roled = All-without_all Roled _ p.live inv.roled;
  aligned = inv.aligned;
  balanced =
      omega (arith, inv.balanced, same by_event (omega arith), same non_response (omega arith));
  few = omega (
    arith,
    inv.few,
    same by_event (omega arith),
    count-without_all-le by_id (first_listeners p.live) p.live,
  );
  held = omega (arith, inv.held, same by_event (omega arith));
}
  where
    same :
        (r : Role)
        → 1 ≤ role_number r
        → count r (without_all (first_listeners p.live) p.live) ≡ count r p.live
    same r h = count-without_all r p.live p.live h inv.roled inv.roled

after-Inv : (m : Meaning) (p : Producer) → Inv p → Inv (after m p)
after-Inv (result v) p inv = passed_on-Inv v p inv
after-Inv (final signal) p inv = record {
  owned = tt;
  roled = tt;
  aligned = inv.aligned;
  balanced = refl;
  few = omega arith;
  held = refl;
}
after-Inv nothing p inv = inv

module _ (lib : RpcLib) (is_disconnection : Fault → Bool) where
  queue-Inv :
      (r : Result (Unit {0})) (request : JsonRpcRequest) (p : Producer)
      → Inv p
      → Inv (queue_request r request p).1
  queue-Inv (ok u) request p v = record {
    owned = v.owned;
    roled = v.roled;
    aligned = v.aligned;
    balanced = v.balanced;
    few = v.few;
    held = v.held;
  }
  queue-Inv (err e) request p v = v

  running-Inv : (b : Bool) (p : Producer) → Inv p → Inv (record p { running = b })
  running-Inv b p v = record {
    owned = v.owned;
    roled = v.roled;
    aligned = v.aligned;
    balanced = v.balanced;
    few = v.few;
    held = v.held;
  }

  deliver-Inv : (event : SocketEvent) (p : Producer) → Inv p → Inv (deliver lib event p)
  deliver-Inv event p v = go (sessions p) refl
    where
      go : (n : ℕ) → sessions p ≡ n → Inv (deliver lib event p)
      go zero e = subst Inv (sym (deliver-idle lib event p v e)) v
      go (suc n) e = subst Inv (sym (deliver-after lib event p v (omega arith))) (after-Inv _ p v)

  -- Every call keeps the subscriptions in order.
  pub step-Inv : (call : Call) (p : Producer) → Inv p → Inv (step lib is_disconnection call p)
  unfolding step start stop start_unless
  step-Inv (starts queued) p v = go p.running
    where
      go : (b : Bool) → Inv (start_unless b queued p).1
      go true = v
      go false = queue-Inv queued p.request _ (connect-Inv _ (running-Inv true p v))
  step-Inv (stops queued) p v = queue-Inv queued _ _ (running-Inv false p v)
  step-Inv (delivers event) p v = deliver-Inv event p v

  pub run-Inv : (calls : List Call) (p : Producer) → Inv p → Inv (run lib is_disconnection calls p)
  unfolding run
  run-Inv [] p v = v
  run-Inv (call ∷ calls) p v = run-Inv calls _ (step-Inv call p v)

pub new_producer-Inv : (request : JsonRpcRequest) → Inv (new_producer request)
unfolding new_producer
new_producer-Inv request = record {
  owned = tt;
  roled = tt;
  aligned = refl;
  balanced = refl;
  few = omega arith;
  held = refl;
}
