-- ===== src/Rpc/Producer/Invariant.antt =====
-- `RpcEventProducer`: every subscription that gets events can be closed, and they come in threes.
use subql_cosmos.Base.{
  ℕ, ◌+◌, ◌*◌, ◌%◌, ◌≤◌, ◌≡◌, refl, ◌≢◌, inl, inr, Bool, true, List, [], ◌∷◌, ◌++◌, All, any,
  length, length-append, Bool-cases, ◌==◌, nat_strict, if◌then◌else◌, arith,
}
use subql_cosmos.Rpc.Producer.{
  Role, by_id, by_event, non_response, Subscription, Producer, without, without_all,
  connect_to_client,
}

abbrev pub role_number : Role → ℕ
role_number by_id = 0
role_number by_event = 1
role_number non_response = 2

abbrev pub is_role : Role → Role → Bool
is_role r r' = role_number r == role_number r'

-- The subscriptions of one role among those that get events.
abbrev pub count : Role → List Subscription → ℕ
count r [] = 0
count r (s ∷ live) = (if is_role r s.role then 1 else 0) + count r live

-- A subscription's number tells its role.
abbrev pub Roled : Subscription → Type 0
Roled s = s.number % 3 ≡ role_number s.role

abbrev pub Owned : List ℕ → Subscription → Type 0
Owned numbers s = any (λ n. n == s.number) numbers ≡ true

-- The times that the producer has connected and has not closed its subscriptions.
abbrev pub sessions : Producer → ℕ
sessions p = count by_event p.live

pub record Inv (p : Producer) : Type 0 where
  pub owned : All (Owned p.subscriptions) p.live
  pub roled : All Roled p.live
  pub aligned : p.fresh % 3 ≡ 0
  pub balanced : count non_response p.live ≡ sessions p
  pub few : count by_id p.live ≤ sessions p
  pub held : length p.subscriptions ≡ 3 * sessions p

pub All-append :
    (P : Subscription → Type 0) (xs ys : List Subscription) → All P xs → All P ys → All P (xs ++ ys)
All-append P [] ys h k = k
All-append P (x ∷ xs) ys (h, hs) k = (h, All-append P xs ys hs k)

pub count-append :
    (r : Role) (xs ys : List Subscription) → count r (xs ++ ys) ≡ count r xs + count r ys
count-append r [] ys = omega arith
count-append r (x ∷ xs) ys = omega (arith, count-append r xs ys)

pub All-without :
    (P : Subscription → Type 0) (n : ℕ) (live : List Subscription)
    → All P live
    → All P (without n live)
unfolding without
All-without P n [] h = tt
All-without P n (s ∷ live) (h, hs) = elim (Bool-cases (s.number == n)) [
  | inl t ↦ rw t (All-without P n live hs)
  | inr f ↦ rw f (h, All-without P n live hs)
]

pub count-without-le :
    (r : Role) (n : ℕ) (live : List Subscription) → count r (without n live) ≤ count r live
unfolding without
count-without-le r n [] = omega arith
count-without-le r n (s ∷ live) = ground (arith, count-without-le r n live)

pub count-without :
    (r : Role) (n : ℕ) (live : List Subscription)
    → n % 3 ≢ role_number r
    → All Roled live
    → count r (without n live) ≡ count r live
unfolding without
count-without r n [] other roled = refl
count-without r n (s ∷ live) other (roled, all) = ground (arith, count-without r n live other all)

Owned-without :
    (n : ℕ) (numbers : List ℕ) (live : List Subscription)
    → All (Owned (n ∷ numbers)) live
    → All (Owned numbers) (without n live)
unfolding without
Owned-without n numbers [] h = tt
Owned-without n numbers (s ∷ live) (h, hs) = elim (Bool-cases (s.number == n)) [
  | inl t ↦ rw t (Owned-without n numbers live hs)
  | inr f ↦ rw f (ground arith, Owned-without n numbers live hs)
]

-- To close the subscriptions leaves none that gets events.
pub without_all-Owned :
    (numbers : List ℕ) (live : List Subscription)
    → All (Owned numbers) live
    → without_all numbers live ≡ []
unfolding without_all
without_all-Owned [] [] h = refl
without_all-Owned [] (s ∷ live) (h, hs) = absurd (cc h)
without_all-Owned (n ∷ numbers) live h =
    without_all-Owned numbers (without n live) (Owned-without n numbers live h)

Owned-more :
    (numbers more : List ℕ) (live : List Subscription)
    → All (Owned numbers) live
    → All (Owned (numbers ++ more)) live
Owned-more numbers more [] h = tt
Owned-more numbers more (s ∷ live) (h, hs) = (any-left numbers h, Owned-more numbers more live hs)
  where
    any-left :
        (ns : List ℕ)
        → any (λ n. n == s.number) ns ≡ true
        → any (λ n. n == s.number) (ns ++ more) ≡ true
    any-left [] k = absurd (cc k)
    any-left (n ∷ ns) k = ground (arith, any-left ns)

any-right :
    (numbers more : List ℕ) (m : ℕ)
    → any (λ n. n == m) more ≡ true
    → any (λ n. n == m) (numbers ++ more) ≡ true
any-right [] more m h = h
any-right (n ∷ numbers) more m h = ground (arith, any-right numbers more m h)

-- A connection adds one subscription of each role.
pub connect-Inv : (p : Producer) → Inv p → Inv (connect_to_client p)
unfolding connect_to_client
connect-Inv p v = record {
  owned = All-append _ p.live _ (Owned-more p.subscriptions _ p.live v.owned) (
    any-right p.subscriptions _ _ (ground arith),
    (
      any-right p.subscriptions _ _ (ground arith),
      (any-right p.subscriptions _ _ (ground arith), tt),
    ),
  );
  roled =
      All-append Roled p.live _ v.roled
        (omega (arith, v.aligned), (omega (arith, v.aligned), (omega (arith, v.aligned), tt)));
  aligned = omega (arith, v.aligned);
  balanced =
      omega (arith, v.balanced, count-append non_response p.live _, count-append by_event p.live _);
  few = omega (arith, v.few, count-append by_id p.live _, count-append by_event p.live _);
  held = omega (arith, v.held, length-append p.subscriptions _, count-append by_event p.live _);
}
