-- ===== src/Chain/Getter.antt =====
-- The getters `decodedTx` and `decodedMsg` of packages/node/src/utils/cosmos.ts: each deletes
-- itself and then stores what its decoder returns, so the decoder runs once.
use subql_cosmos.Base.{
  ℕ, zero, suc, ◌≡◌, refl, Option, none, some, List, [], ◌∷◌, All, Result, ok, err, Fault,
}

-- The property while it is still the getter, by what its decoder will return or throw; the stored
-- value; and the property after `delete` where the decoder threw.
pub data Property {ℓ} (A : Type ℓ) : Type ℓ where
  getter : Result A → Property A
  stored : A → Property A
  deleted : Property A

module _ {ℓ} {A : Type ℓ} where
  -- One read: its result (`none` is `undefined`) and the property behind it.
  unfoldable pub read : Property A → Result (Option A) × Property A
  read (getter (ok a)) = (ok (some a), stored a)
  read (getter (err e)) = (err e, deleted)
  read (stored a) = (ok (some a), stored a)
  read deleted = (ok none, deleted)

  -- The results of `n` reads, one after the other.
  unfoldable pub reads : ℕ → Property A → List (Result (Option A))
  unfolding read
  reads zero p = []
  reads (suc n) p = (read p).0 ∷ reads n (read p).1

  reads-stored : (n : ℕ) (a : A) → All (λ r. r ≡ ok (some a)) (reads n (stored a))
  unfolding reads
  reads-stored zero a = tt
  reads-stored (suc n) a = (refl, reads-stored n a)

  -- Where the decoder returns a value, every read of the property returns that value.
  pub reads-getter_ok : (n : ℕ) (a : A) → All (λ r. r ≡ ok (some a)) (reads n (getter (ok a)))
  unfolding reads
  reads-getter_ok zero a = tt
  reads-getter_ok (suc n) a = (refl, reads-stored n a)

reads-deleted {ℓ} : (A : Type ℓ) (n : ℕ) → All (λ r. r ≡ ok none) (reads {A = A} n deleted)
unfolding reads
reads-deleted A zero = tt
reads-deleted A (suc n) = (refl, reads-deleted A n)

-- Where the decoder throws, the first read throws that error and each later one is `undefined`.
pub reads-getter_err {ℓ} :
    (A : Type ℓ) (n : ℕ) (e : Fault)
    → (rest : List (Result (Option A))) × (reads (suc n) (getter (err e)) ≡ err e ∷ rest)
      × All (λ r. r ≡ ok none) rest
unfolding reads
reads-getter_err A n e = (reads n deleted, refl, reads-deleted A n)
