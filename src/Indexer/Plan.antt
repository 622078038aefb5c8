-- ===== src/Indexer/Plan.antt =====
-- Statements of the indexer as statements on the handlers' state alone.
use subql_cosmos.Base.{
  Bool, true, false, ◌||◌, any, subst, ◌≡◌, refl, ◌∙◌, List, [], ◌∷◌, ◌++◌, Result, ok, err,
}
use subql_cosmos.Content.Lazy.{LazyBlockContent, Exec}
use subql_cosmos.Indexer.{Action, next, seq, for_each, reading, on_handlers}

module _ {St : Type 0} where
  next-seq :
      (r : Result (Unit {0})) (a k : Action St) (st : St)
      → next r (seq a k) st ≡ seq (next r a) k st
  unfolding seq
  next-seq (ok done) a k st = refl
  next-seq (err e) a k st = refl

  pub seq_assoc : (a b k : Action St) (st : St) → seq a (seq b k) st ≡ seq (seq a b) k st
  unfolding seq
  seq_assoc a b k st = next-seq (a st).0 b k (a st).1

  next_same :
      (r : Result (Unit {0})) (a b : Action St) (st : St) → a st ≡ b st → next r a st ≡ next r b st
  next_same (ok done) a b st e = e
  next_same (err x) a b st e = refl

  pub for_each-append :
      {A : Type 0} (f : A → Action St) (xs ys : List A) (st : St)
      → for_each f (xs ++ ys) st ≡ seq (for_each f xs) (for_each f ys) st
  unfolding for_each seq
  for_each-append f [] ys st = refl
  for_each-append f (x ∷ xs) ys st =
      next_same (f x st).0 _ _ (f x st).1 (for_each-append f xs ys (f x st).1)
      ∙ next-seq (f x st).0 (for_each f xs) (for_each f ys) (f x st).1

or_false : (b : Bool) → b ≡ (b || false)
or_false true = refl
or_false false = refl

pub or_true : (b : Bool) → (b || true) ≡ true
or_true true = refl
or_true false = refl

or_assoc : (a b c : Bool) → ((a || b) || c) ≡ (a || (b || c))
or_assoc true b c = refl
or_assoc false b c = refl

-- A getter that gives `a` from every content with `K`, and leads to one with `L`.
abbrev pub Gives : {A : Type 0} (K L : LazyBlockContent → Type 0) → Exec A → A → Type 0
Gives K L get a =
    (c : LazyBlockContent) → K c → (c' : LazyBlockContent) × (get c ≡ (ok a, c')) × L c'

-- From a content with `K`, the statement `f` does on the handlers' state what `g` does and throws
-- what `g` throws; where it returns, the content has `L`.
module _ {S : Type 0} where
  unfoldable pub Runs :
      (K L : LazyBlockContent → Type 0) → Action (LazyBlockContent × S) → Action S → Type 0
  Runs K L f g =
      (c : LazyBlockContent) (s : S)
      → K c
      → (c' : LazyBlockContent) × (f (c, s) ≡ ((g s).0, (c', (g s).1))) × ((g s).0 ≡ ok tt → L c')

  pub next-Runs :
      (K L : LazyBlockContent → Type 0) (f : Action (LazyBlockContent × S)) (g : Action S)
      → Runs K L f g
      → (r : Result (Unit {0})) (c : LazyBlockContent) (s : S) → (r ≡ ok tt → K c)
      → (c' : LazyBlockContent) × (next r f (c, s) ≡ ((next r g s).0, (c', (next r g s).1)))
        × ((next r g s).0 ≡ ok tt → L c')
  unfolding Runs
  next-Runs K L f g runs (ok done) c s k = runs c s (k refl)
  next-Runs K L f g runs (err e) c s k = (c, refl, λ h. cc h)

  pub seq-Runs :
      (K L M : LazyBlockContent → Type 0) (f f' : Action (LazyBlockContent × S)) (g g' : Action S)
      → Runs K L f g
      → Runs L M f' g'
      → Runs K M (seq f f') (seq g g')
  unfolding Runs seq
  seq-Runs K L M f f' g g' first second c s k =
      let (c₁, e, l) = first c s k in rw e (next-Runs L M f' g' second (g s).0 c₁ (g s).1 l)

  pub for_each-Runs :
      {A : Type 0} (K : LazyBlockContent → Type 0) (f : A → Action (LazyBlockContent × S))
      (g : A → Action S)
      → ((x : A) → Runs K K (f x) (g x))
      → (xs : List A) → Runs K K (for_each f xs) (for_each g xs)
  unfolding Runs for_each
  for_each-Runs K f g each [] c s k = (c, refl, λ h. k)
  for_each-Runs K f g each (x ∷ xs) c s k =
      let (c₁, e, l) = each x c s k in
      rw e (
        next-Runs K K (for_each f xs) (for_each g xs) (for_each-Runs K f g each xs) (g x s).0 c₁
          (g x s).1 l)

  -- A loop whose rounds turn a flag on.
  pub for_each-Runs-any :
      {A : Type 0} (K : Bool → LazyBlockContent → Type 0) (turns : A → Bool)
      (f : A → Action (LazyBlockContent × S)) (g : A → Action S)
      → ((b : Bool) (x : A) → Runs (K b) (K (b || turns x)) (f x) (g x))
      → (b : Bool) (xs : List A)
      → Runs (K b) (K (b || any turns xs)) (for_each f xs) (for_each g xs)
  unfolding Runs for_each
  for_each-Runs-any K turns f g each b [] c s k = (c, refl, λ h. subst (λ b. K b c) (or_false b) k)
  for_each-Runs-any K turns f g each b₀ (x ∷ xs) c s k =
      let (c₁, e, l) = each b₀ x c s k in
      let later =
        subst (λ b. Runs (K (b₀ || turns x)) (K b) (for_each f xs) (for_each g xs))
          (or_assoc b₀ (turns x) (any turns xs))
          (for_each-Runs-any K turns f g each (b₀ || turns x) xs) in
      rw e (
        next-Runs (K (b₀ || turns x)) (K (b₀ || any turns (x ∷ xs))) (for_each f xs) (for_each g xs)
          later (g x s).0 c₁ (g x s).1 l)

  pub on_handlers-Runs : (K : LazyBlockContent → Type 0) (g : Action S) → Runs K K (on_handlers g) g
  unfolding Runs
  on_handlers-Runs K g c s k = (c, refl, λ h. k)

  pub reading-Runs :
      {A : Type 0} (K L M : LazyBlockContent → Type 0) (get : Exec A) (a : A)
      (k : A → Action (LazyBlockContent × S)) (g : Action S)
      → Gives K L get a
      → Runs L M (k a) g
      → Runs K M (reading get k) g
  unfolding Runs reading
  reading-Runs K L M get a k g gives runs c s h = let (c₁, e, l) = gives c h in rw e (runs c₁ s l)
