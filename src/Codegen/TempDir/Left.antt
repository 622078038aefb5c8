-- ===== src/Codegen/TempDir/Left.antt =====
-- Which temporary directories `generateProto` leaves behind:
-- packages/common-cosmos/src/codegen/codegen-controller.ts.
use subql_cosmos.Base.{
  String, ◌≡◌, refl, ap, sym, subst, ◌∙◌, ◌↔◌, Option, none, some, List, [], ◌∷◌, Fault, Result, ok,
  err,
}
use subql_cosmos.Codegen.{FileLib, CustomModule}
use subql_cosmos.Codegen.Cleanup.{
  Effect, Tools, continue, chain, finally, failed, generate_in, generate_from, generate_proto,
}
use subql_cosmos.Codegen.TempDir.{TempTools, tmp_proto_dir, copy_all, fill, temp_proto_dir}

module _ {S : Type 0} where
  -- A call whose result is returned comes of one that returned before it.
  chain_returned :
      {A B : Type 0} (m : Effect S A) (k : A → Effect S B) (s : S) (b : B)
      → (chain m k s).0 ≡ ok b
      → (a : A) × ((m s).0 ≡ ok a) × ((k a (m s).1).0 ≡ ok b)
  unfolding chain
  chain_returned {A} {B} m k s b h = go (m s).0 h
    where
      go :
          (r : Result A)
          → (continue r k (m s).1).0 ≡ ok b
          → (a : A) × (r ≡ ok a) × ((k a (m s).1).0 ≡ ok b)
      go (ok a) h = (a, refl, h)
      go (err e) h = absurd (cc h)

  module _ (P : S → Type 0) where
    abbrev Keeps : {A : Type 0} → Effect S A → Type 0
    Keeps m = (s : S) → P s → P (m s).1

    chain-Keeps :
        {A B : Type 0} (m : Effect S A) (k : A → Effect S B)
        → Keeps m
        → ((a : A) → Keeps (k a))
        → Keeps (chain m k)
    unfolding chain
    chain-Keeps {A} {B} m k first later s p = go (m s).0 (first s p)
      where
        go : (r : Result A) → P (m s).1 → P (continue r k (m s).1).1
        go (ok a) q = later a (m s).1 q
        go (err e) q = q

-- What the calls do with directories, by whether a path exists in a state of the file system: the
-- temporary directory exists once it was made, copying removes nothing, removing a path works and
-- leaves it gone, and removing an undefined path removes nothing.
pub record Directories {S : Type 0} (tools : Tools S) (temp : TempTools S)
    (Exists : String → S → Type 0) : Type 0 where
  pub made : (dir : String) (s s₁ : S) → temp.make_temp_dir s ≡ (ok dir, s₁) → Exists dir s₁
  pub copied : (dir from to : String) (s : S) → Exists dir s → Exists dir (temp.copy from to s).1
  pub removed : (dir : String) (s : S) → ¬ Exists dir (tools.rm (some dir) s).1
  pub not_removed : (dir : String) (s : S) → Exists dir s → Exists dir (tools.rm none s).1

abbrev pub Throws : {A : Type 0} → Result A → Type 0
Throws r = (fault : Fault) × (r ≡ err fault)

-- The directory exists at the end exactly where filling it threw, and then the whole threw.
abbrev pub LeftWhereThrown :
    {S : Type 0} → (S → Type 0) → Result String → Result (Unit {0}) × S → Type 0
LeftWhereThrown Exists filled end = (Exists end.1 ↔ Throws filled) × (Exists end.1 → Throws end.0)

module _ {S : Type 0} (lib : FileLib) (temp : TempTools S) where
  module _ (P : S → Type 0) (copy_keeps : (from to : String) → Keeps P (temp.copy from to)) where
    copy_all-Keeps : (dir : String) (protos : List String) → Keeps P (copy_all lib temp dir protos)
    unfolding copy_all
    copy_all-Keeps dir [] s = λ p. p
    copy_all-Keeps dir (proto ∷ protos) s =
        let to = tmp_proto_dir lib temp dir proto in
        chain-Keeps P (temp.copy proto to) (λ copied. copy_all lib temp dir protos)
          (copy_keeps proto to) (λ copied. copy_all-Keeps dir protos) s

    fill-Keeps : (project dir : String) → Keeps P (fill lib temp project dir)
    unfolding fill
    fill-Keeps project dir =
        let own = lib.join project "./proto" in
        let done : Unit {0} → Effect S String = λ copied s. (ok dir, s) in
        chain-Keeps P (copy_all lib temp dir temp.common_protos)
          (λ copied. chain (temp.copy own dir) done) (copy_all-Keeps dir temp.common_protos)
          (λ copied. chain-Keeps P (temp.copy own dir) done (copy_keeps own dir) (λ copied s p. p))

  fill_returned :
      (project dir path : String) (s : S) → (fill lib temp project dir s).0 ≡ ok path → dir ≡ path
  unfolding fill
  fill_returned project dir path s h =
      let own = lib.join project "./proto" in
      let done : Unit {0} → Effect S String = λ copied s. (ok dir, s) in
      let all = copy_all lib temp dir temp.common_protos in
      let (first, copied, h₁) =
        chain_returned all (λ copied. chain (temp.copy own dir) done) s path h in
      let (second, copied_own, h₂) = chain_returned (temp.copy own dir) done (all s).1 path h₁ in
      cc h₂

  -- Where the directory that generateProto makes is its own temporary one, it is left behind exactly
  -- where a copy into it throws, and then an error is thrown: it is gone if all copies were made,
  -- whatever fails after them.
  pub generate_proto-left_behind :
      (tools : Tools S) (Exists : String → S → Type 0)
      (chaintypes : List (Option (List CustomModule))) (project dir : String) (s s₁ : S)
      → Directories tools temp Exists
      → tools.temp_proto_dir ≡ temp_proto_dir lib temp project
      → temp.make_temp_dir s ≡ (ok dir, s₁)
      → LeftWhereThrown
          (Exists dir)
          (fill lib temp project dir s₁).0
          (generate_proto lib tools chaintypes project s)
  unfolding generate_proto generate_from temp_proto_dir chain
  generate_proto-left_behind tools Exists chaintypes project dir s s₁ dirs own made =
      subst (LeftWhereThrown (Exists dir) (fill lib temp project dir s₁).0) (sym ran)
        (go (fill lib temp project dir s₁).0 refl)
    where
      after : S
      after = (fill lib temp project dir s₁).1

      ran :
          generate_proto lib tools chaintypes project s
          ≡ generate_from lib tools chaintypes project (fill lib temp project dir s₁)
      ran =
          ap (λ (m : Effect S String). generate_from lib tools chaintypes project (m s)) own
          ∙ ap
              (λ (p : Result String × S).
                generate_from lib tools chaintypes project
                  (continue p.0 (fill lib temp project) p.1))
              made

      thrown_on :
          (removed : Result (Unit {0})) (fault : Fault)
          → Throws (finally lib tools removed (err fault))
      thrown_on (ok done) fault = (fault, refl)
      thrown_on (err mask) fault = (mask, refl)

      go :
          (r : Result String)
          → (fill lib temp project dir s₁).0 ≡ r
          → LeftWhereThrown
              (Exists dir)
              r
              (generate_from lib tools chaintypes project (r, (fill lib temp project dir s₁).1))
      go (ok path) h =
          let same = fill_returned project dir path s₁ h in
          let s₂ = (generate_in lib tools chaintypes project path after).1 in
          let gone : ¬ Exists dir (tools.rm (some path) s₂).1 =
            subst (λ d. ¬ Exists d (tools.rm (some path) s₂).1) (sym same) (dirs.removed path s₂) in
          ((λ e. absurd (gone e), λ f. absurd (cc (f.1))), λ e. absurd (gone e))
      go (err fault) h =
          let kept = dirs.not_removed dir after (
            fill-Keeps (Exists dir) (λ from to s. dirs.copied dir from to s) project dir s₁
              (dirs.made dir s s₁ made)) in
          (
            (λ e. (fault, refl), λ f. kept),
            λ e. thrown_on (tools.rm none after).0 (failed lib tools fault),
          )
