-- ===== src/Codegen/Props.antt =====
-- The render props of all chain types as one plan over their modules.
use subql_cosmos.Base.{
  String, ◌≡◌, ◌≢◌, refl, subst, sym, ap, ◌∙◌, true, Bool-cases, inl, inr, Option, none, some, List,
  [], ◌∷◌, ◌++◌, All, if◌then◌else◌, Result, ok, err, fail, ◌>>=◌,
}
use mathlib.Core.List.{append_assoc}
use subql_cosmos.Codegen.{
  CustomModule, ProtobufRenderProps, FileLib, is_msg, msgs_of, props_of, missing, module_props,
  chaintype_props, chaintypes_props, prepare_protobuf_render_props,
}

-- The modules of the chain types that are there, in order.
abbrev pub modules : List (Option (List CustomModule)) → List CustomModule
modules [] = []
modules (none ∷ chaintypes) = modules chaintypes
modules (some chaintype ∷ chaintypes) = chaintype ++ modules chaintypes

module _ (lib : FileLib) (project : String) where
  abbrev pub first_missing : List CustomModule → Option CustomModule
  first_missing [] = none
  first_missing (m ∷ ms) = if lib.exists (lib.join project m.file) then first_missing ms else some m

  abbrev pub all_props : List CustomModule → List ProtobufRenderProps
  all_props [] = []
  all_props (m ∷ ms) = props_of lib m (msgs_of m.messages) ++ all_props ms

  abbrev pub plan_from :
      Option CustomModule → List ProtobufRenderProps → Result (List ProtobufRenderProps)
  plan_from (some m) props = fail (missing lib m)
  plan_from none props = ok props

  -- The error of the first module without a file, else the props of all.
  abbrev pub planned : List CustomModule → Result (List ProtobufRenderProps)
  planned ms = plan_from (first_missing ms) (all_props ms)

  planned_after :
      (props : List ProtobufRenderProps) (o : Option CustomModule) (rest : List ProtobufRenderProps)
      → (plan_from o rest >>= λ r. ok (props ++ r)) ≡ plan_from o (props ++ rest)
  planned_after props none rest = refl
  planned_after props (some m) rest = refl

  chaintype_props_lem : (ms : List CustomModule) → chaintype_props lib project ms ≡ planned ms
  unfolding chaintype_props module_props
  chaintype_props_lem [] = refl
  chaintype_props_lem (m ∷ ms) = elim (Bool-cases (lib.exists (lib.join project m.file))) [
    | inl t ↦ rw t (
        rw (chaintype_props_lem ms)
          (planned_after (props_of lib m (msgs_of m.messages)) (first_missing ms) (all_props ms)))
    | inr f ↦ rw f refl
  ]

  joined :
      (r s : Result (List ProtobufRenderProps)) (props : List ProtobufRenderProps)
      → (r >>= λ p. s >>= λ q. ok (p ++ q) >>= λ l. ok (props ++ l))
        ≡ ((r >>= λ p. ok (props ++ p)) >>= λ p. s >>= λ q. ok (p ++ q))
  joined (err e) s props = refl
  joined (ok p) (err e) props = refl
  joined (ok p) (ok q) props = ap ok (sym (append_assoc props p q))

  one_joined :
      (m r s : Result (List ProtobufRenderProps))
      → (m >>= λ props. (r >>= λ p. s >>= λ q. ok (p ++ q)) >>= λ l. ok (props ++ l))
        ≡ ((m >>= λ props. r >>= λ p. ok (props ++ p)) >>= λ p. s >>= λ q. ok (p ++ q))
  one_joined (err e) r s = refl
  one_joined (ok props) (err e) s = refl
  one_joined (ok props) (ok p) (err e) = refl
  one_joined (ok props) (ok p) (ok q) = ap ok (sym (append_assoc props p q))

  chaintype_props-append :
      (xs ys : List CustomModule)
      → chaintype_props lib project (xs ++ ys) ≡ (
          chaintype_props lib project xs >>= λ p.
          chaintype_props lib project ys >>= λ q. ok (p ++ q))
  unfolding chaintype_props
  chaintype_props-append [] ys = same (chaintype_props lib project ys)
    where
      same : (r : Result (List ProtobufRenderProps)) → r ≡ (r >>= λ q. ok q)
      same (ok q) = refl
      same (err e) = refl
  chaintype_props-append (m ∷ xs) ys = rw (chaintype_props-append xs ys) (
      one_joined (module_props lib project m) (chaintype_props lib project xs)
        (chaintype_props lib project ys))

  chaintypes_props_lem :
      (chaintypes : List (Option (List CustomModule)))
      → chaintypes_props lib project chaintypes ≡ chaintype_props lib project (modules chaintypes)
  unfolding chaintypes_props chaintype_props
  chaintypes_props_lem [] = refl
  chaintypes_props_lem (none ∷ chaintypes) = chaintypes_props_lem chaintypes
  chaintypes_props_lem (some chaintype ∷ chaintypes) =
      rw (chaintypes_props_lem chaintypes)
        (sym (chaintype_props-append chaintype (modules chaintypes)))

  -- The render props of chain types are those of their modules, in order, where each module's file
  -- exists; else the error names the first module whose file does not.
  pub prepare_protobuf_render_props_lem :
      (chaintypes : List (Option (List CustomModule)))
      → prepare_protobuf_render_props lib (some chaintypes) project ≡ planned (modules chaintypes)
  unfolding prepare_protobuf_render_props
  prepare_protobuf_render_props_lem chaintypes =
      chaintypes_props_lem chaintypes ∙ chaintype_props_lem (modules chaintypes)

  -- The props name a message, and each they name begins with Msg.
  abbrev pub NamesMsgs : ProtobufRenderProps → Type 0
  NamesMsgs p = (p.message_names ≢ []) × All (λ m. is_msg m ≡ true) p.message_names

  msgs_of-All : (ms : List String) → All (λ m. is_msg m ≡ true) (msgs_of ms)
  unfolding msgs_of
  msgs_of-All [] = tt
  msgs_of-All (m ∷ ms) = elim (Bool-cases (is_msg m)) [
    | inl t ↦ rw t (t, msgs_of-All ms)
    | inr f ↦ rw f (msgs_of-All ms)
  ]

  props_of-NamesMsgs :
      (m : CustomModule) (msgs : List String)
      → All (λ s. is_msg s ≡ true) msgs
      → All NamesMsgs (props_of lib m msgs)
  unfolding props_of
  props_of-NamesMsgs m [] h = tt
  props_of-NamesMsgs m (s ∷ msgs) h = (((λ e. cc e), h), tt)

  All-append :
      (xs ys : List ProtobufRenderProps)
      → All NamesMsgs xs
      → All NamesMsgs ys
      → All NamesMsgs (xs ++ ys)
  All-append [] ys p q = q
  All-append (x ∷ xs) ys (p, ps) q = (p, All-append xs ys ps q)

  all_props-NamesMsgs : (ms : List CustomModule) → All NamesMsgs (all_props ms)
  all_props-NamesMsgs [] = tt
  all_props-NamesMsgs (m ∷ ms) =
      All-append (props_of lib m (msgs_of m.messages)) (all_props ms)
        (props_of-NamesMsgs m (msgs_of m.messages) (msgs_of-All m.messages))
        (all_props-NamesMsgs ms)

  plan_from-ok :
      (o : Option CustomModule) (props out : List ProtobufRenderProps)
      → plan_from o props ≡ ok out
      → props ≡ out
  plan_from-ok none props out h = cc h
  plan_from-ok (some m) props out h = absurd (cc h)

  -- All props that come of chain types name at least one message, and only messages that begin with
  -- Msg.
  pub prepare_protobuf_render_props-NamesMsgs :
      (chaintypes : List (Option (List CustomModule))) (out : List ProtobufRenderProps)
      → prepare_protobuf_render_props lib (some chaintypes) project ≡ ok out
      → All NamesMsgs out
  prepare_protobuf_render_props-NamesMsgs chaintypes out h =
      let plan = sym (prepare_protobuf_render_props_lem chaintypes) ∙ h in
      subst (All NamesMsgs) (plan_from-ok (first_missing (modules chaintypes)) _ out plan)
        (all_props-NamesMsgs (modules chaintypes))
