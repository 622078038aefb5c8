-- ===== src/Processors/Versions.antt =====
-- Processors of the old version behave as ones of the new version.
use subql_cosmos.Base.{
  ◌≡◌, refl, ap, ◌==◌, text_strict, eq_iff, Bool-cases, inl, inr, some, List, [], ◌∷◌, Result, ok,
  ◌>>=◌,
}
use subql_cosmos.Processors.{
  FilterParams, TransformParams, OldProcessor, NewProcessor, Processor, old, new, other,
  spec_version, upgrade, as_second_layer_handler_processor_1_0_0,
}

abbrev pub one_result : {E : Type 0} → Result E → Result (List E)
one_result r = r >>= λ res. ok (res ∷ [])

module _ {F I E D C : Type 0} where
  -- Every processor that is converted has version 1.0.0, and converting it again changes nothing.
  -- One without a version filters and transforms as before, its one result in a list.
  pub as_second_layer_handler_processor_1_0_0_lem :
      (p q : Processor F I E D C)
      → as_second_layer_handler_processor_1_0_0 p ≡ ok q
      → (spec_version q ≡ some "1.0.0")
        × (as_second_layer_handler_processor_1_0_0 q ≡ ok q)
        × ((o : OldProcessor F I E D C)
            → p ≡ old o
            → (n : NewProcessor F I E D C) × (q ≡ new n)
              × ((x : FilterParams F I D) → n.new_filter x ≡ o.old_filter x.filter x.input x.ds)
              × ((x : TransformParams F I D C)
                  → n.new_transformer x
                    ≡ one_result
                        (o.old_transformer x.transform_input x.transform_ds x.api x.assets)))
  unfolding as_second_layer_handler_processor_1_0_0
  as_second_layer_handler_processor_1_0_0_lem (old o') q h =
      let e : upgrade (old o') ≡ q = cc h in
      rw⁻¹ e (
        refl,
        refl,
        (λ o same.
            let same_processor : o' ≡ o = cc same in
            (
              record {
                new_filter = λ params. o'.old_filter params.filter params.input params.ds;
                new_transformer = λ params. one_result (
                    o'.old_transformer params.transform_input params.transform_ds params.api
                      params.assets);
              },
              refl,
              (λ x.
                  ap (λ (z : OldProcessor F I E D C). z.old_filter x.filter x.input x.ds)
                    same_processor),
              (λ x.
                  ap
                    (λ (z : OldProcessor F I E D C).
                      one_result
                        (z.old_transformer x.transform_input x.transform_ds x.api x.assets))
                    same_processor),
            )),
      )
  as_second_layer_handler_processor_1_0_0_lem (new n) q h =
      let e : new n ≡ q = cc h in rw⁻¹ e (refl, refl, (λ o same. absurd (cc same)))
  as_second_layer_handler_processor_1_0_0_lem (other v) q h = elim (Bool-cases (v == "1.0.0")) [
    | inl t ↦
        let e : other v ≡ q = cc (rw t at h) in
        rw⁻¹ e (ap some ((eq_iff v "1.0.0").0 t), rw t refl, (λ o same. absurd (cc same)))
    | inr f ↦ absurd (cc (rw f at h))
  ]
