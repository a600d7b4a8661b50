-- ===== src/Contracts/Payload/Decode.antt =====
-- Decoding an encoded payload.
use mathlib.Core.Option
use mathlib.Core.Path.{subst}
use text.Mathlib.Text.{◌==◌ as str_eq}
use digital_twin.Prelude.{
  ℕ, ◌≤◌, String, Bool, true, false, Option, none, some, List, [], ◌∷◌, ◌++◌, map, ◌≡◌, refl, sym,
  ap, ◌∙◌, arith, if◌then◌else◌, All, Option-cases, inl, inr, append_assoc, append-nil,
}
use digital_twin.Contracts.Wire.{DataType, spec_of, Scalar, Rounding, to_wire}
use digital_twin.Contracts.Wire.RoundTrip.{read_as, by_code-spec_of, from_wire-to_wire}
use digital_twin.Contracts.Payload.{
  MetricDict, Slot, Property, Metric, Payload, infer_property_type, set_value, read_slot,
  read_value, is_none, encode_property, encode_properties, keys, encode_metric, put,
  decode_properties, decode_metric, encode_metrics, decode_metrics, or_now, is_byte, encode_payload,
  decode_payload,
}

unfoldable pub has : String → List String → Bool
has k [] = false
has k (j ∷ l) = if str_eq j k then true else has k l

-- no key comes twice, nor is one that was seen
abbrev pub Distinct : List String → List String → Type 0
Distinct seen [] = Unit {0}
Distinct seen (k ∷ l) = (has k seen ≡ false) × Distinct (seen ++ k ∷ []) l

module _ {F : Type 0} (r : Rounding F) where
  -- what is read of a value, and whether it is null
  pub value_read : DataType → Option (Scalar F) → Bool → Option (Scalar F)
  value_read dt v true = none
  value_read dt v false = Option.map (read_as r dt) v

  pub null_read : Option (Scalar F) → Bool → Bool
  null_read v true = true
  null_read none false = true
  null_read (some v) false = false

  read-set_value :
      (dt : DataType) (v : Option (Scalar F)) (n : Bool) (slot : Slot F)
      → set_value r dt v n ≡ some slot
      → read_value r slot (spec_of dt).code ≡ some (dt, value_read dt v n, null_read v n)
  unfolding set_value read_value read_slot value_read null_read
  read-set_value dt v true slot h = ground (arith, by_code-spec_of dt)
  read-set_value dt none false slot h = ground (arith, by_code-spec_of dt)
  read-set_value dt (some v) false slot h = elim (Option-cases (to_wire r dt v)) [
    | inl e ↦ absurd (ground (arith, h, e))
    | inr (raw, e) ↦ ground (arith, h, e, by_code-spec_of dt, from_wire-to_wire r dt v raw)
  ]

  -- the properties that are read: each value as its inferred type gives it
  pub property_read : Option (Scalar F) → Option (Scalar F)
  property_read v = value_read (infer_property_type r v) v (is_none r v)

  pub properties_read : List (String × Option (Scalar F)) → List (String × Option (Scalar F))
  properties_read [] = []
  properties_read ((k, v) ∷ l) = (k, property_read v) ∷ properties_read l

  read_property :
      (v : Option (Scalar F)) (p : Property F)
      → encode_property r v ≡ some p
      → read_value r p.slot p.type_code
        ≡ some (infer_property_type r v, property_read v, null_read v (is_none r v))
  unfolding encode_property property_read
  read_property v p h =
      elim (Option-cases (set_value r (infer_property_type r v) v (is_none r v))) [
        | inl e ↦ absurd (ground (arith, h, e))
        | inr (slot, e) ↦
            ground (arith, h, e, read-set_value (infer_property_type r v) v (is_none r v) slot)
      ]

  keys-append :
      (d : List (String × Option (Scalar F))) (k : String) (v : Option (Scalar F))
      → keys r (d ++ (k, v) ∷ []) ≡ keys r d ++ k ∷ []
  unfolding keys
  keys-append [] k v = refl
  keys-append ((j, w) ∷ d) k v = ap (λ l. j ∷ l) (keys-append d k v)

  put-append :
      (k : String) (v : Option (Scalar F)) (d : List (String × Option (Scalar F)))
      → has k (keys r d) ≡ false
      → put r k v d ≡ d ++ (k, v) ∷ []
  unfolding put keys has
  put-append k v [] h = refl
  put-append k v ((j, w) ∷ d) h = ground (arith, h, put-append k v d)

  decode-encode_properties :
      (l d : List (String × Option (Scalar F))) (ps : List (Property F))
      → Distinct (keys r d) (keys r l)
      → encode_properties r l ≡ some ps
      → decode_properties r (keys r l) ps d ≡ some (d ++ properties_read l)
  unfolding encode_properties decode_properties keys properties_read Option.bind
  decode-encode_properties [] d ps u h = ground (arith, h, append-nil d)
  decode-encode_properties ((k, v) ∷ l) d ps u h = elim (Option-cases (encode_property r v)) [
    | inl e ↦ absurd (ground (arith, h, e))
    | inr (p, e) ↦ elim (Option-cases (encode_properties r l)) [
      | inl e' ↦ absurd (ground (arith, h, e, e'))
      | inr (ps', e') ↦
          let d' = d ++ (k, property_read v) ∷ [] in
          let u' : Distinct (keys r d') (keys r l) =
            subst (λ s. Distinct s (keys r l)) (sym (keys-append d k (property_read v))) u.1 in
          let shape : ps ≡ p ∷ ps' = ground (arith, h, e, e') in
          rw shape (
            rw (read_property v p e) (
              ap (λ x. decode_properties r (keys r l) ps' x) (put-append k (property_read v) d u.0)
              ∙ decode-encode_properties l d' ps' u' e'
              ∙ ap some (append_assoc d ((k, property_read v) ∷ []) (properties_read l))))
    ]
  ]

  -- the metric that is read
  pub metric_read : MetricDict F → MetricDict F
  metric_read m = record m {
    value = value_read m.datatype m.value m.is_null;
    is_null = null_read m.value m.is_null;
    properties = properties_read m.properties;
  }

  decode-encode_metric :
      (m : MetricDict F) (x : Metric F)
      → Distinct [] (keys r m.properties)
      → encode_metric r m ≡ some x
      → decode_metric r x ≡ some (metric_read m)
  unfolding encode_metric decode_metric metric_read keys Option.bind
  decode-encode_metric m x u h = elim (Option-cases (set_value r m.datatype m.value m.is_null)) [
    | inl e ↦ absurd (ground (arith, h, e))
    | inr (slot, e) ↦ elim (Option-cases (encode_properties r m.properties)) [
      | inl e' ↦ absurd (ground (arith, h, e, e'))
      | inr (ps, e') ↦ ground (
        arith,
        h,
        e,
        e',
        read-set_value m.datatype m.value m.is_null slot,
        decode-encode_properties m.properties [] ps u e',
      )
    ]
  ]

  abbrev pub AreDicts : List (MetricDict F) → Type 0
  AreDicts = All (λ m. Distinct [] (keys r m.properties))

  decode-encode_metrics :
      (ms : List (MetricDict F)) (xs : List (Metric F))
      → AreDicts ms
      → encode_metrics r ms ≡ some xs
      → decode_metrics r xs ≡ some (map metric_read ms)
  unfolding encode_metrics decode_metrics Option.bind
  decode-encode_metrics [] xs u h = ground (arith, h)
  decode-encode_metrics (m ∷ ms) xs u h = elim (Option-cases (encode_metric r m)) [
    | inl e ↦ absurd (ground (arith, h, e))
    | inr (x, e) ↦ elim (Option-cases (encode_metrics r ms)) [
      | inl e' ↦ absurd (ground (arith, h, e, e'))
      | inr (xs', e') ↦
          ground
            (arith, h, e, e', decode-encode_metric m x u.0 e, decode-encode_metrics ms xs' u.1 e')
    ]
  ]

  -- A payload that is encoded is decoded to its timestamp, or the present time, its sequence number,
  -- which is a byte, and its metrics in order: each value and property as it is read back, and
  -- null where it is missing or marked as null. The keys of a metric's properties are distinct.
  pub decode-encode_payload :
      (now : ℕ) (timestamp seq : Option ℕ) (ms : List (MetricDict F)) (p : Payload F)
      → AreDicts ms
      → encode_payload r now timestamp seq ms ≡ some p
      → (decode_payload r p
          ≡ some (record {
            timestamp = some (or_now r now timestamp);
            seq = seq;
            metrics = map metric_read ms;
          }))
        × ((n : ℕ) → seq ≡ some n → n ≤ 255)
  unfolding encode_payload decode_payload is_byte
  decode-encode_payload now timestamp seq ms p u h = elim (Option-cases (encode_metrics r ms)) [
    | inl e ↦ absurd (ground (arith, h, e))
    | inr (xs, e) ↦
        (ground (arith, h, e, decode-encode_metrics ms xs u e), λ n s. ground (arith, h, s))
  ]
