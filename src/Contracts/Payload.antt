-- ===== src/Contracts/Payload.antt =====
-- packages/contracts/src/twinvoice_contracts/sparkplug/codec.py: metrics and payloads. The protobuf
-- messages are records; their serialization is protobuf's own, so an encoded payload stands for its
-- bytes. A `ValueError` is `none`. A dictionary of properties is the list of its items.
pub mod Decode
use mathlib.Core.Option
use text.Mathlib.Text.{◌==◌ as str_eq}
use digital_twin.Prelude.{
  ℕ, ◌-◌, ◌^◌, String, Bool, true, false, Option, none, some, List, [], ◌∷◌, ◌++◌, ltb, leb,
  if◌then◌else◌,
}
use digital_twin.Prelude.Int.{ℤ, pos, negsuc}
use digital_twin.Contracts.Wire.{
  DataType, int32, int64, double, boolean, string, spec_of, by_code, Scalar, bool, int, real, str,
  Raw, Rounding, to_wire, from_wire, in_range,
}

pub record MetricDict (F : Type 0) : Type 0 where
  pub name : String
  pub datatype : DataType
  pub value : Option (Scalar F)
  pub timestamp : Option ℕ
  pub is_null : Bool
  pub properties : List (String × Option (Scalar F))

pub record PayloadDict (F : Type 0) : Type 0 where
  pub timestamp : Option ℕ
  pub seq : Option ℕ
  pub metrics : List (MetricDict F)

-- `is_null` and the `oneof` of values
pub record Slot (F : Type 0) : Type 0 where
  pub is_null : Bool
  pub value : Option (Raw F)

-- a `PropertyValue`
pub record Property (F : Type 0) : Type 0 where
  pub type_code : ℕ
  pub slot : Slot F

-- `Payload.Metric`
pub record Metric (F : Type 0) : Type 0 where
  pub name : String
  pub datatype : ℕ
  pub timestamp : Option ℕ
  pub slot : Slot F
  pub property_keys : List String
  pub property_values : List (Property F)

pub record Payload (F : Type 0) : Type 0 where
  pub timestamp : Option ℕ
  pub seq : Option ℕ
  pub metrics : List (Metric F)

module _ {F : Type 0} (r : Rounding F) where
  -- `_infer_property_type`
  unfoldable pub infer_property_type : Option (Scalar F) → DataType
  infer_property_type none = string
  infer_property_type (some (str s)) = string
  infer_property_type (some (bool b)) = boolean
  infer_property_type (some (int v)) = if in_range true 32 v then int32 else int64
  infer_property_type (some (real x)) = double

  -- `_set_value` on a fresh message
  unfoldable pub set_value : DataType → Option (Scalar F) → Bool → Option (Slot F)
  set_value dt value true = some (record { is_null = true; value = none })
  set_value dt none false = some (record { is_null = true; value = none })
  set_value dt (some v) false =
      Option.map (λ raw. record { is_null = false; value = some raw }) (to_wire r dt v)

  read_slot : DataType → Bool → Option (Raw F) → DataType × Option (Scalar F) × Bool
  read_slot dt true raw = (dt, none, true)
  read_slot dt false none = (dt, none, true)
  read_slot dt false (some raw) = (dt, some (from_wire r dt raw), false)

  -- `_read_value`
  pub read_value : Slot F → ℕ → Option (DataType × Option (Scalar F) × Bool)
  unfolding read_slot
  read_value source code =
      Option.map (λ dt. read_slot dt source.is_null source.value) (by_code code)

  unfoldable pub is_none : Option (Scalar F) → Bool
  is_none none = true
  is_none (some v) = false

  -- an item of the loop over the properties
  unfoldable pub encode_property : Option (Scalar F) → Option (Property F)
  unfolding is_none
  encode_property v =
      let dt = infer_property_type v in
      Option.map (λ slot. record { type_code = (spec_of dt).code; slot = slot })
        (set_value dt v (is_none v))

  unfoldable pub encode_properties : List (String × Option (Scalar F)) → Option (List (Property F))
  encode_properties [] = some []
  encode_properties ((k, v) ∷ l) =
      Option.bind (encode_property v) (λ p. Option.map (λ ps. p ∷ ps) (encode_properties l))

  unfoldable pub keys : List (String × Option (Scalar F)) → List String
  keys [] = []
  keys ((k, v) ∷ l) = k ∷ keys l

  -- `_encode_metric`
  unfoldable pub encode_metric : MetricDict F → Option (Metric F)
  encode_metric m = Option.bind (set_value m.datatype m.value m.is_null) (λ slot.
      Option.map
        (λ values. record {
          name = m.name;
          datatype = (spec_of m.datatype).code;
          timestamp = m.timestamp;
          slot = slot;
          property_keys = keys m.properties;
          property_values = values;
        })
        (encode_properties m.properties))

  -- `d[k] = v`
  pub put :
      String
      → Option (Scalar F)
      → List (String × Option (Scalar F))
      → List (String × Option (Scalar F))
  put k v [] = (k, v) ∷ []
  put k v ((j, w) ∷ d) = if str_eq j k then (k, v) ∷ d else (j, w) ∷ put k v d

  -- the loop over `zip(keys, values, strict=True)`
  pub decode_properties :
      List String
      → List (Property F)
      → List (String × Option (Scalar F))
      → Option (List (String × Option (Scalar F)))
  decode_properties [] [] d = some d
  decode_properties (k ∷ ks) (p ∷ ps) d =
      Option.bind (read_value p.slot p.type_code) (λ x. decode_properties ks ps (put k x.1 d))
  decode_properties _ _ d = none

  -- `_decode_metric`
  pub decode_metric : Metric F → Option (MetricDict F)
  decode_metric source = Option.bind (read_value source.slot source.datatype) (λ x.
      Option.map
        (λ properties. record {
          name = source.name;
          datatype = x.0;
          value = x.1;
          timestamp = source.timestamp;
          is_null = x.2;
          properties = properties;
        })
        (decode_properties source.property_keys source.property_values []))

  unfoldable pub encode_metrics : List (MetricDict F) → Option (List (Metric F))
  encode_metrics [] = some []
  encode_metrics (m ∷ ms) =
      Option.bind (encode_metric m) (λ x. Option.map (λ xs. x ∷ xs) (encode_metrics ms))

  pub decode_metrics : List (Metric F) → Option (List (MetricDict F))
  decode_metrics [] = some []
  decode_metrics (m ∷ ms) =
      Option.bind (decode_metric m) (λ x. Option.map (λ xs. x ∷ xs) (decode_metrics ms))

  unfoldable pub or_now : ℕ → Option ℕ → ℕ
  or_now now none = now
  or_now now (some t) = t

  unfoldable pub is_byte : Option ℕ → Bool
  is_byte none = true
  is_byte (some n) = leb n 255

  -- `encode_payload`; `now` is `now_ms()`
  unfoldable pub encode_payload : ℕ → Option ℕ → Option ℕ → List (MetricDict F) → Option (Payload F)
  unfolding or_now is_byte
  encode_payload now timestamp seq metrics =
      if is_byte seq
      then Option.map
          (λ ms. record { timestamp = some (or_now now timestamp); seq = seq; metrics = ms })
          (encode_metrics metrics)
      else none

  -- `decode_payload`
  pub decode_payload : Payload F → Option (PayloadDict F)
  decode_payload p =
      Option.map (λ ms. record { timestamp = p.timestamp; seq = p.seq; metrics = ms })
        (decode_metrics p.metrics)

  bdseq_metric : ℕ → ℕ → MetricDict F
  bdseq_metric bd_seq ts = record {
    name = "bdSeq";
    datatype = int64;
    value = some (int (pos bd_seq));
    timestamp = some ts;
    is_null = false;
    properties = [];
  }

  control_metric : ℕ → MetricDict F
  control_metric ts = record {
    name = "Node Control/Rebirth";
    datatype = boolean;
    value = some (bool false);
    timestamp = some ts;
    is_null = false;
    properties = [];
  }

  pub nbirth : ℕ → ℕ → List (MetricDict F) → Option ℕ → Option (Payload F)
  unfolding or_now bdseq_metric control_metric
  nbirth now bd_seq metrics timestamp =
      let ts = or_now now timestamp in
      encode_payload now (some ts) (some 0) (bdseq_metric bd_seq ts ∷ control_metric ts ∷ metrics)

  pub ndeath : ℕ → ℕ → Option ℕ → Option (Payload F)
  unfolding or_now bdseq_metric
  ndeath now bd_seq timestamp =
      let ts = or_now now timestamp in
      encode_payload now (some ts) none (bdseq_metric bd_seq ts ∷ [])

  -- `dbirth` and `ddata`
  pub device_payload : ℕ → List (MetricDict F) → ℕ → Option ℕ → Option (Payload F)
  device_payload now metrics seq timestamp = encode_payload now timestamp (some seq) metrics

  pub ddeath : ℕ → ℕ → Option ℕ → Option (Payload F)
  ddeath now seq timestamp = encode_payload now timestamp (some seq) []
