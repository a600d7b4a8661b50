-- ===== src/Tests/Contracts.antt =====
-- The theorems on packages/contracts at concrete inputs.
use mathlib.Core.Option
use digital_twin.Prelude.{ℕ, Bool, true, false, none, some, List, [], ◌∷◌, ◌≡◌, ◌≤◌, refl, map}
use digital_twin.Prelude.Int.{pos, negsuc}
use digital_twin.Contracts.Wire.{
  int8, int, str, number, characters, Rounding, in_range, unsigned, int_to_wire, field_to_wire,
  spec_to_wire, to_wire, from_wire,
}
use digital_twin.Contracts.Wire.RoundTrip.{read_as, from_wire-to_wire}
use digital_twin.Contracts.Payload.{
  MetricDict, Payload, infer_property_type, set_value, is_none, encode_property, encode_properties,
  keys, encode_metric, encode_metrics, or_now, is_byte, encode_payload, decode_payload,
}
use digital_twin.Contracts.Payload.Decode.{AreDicts, has, metric_read, decode-encode_payload}
use digital_twin.Contracts.Topic.{
  ddata, codes, Topic, has_special, is_valid_id, join, with_device, build_topic, add_to_head, split,
  topic_of, parse_parts, parse_topic, same_text, with_value, message_type,
}
use digital_twin.Contracts.Topic.RoundTrip.{parse_topic-build_topic}

-- floats that keep only the sign of a number
abbrev rounding : Rounding Bool
rounding = record { float_of = λ v. elim v [ pos n ↦ true | negsuc n ↦ false ]; single = λ x. x }

minus_five : to_wire rounding int8 (int (negsuc 4)) ≡ some (number 251)
unfolding to_wire spec_to_wire int_to_wire in_range unsigned
minus_five = refl

from_wire-to_wire_example :
    from_wire rounding int8 (number 251) ≡ read_as rounding int8 (int (negsuc 4))
from_wire-to_wire_example = from_wire-to_wire rounding int8 (int (negsuc 4)) (number 251) minus_five

abbrev metric : MetricDict Bool
metric = record {
  name = "rpm";
  datatype = int8;
  value = some (int (negsuc 4));
  timestamp = none;
  is_null = false;
  properties = ("unit", some (str "1/min")) ∷ [];
}

abbrev sent : Payload Bool
sent = record {
  timestamp = some 1000;
  seq = some 7;
  metrics =
      record {
        name = "rpm";
        datatype = 1;
        timestamp = none;
        slot = record { is_null = false; value = some (number 251) };
        property_keys = "unit" ∷ [];
        property_values =
            record {
              type_code = 12;
              slot = record { is_null = false; value = some (characters "1/min") };
            }
            ∷ [];
      }
      ∷ [];
}

sent_lem : encode_payload rounding 1000 none (some 7) (metric ∷ []) ≡ some sent
unfolding encode_payload or_now is_byte encode_metrics encode_metric encode_properties
    encode_property infer_property_type is_none set_value to_wire spec_to_wire int_to_wire
    field_to_wire in_range unsigned Option.bind keys
sent_lem = refl

dicts : AreDicts rounding (metric ∷ [])
unfolding has keys
dicts = ((refl, tt), tt)

decode-encode_payload_example :
    (decode_payload rounding sent
      ≡ some (record {
        timestamp = some (or_now rounding 1000 none);
        seq = some 7;
        metrics = map (metric_read rounding) (metric ∷ []);
      }))
    × ((n : ℕ) → some 7 ≡ some n → n ≤ 255)
decode-encode_payload_example =
    decode-encode_payload rounding 1000 none (some 7) (metric ∷ []) sent dicts sent_lem

abbrev topic_text : List ℕ
topic_text = codes "spBv1.0/plant/DDATA/line1/press"

built : build_topic (codes "plant") ddata (codes "line1") (some (codes "press")) ≡ some topic_text
unfolding build_topic with_device is_valid_id has_special join
built = refl

abbrev topic : Topic
topic = record {
  group_id = codes "plant";
  message_type = ddata;
  edge_node_id = codes "line1";
  device_id = some (codes "press");
}

parse_topic-build_topic_example : parse_topic topic_text ≡ some topic
parse_topic-build_topic_example =
    parse_topic-build_topic (codes "plant") (codes "line1") ddata (some (codes "press")) topic_text
      built

parsed : parse_topic topic_text ≡ some topic
unfolding parse_topic parse_parts split add_to_head topic_of same_text with_value message_type
    Option.bind
parsed = refl
