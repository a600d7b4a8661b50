-- ===== src/Contracts/Topic/RoundTrip.antt =====
-- A topic that is built is parsed back, and only such topics are parsed.
use mathlib.Core.Option
use digital_twin.Prelude.{
  ℕ, Bool, true, false, Option, none, some, List, [], ◌∷◌, ◌++◌, ◌==◌, ◌||◌, is_empty, ◌≡◌, refl,
  ap, ◌∙◌, arith, Bool-cases, inl, inr,
}
use digital_twin.Contracts.Topic.{
  MessageType, nbirth, value_of, namespace, is_device, same_text, with_value, message_type,
  has_special, is_valid_id, join, with_device, build_topic, add_to_head, split, topic_of,
  parse_parts, parse_topic,
}

pub same_text_refl : (s : List ℕ) → same_text s s ≡ true
unfolding same_text
same_text_refl [] = refl
same_text_refl (c ∷ s) = ground (arith, same_text_refl s)

message_type-value_of : (t : MessageType) → message_type (value_of t) ≡ some t
unfolding message_type with_value same_text
message_type-value_of nbirth = refl
message_type-value_of t = refl

-- does a text contain the separator?
has_slash : List ℕ → Bool
has_slash [] = false
has_slash (c ∷ s) = (c == b'/') || has_slash s

split_none : (s : List ℕ) → has_slash s ≡ false → split s ≡ s ∷ []
unfolding has_slash split add_to_head
split_none [] h = refl
split_none (c ∷ s) h = ground (arith, h, split_none s)

split-append : (s t : List ℕ) → has_slash s ≡ false → split (s ++ b'/' ∷ t) ≡ s ∷ split t
unfolding has_slash split add_to_head
split-append [] t h = refl
split-append (c ∷ s) t h = ground (arith, h, split-append s t)

special_slash : (s : List ℕ) → has_special s ≡ false → has_slash s ≡ false
unfolding has_special has_slash
special_slash [] h = refl
special_slash (c ∷ s) h = ground (arith, h, special_slash s)

valid_slash : (s : List ℕ) → is_valid_id s ≡ true → (has_slash s ≡ false) × (is_empty s ≡ false)
unfolding is_valid_id
valid_slash s h = (ground (arith, h, special_slash s), ground (arith, h))

value_of-slash : (t : MessageType) → has_slash (value_of t) ≡ false
unfolding has_slash
value_of-slash nbirth = refl
value_of-slash t = refl

split4 :
    (a b c d : List ℕ)
    → has_slash a ≡ false
    → has_slash b ≡ false
    → has_slash c ≡ false
    → has_slash d ≡ false
    → split (join (a ∷ b ∷ c ∷ d ∷ [])) ≡ a ∷ b ∷ c ∷ d ∷ []
unfolding join
split4 a b c d p q r s =
    split-append a _ p
    ∙ ap (λ l. a ∷ l)
        (split-append b _ q
          ∙ ap (λ l. b ∷ l) (split-append c _ r ∙ ap (λ l. c ∷ l) (split_none d s)))

split5 :
    (a b c d e : List ℕ)
    → has_slash a ≡ false
    → has_slash b ≡ false
    → has_slash c ≡ false
    → has_slash d ≡ false
    → has_slash e ≡ false
    → split (join (a ∷ b ∷ c ∷ d ∷ e ∷ [])) ≡ a ∷ b ∷ c ∷ d ∷ e ∷ []
unfolding join
split5 a b c d e p q r s t = split-append a _ p ∙ ap (λ l. a ∷ l) (split4 b c d e q r s t)

namespace_slash : has_slash namespace ≡ false
unfolding has_slash
namespace_slash = refl

parse-join4 :
    (g e : List ℕ) (t : MessageType)
    → is_valid_id g ≡ true
    → is_valid_id e ≡ true
    → is_device t ≡ false
    → parse_topic (join (namespace ∷ g ∷ value_of t ∷ e ∷ []))
      ≡ some (record { group_id = g; message_type = t; edge_node_id = e; device_id = none })
unfolding parse_topic parse_parts topic_of Option.bind
parse-join4 g e t vg ve no_device =
    let (sg, ng) = valid_slash g vg in
    let (se, ne) = valid_slash e ve in
    ap parse_parts (split4 namespace g (value_of t) e namespace_slash sg (value_of-slash t) se)
    ∙ rw (same_text_refl namespace) (rw (message_type-value_of t) (rw (no_device, ng, ne) refl))

parse-join5 :
    (g e d : List ℕ) (t : MessageType)
    → is_valid_id g ≡ true
    → is_valid_id e ≡ true
    → is_valid_id d ≡ true
    → is_device t ≡ true
    → parse_topic (join (namespace ∷ g ∷ value_of t ∷ e ∷ d ∷ []))
      ≡ some (record { group_id = g; message_type = t; edge_node_id = e; device_id = some d })
unfolding parse_topic parse_parts topic_of Option.bind
parse-join5 g e d t vg ve vd device =
    let (sg, ng) = valid_slash g vg in
    let (se, ne) = valid_slash e ve in
    let (sd, nd) = valid_slash d vd in
    ap parse_parts (split5 namespace g (value_of t) e d namespace_slash sg (value_of-slash t) se sd)
    ∙ rw (same_text_refl namespace) (rw (message_type-value_of t) (rw (device, ng, ne, nd) refl))

build_parts :
    (g e : List ℕ) (t : MessageType) (d : Option (List ℕ)) (s : List ℕ)
    → build_topic g t e d ≡ some s
    → (is_valid_id g ≡ true)
      × (is_valid_id e ≡ true)
      × (with_device (is_device t) (namespace ∷ g ∷ value_of t ∷ e ∷ []) d ≡ some s)
unfolding build_topic
build_parts g e t d s h = (ground (arith, h), ground (arith, h), ground (arith, h))

parse-with_device :
    (g e : List ℕ) (t : MessageType) (device : Bool) (d : Option (List ℕ)) (s : List ℕ)
    → is_valid_id g ≡ true
    → is_valid_id e ≡ true
    → is_device t ≡ device
    → with_device device (namespace ∷ g ∷ value_of t ∷ e ∷ []) d ≡ some s
    → parse_topic s
      ≡ some (record { group_id = g; message_type = t; edge_node_id = e; device_id = d })
unfolding with_device
parse-with_device g e t false none s vg ve k h =
    let q : join (namespace ∷ g ∷ value_of t ∷ e ∷ []) ≡ s = cc in
    rw (← q) (parse-join4 g e t vg ve k)
parse-with_device g e t false (some d) s vg ve k h = cc
parse-with_device g e t true none s vg ve k h = cc
parse-with_device g e t true (some d) s vg ve k h = elim (Bool-cases (is_valid_id d)) [
  | inl vd ↦
      let q : join (namespace ∷ g ∷ value_of t ∷ e ∷ d ∷ []) ≡ s = ground (arith, h, vd) in
      rw (← q) (parse-join5 g e d t vg ve vd k)
  | inr vd ↦ absurd (ground (arith, h, vd))
]

-- A topic that `build_topic` gives is parsed to what it was built from.
pub parse_topic-build_topic :
    (g e : List ℕ) (t : MessageType) (d : Option (List ℕ)) (s : List ℕ)
    → build_topic g t e d ≡ some s
    → parse_topic s
      ≡ some (record { group_id = g; message_type = t; edge_node_id = e; device_id = d })
parse_topic-build_topic g e t d s h =
    let (vg, ve, w) = build_parts g e t d s h in
    parse-with_device g e t (is_device t) d s vg ve refl w
