-- ===== src/Contracts/Topic/Shape.antt =====
-- What a topic that `parse_topic` accepts looks like.
use mathlib.Core.Option
use digital_twin.Prelude.{
  ℕ, true, Option, none, some, List, [], ◌∷◌, ◌==◌, ◌≡◌, refl, sym, ap, ◌∙◌, arith, Bool-cases, inl,
  inr, ==_iff,
}
use digital_twin.Contracts.Topic.{
  MessageType, value_of, namespace, same_text, with_value, message_type, all_types, Topic, join,
  add_to_head, split, topic_of, parse_parts, parse_topic,
}

pub same_text_eq : (s t : List ℕ) → same_text s t ≡ true → s ≡ t
unfolding same_text
same_text_eq [] [] h = refl
same_text_eq [] (b ∷ t) h = cc
same_text_eq (a ∷ s) [] h = cc
same_text_eq (a ∷ s) (b ∷ t) h = ground (arith, h, same_text_eq s t)

with_value-eq :
    (s : List ℕ) (ts : List MessageType) (t : MessageType)
    → with_value s ts ≡ some t
    → value_of t ≡ s
unfolding with_value
with_value-eq s [] t h = cc
with_value-eq s (u ∷ ts) t h = elim (Bool-cases (same_text (value_of u) s)) [
  | inl e ↦ let q : u ≡ t = ground (arith, h, e) in rw (← q) (same_text_eq (value_of u) s e)
  | inr e ↦ with_value-eq s ts t (ground (arith, h, e))
]

message_type-eq : (s : List ℕ) (t : MessageType) → message_type s ≡ some t → value_of t ≡ s
unfolding message_type
message_type-eq s t h = with_value-eq s all_types t h

join-head : (c : ℕ) (l : List (List ℕ)) → join (add_to_head c l) ≡ c ∷ join l
unfolding join add_to_head
join-head c [] = refl
join-head c (s ∷ []) = refl
join-head c (s ∷ t ∷ l) = refl

join-add_to_head :
    (c : ℕ) (l : List (List ℕ)) → join ([] ∷ add_to_head c l) ≡ b'/' ∷ join (add_to_head c l)
unfolding join add_to_head
join-add_to_head c [] = refl
join-add_to_head c (s ∷ l) = refl

join-slash : (s : List ℕ) → join ([] ∷ split s) ≡ b'/' ∷ join (split s)
unfolding split join
join-slash [] = refl
join-slash (c ∷ s) = elim (Bool-cases (c == b'/')) [
  | inl e ↦ rw e refl
  | inr e ↦ rw e (join-add_to_head c (split s))
]

join-split : (s : List ℕ) → join (split s) ≡ s
unfolding split join
join-split [] = refl
join-split (c ∷ s) = elim (Bool-cases (c == b'/')) [
  | inl e ↦ rw e (
      join-slash s
      ∙ ap (λ l. b'/' ∷ l) (join-split s)
      ∙ ap (λ x. x ∷ s) (sym ((==_iff c b'/').0 e)))
  | inr e ↦ rw e (join-head c (split s) ∙ ap (λ l. c ∷ l) (join-split s))
]

-- the levels below the edge node
device_part : Option (List ℕ) → List (List ℕ)
device_part none = []
device_part (some d) = d ∷ []

-- the levels of a topic
unfoldable pub levels : Topic → List (List ℕ)
unfolding device_part
levels t =
    namespace ∷ t.group_id ∷ value_of t.message_type ∷ t.edge_node_id ∷ device_part t.device_id

topic_of-levels4 :
    (g m e : List ℕ) (t : MessageType) (tp : Topic)
    → value_of t ≡ m
    → topic_of g e none t ≡ some tp
    → namespace ∷ g ∷ m ∷ e ∷ [] ≡ levels tp
unfolding topic_of levels device_part
topic_of-levels4 g m e t tp p h =
    let q : record { group_id = g; message_type = t; edge_node_id = e; device_id = none } ≡ tp =
      ground (arith, h) in
    rw (← q, ← p) refl

topic_of-levels5 :
    (g m e d : List ℕ) (t : MessageType) (tp : Topic)
    → value_of t ≡ m
    → topic_of g e (some d) t ≡ some tp
    → namespace ∷ g ∷ m ∷ e ∷ d ∷ [] ≡ levels tp
unfolding topic_of levels device_part
topic_of-levels5 g m e d t tp p h =
    let q : record { group_id = g; message_type = t; edge_node_id = e; device_id = some d } ≡ tp =
      ground (arith, h) in
    rw (← q, ← p) refl

bind-some :
    {A B : Type 0} (o : Option A) (f : A → Option B) (b : B)
    → Option.bind o f ≡ some b
    → (a : A) × (o ≡ some a) × (f a ≡ some b)
unfolding Option.bind
bind-some none f b h = cc
bind-some (some a) f b h = (a, refl, h)

parse_parts-levels : (l : List (List ℕ)) (tp : Topic) → parse_parts l ≡ some tp → l ≡ levels tp
unfolding parse_parts Option.bind
parse_parts-levels (n ∷ g ∷ m ∷ e ∷ []) tp h =
    let p : same_text n namespace ≡ true = ground (arith, h) in
    let q : Option.bind (message_type m) (topic_of g e none) ≡ some tp = ground (arith, h, p) in
    let (t, v, w) = bind-some (message_type m) (topic_of g e none) tp q in
    ap (λ x. x ∷ g ∷ m ∷ e ∷ []) (same_text_eq n namespace p)
    ∙ topic_of-levels4 g m e t tp (message_type-eq m t v) w
parse_parts-levels (n ∷ g ∷ m ∷ e ∷ d ∷ []) tp h =
    let p : same_text n namespace ≡ true = ground (arith, h) in
    let q : Option.bind (message_type m) (topic_of g e (some d)) ≡ some tp = ground (arith, h, p) in
    let (t, v, w) = bind-some (message_type m) (topic_of g e (some d)) tp q in
    ap (λ x. x ∷ g ∷ m ∷ e ∷ d ∷ []) (same_text_eq n namespace p)
    ∙ topic_of-levels5 g m e d t tp (message_type-eq m t v) w
parse_parts-levels _ tp h = cc

-- A topic that `parse_topic` accepts is, character by character, the levels of its result joined by
-- slashes: nothing of it is dropped or changed.
pub parse_topic-levels : (s : List ℕ) (tp : Topic) → parse_topic s ≡ some tp → s ≡ join (levels tp)
unfolding parse_topic
parse_topic-levels s tp h = sym (join-split s) ∙ ap join (parse_parts-levels (split s) tp h)
