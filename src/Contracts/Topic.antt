-- ===== src/Contracts/Topic.antt =====
-- packages/contracts/src/twinvoice_contracts/sparkplug/codec.py: topics. A text is the list of its
-- code points, and a `ValueError` is `none`.
pub mod RoundTrip
pub mod Shape
use mathlib.Core.Option
use Prim.Native.Char.{code}
use digital_twin.Prelude.{
  ℕ, String, Bool, true, false, not, Option, none, some, List, [], ◌∷◌, ◌++◌, ◌==◌, ◌&&◌, ◌||◌,
  is_empty, if◌then◌else◌,
}

-- the code points of a literal
abbrev pub codes : String → List ℕ
codes String.[] = []
codes (String.◌∷◌ c s) = code c ∷ codes s

pub data MessageType : Type 0 where
  nbirth ndeath ndata ncmd dbirth ddeath ddata dcmd : MessageType

abbrev pub value_of : MessageType → List ℕ
value_of nbirth = codes "NBIRTH"
value_of ndeath = codes "NDEATH"
value_of ndata = codes "NDATA"
value_of ncmd = codes "NCMD"
value_of dbirth = codes "DBIRTH"
value_of ddeath = codes "DDEATH"
value_of ddata = codes "DDATA"
value_of dcmd = codes "DCMD"

abbrev pub namespace : List ℕ
namespace = codes "spBv1.0"

-- `self.value.startswith("D")`
abbrev pub starts_with_d : List ℕ → Bool
starts_with_d [] = false
starts_with_d (c ∷ s) = c == b'D'

abbrev pub is_device : MessageType → Bool
is_device t = starts_with_d (value_of t)

unfoldable pub same_text : List ℕ → List ℕ → Bool
same_text [] [] = true
same_text (a ∷ s) (b ∷ t) = (a == b) && same_text s t
same_text _ _ = false

abbrev pub all_types : List MessageType
all_types = nbirth ∷ ndeath ∷ ndata ∷ ncmd ∷ dbirth ∷ ddeath ∷ ddata ∷ dcmd ∷ []

unfoldable pub with_value : List ℕ → List MessageType → Option MessageType
unfolding same_text
with_value s [] = none
with_value s (t ∷ ts) = if same_text (value_of t) s then some t else with_value s ts

-- `MessageType(s)`
unfoldable pub message_type : List ℕ → Option MessageType
unfolding with_value
message_type s = with_value s all_types

pub record Topic : Type 0 where
  pub group_id : List ℕ
  pub message_type : MessageType
  pub edge_node_id : List ℕ
  pub device_id : Option (List ℕ)

-- any(c in value for c in "/+#")
unfoldable pub has_special : List ℕ → Bool
has_special [] = false
has_special (c ∷ s) = ((c == b'/') || ((c == b'+') || (c == b'#'))) || has_special s

-- `_check_id` raises where this is false
unfoldable pub is_valid_id : List ℕ → Bool
unfolding has_special
is_valid_id s = not (is_empty s || has_special s)

-- `"/".join(parts)`
unfoldable pub join : List (List ℕ) → List ℕ
join [] = []
join (s ∷ []) = s
join (s ∷ t ∷ l) = s ++ b'/' ∷ join (t ∷ l)

unfoldable pub with_device : Bool → List (List ℕ) → Option (List ℕ) → Option (List ℕ)
with_device false parts none = some (join parts)
with_device true parts (some d) = if is_valid_id d then some (join (parts ++ d ∷ [])) else none
with_device _ parts device = none

-- `build_topic`
unfoldable pub build_topic : List ℕ → MessageType → List ℕ → Option (List ℕ) → Option (List ℕ)
unfolding with_device
build_topic group_id t edge_node_id device_id =
    if is_valid_id group_id && is_valid_id edge_node_id
    then with_device (is_device t) (namespace ∷ group_id ∷ value_of t ∷ edge_node_id ∷ []) device_id
    else none

unfoldable pub add_to_head : ℕ → List (List ℕ) → List (List ℕ)
add_to_head c [] = (c ∷ []) ∷ []
add_to_head c (s ∷ l) = (c ∷ s) ∷ l

-- `topic.split("/")`
unfoldable pub split : List ℕ → List (List ℕ)
unfolding add_to_head
split [] = [] ∷ []
split (c ∷ s) = let rest = split s in if c == b'/' then [] ∷ rest else add_to_head c rest

-- `mt.is_device != (device is not None) or not all(parts[1:])`
unfoldable pub topic_of : List ℕ → List ℕ → Option (List ℕ) → MessageType → Option Topic
topic_of group_id edge_node_id none t =
    if is_device t || (is_empty group_id || is_empty edge_node_id)
    then none
    else some (record {
      group_id = group_id;
      message_type = t;
      edge_node_id = edge_node_id;
      device_id = none;
    })
topic_of group_id edge_node_id (some d) t =
    if not (is_device t) || (is_empty group_id || (is_empty edge_node_id || is_empty d))
    then none
    else some (record {
      group_id = group_id;
      message_type = t;
      edge_node_id = edge_node_id;
      device_id = some d;
    })

unfoldable pub parse_parts : List (List ℕ) → Option Topic
unfolding topic_of
parse_parts (n ∷ g ∷ t ∷ e ∷ []) =
    if same_text n namespace then Option.bind (message_type t) (topic_of g e none) else none
parse_parts (n ∷ g ∷ t ∷ e ∷ d ∷ []) =
    if same_text n namespace then Option.bind (message_type t) (topic_of g e (some d)) else none
parse_parts _ = none

-- `parse_topic`
unfoldable pub parse_topic : List ℕ → Option Topic
unfolding parse_parts
parse_topic topic = parse_parts (split topic)
