-- ===== src/Simulator/EdgeNode.antt =====
-- apps/simulator/sim/publisher.py: `build_metrics` and `SparkplugEdgeNode`. The MQTT client is not
-- part of the repository: `wire` holds what `publish` was called with, in order, and `will` the bdSeq
-- of the payload that `will_set` was last called with. A payload stands for its encoded form; whether
-- metrics can be encoded is a parameter, `encodes`, and an exception ends the call. The node's
-- metrics of an NBIRTH are its bdSeq. `stop` is left out.
pub mod Session
pub mod Traffic
use text.Mathlib.Text.{◌==◌ as str_eq}
use digital_twin.Prelude.{
  ℕ, ◌+◌, ◌-◌, ◌%◌, String, Bool, true, false, not, Option, none, some, List, [], ◌∷◌, ◌++◌, ◌||◌,
  ◌&&◌, if◌then◌else◌,
}

pub record MetricDef : Type 0 where
  pub name : String
  pub datatype : ℕ
  pub unit : String

-- a jitter in milliseconds, which may be negative; a timestamp is far above it
pub data Jitter : Type 0 where
  late early : ℕ → Jitter

-- `V` is the type of a metric's value; a key that is missing reads as `None`
pub record Reading (V : Type 0) : Type 0 where
  pub values : String → Option V
  pub jitter_ms : String → Option Jitter

pub record Metric (V : Type 0) : Type 0 where
  pub name : String
  pub datatype : ℕ
  pub value : Option V
  pub timestamp : ℕ
  pub eng_unit : Option String
  pub quality : Option ℕ

pub data Message (V : Type 0) : Type 0 where
  nbirth ndeath : ℕ → Message V
  dbirth ddata : String → List (Metric V) → ℕ → Message V

pub record Node (V : Type 0) : Type 0 where
  pub defs : List (String × List MetricDef)
  pub last : List (String × Reading V)
  pub born : List String
  pub bd_seq : ℕ
  pub seq : ℕ
  pub will : ℕ
  pub wire : List (Message V)

shifted : ℕ → Option Jitter → ℕ
shifted ts none = ts
shifted ts (some (late n)) = ts + n
shifted ts (some (early n)) = ts - n

-- an empty unit is not sent
unit_if : Bool → String → Option String
unit_if birth u = if birth && not (str_eq u "") then some u else none

module _ {V : Type 0} where
  quality_of : Bool → Option V → Option ℕ
  quality_of birth none = some 0
  quality_of true (some v) = some 192
  quality_of false (some v) = none

  pub build_metrics : List MetricDef → Reading V → ℕ → Bool → List (Metric V)
  unfolding shifted unit_if quality_of
  build_metrics [] r ts birth = []
  build_metrics (d ∷ ds) r ts birth =
      record {
        name = d.name;
        datatype = d.datatype;
        value = r.values d.name;
        timestamp = shifted ts (r.jitter_ms d.name);
        eng_unit = unit_if birth d.unit;
        quality = quality_of birth (r.values d.name);
      }
      ∷ build_metrics ds r ts birth

abbrev pub has : String → List String → Bool
has d [] = false
has d (x ∷ xs) = str_eq x d || has d xs

-- a dict, in the order in which its keys came
module _ {A : Type 0} where
  pub lookup : String → List (String × A) → Option A
  lookup k [] = none
  lookup k ((j, x) ∷ m) = if str_eq j k then some x else lookup k m

  pub put : String → A → List (String × A) → List (String × A)
  put k x [] = (k, x) ∷ []
  put k x ((j, y) ∷ m) = if str_eq j k then (j, x) ∷ m else (j, y) ∷ put k x m

  pub keys : List (String × A) → List String
  keys [] = []
  keys ((k, x) ∷ m) = k ∷ keys m

pub next_seq : ℕ → ℕ
next_seq s = (s + 1) % 256

module _ {V : Type 0} where
  pub new_node : Node V
  new_node = record { defs = []; last = []; born = []; bd_seq = 0; seq = 0; will = 0; wire = [] }

  pub add_device : String → List MetricDef → Node V → Node V
  add_device device ds n = record n { defs = put device ds n.defs }

  -- the first statement of `publish_device`
  pub remember : String → Reading V → Node V → Node V
  remember device r n = record n { last = put device r n.last }

module _ {V : Type 0} (encodes : List (Metric V) → Bool) where
  -- the node, and whether nothing was raised: a KeyError leaves the node as it was, and an encoding
  -- that fails has taken its number
  birth_with : String → ℕ → Option (List MetricDef) → Option (Reading V) → Node V → Node V × Bool
  unfolding next_seq
  birth_with device now (some ds) (some r) n =
      if encodes (build_metrics ds r now true)
      then (
        record n {
          seq = next_seq n.seq;
          wire = n.wire ++ dbirth device (build_metrics ds r now true) (next_seq n.seq) ∷ [];
          born = device ∷ n.born;
        },
        true,
      )
      else (record n { seq = next_seq n.seq }, false)
  birth_with device now _ _ n = (n, false)

  pub publish_dbirth : String → ℕ → Node V → Node V × Bool
  unfolding birth_with
  publish_dbirth device now n =
      birth_with device now (lookup device n.defs) (lookup device n.last) n

  data_with : String → Reading V → ℕ → Option (List MetricDef) → Node V → Node V
  data_with device r now none n = n
  data_with device r now (some ds) n =
      if encodes (build_metrics ds r now false)
      then record n {
        seq = next_seq n.seq;
        wire = n.wire ++ ddata device (build_metrics ds r now false) (next_seq n.seq) ∷ [];
      }
      else record n { seq = next_seq n.seq }

  -- what `publish_device` does under the lock, when the client was connected
  pub publish_locked : String → Reading V → ℕ → Node V → Node V
  unfolding data_with
  publish_locked device r now n =
      if has device n.born
      then data_with device r now (lookup device n.defs) n
      else (publish_dbirth device now n).0

  -- the loop of `rebirth`; an exception ends it
  pub publish_births : List String → ℕ → Node V → Node V
  publish_births [] now n = n
  publish_births (d ∷ ds) now n =
      let (n', went_well) = publish_dbirth d now n in
      let rest = publish_births ds now n' in if went_well then rest else n'

  pub rebirth : ℕ → Node V → Node V
  rebirth now n =
      publish_births (keys n.last) now
        (record n { seq = 0; wire = n.wire ++ nbirth n.bd_seq ∷ []; born = [] })

  pub on_connect : Bool → ℕ → Node V → Node V
  on_connect is_failure now n = if is_failure then n else rebirth now n

  -- an NCMD, as whether one of its metrics asks for a rebirth
  pub on_message : Bool → ℕ → Node V → Node V
  on_message asks now n = if asks then rebirth now n else n

module _ {V : Type 0} where
  pub on_disconnect : Node V → Node V
  on_disconnect n = let bd = next_seq n.bd_seq in record n { born = []; bd_seq = bd; will = bd }
