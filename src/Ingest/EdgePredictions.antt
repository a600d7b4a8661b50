-- ===== src/Ingest/EdgePredictions.antt =====
-- apps/api/app/ingest/edge_predictions.py: `resolve_model` and `store_edge_prediction`, with
-- `_process_edge_prediction` of consumer.py and `asset_from_pred_topic` of packages/contracts. A text is
-- the list of its code points. The validated message is an argument, with its id as a parsed UUID, or
-- none where `uuid.UUID` raises; an exception leaves the tables as they were. What a row copies from
-- the message without a test on it is one value. The reason card and the latencies are not modelled.
pub mod Replay
use digital_twin.Prelude.{
  ℕ, Bool, true, false, Option, none, some, List, [], ◌∷◌, ◌++◌, ◌==◌, ◌&&◌, ◌||◌, not, is_empty,
  if◌then◌else◌,
}
use digital_twin.Contracts.Topic.{codes, same_text, split}

infixl 5 ◌>>=◌
-- the rest of a method runs only if a value was found
abbrev ◌>>=◌ : {A B : Type 0} → Option A → (A → Option B) → Option B
none >>= rest = none
some value >>= rest = rest value

pub record Message (V : Type 0) : Type 0 where
  pub id : Option ℕ
  pub asset_code : List ℕ
  pub time : ℕ
  pub model_version : List ℕ
  pub values : V
  pub attributions : Option (List V)

pub record Model : Type 0 where
  pub id : ℕ
  pub name : List ℕ
  pub version : List ℕ
  pub is_production : Bool
  pub asset_id : Option ℕ

pub record Prediction (V : Type 0) : Type 0 where
  pub id : ℕ
  pub time : ℕ
  pub asset_id : ℕ
  pub model_id : ℕ
  pub values : V

pub record Explanation (V : Type 0) : Type 0 where
  pub prediction_id : ℕ
  pub attributions : List V

-- the tables, and what was sent to Ditto and to the live channels
pub record State (V : Type 0) : Type 0 where
  pub predictions : List (Prediction V)
  pub explanations : List (Explanation V)
  pub sent : List (List ℕ × ℕ)

-- what the consumer and the registry of models know
pub record Known : Type 0 where
  pub models : List Model
  pub asset_map : List ℕ → Option ℕ

-- `asset_from_pred_topic`, on the parts of the topic
unfoldable pub asset_of_parts : List (List ℕ) → Option (List ℕ)
asset_of_parts (a ∷ b ∷ c ∷ []) =
    if same_text (a ++ b'/' ∷ b) (codes "twinvoice/pred") && not (is_empty c) then some c else none
asset_of_parts _ = none

unfoldable pub asset_from_pred_topic : List ℕ → Option (List ℕ)
unfolding asset_of_parts
asset_from_pred_topic topic = asset_of_parts (split topic)

-- `model_version.partition(":")`: what is before the first colon and what is after it
unfoldable pub partition : List ℕ → List ℕ × List ℕ
partition [] = ([], [])
partition (c ∷ s) = let rest = partition s in if c == b':' then ([], s) else (c ∷ rest.0, rest.1)

unfoldable pub get_by_name_version : List ℕ → List ℕ → List Model → Option Model
get_by_name_version name version [] = none
get_by_name_version name version (m ∷ l) =
    if same_text m.name name && same_text m.version version
    then some m
    else get_by_name_version name version l

unfoldable pub is_general : Option ℕ → Bool
is_general none = true
is_general (some a) = false

-- `production_model` without an asset
unfoldable pub production_model : List ℕ → List Model → Option Model
unfolding is_general
production_model name [] = none
production_model name (m ∷ l) =
    if same_text m.name name && (m.is_production && is_general m.asset_id)
    then some m
    else production_model name l

-- `resolve_model`
unfoldable pub resolve_model : List ℕ → List Model → Option Model
unfolding partition get_by_name_version production_model
resolve_model model_version models =
    if is_empty (partition model_version).1
    then production_model (partition model_version).0 models
    else get_by_name_version (partition model_version).0 (partition model_version).1 models

module _ {V : Type 0} where
  -- `message.asset_code != topic_asset`
  unfoldable pub is_from : Option (List ℕ) → Message V → Bool
  is_from none m = false
  is_from (some a) m = same_text m.asset_code a

  unfoldable pub identified : Known → Message V → Option (ℕ × ℕ × ℕ)
  unfolding resolve_model
  identified known m = do
    asset_id ← known.asset_map m.asset_code
    model ← resolve_model m.model_version known.models
    id ← m.id
    some (asset_id, model.id, id)

  -- the asset, the model and the id of a message that passes every check but the one for a repeat
  unfoldable pub accepted : Known → List ℕ → Message V → Option (ℕ × ℕ × ℕ)
  unfolding is_from asset_from_pred_topic identified
  accepted known topic m =
      if is_from (asset_from_pred_topic topic) m then identified known m else none

  -- is there a row with the id and the time?
  unfoldable pub exists : ℕ → ℕ → List (Prediction V) → Bool
  exists id time [] = false
  exists id time (p ∷ l) = ((p.id == id) && (p.time == time)) || exists id time l

  -- an explanation with attributions is stored
  unfoldable pub explained : ℕ → Option (List V) → List (Explanation V)
  explained id none = []
  explained id (some []) = []
  explained id (some (a ∷ l)) = record { prediction_id = id; attributions = a ∷ l } ∷ []

  -- `store_edge_prediction` after the model was found, and what is sent of it
  unfoldable pub stored : Message V → ℕ × ℕ × ℕ → State V → State V
  unfolding exists explained
  stored m (asset_id, model_id, id) s = if exists id m.time s.predictions then s else record {
    predictions =
        record {
          id = id;
          time = m.time;
          asset_id = asset_id;
          model_id = model_id;
          values = m.values;
        }
        ∷ s.predictions;
    explanations = explained id m.attributions ++ s.explanations;
    sent = s.sent ++ (m.asset_code, id) ∷ [];
  }

  unfoldable pub stored_if : Option (ℕ × ℕ × ℕ) → Message V → State V → State V
  unfolding stored
  stored_if none m s = s
  stored_if (some a) m s = stored m a s

  -- `_process_edge_prediction`
  unfoldable pub process : Known → List ℕ × Message V → State V → State V
  unfolding accepted stored_if
  process known (topic, m) s = stored_if (accepted known topic m) m s

  unfoldable pub run : Known → List (List ℕ × Message V) → State V → State V
  unfolding process
  run known [] s = s
  run known (d ∷ l) s = run known l (process known d s)
