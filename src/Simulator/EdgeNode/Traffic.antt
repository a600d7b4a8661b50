-- ===== src/Simulator/EdgeNode/Traffic.antt =====
-- A host of an edge node, and the runs of the node's threads.
use digital_twin.Prelude.{
  ℕ, ◌+◌, ◌%◌, String, Bool, true, false, Option, none, some, List, [], ◌∷◌, ◌++◌, ◌==◌, ◌&&◌, ◌≡◌,
  refl, arith, if◌then◌else◌,
}
use digital_twin.Simulator.EdgeNode.{
  Reading, Metric, Message, nbirth, ndeath, dbirth, ddata, Node, MetricDef, has, add_device,
  remember, publish_locked, on_connect, on_disconnect, on_message,
}

-- A host that follows the Sparkplug rules. It waits for the NBIRTH of a session, and from there on it
-- keeps the devices it knows, the sequence number of the last message and the bdSeq of the NBIRTH.
pub data Host : Type 0 where
  waiting : Host
  following : List String → ℕ → ℕ → Host

module _ {V : Type 0} where
  -- none is a message that breaks the rules: each number follows the last one, an NBIRTH starts again
  -- from 0 without devices, data come only from a device that is known, and an NDEATH has the bdSeq of
  -- the NBIRTH. A host that waits ignores all messages but an NBIRTH.
  unfoldable pub hear : Message V → Host → Option Host
  hear (nbirth bd) h = some (following [] 0 bd)
  hear (ndeath bd) waiting = some waiting
  hear (ndeath bd) (following alive seq b) = if bd == b then some waiting else none
  hear (dbirth device metrics s) waiting = some waiting
  hear (dbirth device metrics s) (following alive seq bd) =
      if s == (seq + 1) % 256 then some (following (device ∷ alive) s bd) else none
  hear (ddata device metrics s) waiting = some waiting
  hear (ddata device metrics s) (following alive seq bd) =
      if (s == (seq + 1) % 256) && has device alive then some (following alive s bd) else none

  unfoldable pub hear_if : Option Host → Message V → Option Host
  hear_if none m = none
  hear_if (some h) m = hear m h

  unfoldable pub hear_all : Option Host → List (Message V) → Option Host
  unfolding hear_if
  hear_all o [] = o
  hear_all o (m ∷ ms) = hear_all (hear_if o m) ms

  pub hear_all-append :
      (o : Option Host) (ms : List (Message V)) (m : Message V)
      → hear_all o (ms ++ m ∷ []) ≡ hear_if (hear_all o ms) m
  unfolding hear_all
  hear_all-append o [] m = refl
  hear_all-append o (x ∷ ms) m = hear_all-append (hear_if o x) ms m

pub self_eq : (n : ℕ) → n == n ≡ true
self_eq n = ground arith

pub has-cons :
    (x d : String) (l k : List String)
    → (has d l ≡ true → has d k ≡ true)
    → has d (x ∷ l) ≡ true
    → has d (x ∷ k) ≡ true
has-cons x d l k f h = ground (arith, f)

-- One atomic step of the node's threads: the simulation's, which remembers a reading and then, if the
-- client was connected, publishes under the lock, and the callbacks of paho's.
pub data Action (V : Type 0) : Type 0 where
  adding : String → List MetricDef → Action V
  reading publishing : String → Reading V → Action V
  connected : Bool → Action V
  disconnected : Action V
  asked : Bool → Action V

-- Is the host in a session, after a step: was there an NBIRTH since the last session ended?
unfoldable pub in_session : {V : Type 0} → Action V → Bool → Bool
in_session (connected is_failure) b = if is_failure then b else true
in_session (asked rebirth_asked) b = if rebirth_asked then true else b
in_session disconnected b = false
in_session _ b = b

unfoldable pub in_session_after : {V : Type 0} → List (Action V × ℕ) → Bool → Bool
in_session_after [] b = b
in_session_after ((a, now) ∷ l) b = in_session_after l (in_session a b)

-- the broker publishes the will of a session that ends
unfoldable pub publish_will : {V : Type 0} → Node V → Node V
publish_will n = record n { wire = n.wire ++ ndeath n.will ∷ [] }

module _ {V : Type 0} (encodes : List (Metric V) → Bool) where
  -- the number is the time of the step
  unfoldable pub step : Action V × ℕ → Node V → Node V
  step (adding device ds, now) n = add_device device ds n
  step (reading device r, now) n = remember device r n
  step (publishing device r, now) n = publish_locked encodes device r now n
  step (connected is_failure, now) n = on_connect encodes is_failure now n
  step (disconnected, now) n = on_disconnect (publish_will n)
  step (asked rebirth_asked, now) n = on_message encodes rebirth_asked now n

  unfoldable pub run : List (Action V × ℕ) → Node V → Node V
  run [] n = n
  run (a ∷ l) n = run l (step a n)
