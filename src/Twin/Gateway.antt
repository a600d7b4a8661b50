-- ===== src/Twin/Gateway.antt =====
-- apps/api/app/modules/twin/commands.py: `CommandGateway`. Any number of requests run `execute`, each
-- on its own thread, while the MQTT client's thread runs the callbacks. A step is what a thread does
-- between two points at which another may come in, and a run is a list of steps. Call number k of
-- `execute` has the `_Pending` object number k and the id `uuid k`; the stand-in for `uuid4` need not
-- be injective, unless a theorem says so. The MQTT client is a parameter only through what it
-- answers: whether a connect failed, whether `publish` gave success. An event that is set wakes its
-- waiter by the step `read`, which stands for the end of the wait by a timeout as well.
pub mod Acks
pub mod Answers
use digital_twin.Prelude.{
  ℕ, String, Bool, true, false, not, Option, none, some, List, [], ◌∷◌, ◌++◌, ◌==◌, if◌then◌else◌,
}

-- a parsed ack: the text of its `command_id` by number, and its status
pub record Ack : Type 0 where
  pub command_id : ℕ
  pub status : String

-- where a call of `execute` is
pub data Phase : Type 0 where
  idle registered waiting refused : Phase
  returning returned : Option Ack → Phase

-- where `_on_message` is: between two messages, or between its lookup and its assignment
pub data Callback : Type 0 where
  free : Callback
  holding : ℕ → Ack → Callback

pub record State : Type 0 where
  pub connected : Bool
  pub pending : List (ℕ × ℕ)
  pub acks : ℕ → Option Ack
  pub calls : ℕ → Phase
  pub callback : Callback
  pub sent : List ℕ

pub data Action : Type 0 where
  begin read finish : ℕ → Action
  publish : ℕ → Bool → Action
  message : Option Ack → Action
  deliver : Action
  connect : Bool → Action
  disconnect : Action

unfoldable pub at : {A : Type 0} → ℕ → A → (ℕ → A) → ℕ → A
at k v f j = if k == j then v else f j

-- self._pending.get(id)
unfoldable pub lookup : ℕ → List (ℕ × ℕ) → Option ℕ
lookup c [] = none
lookup c ((i, k) ∷ l) = if i == c then some k else lookup c l

-- self._pending.pop(id, None)
unfoldable pub remove : ℕ → List (ℕ × ℕ) → List (ℕ × ℕ)
remove c [] = []
remove c ((i, k) ∷ l) = let rest = remove c l in if i == c then rest else (i, k) ∷ rest

-- self._pending[id] = pending
unfoldable pub insert : ℕ → ℕ → List (ℕ × ℕ) → List (ℕ × ℕ)
unfolding remove
insert c k l = (c, k) ∷ remove c l

module _ (uuid : ℕ → ℕ) where
  -- the check of the connection, the new object and its entry
  unfoldable pub begin_from : Phase → ℕ → State → State
  unfolding at insert
  begin_from idle k s =
      if s.connected
      then record s {
        pending = insert (uuid k) k s.pending;
        acks = at k none s.acks;
        calls = at k registered s.calls;
      }
      else record s { calls = at k refused s.calls }
  begin_from _ k s = s

  -- a publish that fails raises, and the entry is removed on the way out
  unfoldable pub publish_from : Phase → ℕ → Bool → State → State
  unfolding at remove
  publish_from registered k true s = record s {
    calls = at k waiting s.calls;
    sent = s.sent ++ uuid k ∷ [];
  }
  publish_from registered k false s = record s {
    calls = at k refused s.calls;
    pending = remove (uuid k) s.pending;
  }
  publish_from _ k success s = s

  -- the end of the wait, and the value of `pending.ack`
  unfoldable pub read_from : Phase → ℕ → State → State
  unfolding at
  read_from waiting k s = record s { calls = at k (returning (s.acks k)) s.calls }
  read_from _ k s = s

  -- the `finally` of the call
  unfoldable pub finish_from : Phase → ℕ → State → State
  unfolding at remove
  finish_from (returning a) k s = record s {
    calls = at k (returned a) s.calls;
    pending = remove (uuid k) s.pending;
  }
  finish_from _ k s = s

  -- `_on_message` up to its lookup; a malformed message is dropped
  unfoldable pub message_from : Callback → Option Ack → State → State
  unfolding lookup
  message_from free (some a) s = elim (lookup a.command_id s.pending) [
    | none ↦ s
    | some k ↦ record s { callback = holding k a }
  ]
  message_from _ a s = s

  -- `pending.ack = ack`
  unfoldable pub deliver_from : Callback → State → State
  unfolding at
  deliver_from (holding k a) s = record s { acks = at k (some a) s.acks; callback = free }
  deliver_from free s = s

  unfoldable pub step : Action → State → State
  unfolding begin_from publish_from read_from finish_from message_from deliver_from
  step (begin k) s = begin_from (s.calls k) k s
  step (publish k success) s = publish_from (s.calls k) k success s
  step (read k) s = read_from (s.calls k) k s
  step (finish k) s = finish_from (s.calls k) k s
  step (message a) s = message_from s.callback a s
  step deliver s = deliver_from s.callback s
  step (connect failure) s = if failure then s else record s { connected = true }
  step disconnect s = record s { connected = false }

  unfoldable pub run : List Action → State → State
  unfolding step
  run [] s = s
  run (a ∷ l) s = run l (step a s)

unfoldable pub start : State
start = record {
  connected = false;
  pending = [];
  acks = λ k. none;
  calls = λ k. idle;
  callback = free;
  sent = [];
}
