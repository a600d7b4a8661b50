-- ===== src/Edge/Runner.antt =====
-- apps/edge/edge/runner.py: how `EdgeRunner` publishes. paho-mqtt is not under the repository: the
-- outcome of the n-th call of `client.publish` is the parameter `accepts n`, true for
-- MQTT_ERR_SUCCESS. `wire` records, in order, the messages that the client took.
pub mod Threads
use digital_twin.Prelude.{
  ℕ, ◌+◌, Bool, true, false, Option, none, some, List, [], ◌∷◌, ◌++◌, ◌==◌, ◌&&◌, if◌then◌else◌,
}
use digital_twin.Edge.Outbox
use digital_twin.Edge.Outbox.{Message, Outbox, enqueue, pending}

-- `self.client`, `self.connected` and what the client has seen
pub record Link : Type 0 where
  pub has_client : Bool
  pub connected : Bool
  pub calls : ℕ
  pub wire : List Message

pub record Runner : Type 0 where
  pub outbox : Outbox
  pub link : Link

abbrev pub offline : Runner
offline = record {
  outbox = Outbox.empty;
  link = record { has_client = true; connected = false; calls = 0; wire = [] };
}

module _ (accepts : ℕ → Bool) where
  -- `_send`
  unfoldable pub send : Message → Link → Bool × Link
  send m link =
      if link.has_client && link.connected
      then (
        accepts link.calls,
        record link {
          calls = link.calls + 1;
          wire = if accepts link.calls then link.wire ++ m ∷ [] else link.wire;
        },
      )
      else (false, link)

  queue : Message → ℕ → Runner → Bool × Runner
  queue m now r = (false, record r { outbox = enqueue m now r.outbox })

  -- `publish`: the queue is tried only if nothing waits in it already
  unfoldable pub publish : Message → ℕ → Runner → Bool × Runner
  unfolding queue
  publish m now r =
      if pending r.outbox == 0
      then (let (ok, link) = send m r.link in
          if ok then (true, record r { link = link }) else queue m now (record r { link = link }))
      else queue m now r

  -- `drain`, with the batch size that `StoreAndForward.drain` has by default
  unfoldable pub drain : Runner → Option (ℕ × Runner)
  drain r = elim (Outbox.drain send 100 r.outbox r.link) [
    | none ↦ none
    | some (sent, box, link) ↦ some (sent, record { outbox = box; link = link })
  ]

-- `on_connect`: the drain that it starts is a thread of its own
unfoldable pub on_connect : Bool → Link → Link
on_connect is_failure link = if is_failure then link else record link { connected = true }

unfoldable pub on_disconnect : Link → Link
on_disconnect link = record link { connected = false }
