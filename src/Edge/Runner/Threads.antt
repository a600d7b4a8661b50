-- ===== src/Edge/Runner/Threads.antt =====
-- apps/edge/edge/runner.py and buffer.py as threads. paho's network thread runs `on_message`, and so
-- `publish`, and the connection callbacks; each `on_connect` starts a thread that runs `drain` under
-- `_drain_lock`. One action of a schedule is one atomic statement of a thread: a query or a statement
-- on the table, or one call of the client. An action that is not possible changes nothing.
pub mod Backlog
mod Invariant
pub mod Order
use digital_twin.Prelude.{
  ℕ, zero, suc, ◌+◌, Bool, true, false, List, [], ◌∷◌, ◌++◌, map, ◌==◌, if◌then◌else◌,
}
use digital_twin.Edge.Outbox
use digital_twin.Edge.Outbox.{Message, Row, Outbox, enqueue, pending, oldest, delete}
use digital_twin.Edge.Runner.{Link, send, on_connect, on_disconnect}

-- where the network thread stands in `publish`
pub data Publisher : Type 0 where
  ready : Publisher
  -- `pending() == 0` was true: `_send` is next
  to_send : Message → Publisher
  -- `enqueue` is next
  to_queue : Message → Publisher

-- where the thread that holds `_drain_lock` stands in `StoreAndForward.drain`
pub data Drainer : Type 0 where
  off : Drainer
  -- the SELECT is next
  fetching : Drainer
  -- the rest of the batch is still to be published
  sending : List Row → Drainer
  -- the row went out and its DELETE is next
  deleting : Row → List Row → Drainer

pub record State : Type 0 where
  pub box : Outbox
  pub link : Link
  pub publisher : Publisher
  pub drainer : Drainer
  -- threads that wait for `_drain_lock`
  pub waiting : ℕ
  -- every message that `publish` was called with, in order
  pub made : List Message

abbrev pub start : State
start = record {
  box = Outbox.empty;
  link = record { has_client = true; connected = false; calls = 0; wire = [] };
  publisher = ready;
  drainer = off;
  waiting = 0;
  made = [];
}

pub data Action : Type 0 where
  -- `publish` is called, and reads `pending()`
  call : Message → Action
  -- the network thread goes on; the number is `time.time()`
  go_on : ℕ → Action
  -- the drain thread goes on, or the next one takes the lock
  drain_on : Action
  connect : Bool → Action
  disconnect : Action

module _ (accepts : ℕ → Bool) (batch : ℕ) where
  publisher_step : Publisher → ℕ → State → State
  publisher_step ready now s = s
  publisher_step (to_send m) now s =
      let (ok, link) = send accepts m s.link in
      record s { link = link; publisher = if ok then ready else to_queue m }
  publisher_step (to_queue m) now s = record s { box = enqueue m now s.box; publisher = ready }

  call_step : Publisher → Message → State → State
  call_step ready m s = record s {
    publisher = if pending s.box == 0 then to_send m else to_queue m;
    made = s.made ++ m ∷ [];
  }
  call_step _ m s = s

  take_lock : ℕ → State → State
  take_lock zero s = s
  take_lock (suc n) s = record s { drainer = fetching; waiting = n }

  fetched : List Row → Drainer
  fetched [] = off
  fetched (r ∷ rs) = sending (r ∷ rs)

  drainer_step : Drainer → State → State
  drainer_step off s = take_lock s.waiting s
  drainer_step fetching s = record s { drainer = fetched (oldest batch s.box) }
  drainer_step (sending []) s = record s { drainer = fetching }
  drainer_step (sending (r ∷ rs)) s =
      let (ok, link) = send accepts r.message s.link in
      record s { link = link; drainer = if ok then deleting r rs else off }
  drainer_step (deleting r rs) s = record s { box = delete r.id s.box; drainer = sending rs }

  pub step : Action → State → State
  unfolding publisher_step call_step take_lock fetched drainer_step
  step (call m) s = call_step s.publisher m s
  step (go_on now) s = publisher_step s.publisher now s
  step drain_on s = drainer_step s.drainer s
  step (connect is_failure) s = record s {
    link = on_connect is_failure s.link;
    waiting = if is_failure then s.waiting else s.waiting + 1;
  }
  step disconnect s = record s { link = on_disconnect s.link }

  pub run : List Action → State → State
  run [] s = s
  run (a ∷ as') s = run as' (step a s)
