-- ===== src/Tests/Edge.antt =====
-- The theorems on apps/edge at concrete inputs.
use digital_twin.Prelude.{
  ℕ, if◌then◌else◌, ◌+◌, Bool, true, false, not, none, some, List, [], ◌∷◌, ◌++◌, ◌==◌, ◌≡◌, refl,
  arith,
}
use text.Mathlib.Text.{◌==◌ as str_eq}
use digital_twin.Edge.Outbox.{Message, Row, Outbox, drain}
use digital_twin.Edge.Outbox.Drain.{deliver, drain-deliver}
use digital_twin.Edge.Outbox.Ordered.{IsOrdered}
use digital_twin.Edge.Runner.Threads.{
  State, start, Action, call, go_on, drain_on, connect, disconnect, run, ready, off,
}
use digital_twin.Edge.Runner.Threads.Backlog.{messages, backlog, held}
use digital_twin.Edge.Runner.Threads.Order.{predictions_in_order, IsStalled}
use digital_twin.Edge.Window.{FeatureSpec, Readings, carry, any_known, store, fresh}
use digital_twin.Edge.Window.Schedule.{adds, schedule, scores_on_schedule}

abbrev message : ℕ → Message
message n = record { topic = "predictions"; payload = n ∷ []; qos = 1 }

abbrev row : ℕ → Row
row n = record { id = n; message = message n; queued_at = 100 }

abbrev three_rows : Outbox
three_rows = record { rows = row 4 ∷ row 5 ∷ row 7 ∷ []; next_id = 8 }

three_rows-IsOrdered : IsOrdered three_rows
three_rows-IsOrdered = record { ids = (omega arith, (omega arith, (omega arith, omega arith))) }

-- the link takes two messages
abbrev takes_two : Message → ℕ → Bool × ℕ
takes_two m n = (not (n == 2), n + 1)

drain-deliver_example :
    drain takes_two 2 three_rows 0
    ≡ some (
      (deliver takes_two three_rows.rows 0).0,
      record three_rows { rows = (deliver takes_two three_rows.rows 0).1 },
      (deliver takes_two three_rows.rows 0).2,
    )
drain-deliver_example = drain-deliver takes_two 2 three_rows 0 (omega arith) three_rows-IsOrdered

-- the second call of the client is refused
abbrev accepts : ℕ → Bool
accepts n = not (n == 1)

abbrev schedule_of_threads : List Action
schedule_of_threads =
    call (message 1)
    ∷ go_on 10
    ∷ connect false
    ∷ drain_on
    ∷ drain_on
    ∷ call (message 2)
    ∷ go_on 11
    ∷ drain_on
    ∷ []

predictions_in_order_example :
    (run accepts 10 schedule_of_threads start).made
    ≡ (run accepts 10 schedule_of_threads start).link.wire
      ++ (messages (
            backlog
              (run accepts 10 schedule_of_threads start).drainer
              (run accepts 10 schedule_of_threads start).box.rows)
          ++ held (run accepts 10 schedule_of_threads start).publisher)
predictions_in_order_example = predictions_in_order accepts 10 schedule_of_threads

abbrev stalled : State
stalled = record {
  box = three_rows;
  link = record { has_client = true; connected = true; calls = 2; wire = message 1 ∷ [] };
  publisher = ready;
  drainer = off;
  waiting = 0;
  made = message 1 ∷ message 4 ∷ message 5 ∷ message 7 ∷ [];
}

stalled-IsStalled : IsStalled stalled
stalled-IsStalled = record {
  publisher = λ m q. cc;
  drainer = refl;
  waiting = refl;
  queued = omega arith;
}

abbrev quiet : List Action
quiet = call (message 8) ∷ go_on 12 ∷ drain_on ∷ connect true ∷ disconnect ∷ []

abbrev spec : FeatureSpec
spec = record { window_size = 2; stride = 2; sensor_cols = "temp" ∷ "load" ∷ [] }

abbrev temp_only : Readings ℕ
temp_only n = if str_eq n "temp" then some 7 else none

abbrev known_load : Readings ℕ
known_load n = if str_eq n "load" then some 3 else none

temp_known : any_known spec.sensor_cols (carry spec.sensor_cols temp_only (λ n. none)) ≡ true
unfolding any_known carry store
temp_known = refl

scores_on_schedule_example :
    adds 0 spec ((1, temp_only) ∷ (2, known_load) ∷ (3, temp_only) ∷ []) fresh
    ≡ schedule spec 0 ((1, temp_only) ∷ (2, known_load) ∷ (3, temp_only) ∷ [])
scores_on_schedule_example =
    scores_on_schedule 0 spec (omega arith) 1 temp_only ((2, known_load) ∷ (3, temp_only) ∷ [])
      temp_known
