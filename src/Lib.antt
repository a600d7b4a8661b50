-- ===== src/Lib.antt =====
-- The Digital Twin platform: machines of a plant (or their simulator) publish Sparkplug B messages
-- over MQTT; an edge runner scores them and queues its predictions while the broker is away; the
-- API's ingest consumer writes telemetry, production, energy and state rows, and raises alarms, on
-- which operators act; commands go back to the machines through a gateway that waits for their
-- acks; KPIs are computed from the state events; a voice assistant reads commands back before it
-- runs them; work orders plan and close the maintenance; a registry keeps the assets in step with
-- their twins in Eclipse Ditto. This library models the parts of the Python code below and proves
-- what makes them correct. A definition carries the name of the function it translates.
--
-- Parts, and the files that model them:
--   apps/edge/edge/buffer.py: Edge/Outbox.antt. The SQLite table is the list of its rows with the
--     next id. Edge/Outbox/Ordered.antt is about the order of the ids, Edge/Outbox/Drain.antt
--     compares `drain` with its contract.
--   apps/edge/edge/runner.py: Edge/Runner.antt has the publishing methods, which use the outbox;
--     Edge/Runner/Threads.antt cuts them into the atomic statements of the network thread and the
--     drain threads, and runs any schedule of them. Threads/Backlog.antt and Threads/Invariant.antt
--     carry the invariant.
--   apps/edge/edge/features.py: Edge/Window.antt, `RollingWindow.add`.
--   packages/contracts/src/twinvoice_contracts/sparkplug/codec.py: Contracts/Wire.antt has the
--     datatypes and the form of a value on the wire, Contracts/Payload.antt metrics and payloads,
--     Contracts/Topic.antt topics; the modules below them prove the round trips.
--   apps/api/app/modules/twin/commands.py: Twin/Gateway.antt, the command gateway cut into the
--     steps of the requests' threads and of the MQTT client's thread. Gateway/Acks.antt has its
--     invariant, Gateway/Answers.antt what becomes of an ack.
--   apps/simulator/sim/machines/base.py: Simulator/Machine.antt has the step of a machine,
--     Machine/Service.antt what is done to it, as events. Failures.antt, Load.antt and Repair.antt
--     below it prove what their names say. Its processes of wear are an interface, which
--     Simulator/Wear.antt fills with the Gamma and Wiener processes of physics.
--   apps/simulator/sim/commands.py, engine.py: Simulator/Commands.antt, the commands to the
--     machines and their acks; Commands/Answer.antt and Commands/Safety.antt.
--   apps/simulator/sim/shifts.py: Simulator/Shifts.antt, the calendar of the shifts;
--     Shifts/Follow.antt has `_shift_changes` of engine.py, Shifts/Edges.antt and
--     Shifts/Constant.antt the lemmas.
--   apps/simulator/sim/noise.py: Simulator/Sensors.antt. Simulator/Clamp.antt has Python's min and
--     max.
--   apps/api/app/ingest/edge_predictions.py: Ingest/EdgePredictions.antt, which reads topics with
--     the split of Contracts/Topic.antt.
--   apps/api/app/ingest/alarm_engine.py: Ingest/AlarmEngine.antt, with the Valkey list of a rule.
--   apps/api/app/ingest/consumer.py: Ingest/Counters.antt has `_counter_delta`,
--     Ingest/Consumer.antt the consumer's state, its buffers under their lock and the asset-level
--     facts, and Ingest/Consumer/Message.antt `_process_message`, which calls the alarm engine and
--     raises alarms.
--   apps/api/app/modules/telemetry: Telemetry/Alarms.antt, the alarm rows and the actions on them.
--   apps/simulator/sim/publisher.py: Simulator/EdgeNode.antt, one edge node; EdgeNode/Traffic.antt
--     runs its threads' steps in any order and listens to its messages as a host,
--     EdgeNode/Session.antt has the invariant.
--   apps/api/app/modules/analytics/oee.py: Analytics/Oee.antt.
--   apps/api/app/modules/voice, packages/nlu/src/twinvoice_nlu/tiers.py: Voice/Validation.antt has
--     `_validate`, Voice/Actions.antt the rest; Actions/Once.antt runs sequences of requests.
--   packages/nlu/src/twinvoice_nlu/slots.py, fuzzy.py: Nlu/Words.antt has `parse_asset`,
--     Nlu/Times.antt `parse_datetime`, Nlu/Fuzzy.antt `rank` and `resolve`.
--   apps/api/app/modules/pdm: Pdm/Registry.antt, the registration and promotion of models, and
--     Pdm/Sampling.antt, the query for predictions; Registry/Resolve.antt joins the registry with
--     the lookup of Ingest/EdgePredictions.antt.
--   apps/api/app/modules/assets: Assets/Tables.antt has the rows, Assets/Structure.antt their
--     components and sensors, Assets/Service.antt the creation, update and retirement of assets and
--     the addition of a component, which call Assets/Sync.antt, `TwinSyncService` of
--     modules/twin/service.py; Assets/Codes.antt and Assets/InStep.antt carry the invariants.
--   apps/api/app/modules/twin/service.py, core/security.py: Twin/Actuation.antt, `send_command` and
--     the second factor.
--   apps/api/app/modules/maintenance: Maintenance/WorkOrders.antt has `update_order` and
--     `close_order` of service.py, Maintenance/Conflicts.antt `conflicts` of optimiser.py,
--     Maintenance/Availability.antt the slots and the technicians' calendars,
--     Maintenance/Solver.antt `solve` but for the solver itself, Maintenance/Schedule.antt the
--     schedules with `optimise` and `patch_item`; Schedule/Moves.antt, Schedule/Horizon.antt and
--     Schedule/Active.antt carry the invariants.
--   apps/api/app/core/errors.py: Prelude/Result.antt, the result of a method that may raise.
-- Prelude.antt passes on the library names that all modules share; Tests.antt and its children hold
-- concrete inputs.
--
-- Conventions. Numbers are natural numbers; times are microseconds, but seconds in the alarm
-- engine's history and milliseconds in Sparkplug payloads. Floating-point numbers are a type with
-- operations and no laws (Prelude/Floats.antt); the few comparisons of constants that a theorem
-- needs are its hypotheses, and where sums matter, floats are whole numbers. Third-party code is a
-- parameter: the broker client by the outcomes of its calls, the database by rows in lists,
-- Python's conversions by functions. The only fuel is that of `drain_loop`, one more than there are
-- rows: each round deletes a row or stops. Sequence numbers wrap at 256, as in the code. Requests
-- to the voice service are answered one after the other; two at the same time are not modelled.
--
-- Not modelled: `RollingWindow.vector`, inference and explanation, which call numeric libraries;
-- connection set-up, subscriptions and Valkey publishing, which are I/O; `stop` of the edge node;
-- the voice tools, whose ending is an argument; the third-party solver of the schedules, whose
-- answer is an argument; what-if runs and the tree of the twin; clones, imports and documents of
-- assets; the remaining modules of the API (simulation, explanations, reports, workers); the
-- templates of the natural language package, which are regular expressions; the signals, the energy
-- and the scenarios of the simulator and its other processes of wear; the web client.
pub mod Prelude
pub mod Edge
pub mod Ingest
pub mod Telemetry
pub mod Simulator
pub mod Analytics
pub mod Nlu
pub mod Pdm
pub mod Assets
pub mod Voice
pub mod Contracts
pub mod Twin
pub mod Maintenance
pub mod Tests
