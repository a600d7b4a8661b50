-- ===== src/Tests/Actuation.antt =====
-- A T3 command with the right PIN, which the machine does not answer.
use digital_twin.Prelude.{ℕ, true, none, some, [], ◌∷◌, ◌⊎◌}
use digital_twin.Twin.Actuation.{sent, CommandRequest, State, World, send_command}
use digital_twin.Twin.Actuation.Guards.{Refused, MaySend, Sent, send_command-Sent}

abbrev world : World
world = record {
  allow_t3 = true;
  asset_id = some 4;
  provider = record { post = some (11, 60); user = λ token sub. some (some ("2468" ∷ [])) };
  now = 100;
  later = 101;
  executed = sent 9 none;
  commits = true;
}

abbrev stop : CommandRequest
stop = record { command = "set_load"; pin = some "2468" }

abbrev start : State
start = record { token = none; calls = []; audits = [] }

send_command-Sent_example :
    Refused start (send_command world "ann" stop start)
    ⊎ ((asset : ℕ) × MaySend world "ann" stop asset
        × Sent world stop start asset (send_command world "ann" stop start))
send_command-Sent_example = send_command-Sent world "ann" stop start
