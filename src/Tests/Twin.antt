-- ===== src/Tests/Twin.antt =====
-- The theorems on apps/api/app/modules/twin at concrete inputs.
use digital_twin.Prelude.{
  ℕ, ◌+◌, true, false, none, some, List, [], ◌∷◌, ◌≡◌, ◌==◌, refl, Bool-cases, inl, inr,
  if◌then◌else◌,
}
use digital_twin.Twin.Gateway.{
  Ack, waiting, returned, idle, free, State, Action, begin, read, finish, publish, message, deliver,
  connect, at, lookup, remove, insert, begin_from, publish_from, read_from, finish_from,
  message_from, deliver_from, step, run, start,
}
use digital_twin.Twin.Gateway.Acks.{is_active, own_ack, no_entry_left}
use digital_twin.Twin.Gateway.Answers.{is_answered, ack_is_not_lost}

abbrev uuid : ℕ → ℕ
uuid k = k + 100

abbrev ack : ℕ → Ack
ack i = record { command_id = i; status = "accepted" }

-- two calls; the ack of the second comes first, and one of nobody's
abbrev two_calls : List Action
two_calls =
    connect false
    ∷ begin 0
    ∷ begin 1
    ∷ publish 0 true
    ∷ publish 1 true
    ∷ message (some (ack 101))
    ∷ deliver
    ∷ message (some (ack 555))
    ∷ deliver
    ∷ message none
    ∷ read 1
    ∷ read 0
    ∷ finish 0
    ∷ finish 1
    ∷ []

second_returned : (run uuid two_calls start).calls 1 ≡ returned (some (ack 101))
unfolding run step begin_from publish_from read_from finish_from message_from deliver_from at lookup
    remove insert start
second_returned = refl

own_ack_example : (ack 101).command_id ≡ uuid 1
own_ack_example = own_ack uuid two_calls 1 (ack 101) second_returned

-- a call that is not answered
abbrev timed_out : List Action
timed_out =
    connect false ∷ begin 0 ∷ publish 0 true ∷ read 0 ∷ finish 0 ∷ message (some (ack 100)) ∷ []

nobody_active : (k : ℕ) → is_active ((run uuid timed_out start).calls k) ≡ false
unfolding run step begin_from publish_from read_from finish_from message_from at start is_active
    lookup remove insert
nobody_active k = elim (Bool-cases (0 == k)) [ inl e ↦ rw e refl | inr e ↦ rw e refl ]

no_entry_left_example : (run uuid timed_out start).pending ≡ []
no_entry_left_example = no_entry_left uuid timed_out nobody_active

abbrev one_waiting : State
one_waiting = record {
  connected = true;
  pending = (100, 0) ∷ [];
  acks = λ k. none;
  calls = λ k. if k == 0 then waiting else idle;
  callback = free;
  sent = 100 ∷ [];
}

entry_found : lookup 100 one_waiting.pending ≡ some 0
unfolding lookup
entry_found = refl

ack_is_not_lost_example :
    is_answered
      ((run uuid (message (some (ack 100)) ∷ deliver ∷ read 0 ∷ finish 0 ∷ []) one_waiting).calls 0)
    ≡ true
ack_is_not_lost_example =
    ack_is_not_lost uuid 0 (ack 100) one_waiting (read 0 ∷ finish 0 ∷ []) refl refl entry_found
