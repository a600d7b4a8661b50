-- ===== src/Twin/Actuation/Guards.antt =====
-- When a T3 command is sent, and what is left of it.
use mathlib.Core.Path.{subst}
use digital_twin.Prelude.{
  ℕ, ◌≡◌, ◌⊎◌, inl, inr, refl, sym, ap, ◌∙◌, arith, String, Bool, true, false, Option, none, some,
  List, [], ◌∷◌, ◌++◌, Bool-cases, Option-cases, if_ind,
}
use digital_twin.Prelude.Result.{Result, ok, err}
use digital_twin.Twin.Actuation.{
  Provider, service_token, pin_matches, user_matches, verify, Ack, Executed, unsent, sent,
  CommandRequest, State, World, outcome_of, reply, audited, execute, after_pin, with_pin,
  send_command,
}
use text.Mathlib.Text.{◌==◌ as str_eq}
use text.Mathlib.TextEquality.{eq_iff}

-- The first PIN that the identity provider has for the user is this one.
abbrev pub HasPin : Provider → String → String → Type 0
HasPin http sub pin =
    (token : ℕ) × (rest : List String) × (http.user token sub ≡ some (some (pin ∷ rest)))

-- Actuation is allowed, the asset is known, and the request carries the user's PIN.
pub record MaySend (w : World) (sub : String) (r : CommandRequest) (asset : ℕ) : Type 0 where
  pub allowed : w.allow_t3 ≡ true
  pub known : w.asset_id ≡ some asset
  pub pin : String
  pub given : r.pin ≡ some pin
  pub right : HasPin w.provider sub pin

abbrev pub IsError : {A : Type 0} → Result A → Type 0
IsError (ok a) = ⊥
IsError (err problem) = Unit {0}

-- nothing is sent or written
abbrev pub Refused : State → State × Result Ack → Type 0
Refused s out = (out.0.calls ≡ s.calls) × (out.0.audits ≡ s.audits) × IsError out.1

-- one row for what became of the command, and the reply
abbrev pub Audited : World → State → ℕ → ℕ → Option Ack → State × Result Ack → Type 0
Audited w s asset id ack out =
    (status : String) × (outcome_of ack ≡ some status)
    × (w.commits ≡ true)
    × (out.0.audits
        ≡ s.audits ++ record { asset_id = asset; command_id = id; status = status } ∷ [])
    × (out.1 ≡ reply ack)

-- no row, since the ack has no status or the session does not commit
abbrev pub Unaudited : World → State → Option Ack → State × Result Ack → Type 0
Unaudited w s ack out =
    ((outcome_of ack ≡ none) ⊎ (w.commits ≡ false)) × (out.0.audits ≡ s.audits) × IsError out.1

-- execute is called once
abbrev pub Sent : World → CommandRequest → State → ℕ → State × Result Ack → Type 0
Sent w r s asset out =
    (id : ℕ) × (ack : Option Ack) × (w.executed ≡ sent id ack)
    × (out.0.calls ≡ s.calls ++ (asset, r.command) ∷ [])
    × (Audited w s asset id ack out ⊎ Unaudited w s ack out)

pin_matches-eq :
    (stored : Option (List String)) (pin : String)
    → pin_matches stored pin ≡ true
    → (rest : List String) × (stored ≡ some (pin ∷ rest))
unfolding pin_matches
pin_matches-eq none pin h = cc
pin_matches-eq (some []) pin h = cc
pin_matches-eq (some (x ∷ rest)) pin h = (rest, ap (λ y. some (y ∷ rest)) ((eq_iff x pin).0 h))

user_matches-HasPin :
    (http : Provider) (token : Option ℕ) (sub pin : String)
    → user_matches http token sub pin ≡ ok true
    → HasPin http sub pin
unfolding user_matches
user_matches-HasPin http none sub pin h = cc
user_matches-HasPin http (some t) sub pin h = elim (Option-cases (http.user t sub)) [
  | inl e ↦ absurd (ground (arith, e, h))
  | inr (stored, e) ↦
      (let (rest, q) = pin_matches-eq stored pin (ground (arith, e, h)) in (t, rest, e ∙ ap some q))
]

Executed-cases : (x : Executed) → (x ≡ unsent) ⊎ ((id : ℕ) × (ack : Option Ack) × (x ≡ sent id ack))
Executed-cases unsent = inl refl
Executed-cases (sent id ack) = inr (id, ack, refl)

audited-Sent :
    (w : World) (r : CommandRequest) (s : State) (asset id : ℕ) (ack : Option Ack)
    (status : Option String)
    → w.executed ≡ sent id ack
    → outcome_of ack ≡ status
    → Sent w r s asset
        (audited w asset id ack status (record s { calls = s.calls ++ (asset, r.command) ∷ [] }))
unfolding audited
audited-Sent w r s asset id ack none e o = (id, ack, e, refl, inr (inl o, refl, tt))
audited-Sent w r s asset id ack (some status) e o =
    if_ind (Sent w r s asset) w.commits _ _
      (λ c. (id, ack, e, refl, inl (status, o, c, refl, refl)))
      (λ c. (id, ack, e, refl, inr (inr c, refl, tt)))

execute-Sent :
    (w : World) (asset : ℕ) (r : CommandRequest) (s : State)
    → Refused s (execute w asset r s) ⊎ Sent w r s asset (execute w asset r s)
unfolding execute
execute-Sent w asset r s = elim (Executed-cases w.executed) [
  | inl e ↦ rw e (inl (refl, refl, tt))
  | inr (id, ack, e) ↦
      (let out : execute w asset r s
            ≡ audited w asset id ack (outcome_of ack)
                (record s { calls = s.calls ++ (asset, r.command) ∷ [] }) =
          rw (e, execute) refl in
        inr (
          subst (Sent w r s asset) (sym out)
            (audited-Sent w r s asset id ack (outcome_of ack) e refl)))
]

after_pin-Sent :
    (w : World) (asset : ℕ) (r : CommandRequest) (s : State) (right : Result Bool) (P : Type 0)
    → (right ≡ ok true → P)
    → Refused s (after_pin w asset r s right) ⊎ (P × Sent w r s asset (after_pin w asset r s right))
unfolding after_pin
after_pin-Sent w asset r s (err problem) P f = inl (refl, refl, tt)
after_pin-Sent w asset r s (ok false) P f = inl (refl, refl, tt)
after_pin-Sent w asset r s (ok true) P f = elim (execute-Sent w asset r s) [
  | inl h ↦ inl h
  | inr h ↦ inr (f refl, h)
]

with_pin-Sent :
    (w : World) (sub : String) (asset : ℕ) (r : CommandRequest) (pin : String) (s : State)
    → Refused s (with_pin w sub asset r pin s)
      ⊎ (HasPin w.provider sub pin × Sent w r s asset (with_pin w sub asset r pin s))
unfolding with_pin verify
with_pin-Sent w sub asset r pin s = elim (Bool-cases (str_eq pin "")) [
  | inl b ↦ rw b (inl (refl, refl, tt))
  | inr b ↦
      (let (token, held) = service_token w.provider w.now w.later s.token in
        rw b (
          after_pin-Sent w asset r (record s { token = held })
            (user_matches w.provider token sub pin) (HasPin w.provider sub pin)
            (user_matches-HasPin w.provider token sub pin)))
]

-- A command is either refused with an error, and then nothing is sent and no audit row is written,
-- or it is sent once: then actuation is allowed, the asset is known, and the request has the PIN that
-- the identity provider holds for the user. If the ack has a status or there is no ack, and the
-- session commits, then one audit row has the outcome and the reply is the ack or, if there is none
-- or its status is neither accepted nor rejected, an error; otherwise there is no audit row, and an
-- error is raised.
pub send_command-Sent :
    (w : World) (sub : String) (r : CommandRequest) (s : State)
    → Refused s (send_command w sub r s)
      ⊎ ((asset : ℕ) × MaySend w sub r asset × Sent w r s asset (send_command w sub r s))
unfolding send_command
send_command-Sent w sub r s = elim (Bool-cases w.allow_t3) [
  | inr b ↦ rw b (inl (refl, refl, tt))
  | inl b ↦ elim (Option-cases w.asset_id) [
    | inl a ↦ rw (b, a) (inl (refl, refl, tt))
    | inr (asset, a) ↦ elim (Option-cases r.pin) [
      | inl p ↦ rw (b, a, p) (inl (refl, refl, tt))
      | inr (pin, p) ↦
          (let e : send_command w sub r s ≡ with_pin w sub asset r pin s =
              ground (arith, b, a, p) in
            subst
              (λ out. Refused s out ⊎ ((asset : ℕ) × MaySend w sub r asset × Sent w r s asset out))
              (sym e)
              (elim (with_pin-Sent w sub asset r pin s) [
                | inl h ↦ inl h
                | inr (right, h) ↦ inr (
                  asset,
                  record { allowed = b; known = a; pin = pin; given = p; right = right },
                  h,
                )
              ]))
    ]
  ]
]
