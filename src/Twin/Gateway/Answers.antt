-- ===== src/Twin/Gateway/Answers.antt =====
-- An ack that comes while its call waits is what the call returns.
use digital_twin.Prelude.{
  ℕ, Bool, true, false, Option, none, some, List, [], ◌∷◌, ◌≡◌, refl, sym, ap, ◌∙◌, arith,
  Bool-cases, inl, inr,
}
use digital_twin.Twin.Gateway.{
  Ack, Phase, idle, registered, waiting, refused, returning, returned, Callback, free, holding,
  State, Action, begin, read, finish, publish, message, deliver, connect, disconnect, at, lookup,
  begin_from, publish_from, read_from, finish_from, message_from, deliver_from, step, run,
}
use digital_twin.Twin.Gateway.Acks.{at_ind, at_self}

unfoldable pub has_ack : Option Ack → Bool
has_ack none = false
has_ack (some a) = true

-- does the call wait, or return an ack?
unfoldable pub is_answered : Phase → Bool
unfolding has_ack
is_answered waiting = true
is_answered (returning a) = has_ack a
is_answered (returned a) = has_ack a
is_answered _ = false

module _ (uuid : ℕ → ℕ) (k : ℕ) where
  record IsAnswered (s : State) : Type 0 where
    pub ack : has_ack (s.acks k) ≡ true
    pub call : is_answered (s.calls k) ≡ true

  -- the table of calls after call j went on
  call_at :
      (j : ℕ) (p : Phase) (s : State)
      → (j ≡ k → is_answered p ≡ true)
      → IsAnswered s
      → is_answered (at j p s.calls k) ≡ true
  call_at j p s f h =
      at_ind (λ i q. i ≡ k → is_answered q ≡ true) j p s.calls f
        (λ i e. ap (λ n. is_answered (s.calls n)) e ∙ h.call) k refl

  ack_at :
      (j : ℕ) (o : Option Ack) (s : State)
      → (j ≡ k → has_ack o ≡ true)
      → IsAnswered s
      → has_ack (at j o s.acks k) ≡ true
  ack_at j o s f h =
      at_ind (λ i q. i ≡ k → has_ack q ≡ true) j o s.acks f
        (λ i e. ap (λ n. has_ack (s.acks n)) e ∙ h.ack) k refl

  -- a call that is in another phase is not the one that is answered
  other_call :
      {A : Type 0} (j : ℕ) (p : Phase) (s : State)
      → s.calls j ≡ p
      → is_answered p ≡ false
      → IsAnswered s
      → j ≡ k
      → A
  other_call j p s e n h q =
      absurd (ground (arith, n, h.call, ap is_answered e, ap (λ i. is_answered (s.calls i)) q))

  begin-IsAnswered :
      (p : Phase) (j : ℕ) (s : State)
      → s.calls j ≡ p
      → IsAnswered s
      → IsAnswered (begin_from uuid p j s)
  unfolding begin_from is_answered
  begin-IsAnswered idle j s e h = elim (Bool-cases s.connected) [
    | inl t ↦ rw t (record {
      ack = ack_at j none s (other_call j idle s e refl h) h;
      call = call_at j registered s (other_call j idle s e refl h) h;
    })
    | inr t ↦
        rw t (record { ack = h.ack; call = call_at j refused s (other_call j idle s e refl h) h })
  ]
  begin-IsAnswered p j s e h = h

  publish-IsAnswered :
      (p : Phase) (j : ℕ) (b : Bool) (s : State)
      → s.calls j ≡ p
      → IsAnswered s
      → IsAnswered (publish_from uuid p j b s)
  unfolding publish_from is_answered
  publish-IsAnswered registered j true s e h = record {
    ack = h.ack;
    call = call_at j waiting s (λ q. refl) h;
  }
  publish-IsAnswered registered j false s e h = record {
    ack = h.ack;
    call = call_at j refused s (other_call j registered s e refl h) h;
  }
  publish-IsAnswered p j b s e h = h

  read-IsAnswered :
      (p : Phase) (j : ℕ) (s : State) → IsAnswered s → IsAnswered (read_from uuid p j s)
  unfolding read_from is_answered
  read-IsAnswered waiting j s h = record {
    ack = h.ack;
    call = call_at j (returning (s.acks j)) s (λ q. ap (λ n. has_ack (s.acks n)) q ∙ h.ack) h;
  }
  read-IsAnswered p j s h = h

  finish-IsAnswered :
      (p : Phase) (j : ℕ) (s : State)
      → s.calls j ≡ p
      → IsAnswered s
      → IsAnswered (finish_from uuid p j s)
  unfolding finish_from is_answered
  finish-IsAnswered (returning a) j s e h = record {
    ack = h.ack;
    call =
        call_at j (returned a) s
          (λ q. sym (ap is_answered e) ∙ ap (λ n. is_answered (s.calls n)) q ∙ h.call) h;
  }
  finish-IsAnswered p j s e h = h

  found-IsAnswered :
      (a : Ack) (o : Option ℕ) (s : State)
      → IsAnswered s
      → IsAnswered (elim o [ none ↦ s | some j ↦ record s { callback = holding j a } ])
  found-IsAnswered a none s h = h
  found-IsAnswered a (some j) s h = record { ack = h.ack; call = h.call }

  message-IsAnswered :
      (c : Callback) (a : Option Ack) (s : State)
      → IsAnswered s
      → IsAnswered (message_from uuid c a s)
  unfolding message_from
  message-IsAnswered free (some a) s h = found-IsAnswered a (lookup a.command_id s.pending) s h
  message-IsAnswered c a s h = h

  deliver-IsAnswered :
      (c : Callback) (s : State) → IsAnswered s → IsAnswered (deliver_from uuid c s)
  unfolding deliver_from has_ack
  deliver-IsAnswered (holding j a) s h = record {
    ack = ack_at j (some a) s (λ q. refl) h;
    call = h.call;
  }
  deliver-IsAnswered free s h = h

  step-IsAnswered : (a : Action) (s : State) → IsAnswered s → IsAnswered (step uuid a s)
  unfolding step
  step-IsAnswered (begin j) s h = begin-IsAnswered (s.calls j) j s refl h
  step-IsAnswered (publish j b) s h = publish-IsAnswered (s.calls j) j b s refl h
  step-IsAnswered (read j) s h = read-IsAnswered (s.calls j) j s h
  step-IsAnswered (finish j) s h = finish-IsAnswered (s.calls j) j s refl h
  step-IsAnswered (message a) s h = message-IsAnswered s.callback a s h
  step-IsAnswered deliver s h = deliver-IsAnswered s.callback s h
  step-IsAnswered (connect true) s h = h
  step-IsAnswered (connect false) s h = record { ack = h.ack; call = h.call }
  step-IsAnswered disconnect s h = record { ack = h.ack; call = h.call }

  run-IsAnswered : (l : List Action) (s : State) → IsAnswered s → IsAnswered (run uuid l s)
  unfolding run
  run-IsAnswered [] s h = h
  run-IsAnswered (a ∷ l) s h = run-IsAnswered l (step uuid a s) (step-IsAnswered a s h)

  message_lem :
      (a : Ack) (s : State)
      → s.callback ≡ free
      → lookup a.command_id s.pending ≡ some k
      → step uuid (message (some a)) s ≡ record s { callback = holding k a }
  unfolding step message_from
  message_lem a s f e =
      ap (λ c. message_from uuid c (some a) s) f
      ∙ ap {A = Option ℕ} {B = State}
          (λ o. elim o [ none ↦ s | some j ↦ record s { callback = holding j a } ]) e

  deliver_lem :
      (a : Ack) (s : State)
      → s.calls k ≡ waiting
      → IsAnswered (step uuid deliver (record s { callback = holding k a }))
  unfolding step deliver_from is_answered has_ack
  deliver_lem a s w = record {
    ack = ap has_ack (at_self k (some a) s.acks);
    call = ap is_answered w;
  }

  -- the state after the ack of a waiting call was looked up and assigned
  IsAnswered-now :
      (a : Ack) (s : State)
      → s.callback ≡ free
      → s.calls k ≡ waiting
      → lookup a.command_id s.pending ≡ some k
      → IsAnswered (step uuid deliver (step uuid (message (some a)) s))
  IsAnswered-now a s f w e = rw (message_lem a s f e) (deliver_lem a s w)

  -- When an ack arrives that carries the id of a call that waits, and the callback gets to run, then
  -- whatever the threads do afterwards, this call still waits or it returns an ack: its timeout can
  -- no longer give none.
  pub ack_is_not_lost :
      (a : Ack) (s : State) (l : List Action)
      → s.callback ≡ free
      → s.calls k ≡ waiting
      → lookup a.command_id s.pending ≡ some k
      → is_answered ((run uuid (message (some a) ∷ deliver ∷ l) s).calls k) ≡ true
  unfolding run
  ack_is_not_lost a s l f w e = (run-IsAnswered l _ (IsAnswered-now a s f w e)).call
