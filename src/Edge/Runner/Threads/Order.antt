-- ===== src/Edge/Runner/Threads/Order.antt =====
-- Predictions reach the broker in the order in which they were made, whatever the threads do.
use digital_twin.Prelude.{
  ℕ, ◌≤◌, ◌<◌, ◌==◌, Bool, true, false, List, [], ◌∷◌, ◌++◌, length, length-append, ◌≡◌, ◌≢◌, refl,
  arith, append-nil, append_assoc, sym, ◌∙◌, All,
}
use digital_twin.Edge.Outbox.{pending, enqueue}
use digital_twin.Edge.Outbox.{Message}
use digital_twin.Edge.Runner.{on_connect, on_disconnect}
use digital_twin.Edge.Runner.Threads.{
  Publisher, ready, to_send, to_queue, Drainer, off, fetching, sending, deleting, State, start,
  Action, call, go_on, drain_on, connect, disconnect, publisher_step, call_step, take_lock,
  drainer_step, step, run,
}
use digital_twin.Edge.Runner.Threads.Invariant.{run-Inv, start-Inv}
use digital_twin.Edge.Runner.Threads.Backlog.{messages, backlog, held, InvAt}

module _ (accepts : ℕ → Bool) (batch : ℕ) where
  -- After any schedule of the threads, with any outcomes of the client's calls: what `publish` was
  -- called with is, in this order, what the client took, then the rows of the table that have not
  -- gone out, then the message that `publish` still holds. So nothing is lost, repeated or overtaken.
  pub predictions_in_order :
      (l : List Action)
      → (run accepts batch l start).made
        ≡ (run accepts batch l start).link.wire
          ++ (messages
                (backlog (run accepts batch l start).drainer (run accepts batch l start).box.rows)
              ++ held (run accepts batch l start).publisher)
  predictions_in_order l = (run-Inv accepts batch l start (start-Inv accepts batch)).in_order

  crash_at :
      (d : Drainer) (s : State)
      → InvAt s.publisher d s.box s.link.wire s.made
      → (w dup : List Message) × (s.link.wire ≡ w ++ dup)
        × (length dup ≤ 1)
        × (s.made ≡ w ++ (messages s.box.rows ++ held s.publisher))
  crash_at off s h = (s.link.wire, [], sym (append-nil s.link.wire), omega arith, h.in_order)
  crash_at fetching s h = (s.link.wire, [], sym (append-nil s.link.wire), omega arith, h.in_order)
  crash_at (sending rs) s h =
      (s.link.wire, [], sym (append-nil s.link.wire), omega arith, h.in_order)
  crash_at (deleting r rs) s h = (
    h.last.0,
    r.message ∷ [],
    h.last.1,
    omega arith,
    h.in_order ∙ simp (h.last.1, h.batch, append_assoc),
  )

  -- If the process stops after any schedule, the table repeats at most one message that the client
  -- took already, and the messages made are those taken but for that one, then all rows of the
  -- table, then the one that `publish` held, which is lost.
  pub crash_repeats_at_most_one :
      (l : List Action)
      → (w dup : List Message) × ((run accepts batch l start).link.wire ≡ w ++ dup)
        × (length dup ≤ 1)
        × ((run accepts batch l start).made
            ≡ w
              ++ (messages (run accepts batch l start).box.rows
                  ++ held (run accepts batch l start).publisher))
  crash_repeats_at_most_one l =
      crash_at (run accepts batch l start).drainer (run accepts batch l start)
        (run-Inv accepts batch l start (start-Inv accepts batch))

abbrev pub NoConnect : Action → Type 0
NoConnect (connect is_failure) = is_failure ≡ true
NoConnect _ = Unit {0}

-- No drain thread runs or waits, a row is queued, and `publish` is not past its test of the table.
pub record IsStalled (s : State) : Type 0 where
  pub publisher : (m : Message) → s.publisher ≢ to_send m
  pub drainer : s.drainer ≡ off
  pub waiting : s.waiting ≡ 0
  pub queued : 0 < length s.box.rows

module _ (accepts : ℕ → Bool) (batch : ℕ) where
  call-IsStalled :
      (p : Publisher) (m : Message) (s : State)
      → s.publisher ≡ p
      → IsStalled s
      → ((call_step accepts batch p m s).link.wire ≡ s.link.wire)
        × IsStalled (call_step accepts batch p m s)
  unfolding call_step pending
  call-IsStalled ready m s e h =
      let f : pending s.box == 0 ≡ false = ground (arith, h.queued) in
      rw f (
        refl,
        record {
          publisher = λ x q. cc;
          drainer = h.drainer;
          waiting = h.waiting;
          queued = h.queued;
        },
      )
  call-IsStalled (to_send x) m s e h = (refl, h)
  call-IsStalled (to_queue x) m s e h = (refl, h)

  go_on-IsStalled :
      (p : Publisher) (now : ℕ) (s : State)
      → s.publisher ≡ p
      → IsStalled s
      → ((publisher_step accepts batch p now s).link.wire ≡ s.link.wire)
        × IsStalled (publisher_step accepts batch p now s)
  unfolding publisher_step enqueue
  go_on-IsStalled ready now s e h = (refl, h)
  go_on-IsStalled (to_send x) now s e h = absurd (h.publisher x e)
  go_on-IsStalled (to_queue x) now s e h = (
    refl,
    record {
      publisher = λ m q. cc;
      drainer = h.drainer;
      waiting = h.waiting;
      queued = omega (
        arith,
        length-append s.box.rows (record { id = s.box.next_id; message = x; queued_at = now } ∷ []),
        h.queued,
      );
    },
  )

  step-IsStalled :
      (a : Action) (s : State)
      → NoConnect a
      → IsStalled s
      → ((step accepts batch a s).link.wire ≡ s.link.wire) × IsStalled (step accepts batch a s)
  unfolding step drainer_step take_lock on_connect on_disconnect
  step-IsStalled (call m) s c h = call-IsStalled s.publisher m s refl h
  step-IsStalled (go_on now) s c h = go_on-IsStalled s.publisher now s refl h
  step-IsStalled drain_on s c h =
      rw (h.drainer, drainer_step)
        (rw (h.waiting, take_lock)
          (
            refl,
            record { publisher = h.publisher; drainer = refl; waiting = refl; queued = h.queued },
          ))
  step-IsStalled (connect b) s c h = rw c (
    refl,
    record { publisher = h.publisher; drainer = h.drainer; waiting = h.waiting; queued = h.queued },
  )
  step-IsStalled disconnect s c h = (
    refl,
    record { publisher = h.publisher; drainer = h.drainer; waiting = h.waiting; queued = h.queued },
  )

  -- Once a row is queued while no drain thread runs or waits, and `publish` is not about to send,
  -- nothing more reaches the client until the next successful `on_connect`, whatever else is
  -- scheduled: also when the connection was never lost and one call of the client was refused.
  pub stalled_until_connect :
      (l : List Action) (s : State)
      → All NoConnect l
      → IsStalled s
      → (run accepts batch l s).link.wire ≡ s.link.wire
  unfolding run
  stalled_until_connect [] s c h = refl
  stalled_until_connect (a ∷ l) s c h =
      let (kept, h') = step-IsStalled a s c.0 h in
      stalled_until_connect l (step accepts batch a s) c.1 h' ∙ kept
