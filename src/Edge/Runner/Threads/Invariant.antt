-- ===== src/Edge/Runner/Threads/Invariant.antt =====
-- What the threads of the runner keep: the order of the messages, on the wire and in the table.
use digital_twin.Prelude.{
  ℕ, zero, suc, Bool, true, false, List, [], ◌∷◌, ◌++◌, drop, ◌==◌, ◌≡◌, refl, arith, append-nil,
  append_assoc, ap, ◌∙◌, Bool-cases, inl, inr,
}
use mathlib.Core.List.{map-append}
use digital_twin.Edge.Outbox.{Message, Row, enqueue, pending, oldest, delete}
use digital_twin.Edge.Outbox.Ordered.{
  enqueue-IsOrdered, delete-IsOrdered, rows-delete_head, oldest-append,
}
use digital_twin.Edge.Runner.{Link, send, on_connect, on_disconnect}
use digital_twin.Edge.Runner.Threads.{
  Publisher, ready, to_send, to_queue, Drainer, off, fetching, sending, deleting, State, start,
  Action, call, go_on, drain_on, connect, disconnect, publisher_step, call_step, take_lock, fetched,
  drainer_step, step, run,
}
use digital_twin.Edge.Runner.Threads.Backlog.{
  messages, backlog, InvAt, Inv, wire-send, rows-zero, hold, backlog-nil, backlog-append,
  IsPrefix-append, IsIdle-absurd, IsLast-idle,
}

module _ (accepts : ℕ → Bool) (m : Message) (link : Link) where
  sent_wire : (send accepts m link).0 ≡ true → (send accepts m link).1.wire ≡ link.wire ++ m ∷ []
  sent_wire t = wire-send accepts m link ∙ rw t

  unsent_wire : (send accepts m link).0 ≡ false → (send accepts m link).1.wire ≡ link.wire
  unsent_wire f = wire-send accepts m link ∙ rw f

module _ (accepts : ℕ → Bool) (batch : ℕ) where
  call-Inv :
      (p : Publisher) (m : Message) (s : State)
      → InvAt p s.drainer s.box s.link.wire s.made
      → s.publisher ≡ p
      → Inv (call_step accepts batch p m s)
  unfolding call_step pending
  call-Inv ready m s h e =
      let kept = hold m s.made s.link.wire (messages (backlog s.drainer s.box.rows)) h.in_order in
      elim (Bool-cases (pending s.box == 0)) [
        | inl t ↦ rw t (record {
          ordered = h.ordered;
          left = h.left;
          batch = h.batch;
          idle = rows-zero s.box.rows t;
          last = h.last;
          in_order = kept;
        })
        | inr f ↦ rw f (record {
          ordered = h.ordered;
          left = h.left;
          batch = h.batch;
          idle = tt;
          last = h.last;
          in_order = kept;
        })
      ]
  call-Inv (to_send x) m s h e = rw e h
  call-Inv (to_queue x) m s h e = rw e h

  publisher-Inv :
      (p : Publisher) (now : ℕ) (s : State)
      → InvAt p s.drainer s.box s.link.wire s.made
      → s.publisher ≡ p
      → Inv (publisher_step accepts batch p now s)
  unfolding publisher_step
  publisher-Inv ready now s h e = rw e h
  publisher-Inv (to_send m) now s h e = elim (Bool-cases (send accepts m s.link).0) [
    | inl t ↦
        rw (t, sent_wire accepts m s.link t)
          (record {
            ordered = h.ordered;
            left = h.left;
            batch = h.batch;
            idle = tt;
            last = IsLast-idle s.drainer s.box.rows h.left _ h.batch h.idle;
            in_order = h.in_order ∙ simp (backlog-nil s.drainer s.box.rows h.idle, append-nil);
          })
    | inr f ↦
        rw (f, unsent_wire accepts m s.link f)
          (record {
            ordered = h.ordered;
            left = h.left;
            batch = h.batch;
            idle = tt;
            last = h.last;
            in_order = h.in_order;
          })
  ]
  publisher-Inv (to_queue m) now s h e =
      let r : Row = record { id = s.box.next_id; message = m; queued_at = now } in
      record {
        ordered = enqueue-IsOrdered m now s.box h.ordered;
        left = h.left ++ r ∷ [];
        batch = unfold enqueue in IsPrefix-append s.drainer s.box.rows h.left r h.batch;
        idle = tt;
        last = h.last;
        in_order =
            h.in_order
            ∙ unfold enqueue in
              simp (backlog-append s.drainer s.box.rows h.left r h.batch, map-append, append-nil);
      }

  lock-Inv :
      (n : ℕ) (s : State)
      → InvAt s.publisher off s.box s.link.wire s.made
      → s.drainer ≡ off
      → Inv (take_lock accepts batch n s)
  unfolding take_lock
  lock-Inv zero s h e = rw e h
  lock-Inv (suc n) s h e = record {
    ordered = h.ordered;
    left = [];
    batch = tt;
    idle = h.idle;
    last = tt;
    in_order = h.in_order;
  }

  fetched-Inv :
      (l : List Row) (s : State)
      → oldest batch s.box ≡ l
      → InvAt s.publisher off s.box s.link.wire s.made
      → InvAt s.publisher (fetched accepts batch l) s.box s.link.wire s.made
  unfolding fetched
  fetched-Inv [] s sel h = h
  fetched-Inv (r ∷ rs) s sel h = record {
    ordered = h.ordered;
    left = drop batch s.box.rows;
    batch = oldest-append batch 0 s.box h.ordered.ids ∙ ap (λ l. l ++ drop batch s.box.rows) sel;
    idle = h.idle;
    last = tt;
    in_order = h.in_order;
  }

  drainer-Inv :
      (d : Drainer) (s : State)
      → InvAt s.publisher d s.box s.link.wire s.made
      → s.drainer ≡ d
      → Inv (drainer_step accepts batch d s)
  unfolding drainer_step
  drainer-Inv off s h e = lock-Inv s.waiting s h e
  drainer-Inv fetching s h e = fetched-Inv (oldest batch s.box) s refl (record {
    ordered = h.ordered;
    left = [];
    batch = tt;
    idle = h.idle;
    last = tt;
    in_order = h.in_order;
  })
  drainer-Inv (sending []) s h e = record {
    ordered = h.ordered;
    left = [];
    batch = tt;
    idle = h.idle;
    last = tt;
    in_order = h.in_order;
  }
  drainer-Inv (sending (r ∷ rs)) s h e = elim (Bool-cases (send accepts r.message s.link).0) [
    | inl t ↦
        rw (t, sent_wire accepts r.message s.link t)
          (record {
            ordered = h.ordered;
            left = h.left;
            batch = h.batch;
            idle = h.idle;
            last = (s.link.wire, refl);
            in_order = h.in_order ∙ simp (h.batch, append_assoc);
          })
    | inr f ↦
        rw (f, unsent_wire accepts r.message s.link f)
          (record {
            ordered = h.ordered;
            left = [];
            batch = tt;
            idle = h.idle;
            last = tt;
            in_order = h.in_order;
          })
  ]
  drainer-Inv (deleting r rs) s h e =
      let rest = rows-delete_head s.box r (rs ++ h.left) h.ordered h.batch in
      record {
        ordered = delete-IsOrdered s.box r (rs ++ h.left) h.ordered h.batch;
        left = h.left;
        batch = rest;
        last = tt;
        idle =
            IsIdle-absurd s.publisher s.box.rows (delete r.id s.box).rows (rs ++ h.left) r h.idle
              h.batch;
        in_order = h.in_order ∙ simp (rest, h.batch);
      }

  step-Inv : (a : Action) (s : State) → Inv s → Inv (step accepts batch a s)
  unfolding step on_connect on_disconnect
  step-Inv (call m) s h = call-Inv s.publisher m s h refl
  step-Inv (go_on now) s h = publisher-Inv s.publisher now s h refl
  step-Inv drain_on s h = drainer-Inv s.drainer s h refl
  step-Inv (connect true) s h = h
  step-Inv (connect false) s h = h
  step-Inv disconnect s h = h

  pub run-Inv : (l : List Action) (s : State) → Inv s → Inv (run accepts batch l s)
  unfolding run
  run-Inv [] s h = h
  run-Inv (a ∷ l) s h = run-Inv l (step accepts batch a s) (step-Inv a s h)

  pub start-Inv : Inv start
  start-Inv = record {
    ordered = record { ids = omega arith };
    left = [];
    batch = tt;
    idle = tt;
    last = tt;
    in_order = refl;
  }
