-- ===== src/Edge/Outbox/Drain.antt =====
-- `StoreAndForward.drain` against its contract: oldest first, up to the first refusal.
use mathlib.Core.Path.{subst}
use digital_twin.Prelude.{
  ℕ, zero, suc, ◌+◌, ◌<◌, ◌≡◌, refl, Bool, some, List, [], ◌∷◌, ◌++◌, length, drop, is_empty, ap,
  ◌∙◌, length-append, length-drop, if◌then◌else◌, arith, Bool-cases, inl, inr,
}
use digital_twin.Edge.Outbox.{
  Message, Row, Outbox, oldest, without, delete, drain_rows, drain_loop, drain,
}
use digital_twin.Edge.Outbox.Ordered.{
  Ascends, IsOrdered, without-head, Ascends-suffix, oldest-append,
}

eq-nil : (xs : List Row) → length xs ≡ 0 → xs ≡ []
eq-nil [] h = refl
eq-nil (x ∷ xs) h = absurd (omega arith)

module _ {B : Type 0} (publish : Message → B → Bool × B) where
  -- The contract: how many rows go out, what stays queued, and the link afterwards.
  unfoldable pub deliver : List Row → B → ℕ × List Row × B
  deliver [] link = (0, [], link)
  deliver (r ∷ rs) link =
      let (ok, link') = publish r.message link in
      let (n, left, end) = deliver rs link' in if ok then (n + 1, left, end) else (0, r ∷ rs, link')

  -- A batch is delivered as the contract says, and what follows the batch in the table stays.
  drain_rows-deliver :
      (xs ys : List Row) (lo sent : ℕ) (box : Outbox) (link : B)
      → box.rows ≡ xs ++ ys
      → Ascends lo (xs ++ ys) box.next_id
      → drain_rows publish xs sent box link ≡ record {
        complete = is_empty (deliver xs link).1;
        sent = sent + (deliver xs link).0;
        box = record box { rows = (deliver xs link).1 ++ ys };
        link = (deliver xs link).2;
      }
  unfolding drain_rows deliver delete
  drain_rows-deliver [] ys lo sent box link e h = ground arith
  drain_rows-deliver (r ∷ rs) ys lo sent box link e h =
      elim (Bool-cases (publish r.message link).0) [
        | inl ok ↦
            rw
              (
                ok,
                drain_rows-deliver rs ys (r.id + 1) (sent + 1) (delete r.id box)
                    (publish r.message link).1
                    (ap (without r.id) e ∙ without-head r (rs ++ ys) box.next_id h.1) h.1,
              )
              (ground arith)
        | inr no_ ↦ rw no_ (ground arith)
      ]

  deliver-append :
      (xs ys : List Row) (link : B)
      → deliver (xs ++ ys) link ≡ (
          if is_empty (deliver xs link).1
          then (
            (deliver xs link).0 + (deliver ys (deliver xs link).2).0,
            (deliver ys (deliver xs link).2).1,
            (deliver ys (deliver xs link).2).2,
          )
          else ((deliver xs link).0, (deliver xs link).1 ++ ys, (deliver xs link).2))
  unfolding deliver
  deliver-append [] ys link = ground arith
  deliver-append (r ∷ rs) ys link = ground (arith, deliver-append rs ys (publish r.message link).1)

  -- What one round does, once the batch it selects is known.
  drain_loop-stop :
      (fuel batch sent : ℕ) (box : Outbox) (link : B)
      → oldest batch box ≡ []
      → drain_loop publish (suc fuel) batch sent box link ≡ some (sent, box, link)
  unfolding drain_loop
  drain_loop-stop fuel batch sent box link e = rw (e, drain_loop)

  drain_loop-round :
      (fuel batch sent : ℕ) (box : Outbox) (link : B) (r : Row) (rs : List Row)
      → oldest batch box ≡ r ∷ rs
      → drain_loop publish (suc fuel) batch sent box link ≡ (
          let p = drain_rows publish (r ∷ rs) sent box link in
          if p.complete
          then drain_loop publish fuel batch p.sent p.box p.link
          else some (p.sent, p.box, p.link))
  unfolding drain_loop
  drain_loop-round fuel batch sent box link r rs e = rw (e, drain_loop)

  stop-deliver :
      (fuel batch lo sent : ℕ) (box : Outbox) (link : B)
      → 0 < batch
      → oldest batch box ≡ []
      → Ascends lo box.rows box.next_id
      → drain_loop publish (suc fuel) batch sent box link
        ≡ some (
          sent + (deliver box.rows link).0,
          record box { rows = (deliver box.rows link).1 },
          (deliver box.rows link).2,
        )
  unfolding deliver
  stop-deliver fuel batch lo sent box link p e h =
      let split : box.rows ≡ [] ++ drop batch box.rows =
        oldest-append batch lo box h ∙ ap (λ l. l ++ drop batch box.rows) e in
      let none_left : box.rows ≡ [] =
        eq-nil box.rows (omega (arith, ap length split, length-drop batch box.rows)) in
      ground (
        arith,
        drain_loop-stop fuel batch sent box link e,
        none_left,
        ap (λ l. deliver l link) none_left,
      )

  -- The loop after a batch `r ∷ rs` of a table `(r ∷ rs) ++ left`, given the rest of the loop.
  round-deliver :
      (fuel batch lo sent : ℕ) (box : Outbox) (link : B) (r : Row) (rs left : List Row)
      → oldest batch box ≡ r ∷ rs
      → box.rows ≡ (r ∷ rs) ++ left
      → Ascends lo ((r ∷ rs) ++ left) box.next_id
      → ((sent' : ℕ) (link' : B)
          → drain_loop publish fuel batch sent' (record box { rows = left }) link'
            ≡ some (
              sent' + (deliver left link').0,
              record box { rows = (deliver left link').1 },
              (deliver left link').2,
            ))
      → drain_loop publish (suc fuel) batch sent box link
        ≡ some (
          sent + (deliver box.rows link).0,
          record box { rows = (deliver box.rows link).1 },
          (deliver box.rows link).2,
        )
  round-deliver fuel batch lo sent box link r rs left sel e h again =
      let d : ℕ × List Row × B = deliver (r ∷ rs) link in
      ground (
        arith,
        drain_loop-round fuel batch sent box link r rs sel,
        drain_rows-deliver (r ∷ rs) left lo sent box link e h,
        ap (λ l. deliver l link) e,
        deliver-append (r ∷ rs) left link,
        again (sent + d.0) d.2,
      )

  drain_loop-deliver :
      (fuel batch lo sent : ℕ) (box : Outbox) (link : B)
      → 0 < batch
      → length box.rows < fuel
      → Ascends lo box.rows box.next_id
      → drain_loop publish fuel batch sent box link
        ≡ some (
          sent + (deliver box.rows link).0,
          record box { rows = (deliver box.rows link).1 },
          (deliver box.rows link).2,
        )
  drain_loop-deliver zero batch lo sent box link p q h = absurd (omega arith)
  drain_loop-deliver (suc fuel) batch lo sent box link p q h =
      go (oldest batch box) refl (drain_loop-deliver fuel batch lo)
    where
      left : List Row
      left = drop batch box.rows

      Goal : Type 0
      Goal =
          drain_loop publish (suc fuel) batch sent box link
          ≡ some (
            sent + (deliver box.rows link).0,
            record box { rows = (deliver box.rows link).1 },
            (deliver box.rows link).2,
          )

      go :
          (l : List Row)
          → oldest batch box ≡ l
          → ((sent' : ℕ) (box' : Outbox) (link' : B)
              → 0 < batch
              → length box'.rows < fuel
              → Ascends lo box'.rows box'.next_id
              → drain_loop publish fuel batch sent' box' link'
                ≡ some (
                  sent' + (deliver box'.rows link').0,
                  record box' { rows = (deliver box'.rows link').1 },
                  (deliver box'.rows link').2,
                ))
          → Goal
      go [] e ih = stop-deliver fuel batch lo sent box link p e h
      go (r ∷ rs) e ih =
          let split : box.rows ≡ (r ∷ rs) ++ left =
            oldest-append batch lo box h ∙ ap (λ l. l ++ left) e in
          let h' : Ascends lo ((r ∷ rs) ++ left) box.next_id =
            subst (λ l. Ascends lo l box.next_id) split h in
          round-deliver fuel batch lo sent box link r rs left e split h' (λ s' l'.
            ih s' (record box { rows = left }) l' p
              (omega (arith, ap length split, length-append rs left))
              (Ascends-suffix lo (r ∷ rs) left box.next_id h'))

  -- With a positive batch size, on a table with ascending ids: `drain` always ends, and it hands the
  -- rows to the link oldest first up to the first refusal. It returns the number of rows that went
  -- out, and exactly the rows from the refused one on are left in the table.
  pub drain-deliver :
      (batch : ℕ) (box : Outbox) (link : B)
      → 0 < batch
      → IsOrdered box
      → drain publish batch box link
        ≡ some (
          (deliver box.rows link).0,
          record box { rows = (deliver box.rows link).1 },
          (deliver box.rows link).2,
        )
  unfolding drain
  drain-deliver batch box link p h =
      ground
        (arith, drain_loop-deliver (suc (length box.rows)) batch 0 0 box link p (omega arith) h.ids)
