-- ===== src/Edge/Outbox.antt =====
-- apps/edge/edge/buffer.py: the store-and-forward queue `StoreAndForward`. The SQLite table is the
-- list of its rows with the next AUTOINCREMENT id; `ORDER BY id LIMIT ?` sorts and takes. `publish`
-- is a function on the state of the link, so that each call may have another outcome. The file, the
-- lock of the connection and the WAL pragma are not modelled: each statement is one atomic step.
pub mod Ordered
pub mod Drain
use digital_twin.Prelude.{
  ℕ, zero, suc, ◌+◌, String, Bool, true, false, Option, none, some, List, [], ◌∷◌, ◌++◌, length,
  take, leb, ◌==◌, if◌then◌else◌,
}

-- what is handed to the broker
pub record Message : Type 0 where
  pub topic : String
  pub payload : List ℕ
  pub qos : ℕ

pub record Row : Type 0 where
  pub id : ℕ
  pub message : Message
  pub queued_at : ℕ

pub record Outbox : Type 0 where
  pub rows : List Row
  pub next_id : ℕ

abbrev pub empty : Outbox
empty = record { rows = []; next_id = 1 }

-- `now` is `time.time()`
unfoldable pub enqueue : Message → ℕ → Outbox → Outbox
enqueue m now box = record {
  rows = box.rows ++ record { id = box.next_id; message = m; queued_at = now } ∷ [];
  next_id = box.next_id + 1;
}

unfoldable pub pending : Outbox → ℕ
pending box = length box.rows

-- ORDER BY id
pub insert_by_id : Row → List Row → List Row
insert_by_id r [] = r ∷ []
insert_by_id r (x ∷ xs) = if leb r.id x.id then r ∷ x ∷ xs else x ∷ insert_by_id r xs

pub order_by_id : List Row → List Row
order_by_id [] = []
order_by_id (r ∷ rs) = insert_by_id r (order_by_id rs)

-- SELECT … ORDER BY id LIMIT batch
unfoldable pub oldest : ℕ → Outbox → List Row
oldest batch box = take batch (order_by_id box.rows)

pub without : ℕ → List Row → List Row
without i [] = []
without i (r ∷ rs) = let rest = without i rs in if r.id == i then rest else r ∷ rest

-- DELETE FROM outbox WHERE id = ?
unfoldable pub delete : ℕ → Outbox → Outbox
delete i box = record box { rows = without i box.rows }

-- what a batch leaves: whether every row went out, the count, the table and the link
pub record Progress (B : Type 0) : Type 0 where
  pub complete : Bool
  pub sent : ℕ
  pub box : Outbox
  pub link : B

module _ {B : Type 0} (publish : Message → B → Bool × B) where
  -- `for row_id, topic, payload, qos in rows`
  pub drain_rows : List Row → ℕ → Outbox → B → Progress B
  drain_rows [] sent box link = record { complete = true; sent = sent; box = box; link = link }
  drain_rows (r ∷ rs) sent box link =
      let (ok, link') = publish r.message link in
      let rest = drain_rows rs (sent + 1) (delete r.id box) link' in
      if ok then rest else record { complete = false; sent = sent; box = box; link = link' }

  -- `while True`; `none` when the fuel runs out. The result is the count, the table and the link.
  pub drain_loop : ℕ → ℕ → ℕ → Outbox → B → Option (ℕ × Outbox × B)
  drain_loop zero batch sent box link = none
  drain_loop (suc fuel) batch sent box link = elim (oldest batch box) [
    | [] ↦ some (sent, box, link)
    | r ∷ rs ↦
        let p = drain_rows (r ∷ rs) sent box link in
        let again = drain_loop fuel batch p.sent p.box p.link in
        if p.complete then again else some (p.sent, p.box, p.link)
  ]

  -- Every round deletes a row or stops, so one round more than there are rows is enough.
  pub drain : ℕ → Outbox → B → Option (ℕ × Outbox × B)
  drain batch box link = drain_loop (suc (length box.rows)) batch 0 box link
