-- ===== src/Edge/Outbox/Ordered.antt =====
-- The table of the outbox in the order of its ids, which AUTOINCREMENT keeps.
use mathlib.Core.Path.{subst}
use digital_twin.Prelude.{
  ℕ, ◌+◌, ◌≤◌, ◌<◌, ◌≡◌, refl, List, [], ◌∷◌, ◌++◌, drop, ap, sym, ◌∙◌, take-append-drop, arith,
}
use digital_twin.Edge.Outbox.{
  Message, Row, Outbox, enqueue, insert_by_id, order_by_id, oldest, without, delete,
}

-- The ids of a table ascend strictly from `lo`, and stay below `hi`.
abbrev pub Ascends : ℕ → List Row → ℕ → Type 0
Ascends lo [] hi = lo ≤ hi
Ascends lo (r ∷ rs) hi = (lo ≤ r.id) × Ascends (r.id + 1) rs hi

-- What AUTOINCREMENT keeps.
pub record IsOrdered (box : Outbox) : Type 0 where
  pub ids : Ascends 0 box.rows box.next_id

pub Ascends-append :
    (lo : ℕ) (rs : List Row) (hi : ℕ) (r : Row)
    → Ascends lo rs hi
    → r.id ≡ hi
    → Ascends lo (rs ++ r ∷ []) (hi + 1)
Ascends-append lo [] hi r h e = omega arith
Ascends-append lo (x ∷ rs) hi r h e = (h.0, Ascends-append (x.id + 1) rs hi r h.1 e)

pub enqueue-IsOrdered :
    (m : Message) (now : ℕ) (box : Outbox) → IsOrdered box → IsOrdered (enqueue m now box)
unfolding enqueue
enqueue-IsOrdered m now box h = record { ids = Ascends-append 0 box.rows box.next_id _ h.ids refl }

pub Ascends-weaken :
    (a lo : ℕ) (rs : List Row) (hi : ℕ) → a ≤ lo → Ascends lo rs hi → Ascends a rs hi
Ascends-weaken a lo [] hi p h = omega arith
Ascends-weaken a lo (r ∷ rs) hi p h = (omega arith, h.1)

pub insert-ascending :
    (r : Row) (rs : List Row) (hi : ℕ) → Ascends (r.id + 1) rs hi → insert_by_id r rs ≡ r ∷ rs
unfolding insert_by_id
insert-ascending r [] hi h = refl
insert-ascending r (x ∷ rs) hi h = ground arith

pub order-ascending : (lo : ℕ) (rs : List Row) (hi : ℕ) → Ascends lo rs hi → order_by_id rs ≡ rs
unfolding order_by_id
order-ascending lo [] hi h = refl
order-ascending lo (r ∷ rs) hi h =
    rw (order-ascending (r.id + 1) rs hi h.1) (insert-ascending r rs hi h.1)

pub without-ascending :
    (i lo : ℕ) (rs : List Row) (hi : ℕ) → i < lo → Ascends lo rs hi → without i rs ≡ rs
unfolding without
without-ascending i lo [] hi p h = refl
without-ascending i lo (r ∷ rs) hi p h = ground (arith, without-ascending i (r.id + 1) rs hi)

pub without-head :
    (r : Row) (rs : List Row) (hi : ℕ) → Ascends (r.id + 1) rs hi → without r.id (r ∷ rs) ≡ rs
unfolding without
without-head r rs hi h = ground (arith, without-ascending r.id (r.id + 1) rs hi)

pub Ascends-suffix :
    (lo : ℕ) (xs ys : List Row) (hi : ℕ) → Ascends lo (xs ++ ys) hi → Ascends lo ys hi
Ascends-suffix lo [] ys hi h = h
Ascends-suffix lo (x ∷ xs) ys hi h =
    Ascends-weaken lo (x.id + 1) ys hi (omega arith) (Ascends-suffix (x.id + 1) xs ys hi h.1)

-- Deleting the oldest row drops it and nothing else.
pub rows-delete_head :
    (box : Outbox) (r : Row) (rs : List Row)
    → IsOrdered box
    → box.rows ≡ r ∷ rs
    → (delete r.id box).rows ≡ rs
unfolding delete
rows-delete_head box r rs h e =
    ap (without r.id) e
    ∙ without-head r rs box.next_id (subst (λ l. Ascends 0 l box.next_id) e h.ids).1

pub delete-IsOrdered :
    (box : Outbox) (r : Row) (rs : List Row)
    → IsOrdered box
    → box.rows ≡ r ∷ rs
    → IsOrdered (delete r.id box)
unfolding delete
delete-IsOrdered box r rs h e = record {
  ids =
      subst (λ l. Ascends 0 l box.next_id) (sym (rows-delete_head box r rs h e))
        (Ascends-suffix 0 (r ∷ []) rs box.next_id (subst (λ l. Ascends 0 l box.next_id) e h.ids));
}

pub oldest-append :
    (batch lo : ℕ) (box : Outbox)
    → Ascends lo box.rows box.next_id
    → box.rows ≡ oldest batch box ++ drop batch box.rows
unfolding oldest
oldest-append batch lo box h =
    rw (order-ascending lo box.rows box.next_id h) (sym (take-append-drop batch box.rows))
