-- ===== src/Edge/Runner/Threads/Backlog.antt =====
-- Where the messages stand that have not gone out, and what a state of the threads keeps.
use digital_twin.Prelude.{
  ℕ, Bool, true, List, [], ◌∷◌, ◌++◌, map, length, drop, ◌==◌, if◌then◌else◌, ◌≡◌, refl, arith,
  append-nil, append_assoc, ap, ◌∙◌,
}
use digital_twin.Edge.Outbox.{Message, Row, Outbox}
use digital_twin.Edge.Outbox.Ordered.{IsOrdered}
use digital_twin.Edge.Runner.{Link, send}
use digital_twin.Edge.Runner.Threads.{
  Publisher, ready, to_send, to_queue, Drainer, off, fetching, sending, deleting, State,
}

abbrev pub messages : List Row → List Message
messages = map (λ r. r.message)

-- the rows that no one has taken yet: a row that waits for its DELETE has gone out already
abbrev pub backlog : Drainer → List Row → List Row
backlog (deleting r rs) rows = drop 1 rows
backlog _ rows = rows

-- what `publish` holds between two statements
abbrev pub held : Publisher → List Message
held ready = []
held (to_send m) = m ∷ []
held (to_queue m) = m ∷ []

-- What the drain thread has read is a prefix of the table.
abbrev pub IsPrefixOf : Drainer → List Row → List Row → Type 0
IsPrefixOf (sending rs) rows left = rows ≡ rs ++ left
IsPrefixOf (deleting r rs) rows left = rows ≡ r ∷ (rs ++ left)
IsPrefixOf _ rows left = Unit {0}

abbrev pub IsIdle : Publisher → List Row → Type 0
IsIdle (to_send m) rows = rows ≡ []
IsIdle _ rows = Unit {0}

-- A row that waits for its DELETE is the last thing on the wire.
abbrev pub IsLast : Drainer → List Message → Type 0
IsLast (deleting r rs) wire = (w : List Message) × (wire ≡ w ++ r.message ∷ [])
IsLast _ wire = Unit {0}

-- The invariant, at where the two threads stand.
pub record InvAt (p : Publisher) (d : Drainer) (box : Outbox) (wire made : List Message)
    : Type 0 where
  pub ordered : IsOrdered box
  pub left : List Row
  pub batch : IsPrefixOf d box.rows left
  pub idle : IsIdle p box.rows
  pub last : IsLast d wire
  pub in_order : made ≡ wire ++ (messages (backlog d box.rows) ++ held p)

abbrev pub Inv : State → Type 0
Inv s = InvAt s.publisher s.drainer s.box s.link.wire s.made

pub wire-send :
    (accepts : ℕ → Bool) (m : Message) (link : Link)
    → (send accepts m link).1.wire
      ≡ (if (send accepts m link).0 then link.wire ++ m ∷ [] else link.wire)
unfolding send
wire-send accepts m link = ground arith

pub rows-zero : (rows : List Row) → (length rows == 0) ≡ true → rows ≡ []
rows-zero [] h = refl
rows-zero (r ∷ rows) h = ground arith

-- a message that is appended while nothing is held
pub hold :
    (m : Message) (made wire b : List Message)
    → made ≡ wire ++ (b ++ [])
    → made ++ m ∷ [] ≡ wire ++ (b ++ m ∷ [])
hold m made wire b h = ap (λ l. l ++ m ∷ []) h ∙ simp (append-nil, append_assoc)

pub backlog-nil : (d : Drainer) (rows : List Row) → rows ≡ [] → messages (backlog d rows) ≡ []
backlog-nil off rows e = rw e
backlog-nil fetching rows e = rw e
backlog-nil (sending rs) rows e = rw e
backlog-nil (deleting r rs) rows e = rw e

pub backlog-append :
    (d : Drainer) (rows left : List Row) (r : Row)
    → IsPrefixOf d rows left
    → backlog d (rows ++ r ∷ []) ≡ backlog d rows ++ r ∷ []
backlog-append off rows left r h = refl
backlog-append fetching rows left r h = refl
backlog-append (sending rs) rows left r h = refl
backlog-append (deleting x rs) rows left r h = rw h

pub IsPrefix-append :
    (d : Drainer) (rows left : List Row) (r : Row)
    → IsPrefixOf d rows left
    → IsPrefixOf d (rows ++ r ∷ []) (left ++ r ∷ [])
IsPrefix-append off rows left r h = tt
IsPrefix-append fetching rows left r h = tt
IsPrefix-append (sending rs) rows left r h = rw h (append_assoc rs left (r ∷ []))
IsPrefix-append (deleting x rs) rows left r h =
    rw h (ap (λ l. x ∷ l) (append_assoc rs left (r ∷ [])))

-- The publisher is about to send only if the table is empty.
pub IsIdle-absurd :
    (p : Publisher) (rows rows' l : List Row) (r : Row)
    → IsIdle p rows
    → rows ≡ r ∷ l
    → IsIdle p rows'
IsIdle-absurd ready rows rows' l r h e = tt
IsIdle-absurd (to_send m) rows rows' l r h e = cc
IsIdle-absurd (to_queue m) rows rows' l r h e = tt

pub IsLast-idle :
    (d : Drainer) (rows left : List Row) (wire : List Message)
    → IsPrefixOf d rows left
    → rows ≡ []
    → IsLast d wire
IsLast-idle off rows left wire h e = tt
IsLast-idle fetching rows left wire h e = tt
IsLast-idle (sending rs) rows left wire h e = tt
IsLast-idle (deleting r rs) rows left wire h e = cc
