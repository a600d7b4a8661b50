-- ===== src/Maintenance/WorkOrders/Final.antt =====
-- What a successful request does to a work order, and that a closed or cancelled one stays as it is.
use digital_twin.Prelude.{
  ℕ, Bool, true, false, some, List, [], ◌∷◌, ◌==◌, ◌≡◌, refl, ap, ◌∙◌, sym, arith, ==_iff,
  Bool-cases, Option-cases, inl, inr, if◌then◌else◌,
}
use digital_twin.Prelude.Result.{Result, ok, err, bind_ok}
use digital_twin.Maintenance.WorkOrders.{
  WorkOrder, WorkOrderUpdate, WorkOrderClose, Db, Reply, Entry, update_entry, close_entry,
  is_terminal, is_rejection, is_reversed, get_or_404, find, save, updated, checked_update, written,
  update_order, closed_order, resets, checked_close, close_order,
}

pub find-id : (i : ℕ) (o : WorkOrder) (l : List WorkOrder) → find i l ≡ some o → o.id ≡ i
unfolding find
find-id i o [] h = cc
find-id i o (x ∷ l) h = ground (arith, find-id i o l)

-- saving a row over one of the table
pub find-save :
    (j : ℕ) (o x : WorkOrder) (l : List WorkOrder)
    → find o.id l ≡ some x
    → find j (save o l) ≡ (if o.id == j then some o else find j l)
unfolding find save
find-save j o x [] h = cc
find-save j o x (y ∷ l) h = ground (arith, find-save j o x l)

find-written :
    (j i : ℕ) (e : Entry) (o o' : WorkOrder) (db : Db)
    → find i db.orders ≡ some o
    → o'.id ≡ o.id
    → find j (written e o' db).orders ≡ (if i == j then some o' else find j db.orders)
unfolding written
find-written j i e o o' db found same =
    let at : o'.id ≡ i = same ∙ find-id i o db.orders found in
    find-save j o' o db.orders (ap (λ k. find k db.orders) at ∙ found)
    ∙ ap (λ k. if k == j then some o' else find j db.orders) at

checked_update_lem :
    (known : ℕ → Bool) (d : WorkOrderUpdate) (o o' : WorkOrder)
    → checked_update known d o ≡ ok o'
    → (is_terminal o.status ≡ false)
      × (o'.id ≡ o.id)
      × (is_reversed o'.planned_start o'.planned_end ≡ false)
unfolding checked_update updated
checked_update_lem known d o o' h = (ground (arith, h), ground (arith, h), ground (arith, h))

checked_close_lem :
    (has_commands : Bool) (known : ℕ → Bool) (r : Reply) (d : WorkOrderClose) (now : ℕ)
    (o o' : WorkOrder)
    → checked_close has_commands known r d now o ≡ ok o'
    → (is_terminal o.status ≡ false)
      × (resets has_commands known d o ≡ true → is_rejection r ≡ false)
      × (o' ≡ closed_order d now o)
unfolding checked_close
checked_close_lem has_commands known r d now o o' h =
    (ground (arith, h), (λ s. ground (arith, h, s)), ground (arith, h))

get_or_404-find :
    (i : ℕ) (db : Db) (o : WorkOrder) → get_or_404 i db ≡ ok o → find i db.orders ≡ some o
unfolding get_or_404
get_or_404-find i db o h = elim (Option-cases (find i db.orders)) [
  | inl e ↦ absurd (ground (arith, h, e))
  | inr (x, e) ↦ ground (arith, h, e)
]

update_lem :
    (known : ℕ → Bool) (i : ℕ) (d : WorkOrderUpdate) (db db' : Db)
    → update_order known i d db ≡ ok db'
    → (o o' : WorkOrder) × (find i db.orders ≡ some o)
      × (checked_update known d o ≡ ok o')
      × (db' ≡ written update_entry o' db)
unfolding update_order
update_lem known i d db db' h =
    let (o, found, h') = bind_ok (get_or_404 i db) _ h in
    let (o', checked, h'') = bind_ok (checked_update known d o) _ h' in
    (o, o', get_or_404-find i db o found, checked, cc)

close_lem :
    (has_commands : Bool) (known : ℕ → Bool) (r : Reply) (i : ℕ) (d : WorkOrderClose) (now : ℕ)
    (db db' : Db)
    → close_order has_commands known r i d now db ≡ ok db'
    → (o o' : WorkOrder) × (find i db.orders ≡ some o)
      × (checked_close has_commands known r d now o ≡ ok o')
      × (db' ≡ written close_entry o' db)
unfolding close_order
close_lem has_commands known r i d now db db' h =
    let (o, found, h') = bind_ok (get_or_404 i db) _ h in
    let (o', checked, h'') = bind_ok (checked_close has_commands known r d now o) _ h' in
    (o, o', get_or_404-find i db o found, checked, cc)

-- `close_order` succeeds only on an order that is neither closed nor cancelled, and only if no reset
-- was sent or its reply is no rejection; then the order is closed with the given outcome, and
-- every other row is as it was.
pub close_order-closes :
    (has_commands : Bool) (known : ℕ → Bool) (r : Reply) (i : ℕ) (d : WorkOrderClose) (now : ℕ)
    (db db' : Db)
    → close_order has_commands known r i d now db ≡ ok db'
    → (o : WorkOrder) × (find i db.orders ≡ some o)
      × (is_terminal o.status ≡ false)
      × (resets has_commands known d o ≡ true → is_rejection r ≡ false)
      × ((j : ℕ)
          → find j db'.orders ≡ (if i == j then some (closed_order d now o) else find j db.orders))
unfolding closed_order
close_order-closes has_commands known r i d now db db' h =
    let (o, o', found, checked, e) = close_lem has_commands known r i d now db db' h in
    let (live, answered, same) = checked_close_lem has_commands known r d now o o' checked in
    (
      o,
      found,
      live,
      answered,
      λ j.
          ap (λ t. find j t.orders) e
          ∙ find-written j i close_entry o o' db found (ap (λ t. t.id) same)
          ∙ ap (λ t. if i == j then some t else find j db.orders) same,
    )

other_row :
    (i j : ℕ) (x o x' : WorkOrder) (db : Db)
    → find i db.orders ≡ some x
    → find j db.orders ≡ some o
    → is_terminal x.status ≡ false
    → is_terminal o.status ≡ true
    → (if i == j then some x' else find j db.orders) ≡ some o
other_row i j x o x' db at found live final = elim (Bool-cases (i == j)) [
  | inl t ↦
      let e : some x ≡ some o = sym at ∙ ap (λ k. find k db.orders) ((==_iff i j).0 t) ∙ found in
      let same : x ≡ o = cc in
      absurd (ground (arith, live, final, ap (λ y. is_terminal y.status) same))
  | inr f ↦ rw f found
]

-- a request on the work orders; the second form has the reply of the simulator and the time
pub data Request : Type 0 where
  updating : ℕ → WorkOrderUpdate → Request
  closing : ℕ → WorkOrderClose → Reply → ℕ → Request

module _ (has_commands : Bool) (technician_known asset_known : ℕ → Bool) where
  kept : Result Db → Db → Db
  kept (ok db') db = db'
  kept (err problem) db = db

  -- a request that raises leaves the table as it was
  pub step : Request → Db → Db
  unfolding kept
  step (updating i d) db = kept (update_order technician_known i d db) db
  step (closing i d r now) db = kept (close_order has_commands asset_known r i d now db) db

  pub run : List Request → Db → Db
  run [] db = db
  run (q ∷ l) db = run l (step q db)

  kept-final :
      (m : Result Db) (db : Db) (j : ℕ) (o : WorkOrder)
      → find j db.orders ≡ some o
      → ((db' : Db) → m ≡ ok db' → find j db'.orders ≡ some o)
      → find j (kept m db).orders ≡ some o
  unfolding kept
  kept-final (ok db') db j o found h = h db' refl
  kept-final (err problem) db j o found h = found

  step-final :
      (q : Request) (db : Db) (j : ℕ) (o : WorkOrder)
      → find j db.orders ≡ some o
      → is_terminal o.status ≡ true
      → find j (step q db).orders ≡ some o
  unfolding step
  step-final (updating i d) db j o found final =
      kept-final (update_order technician_known i d db) db j o found (λ db' h.
        let (x, x', at, checked, e) = update_lem technician_known i d db db' h in
        let (live, same, ordered) = checked_update_lem technician_known d x x' checked in
        ap (λ t. find j t.orders) e
        ∙ find-written j i update_entry x x' db at same
        ∙ other_row i j x o x' db at found live final)
  step-final (closing i d r now) db j o found final =
      kept-final (close_order has_commands asset_known r i d now db) db j o found (λ db' h.
        let (x, at, live, answered, rows) =
          close_order-closes has_commands asset_known r i d now db db' h in
        rows j ∙ other_row i j x o (closed_order d now x) db at found live final)

  -- A work order that is closed or cancelled is never changed again by updates and closures, of any
  -- orders, with any replies of the simulator.
  pub terminal_is_final :
      (l : List Request) (db : Db) (j : ℕ) (o : WorkOrder)
      → find j db.orders ≡ some o
      → is_terminal o.status ≡ true
      → find j (run l db).orders ≡ some o
  unfolding run
  terminal_is_final [] db j o found final = found
  terminal_is_final (q ∷ l) db j o found final =
      terminal_is_final l (step q db) j o (step-final q db j o found final) final
