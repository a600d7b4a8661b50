-- ===== src/Voice/Actions/Once.antt =====
-- When a tool is called again for one read-back.
use digital_twin.Prelude.{
  ℕ, suc, ◌+◌, ◌≤◌, String, Bool, true, false, not, Option, none, some, List, [], ◌∷◌, ◌++◌, ◌==◌,
  ◌&&◌, ◌≡◌, ◌⊎◌, is_empty, if_ind, refl, ap, ◌∙◌, arith, if◌then◌else◌, inl, inr, Bool-cases,
}
use digital_twin.Voice.Actions.{
  Setup, Ending, returned, problem, crashed, called, Store, Verdict, Entry, cancelled_entry,
  needs_confirmation, Request, Control, say_confirm, say_cancel, is_pending, is_expired,
  second_factor_ok, needs_second_factor, decide, refused, with_status, execute, find, save, settle,
  confirm_row, confirm, cancel_row, cancel, read_back, expire_stale, control_row, handle_control,
}
use digital_twin.Voice.Validation.{World, VoiceAction, Status, validate, cancelled}
use digital_twin.Prelude.Result.{Result}
use digital_twin.Voice.Actions.Guards.{ran-MayRun}

-- how often the tool of an action was called
pub runs : ℕ → List ℕ → ℕ
runs i [] = 0
runs i (j ∷ l) = (if j == i then 1 else 0) + runs i l

-- how many rows of the id are pending
open_rows : ℕ → List VoiceAction → ℕ
open_rows i [] = 0
open_rows i (a ∷ l) = (if (a.id == i) && is_pending a.status then 1 else 0) + open_rows i l

-- one request to the service
pub data Event : Type 0 where
  reading_back : Request → Event
  -- with the caller, the action, the PIN, and how the tool ends
  confirming : String → ℕ → Option String → Ending → Event
  cancelling : ℕ → Event
  -- with the caller, the session, what was said, and how the tool ends
  saying : String → ℕ → Control → Ending → Event
  expiring : Event

module _ (setup : Setup) where
  -- the requests are answered one after the other, each at a time and with the rows there are then
  pub step : Event × ℕ × World → Store → Store
  step (reading_back r, now, world) s = read_back setup r now s
  step (confirming sub i pin ending, now, world) s = (confirm setup world sub i pin now ending s).0
  step (cancelling i, now, world) s = (cancel i s).0
  step (saying sub session c ending, now, world) s =
      (handle_control setup world sub session c now ending s).0
  step (expiring, now, world) s = record s { actions = expire_stale now s.actions }

  pub run : List (Event × ℕ × World) → Store → Store
  run [] s = s
  run (e ∷ l) s = run l (step e s)

abbrev pub new_store : Store
new_store = record { actions = []; next_id = 0; audit = []; ran = []; repeatable = [] }

-- each id is pending or has run, at most once together and once more for each call that was rolled
-- back; and a new id has neither
record Inv (s : Store) : Type 0 where
  once : (i : ℕ) → runs i s.ran + open_rows i s.actions ≤ 1 + runs i s.repeatable
  fresh : (i : ℕ) → s.next_id ≤ i → runs i s.ran + open_rows i s.actions ≡ 0

runs-append : (i j : ℕ) (l : List ℕ) → runs i (l ++ j ∷ []) ≡ runs i l + (if j == i then 1 else 0)
unfolding runs
runs-append i j [] = omega arith
runs-append i j (x ∷ l) = omega (arith, runs-append i j l)

open_rows-append :
    (i : ℕ) (l : List VoiceAction) (a : VoiceAction)
    → open_rows i (l ++ a ∷ [])
      ≡ open_rows i l + (if (a.id == i) && is_pending a.status then 1 else 0)
unfolding open_rows
open_rows-append i [] a = omega arith
open_rows-append i (x ∷ l) a = omega (arith, open_rows-append i l a)

abbrev weight : ℕ → VoiceAction → ℕ
weight i a = if (a.id == i) && is_pending a.status then 1 else 0

find_here :
    (i : ℕ) (x b : VoiceAction) (l : List VoiceAction)
    → (x.id == i) ≡ true
    → find i (x ∷ l) ≡ some b
    → x ≡ b
unfolding find
find_here i x b l t h = cc (rw (t, find) at h)

find_later :
    (i : ℕ) (x b : VoiceAction) (l : List VoiceAction)
    → (x.id == i) ≡ false
    → find i (x ∷ l) ≡ some b
    → find i l ≡ some b
unfolding find
find_later i x b l f h = rw (f, find) at h

find-id : (i : ℕ) (b : VoiceAction) (l : List VoiceAction) → find i l ≡ some b → b.id ≡ i
unfolding find
find-id i b [] h = cc
find-id i b (x ∷ l) h = ground (arith, find-id i b l)

-- saving a row over the one that is found
open_rows-save :
    (i : ℕ) (a b : VoiceAction) (l : List VoiceAction)
    → find b.id l ≡ some a
    → open_rows i (save b l) + weight i a ≡ open_rows i l + weight i b
unfolding open_rows find save
open_rows-save i a b [] h = cc
open_rows-save i a b (x ∷ l) h = elim (Bool-cases (x.id == b.id)) [
  | inl t ↦ rw t (omega (arith, ap (weight i) (find_here b.id x a l t h)))
  | inr f ↦ rw f (omega (arith, open_rows-save i a b l (find_later b.id x a l f h)))
]

cancelled-weight : (i : ℕ) (a : VoiceAction) → weight i (record a { status = cancelled }) ≡ 0
cancelled-weight i a = ground arith

open_rows-expire :
    (i now : ℕ) (l : List VoiceAction) → open_rows i (expire_stale now l) ≤ open_rows i l
unfolding open_rows expire_stale
open_rows-expire i now [] = omega arith
open_rows-expire i now (a ∷ l) = ground (arith, open_rows-expire i now l)

-- a pending row that is found counts
open_rows-find :
    (i : ℕ) (a : VoiceAction) (l : List VoiceAction)
    → find a.id l ≡ some a
    → weight i a ≤ open_rows i l
open_rows-find i a l h =
    omega (arith, open_rows-save i a (record a { status = cancelled }) l h, cancelled-weight i a)

-- A step gives no id more calls and pending rows than calls that were rolled back.
abbrev Keeps : Store → Store → ℕ → Type 0
Keeps s s' i =
    (runs i s'.ran + open_rows i s'.actions + runs i s.repeatable
      ≤ runs i s.ran + open_rows i s.actions + runs i s'.repeatable)
    × (runs i s.ran + open_rows i s.actions ≡ 0 → runs i s'.ran + open_rows i s'.actions ≡ 0)

-- A verdict closes the row, or the call was rolled back and the row is as it was.
abbrev pub Settles : VoiceAction → Verdict → Type 0
Settles a v =
    (v.action.id ≡ a.id)
    × (((is_pending v.action.status ≡ false) × (v.rolled_back ≡ false))
        ⊎ ((v.action ≡ a) × (v.rolled_back ≡ true)))

settle_counts :
    (i : ℕ) (v : Verdict) (a : VoiceAction) (s : Store)
    → Settles a v
    → (v.ran ≡ true → is_pending a.status ≡ true)
    → find a.id s.actions ≡ some a
    → Keeps s (settle v a.id s) i
unfolding settle
settle_counts i v a s (same, closes) was_open found =
    let e = open_rows-save i a v.action s.actions (ap (λ k. find k s.actions) same ∙ found) in
    let here = open_rows-find i a s.actions found in
    elim closes [
      | inl (done, kept) ↦ (
        ground (arith, e, runs-append i a.id s.ran, done, was_open, kept),
        λ z. ground (arith, e, here, runs-append i a.id s.ran, done, was_open, z),
      )
      | inr (row, rolled) ↦
          (let w : weight i v.action ≡ weight i a = ap (weight i) row in
            (
              ground
                  (arith, e, w, runs-append i a.id s.ran, runs-append i a.id s.repeatable, rolled),
              λ z. ground (arith, e, w, here, runs-append i a.id s.ran, was_open, z),
            ))
    ]

Inv-le : (s s' : Store) → s'.next_id ≡ s.next_id → ((i : ℕ) → Keeps s s' i) → Inv s → Inv s'
Inv-le s s' n c h = record {
  once = λ i. omega (arith, (c i).0, h.once i);
  fresh = λ i le. (c i).1 (h.fresh i (omega (arith, le, n)));
}

added-Inv :
    (a : VoiceAction) (s : Store) (audit : List (Entry × ℕ))
    → a.id ≡ s.next_id
    → Inv s
    → Inv (record s { actions = s.actions ++ a ∷ []; next_id = suc s.next_id; audit = audit })
added-Inv a s audit e h = record {
  once = λ i. ground (arith, open_rows-append i s.actions a, h.once i, h.fresh i, e);
  fresh = λ i le. ground (arith, open_rows-append i s.actions a, h.fresh i, e, le);
}

if-Inv : (b : Bool) (s t : Store) → Inv s → Inv t → Inv (if b then s else t)
if-Inv true s t h k = h
if-Inv false s t h k = k

module _ (setup : Setup) where
  called-Settles : (e : Ending) (row a : VoiceAction) → a.id ≡ row.id → Settles row (called e row a)
  unfolding called with_status
  called-Settles returned row a h = (h, inl (refl, refl))
  called-Settles problem row a h = (h, inl (refl, refl))
  called-Settles (crashed true) row a h = (h, inl (refl, refl))
  called-Settles (crashed false) row a h = (refl, inr (refl, refl))

  execute-Settles :
      (world : World) (now : ℕ) (e : Ending) (row a : VoiceAction)
      → a.id ≡ row.id
      → Settles row (execute world now e row a)
  unfolding execute with_status
  execute-Settles world now e row a h =
      if_ind (Settles row) (is_empty (validate world now a)) _ _ (λ t. called-Settles e row a h)
        (λ f. (h, inl (refl, refl)))

  decide-Settles :
      (world : World) (sub : String) (pin : Option String) (now : ℕ) (ending : Ending)
      (a : VoiceAction)
      → Settles a (decide setup world sub pin now ending a)
  unfolding decide refused
  decide-Settles world sub pin now ending a =
      if_ind (Settles a) (not (is_pending a.status)) _ _
        (λ t. (refl, inl (ground (arith, t), refl)))
        (λ _.
          if_ind (Settles a) (is_expired now a.expires_at) _ _ (λ _. (refl, inl (refl, refl)))
            (λ _.
              if_ind (Settles a) (not (needs_second_factor a.tier)) _ _
                (λ _. execute-Settles world now ending a a refl)
                (λ _.
                  if_ind (Settles a) (not setup.allow_t3) _ _ (λ _. (refl, inl (refl, refl)))
                    (λ _.
                      if_ind (Settles a) (not (second_factor_ok setup sub pin)) _ _
                        (λ _. (refl, inl (refl, refl)))
                        (λ _. execute-Settles world now ending a _ refl)))))

  confirm_row-Inv :
      (world : World) (sub : String) (pin : Option String) (now i : ℕ) (ending : Ending) (s : Store)
      (o : Option VoiceAction)
      → find i s.actions ≡ o
      → Inv s
      → Inv (confirm_row setup world sub pin now ending s o).0
  unfolding confirm_row settle
  confirm_row-Inv world sub pin now i ending s none e h = h
  confirm_row-Inv world sub pin now i ending s (some a) e h =
      let v = decide setup world sub pin now ending a in
      Inv-le s (settle v a.id s) refl
        (λ k.
          settle_counts k v a s (decide-Settles world sub pin now ending a)
            (λ r. (ran-MayRun setup world sub pin now ending a r).pending)
            (ap (λ j. find j s.actions) (find-id i a s.actions e) ∙ e))
        h

  cancel_row-Inv :
      (i : ℕ) (s : Store) (o : Option VoiceAction)
      → find i s.actions ≡ o
      → Inv s
      → Inv (cancel_row s o).0
  unfolding cancel_row settle with_status
  cancel_row-Inv i s none e h = h
  cancel_row-Inv i s (some a) e h = elim (Bool-cases (is_pending a.status)) [
    | inl t ↦ rw t (
        Inv-le s (settle (with_status a cancelled (some cancelled_entry) false) a.id s) refl
          (λ k.
            settle_counts k (with_status a cancelled (some cancelled_entry) false) a s
              (refl, inl (refl, refl)) (λ r. ground (arith, r))
              (ap (λ j. find j s.actions) (find-id i a s.actions e) ∙ e))
          h)
    | inr f ↦ rw f h
  ]

  expire-Inv :
      (now : ℕ) (s : Store) → Inv s → Inv (record s { actions = expire_stale now s.actions })
  expire-Inv now s h =
      Inv-le s _ refl
        (λ i. (
          omega (arith, open_rows-expire i now s.actions),
          λ z. omega (arith, open_rows-expire i now s.actions, z),
        ))
        h

  control_row-Inv :
      (world : World) (sub : String) (c : Control) (now : ℕ) (ending : Ending) (before s : Store)
      (o : Option VoiceAction)
      → Inv before
      → Inv s
      → Inv (control_row setup world sub c now ending before s o).0
  unfolding control_row confirm cancel
  control_row-Inv world sub c now ending before s none k h = h
  control_row-Inv world sub say_confirm now ending before s (some a) k h =
      if_ind (λ (x : Store × Result Status). Inv x.0)
        (decide setup world sub none now ending a).rolled_back _ _
        (λ t. confirm_row-Inv world sub none now a.id ending before _ refl k)
        (λ t. confirm_row-Inv world sub none now a.id ending s _ refl h)
  control_row-Inv world sub say_cancel now ending before s (some a) k h =
      cancel_row-Inv a.id s _ refl h

  read_back-Inv : (r : Request) (now : ℕ) (s : Store) → Inv s → Inv (read_back setup r now s)
  unfolding read_back
  read_back-Inv r now s h =
      if-Inv (not (needs_confirmation r.tier)) s _ h
        (if-Inv (needs_second_factor r.tier && not setup.allow_t3) s _ h (added-Inv _ s _ refl h))

  step-Inv : (e : Event × ℕ × World) (s : Store) → Inv s → Inv (step setup e s)
  unfolding step confirm cancel handle_control
  step-Inv (reading_back r, now, world) s h = read_back-Inv r now s h
  step-Inv (confirming sub i pin ending, now, world) s h =
      confirm_row-Inv world sub pin now i ending s _ refl h
  step-Inv (cancelling i, now, world) s h = cancel_row-Inv i s _ refl h
  step-Inv (saying sub session c ending, now, world) s h =
      control_row-Inv world sub c now ending s _ _ h (expire-Inv now s h)
  step-Inv (expiring, now, world) s h = expire-Inv now s h

  run-Inv : (l : List (Event × ℕ × World)) (s : Store) → Inv s → Inv (run setup l s)
  unfolding run
  run-Inv [] s h = h
  run-Inv (e ∷ l) s h = run-Inv l (step setup e s) (step-Inv e s h)

  -- Whatever is read back, confirmed with any PIN, cancelled, said or expired, in any order and at any
  -- times, and however the tools end: the tool of a read-back is called at most once, and once more
  -- for each call of it that ended in an exception other than a `ProblemError` before any commit, which
  -- leaves the read-back pending.
  pub tools_run_at_most_once :
      (l : List (Event × ℕ × World)) (i : ℕ)
      → runs i (run setup l new_store).ran ≤ 1 + runs i (run setup l new_store).repeatable
  unfolding runs open_rows
  tools_run_at_most_once l i = omega (
    arith,
    (run-Inv l new_store (record { once = λ j. omega arith; fresh = λ j le. omega arith })).once i,
  )
