-- ===== src/Maintenance/Availability/Slots.antt =====
-- The slots in which the optimiser takes a technician to be available.
use digital_twin.Prelude.{
  ℕ, zero, suc, ◌+◌, ◌<◌, ◌≡◌, refl, ap, ◌∙◌, arith, Bool, true, false, not, List, [], ◌∷◌, ◌&&◌,
  ◌||◌, is_empty, length, if◌then◌else◌,
}
use digital_twin.Maintenance.Availability.{
  Window, is_work, availability, covers, all_false, mark, mark_available, mark_leave,
  available_slots, flag_at, is_available, slot_time,
}

-- does a window of work cover the time?
unfoldable pub working : List Window → ℕ → Bool
working [] t = false
working (w ∷ ws) t = (is_work w.kind && covers w t) || working ws t

-- does another window cover it?
unfoldable pub away : List Window → ℕ → Bool
away [] t = false
away (w ∷ ws) t = (not (is_work w.kind) && covers w t) || away ws t

length-mark :
    (s : ℕ) (w : Window) (v : Bool) (i : ℕ) (slots : List Bool)
    → length (mark s w v i slots) ≡ length slots
unfolding mark
length-mark s w v i [] = refl
length-mark s w v i (b ∷ slots) = ap suc (length-mark s w v (suc i) slots)

length-all_false : (n : ℕ) → length (all_false n) ≡ n
unfolding all_false
length-all_false zero = refl
length-all_false (suc n) = ap suc (length-all_false n)

flag_at-all_false : (n k : ℕ) → flag_at (all_false n) k ≡ false
unfolding all_false flag_at
flag_at-all_false zero k = refl
flag_at-all_false (suc n) zero = refl
flag_at-all_false (suc n) (suc k) = flag_at-all_false n k

flag_at-mark :
    (s : ℕ) (w : Window) (v : Bool) (i : ℕ) (slots : List Bool) (k : ℕ)
    → k < length slots
    → flag_at (mark s w v i slots) k
      ≡ (if covers w (slot_time s (i + k)) then v else flag_at slots k)
unfolding mark flag_at
flag_at-mark s w v i [] k h = absurd (omega arith)
flag_at-mark s w v i (b ∷ slots) zero h =
    ap (λ j. if covers w (slot_time s j) then v else b) (let e : i ≡ i + 0 = omega arith in e)
flag_at-mark s w v i (b ∷ slots) (suc k) h =
    flag_at-mark s w v (suc i) slots k (omega arith)
    ∙ ap (λ j. if covers w (slot_time s j) then v else flag_at slots k)
        (let e : suc i + k ≡ i + suc k = omega arith in e)

-- a slot after the loop body, for either loop
flag_at-step :
    (b : Bool) (s : ℕ) (w : Window) (v : Bool) (slots : List Bool) (k : ℕ)
    → k < length slots
    → flag_at (if b then mark s w v 0 slots else slots) k
      ≡ (if b && covers w (slot_time s k) then v else flag_at slots k)
flag_at-step true s w v slots k h =
    flag_at-mark s w v 0 slots k h
    ∙ ap (λ j. if covers w (slot_time s j) then v else flag_at slots k)
        (let e : 0 + k ≡ k = omega arith in e)
flag_at-step false s w v slots k h = refl

length-step :
    (b : Bool) (s : ℕ) (w : Window) (v : Bool) (slots : List Bool)
    → length (if b then mark s w v 0 slots else slots) ≡ length slots
length-step true s w v slots = length-mark s w v 0 slots
length-step false s w v slots = refl

length-mark_available :
    (s : ℕ) (ws : List Window) (slots : List Bool)
    → length (mark_available s ws slots) ≡ length slots
unfolding mark_available
length-mark_available s [] slots = refl
length-mark_available s (w ∷ ws) slots =
    length-mark_available s ws _ ∙ length-step (is_work w.kind) s w true slots

flag_at-mark_available :
    (s : ℕ) (ws : List Window) (slots : List Bool) (k : ℕ)
    → k < length slots
    → flag_at (mark_available s ws slots) k ≡ (working ws (slot_time s k) || flag_at slots k)
unfolding mark_available working
flag_at-mark_available s [] slots k h = refl
flag_at-mark_available s (w ∷ ws) slots k h =
    let l : k < length (if is_work w.kind then mark s w true 0 slots else slots) =
      rw (length-step (is_work w.kind) s w true slots) h in
    flag_at-mark_available s ws (if is_work w.kind then mark s w true 0 slots else slots) k l
    ∙ ground (arith, flag_at-step (is_work w.kind) s w true slots k h)

swap_if : {A : Type 0} (b : Bool) (x y : A) → (if b then x else y) ≡ (if not b then y else x)
swap_if true x y = refl
swap_if false x y = refl

flag_at-mark_leave :
    (s : ℕ) (ws : List Window) (slots : List Bool) (k : ℕ)
    → k < length slots
    → flag_at (mark_leave s ws slots) k ≡ (not (away ws (slot_time s k)) && flag_at slots k)
unfolding mark_leave away
flag_at-mark_leave s [] slots k h = refl
flag_at-mark_leave s (w ∷ ws) slots k h =
    let next : List Bool = if not (is_work w.kind) then mark s w false 0 slots else slots in
    let l : k < length next = rw (length-step (not (is_work w.kind)) s w false slots) h in
    ap (λ x. flag_at (mark_leave s ws x) k)
      (swap_if (is_work w.kind) slots (mark s w false 0 slots))
    ∙ flag_at-mark_leave s ws next k l
    ∙ ground (arith, flag_at-step (not (is_work w.kind)) s w false slots k h)

length-mark_leave :
    (s : ℕ) (ws : List Window) (slots : List Bool) → length (mark_leave s ws slots) ≡ length slots
unfolding mark_leave
length-mark_leave s [] slots = refl
length-mark_leave s (w ∷ ws) slots =
    length-mark_leave s ws _
    ∙ ap length (swap_if (is_work w.kind) slots (mark s w false 0 slots))
    ∙ length-step (not (is_work w.kind)) s w false slots

empty_flags : (k : ℕ) → is_available [] k ≡ true
unfolding is_available
empty_flags k = refl

is_available-nonempty :
    (slots : List Bool) (k : ℕ) → k < length slots → is_available slots k ≡ flag_at slots k
unfolding is_available
is_available-nonempty [] k h = absurd (omega arith)
is_available-nonempty (b ∷ slots) k h = refl

any_window :
    (ws : List Window) (start n slot : ℕ)
    → slot < n
    → is_available
        (if is_empty ws then [] else mark_leave start ws (mark_available start ws (all_false n)))
        slot
      ≡ (is_empty ws || (not (away ws (slot_time start slot)) && working ws (slot_time start slot)))
any_window [] start n slot h = empty_flags slot
any_window (w ∷ ws) start n slot h =
    let m : List Bool = mark_available start (w ∷ ws) (all_false n) in
    let k : slot < length (all_false n) = omega (arith, h, length-all_false n) in
    let k' : slot < length m =
      omega (arith, k, length-mark_available start (w ∷ ws) (all_false n)) in
    let k'' : slot < length (mark_leave start (w ∷ ws) m) =
      omega (arith, k', length-mark_leave start (w ∷ ws) m) in
    is_available-nonempty (mark_leave start (w ∷ ws) m) slot k''
    ∙ flag_at-mark_leave start (w ∷ ws) m slot k'
    ∙ ground (
      arith,
      flag_at-mark_available start (w ∷ ws) (all_false n) slot k,
      flag_at-all_false n slot,
    )

-- In a slot of the horizon the optimiser takes a technician to be available in exactly these cases:
-- none of the technician's windows overlaps the horizon, or of the windows that do, one of kind
-- available covers the start of the slot and none of another kind covers it.
pub is_available-available_slots :
    (rows : List Window) (start n_slots slot : ℕ)
    → slot < n_slots
    → is_available (available_slots rows start n_slots) slot ≡ (
        is_empty (availability rows start (slot_time start n_slots))
        || (not (away (availability rows start (slot_time start n_slots)) (slot_time start slot))
            && working (availability rows start (slot_time start n_slots)) (slot_time start slot)))
unfolding available_slots
is_available-available_slots rows start n slot h =
    any_window (availability rows start (slot_time start n)) start n slot h
