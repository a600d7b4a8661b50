-- ===== src/Edge/Window/Schedule.antt =====
-- When a window is due: first when it is full, then every `stride` samples.
use digital_twin.Prelude.{
  ℕ, suc, ◌+◌, ◌-◌, ◌%◌, ◌≤◌, ◌<◌, min, max, String, Bool, true, none, List, [], ◌∷◌, ◌++◌, length,
  ◌==◌, leb, ◌&&◌, ◌≡◌, refl, sym, ap, ap₂, inl, inr, Bool-cases, ==_iff, dec_lt, ◌∙◌, arith,
  length-append, length-drop, if◌then◌else◌,
}
use native.Mathlib.Nat.{mod-add-mod, mod-lt, mod-eq_of_lt, mod_self, zero-mod}
use digital_twin.Edge.Window.Carry.{any_known-carry}
use digital_twin.Edge.Window.{
  FeatureSpec, Window, push, carry, any_known, append, is_due, add, Readings, fresh, row_of,
}

length-push {ℓ} :
    {A : Type ℓ} (n : ℕ) (x : A) (xs : List A) → length (push n x xs) ≡ min n (length xs + 1)
unfolding push
length-push n x xs =
    omega (arith, length-drop (suc (length xs) - n) (xs ++ x ∷ []), length-append xs (x ∷ []))

-- the sample number at which the first score is due
abbrev pub first_due : FeatureSpec → ℕ
first_due spec = max spec.window_size spec.stride

mod_step : (a s : ℕ) → 0 < s → (a + 1) % s ≡ (if (a % s + 1) == s then 0 else a % s + 1)
mod_step a s h = sym (mod-add-mod a s 1) ∙ elim (Bool-cases ((a % s + 1) == s)) [
  | inl t ↦ rw t (ap (λ n. n % s) ((==_iff (a % s + 1) s).0 t) ∙ mod_self s)
  | inr f ↦ rw f (mod-eq_of_lt (ground (arith, mod-lt a h)))
]

-- Is a score due at the k-th sample?
abbrev pub due_at : FeatureSpec → ℕ → Bool
due_at spec k = leb (first_due spec) k && ((k - first_due spec) % spec.stride == 0)

-- The count since the last score, after k samples.
pub record Phase (spec : FeatureSpec) (k since : ℕ) : Type 0 where
  pub early : k < first_due spec → since ≡ k
  pub late : first_due spec ≤ k → since ≡ (k - first_due spec) % spec.stride

module _ (spec : FeatureSpec) (k since : ℕ) (pos : 0 < spec.stride) (h : Phase spec k since) where
  late_step :
      first_due spec ≤ k
      → (k + 1 - first_due spec) % spec.stride
        ≡ (if (since + 1) == spec.stride then 0 else since + 1)
  late_step l = rw (h.late l) (
      ap (λ n. n % spec.stride)
        (let e : k + 1 - first_due spec ≡ k - first_due spec + 1 = omega arith in e)
      ∙ mod_step (k - first_due spec) spec.stride pos)

  due_now :
      ((min (k + 1) spec.window_size == spec.window_size) && leb spec.stride (since + 1))
      ≡ due_at spec (k + 1)
  due_now = elim (dec_lt k (first_due spec)) [
    | yes early ↦ ground (arith, h.early early, zero-mod spec.stride)
    | no late ↦
        ground
          (arith, late_step (omega arith), h.late (omega arith), mod-lt (k - first_due spec) pos)
  ]

  due_next : Phase spec (k + 1) (if due_at spec (k + 1) then 0 else since + 1)
  due_next = record {
    early = λ e. ground (arith, h.early);
    late = λ l. elim (dec_lt k (first_due spec)) [
      | yes early ↦ ground (arith, zero-mod spec.stride)
      | no late ↦
          ground
            (arith, late_step (omega arith), h.late (omega arith), mod-lt (k - first_due spec) pos)
    ];
  }

-- What a window holds after k samples.
pub record Counted {F : Type 0} (spec : FeatureSpec) (w : Window F) (k : ℕ) : Type 0 where
  pub filled : length w.rows ≡ min k spec.window_size
  pub phase : Phase spec k w.since_emit

module _ {F : Type 0} (zero_f : F) (spec : FeatureSpec) where
  -- the results of `add` on a sequence of samples
  pub adds : List (ℕ × Readings F) → Window F → List Bool
  adds [] w = []
  adds ((time, metrics) ∷ l) w =
      (add zero_f spec time metrics w).0 ∷ adds l (add zero_f spec time metrics w).1

module _ {F : Type 0} (spec : FeatureSpec) where
  -- whether a score is due at the samples number k + 1, k + 2, …
  pub schedule : ℕ → List (ℕ × Readings F) → List Bool
  schedule k [] = []
  schedule k (x ∷ l) = due_at spec (k + 1) ∷ schedule (k + 1) l

module _ {F : Type 0} (zero_f : F) (spec : FeatureSpec) (pos : 0 < spec.stride) where
  add-Counted :
      (time : ℕ) (metrics : Readings F) (w : Window F) (k : ℕ)
      → any_known spec.sensor_cols (carry spec.sensor_cols metrics w.last) ≡ true
      → Counted spec w k
      → ((add zero_f spec time metrics w).0 ≡ due_at spec (k + 1))
        × Counted spec (add zero_f spec time metrics w).1 (k + 1)
  unfolding add append is_due
  add-Counted time metrics w k known h =
      let row : ℕ × List (String × F) =
        (time, row_of zero_f spec (carry spec.sensor_cols metrics w.last)) in
      let len : length (push spec.window_size row w.rows) ≡ min (k + 1) spec.window_size =
        omega (arith, length-push spec.window_size row w.rows, h.filled) in
      let now = due_now spec k w.since_emit pos h.phase in
      let next = due_next spec k w.since_emit pos h.phase in
      rw (known, len, now)
        (elim (Bool-cases (due_at spec (k + 1))) [
          | inl t ↦ rw t (refl, record { filled = len; phase = rw t at next })
          | inr f ↦ rw f (refl, record { filled = len; phase = rw f at next })
        ])

  known-add :
      (time : ℕ) (metrics : Readings F) (w : Window F)
      → any_known spec.sensor_cols (carry spec.sensor_cols metrics w.last) ≡ true
      → any_known spec.sensor_cols (add zero_f spec time metrics w).1.last ≡ true
  unfolding add append
  known-add time metrics w h = ground arith

  adds-schedule :
      (l : List (ℕ × Readings F)) (w : Window F) (k : ℕ)
      → any_known spec.sensor_cols w.last ≡ true
      → Counted spec w k
      → adds zero_f spec l w ≡ schedule spec k l
  unfolding adds schedule
  adds-schedule [] w k known h = refl
  adds-schedule ((time, metrics) ∷ l) w k known h =
      let (due, h') =
        add-Counted time metrics w k
          (any_known-carry spec.sensor_cols spec.sensor_cols metrics w.last known) h in
      ap₂ ◌∷◌ due (
        adds-schedule l (add zero_f spec time metrics w).1 (k + 1)
          (known-add time metrics w
            (any_known-carry spec.sensor_cols spec.sensor_cols metrics w.last known))
          h')

  -- With a positive stride, from the first sample on that has a reading of a sensor of the model,
  -- `add` returns true at exactly these samples: number max(window_size, stride), and every
  -- stride-th one after it.
  pub scores_on_schedule :
      (time : ℕ) (metrics : Readings F) (l : List (ℕ × Readings F))
      → any_known spec.sensor_cols (carry spec.sensor_cols metrics (λ n. none)) ≡ true
      → adds zero_f spec ((time, metrics) ∷ l) fresh ≡ schedule spec 0 ((time, metrics) ∷ l)
  unfolding adds schedule
  scores_on_schedule time metrics l known =
      let start : Counted {F = F} spec fresh 0 = record {
        filled = omega arith;
        phase = record { early = λ e. refl; late = λ e. ground (arith, zero-mod spec.stride) };
      } in
      let (due, h) = add-Counted time metrics fresh 0 known start in
      ap₂ ◌∷◌ due (
        adds-schedule l (add zero_f spec time metrics fresh).1 1
          (known-add time metrics fresh known) h)
