-- ===== src/Ingest/Counters/Total.antt =====
-- The deltas of a counter add up to what was counted. Counters are whole numbers.
use digital_twin.Prelude.{
  ℕ, ◌+◌, ◌≤◌, Option, none, some, List, [], ◌∷◌, ◌≡◌, refl, true, false, ◌∙◌, arith, Bool-cases,
  inl, inr, if◌then◌else◌,
}
use digital_twin.Prelude.Floats.{whole}
use digital_twin.Ingest.Counters.{
  Counter, good_count, reject_count, energy_kwh, Previous, counter_delta, difference, same,
}

-- the sum of the deltas of one counter over the readings of all; `none` is a payload without it
pub deltas : Counter → List (Counter × Option ℕ) → Previous ℕ → ℕ
deltas key [] previous = 0
deltas key ((k, r) ∷ l) previous =
    (if same k key then (counter_delta whole k r previous).0 else 0)
    + deltas key l (counter_delta whole k r previous).1

unfoldable pub readings : Counter → List (Counter × Option ℕ) → List (Option ℕ)
readings key [] = []
readings key ((k, r) ∷ l) = if same k key then r ∷ readings key l else readings key l

same_comm : (a b : Counter) → same a b ≡ same b a
same_comm good_count b = ground arith
same_comm reject_count b = ground arith
same_comm energy_kwh b = ground arith

same_eq : (a b : Counter) → same a b ≡ true → a ≡ b
same_eq a b h = ground arith

abbrev pub Rises : ℕ → List (Option ℕ) → Type 0
Rises n [] = Unit {0}
Rises n (none ∷ l) = Rises n l
Rises n (some r ∷ l) = (n ≤ r) × Rises r l

abbrev pub final : ℕ → List (Option ℕ) → ℕ
final n [] = n
final n (none ∷ l) = final n l
final n (some r ∷ l) = final r l

delta-other :
    (k key : Counter) (r : Option ℕ) (previous : Previous ℕ)
    → same k key ≡ false
    → (counter_delta whole k r previous).1 key ≡ previous key
unfolding counter_delta difference
delta-other k key none previous h = refl
delta-other k key (some r) previous h = ground (arith, same_comm k key)

delta_self :
    (k key : Counter) (n r : ℕ) (previous : Previous ℕ)
    → same k key ≡ true
    → previous key ≡ some n
    → n ≤ r
    → ((counter_delta whole k (some r) previous).0 + n ≡ r)
      × ((counter_delta whole k (some r) previous).1 key ≡ some r)
unfolding counter_delta difference
delta_self k key n r previous h e le = ground (arith, same_comm k key, same_eq k key)

delta_none :
    (k : Counter) (previous : Previous ℕ) → counter_delta whole k none previous ≡ (0, previous)
unfolding counter_delta
delta_none k previous = refl

-- Over any interleaved readings of the counters, from a reading n of one of them on, if its own
-- readings never fall: its deltas add up to its last reading less n, whatever the other counters do
-- and however many payloads leave it out.
pub deltas-rising :
    (key : Counter) (n : ℕ) (l : List (Counter × Option ℕ)) (previous : Previous ℕ)
    → previous key ≡ some n
    → Rises n (readings key l)
    → deltas key l previous + n ≡ final n (readings key l)
unfolding deltas readings
deltas-rising key n [] previous e h = omega arith
deltas-rising key n ((k, none) ∷ l) previous e h = elim (Bool-cases (same k key)) [
  | inl t ↦
      let h' : Rises n (readings key l) = rw (t, readings) at h in
      rw (t, delta_none) (omega (arith, deltas-rising key n l previous e h'))
  | inr f ↦
      let h' : Rises n (readings key l) = rw (f, readings) at h in
      rw (f, delta_none) (omega (arith, deltas-rising key n l previous e h'))
]
deltas-rising key n ((k, some r) ∷ l) previous e h = elim (Bool-cases (same k key)) [
  | inl t ↦
      let h' : Rises n (some r ∷ readings key l) = rw (t, readings) at h in
      let next = (counter_delta whole k (some r) previous).1 in
      let (d, e') = delta_self k key n r previous t e h'.0 in
      rw t (omega (arith, deltas-rising key r l next e' h'.1, d))
  | inr f ↦
      let h' : Rises n (readings key l) = rw (f, readings) at h in
      let next = (counter_delta whole k (some r) previous).1 in
      let e' = delta-other k key (some r) previous f ∙ e in
      rw f (omega (arith, deltas-rising key n l next e' h'))
]
