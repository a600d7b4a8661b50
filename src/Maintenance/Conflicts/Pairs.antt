-- ===== src/Maintenance/Conflicts/Pairs.antt =====
-- The early end of the inner loop loses no conflict.
use digital_twin.Prelude.{
  ℕ, ◌≤◌, ◌<◌, String, Bool, true, false, Option, List, [], ◌∷◌, ◌++◌, ltb, leb, ◌&&◌, ◌≡◌, refl,
  ap, ap₂, sym, arith, All, Bool-cases, inl, inr, if◌then◌else◌,
}
use digital_twin.Maintenance.Conflicts.{
  Assignment, Conflict, insert_by_start, order_by_start, clash, clashes, found_in, conflicts,
}

-- do two assignments share a slot?
abbrev pub overlaps : Assignment → Assignment → Bool
overlaps a b = ltb a.start_slot b.end_slot && ltb b.start_slot a.end_slot

abbrev pub IsProper : Assignment → Type 0
IsProper a = a.start_slot < a.end_slot

module _ (line_of : String → Option String) where
  -- every pair that overlaps and clashes
  pub clashes_with : Assignment → List Assignment → List Conflict
  clashes_with a [] = []
  clashes_with a (b ∷ l) = (if overlaps a b then clash line_of a b else []) ++ clashes_with a l

  pub all_pairs : List Assignment → List Conflict
  all_pairs [] = []
  all_pairs (a ∷ l) = clashes_with a l ++ all_pairs l

-- by their start, from a slot on, each of at least one slot
IsOrdered : ℕ → List Assignment → Type 0
IsOrdered t [] = Unit
IsOrdered t (a ∷ l) = (t ≤ a.start_slot) × (a.start_slot < a.end_slot) × IsOrdered a.start_slot l

insert-IsOrdered :
    (t : ℕ) (a : Assignment) (l : List Assignment)
    → t ≤ a.start_slot
    → IsProper a
    → IsOrdered t l
    → IsOrdered t (insert_by_start a l)
unfolding insert_by_start IsOrdered
insert-IsOrdered t a [] h p o = (h, p, tt)
insert-IsOrdered t a (x ∷ xs) h p o = elim (Bool-cases (leb a.start_slot x.start_slot)) [
  | inl q ↦ rw (q, insert_by_start) (h, p, (ground (arith, q), o.1, o.2))
  | inr q ↦
      rw (q, insert_by_start)
        (o.0, o.1, insert-IsOrdered x.start_slot a xs (ground (arith, q)) p o.2)
]

order-IsOrdered : (l : List Assignment) → All IsProper l → IsOrdered 0 (order_by_start l)
unfolding order_by_start IsOrdered
order-IsOrdered [] p = tt
order-IsOrdered (a ∷ l) p =
    insert-IsOrdered 0 a (order_by_start l) (omega arith) p.0 (order-IsOrdered l p.1)

module _ (line_of : String → Option String) where
  -- nothing later overlaps
  clashes_with-none :
      (a : Assignment) (t : ℕ) (l : List Assignment)
      → a.end_slot ≤ t
      → IsOrdered t l
      → clashes_with line_of a l ≡ []
  unfolding clashes_with IsOrdered
  clashes_with-none a t [] h o = refl
  clashes_with-none a t (b ∷ l) h o =
      let e : overlaps a b ≡ false = ground (arith, o.0) in
      rw e (clashes_with-none a b.start_slot l (omega (arith, o.0)) o.2)

  clashes_lem :
      (a : Assignment) (t : ℕ) (l : List Assignment)
      → a.start_slot ≤ t
      → IsOrdered t l
      → clashes line_of a l ≡ clashes_with line_of a l
  unfolding clashes clashes_with IsOrdered
  clashes_lem a t [] h o = refl
  clashes_lem a t (b ∷ l) h o = elim (Bool-cases (leb a.end_slot b.start_slot)) [
    | inl q ↦
        let e : overlaps a b ≡ false = ground (arith, q) in
        rw (q, e) (sym (clashes_with-none a b.start_slot l (ground (arith, q)) o.2))
    | inr q ↦
        let e : overlaps a b ≡ true = ground (arith, q, o.0, o.1) in
        rw (q, e)
          (ap (λ m. clash line_of a b ++ m) (clashes_lem a b.start_slot l (omega (arith, o.0)) o.2))
  ]

  found_lem :
      (t : ℕ) (l : List Assignment) → IsOrdered t l → found_in line_of l ≡ all_pairs line_of l
  unfolding found_in all_pairs IsOrdered
  found_lem t [] o = refl
  found_lem t (a ∷ l) o =
      ap₂ ◌++◌ (clashes_lem a a.start_slot l (omega arith) o.2) (found_lem a.start_slot l o.2)

  -- Of assignments that each take at least one slot, in any order: the conflicts are those of all
  -- pairs that share a slot and a technician or a line, so the early end of the loop loses none.
  pub conflicts_lem :
      (l : List Assignment)
      → All IsProper l
      → conflicts line_of l ≡ all_pairs line_of (order_by_start l)
  unfolding conflicts
  conflicts_lem l p = found_lem 0 (order_by_start l) (order-IsOrdered l p)
