-- ===== src/Nlu/Fuzzy/Clear.antt =====
-- A match of `resolve` is clear of every other asset.
use digital_twin.Prelude.{
  ℕ, ◌+◌, ◌≤◌, ◌≡◌, inl, inr, refl, arith, String, some, List, [], ◌∷◌, map, take, All,
  Option-cases,
}
use digital_twin.Nlu.Words.{parse_asset}
use digital_twin.Nlu.Fuzzy.{
  AssetRef, Candidate, Row, Library, ambiguous_margin, forms_of, best_of, order_by_score, ranked,
  rank, choose, resolve,
}
use digital_twin.Nlu.Fuzzy.Ranking.{
  IsBelow, order-IsBelow, IsOrdered, order-IsOrdered, IsClear, best_of-IsBelow, IsScored, order-All,
  best_of-All,
}

All-margin :
    (m : ℕ) (c d : Candidate) (ds : List Candidate)
    → d.score + m ≤ c.score
    → All (λ x. x.score ≤ d.score) ds
    → All (IsBelow m c) ds
All-margin m c d [] s h = tt
All-margin m c d (x ∷ ds) s (h, hs) = (inr (omega arith), All-margin m c d ds s hs)

-- Of candidates in order, the second is the best of the others.
choose-clear :
    (P : Candidate → Type 0) (l : Library) (low : ℕ) (cs : List Candidate) {r : AssetRef}
    → IsOrdered cs
    → All P cs
    → (choose l low (take 2 cs)).0 ≡ some r
    → (c : Candidate) × (c.ref ≡ r)
      × (low ≤ c.score)
      × All (IsBelow (ambiguous_margin l) c) cs
      × P c
unfolding choose
choose-clear P l low [] o p e = cc
choose-clear P l low (c ∷ []) o p e = (c, ground (arith, e), ground (arith, e), (inl refl, tt), p.0)
choose-clear P l low (c ∷ d ∷ ds) (h, (k, o)) p e =
    let s : d.score + ambiguous_margin l ≤ c.score = ground (arith, e) in
    (
      c,
      ground (arith, e),
      ground (arith, e),
      (inl refl, (inr s, All-margin (ambiguous_margin l) c d ds s k)),
      p.0,
    )

-- what process.extract gives for a query among the forms of the assets
abbrev pub scored : Library → String → List AssetRef → List Row
scored l q refs = l.extract q (map (λ f. f.0) (forms_of l refs))

ranked-IsClear :
    (l : Library) (low : ℕ) (q : String) (refs : List AssetRef) {r : AssetRef}
    → (choose l low (take 2 (ranked l q (forms_of l refs)))).0 ≡ some r
    → (c : Candidate) × (c.ref ≡ r)
      × (low ≤ c.score)
      × All (IsClear (ambiguous_margin l) (forms_of l refs) c) (scored l q refs)
      × IsScored (forms_of l refs) c (scored l q refs)
unfolding ranked
ranked-IsClear l low q refs e =
    let best : List Candidate = best_of (forms_of l refs) (scored l q refs) [] in
    let P : Candidate → Type 0 = λ c. IsScored (forms_of l refs) c (scored l q refs) in
    let found : All P (order_by_score best) =
      order-All P best (best_of-All P (forms_of l refs) (scored l q refs) [] (λ c k. k) tt) in
    let (c, i, b, a, k) =
      choose-clear P l low (order_by_score best) (order-IsOrdered best) found e in
    let below : All (IsBelow (ambiguous_margin l) c) best =
      order-IsBelow (ambiguous_margin l) c best a in
    (
      c,
      i,
      b,
      (best_of-IsBelow (ambiguous_margin l) c (forms_of l refs) (scored l q refs) [] below).0,
      k,
    )

-- If resolve finds an asset, then for the query that parse_asset makes of the text that
-- asset has a score among those of the forms which is at least the threshold, and each score of
-- each asset with another id lies at least the margin of ambiguity below it.
pub resolve-IsClear :
    (l : Library) (query : String) (refs : List AssetRef) (low : ℕ) (r : AssetRef)
    → (resolve l query refs low).0 ≡ some r
    → (q : String) × (c : Candidate) × (parse_asset l.words query ≡ some q)
      × (c.ref ≡ r)
      × (low ≤ c.score)
      × All (IsClear (ambiguous_margin l) (forms_of l refs) c) (scored l q refs)
      × IsScored (forms_of l refs) c (scored l q refs)
unfolding resolve rank
resolve-IsClear l query refs low r e = elim (Option-cases (parse_asset l.words query)) [
  | inl p ↦ absurd (ground (arith, p, e))
  | inr (q, p) ↦
      (let (c, i, b, a, k) = ranked-IsClear l low q refs (ground (arith, p, e)) in
        (q, c, p, i, b, a, k))
]
