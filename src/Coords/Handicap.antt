-- ===== src/Coords/Handicap.antt =====
-- The handicap points: as many as asked for, all different, all on the board.
use gowui.Base.{
  ℕ, ◌≤◌, ◌<◌, ◌≡◌, refl, Bool, true, false, not, ◌&&◌, ◌||◌, List, [], ◌∷◌, arith, ltb, ◌==◌,
  if◌then◌else◌, length, Bool-cases, inl, inr, Result, ok, err, ℤ, pos, all_below, all_below_sound,
}
use gowui.Coords.{Cell, HandicapError, not_allowed, handicap_allowed, handicap_points}

unfoldable pub lists_cell : List Cell → Cell → Bool
lists_cell [] p = false
lists_cell (q ∷ qs) p = (q.0 == p.0 && q.1 == p.1) || lists_cell qs p

unfoldable pub distinct_cells : List Cell → Bool
unfolding lists_cell
distinct_cells [] = true
distinct_cells (p ∷ ps) = not (lists_cell ps p) && distinct_cells ps

unfoldable pub cells_inside : ℕ → List Cell → Bool
cells_inside size [] = true
cells_inside size (p ∷ ps) = ltb (p.0) size && ltb (p.1) size && cells_inside size ps

fits : ℕ → ℕ → List Cell → Bool
fits size count ps =
    length ps == (if ltb count 2 then 0 else count) && distinct_cells ps && cells_inside size ps

fits_result : ℕ → ℕ → Result HandicapError (List Cell) → Bool
fits_result size count (ok ps) = fits size count ps
fits_result size count (err e) = true

handicap_table :
    all_below 26 (λ s. all_below 10 (λ c. fits_result s c (handicap_points s (pos c)))) ≡ true
unfolding all_below fits_result fits handicap_points distinct_cells cells_inside
handicap_table = refl

handicap-le : (size count : ℕ) → handicap_allowed size (pos count) ≡ true → count < 10
unfolding handicap_allowed
handicap-le size count h = ground arith

handicap_points-allowed :
    (size : ℕ) (count : ℤ) (ps : List Cell)
    → handicap_points size count ≡ ok ps
    → handicap_allowed size count ≡ true
unfolding handicap_points
handicap_points-allowed size count ps h = elim (Bool-cases (handicap_allowed size count)) [
  | inl yes_allowed ↦ yes_allowed
  | inr refused ↦ cc (refusal size count refused, h)
]
  where
    refusal :
        (size : ℕ) (count : ℤ)
        → handicap_allowed size count ≡ false
        → handicap_points size count ≡ err not_allowed
    refusal size count e = rw e refl

fits_of :
    (size count : ℕ) (ps : List Cell)
    → handicap_points size (pos count) ≡ ok ps
    → fits_result size count (handicap_points size (pos count)) ≡ true
    → (length ps ≡ (if ltb count 2 then 0 else count))
      × (distinct_cells ps ≡ true)
      × (cells_inside size ps ≡ true)
unfolding fits_result fits
fits_of size count ps h w = let v = rw h at w in (ground arith, ground arith, ground arith)

-- On boards up to 25x25 a call that returns points was allowed, and returns `count` of them (none
-- for 0 and 1), all different and all on the board.
pub handicap_points_fit :
    (size count : ℕ) (ps : List Cell)
    → size ≤ 25
    → handicap_points size (pos count) ≡ ok ps
    → (handicap_allowed size (pos count) ≡ true)
      × (length ps ≡ (if ltb count 2 then 0 else count))
      × (distinct_cells ps ≡ true)
      × (cells_inside size ps ≡ true)
handicap_points_fit size count ps s h =
    let allowed = handicap_points-allowed size (pos count) ps h in
    let (a, b, c) = fits_of size count ps h (
      all_below_sound 10 (λ k. fits_result size k (handicap_points size (pos k))) count
        (all_below_sound 26 (λ z. all_below 10 (λ k. fits_result z k (handicap_points z (pos k))))
          size handicap_table (omega arith))
        (handicap-le size count allowed)) in
    (allowed, a, b, c)
