-- ===== src/Board/Measure.antt =====
-- The measure of the loop in `_chain`: what waits on the stack, and what is not yet seen.
use gowui.Base.{
  ℕ, zero, suc, ◌+◌, ◌*◌, ◌<◌, ◌≡◌, refl, ◌∙◌, true, false, List, [], ◌∷◌, arith, length,
  if◌then◌else◌,
}
use gowui.Board.{contains, Walk, look, visit}

-- How many numbers below `n` the list lacks.
pub missing : ℕ → List ℕ → ℕ
unfolding contains
missing zero xs = 0
missing (suc n) xs = missing n xs + (if contains xs n then 0 else 1)

missing-cons_above : (n a : ℕ) (xs : List ℕ) → n < suc a → missing n (a ∷ xs) ≡ missing n xs
unfolding missing contains
missing-cons_above zero a xs h = refl
missing-cons_above (suc n) a xs h = ground (arith, missing-cons_above n a xs)

pub missing-cons :
    (n a : ℕ) (xs : List ℕ) → a < n → contains xs a ≡ false → missing n (a ∷ xs) + 1 ≡ missing n xs
unfolding missing contains
missing-cons zero a xs h c = elim h [ ]
missing-cons (suc n) a xs h c = ground (arith, missing-cons n a xs, missing-cons_above n a xs)

pub missing-le : (n : ℕ) (xs : List ℕ) → missing n xs < n + 1
unfolding missing
missing-le zero xs = omega arith
missing-le (suc n) xs = ground (arith, missing-le n xs)

pub contains-tail : (x a : ℕ) (xs : List ℕ) → contains xs a ≡ true → contains (x ∷ xs) a ≡ true
unfolding contains
contains-tail x a xs h = ground arith

pub contains-head : (x : ℕ) (xs : List ℕ) → contains (x ∷ xs) x ≡ true
unfolding contains
contains-head x xs = ground arith

module _ (size : ℕ) (stones : List ℕ) (color : ℕ) where
  -- Points on the board, as `contains` lists them.
  abbrev pub Inside : List ℕ → Type 0
  Inside xs = (k : ℕ) → contains xs k ≡ true → k < size * size

  look_measure :
      (n : ℕ) (w : Walk)
      → n < size * size
      → length (look stones color n w).stack + missing (size * size) (look stones color n w).seen
        ≡ length w.stack + missing (size * size) w.seen
  unfolding look
  look_measure n w h = ground (arith, missing-cons (size * size) n w.seen)

  -- `visit` keeps the measure of the loop, whatever it pushes.
  pub visit_measure :
      (ns : List ℕ) (w : Walk)
      → Inside ns
      → length (visit stones color ns w).stack
          + missing (size * size) (visit stones color ns w).seen
        ≡ length w.stack + missing (size * size) w.seen
  unfolding visit
  visit_measure [] w h = refl
  visit_measure (n ∷ ns) w h =
      visit_measure ns (look stones color n w) (λ k c. h k (contains-tail n k ns c))
      ∙ look_measure n w (h n (contains-head n ns))
