-- ===== src/Board/Stones.antt =====
-- The stones after a placement and after the removal of a chain, point by point and counted.
use gowui.Base.{
  ℕ, zero, suc, ◌+◌, ◌<◌, ◌≡◌, ◌≢◌, refl, true, List, [], ◌∷◌, arith, length, if◌then◌else◌, ◌==◌,
  ◌∙◌, set, length-set,
}
use gowui.Board.{empty, stone_at, contains, clear}
use gowui.Board.Chain.{Distinct}

pub stone_at-set :
    (stones : List ℕ) (i v k : ℕ)
    → i < length stones
    → stone_at (set stones i v) k ≡ (if k == i then v else stone_at stones k)
stone_at-set [] i v k h = elim h [ ]
stone_at-set (x ∷ xs) (suc i) v (suc k) h = stone_at-set xs i v k (omega arith) ∙ ground arith
stone_at-set (x ∷ xs) _ v _ h = ground arith

pub stone_at-erase :
    (stones : List ℕ) (i k : ℕ)
    → stone_at (set stones i empty) k ≡ (if k == i then empty else stone_at stones k)
stone_at-erase [] i k = ground arith
stone_at-erase (x ∷ xs) (suc i) (suc k) = stone_at-erase xs i k ∙ ground arith
stone_at-erase (x ∷ xs) _ _ = ground arith

pub stone_at-clear :
    (ds stones : List ℕ) (k : ℕ)
    → stone_at (clear ds stones) k ≡ (if contains ds k then empty else stone_at stones k)
unfolding clear contains
stone_at-clear [] stones k = refl
stone_at-clear (d ∷ ds) stones k =
    stone_at-clear ds (set stones d empty) k ∙ ground (arith, stone_at-erase stones d k)

pub length-clear : (ds stones : List ℕ) → length (clear ds stones) ≡ length stones
unfolding clear
length-clear [] stones = refl
length-clear (d ∷ ds) stones = length-clear ds (set stones d empty) ∙ length-set stones d empty

-- A stone stands on the board.
pub stone-lt : (stones : List ℕ) (k : ℕ) → stone_at stones k ≢ empty → k < length stones
stone-lt [] k h = absurd (h refl)
stone-lt (x ∷ xs) zero h = omega arith
stone-lt (x ∷ xs) (suc k) h = omega (arith, stone-lt xs k h)

-- How many stones are on the board.
unfoldable pub count_stones : List ℕ → ℕ
count_stones [] = 0
count_stones (x ∷ xs) = (if x == empty then 0 else 1) + count_stones xs

pub count_stones-erase :
    (stones : List ℕ) (i : ℕ)
    → stone_at stones i ≢ empty
    → count_stones (set stones i empty) + 1 ≡ count_stones stones
unfolding count_stones
count_stones-erase [] i h = absurd (h refl)
count_stones-erase (x ∷ xs) zero h = ground arith
count_stones-erase (x ∷ xs) (suc i) h = ground (arith, count_stones-erase xs i h)

pub count_stones-set :
    (stones : List ℕ) (i v : ℕ)
    → i < length stones
    → stone_at stones i ≡ empty
    → v ≢ empty
    → count_stones (set stones i v) ≡ count_stones stones + 1
unfolding count_stones
count_stones-set [] i v l h n = elim l [ ]
count_stones-set (x ∷ xs) zero v l h n = ground arith
count_stones-set (x ∷ xs) (suc i) v l h n =
    ground (arith, count_stones-set xs i v (omega arith) h n)

-- Removing distinct stones lowers the count by their number.
pub count_stones-clear :
    (ds stones : List ℕ)
    → Distinct ds
    → ((k : ℕ) → contains ds k ≡ true → stone_at stones k ≢ empty)
    → count_stones (clear ds stones) + length ds ≡ count_stones stones
unfolding clear contains
count_stones-clear [] stones d h = omega arith
count_stones-clear (x ∷ ds) stones d h = omega (
  arith,
  count_stones-clear ds (set stones x empty) d.1
      (λ k m. ground (arith, stone_at-erase stones x k, h k)),
  count_stones-erase stones x (h x (ground arith)),
)
