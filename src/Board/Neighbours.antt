-- ===== src/Board/Neighbours.antt =====
-- The neighbours of a point: on the board, and a symmetric relation.
use gowui.Base.{
  subst, sym, ℕ, ◌+◌, ◌-◌, ◌*◌, ◌%◌, ◌<◌, ◌≡◌, Bool, true, arith, List, ◌++◌, ltb, ltb→lt, not, ◌⊎◌,
  inl, inr,
}
use gowui.Board.{contains, when, neighbours}

-- What `_neighbours` yields, case by case.
pub data Adjacent (size i n : ℕ) : Type 0 where
  left : n + 1 ≡ i → 0 < i % size → Adjacent size i n
  right : n ≡ i + 1 → i % size + 1 < size → Adjacent size i n
  up : n + size ≡ i → Adjacent size i n
  down : n ≡ i + size → i + size < size * size → Adjacent size i n

contains-when :
    (t : Bool) (m a : ℕ) (ys : List ℕ)
    → contains (when t m ++ ys) a ≡ true
    → ((t ≡ true) × (a ≡ m)) ⊎ (contains ys a ≡ true)
unfolding contains
contains-when t m a ys h = ground arith

mod_pos : (size i : ℕ) → 0 < i % size → 0 < i
mod_pos size i h = omega arith

down_of :
    (size i n : ℕ)
    → contains (when (ltb (i + size) (size * size)) (i + size)) n ≡ true
    → Adjacent size i n
unfolding contains
down_of size i n h = Adjacent.down (ground arith) (ground arith)

pub Adjacent-of : (size i n : ℕ) → contains (neighbours size i) n ≡ true → Adjacent size i n
unfolding neighbours contains
Adjacent-of size i n h = elim (contains-when (ltb 0 (i % size)) (i - 1) n _ h) [
  | inl (t, e) ↦ Adjacent.left (omega (arith, mod_pos size i (ltb→lt _ _ t))) (ltb→lt _ _ t)
  | inr h' ↦ elim (contains-when (ltb (i % size + 1) size) (i + 1) n _ h') [
    | inl (t, e) ↦ Adjacent.right e (ltb→lt _ _ t)
    | inr h'' ↦ elim (contains-when (not (ltb i size)) (i - size) n _ h'') [
      | inl (t, e) ↦ Adjacent.up (ground arith)
      | inr h₃ ↦ down_of size i n h₃
    ]
  ]
]

pub contains-neighbours : (size i n : ℕ) → Adjacent size i n → contains (neighbours size i) n ≡ true
unfolding neighbours contains
contains-neighbours size i n (Adjacent.left a b) = ground arith
contains-neighbours size i n (Adjacent.right a b) = ground arith
contains-neighbours size i n (Adjacent.up a) = ground arith
contains-neighbours size i n (Adjacent.down a b) = ground arith

mod-suc : (size i : ℕ) → i % size + 1 < size → (i + 1) % size ≡ i % size + 1
mod-suc size i h = grind arith

mod-pred : (size i : ℕ) → 0 < size → 0 < (i + 1) % size → i % size + 1 ≡ (i + 1) % size
mod-pred size i s h = grind arith

mod_bound : (size i : ℕ) → 0 < size → i % size < size
mod_bound size i s = omega arith

right-lt : (size i : ℕ) → i < size * size → i % size + 1 < size → i + 1 < size * size
right-lt size i h k = grind arith

size_pos : (size i : ℕ) → i < size * size → 0 < size
size_pos size i h = grind arith

-- A neighbour of a point on the board is on the board.
pub Adjacent-lt : (size i n : ℕ) → i < size * size → Adjacent size i n → n < size * size
Adjacent-lt size i n h (Adjacent.left a b) = omega arith
Adjacent-lt size i n h (Adjacent.right a b) = omega (arith, right-lt size i h b)
Adjacent-lt size i n h (Adjacent.up a) = omega arith
Adjacent-lt size i n h (Adjacent.down a b) = omega arith

left_symm : (size n : ℕ) → 0 < size → 0 < (n + 1) % size → n % size + 1 < size
left_symm size n s b = omega (arith, mod-pred size n s b, mod_bound size (n + 1) s)

pub Adjacent-symm : (size i n : ℕ) → i < size * size → Adjacent size i n → Adjacent size n i
Adjacent-symm size i n h (Adjacent.left a b) =
    Adjacent.right (omega arith)
      (left_symm size n (size_pos size i h) (subst (λ (k : ℕ). 0 < k % size) (sym a) b))
Adjacent-symm size i n h (Adjacent.right a b) =
    Adjacent.left (omega arith) (rw a (omega (arith, mod-suc size i b)))
Adjacent-symm size i n h (Adjacent.up a) = Adjacent.down (omega arith) (omega arith)
Adjacent-symm size i n h (Adjacent.down a b) = Adjacent.up (omega arith)

-- The relation `n in self._neighbours(i)` is symmetric.
pub neighbours_symm :
    (size i n : ℕ)
    → i < size * size
    → contains (neighbours size i) n ≡ true
    → contains (neighbours size n) i ≡ true
neighbours_symm size i n h c =
    contains-neighbours size n i (Adjacent-symm size i n h (Adjacent-of size i n c))

pub neighbours-lt :
    (size i n : ℕ) → i < size * size → contains (neighbours size i) n ≡ true → n < size * size
neighbours-lt size i n h c = Adjacent-lt size i n h (Adjacent-of size i n c)
