-- ===== src/Coords/Gtp.antt =====
-- GTP vertices: what `to_gtp` writes, `from_gtp` reads, and what it reads is on the board.
use gowui.Base.{
  ℕ, suc, ◌-◌, ◌≤◌, ◌<◌, ◌≡◌, refl, sym, subst, Bool, true, false, not, ◌&&◌, ◌∷◌, Option, none,
  some, arith, ◌==◌, get_elem?, Text, equal, lower, upper_char, ok, ℤ, pos, negsuc, below,
  all_below, all_below_sound, ltb→lt,
}
use gowui.Coords.{Point, gtp_columns, pass, decimal, to_gtp, find, match_vertex, from_gtp}

-- Whether the column and the row that `from_gtp` reads are `x` and `row`.
reads_as : Text → ℕ → ℕ → Bool
reads_as t x row = not (equal (lower t) pass) && elim (match_vertex t) [
  | none ↦ false
  | some m ↦
      m.1 == row && elim (find gtp_columns (upper_char (m.0))) [ none ↦ false | some i ↦ i == x ]
]

written : ℕ → ℕ → Bool
written x row = elim (get_elem? gtp_columns x) [
  | none ↦ false
  | some c ↦ reads_as (c ∷ decimal row) x row
]

-- Every column with every row from 1 to 25.
written_table : all_below 25 (λ x. all_below 25 (λ r. written x (suc r))) ≡ true
unfolding all_below written reads_as equal lower decimal match_vertex find upper_char
written_table = refl

written_lem : (x r : ℕ) → x < 25 → r < 25 → written x (suc r) ≡ true
written_lem x r hx hr =
    all_below_sound 25 (λ k. written x (suc k)) r
      (all_below_sound 25 (λ y. all_below 25 (λ k. written y (suc k))) x written_table hx) hr

from_gtp-reads_as :
    (t : Text) (size x y : ℕ)
    → x < size
    → y < size
    → reads_as t x (size - y) ≡ true
    → from_gtp t size ≡ ok (some (pos x, pos y))
unfolding from_gtp reads_as
from_gtp-reads_as t size x y hx hy h = ground arith

row_pos : (size y : ℕ) → y < size → size - y ≡ suc (size - y - 1)
row_pos size y h = omega arith

to_gtp-written :
    (x y size : ℕ) (t : Text)
    → x < size
    → y < size
    → size ≤ 25
    → to_gtp (some (pos x, pos y)) size ≡ ok t
    → reads_as t x (size - y) ≡ true
unfolding to_gtp written
to_gtp-written x y size t hx hy s h =
    let w : written x (size - y) ≡ true =
      subst (λ (r : ℕ). written x r ≡ true) (sym (row_pos size y hy))
        (written_lem x (size - y - 1) (omega arith) (omega arith)) in
    ground arith

to_gtp-inside :
    (x y : ℤ) (size : ℕ) (t : Text)
    → to_gtp (some (x, y)) size ≡ ok t
    → (below x size ≡ true) × (below y size ≡ true)
unfolding to_gtp
to_gtp-inside x y size t h = ground arith

from_gtp-pass : (size : ℕ) → from_gtp pass size ≡ ok none
unfolding from_gtp equal lower
from_gtp-pass size = refl

to_gtp-none : (size : ℕ) (t : Text) → to_gtp none size ≡ ok t → pass ≡ t
unfolding to_gtp
to_gtp-none size t h = cc

-- On boards up to 25x25, `from_gtp` reads back what `to_gtp` writes, a pass included.
pub from_gtp-to_gtp :
    (p : Option Point) (size : ℕ) (t : Text)
    → size ≤ 25
    → to_gtp p size ≡ ok t
    → from_gtp t size ≡ ok p
from_gtp-to_gtp none size t s h =
    subst (λ (u : Text). from_gtp u size ≡ ok none) (to_gtp-none size t h) (from_gtp-pass size)
from_gtp-to_gtp (some (pos x, pos y)) size t s h =
    let (hx, hy) = to_gtp-inside (pos x) (pos y) size t h in
    from_gtp-reads_as t size x y (ltb→lt _ _ hx) (ltb→lt _ _ hy)
      (to_gtp-written x y size t (ltb→lt _ _ hx) (ltb→lt _ _ hy) s h)
from_gtp-to_gtp (some (negsuc x, y)) size t s h =
    absurd (cc ((to_gtp-inside (negsuc x) y size t h).0))
from_gtp-to_gtp (some (pos x, negsuc y)) size t s h =
    absurd (cc ((to_gtp-inside (pos x) (negsuc y) size t h).1))

-- Whatever `from_gtp` reads is a pass or a point on the board.
pub from_gtp_inside :
    (t : Text) (size : ℕ) (x y : ℤ)
    → from_gtp t size ≡ ok (some (x, y))
    → (below x size ≡ true) × (below y size ≡ true)
unfolding from_gtp
from_gtp_inside t size x y h = ground arith
