-- ===== src/Coords/Sgf.antt =====
-- SGF points: what `to_sgf` writes, `from_sgf` reads, and what it reads is on the board.
use gowui.Base.{
  ℕ, ◌≤◌, ◌<◌, ◌≡◌, refl, sym, subst, Bool, true, false, not, ◌&&◌, ◌||◌, [], ◌∷◌, Option, none,
  some, arith, ◌==◌, get_elem?, Text, codes, equal, ok, ℤ, pos, negsuc, below, pos_part, all_below,
  all_below_sound, ltb→lt, Option-cases, inl, inr,
}
use gowui.Coords.{Point, sgf_letters, to_sgf, find, sgf_point, from_sgf}

-- The letter of `x` is read as `x`, and is `t` for 19 alone.
letter_reads : ℕ → ℕ → Bool
letter_reads x c =
    (elim (find sgf_letters c) [ none ↦ false | some i ↦ i == x ]) && (not (c == b't') || x == 19)

letter_fits : ℕ → Bool
letter_fits x = elim (get_elem? sgf_letters x) [ none ↦ false | some c ↦ letter_reads x c ]

letter_table : all_below 25 letter_fits ≡ true
unfolding all_below letter_fits letter_reads find
letter_table = refl

letter_lem : (x c : ℕ) → x < 25 → get_elem? sgf_letters x ≡ some c → letter_reads x c ≡ true
unfolding letter_fits
letter_lem x c h e = let w = all_below_sound 25 letter_fits x letter_table h in ground arith

find_letter : (x c : ℕ) → letter_reads x c ≡ true → find sgf_letters c ≡ some x
unfolding letter_reads
find_letter x c h = ground arith

letter_t : (x c : ℕ) → letter_reads x c ≡ true → (c == b't') ≡ true → x ≡ 19
unfolding letter_reads
letter_t x c h e = ground arith

tt_head : (a b : ℕ) → equal (a ∷ b ∷ []) (codes "tt") ≡ true → (a == b't') ≡ true
unfolding equal
tt_head a b h = ground arith

read_letters :
    (x y a b size : ℕ)
    → x < size
    → y < size
    → letter_reads x a ≡ true
    → letter_reads y b ≡ true
    → from_sgf (a ∷ b ∷ []) size ≡ ok (some (pos x, pos y))
unfolding from_sgf sgf_point
read_letters x y a b size hx hy ha hb =
    ground (arith, find_letter x a ha, find_letter y b hb, letter_t x a ha, tt_head a b)

to_sgf-letters :
    (x y : ℤ) (size : ℕ) (t : Text)
    → to_sgf (some (x, y)) size ≡ ok t
    → (below x size ≡ true)
      × (below y size ≡ true)
      × ((a b : ℕ)
          → get_elem? sgf_letters (pos_part x) ≡ some a
          → get_elem? sgf_letters (pos_part y) ≡ some b
          → t ≡ a ∷ b ∷ [])
unfolding to_sgf
to_sgf-letters x y size t h = (ground arith, ground arith, λ a b p q. ground arith)

letter_of : (x : ℕ) → x < 25 → (c : ℕ) × (get_elem? sgf_letters x ≡ some c)
unfolding letter_fits
letter_of x h = elim (Option-cases (get_elem? sgf_letters x)) [
  | inr (c, e) ↦ (c, e)
  | inl e ↦ absurd (no_letter (all_below_sound 25 letter_fits x letter_table h) e)
]
  where
    no_letter : letter_fits x ≡ true → get_elem? sgf_letters x ≡ none → ⊥
    no_letter w e = ground arith

-- On boards up to 25x25, `from_sgf` reads back what `to_sgf` writes: `tt` names a point only
-- where it is not a pass.
pub from_sgf-to_sgf :
    (p : Option Point) (size : ℕ) (t : Text)
    → size ≤ 25
    → to_sgf p size ≡ ok t
    → from_sgf t size ≡ ok p
from_sgf-to_sgf none size t s h = unfold to_sgf from_sgf in ground arith
from_sgf-to_sgf (some (pos x, pos y)) size t s h =
    let (hx, hy, join) = to_sgf-letters (pos x) (pos y) size t h in
    let (a, ea) = letter_of x (omega (arith, ltb→lt x size hx)) in
    let (b, eb) = letter_of y (omega (arith, ltb→lt y size hy)) in
    subst (λ (u : Text). from_sgf u size ≡ ok (some (pos x, pos y))) (sym (join a b ea eb))
      (read_letters x y a b size (ltb→lt x size hx) (ltb→lt y size hy)
        (letter_lem x a (omega (arith, ltb→lt x size hx)) ea)
        (letter_lem y b (omega (arith, ltb→lt y size hy)) eb))
from_sgf-to_sgf (some (negsuc x, y)) size t s h =
    absurd (cc ((to_sgf-letters (negsuc x) y size t h).0))
from_sgf-to_sgf (some (pos x, negsuc y)) size t s h =
    absurd (cc ((to_sgf-letters (pos x) (negsuc y) size t h).1))

pub sgf_point_inside :
    (t : Text) (size : ℕ) (x y : ℤ)
    → sgf_point t size ≡ ok (x, y)
    → (below x size ≡ true) × (below y size ≡ true)
unfolding sgf_point
sgf_point_inside (a ∷ b ∷ []) size x y h = ground arith
sgf_point_inside _ size x y h = cc
