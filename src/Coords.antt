-- ===== src/Coords.antt =====
-- gowui/coords.py: GTP vertices, SGF points and handicap points. A point is `(x, y)` from the top
-- left, with signed coordinates, since the readers subtract before they check the bounds.
pub mod Gtp
pub mod Sgf
pub mod Handicap
use gowui.Base.{
  ℕ, zero, suc, ◌+◌, ◌-◌, ◌*◌, ◌/◌, ◌%◌, ◌≡◌, Bool, true, false, not, ◌&&◌, ◌||◌, List, [], ◌∷◌,
  ◌++◌, Option, none, some, ltb, leb, ◌==◌, if◌then◌else◌, get_elem?, take, Text, codes, equal,
  lower, upper_char, within, Result, ok, err, or_raise, raise_if, ◌>>=◌, ◌>>◌, ℤ, pos, negsuc,
  sub_ℕ, below, pos_part,
}

abbrev pub gtp_columns : Text
gtp_columns = codes "ABCDEFGHJKLMNOPQRSTUVWXYZ"

abbrev pub sgf_letters : Text
sgf_letters = codes "abcdefghijklmnopqrstuvwxy"

abbrev pub pass : Text
pass = codes "pass"

-- `out_of_range` is Python's `IndexError`, for a board of more columns than there are letters.
pub data CoordinateError : Type 0 where
  outside bad_vertex bad_point out_of_range : CoordinateError

abbrev pub Point : Type 0
Point = ℤ × ℤ

abbrev pub check_bounds : ℤ → ℤ → ℕ → Result CoordinateError (Unit {0})
check_bounds x y size = raise_if (not (below x size && below y size)) outside

-- `str(n)` of a natural number, with fuel.
unfoldable pub show_digits : ℕ → ℕ → Text
show_digits zero n = []
show_digits (suc fuel) n =
    let front = show_digits fuel (n / 10) in
    if ltb n 10 then (n + b'0') ∷ [] else front ++ (n % 10 + b'0') ∷ []

unfoldable pub decimal : ℕ → Text
unfolding show_digits
decimal n = show_digits (n + 1) n

unfoldable pub to_gtp : Option Point → ℕ → Result CoordinateError Text
to_gtp none size = ok pass
to_gtp (some (x, y)) size = do
  check_bounds x y size
  column ← or_raise (get_elem? gtp_columns (pos_part x)) out_of_range
  ok (column ∷ decimal (size - pos_part y))

-- `text.index(c)`, `text.find(c)`.
unfoldable pub find : Text → ℕ → Option ℕ
find [] c = none
find (d ∷ ds) c =
    if d == c then some 0 else elim (find ds c) [ none ↦ none | some i ↦ some (i + 1) ]

abbrev is_column : ℕ → Bool
is_column c = within b'A' b'H' c || within b'J' b'Z' c || within b'a' b'h' c || within b'j' b'z' c

-- `_VERTEX.fullmatch`: the column letter and the row.
unfoldable pub match_vertex : Text → Option (ℕ × ℕ)
match_vertex (c ∷ d ∷ []) = if is_column c && within b'1' b'9' d then some (c, d - b'0') else none
match_vertex (c ∷ d ∷ e ∷ []) =
    if is_column c && (within b'1' b'9' d && within b'0' b'9' e)
    then some (c, (d - b'0') * 10 + (e - b'0'))
    else none
match_vertex _ = none

unfoldable pub from_gtp : Text → ℕ → Result CoordinateError (Option Point)
from_gtp vertex size = if equal (lower vertex) pass then ok none else (do
  matched ← or_raise (match_vertex vertex) bad_vertex
  x ← or_raise (find gtp_columns (upper_char (matched.0))) bad_vertex
  let y = sub_ℕ size (matched.1)
  check_bounds (pos x) y size
  ok (some (pos x, y)))

unfoldable pub to_sgf : Option Point → ℕ → Result CoordinateError Text
to_sgf none size = ok []
to_sgf (some (x, y)) size = do
  check_bounds x y size
  a ← or_raise (get_elem? sgf_letters (pos_part x)) out_of_range
  b ← or_raise (get_elem? sgf_letters (pos_part y)) out_of_range
  ok (a ∷ b ∷ [])

unfoldable pub sgf_point : Text → ℕ → Result CoordinateError Point
sgf_point (a ∷ b ∷ []) size = do
  x ← or_raise (find sgf_letters a) bad_point
  y ← or_raise (find sgf_letters b) bad_point
  check_bounds (pos x) (pos y) size
  ok (pos x, pos y)
sgf_point _ size = err bad_point

unfoldable pub from_sgf : Text → ℕ → Result CoordinateError (Option Point)
from_sgf [] size = ok none
from_sgf (c ∷ cs) size =
    if equal (c ∷ cs) (codes "tt") && leb size 19
    then ok none
    else (do p ← sgf_point (c ∷ cs) size; ok (some p))

unfoldable pub handicap_allowed : ℕ → ℤ → Bool
handicap_allowed size (negsuc n) = false
handicap_allowed size (pos count) =
    if count == 0 || count == 1
    then true
    else if ltb size 7
    then false
    else if size == 7 || size % 2 == 0
    then leb 2 count && leb count 4
    else leb 2 count && leb count 9

pub data HandicapError : Type 0 where
  not_allowed : HandicapError

abbrev pub Cell : Type 0
Cell = ℕ × ℕ

-- The entries of the table that the source indexes by `count`, from five to nine.
abbrev table : ℕ → List Cell → List Cell → List Cell → List Cell → List Cell
table count corners sides ends centre =
    if count == 5
    then corners ++ centre
    else if count == 6
    then corners ++ sides
    else if count == 7
    then corners ++ (sides ++ centre)
    else if count == 8
    then corners ++ (sides ++ ends)
    else corners ++ (sides ++ (ends ++ centre))

abbrev place : ℕ → ℕ → ℕ → ℕ → List Cell
place count low high mid =
    let corners : List Cell = (low, high) ∷ (high, low) ∷ (low, low) ∷ (high, high) ∷ [] in
    if leb count 4
    then take count corners
    else table count corners ((low, mid) ∷ (high, mid) ∷ []) ((mid, high) ∷ (mid, low) ∷ [])
        ((mid, mid) ∷ [])

unfoldable pub handicap_points : ℕ → ℤ → Result HandicapError (List Cell)
unfolding handicap_allowed
handicap_points size count =
    if not (handicap_allowed size count)
    then err not_allowed
    else if ltb (pos_part count) 2
    then ok []
    else let edge = if leb size 12 then 2 else 3 in
      ok (place (pos_part count) edge (size - 1 - edge) (size / 2))
