-- ===== src/Tests/Texts.antt =====
-- Vertices, SGF points and texts, handicap points.
use gowui.Base.{
  ◌≡◌, refl, List, [], ◌∷◌, some, ok, arith, pos, true, codes, lookup, equal, length, ltb,
  if◌then◌else◌,
}
use gowui.Coords.{
  to_gtp, from_gtp, to_sgf, from_sgf, decimal, show_digits, handicap_points, handicap_allowed, Cell,
}
use gowui.Coords.Gtp.{from_gtp-to_gtp}
use gowui.Coords.Sgf.{from_sgf-to_sgf}
use gowui.Coords.Handicap.{handicap_points_fit, distinct_cells, cells_inside}
use gowui.Sgf.{Node, parse, dump}
use gowui.Sgf.Properties.{IsName, IsProperties}
use gowui.Sgf.RoundTrip.{AreNodes, parse-dump}
use gowui.Sgf.Bounds.{IsRead, parse-IsRead}

written : to_gtp (some (pos 8, pos 0)) 19 ≡ ok (codes "J19")
unfolding to_gtp decimal show_digits
written = refl

from_gtp-to_gtp_example : from_gtp (codes "J19") 19 ≡ ok (some (pos 8, pos 0))
from_gtp-to_gtp_example =
    from_gtp-to_gtp (some (pos 8, pos 0)) 19 (codes "J19") (omega arith) written

last_corner : to_sgf (some (pos 19, pos 19)) 21 ≡ ok (codes "tt")
unfolding to_sgf
last_corner = refl

from_sgf-to_sgf_example : from_sgf (codes "tt") 21 ≡ ok (some (pos 19, pos 19))
from_sgf-to_sgf_example =
    from_sgf-to_sgf (some (pos 19, pos 19)) 21 (codes "tt") (omega arith) last_corner

abbrev two_stones : List Cell
two_stones = (2, 6) ∷ (6, 2) ∷ []

two_on_nine : handicap_points 9 (pos 2) ≡ ok two_stones
unfolding handicap_points handicap_allowed
two_on_nine = refl

handicap_points_fit_example :
    (handicap_allowed 9 (pos 2) ≡ true)
    × (length two_stones ≡ (if ltb 2 2 then 0 else 2))
    × (distinct_cells two_stones ≡ true)
    × (cells_inside 9 two_stones ≡ true)
handicap_points_fit_example = handicap_points_fit 9 2 two_stones (omega arith) two_on_nine

abbrev nodes : List Node
nodes =
    ((codes "SZ", codes "9" ∷ []) ∷ (codes "C", codes "a]b\\" ∷ []) ∷ [])
    ∷ ((codes "B", codes "ee" ∷ []) ∷ [])
    ∷ []

nodes-AreNodes : AreNodes nodes
unfolding AreNodes IsProperties lookup equal
nodes-AreNodes = (
  (IsName.more _ refl (IsName.last _ refl), refl, refl, (IsName.last _ refl, refl, refl, tt)),
  ((IsName.last _ refl, refl, refl, tt), tt),
)

parse-dump_example : parse (dump nodes) ≡ ok nodes
parse-dump_example = parse-dump nodes refl (omega arith) nodes-AreNodes

parse-IsRead_example : IsRead (parse (codes "(;B[aa](;W[bb])"))
parse-IsRead_example = parse-IsRead (codes "(;B[aa](;W[bb])")
