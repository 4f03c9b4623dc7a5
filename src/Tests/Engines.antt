-- ===== src/Tests/Engines.antt =====
-- A vertex and a ranking out of an engine.
use gowui.Base.{◌≡◌, refl, some, arith, codes, equal, lower, lower_char, upper_char}
use gowui.Coords.{to_gtp, from_gtp, find, match_vertex, decimal, show_digits}
use gowui.Types.{Value, board_vertex}
use gowui.Types.Vertices.{IsCanonical, board_vertex-IsCanonical}

lower_case : board_vertex (Value.text (codes "d4")) 19 ≡ some (codes "D4")
unfolding board_vertex from_gtp to_gtp find match_vertex decimal show_digits equal lower lower_char
    upper_char
lower_case = refl

board_vertex-IsCanonical_example : IsCanonical 19 (Value.text (codes "d4")) (codes "D4")
board_vertex-IsCanonical_example =
    board_vertex-IsCanonical (Value.text (codes "d4")) 19 (codes "D4") (omega arith) lower_case
