-- ===== src/Archive.antt =====
-- gowui/game.py, the SGF part: `to_sgf`, `from_sgf` and their helpers. What `float` and `repr` make of
-- a number is a parameter.
pub mod Reading
use gowui.Base.{
  ℕ, zero, suc, ◌+◌, ◌-◌, ◌*◌, Bool, true, false, not, ◌&&◌, ◌||◌, List, [], ◌∷◌, ◌++◌, Option,
  none, some, is_some, ltb, leb, ◌==◌, if◌then◌else◌, length, min, max, Text, codes, equal, within,
  strip, lower, Result, ok, err, raise_if, or_raise, ◌>>=◌, ◌>>◌, ℤ, pos, pos_part, lookup, text_eq,
}
use gowui.Rules.{RuleSet, get_rules, default_rules}
use gowui.Coords.{CoordinateError, to_sgf, from_sgf, sgf_point, decimal}
use gowui.Board.{black, white}
use gowui.Sgf.{SgfError, Node, get, replace_char, dump, parse}
use gowui.Game.{Float, is_finite, SetupStone, Move, Game, setup, play_move}

pub data ArchiveError : Type 0 where
  bad_sgf : SgfError → ArchiveError
  bad_size size_outside bad_rules bad_komi bad_handicap handicap_outside : ArchiveError
  bad_setup : CoordinateError → ArchiveError
  too_many_points both_colours : ArchiveError

abbrev pub has : Text → Node → Bool
has key node = is_some (lookup key node)

abbrev pub is_digit : ℕ → Bool
is_digit c = within b'0' b'9' c

unfoldable pub digits_of : Text → Text
digits_of [] = []
digits_of (c ∷ cs) = if is_digit c then c ∷ digits_of cs else []

unfoldable pub after_digits : Text → Text
after_digits [] = []
after_digits (c ∷ cs) = if is_digit c then after_digits cs else c ∷ cs

unfoldable pub drop_zeros : Text → Text
drop_zeros [] = []
drop_zeros (c ∷ cs) = if c == b'0' then drop_zeros cs else c ∷ cs

unfoldable pub number : ℕ → Text → ℕ
number n [] = n
number n (c ∷ cs) = number (n * 10 + (c - b'0')) cs

-- `_small_int`; no digit left reads as 0.
unfoldable pub small_int : Text → Option ℕ
small_int digits =
    let rest = drop_zeros digits in if leb (length rest) 4 then some (number 0 rest) else none

abbrev pub is_nil {ℓ} : {A : Type ℓ} → List A → Bool
is_nil [] = true
is_nil (x ∷ xs) = false

-- `_SZ.fullmatch` with one number, or twice the same.
abbrev pub square_rest : Text → Text → Bool
square_rest first [] = true
square_rest first (c ∷ cs) = c == b':' && (not (is_nil cs) && equal cs first)

unfoldable pub match_square : Text → Option Text
match_square text =
    let first = digits_of text in
    if not (is_nil first) && square_rest first (after_digits text) then some first else none

abbrev pub size_in_range : Option ℕ → Option ℕ
size_in_range none = none
size_in_range (some n) = if leb 2 n && leb n 25 then some n else none

unfoldable pub sgf_size : Node → Result ArchiveError ℕ
sgf_size root = if not (has (codes "SZ") root) then ok 19 else (do
  digits ← or_raise (match_square (get (codes "SZ") root)) bad_size
  or_raise (size_in_range (small_int digits)) size_outside)

abbrev pub rule_aliases : List (Text × Text)
rule_aliases =
    (codes "jp", codes "japanese")
    ∷ (codes "cn", codes "chinese")
    ∷ (codes "nz", codes "new-zealand")
    ∷ (codes "tromptaylor", codes "tromp-taylor")
    ∷ []

abbrev pub unalias : Text → Option Text → Text
unalias key none = key
unalias key (some name) = name

unfoldable pub sgf_rules : Text → Text
sgf_rules value =
    let key = replace_char b' ' (b'-' ∷ []) (replace_char b'_' (b'-' ∷ []) (lower (strip value))) in
    elim (get_rules (unalias key (lookup key rule_aliases))) [
      | ok rs ↦ rs.name
      | err e ↦ default_rules
    ]

abbrev pub drop_sign : Text → Text
drop_sign [] = []
drop_sign (c ∷ cs) = if c == b'+' || c == b'-' then cs else c ∷ cs

abbrev pub is_exponent : Text → Bool
is_exponent [] = true
is_exponent (c ∷ cs) =
    (c == b'e' || c == b'E')
    && (not (is_nil (digits_of (drop_sign cs))) && is_nil (after_digits (drop_sign cs)))

abbrev pub after_point : Bool → Text → Bool
after_point whole [] = whole
after_point whole (c ∷ cs) =
    if c == b'.'
    then (whole || not (is_nil (digits_of cs))) && is_exponent (after_digits cs)
    else whole && is_exponent (c ∷ cs)

-- `_KM.fullmatch`.
unfoldable pub is_number : Text → Bool
is_number text = let t = drop_sign text in after_point (not (is_nil (digits_of t))) (after_digits t)

abbrev pub handicap_in_range : ℕ → Bool → Option ℕ → Option ℕ
handicap_in_range size minus none = none
handicap_in_range size minus (some n) =
    if (not minus || n == 0) && leb n (size * size) then some n else none

abbrev pub has_minus : Text → Bool
has_minus [] = false
has_minus (c ∷ cs) = c == b'-'

unfoldable pub sgf_handicap : Node → ℕ → Result ArchiveError ℕ
sgf_handicap root size =
    if not (has (codes "HA") root)
    then ok 0
    else let value = strip (get (codes "HA") root) in
      let digits = drop_sign value in
      (do
        raise_if (is_nil (digits_of digits) || not (is_nil (after_digits digits))) bad_handicap
        or_raise (handicap_in_range size (has_minus value) (small_int digits)) handicap_outside)

-- The corners of a point or of a compressed rectangle.
pub record Rect : Type 0 where
  pub x1 : ℕ
  pub y1 : ℕ
  pub x2 : ℕ
  pub y2 : ℕ

unfoldable pub before_colon : Text → Text
before_colon [] = []
before_colon (c ∷ cs) = if c == b':' then [] else c ∷ before_colon cs

unfoldable pub beyond_colon : Text → Option Text
beyond_colon [] = none
beyond_colon (c ∷ cs) = if c == b':' then some cs else beyond_colon cs

abbrev pub point_of : Text → ℕ → Result ArchiveError (ℕ × ℕ)
point_of text size = elim (sgf_point text size) [
  | ok p ↦ ok (pos_part (p.0), pos_part (p.1))
  | err e ↦ err (bad_setup e)
]

abbrev pub rect_of : ℕ → Text → Option Text → Result ArchiveError Rect
rect_of size value none = do
  p ← point_of value size
  ok (record { x1 = p.0; y1 = p.1; x2 = p.0; y2 = p.1 })
rect_of size value (some second) = do
  p ← point_of (before_colon value) size
  q ← point_of second size
  ok (record {
    x1 = min (p.0) (q.0);
    y1 = min (p.1) (q.1);
    x2 = max (p.0) (q.0);
    y2 = max (p.1) (q.1);
  })

unfoldable pub sgf_rect : Text → ℕ → Result ArchiveError Rect
sgf_rect value size = rect_of size value (beyond_colon value)

abbrev pub area : Rect → ℕ
area r = (r.x2 - r.x1 + 1) * (r.y2 - r.y1 + 1)

-- The first loop of `_sgf_setup`, over the values of one colour: the rectangles are counted before any
-- is expanded.
unfoldable pub read_rects : ℕ → ℕ → ℕ → List Text → Result ArchiveError (List (ℕ × Rect) × ℕ)
read_rects size color listed [] = ok ([], listed)
read_rects size color listed (v ∷ vs) = sgf_rect v size >>= λ r.
    raise_if (ltb (size * size) (listed + area r)) too_many_points >>= λ _.
    read_rects size color (listed + area r) vs >>= λ rest. ok ((color, r) ∷ rest.0, rest.1)

unfoldable pub color_at : ℕ → ℕ → List SetupStone → Option ℕ
color_at x y [] = none
color_at x y (s ∷ ss) = if s.x == x && s.y == y then some s.color else color_at x y ss

abbrev pub add_owned :
    ℕ → ℕ → ℕ → List SetupStone → Option ℕ → Result ArchiveError (List SetupStone)
add_owned color x y stones none = ok (stones ++ record { color = color; x = x; y = y } ∷ [])
add_owned color x y stones (some c) = if c == color then ok stones else err both_colours

-- One point of the second loop; `owner` holds the points of `setup` and no other.
unfoldable pub add_stone : ℕ → ℕ → ℕ → List SetupStone → Result ArchiveError (List SetupStone)
add_stone color x y stones = add_owned color x y stones (color_at x y stones)

-- `n` points of a row from `x`, and `n` rows from `y`.
unfoldable pub add_row : ℕ → ℕ → ℕ → ℕ → List SetupStone → Result ArchiveError (List SetupStone)
add_row color zero x y stones = ok stones
add_row color (suc n) x y stones = add_stone color x y stones >>= add_row color n (x + 1) y

unfoldable pub add_rows :
    ℕ → ℕ → ℕ → ℕ → ℕ → List SetupStone → Result ArchiveError (List SetupStone)
add_rows color zero width x y stones = ok stones
add_rows color (suc n) width x y stones =
    add_row color width x y stones >>= add_rows color n width x (y + 1)

unfoldable pub add_rects : List (ℕ × Rect) → List SetupStone → Result ArchiveError (List SetupStone)
add_rects [] stones = ok stones
add_rects ((color, r) ∷ rs) stones =
    add_rows color (r.y2 - r.y1 + 1) (r.x2 - r.x1 + 1) r.x1 r.y1 stones >>= add_rects rs

abbrev pub values_of : Text → Node → List Text
values_of key node = elim (lookup key node) [ none ↦ [] | some vs ↦ vs ]

unfoldable pub sgf_setup : Node → ℕ → Result ArchiveError (List SetupStone)
sgf_setup root size = do
  blacks ← read_rects size black 0 (values_of (codes "AB") root)
  whites ← read_rects size white (blacks.1) (values_of (codes "AW") root)
  add_rects (blacks.0 ++ whites.0) []

abbrev pub first_player_of : Text → ℕ → ℕ
first_player_of player otherwise =
    if equal player (codes "b") || equal player (codes "black")
    then black
    else if equal player (codes "w") || equal player (codes "white")
    then white
    else otherwise

abbrev pub text_or : Text → Text → Text
text_or [] otherwise = otherwise
text_or (c ∷ cs) otherwise = c ∷ cs

abbrev pub with_point : Game → ℕ → Text → Result CoordinateError (Option (ℤ × ℤ)) → Game × Bool
with_point g color comment (err e) = (g, false)
with_point g color comment (ok p) = elim (play_move g color p comment) as (λ r. Game × Bool) [
  | ok g' ↦ (g', true)
  | err e ↦ (g, false)
]

-- The move of one colour in a node: the game, and whether the reading goes on.
unfoldable pub play_key : Text → ℕ → Node → Game → Game × Bool
play_key key color node g =
    if not (has key node)
    then (g, true)
    else with_point g color (get (codes "C") node) (from_sgf (get key node) g.size)

abbrev pub then_white : Node → Game × Bool → Game × Bool
then_white node (g, true) = play_key (codes "W") white node g
then_white node (g, false) = (g, false)

unfoldable pub play_node : Node → Game → Game × Bool
play_node node g =
    if has (codes "AB") node || has (codes "AW") node || has (codes "AE") node
    then (g, false)
    else then_white node (play_key (codes "B") black node g)

unfoldable pub play_nodes : List Node → Game → Game
play_nodes [] g = g
play_nodes (n ∷ ns) g =
    let played : Game × Bool = play_node n g in
    elim (played.1) as (λ b. Game) [ true ↦ play_nodes ns (played.0) | false ↦ played.0 ]

abbrev pub root_of : List Node → Node
root_of [] = []
root_of (n ∷ ns) = n

abbrev pub rest_of : List Node → List Node
rest_of [] = []
rest_of (n ∷ ns) = ns

abbrev pub as_archive {ℓ} :
    {E : Type 0} {A : Type ℓ} → (E → ArchiveError) → Result E A → Result ArchiveError A
as_archive f (ok a) = ok a
as_archive f (err e) = err (f e)

abbrev pub handicap_of : ℕ → List SetupStone → ℕ
handicap_of ha stones = if not (is_nil stones) && leb 2 ha then ha else 0

module _ (read_float : Text → Float) where
  unfoldable pub sgf_komi : Node → Result ArchiveError (Option Float)
  sgf_komi root =
      let value = strip (get (codes "KM") root) in
      if is_nil value
      then ok none
      else if not (is_number value) || not (is_finite (read_float value))
      then err bad_komi
      else ok (some (read_float value))

  abbrev pub read_game : List Node → Node → ℕ → RuleSet → Option Float → ℕ → List SetupStone → Game
  read_game nodes root size rules komi ha stones =
      let handicap = handicap_of ha stones in
      let first =
        first_player_of (lower (strip (get (codes "PL") root)))
          (if handicap == 0 then black else white) in
      let g = play_nodes (rest_of nodes) (record (setup size rules komi handicap stones first) {
        black_name = text_or (get (codes "PB") root) (codes "Black");
        white_name = text_or (get (codes "PW") root) (codes "White");
      }) in
      record g { result = get (codes "RE") root }

  unfoldable pub read_nodes : List Node → Result ArchiveError Game
  read_nodes nodes =
      let root = root_of nodes in
      (do
        size ← sgf_size root
        rules ← as_archive (λ e. bad_rules) (get_rules (sgf_rules (get (codes "RU") root)))
        komi ← sgf_komi root
        ha ← sgf_handicap root size
        stones ← sgf_setup root size
        ok (read_game nodes root size rules komi ha stones))

  -- `Game.from_sgf`.
  unfoldable pub read_sgf : Text → Result ArchiveError Game
  read_sgf text = as_archive bad_sgf (parse text) >>= read_nodes

abbrev pub one : Text → Text → Text × List Text
one key value = (key, value ∷ [])

abbrev pub optional : Bool → Text × List Text → Node
optional true p = p ∷ []
optional false p = []

-- The setup points of one colour.
unfoldable pub setup_points : ℕ → ℕ → List SetupStone → Result CoordinateError (List Text)
setup_points size color [] = ok []
setup_points size color (s ∷ ss) =
    if s.color == color
    then (to_sgf (some (pos s.x, pos s.y)) size >>= λ t.
        setup_points size color ss >>= λ ts. ok (t ∷ ts))
    else setup_points size color ss

abbrev pub points_property : Text → List Text → Node
points_property key [] = []
points_property key (t ∷ ts) = (key, t ∷ ts) ∷ []

unfoldable pub move_node : ℕ → Move → Result CoordinateError Node
move_node size m = to_sgf m.point size >>= λ t. ok (
    one (if m.color == black then codes "B" else codes "W") t
    ∷ optional (not (is_nil m.comment)) (one (codes "C") m.comment))

unfoldable pub move_nodes : ℕ → List Move → Result CoordinateError (List Node)
move_nodes size [] = ok []
move_nodes size (m ∷ ms) = move_node size m >>= λ n. move_nodes size ms >>= λ ns. ok (n ∷ ns)

module _ (show_float : Float → Text) (version : Text) where
  abbrev pub root_node : Game → List Text → List Text → Node
  root_node g blacks whites =
      one (codes "GM") (codes "1")
      ∷ one (codes "FF") (codes "4")
      ∷ one (codes "CA") (codes "UTF-8")
      ∷ one (codes "AP") (codes "gowui:" ++ version)
      ∷ one (codes "SZ") (decimal g.size)
      ∷ one (codes "KM") (show_float g.komi)
      ∷ one (codes "RU") g.rules.katago
      ∷ one (codes "PB") g.black_name
      ∷ one (codes "PW") g.white_name
      ∷ (optional (not (g.handicap == 0)) (one (codes "HA") (decimal g.handicap))
          ++ (optional (not (g.first_player == (if g.handicap == 0 then black else white)))
                (one (codes "PL") (if g.first_player == black then codes "B" else codes "W"))
              ++ (optional (not (is_nil g.result)) (one (codes "RE") g.result)
                  ++ (points_property (codes "AB") blacks ++ points_property (codes "AW") whites))))

  -- `Game.to_sgf`.
  unfoldable pub write_sgf : Game → Result CoordinateError Text
  write_sgf g = do
    blacks ← setup_points g.size black g.setup_stones
    whites ← setup_points g.size white g.setup_stones
    nodes ← move_nodes g.size g.moves
    ok (dump (root_node g blacks whites ∷ nodes))
