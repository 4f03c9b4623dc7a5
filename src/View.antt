-- ===== src/View.antt =====
-- gowui/game.py: what the browser is shown of a game, and its legal moves.
pub mod Legal
use gowui.Base.{
  ℕ, zero, suc, ◌+◌, ◌-◌, ◌*◌, Bool, true, false, not, ◌&&◌, List, [], ◌∷◌, ◌++◌, Option, none,
  some, is_some, ◌==◌, if◌then◌else◌, length, get_or, take, Text, codes, Result, ok, err, ◌>>=◌, ℤ,
  pos, pos_part,
}
use gowui.Coords.{CoordinateError, Point, to_gtp}
use gowui.Board.{black, white, empty}
use gowui.Game.{
  Float, Move, SetupStone, Game, Key, Reason, snapshot_at, prisoners_at, to_play, last_move,
  is_game_over, legal_error,
}

-- The points of a row from `x` that `color` may play, and those of the rows from `y`.
unfoldable pub legal_row : Game → ℕ → ℕ → ℕ → ℕ → List Point
legal_row g color zero x y = []
legal_row g color (suc n) x y =
    let rest = legal_row g color n (x + 1) y in
    if is_some (legal_error g color (some (pos x, pos y))) then rest else (pos x, pos y) ∷ rest

unfoldable pub legal_rows : Game → ℕ → ℕ → ℕ → List Point
legal_rows g color zero y = []
legal_rows g color (suc n) y = legal_row g color g.size 0 y ++ legal_rows g color n (y + 1)

abbrev pub color_or : ℕ → Option ℕ → ℕ
color_or d none = d
color_or d (some c) = c

-- `legal_moves`; with no colour given, of the player to move.
unfoldable pub legal_moves : Game → Option ℕ → List Point
legal_moves g color = legal_rows g (color_or (to_play g) color) g.size 0

abbrev pub same_cell : Point → Point → Bool
same_cell (pos a, pos b) (pos c, pos d) = a == c && b == d
same_cell _ _ = false

-- `latest[point] = n`, in the order of the first insertion.
unfoldable pub set_latest : Point → ℕ → List (Point × ℕ) → List (Point × ℕ)
set_latest p n [] = (p, n) ∷ []
set_latest p n ((q, k) ∷ d) = if same_cell q p then (q, n) ∷ d else (q, k) ∷ set_latest p n d

abbrev pub with_move : Option Point → ℕ → List (Point × ℕ) → List (Point × ℕ)
with_move none n d = d
with_move (some p) n d = set_latest p n d

unfoldable pub latest : ℕ → List Move → List (Point × ℕ) → List (Point × ℕ)
latest n [] d = d
latest n (m ∷ ms) d = latest (n + 1) ms (with_move m.point n d)

unfoldable pub named_numbers : ℕ → Key → List (Point × ℕ) → Result CoordinateError (List (Text × ℕ))
named_numbers size stones [] = ok []
named_numbers size stones ((p, n) ∷ d) =
    if get_or stones (pos_part (p.1) * size + pos_part (p.0)) 0 == empty
    then named_numbers size stones d
    else (to_gtp (some p) size >>= λ t. named_numbers size stones d >>= λ r. ok ((t, n) ∷ r))

unfoldable pub move_numbers : Game → Result CoordinateError (List (Text × ℕ))
move_numbers g = named_numbers g.size (snapshot_at g g.cursor) (latest 1 (take g.cursor g.moves) [])

abbrev pub color_name : ℕ → Text
color_name c = if c == black then codes "black" else codes "white"

-- An entry of `setupStones` and one of `moves`.
pub record StoneView : Type 0 where
  pub color : Text
  pub vertex : Text

pub record MoveView : Type 0 where
  pub n : ℕ
  pub color : Text
  pub vertex : Text
  pub captures : ℕ
  pub comment : Text

unfoldable pub stone_views : ℕ → List SetupStone → Result CoordinateError (List StoneView)
stone_views size [] = ok []
stone_views size (s ∷ ss) = to_gtp (some (pos s.x, pos s.y)) size >>= λ t.
    stone_views size ss >>= λ r. ok (record { color = color_name s.color; vertex = t } ∷ r)

unfoldable pub move_views : ℕ → ℕ → List Move → Result CoordinateError (List MoveView)
move_views size n [] = ok []
move_views size n (m ∷ ms) = to_gtp m.point size >>= λ t. move_views size (n + 1) ms >>= λ r. ok (
    record {
      n = n;
      color = color_name m.color;
      vertex = t;
      captures = m.captures;
      comment = m.comment;
    }
    ∷ r)

-- The dictionary of `to_dict`, key by key.
pub record GameView : Type 0 where
  pub size : ℕ
  pub komi : Float
  pub rules : Text
  pub handicap : ℕ
  pub stones : Key
  pub black_captures : ℕ
  pub white_captures : ℕ
  pub to_play : Text
  pub cursor : ℕ
  pub move_count : ℕ
  pub game_over : Bool
  pub result : Text
  pub black_player : Text
  pub white_player : Text
  pub last_move : Option Text
  pub setup_stones : List StoneView
  pub moves : List MoveView
  pub move_numbers : List (Text × ℕ)

abbrev pub last_vertex : ℕ → Option Move → Result CoordinateError (Option Text)
last_vertex size none = ok none
last_vertex size (some m) = to_gtp m.point size >>= λ t. ok (some t)

unfoldable pub to_dict : Game → Result CoordinateError GameView
to_dict g = do
  last ← last_vertex g.size (last_move g)
  stones ← stone_views g.size g.setup_stones
  moves ← move_views g.size 1 g.moves
  numbers ← move_numbers g
  ok (record {
    size = g.size;
    komi = g.komi;
    rules = g.rules.name;
    handicap = g.handicap;
    stones = snapshot_at g g.cursor;
    black_captures = (prisoners_at g g.cursor).0;
    white_captures = (prisoners_at g g.cursor).1;
    to_play = color_name (to_play g);
    cursor = g.cursor;
    move_count = length g.moves;
    game_over = is_game_over g;
    result = g.result;
    black_player = g.black_name;
    white_player = g.white_name;
    last_move = last;
    setup_stones = stones;
    moves = moves;
    move_numbers = numbers;
  })
