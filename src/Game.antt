-- ===== src/Game.antt =====
-- gowui/game.py: setup stones, one line of play and a cursor, with the two indexes that answer the
-- superko rules. Every method returns the new game; what raises returns its error.
pub mod Index
pub mod Plies
pub mod Invariant
pub mod Methods
pub mod Rulings
pub mod Line
pub mod History
pub mod Reach
pub mod Superko
use gowui.Base.{
  ℕ, zero, suc, ◌+◌, ◌-◌, ◌*◌, ◌≡◌, Bool, true, false, not, ◌&&◌, ◌||◌, List, [], ◌∷◌, ◌++◌, map,
  Option, none, some, ltb, leb, ◌==◌, if◌then◌else◌, length, get_or, get_elem?, set, take,
  replicate, is_some, min, Text, codes, equal, equal_iff, Result, ok, err, raise_if, ◌>>=◌, ◌>>◌, ℤ,
  pos, negsuc, pos_part, below, Eq, lookup, erase, set_default, ◌↔◌, arith,
}
use gowui.Rules.{
  RuleSet, Ko, simple_ko, positional_superko, situational_superko, get_rules, handicap_komi,
}
use gowui.Coords.{Point, Cell, handicap_points}
use gowui.Board.{
  Board, MoveError, Captures, empty, black, white, opponent, is_color, on_board, get, play,
}

abbrev pub max_moves : ℕ
max_moves = 2000

-- A Python float: `num m e` is m·2^e.
pub data Float : Type 0 where
  num : ℤ → ℤ → Float
  inf neg_inf nan : Float

abbrev pub half_points : ℕ → Float
half_points n = num (pos n) (negsuc 0)

abbrev pub is_finite : Float → Bool
is_finite (num m e) = true
is_finite _ = false

-- The argument `komi`: a boolean, what `float` reads, or what it refuses.
pub data KomiArg : Type 0 where
  boolean : Bool → KomiArg
  real : Float → KomiArg
  unreadable : KomiArg

pub data GameError : Type 0 where
  bad_size bad_rules bad_komi bad_handicap : GameError

unfoldable pub finite_komi : KomiArg → Result GameError Float
finite_komi (KomiArg.real f) = if is_finite f then ok f else err bad_komi
finite_komi _ = err bad_komi

pub record Move : Type 0 where
  pub color : ℕ
  pub point : Option Point
  pub captures : ℕ
  pub comment : Text

-- A setup stone; those that the program makes stand on the board.
pub record SetupStone : Type 0 where
  pub color : ℕ
  pub x : ℕ
  pub y : ℕ

-- A snapshot of the stones, which is its own positional key.
abbrev pub Key : Type 0
Key = List ℕ

abbrev pub Situation : Type 0
Situation = Key × ℕ

abbrev same_situation : Situation → Situation → Bool
same_situation a b = equal (a.0) (b.0) && a.1 == b.1

pub same_situation_iff : (a b : Situation) → (same_situation a b ≡ true) ↔ (a ≡ b)
same_situation_iff a b = ground (arith, equal_iff (a.0) (b.0))

instance abbrev pub key_eq : Eq Key
key_eq = record { same = equal; same_iff = equal_iff }

instance abbrev pub situation_eq : Eq Situation
situation_eq = record { same = same_situation; same_iff = same_situation_iff }

pub record Game : Type 0 where
  pub size : ℕ
  pub rules : RuleSet
  pub handicap : ℕ
  pub komi : Float
  pub result : Text
  pub black_name : Text
  pub white_name : Text
  pub setup_stones : List SetupStone
  pub first_player : ℕ
  pub moves : List Move
  pub cursor : ℕ
  pub snapshots : List Key
  pub prisoners : List (ℕ × ℕ)
  pub first_seen : List (Key × ℕ)
  pub first_seen_to_play : List (Situation × ℕ)

unfoldable pub place_setup : ℕ → List SetupStone → Key → Key
place_setup size [] stones = stones
place_setup size (s ∷ ss) stones = place_setup size ss (set stones (s.y * size + s.x) s.color)

-- `_setup`, on a new object.
unfoldable pub setup : ℕ → RuleSet → Option Float → ℕ → List SetupStone → ℕ → Game
unfolding place_setup
setup size rules komi handicap stones first_player =
    let key = place_setup size stones (replicate (size * size) empty) in
    record {
      size = size;
      rules = rules;
      handicap = handicap;
      komi = elim komi [
        | some k ↦ k
        | none ↦ half_points (if handicap == 0 then rules.default_komi else handicap_komi)
      ];
      result = [];
      black_name = codes "Black";
      white_name = codes "White";
      setup_stones = stones;
      first_player = first_player;
      moves = [];
      cursor = 0;
      snapshots = key ∷ [];
      prisoners = (0, 0) ∷ [];
      first_seen = (key, 0) ∷ [];
      first_seen_to_play = ((key, first_player), 0) ∷ [];
    }

abbrev cast_rules : Text → Result GameError RuleSet
cast_rules name = elim (get_rules name) [ ok rs ↦ ok rs | err e ↦ err bad_rules ]

abbrev cast_komi : Option KomiArg → Result GameError (Option Float)
cast_komi none = ok none
cast_komi (some k) = elim (finite_komi k) [ ok f ↦ ok (some f) | err e ↦ err e ]

abbrev cast_points : ℕ → ℤ → Result GameError (List Cell)
cast_points size handicap = elim (handicap_points size handicap) [
  | ok ps ↦ ok ps
  | err e ↦ err bad_handicap
]

abbrev size_ok : ℤ → Bool
size_ok (pos n) = leb 2 n && leb n 25
size_ok (negsuc n) = false

-- `Game(size, komi, rules, handicap)`, for integers `size` and `handicap`.
unfoldable pub new_game : ℤ → Option KomiArg → Text → ℤ → Result GameError Game
new_game size komi rules handicap = do
  raise_if (not (size_ok size)) bad_size
  rule_set ← cast_rules rules
  value ← cast_komi komi
  points ← cast_points (pos_part size) handicap
  let count = length points
  let stones = map (λ (p : Cell). record { color = black; x = p.0; y = p.1 }) points
  ok (setup (pos_part size) rule_set value count stones (if count == 0 then black else white))

abbrev pub snapshot_at : Game → ℕ → Key
snapshot_at g i = get_or g.snapshots i []

abbrev pub prisoners_at : Game → ℕ → ℕ × ℕ
prisoners_at g i = get_or g.prisoners i (0, 0)

-- The property `board`.
unfoldable pub board : Game → Board
board g = record {
  size = g.size;
  stones = snapshot_at g g.cursor;
  captures = record {
    by_black = (prisoners_at g g.cursor).0;
    by_white = (prisoners_at g g.cursor).1;
  };
}

-- The colour of `self.moves[i]`.
abbrev pub color_at : List Move → ℕ → ℕ
color_at moves i = elim (get_elem? moves i) [ none ↦ 0 | some m ↦ m.color ]

unfoldable pub to_play_at : Game → ℕ → ℕ
to_play_at g zero = g.first_player
to_play_at g (suc i) = opponent (color_at g.moves i)

abbrev pub to_play : Game → ℕ
to_play g = to_play_at g g.cursor

unfoldable pub last_move : Game → Option Move
last_move g = if g.cursor == 0 then none else get_elem? g.moves (g.cursor - 1)

abbrev is_pass : Option Move → Bool
is_pass (some m) = not (is_some m.point)
is_pass none = false

-- `_RESIGNATION.fullmatch`.
abbrev pub is_resignation : Text → Bool
is_resignation t =
    equal t (codes "B+R")
    || equal t (codes "W+R")
    || equal t (codes "B+Resign")
    || equal t (codes "W+Resign")

unfoldable pub is_game_over : Game → Bool
is_game_over g =
    let c = g.cursor in
    (leb 2 c && is_pass (get_elem? g.moves (c - 1)) && is_pass (get_elem? g.moves (c - 2)))
    || (c == length g.moves && is_resignation g.result)

-- Why `_attempt` refuses a move.
pub data Reason : Type 0 where
  unknown_colour full outside taken ko superko situational : Reason
  illegal : MoveError → Reason

pub data Attempt : Type 0 where
  refused : Reason → Attempt
  allowed : Board → ℕ → Attempt

-- Whether an index entry stands at or before the cursor.
abbrev pub seen_by : ℕ → Option ℕ → Bool
seen_by cursor none = leb (cursor + 1) cursor
seen_by cursor (some i) = leb i cursor

unfoldable pub ko_refusal : Game → Ko → ℕ → Key → Option Reason
ko_refusal g simple_ko color key =
    if not (g.cursor == 0) && equal key (snapshot_at g (g.cursor - 1)) then some ko else none
ko_refusal g positional_superko color key =
    if seen_by g.cursor (lookup key g.first_seen) then some superko else none
ko_refusal g situational_superko color key =
    if seen_by g.cursor (lookup (key, opponent color) g.first_seen_to_play)
    then some situational
    else none

abbrev after_ko : Option Reason → Board → ℕ → Attempt
after_ko (some r) b n = refused r
after_ko none b n = allowed b n

unfoldable pub after_play : Game → ℕ → Result MoveError (List (ℕ × ℕ)) × Board → Attempt
after_play g color (err e, b) = refused (illegal e)
after_play g color (ok captured, b) =
    after_ko (ko_refusal g g.rules.ko color b.stones) b (length captured)

unfoldable pub attempt_at : Game → ℕ → Point → Attempt
attempt_at g color (x, y) =
    if not (on_board (board g) x y)
    then refused outside
    else if not (get (board g) x y == empty)
    then refused taken
    else after_play g color (play (board g) color x y g.rules.suicide)

unfoldable pub attempt : Game → ℕ → Option Point → Attempt
attempt g color point =
    if not (is_color color)
    then refused unknown_colour
    else if not (ltb g.cursor max_moves)
    then refused full
    else elim point [ none ↦ allowed (board g) 0 | some p ↦ attempt_at g color p ]

abbrev pub reason_of : Attempt → Option Reason
reason_of (refused r) = some r
reason_of (allowed b n) = none

unfoldable pub legal_error : Game → ℕ → Option Point → Option Reason
legal_error g color point = reason_of (attempt g color point)

-- `if index.get(key) == i: del index[key]`.
unfoldable pub forget {ℓ} : {K : Type ℓ} ⦃e : Eq K⦄ → ℕ → K → List (K × ℕ) → List (K × ℕ)
forget i key index = elim (lookup key index) [
  | none ↦ index
  | some j ↦ if j == i then erase key index else index
]

-- The loop of `_truncate`, from `ply + rounds` down to `ply + 1`.
unfoldable pub unindex : ℕ → ℕ → Game → Game
unfolding forget
unindex zero ply g = g
unindex (suc n) ply g =
    let i = ply + suc n in
    let key = snapshot_at g i in
    unindex n ply (record g {
      first_seen = forget i key g.first_seen;
      first_seen_to_play = forget i (key, opponent (color_at g.moves (i - 1))) g.first_seen_to_play;
    })

abbrev pub cut : ℕ → Game → Game
cut ply g = record g {
  snapshots = take (ply + 1) g.snapshots;
  prisoners = take (ply + 1) g.prisoners;
  moves = take ply g.moves;
}

unfoldable pub truncate : ℕ → Game → Game
unfolding unindex
truncate ply g = cut ply (unindex (length g.snapshots - 1 - ply) ply g)

-- What `play` writes once the move is allowed. The stored key is the one already there, if any.
unfoldable pub record_move : Game → Move → Board → Game
record_move g move b =
    let key : Key = elim (lookup b.stones g.first_seen) [
      | none ↦ b.stones
      | some i ↦ snapshot_at g i
    ] in
    let ply = length g.snapshots in
    record g {
      moves = g.moves ++ move ∷ [];
      snapshots = g.snapshots ++ key ∷ [];
      prisoners = g.prisoners ++ (b.captures.by_black, b.captures.by_white) ∷ [];
      first_seen = set_default key ply g.first_seen;
      first_seen_to_play = set_default (key, opponent move.color) ply g.first_seen_to_play;
      cursor = ply;
      result = [];
    }

abbrev pub move_of : ℕ → Option Point → ℕ → Text → Move
move_of color point captured comment = record {
  color = color;
  point = point;
  captures = captured;
  comment = comment;
}

abbrev pub play_on : Game → ℕ → Option Point → Text → Attempt → Result Reason Game
play_on g color point comment (refused r) = err r
play_on g color point comment (allowed b n) =
    ok (record_move (truncate g.cursor g) (move_of color point n comment) b)

-- `Game.play`; the move that it returns is the last one of the line.
unfoldable pub play_move : Game → ℕ → Option Point → Text → Result Reason Game
play_move g color point comment = play_on g color point comment (attempt g color point)

unfoldable pub undo : Game → Option Move × Game
undo g = if g.cursor == 0 then (none, record g { result = [] }) else (
  get_elem? g.moves (g.cursor - 1),
  truncate (g.cursor - 1) (record g { cursor = g.cursor - 1; result = [] }),
)

abbrev clamp : ℤ → ℕ → ℕ
clamp (pos n) hi = min n hi
clamp (negsuc n) hi = 0

unfoldable pub navigate : ℤ → Game → Game
navigate index g = record g { cursor = clamp index (length g.moves) }

unfoldable pub branch : Game → Game
branch g = record (truncate g.cursor g) { result = [] }

pub data ResignError : Type 0 where
  unknown_resigner : ResignError

unfoldable pub resign : ℕ → Game → Result ResignError Game
resign color g =
    if not (is_color color)
    then err unknown_resigner
    else ok (record g { result = if color == black then codes "W+R" else codes "B+R" })
