-- ===== src/Types.antt =====
-- gowui/engine/types.py: what is made of an engine's numbers and vertices, positions, and the shared
-- analysis shape. What `float` makes of a text or an integer, and float subtraction, are parameters.
pub mod Vertices
use gowui.Base.{
  ℕ, zero, suc, ◌+◌, ◌-◌, ◌*◌, ◌/◌, ◌^◌, Bool, true, false, not, ◌&&◌, ◌||◌, List, [], ◌∷◌, ◌++◌,
  map, Option, none, some, ltb, leb, ◌==◌, if◌then◌else◌, length, min, Text, codes, equal,
  upper_char, Result, ok, err, ℤ, pos, negsuc, is_some,
}
use gowui.Coords.{CoordinateError, Point, to_gtp, from_gtp}
use gowui.Game.{Float, is_finite}

-- A value out of decoded engine output.
pub data Value : Type 0 where
  null : Value
  boolean : Bool → Value
  integer : ℤ → Value
  real : Float → Value
  text : Text → Value
  other : Value

abbrev pub finite_float : Option Float → Option Float
finite_float none = none
finite_float (some f) = if is_finite f then some f else none

abbrev pub negated : ℤ → ℤ
negated (pos zero) = pos 0
negated (pos (suc n)) = negsuc n
negated (negsuc n) = pos (suc n)

abbrev pub neg : Float → Float
neg (Float.num m e) = Float.num (negated m) e
neg Float.inf = Float.neg_inf
neg Float.neg_inf = Float.inf
neg Float.nan = Float.nan

abbrev pub is_zero : Float → Bool
is_zero (Float.num (pos n) e) = n == 0
is_zero _ = false

abbrev pub zero_float : Float
zero_float = Float.num (pos 0) (pos 0)

abbrev signed : (ℕ → ℕ) → ℤ → ℤ
signed f (pos n) = pos (f n)
signed f (negsuc n) = negated (pos (f (n + 1)))

-- `int` of a finite float, which goes towards zero.
unfoldable pub truncated : Float → ℤ
truncated (Float.num m (pos e)) = signed (λ n. n * 2 ^ e) m
truncated (Float.num m (negsuc e)) = signed (λ n. n / 2 ^ (e + 1)) m
truncated _ = pos 0

module _ (read_float : Text → Option Float) (int_float : ℤ → Option Float) where
  unfoldable pub finite : Value → Option Float
  finite Value.null = none
  finite (Value.boolean b) = none
  finite (Value.integer n) = finite_float (int_float n)
  finite (Value.real f) = finite_float (some f)
  finite (Value.text t) = finite_float (read_float t)
  finite Value.other = none

  -- `finite_int`: a finite float is truncated.
  unfoldable pub finite_int : Value → Option ℤ
  finite_int v = elim (finite v) as (λ o. Option ℤ) [ none ↦ none | some f ↦ some (truncated f) ]

  abbrev pub point_value : Bool → Option Float → Float
  point_value flip none = zero_float
  point_value flip (some f) = if is_zero f then zero_float else if flip then neg f else f

  unfoldable pub each_value : Bool → List Value → List Float
  each_value flip [] = []
  each_value flip (v ∷ vs) = point_value flip (finite v) ∷ each_value flip vs

  -- `point_values`, of a list or of another value.
  unfoldable pub point_values : Option (List Value) → Bool → Option ℕ → List Float
  point_values none flip size = []
  point_values (some vs) flip none = each_value flip vs
  point_values (some vs) flip (some n) = if length vs == n then each_value flip vs else []

  unfoldable pub flip_score : Value → Bool → Option Float
  flip_score v black_to_play = elim (finite v) as (λ o. Option Float) [
    | none ↦ none
    | some f ↦ some (if black_to_play then f else if is_zero f then zero_float else neg f)
  ]

  unfoldable pub flip_rate : (Float → Float) → Value → Bool → Option Float
  flip_rate one_minus v black_to_play = elim (finite v) as (λ o. Option Float) [
    | none ↦ none
    | some f ↦ some (if black_to_play then f else one_minus f)
  ]

abbrev pub max_turn : ℕ
max_turn = 10000

unfoldable pub clamp_turn : ℤ → ℕ
clamp_turn (pos n) = min max_turn n
clamp_turn (negsuc n) = 0

abbrev pub written : Result CoordinateError Text → Option Text
written (ok t) = some t
written (err e) = none

abbrev pub vertex_of : ℕ → Result CoordinateError (Option Point) → Option Text
vertex_of size (ok p) = written (to_gtp p size)
vertex_of size (err e) = none

unfoldable pub board_vertex : Value → ℕ → Option Text
board_vertex (Value.text t) size = vertex_of size (from_gtp t size)
board_vertex _ size = none

abbrev pub kept_vertex : Option Text → List Text → List Text
kept_vertex none ts = ts
kept_vertex (some t) ts = t ∷ ts

unfoldable pub board_vertices : List Value → ℕ → List Text
board_vertices [] size = []
board_vertices (m ∷ ms) size = kept_vertex (board_vertex m size) (board_vertices ms size)

-- `Position`; a move is its colour and its vertex.
pub record Position : Type 0 where
  pub size : ℕ
  pub komi : Float
  pub rules : Text
  pub initial_stones : List (Text × Text)
  pub moves : List (Text × Text)
  pub first_player : Text

-- `str(c).upper().startswith("B")`; no other character's upper case begins with B.
abbrev pub starts_black : Text → Bool
starts_black [] = false
starts_black (c ∷ cs) = upper_char c == b'B'

unfoldable pub last_color : Text → List (Text × Text) → Option Text
last_color c [] = none
last_color c ((d, v) ∷ []) = some d
last_color c ((d, v) ∷ m ∷ ms) = last_color c (m ∷ ms)

unfoldable pub black_to_play : Position → Bool
black_to_play p = elim (last_color [] p.moves) as (λ o. Bool) [
  | some c ↦ not (starts_black c)
  | none ↦ starts_black p.first_player
]

abbrev pub to_play : Position → Text
to_play p = if black_to_play p then codes "B" else codes "W"

pub record MoveInfo : Type 0 where
  pub move : Text
  pub visits : Option ℤ
  pub winrate : Option Float
  pub score_lead : Option Float
  pub score_mean : Option Float
  pub score_stdev : Option Float
  pub prior : Option Float
  pub lcb : Option Float
  pub utility : Option Float
  pub utility_lcb : Option Float
  pub order : Option ℤ
  pub pv : List Text

pub record RootInfo : Type 0 where
  pub visits : Option ℤ
  pub winrate : Option Float
  pub score_lead : Option Float
  pub score_mean : Option Float

-- The comparison of the mux protocol is left as the type `D` of its dictionaries.
pub record Analysis (D : Type 0) : Type 0 where
  pub move_infos : List MoveInfo
  pub root : RootInfo
  pub ownership : List Float
  pub policy : List Float
  pub turn : ℤ
  pub complete : Bool
  pub source : Text
  pub current_player : Text
  pub compare : Option D

-- A decision `a < b` on integers.
abbrev pub less : ℤ → ℤ → Bool
less (pos a) (pos b) = ltb a b
less (pos a) (negsuc b) = false
less (negsuc a) (pos b) = true
less (negsuc a) (negsuc b) = ltb b a

-- The order of the keys `(order is None, order or 0)`.
abbrev pub before : Option ℤ → Option ℤ → Bool
before none b = false
before (some a) none = true
before (some a) (some b) = less a b

-- A stable sort: each goes before the first that it is ordered before.
unfoldable pub place_info : MoveInfo → List MoveInfo → List MoveInfo
place_info m [] = m ∷ []
place_info m (x ∷ xs) = if before x.order m.order then x ∷ place_info m xs else m ∷ x ∷ xs

unfoldable pub sort_by_order : List MoveInfo → List MoveInfo
sort_by_order [] = []
sort_by_order (m ∷ ms) = place_info m (sort_by_order ms)

-- A JSON value of the frames to a browser, with its dictionaries in order.
pub data Shape (D : Type 0) : Type 0 where
  none_ : Shape D
  flag : Bool → Shape D
  count : ℤ → Shape D
  float : Float → Shape D
  string : Text → Shape D
  floats : List Float → Shape D
  strings : List Text → Shape D
  extra : D → Shape D

abbrev pub count_or : {D : Type 0} → Option ℤ → Shape D
count_or none = none_
count_or (some n) = count n

abbrev pub float_or : {D : Type 0} → Option Float → Shape D
float_or none = none_
float_or (some f) = float f

-- `MoveInfo.to_dict`, `RootInfo.to_dict`.
unfoldable pub info_dict : {D : Type 0} → MoveInfo → List (Text × Shape D)
info_dict m =
    (codes "move", string m.move)
    ∷ (codes "visits", count_or m.visits)
    ∷ (codes "winrate", float_or m.winrate)
    ∷ (codes "scoreLead", float_or m.score_lead)
    ∷ (codes "scoreMean", float_or m.score_mean)
    ∷ (codes "scoreStdev", float_or m.score_stdev)
    ∷ (codes "prior", float_or m.prior)
    ∷ (codes "lcb", float_or m.lcb)
    ∷ (codes "utility", float_or m.utility)
    ∷ (codes "utilityLcb", float_or m.utility_lcb)
    ∷ (codes "order", count_or m.order)
    ∷ (codes "pv", strings m.pv)
    ∷ []

unfoldable pub root_dict : {D : Type 0} → RootInfo → List (Text × Shape D)
root_dict r =
    (codes "visits", count_or r.visits)
    ∷ (codes "winrate", float_or r.winrate)
    ∷ (codes "scoreLead", float_or r.score_lead)
    ∷ (codes "scoreMean", float_or r.score_mean)
    ∷ []
