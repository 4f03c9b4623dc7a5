-- ===== src/Reports.antt =====
-- gowui/engine/gtp.py: `parse_analysis_line`, the reading of one report of `kata-analyze` or
-- `lz-analyze`. What `float` makes of a text, and float subtraction and division, are parameters.
use gowui.Base.{
  ℕ, zero, suc, ◌*◌, Bool, true, false, not, ◌&&◌, ◌||◌, List, [], ◌∷◌, map, Option, none, some,
  if◌then◌else◌, length, Text, codes, equal, words, one_of, ℤ, pos, ◌+ℤ◌, text_eq, lookup, insert,
  is_some,
}
use mathlib.Core.List.{reverse}
use gowui.Game.{Float}
use gowui.Types.{
  Value, MoveInfo, RootInfo, Analysis, finite, finite_int, flip_rate, flip_score, point_values,
  board_vertex, board_vertices, sort_by_order,
}

abbrev pub scalar_keys : List Text
scalar_keys =
    codes "move"
    ∷ codes "visits"
    ∷ codes "edgeVisits"
    ∷ codes "weight"
    ∷ codes "edgeWeight"
    ∷ codes "utility"
    ∷ codes "winrate"
    ∷ codes "scoreMean"
    ∷ codes "scoreStdev"
    ∷ codes "scoreLead"
    ∷ codes "scoreSelfplay"
    ∷ codes "prior"
    ∷ codes "lcb"
    ∷ codes "utilityLcb"
    ∷ codes "order"
    ∷ codes "isSymmetryOf"
    ∷ []

abbrev pub list_keys : List Text
list_keys =
    codes "pv"
    ∷ codes "pvVisits"
    ∷ codes "pvEdgeVisits"
    ∷ codes "ownership"
    ∷ codes "ownershipStdev"
    ∷ codes "movesOwnership"
    ∷ codes "movesOwnershipStdev"
    ∷ []

abbrev pub sections : List Text
sections = codes "info" ∷ codes "rootInfo" ∷ []

-- `token in _SECTIONS`, `_SCALARS`, `_LISTS`, `_KEYWORDS`.
unfoldable pub is_section : Text → Bool
is_section t = one_of t sections

unfoldable pub is_scalar : Text → Bool
is_scalar t = one_of t scalar_keys

unfoldable pub is_list : Text → Bool
is_list t = one_of t list_keys

unfoldable pub is_keyword : Text → Bool
is_keyword t = is_scalar t || (is_list t || is_section t)

-- What a dictionary of a section holds.
pub data Field : Type 0 where
  scalar : Text → Field
  several : List Text → Field

abbrev pub Fields : Type 0
Fields = List (Text × Field)

-- Which dictionary `current` is: none, the newest of `infos`, or `root`.
pub data Spot : Type 0 where
  nowhere newest in_root : Spot

-- The variables of the loop; `infos` has the newest first.
pub record Reading : Type 0 where
  pub infos : List Fields
  pub root : Option Fields
  pub current : Spot
  pub ownership : Option (List Text)

abbrev pub fresh : Reading
fresh = record { infos = []; root = none; current = nowhere; ownership = none }

abbrev set_newest : Text → Field → List Fields → List Fields
set_newest k v [] = []
set_newest k v (d ∷ ds) = insert k v d ∷ ds

abbrev set_root : Text → Field → Option Fields → Option Fields
set_root k v none = none
set_root k v (some d) = some (insert k v d)

-- `current[k] = v`, when `current` is not None.
unfoldable pub put_field : Text → Field → Reading → Reading
put_field k v r = elim r.current [
  | nowhere ↦ r
  | newest ↦ record r { infos = set_newest k v r.infos }
  | in_root ↦ record r { root = set_root k v r.root }
]

unfoldable pub open_section : Text → Reading → Reading
open_section t r =
    if equal t (codes "info")
    then record r { infos = [] ∷ r.infos; current = newest }
    else record r { root = some []; current = in_root }

-- `_tokens_until_keyword`: the values, and what stands from the keyword on.
unfoldable pub until_keyword : List Text → List Text × List Text
until_keyword [] = ([], [])
until_keyword (t ∷ ts) =
    let (values, rest) = until_keyword ts in
    if is_keyword t then ([], t ∷ ts) else (t ∷ values, rest)

unfoldable pub put_list : Text → List Text → Reading → Reading
put_list t values r =
    if equal t (codes "ownership")
    then record r { ownership = some values }
    else put_field t (several values) r

abbrev read_scalar : Text → List Text → Reading → Reading × List Text
read_scalar t [] r = (r, [])
read_scalar t (v ∷ rest) r = (put_field t (scalar v) r, rest)

-- One round of the loop, on a token and what follows it.
unfoldable pub read_token : Text → List Text → Reading → Reading × List Text
read_token t rest r =
    if is_section t
    then (open_section t r, rest)
    else if is_scalar t
    then read_scalar t rest r
    else if is_list t
    then (let (values, after) = until_keyword rest in (put_list t values r, after))
    else (r, rest)

-- The loop; each round uses up one token at least.
unfoldable pub read_tokens : ℕ → List Text → Reading → Reading
read_tokens zero ts r = r
read_tokens (suc fuel) [] r = r
read_tokens (suc fuel) (t ∷ ts) r = let (s, rest) = read_token t ts r in read_tokens fuel rest s

abbrev value_of : Option Field → Value
value_of none = Value.null
value_of (some (scalar t)) = Value.text t
value_of (some (several ts)) = Value.other

-- `fields.get(key)`.
unfoldable pub get_value : Text → Fields → Value
get_value key d = value_of (lookup key d)

abbrev texts_of : Option Field → List Value
texts_of (some (several ts)) = map Value.text ts
texts_of _ = []

-- `fields.get("pv", [])`; the loop puts a list there.
unfoldable pub get_pv : Fields → List Value
get_pv d = texts_of (lookup (codes "pv") d)

abbrev visits_or : Option ℤ → ℤ
visits_or none = pos 0
visits_or (some n) = n

unfoldable pub total_visits : List MoveInfo → ℤ
total_visits [] = pos 0
total_visits (m ∷ ms) = visits_or m.visits +ℤ total_visits ms

abbrev color_of : Bool → Text
color_of black = if black then codes "B" else codes "W"

abbrev no_root : RootInfo
no_root = record { visits = some (pos 0); winrate = none; score_lead = none; score_mean = none }

-- `is_nil`, of the lists that decide whether anything was read.
abbrev pub no_items {ℓ} : {A : Type ℓ} → List A → Bool
no_items [] = true
no_items (x ∷ xs) = false

abbrev pub flipped : Option (List Text) → Option (List Value)
flipped none = none
flipped (some ts) = some (map Value.text ts)

-- What `float` makes of texts and of integers, and the two operations on floats.
pub record Numbers : Type 0 where
  pub read_float : Text → Option Float
  pub int_float : ℤ → Option Float
  pub one_minus : Float → Float
  pub per_ten_thousand : Float → Float

module _ (n : Numbers) where
  -- `rate`, on the scale of `lz`; what divides to no number has none.
  abbrev pub rate : Bool → Value → Option Float
  rate lz v = elim (finite n.read_float n.int_float v) as (λ o. Option Float) [
    | none ↦ none
    | some f ↦ some (if lz then n.per_ten_thousand f else f)
  ]

  abbrev as_value : Option Float → Value
  as_value none = Value.null
  as_value (some f) = Value.real f

  abbrev flip_rate_of : Bool → Bool → Value → Option Float
  flip_rate_of lz black v =
      flip_rate n.read_float n.int_float n.one_minus (as_value (rate lz v)) black

  unfoldable pub info_of : Bool → Bool → ℕ → Text → Fields → MoveInfo
  info_of lz black size move d = record {
    move = move;
    visits = finite_int n.read_float n.int_float (get_value (codes "visits") d);
    winrate = flip_rate_of lz black (get_value (codes "winrate") d);
    score_lead = flip_score n.read_float n.int_float (get_value (codes "scoreLead") d) black;
    score_mean = flip_score n.read_float n.int_float (get_value (codes "scoreMean") d) black;
    score_stdev = finite n.read_float n.int_float (get_value (codes "scoreStdev") d);
    prior = rate lz (get_value (codes "prior") d);
    lcb = flip_rate_of lz black (get_value (codes "lcb") d);
    utility = flip_score n.read_float n.int_float (get_value (codes "utility") d) black;
    utility_lcb = flip_score n.read_float n.int_float (get_value (codes "utilityLcb") d) black;
    order = finite_int n.read_float n.int_float (get_value (codes "order") d);
    pv = board_vertices (get_pv d) size;
  }

  abbrev kept_info : Bool → Bool → ℕ → Option Text → Fields → List MoveInfo → List MoveInfo
  kept_info lz black size none d ms = ms
  kept_info lz black size (some move) d ms = info_of lz black size move d ∷ ms

  -- The loop over `infos`, oldest first: those without a vertex of this board are left out.
  unfoldable pub infos_of : Bool → Bool → ℕ → List Fields → List MoveInfo
  infos_of lz black size [] = []
  infos_of lz black size (d ∷ ds) =
      kept_info lz black size (board_vertex (get_value (codes "move") d) size) d
        (infos_of lz black size ds)

  abbrev best_root : List MoveInfo → RootInfo
  best_root [] = no_root
  best_root (m ∷ ms) = record {
    visits = some (total_visits (m ∷ ms));
    winrate = m.winrate;
    score_lead = m.score_lead;
    score_mean = m.score_mean;
  }

  -- The root's own numbers, or those of the best candidate.
  unfoldable pub root_of : Bool → Bool → Option Fields → List MoveInfo → RootInfo
  root_of lz black none ms = best_root ms
  root_of lz black (some d) ms = record {
    visits = finite_int n.read_float n.int_float (get_value (codes "visits") d);
    winrate = flip_rate_of lz black (get_value (codes "winrate") d);
    score_lead = flip_score n.read_float n.int_float (get_value (codes "scoreLead") d) black;
    score_mean = flip_score n.read_float n.int_float (get_value (codes "scoreMean") d) black;
  }

  unfoldable pub ownership_of : Bool → Bool → ℕ → Option (List Text) → List Float
  ownership_of lz black size o =
      if lz
      then []
      else point_values n.read_float n.int_float (flipped o) (not black) (some (size * size))

  unfoldable pub analysis_of : {D : Type 0} → Bool → Bool → ℕ → Text → Reading → Analysis D
  analysis_of lz black size source r =
      let ms = sort_by_order (infos_of lz black size (reverse r.infos)) in
      record {
        move_infos = ms;
        root = root_of lz black r.root ms;
        ownership = ownership_of lz black size r.ownership;
        policy = [];
        turn = pos 0;
        complete = false;
        source = source;
        current_player = color_of black;
        compare = none;
      }

  -- `None` when nothing in the line can be read.
  abbrev kept_analysis : {D : Type 0} → Reading → Analysis D → Option (Analysis D)
  kept_analysis r a =
      if no_items a.move_infos && (no_items a.ownership && not (is_some r.root))
      then none
      else some a

  unfoldable pub parse_tokens : {D : Type 0} → Bool → Bool → ℕ → List Text → Option (Analysis D)
  parse_tokens lz black size [] = none
  parse_tokens lz black size (t ∷ ts) =
      if not (is_section t) && not (is_list t)
      then none
      else let r = read_tokens (length (t ∷ ts)) (t ∷ ts) fresh in
        kept_analysis r (analysis_of lz black size (codes "gtp") r)

  unfoldable pub parse_analysis_line : {D : Type 0} → Text → Bool → ℕ → Bool → Option (Analysis D)
  parse_analysis_line text black size lz = parse_tokens lz black size (words text)
