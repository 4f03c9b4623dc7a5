-- ===== src/Human.antt =====
-- gowui/engine/human.py: the rules for policy tuples.
use gowui.Base.{
  ℕ, suc, Bool, true, false, not, ◌&&◌, ◌||◌, List, [], ◌∷◌, Option, none, some, if◌then◌else◌,
  Text, codes, equal, ℤ, pos, negsuc, one_of, Result, ok, err, length, ◌==◌,
}
use gowui.Game.{Float}
use gowui.Values.{
  Json, Object, object_of, get, has_key, is_null, lt_float, value_of, is_finite_number,
}

abbrev pub tuple_keys : List Text
tuple_keys =
    codes "lambda_utility"
    ∷ codes "trust_mu"
    ∷ codes "fill_kappa"
    ∷ codes "min_p"
    ∷ codes "distance_slope"
    ∷ codes "distance_floor"
    ∷ codes "distance_peak"
    ∷ codes "temperature"
    ∷ []

-- The floats 0.1, 1.5, 0.0001, 0 and 1.
abbrev pub default_floor : Float
default_floor = Float.num (pos 3602879701896397) (negsuc 54)

abbrev pub default_peak : Float
default_peak = Float.num (pos 3) (negsuc 0)

abbrev pub least_temperature : Float
least_temperature = Float.num (pos 7378697629483821) (negsuc 65)

abbrev pub zero_float : Float
zero_float = Float.num (pos 0) (pos 0)

abbrev pub one_float : Float
one_float = Float.num (pos 1) (pos 0)

abbrev pub move_styles : List Text
move_styles = codes "human" ∷ codes "katago" ∷ []

-- What `tuple_problem` says.
pub data TupleProblem : Type 0 where
  not_object min_p_range needs_trust needs_lambda floor_above_peak needs_search : TupleProblem
  unknown_key not_number too_small : Text → TupleProblem

-- `_has`.
unfoldable pub has : Object → Text → Bool
has t name = not (is_null (get name t))

-- The loop over the tuple's keys.
unfoldable pub unknown_of : Object → Option TupleProblem
unknown_of [] = none
unknown_of ((k, v) ∷ t) = if one_of k tuple_keys then unknown_of t else some (unknown_key k)

-- A problem, or what comes after.
infixr 20 ◌or_else◌
abbrev pub ◌or_else◌ {ℓ} : {A : Type ℓ} → Option A → Option A → Option A
none or_else o = o
(some a) or_else o = some a

abbrev pub found_if {ℓ} : {A : Type ℓ} → Bool → A → Option A
found_if true a = some a
found_if false a = none

abbrev test_above : Bool → Float → Option Float → Bool
test_above inclusive bound none = false
test_above inclusive bound (some f) = if inclusive then not (lt_float f bound) else lt_float bound f

-- `above`: a number that is there is at least the bound, or above it.
unfoldable pub above : Object → Text → Float → Bool → Option TupleProblem
above t name bound inclusive =
    found_if (has t name && not (test_above inclusive bound (value_of (get name t))))
      (too_small name)

abbrev between : Option Float → Bool
between none = false
between (some f) = not (lt_float f zero_float) && not (lt_float one_float f)

abbrev float_or : Float → Option Float → Float
float_or d none = d
float_or d (some f) = f

module _ (int_float : ℤ → Option Float) where
  -- The loop over the known keys.
  unfoldable pub not_number_of : Object → List Text → Option TupleProblem
  not_number_of t [] = none
  not_number_of t (k ∷ ks) =
      let rest = not_number_of t ks in
      if not (has_key k t) || (equal k (codes "lambda_utility") && is_null (get k t))
      then rest
      else if is_finite_number int_float (get k t)
      then rest
      else some (not_number k)

  -- The bounds, in the order of the source.
  unfoldable pub bounds_problem : Object → Option TupleProblem
  bounds_problem t =
      above t (codes "lambda_utility") zero_float false
      or_else above t (codes "trust_mu") zero_float false
      or_else above t (codes "fill_kappa") zero_float true
      or_else found_if (has t (codes "min_p") && not (between (value_of (get (codes "min_p") t))))
          min_p_range
      or_else above t (codes "distance_slope") zero_float true
      or_else above t (codes "distance_floor") zero_float false
      or_else above t (codes "distance_peak") zero_float false
      or_else above t (codes "temperature") least_temperature false

  abbrev pub or_default : Object → Text → Float → Float
  or_default t name d = if has t name then float_or d (value_of (get name t)) else d

  abbrev above_one : Option Float → Bool
  above_one none = false
  above_one (some f) = lt_float one_float f

  unfoldable pub searches : Json → Bool
  searches visits = is_finite_number int_float visits && above_one (value_of visits)

  -- The rules on what goes together.
  unfoldable pub together_problem : Object → Json → Option TupleProblem
  together_problem t visits =
      let lam = has t (codes "lambda_utility") in
      let trust = has t (codes "trust_mu") in
      let fill = has t (codes "fill_kappa") in
      found_if (lam && not (trust && fill)) needs_trust
      or_else found_if (not lam && (trust || fill)) needs_lambda
      or_else found_if
          (not (
            lt_float (or_default t (codes "distance_floor") default_floor)
              (or_default t (codes "distance_peak") default_peak)))
          floor_above_peak
      or_else found_if (lam && not (searches visits)) needs_search

  abbrev problem_of : Json → Option Object → Option TupleProblem
  problem_of visits none = some not_object
  problem_of visits (some t) =
      unknown_of t
      or_else not_number_of t tuple_keys
      or_else bounds_problem t
      or_else together_problem t visits

  -- `tuple_problem`.
  unfoldable pub tuple_problem : Json → Json → Option TupleProblem
  tuple_problem tuple visits = problem_of visits (object_of tuple)

  -- `check_policies`, of a list: the first problem, with the place of its tuple.
  unfoldable pub first_problem : ℕ → Json → List Json → Option (ℕ × TupleProblem)
  first_problem index visits [] = none
  first_problem index visits (t ∷ ts) = elim (tuple_problem t visits) [
    | some p ↦ some (index, p)
    | none ↦ first_problem (suc index) visits ts
  ]

-- What `check_policies` raises.
pub data PolicyError : Type 0 where
  wrong_count : ℕ → PolicyError
  bad_tuple : ℕ × TupleProblem → PolicyError

abbrev raised : Option (ℕ × TupleProblem) → Result PolicyError (Unit {0})
raised none = ok tt
raised (some p) = err (bad_tuple p)

unfoldable pub check_policies :
    (ℤ → Option Float) → List Json → Json → Result PolicyError (Unit {0})
check_policies int_float policies visits =
    if not (length policies == 1 || length policies == 2)
    then err (wrong_count (length policies))
    else raised (first_problem int_float 0 visits policies)

-- `wire_tuple`.
unfoldable pub wire_tuple : Object → Object
wire_tuple [] = []
wire_tuple ((k, v) ∷ t) =
    let rest = wire_tuple t in
    if equal k (codes "lambda_utility") && is_null v then rest else (k, v) ∷ rest
