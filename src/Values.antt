-- ===== src/Values.antt =====
-- Decoded JSON, as the session and the rules for its settings read it. A dictionary holds a key once.
use gowui.Base.{
  ℕ, ◌+◌, ◌-◌, ◌*◌, ◌^◌, Bool, true, false, List, [], ◌∷◌, Option, none, some, Text, ℤ, pos, negsuc,
  lookup, text_eq, is_some,
}
use gowui.Game.{Float, is_finite}
use gowui.Types.{less}

mutual
  pub data Json : Type 0 where
    null : Json
    boolean : Bool → Json
    integer : ℤ → Json
    real : Float → Json
    text : Text → Json
    array : Items → Json
    object : Fields → Json

  pub data Items : Type 0 where
    nil : Items
    cons : Json → Items → Items

  pub data Fields : Type 0 where
    end : Fields
    field : Text → Json → Fields → Fields

abbrev pub Object : Type 0
Object = List (Text × Json)

unfoldable pub entries : Fields → Object
entries end = []
entries (field k v fs) = (k, v) ∷ entries fs

unfoldable pub elements : Items → List Json
elements nil = []
elements (cons v vs) = v ∷ elements vs

unfoldable pub to_items : List Json → Items
to_items [] = nil
to_items (v ∷ vs) = cons v (to_items vs)

abbrev pub object_of : Json → Option Object
object_of (object fs) = some (entries fs)
object_of _ = none

abbrev or_null : Option Json → Json
or_null none = null
or_null (some v) = v

-- `d.get(k)`.
unfoldable pub get : Text → Object → Json
get k d = or_null (lookup k d)

-- `k in d`.
unfoldable pub has_key : Text → Object → Bool
has_key k d = is_some (lookup k d)

abbrev pub is_null : Json → Bool
is_null null = true
is_null _ = false

-- `x < y` of two floats, as Python compares them.
abbrev scaled : ℤ → ℕ → ℤ
scaled (pos a) k = pos (a * 2 ^ k)
scaled (negsuc a) k = negsuc ((a + 1) * 2 ^ k - 1)

abbrev exponent_gap : ℤ → ℤ → ℕ
exponent_gap (pos x) (pos y) = y - x
exponent_gap (pos x) (negsuc y) = 0
exponent_gap (negsuc x) (pos y) = x + 1 + y
exponent_gap (negsuc x) (negsuc y) = x - y

unfoldable pub lt_float : Float → Float → Bool
lt_float (Float.num a x) (Float.num b y) =
    less (scaled a (exponent_gap y x)) (scaled b (exponent_gap x y))
lt_float Float.nan g = false
lt_float f Float.nan = false
lt_float Float.inf g = false
lt_float f Float.neg_inf = false
lt_float f g = true

-- The exact value of a number that is not a boolean.
abbrev pub value_of : Json → Option Float
value_of (integer n) = some (Float.num n (pos 0))
value_of (real f) = some f
value_of _ = none

abbrev is_finite_or : Option Float → Bool
is_finite_or none = false
is_finite_or (some f) = is_finite f

module _ (int_float : ℤ → Option Float) where
  -- `_is_finite` of the session and `_number` of the tuple rules: what `float` makes of an integer
  -- is a parameter, and none when it overflows.
  unfoldable pub is_finite_number : Json → Bool
  is_finite_number (integer n) = is_finite_or (int_float n)
  is_finite_number (real f) = is_finite f
  is_finite_number _ = false

  -- `_is_number`: a huge integer is a number too.
  unfoldable pub is_number : Json → Bool
  is_number (integer n) = true
  is_number (real f) = is_finite f
  is_number _ = false
