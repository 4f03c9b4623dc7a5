-- ===== src/Session/Read.antt =====
-- gowui/session.py: the fields of a browser's message.
use gowui.Base.{
  ℕ, Bool, true, false, ◌&&◌, ◌||◌, List, [], ◌∷◌, Option, none, some, leb, ◌==◌, if◌then◌else◌,
  length, min, max, Text, codes, equal, lower, strip, within, ℤ, pos, Result, ok, err, words,
  pos_part,
}
use gowui.Board.{black, white}
use gowui.Game.{Float}
use gowui.Values.{Json, null, text, integer, real, lt_float}
use gowui.Session.{Refusal, bad_color, bad_string, bad_boolean, bad_id}

-- `_string`, `_boolean`, `_board_id`, `_number`.
unfoldable pub string_of : Json → Result Refusal Text
string_of (text t) = ok t
string_of _ = err bad_string

unfoldable pub boolean_of : Json → Result Refusal Bool
boolean_of (Json.boolean b) = ok b
boolean_of _ = err bad_boolean

unfoldable pub id_of : Json → Result Refusal ℤ
id_of (integer n) = ok n
id_of _ = err bad_id

-- A colour's name: black, white, or none of them.
unfoldable pub color_named : Text → Option ℕ
color_named t =
    let key = lower (strip t) in
    if equal key (codes "b") || equal key (codes "black")
    then some black
    else if equal key (codes "w") || equal key (codes "white")
    then some white
    else none

abbrev named_or : Option ℕ → Result Refusal (Option ℕ)
named_or none = err bad_color
named_or (some c) = ok (some c)

-- `_colour`.
unfoldable pub color_of : Json → Result Refusal (Option ℕ)
color_of null = ok none
color_of (text t) = named_or (color_named t)
color_of _ = err bad_color

-- `_clamp_int` of an integer or of a float, which is rounded; `round` is a parameter.
unfoldable pub clamp_int : (Float → ℤ) → Json → ℕ → ℕ → ℕ
clamp_int round (real f) low high = max low (min high (pos_part (round f)))
clamp_int round (integer n) low high = max low (min high (pos_part n))
clamp_int round v low high = low

abbrev clamped : Float → Float → Float → Float
clamped f low high =
    let g = if lt_float high f then high else f in if lt_float g low then low else g

-- `_clamp_float`; `as_float` is what `float` makes of an integer within the bounds.
unfoldable pub clamp_float : (ℤ → Float) → Json → Float → Float → Float
clamp_float as_float (real f) low high = clamped f low high
clamp_float as_float (integer n) low high =
    let exact = Float.num n (pos 0) in
    if lt_float exact low then low else if lt_float high exact then high else as_float n
clamp_float as_float v low high = low

abbrev is_profile_char : ℕ → Bool
is_profile_char c =
    within b'a' b'z' c
    || (within b'A' b'Z' c || (within b'0' b'9' c || (c == b'_' || (c == b'.' || c == b'-'))))

unfoldable pub all_profile_chars : Text → Bool
all_profile_chars [] = true
all_profile_chars (c ∷ cs) = is_profile_char c && all_profile_chars cs

-- `_profile_ok`, of a text.
unfoldable pub profile_ok : Text → Bool
profile_ok t = leb 1 (length t) && (leb (length t) 64 && all_profile_chars t)

-- Whether a text begins with `analyze`, or holds it.
unfoldable pub begins_with : Text → Text → Bool
begins_with [] s = true
begins_with (p ∷ ps) [] = false
begins_with (p ∷ ps) (c ∷ cs) = p == c && begins_with ps cs

unfoldable pub holds : Text → Text → Bool
holds p [] = begins_with p []
holds p (c ∷ cs) = begins_with p (c ∷ cs) || holds p cs

abbrev analyzes : List Text → Bool
analyzes [] = false
analyzes (w ∷ ws) = holds (codes "analyze") (lower w)

-- `str.isdigit`, of the ASCII digits; `is_digit` is the test of the other characters.
unfoldable pub all_digits : (ℕ → Bool) → Text → Bool
all_digits is_digit [] = true
all_digits is_digit (c ∷ cs) = is_digit c && all_digits is_digit cs

abbrev without_number : (ℕ → Bool) → List Text → List Text
without_number is_digit [] = []
without_number is_digit (w ∷ ws) = if all_digits is_digit w then ws else w ∷ ws

-- `_is_streaming`.
unfoldable pub is_streaming : (ℕ → Bool) → Text → Bool
is_streaming is_digit command = analyzes (without_number is_digit (words command))
