-- ===== src/Base/Texts.antt =====
-- Python text as the list of its code points, and what the program asks of `str`: comparison,
-- `isspace`, `strip`, `lower`. (`bytes` are lists of numbers too, and share `equal`.)
use Prim.Native.Nat.{ℕ, ◌+◌, ◌-◌}
use Prim.Native.Char.{code}
use Prim.Native.String.{String}
use mathlib.Core.Path.{◌≡◌, refl}
use mathlib.Core.Logic.{◌↔◌, ◌≢◌}
use mathlib.Core.Bool.{Bool, true, false, ◌&&◌, ◌||◌}
use mathlib.Core.List.{List, [], ◌∷◌, ◌++◌, reverse}
use native.Mathlib.Omega.{arith}
use gowui.Base.Tests.{leb, ltb, ◌==◌, if◌then◌else◌}

abbrev pub Text : Type 0
Text = List ℕ

-- The code points of a literal.
abbrev pub codes : String → Text
codes String.[] = []
codes (String.◌∷◌ c s) = code c ∷ codes s

-- `==` on `str` and on `bytes`.
unfoldable pub equal : Text → Text → Bool
equal [] [] = true
equal (x ∷ xs) (y ∷ ys) = x == y && equal xs ys
equal _ _ = false

pub equal_iff : (a b : Text) → (equal a b ≡ true) ↔ (a ≡ b)
unfolding equal
equal_iff (x ∷ a) (y ∷ b) = ground (arith, equal_iff a b)
equal_iff _ _ = ground arith

pub equal_self : (a : Text) → equal a a ≡ true
equal_self a = (equal_iff a a).1 refl

pub equal_ne : (a b : Text) → a ≢ b → equal a b ≡ false
equal_ne a b h = ground (arith, equal_iff a b)

abbrev pub within : ℕ → ℕ → ℕ → Bool
within lo hi c = leb lo c && leb c hi

-- `str.isspace` of one character: the whitespace of the Unicode database, in full.
unfoldable pub is_space : ℕ → Bool
is_space c =
    within 0x9 0xd c
    || within 0x1c 0x20 c
    || c == 0x85
    || c == 0xa0
    || c == 0x1680
    || within 0x2000 0x200a c
    || c == 0x2028
    || c == 0x2029
    || c == 0x202f
    || c == 0x205f
    || c == 0x3000

-- `str.lstrip()`, `str.strip()`.
unfoldable pub lstrip : Text → Text
unfolding is_space
lstrip [] = []
lstrip (c ∷ cs) = if is_space c then lstrip cs else c ∷ cs

unfoldable pub strip : Text → Text
unfolding lstrip
strip s = reverse (lstrip (reverse (lstrip s)))

abbrev pub word_onto : Text → List Text → List Text
word_onto [] ws = ws
word_onto (c ∷ cs) ws = (c ∷ cs) ∷ ws

-- `str.split()`: the word under way, and the words from there on.
unfoldable pub split_from : Text → Text × List Text
unfolding is_space
split_from [] = ([], [])
split_from (c ∷ cs) =
    let (word, rest) = split_from cs in
    if is_space c then ([], word_onto word rest) else (c ∷ word, rest)

unfoldable pub words : Text → List Text
unfolding split_from
words s = let (word, rest) = split_from s in word_onto word rest

abbrev pub ends_line : ℕ → Bool
ends_line c = within 0xa 0xd c || within 0x1c 0x1e c || c == 0x85 || c == 0x2028 || c == 0x2029

-- `str.splitlines()`, its empty lines included; a text that ends with a line break has one more,
-- empty, and `\r\n` leaves an empty line too.
unfoldable pub lines_from : Text → Text × List Text
lines_from [] = ([], [])
lines_from (c ∷ cs) =
    let (line, rest) = lines_from cs in if ends_line c then ([], line ∷ rest) else (c ∷ line, rest)

-- `in`, of a text in a list of texts.
unfoldable pub one_of : Text → List Text → Bool
unfolding equal
one_of t [] = false
one_of t (x ∷ xs) = equal x t || one_of t xs

-- `str.startswith`.
unfoldable pub starts_with : Text → Text → Bool
starts_with [] s = true
starts_with (p ∷ ps) [] = false
starts_with (p ∷ ps) (c ∷ cs) = p == c && starts_with ps cs

-- `len(text.encode())`, of a text that UTF-8 can encode.
unfoldable pub utf8_length : Text → ℕ
utf8_length [] = 0
utf8_length (c ∷ cs) =
    (if ltb c 0x80 then 1 else if ltb c 0x800 then 2 else if ltb c 0x10000 then 3 else 4)
    + utf8_length cs

-- `str.lower` of one character, exact up to what ASCII texts can tell: of the other characters
-- only the Kelvin sign lowers to an ASCII letter, and only U+0130 to a text that begins with one.
-- The rest stay outside ASCII, so here they keep their code.
unfoldable pub lower_char : ℕ → Text
lower_char c =
    if within b'A' b'Z' c
    then (c + 32) ∷ []
    else if c == 0x212a
    then b'k' ∷ []
    else if c == 0x130
    then b'i' ∷ 0x307 ∷ []
    else c ∷ []

unfoldable pub lower : Text → Text
unfolding lower_char
lower [] = []
lower (c ∷ cs) = lower_char c ++ lower cs

-- ASCII `upper` of one character, for text that a pattern has shown to be ASCII letters.
unfoldable pub upper_char : ℕ → ℕ
upper_char c = if within b'a' b'z' c then c - 32 else c
