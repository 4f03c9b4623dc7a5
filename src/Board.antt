-- ===== src/Board.antt =====
-- gowui/board.py: a position, with captures and suicide. Colours are the source's integers; a
-- `bytearray` and a set of indexes are lists, the set's newest member first (Python promises no
-- order for `list(seen)`). A mutated board is returned beside the result, whatever the result.
pub mod Neighbours
pub mod Measure
pub mod Chain
pub mod Stones
pub mod Alive
pub mod Capture
pub mod Survival
pub mod Placement
pub mod Settle
pub mod Play
use gowui.Base.{
  ℕ, zero, suc, ◌+◌, ◌-◌, ◌*◌, ◌/◌, ◌%◌, Bool, true, false, not, ◌&&◌, ◌||◌, List, [], ◌∷◌, ◌++◌,
  map, ltb, ◌==◌, if◌then◌else◌, length, get_or, set, replicate, Result, ok, err, ℤ, pos_part,
  below, Text, codes, equal, lower, strip,
}

abbrev pub empty : ℕ
empty = 0

abbrev pub black : ℕ
black = 1

abbrev pub white : ℕ
white = 2

abbrev pub opponent : ℕ → ℕ
opponent color = if color == black then white else black

pub data ColorError : Type 0 where
  unknown_color : Text → ColorError

unfoldable pub color_from_name : Text → Result ColorError ℕ
unfolding lower strip equal
color_from_name name =
    let key = lower (strip name) in
    if equal key (codes "b") || equal key (codes "black")
    then ok black
    else if equal key (codes "w") || equal key (codes "white")
    then ok white
    else err (unknown_color name)

-- What a move is refused for. `key_error` is Python's, from `self.captures[color]`.
pub data MoveError : Type 0 where
  off_board occupied suicide key_error : MoveError

-- The dictionary `captures`, whose keys are `BLACK` and `WHITE`.
pub record Captures : Type 0 where
  pub by_black : ℕ
  pub by_white : ℕ

pub record Board : Type 0 where
  pub size : ℕ
  pub stones : List ℕ
  pub captures : Captures

-- `Board(size)`.
unfoldable pub new_board : ℕ → Board
new_board size = record {
  size = size;
  stones = replicate (size * size) empty;
  captures = record { by_black = 0; by_white = 0 };
}

-- `stones[i]`, for an index on the board.
abbrev pub stone_at : List ℕ → ℕ → ℕ
stone_at stones i = get_or stones i empty

abbrev pub on_board : Board → ℤ → ℤ → Bool
on_board b x y = below x b.size && below y b.size

-- `y * self.size + x`, for a point on the board.
abbrev pub index_of : ℕ → ℤ → ℤ → ℕ
index_of size x y = pos_part y * size + pos_part x

abbrev pub get : Board → ℤ → ℤ → ℕ
get b x y = stone_at b.stones (index_of b.size x y)

unfoldable pub contains : List ℕ → ℕ → Bool
contains [] a = false
contains (x ∷ xs) a = a == x || contains xs a

abbrev when : Bool → ℕ → List ℕ
when test n = if test then n ∷ [] else []

unfoldable pub neighbours : ℕ → ℕ → List ℕ
neighbours size i =
    let x = i % size in
    when (ltb 0 x) (i - 1)
    ++ (when (ltb (x + 1) size) (i + 1)
        ++ (when (not (ltb i size)) (i - size) ++ when (ltb (i + size) (size * size)) (i + size)))

-- The variables of `_chain`; the top of the stack stands first.
pub record Walk : Type 0 where
  pub seen : List ℕ
  pub stack : List ℕ
  pub has_liberty : Bool

-- The body of `for n in self._neighbours(c)`.
unfoldable pub look : List ℕ → ℕ → ℕ → Walk → Walk
look stones color n w =
    if stone_at stones n == empty
    then record w { has_liberty = true }
    else if stone_at stones n == color && not (contains w.seen n)
    then record w { seen = n ∷ w.seen; stack = n ∷ w.stack }
    else w

unfoldable pub visit : List ℕ → ℕ → List ℕ → Walk → Walk
unfolding look contains
visit stones color [] w = w
visit stones color (n ∷ ns) w = visit stones color ns (look stones color n w)

-- `while stack:`, with fuel.
unfoldable pub walk : ℕ → ℕ → List ℕ → ℕ → List ℕ → List ℕ → Bool → Walk
unfolding visit neighbours
walk zero size stones color seen stack lib = record {
  seen = seen;
  stack = stack;
  has_liberty = lib;
}
walk (suc fuel) size stones color seen [] lib = record {
  seen = seen;
  stack = [];
  has_liberty = lib;
}
walk (suc fuel) size stones color seen (c ∷ stack) lib =
    let w =
      visit stones color (neighbours size c)
        (record { seen = seen; stack = stack; has_liberty = lib }) in
    walk fuel size stones color w.seen w.stack w.has_liberty

-- A point is pushed at most once, so one round for each point and a last one suffice.
unfoldable pub chain : ℕ → List ℕ → ℕ → Walk
unfolding walk
chain size stones i = walk (size * size + 1) size stones (stone_at stones i) (i ∷ []) (i ∷ []) false

-- `for c in chain: stones[c] = EMPTY`.
unfoldable pub clear : List ℕ → List ℕ → List ℕ
clear [] stones = stones
clear (c ∷ cs) stones = clear cs (set stones c empty)

-- The loop that resolves captures: the stones and the list `captured`.
unfoldable pub capture : ℕ → ℕ → List ℕ → List ℕ → List ℕ → List ℕ × List ℕ
unfolding chain clear
capture size enemy [] stones captured = (stones, captured)
capture size enemy (n ∷ ns) stones captured =
    let w = chain size stones n in
    let dead = stone_at stones n == enemy && not w.has_liberty in
    capture size enemy ns (if dead then clear w.seen stones else stones)
      (if dead then captured ++ w.seen else captured)

-- `self.captures[color] += n`, for a colour that is a key.
unfoldable pub add_captures : ℕ → ℕ → Captures → Captures
add_captures color n c =
    if color == black
    then record c { by_black = c.by_black + n }
    else record c { by_white = c.by_white + n }

-- The end of `play` where nothing was captured.
unfoldable pub settle : Board → ℕ → ℕ → List ℕ → Bool → Result MoveError (List (ℕ × ℕ)) × Board
unfolding chain clear add_captures
settle b color i stones allow_suicide =
    let own = chain b.size stones i in
    let enemy = opponent color in
    if own.has_liberty
    then (ok [], record b { stones = stones })
    else if not allow_suicide
    then (err suicide, record b { stones = set stones i empty })
    else (
      ok [],
      record b {
        stones = clear own.seen stones;
        captures = add_captures enemy (length own.seen) b.captures;
      },
    )

abbrev pub is_color : ℕ → Bool
is_color color = color == black || color == white

-- The end of `play` after the loop, on its two results.
unfoldable pub finish :
    Board → ℕ → ℕ → Bool → List ℕ × List ℕ → Result MoveError (List (ℕ × ℕ)) × Board
unfolding settle add_captures
finish b color i allow_suicide (stones, []) = settle b color i stones allow_suicide
finish b color i allow_suicide (stones, c ∷ cs) =
    if is_color color
    then (
      ok (map (λ (k : ℕ). (k % b.size, k / b.size)) (c ∷ cs)),
      record b { stones = stones; captures = add_captures color (length (c ∷ cs)) b.captures },
    )
    else (err key_error, record b { stones = stones })

-- `play` on the index of a point that is on the board.
unfoldable pub play_at : Board → ℕ → ℕ → Bool → Result MoveError (List (ℕ × ℕ)) × Board
unfolding finish capture neighbours
play_at b color i allow_suicide =
    let placed = set b.stones i color in
    if not (stone_at b.stones i == empty)
    then (err occupied, b)
    else finish b color i allow_suicide
        (capture b.size (opponent color) (neighbours b.size i) placed [])

unfoldable pub play : Board → ℕ → ℤ → ℤ → Bool → Result MoveError (List (ℕ × ℕ)) × Board
unfolding play_at
play b color x y allow_suicide =
    if not (on_board b x y)
    then (err off_board, b)
    else play_at b color (index_of b.size x y) allow_suicide
