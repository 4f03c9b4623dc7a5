-- ===== src/Tests/Boards.antt =====
-- Positions of a 3x3 board: a corner stone that is captured, and a suicide.
use gowui.Base.{ℕ, ◌+◌, ◌≡◌, refl, List, [], ◌∷◌, ok, err, arith, pos, false}
use gowui.Board.{
  Board, new_board, black, white, neighbours, look, visit, walk, chain, clear, capture,
  add_captures, settle, finish, play_at, play, contains, suicide,
}
use gowui.Board.Stones.{count_stones}
use gowui.Board.Settle.{prisoners}
use gowui.Board.Placement.{IsValid}
use gowui.Board.Chain.{IsChain, chain-IsChain}
use gowui.Board.Play.{play-IsValid, play_refused, play_conserves, new_board-IsValid}

abbrev corner_stone : Board
corner_stone = (play (new_board 3) black (pos 0) (pos 0) false).1

abbrev one_liberty : Board
one_liberty = (play corner_stone white (pos 1) (pos 0) false).1

corner_stone-IsValid : IsValid corner_stone
corner_stone-IsValid =
    play-IsValid (new_board 3) black (pos 0) (pos 0) false refl (new_board-IsValid 3)

one_liberty-IsValid : IsValid one_liberty
one_liberty-IsValid =
    play-IsValid corner_stone white (pos 1) (pos 0) false refl corner_stone-IsValid

captures_corner : (play one_liberty white (pos 0) (pos 1) false).0 ≡ ok ((0, 0) ∷ [])
unfolding new_board neighbours contains look visit walk chain clear capture add_captures settle
    finish play_at play
captures_corner = refl

play_conserves_example :
    count_stones (play one_liberty white (pos 0) (pos 1) false).1.stones
      + prisoners (play one_liberty white (pos 0) (pos 1) false).1.captures
    ≡ count_stones one_liberty.stones + prisoners one_liberty.captures + 1
play_conserves_example =
    play_conserves one_liberty white (pos 0) (pos 1) false ((0, 0) ∷ []) refl one_liberty-IsValid
      captures_corner

play-IsValid_example : IsValid (play one_liberty white (pos 0) (pos 1) false).1
play-IsValid_example = play-IsValid one_liberty white (pos 0) (pos 1) false refl one_liberty-IsValid

abbrev captured_corner : Board
captured_corner = (play one_liberty white (pos 0) (pos 1) false).1

no_suicide : (play captured_corner black (pos 0) (pos 0) false).0 ≡ err suicide
unfolding new_board neighbours contains look visit walk chain clear capture add_captures settle
    finish play_at play
no_suicide = refl

play_refused_example : (play captured_corner black (pos 0) (pos 0) false).1 ≡ captured_corner
play_refused_example =
    play_refused captured_corner black (pos 0) (pos 0) false suicide refl play-IsValid_example
      no_suicide

abbrev two_chains : List ℕ
two_chains = 1 ∷ 1 ∷ 0 ∷ 2 ∷ 1 ∷ 0 ∷ 2 ∷ 0 ∷ 0 ∷ []

chain-IsChain_example : IsChain 3 two_chains 1 (chain 3 two_chains 1)
chain-IsChain_example = chain-IsChain 3 two_chains 1 (omega arith) (λ e. absurd (ground (arith, e)))
