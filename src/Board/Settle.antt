-- ===== src/Board/Settle.antt =====
-- The end of `Board.play`, where nothing was captured: the placed stone stays, or is a suicide.
use gowui.Base.{
  ℕ, ◌+◌, ◌*◌, ◌<◌, ◌≡◌, ◌≢◌, ◌⊎◌, inl, inr, sym, Bool, true, List, arith, length, Bool-cases, ◌∙◌,
  ap, subst, set, ok, err,
}
use gowui.Board.{
  Board, MoveError, Captures, empty, opponent, is_color, stone_at, contains, neighbours, chain,
  clear, settle, add_captures,
}
use gowui.Board.Stones.{length-clear, count_stones, count_stones-clear}
use gowui.Board.Alive.{HasLiberty}
use gowui.Board.Capture.{Removes, Removes-refl, chain-color, chain-Distinct}
use gowui.Board.Capture.Loop.{chain_liberty}
use gowui.Board.Placement.{
  IsValid, opponent_facts, survives, stays, suicide_survives, suicide-Removes, restored,
  Removes-IsColored, placed-full, put,
}

-- Prisoners of both colours.
abbrev pub prisoners : Captures → ℕ
prisoners k = k.by_black + k.by_white

pub prisoners-add :
    (color n : ℕ) (k : Captures) → prisoners (add_captures color n k) ≡ prisoners k + n
unfolding add_captures
prisoners-add color n k = ground arith

module _ (b : Board) (c i : ℕ) (color : is_color c ≡ true) (v : IsValid b)
    (on : i < b.size * b.size) (vacant : stone_at b.stones i ≡ empty) where
  abbrev pub placed : List ℕ
  placed = set b.stones i c

  -- What the end of `play` guarantees of the board it leaves.
  abbrev pub Settled : List ℕ → Type 0
  Settled new =
      (n : ℕ)
      → contains (neighbours b.size i) n ≡ true
      → stone_at placed n ≡ opponent c
      → (stone_at new n ≡ empty) ⊎ HasLiberty b.size new (opponent c) n

  pub captured-IsValid :
      (new : List ℕ) (k : Captures)
      → length new ≡ b.size * b.size
      → Removes b.size (opponent c) placed new
      → Settled new
      → HasLiberty b.size new c i
      → IsValid (record b { stones = new; captures = k })
  captured-IsValid new k full r settled l = record {
    full = full;
    colored =
        Removes-IsColored b.size b.stones c i color on v.full v.colored v.alive vacant (opponent c)
          new r;
    alive =
        survives b.size b.stones c i color on v.full v.colored v.alive vacant new r settled
          (stays b.size b.stones c i color on v.full v.colored v.alive vacant new r) l;
  }

  pub size-full : length placed ≡ b.size * b.size
  size-full = placed-full b.size b.stones c i color on v.full v.colored v.alive vacant

  pub stone : c ≢ empty
  stone = (opponent_facts c color).0

  pub at_point : stone_at placed i ≡ c
  at_point = (put b.size b.stones c i color on v.full v.colored v.alive vacant).at_point

  suicide-IsValid :
      (k : Captures)
      → IsValid (record b { stones = clear (chain b.size placed i).seen placed; captures = k })
  suicide-IsValid k = record {
    full = length-clear _ placed ∙ size-full;
    colored =
        Removes-IsColored b.size b.stones c i color on v.full v.colored v.alive vacant c _
          (suicide-Removes b.size b.stones c i color on v.full v.colored v.alive vacant);
    alive = suicide_survives b.size b.stones c i color on v.full v.colored v.alive vacant;
  }

  taken_back : record b { stones = set placed i empty } ≡ b
  taken_back =
      ap (λ (new : List ℕ). record b { stones = new })
        (restored b.size b.stones c i color on v.full v.colored v.alive vacant)

  pub settle-IsValid : (allow : Bool) → Settled placed → IsValid (settle b c i placed allow).1
  unfolding settle
  settle-IsValid allow settled = elim (Bool-cases (chain b.size placed i).has_liberty) [
    | inl lives ↦ rw lives (
        captured-IsValid placed b.captures size-full (Removes-refl b.size (opponent c) placed)
          settled (chain_liberty b.size c placed i size-full stone on at_point lives))
    | inr dead ↦ elim (Bool-cases allow) [
      | inl allowed ↦ rw (dead, allowed) (suicide-IsValid _)
      | inr refused ↦ rw (dead, refused) (subst IsValid (sym taken_back) v)
    ]
  ]

  pub settle_refused :
      (allow : Bool) (e : MoveError)
      → (settle b c i placed allow).0 ≡ err e
      → (settle b c i placed allow).1 ≡ b
  unfolding settle
  settle_refused allow e h = ground (arith, taken_back)

  suicide_counts :
      count_stones (clear (chain b.size placed i).seen placed)
        + prisoners (add_captures (opponent c) (length (chain b.size placed i).seen) b.captures)
      ≡ count_stones placed + prisoners b.captures
  suicide_counts = omega (
    arith,
    prisoners-add (opponent c) (length (chain b.size placed i).seen) b.captures,
    count_stones-clear (chain b.size placed i).seen placed
        (chain-Distinct b.size c placed i size-full stone on at_point)
        (λ k m z. stone (sym (chain-color b.size c placed i size-full stone on at_point k m) ∙ z)),
  )

  pub settle_counts :
      (allow : Bool) (xs : List (ℕ × ℕ))
      → (settle b c i placed allow).0 ≡ ok xs
      → count_stones (settle b c i placed allow).1.stones
          + prisoners (settle b c i placed allow).1.captures
        ≡ count_stones placed + prisoners b.captures
  unfolding settle
  settle_counts allow xs h = ground (arith, suicide_counts)
