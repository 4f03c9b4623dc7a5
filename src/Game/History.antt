-- ===== src/Game/History.antt =====
-- The positions that a line of play records: every one is a valid position, and every stone played
-- is on the board or a prisoner.
use gowui.Base.{
  ℕ, ◌+◌, ◌≤◌, ◌≡◌, sym, ap, ◌∙◌, subst, List, [], ◌∷◌, ◌++◌, Option, none, some, arith, length,
  get_or, take, inl, inr, if◌then◌else◌, ltb, Bool-cases, ltb→lt, ltb-false, Text, Result, is_some,
  length-append,
}
use gowui.Coords.{Point}
use gowui.Board.{Board, MoveError}
use gowui.Board.Stones.{count_stones}
use gowui.Board.Settle.{prisoners}
use gowui.Board.Play.{play-IsValid, play_conserves, play-size}
use gowui.Board.Placement
use gowui.Game.{Key, Move, Game, snapshot_at, prisoners_at, board, attempt, allowed, move_of}
use gowui.Game.Plies.{
  take-length, take-append_left, take-take, take-all, get_or-snoc, get_or-append_left, get_or-take,
}
use gowui.Game.Invariant.{IsValid}
use gowui.Game.Rulings.{attempt-point, attempt-pass}

-- How many of the moves put a stone on the board.
unfoldable pub stones_played : List Move → ℕ
stones_played [] = 0
stones_played (m ∷ ms) = (if is_some m.point then 1 else 0) + stones_played ms

stones_played-append :
    (ms ns : List Move) → stones_played (ms ++ ns) ≡ stones_played ms + stones_played ns
unfolding stones_played
stones_played-append [] ns = omega arith
stones_played-append (m ∷ ms) ns = omega (arith, stones_played-append ms ns)

abbrev as_board : ℕ → Key → ℕ × ℕ → Board
as_board size key p = record {
  size = size;
  stones = key;
  captures = record { by_black = p.0; by_white = p.1 };
}

-- What is true of a recorded position, after the moves `ms` from a start with `base` stones.
pub record IsPly (size base : ℕ) (key : Key) (p : ℕ × ℕ) (ms : List Move) : Type 0 where
  pub position : Placement.IsValid (as_board size key p)
  pub account : count_stones key + (p.0 + p.1) ≡ base + stones_played ms

-- Every recorded ply is one.
abbrev pub Recorded : ℕ → ℕ → List Key → List (ℕ × ℕ) → List Move → Type 0
Recorded size base ks ps ms =
    (i : ℕ) → i ≤ length ms → IsPly size base (get_or ks i []) (get_or ps i (0, 0)) (take i ms)

pub Recorded-take :
    (size base n : ℕ) (ks : List Key) (ps : List (ℕ × ℕ)) (ms : List Move)
    → n ≤ length ms
    → Recorded size base ks ps ms
    → Recorded size base (take (n + 1) ks) (take (n + 1) ps) (take n ms)
Recorded-take size base n ks ps ms h r i l =
    let on : i ≤ n = omega (arith, take-length ms n h) in
    rw (get_or-take ks i (n + 1) [] (omega arith)) (
      rw (get_or-take ps i (n + 1) (0, 0) (omega arith))
        (rw (take-take ms i n on) (r i (omega arith))))

pub Recorded-snoc :
    (size base : ℕ) (ks : List Key) (ps : List (ℕ × ℕ)) (ms : List Move) (k : Key) (p : ℕ × ℕ)
    (m : Move)
    → length ks ≡ length ms + 1
    → length ps ≡ length ms + 1
    → Recorded size base ks ps ms
    → IsPly size base k p (ms ++ m ∷ [])
    → Recorded size base (ks ++ k ∷ []) (ps ++ p ∷ []) (ms ++ m ∷ [])
Recorded-snoc size base ks ps ms k p m a b r new i l = elim (Bool-cases (ltb (length ms) i)) [
  | inl last ↦
      let e : length ks ≡ i = omega (arith, ltb→lt (length ms) i last, length-append ms (m ∷ [])) in
      let e' : length ps ≡ i = omega (arith, e) in
      rw (subst (λ (j : ℕ). get_or (ks ++ k ∷ []) j [] ≡ k) e (get_or-snoc ks k [])) (
        rw (subst (λ (j : ℕ). get_or (ps ++ p ∷ []) j (0, 0) ≡ p) e' (get_or-snoc ps p (0, 0)))
          (rw (take-all (ms ++ m ∷ []) i (omega (arith, length-append ms (m ∷ [])))) new))
  | inr old ↦
      let on : i ≤ length ms = ltb-false (length ms) i old in
      rw (get_or-append_left ks (k ∷ []) i [] (omega arith)) (
        rw (get_or-append_left ps (p ∷ []) i (0, 0) (omega arith))
          (rw (take-append_left ms (m ∷ []) i on) (r i on)))
]

-- A valid game whose every ply is recorded as it should be.
pub record IsGame (base : ℕ) (g : Game) : Type 0 where
  pub valid : IsValid g
  pub recorded : Recorded g.size base g.snapshots g.prisoners g.moves

board-IsPly :
    (base : ℕ) (g : Game)
    → IsGame base g
    → IsPly g.size base (snapshot_at g g.cursor) (prisoners_at g g.cursor) (take g.cursor g.moves)
board-IsPly base g h = h.recorded g.cursor h.valid.cursor_le

module _ (base : ℕ) (g : Game) (h : IsGame base g) (color : ℕ) (comment : Text) (b : Board)
    (n : ℕ) where
  abbrev pub After : Option Point → Type 0
  After p =
      IsPly g.size base b.stones (b.captures.by_black, b.captures.by_white)
        (take g.cursor g.moves ++ move_of color p n comment ∷ [])

  after_pass : attempt g color none ≡ allowed b n → After none
  unfolding stones_played board
  after_pass e =
      let (same, _, _) = attempt-pass g color b n e in
      let ply = board-IsPly base g h in
      rw same (record {
        position = ply.position;
        account = omega (
          arith,
          ply.account,
          stones_played-append (take g.cursor g.moves) (move_of color none n comment ∷ []),
        );
      })

  after_point : (p : Point) → attempt g color (some p) ≡ allowed b n → After (some p)
  unfolding stones_played board
  after_point (x, y) e =
      let plays = attempt-point g color (x, y) b n e in
      let ply = board-IsPly base g h in
      let v : Placement.IsValid (board g) = ply.position in
      let to_b = ap (λ (r : Result MoveError (List (ℕ × ℕ)) × Board). r.1) plays.accepted in
      let from_ok = ap (λ (r : Result MoveError (List (ℕ × ℕ)) × Board). r.0) plays.accepted in
      let valid = play-IsValid (board g) color x y g.rules.suicide plays.is_player v in
      let counts =
        play_conserves (board g) color x y g.rules.suicide plays.captured plays.is_player v
          from_ok in
      let b_valid = subst Placement.IsValid to_b valid in
      let size : b.size ≡ g.size =
        sym (ap (λ (k : Board). k.size) to_b) ∙ play-size (board g) color x y g.rules.suicide in
      record {
        position =
            subst
              (λ (k : ℕ).
                Placement.IsValid (as_board k b.stones (b.captures.by_black, b.captures.by_white)))
              size b_valid;
        account = omega (
          arith,
          counts,
          ply.account,
          ap (λ (k : Board). count_stones k.stones + prisoners k.captures) to_b,
          stones_played-append (take g.cursor g.moves) (move_of color (some (x, y)) n comment ∷ []),
        );
      }

  pub after : (p : Option Point) → attempt g color p ≡ allowed b n → After p
  after none e = after_pass e
  after (some p) e = after_point p e
