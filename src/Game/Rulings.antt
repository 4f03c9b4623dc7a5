-- ===== src/Game/Rulings.antt =====
-- What a legality check answers: the indexes against a scan of the line, and what an allowed move
-- is.
use gowui.Base.{
  ℕ, suc, ◌-◌, ◌≡◌, refl, ap, ◌∙◌, Bool, true, not, ◌&&◌, List, Option, none, some, arith, length,
  take, inl, inr, if◌then◌else◌, ◌==◌, Option-cases, equal, ℤ, Result, ok, err,
}
use gowui.Rules.{Ko, simple_ko, positional_superko, situational_superko}
use gowui.Coords.{Point}
use gowui.Board.{Board, MoveError, opponent, is_color, play}
use gowui.Game.{
  Key, key_eq, situation_eq, Game, snapshot_at, board, allowed, Reason, ko, superko, situational,
  seen_by, ko_refusal, after_play, attempt_at, attempt,
}
use gowui.Game.Index.{occurs, seen_by-first_index}
use gowui.Game.Plies.{situations}
use gowui.Game.Invariant.{IsValid}

-- The ko rules as they are defined, by a scan of the plies up to the cursor.
unfoldable pub scan_refusal : Game → Ko → ℕ → Key → Option Reason
scan_refusal g simple_ko color key =
    if not (g.cursor == 0) && equal key (snapshot_at g (g.cursor - 1)) then some ko else none
scan_refusal g positional_superko color key =
    if occurs key (take (suc g.cursor) g.snapshots) then some superko else none
scan_refusal g situational_superko color key =
    if occurs (key, opponent color)
      (take (suc g.cursor) (situations g.first_player g.snapshots g.moves))
    then some situational
    else none

-- On a valid game the indexed check of each ko rule answers as the scan of the line does.
pub ko_refusal-scan :
    (g : Game) (rule : Ko) (color : ℕ) (key : Key)
    → IsValid g
    → ko_refusal g rule color key ≡ scan_refusal g rule color key
unfolding ko_refusal scan_refusal
ko_refusal-scan g simple_ko color key v = refl
ko_refusal-scan g positional_superko color key v =
    ap (λ (b : Bool). if b then some superko else none)
      (ap (seen_by g.cursor) (v.indexed key) ∙ seen_by-first_index key g.snapshots g.cursor)
ko_refusal-scan g situational_superko color key v =
    ap (λ (b : Bool). if b then some situational else none)
      (ap (seen_by g.cursor) (v.indexed_to_play (key, opponent color))
        ∙ seen_by-first_index (key, opponent color) (situations g.first_player g.snapshots g.moves)
            g.cursor)

-- An allowed move on a point: `Board.play` accepts it, and the ko rule in force does not object.
pub record PlaysPoint (g : Game) (color : ℕ) (p : Point) (b : Board) (n : ℕ) : Type 0 where
  pub is_player : is_color color ≡ true
  pub captured : List (ℕ × ℕ)
  pub accepted : play (board g) color (p.0) (p.1) g.rules.suicide ≡ (ok captured, b)
  pub counted : n ≡ length captured
  pub no_ko : ko_refusal g g.rules.ko color b.stones ≡ none

after_play-allowed :
    (g : Game) (color : ℕ) (r : Result MoveError (List (ℕ × ℕ)) × Board) (b : Board) (n : ℕ)
    → after_play g color r ≡ allowed b n
    → (captured : List (ℕ × ℕ)) × (r ≡ (ok captured, b))
      × (n ≡ length captured)
      × (ko_refusal g g.rules.ko color b.stones ≡ none)
unfolding after_play
after_play-allowed g color (err e, b') b n h = absurd (cc)
after_play-allowed g color (ok captured, b') b n h =
    elim (Option-cases (ko_refusal g g.rules.ko color b'.stones)) [
      | inl z ↦ (captured, ground arith, ground arith, ground arith)
      | inr (r, z) ↦ absurd (objected z)
    ]
  where
    objected : {r : Reason} → ko_refusal g g.rules.ko color b'.stones ≡ some r → ⊥
    objected z = ground arith

attempt_at-allowed :
    (g : Game) (color : ℕ) (x y : ℤ) (b : Board) (n : ℕ)
    → is_color color ≡ true
    → attempt_at g color (x, y) ≡ allowed b n
    → PlaysPoint g color (x, y) b n
unfolding attempt_at
attempt_at-allowed g color x y b n c h =
    let (captured, e, m, k) =
      after_play-allowed g color (play (board g) color x y g.rules.suicide) b n (reached h) in
    record { is_player = c; captured = captured; accepted = e; counted = m; no_ko = k }
  where
    reached :
        attempt_at g color (x, y) ≡ allowed b n
        → after_play g color (play (board g) color x y g.rules.suicide) ≡ allowed b n
    reached h = ground arith

pub attempt-point :
    (g : Game) (color : ℕ) (p : Point) (b : Board) (n : ℕ)
    → attempt g color (some p) ≡ allowed b n
    → PlaysPoint g color p b n
unfolding attempt
attempt-point g color (x, y) b n h =
    attempt_at-allowed g color x y b n (ground arith) (ground arith)

pub attempt-pass :
    (g : Game) (color : ℕ) (b : Board) (n : ℕ)
    → attempt g color none ≡ allowed b n
    → (b ≡ board g) × (n ≡ 0) × (is_color color ≡ true)
unfolding attempt
attempt-pass g color b n h = (ground arith, ground arith, ground arith)
