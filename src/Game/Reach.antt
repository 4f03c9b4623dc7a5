-- ===== src/Game/Reach.antt =====
-- The methods of `Game` as steps, and what holds of every game that they reach.
use gowui.Base.{
  ℕ, zero, suc, ◌+◌, ◌-◌, ◌*◌, ◌≤◌, ◌≡◌, refl, sym, subst, false, List, [], Option, arith, length,
  take, inl, inr, ◌==◌, Bool-cases, Text, ℤ, ok, ok-injective, replicate,
}
use gowui.Rules.{RuleSet}
use gowui.Coords.{Point}
use gowui.Board.{empty, is_color, new_board}
use gowui.Board.Stones.{count_stones}
use gowui.Board.Play.{new_board-IsValid}
use gowui.Game.{
  Move, Game, Float, truncate, move_of, play_move, undo, navigate, branch, resign, setup,
  place_setup,
}
use gowui.Game.Plies.{take-length}
use gowui.Game.Invariant.{truncate_only}
use gowui.Game.Methods.{
  play_move-IsValid, undo-IsValid, navigate-IsValid, branch-IsValid, resign-IsValid, setup-IsValid,
}
use gowui.Game.Line.{play_move-Continues}
use gowui.Game.History.{IsGame, IsPly, Recorded, Recorded-take, Recorded-snoc, after, stones_played}

abbrev RecordedGame : ℕ → Game → Type 0
RecordedGame base g = Recorded g.size base g.snapshots g.prisoners g.moves

truncate-Recorded :
    (base ply : ℕ) (g : Game)
    → ply ≤ length g.moves
    → RecordedGame base g
    → RecordedGame base (truncate ply g)
truncate-Recorded base ply g h r =
    subst (RecordedGame base) (sym (truncate_only ply g))
      (Recorded-take g.size base ply g.snapshots g.prisoners g.moves h r)

play_move-IsGame :
    (base : ℕ) (g : Game) (color : ℕ) (p : Option Point) (comment : Text) (g' : Game)
    → IsGame base g
    → play_move g color p comment ≡ ok g'
    → IsGame base g'
play_move-IsGame base g color p comment g' h e =
    let v = h.valid in
    let n = g.cursor in
    let c = play_move-Continues g color p comment g' v e in
    let ks = take (n + 1) g.snapshots in
    let ps = take (n + 1) g.prisoners in
    let k = c.after.stones in
    let q : ℕ × ℕ = (c.after.captures.by_black, c.after.captures.by_white) in
    let m = move_of color p c.captured comment in
    let ms : List Move = take n g.moves in
    let moves = take-length g.moves n v.cursor_le in
    let new =
      Recorded-snoc g.size base ks ps ms k q m
        (omega (
          arith,
          moves,
          v.snapshots_aligned,
          v.cursor_le,
          take-length g.snapshots (n + 1) (omega (arith, v.snapshots_aligned, v.cursor_le)),
        ))
        (omega (
          arith,
          moves,
          v.prisoners_aligned,
          v.cursor_le,
          take-length g.prisoners (n + 1) (omega (arith, v.prisoners_aligned, v.cursor_le)),
        ))
        (Recorded-take g.size base n g.snapshots g.prisoners g.moves v.cursor_le h.recorded)
        (after base g h color comment c.after c.captured p c.attempted) in
    let same_size : g'.size ≡ g.size = c.same_start.0 in
    record {
      valid = play_move-IsValid g color p comment g' v e;
      recorded = rw same_size (rw c.positions (rw c.prisoners (rw c.line new)));
    }

undo-Recorded : (base : ℕ) (g : Game) → IsGame base g → RecordedGame base (undo g).1
unfolding undo
undo-Recorded base g h = elim (Bool-cases (g.cursor == 0)) [
  | inl start ↦ rw start h.recorded
  | inr later ↦ rw later (
      truncate-Recorded base (g.cursor - 1) (record g { cursor = g.cursor - 1; result = [] })
        (omega (arith, h.valid.cursor_le)) h.recorded)
]

branch-Recorded : (base : ℕ) (g : Game) → IsGame base g → RecordedGame base (branch g)
unfolding branch
branch-Recorded base g h = truncate-Recorded base g.cursor g h.valid.cursor_le h.recorded

navigate-Recorded : (base : ℕ) (i : ℤ) (g : Game) → IsGame base g → RecordedGame base (navigate i g)
unfolding navigate
navigate-Recorded base i g h = h.recorded

resign-Recorded :
    (base c : ℕ) (g g' : Game) → IsGame base g → resign c g ≡ ok g' → RecordedGame base g'
unfolding resign
resign-Recorded base c g g' h e = elim (Bool-cases (is_color c)) [
  | inl color ↦ subst (RecordedGame base) (ok-injective (rw color at e)) h.recorded
  | inr other ↦ absurd (refusal other)
]
  where
    refusal : is_color c ≡ false → ⊥
    refusal z = ground arith

-- One call of a method that changes the game; a refused call changes nothing.
pub data Step : Game → Game → Type 0 where
  plays :
      (g : Game) (color : ℕ) (p : Option Point) (comment : Text) (g' : Game)
      → play_move g color p comment ≡ ok g'
      → Step g g'
  undoes : (g : Game) → Step g (undo g).1
  navigates : (i : ℤ) (g : Game) → Step g (navigate i g)
  branches : (g : Game) → Step g (branch g)
  resigns : (c : ℕ) (g g' : Game) → resign c g ≡ ok g' → Step g g'

-- The games that the methods reach from `g`.
pub data Reach (g : Game) : Game → Type 0 where
  start : Reach g g
  next : {a b : Game} → Reach g a → Step a b → Reach g b

Step-IsGame : (base : ℕ) {g g' : Game} → IsGame base g → Step g g' → IsGame base g'
Step-IsGame base h (plays g color p comment g' e) = play_move-IsGame base g color p comment g' h e
Step-IsGame base h (undoes g) = record {
  valid = undo-IsValid g h.valid;
  recorded = undo-Recorded base g h;
}
Step-IsGame base h (navigates i g) = record {
  valid = navigate-IsValid i g h.valid;
  recorded = navigate-Recorded base i g h;
}
Step-IsGame base h (branches g) = record {
  valid = branch-IsValid g h.valid;
  recorded = branch-Recorded base g h;
}
Step-IsGame base h (resigns c g g' e) = record {
  valid = resign-IsValid c g g' h.valid e;
  recorded = resign-Recorded base c g g' h e;
}

count_stones-replicate : (n : ℕ) → count_stones (replicate n empty) ≡ 0
unfolding count_stones
count_stones-replicate zero = refl
count_stones-replicate (suc n) = omega (arith, count_stones-replicate n)

new_board-IsPly : (size : ℕ) → IsPly size 0 (replicate (size * size) empty) (0, 0) []
unfolding new_board stones_played
new_board-IsPly size = record {
  position = new_board-IsValid size;
  account = omega (arith, count_stones-replicate (size * size));
}

setup-Recorded :
    (size : ℕ) (rules : RuleSet) (komi : Option Float) (first : ℕ)
    → RecordedGame 0 (setup size rules komi 0 [] first)
unfolding setup place_setup
setup-Recorded size rules komi first zero l = new_board-IsPly size
setup-Recorded size rules komi first (suc i) l = absurd (omega (arith, l))

Reach-IsGame : (base : ℕ) {g g' : Game} → IsGame base g → Reach g g' → IsGame base g'
Reach-IsGame base h start = h
Reach-IsGame base h (next r s) = Step-IsGame base (Reach-IsGame base h r) s

-- Whatever plays, undos, moves of the cursor, branches and resignations follow the start of a game
-- without setup stones, the lists and indexes of the game agree, every recorded ply is a full grid
-- of empty, black and white points with no chain without a liberty, and the stones on it and the
-- prisoners are as many as the moves on points before it.
pub reachable-IsGame :
    (size : ℕ) (rules : RuleSet) (komi : Option Float) (first : ℕ) (g : Game)
    → Reach (setup size rules komi 0 [] first) g
    → IsGame 0 g
reachable-IsGame size rules komi first g r =
    Reach-IsGame 0
      (record {
        valid = setup-IsValid size rules komi 0 [] first;
        recorded = setup-Recorded size rules komi first;
      })
      r
