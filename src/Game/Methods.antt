-- ===== src/Game/Methods.antt =====
-- Every method of `Game` keeps the invariant.
use gowui.Base.{
  ℕ, ◌-◌, ◌<◌, ◌≤◌, ◌≡◌, refl, sym, ap, ◌∙◌, subst, false, List, [], ◌∷◌, ◌++◌, Option, none, some,
  arith, length, take, length-append, inl, inr, if◌then◌else◌, Eq, codes, ◌==◌, Bool-cases,
  Option-cases, Text, ok, ok-injective, ℤ, pos, negsuc, lookup, set_default,
}
use gowui.Rules.{RuleSet}
use gowui.Coords.{Point}
use gowui.Board.{Board, opponent, is_color, black}
use gowui.Game.{
  Key, key_eq, situation_eq, Move, Game, Float, SetupStone, snapshot_at, max_moves, truncate,
  record_move, move_of, Attempt, refused, allowed, attempt, play_on, play_move, undo, navigate,
  branch, resign, setup, clamp,
}
use gowui.Game.Index.{IsIndex, set_default-IsIndex, first_index}
use gowui.Game.Plies.{take-length, situations, length-situations, situations-snoc, first_index-get}
use gowui.Game.Invariant.{IsValid, truncate-IsValid, truncate_only}

stored_key :
    (g : Game) (b : Board)
    → IsValid g
    → (elim (lookup b.stones g.first_seen) as (λ o. Key) [
      | none ↦ b.stones
      | some i ↦ snapshot_at g i
    ])
      ≡ b.stones
stored_key g b v = elim (Option-cases (lookup b.stones g.first_seen)) [
  | inl n ↦ rw n refl
  | inr (i, s) ↦ rw s (first_index-get b.stones g.snapshots i [] (sym (v.indexed b.stones) ∙ s))
]

-- The stored position is the one on the board, whichever ply its bytes are shared with.
pub record_move_lem :
    (g : Game) (m : Move) (b : Board)
    → IsValid g
    → record_move g m b ≡ record g {
      moves = g.moves ++ m ∷ [];
      snapshots = g.snapshots ++ b.stones ∷ [];
      prisoners = g.prisoners ++ (b.captures.by_black, b.captures.by_white) ∷ [];
      first_seen = set_default b.stones (length g.snapshots) g.first_seen;
      first_seen_to_play =
          set_default (b.stones, opponent m.color) (length g.snapshots) g.first_seen_to_play;
      cursor = length g.snapshots;
      result = [];
    }
unfolding record_move
record_move_lem g m b v =
    ap
      (λ (key : Key). record g {
        moves = g.moves ++ m ∷ [];
        snapshots = g.snapshots ++ key ∷ [];
        prisoners = g.prisoners ++ (b.captures.by_black, b.captures.by_white) ∷ [];
        first_seen = set_default key (length g.snapshots) g.first_seen;
        first_seen_to_play =
            set_default (key, opponent m.color) (length g.snapshots) g.first_seen_to_play;
        cursor = length g.snapshots;
        result = [];
      })
      (stored_key g b v)

record_move-IsValid :
    (g : Game) (m : Move) (b : Board)
    → IsValid g
    → length g.moves < max_moves
    → IsValid (record_move g m b)
record_move-IsValid g m b v room = subst IsValid (sym (record_move_lem g m b v)) (record {
  few = omega (arith, length-append g.moves (m ∷ []));
  snapshots_aligned = omega (
    arith,
    v.snapshots_aligned,
    length-append g.moves (m ∷ []),
    length-append g.snapshots (b.stones ∷ []),
  );
  prisoners_aligned = omega (
    arith,
    v.prisoners_aligned,
    length-append g.moves (m ∷ []),
    length-append g.prisoners ((b.captures.by_black, b.captures.by_white) ∷ []),
  );
  cursor_le = omega (arith, v.snapshots_aligned, length-append g.moves (m ∷ []));
  indexed = set_default-IsIndex b.stones g.snapshots g.first_seen v.indexed;
  indexed_to_play =
      subst
        (IsIndex
          (set_default (b.stones, opponent m.color) (length g.snapshots) g.first_seen_to_play))
        (sym (situations-snoc g.first_player g.snapshots g.moves b.stones m v.snapshots_aligned))
        (subst
          (λ (n : ℕ).
            IsIndex (set_default (b.stones, opponent m.color) n g.first_seen_to_play)
              (situations g.first_player g.snapshots g.moves ++ (b.stones, opponent m.color) ∷ []))
          (length-situations g.first_player g.snapshots g.moves)
          (set_default-IsIndex (b.stones, opponent m.color)
            (situations g.first_player g.snapshots g.moves) g.first_seen_to_play
            v.indexed_to_play));
})

pub truncate-moves : (ply : ℕ) (g : Game) → (truncate ply g).moves ≡ take ply g.moves
truncate-moves ply g = ap (λ (t : Game). t.moves) (truncate_only ply g)

pub attempt-room :
    (g : Game) (color : ℕ) (p : Option Point) (b : Board) (n : ℕ)
    → attempt g color p ≡ allowed b n
    → g.cursor < max_moves
unfolding attempt
attempt-room g color p b n h = ground arith

one_entry {ℓ} : {K : Type ℓ} ⦃e : Eq K⦄ (k x : K) → lookup k ((x, 0) ∷ []) ≡ first_index k (x ∷ [])
unfolding lookup first_index
one_entry k x = ground arith

clamp-le : (index : ℤ) (hi : ℕ) → clamp index hi ≤ hi
clamp-le (pos n) hi = omega arith
clamp-le (negsuc n) hi = omega arith

play_on-IsValid :
    (g : Game) (color : ℕ) (p : Option Point) (comment : Text) (a : Attempt) (g' : Game)
    → attempt g color p ≡ a
    → IsValid g
    → play_on g color p comment a ≡ ok g'
    → IsValid g'
play_on-IsValid g color p comment (refused r) g' e v h = absurd (cc)
play_on-IsValid g color p comment (allowed b n) g' e v h =
    let t = truncate g.cursor g in
    let line = take-length g.moves g.cursor v.cursor_le in
    subst IsValid (ok-injective h) (
      record_move-IsValid t (move_of color p n comment) b
        (truncate-IsValid g.cursor g v v.cursor_le (omega arith))
        (omega (
          arith,
          line,
          attempt-room g color p b n e,
          ap (λ (ms : List Move). length ms) (truncate-moves g.cursor g),
        )))

-- An accepted move keeps the invariant of the game.
pub play_move-IsValid :
    (g : Game) (color : ℕ) (p : Option Point) (comment : Text) (g' : Game)
    → IsValid g
    → play_move g color p comment ≡ ok g'
    → IsValid g'
unfolding play_move
play_move-IsValid g color p comment g' v h =
    play_on-IsValid g color p comment (attempt g color p) g' refl v h

pub undo-IsValid : (g : Game) → IsValid g → IsValid (undo g).1
unfolding undo
undo-IsValid g v = elim (Bool-cases (g.cursor == 0)) [
  | inl start ↦ rw start (record {
    few = v.few;
    snapshots_aligned = v.snapshots_aligned;
    prisoners_aligned = v.prisoners_aligned;
    cursor_le = v.cursor_le;
    indexed = v.indexed;
    indexed_to_play = v.indexed_to_play;
  })
  | inr later ↦ rw later (
      truncate-IsValid (g.cursor - 1) (record g { cursor = g.cursor - 1; result = [] })
        (record {
          few = v.few;
          snapshots_aligned = v.snapshots_aligned;
          prisoners_aligned = v.prisoners_aligned;
          cursor_le = omega (arith, v.cursor_le);
          indexed = v.indexed;
          indexed_to_play = v.indexed_to_play;
        })
        (omega (arith, v.cursor_le)) (omega arith))
]

pub navigate-IsValid : (index : ℤ) (g : Game) → IsValid g → IsValid (navigate index g)
unfolding navigate
navigate-IsValid index g v = record {
  few = v.few;
  snapshots_aligned = v.snapshots_aligned;
  prisoners_aligned = v.prisoners_aligned;
  cursor_le = clamp-le index (length g.moves);
  indexed = v.indexed;
  indexed_to_play = v.indexed_to_play;
}

with_result-IsValid : (t : Text) (g : Game) → IsValid g → IsValid (record g { result = t })
with_result-IsValid t g v = record {
  few = v.few;
  snapshots_aligned = v.snapshots_aligned;
  prisoners_aligned = v.prisoners_aligned;
  cursor_le = v.cursor_le;
  indexed = v.indexed;
  indexed_to_play = v.indexed_to_play;
}

pub branch-IsValid : (g : Game) → IsValid g → IsValid (branch g)
unfolding branch
branch-IsValid g v =
    with_result-IsValid [] (truncate g.cursor g)
      (truncate-IsValid g.cursor g v v.cursor_le (omega arith))

pub resign-IsValid : (c : ℕ) (g g' : Game) → IsValid g → resign c g ≡ ok g' → IsValid g'
unfolding resign
resign-IsValid c g g' v h = elim (Bool-cases (is_color c)) [
  | inl color ↦
      subst IsValid (ok-injective (rw color at h))
        (with_result-IsValid (if c == black then codes "W+R" else codes "B+R") g v)
  | inr other ↦ absurd (refusal other)
]
  where
    refusal : is_color c ≡ false → ⊥
    refusal e = ground arith

pub setup-IsValid :
    (size : ℕ) (rules : RuleSet) (komi : Option Float) (handicap : ℕ) (stones : List SetupStone)
    (first : ℕ)
    → IsValid (setup size rules komi handicap stones first)
unfolding setup situations
setup-IsValid size rules komi handicap stones first = record {
  few = omega arith;
  snapshots_aligned = omega arith;
  prisoners_aligned = omega arith;
  cursor_le = omega arith;
  indexed = λ k. one_entry k _;
  indexed_to_play = λ k. one_entry k (_, first);
}
