-- ===== src/Archive/Reading.antt =====
-- What holds of a game that `from_sgf` reads.
use gowui.Base.{
  ℕ, ◌≤◌, ◌≡◌, refl, ◌∙◌, subst, Bool, true, false, ◌||◌, List, [], ◌∷◌, Option, none, some, arith,
  if◌then◌else◌, ◌==◌, Bool-cases, inl, inr, Text, codes, Result, ok, err, or_raise, bind-eq-ok,
  ok-injective, ℤ, text_eq, lower, strip,
}
use gowui.Rules.{RuleSet, get_rules}
use gowui.Coords.{CoordinateError, from_sgf}
use gowui.Board.{black, white}
use gowui.Sgf.{Node, get, parse}
use gowui.Game.{Float, SetupStone, Game, Reason, setup, play_move}
use gowui.Game.Invariant.{IsValid}
use gowui.Game.Methods.{play_move-IsValid, setup-IsValid}
use gowui.Game.Line.{play_move-Continues}
use gowui.Archive.{
  ArchiveError, bad_size, size_outside, bad_rules, bad_sgf, has, match_square, small_int,
  size_in_range, sgf_size, sgf_rules, sgf_handicap, sgf_setup, with_point, play_key, then_white,
  play_node, play_nodes, root_of, rest_of, handicap_of, first_player_of, text_or, as_archive,
  sgf_komi, read_game, read_nodes, read_sgf,
}

-- A valid game of the given size.
pub record IsSized (size : ℕ) (g : Game) : Type 0 where
  pub valid : IsValid g
  pub sized : g.size ≡ size

module _ (size : ℕ) where
  with_point-IsSized :
      (g : Game) (color : ℕ) (comment : Text) (r : Result CoordinateError (Option (ℤ × ℤ)))
      → IsSized size g
      → IsSized size (with_point g color comment r).0
  with_point-IsSized g color comment (err e) h = h
  with_point-IsSized g color comment (ok p) h = played (play_move g color p comment) refl
    where
      played :
          (r : Result Reason Game)
          → play_move g color p comment ≡ r
          → IsSized size
              (elim r as (λ r. Game × Bool) [ ok g' ↦ (g', true) | err e ↦ (g, false) ]).0
      played (err e) q = h
      played (ok g') q =
          let c = play_move-Continues g color p comment g' h.valid q in
          record {
            valid = play_move-IsValid g color p comment g' h.valid q;
            sized = c.same_start.0 ∙ h.sized;
          }

  play_key-IsSized :
      (key : Text) (color : ℕ) (node : Node) (g : Game)
      → IsSized size g
      → IsSized size (play_key key color node g).0
  unfolding play_key
  play_key-IsSized key color node g h = elim (Bool-cases (has key node)) [
    | inl y ↦
        rw y (with_point-IsSized g color (get (codes "C") node) (from_sgf (get key node) g.size) h)
    | inr n ↦ rw n h
  ]

  then_white-IsSized :
      (node : Node) (r : Game × Bool) → IsSized size (r.0) → IsSized size (then_white node r).0
  then_white-IsSized node (g, true) h = play_key-IsSized (codes "W") white node g h
  then_white-IsSized node (g, false) h = h

  play_node-IsSized : (node : Node) (g : Game) → IsSized size g → IsSized size (play_node node g).0
  unfolding play_node
  play_node-IsSized node g h =
      elim (Bool-cases (has (codes "AB") node || has (codes "AW") node || has (codes "AE") node)) [
        | inl y ↦ rw y h
        | inr n ↦ rw n (
            then_white-IsSized node (play_key (codes "B") black node g)
              (play_key-IsSized (codes "B") black node g h))
      ]

  play_nodes-IsSized : (ns : List Node) (g : Game) → IsSized size g → IsSized size (play_nodes ns g)
  unfolding play_nodes
  play_nodes-IsSized [] g h = h
  play_nodes-IsSized (n ∷ ns) g h =
      more ((play_node n g).1) (play_nodes-IsSized ns (play_node n g).0 (play_node-IsSized n g h))
    where
      more :
          (b : Bool)
          → IsSized size (play_nodes ns (play_node n g).0)
          → IsSized size (elim b as (λ b. Game) [
            | true ↦ play_nodes ns (play_node n g).0
            | false ↦ (play_node n g).0
          ])
      more true k = k
      more false k = play_node-IsSized n g h

relabelled-IsSized :
    (size : ℕ) (g : Game) (b w : Text)
    → IsSized size g
    → IsSized size (record g { black_name = b; white_name = w })
relabelled-IsSized size g b w h = record {
  valid = record {
    few = h.valid.few;
    snapshots_aligned = h.valid.snapshots_aligned;
    prisoners_aligned = h.valid.prisoners_aligned;
    cursor_le = h.valid.cursor_le;
    indexed = h.valid.indexed;
    indexed_to_play = h.valid.indexed_to_play;
  };
  sized = h.sized;
}

with_result-IsSized :
    (size : ℕ) (g : Game) (t : Text) → IsSized size g → IsSized size (record g { result = t })
with_result-IsSized size g t h = record {
  valid = record {
    few = h.valid.few;
    snapshots_aligned = h.valid.snapshots_aligned;
    prisoners_aligned = h.valid.prisoners_aligned;
    cursor_le = h.valid.cursor_le;
    indexed = h.valid.indexed;
    indexed_to_play = h.valid.indexed_to_play;
  };
  sized = h.sized;
}

setup-sized :
    (size : ℕ) (rules : RuleSet) (komi : Option Float) (handicap : ℕ) (stones : List SetupStone)
    (first : ℕ)
    → (setup size rules komi handicap stones first).size ≡ size
unfolding setup
setup-sized size rules komi handicap stones first = refl

size_in_range-bounds : (o : Option ℕ) (n : ℕ) → size_in_range o ≡ some n → (2 ≤ n) × (n ≤ 25)
size_in_range-bounds none n h = absurd (cc)
size_in_range-bounds (some m) n h = (ground (arith, h), ground (arith, h))

or_raise-ok :
    {A : Type 0} (o : Option A) (e : ArchiveError) (a : A) → or_raise o e ≡ ok a → o ≡ some a
or_raise-ok none e a h = absurd (cc)
or_raise-ok (some b) e a h = cc

-- A size that is read is one that the game allows.
pub sgf_size-bounds : (root : Node) (n : ℕ) → sgf_size root ≡ ok n → (2 ≤ n) × (n ≤ 25)
unfolding sgf_size
sgf_size-bounds root n h = elim (Bool-cases (has (codes "SZ") root)) [
  | inl y ↦
      let (digits, a, b) =
        bind-eq-ok (or_raise (match_square (get (codes "SZ") root)) bad_size) _ (rw y at h) in
      size_in_range-bounds (small_int digits) n
        (or_raise-ok (size_in_range (small_int digits)) size_outside n b)
  | inr z ↦ nineteen (rw z at h)
]
  where
    nineteen : ◌≡◌ {A = Result ArchiveError ℕ} (ok 19) (ok n) → (2 ≤ n) × (n ≤ 25)
    nineteen e = (ground (arith, e), ground (arith, e))

module _ (read_float : Text → Float) where
  read_game-IsSized :
      (nodes : List Node) (root : Node) (size : ℕ) (rules : RuleSet) (komi : Option Float) (ha : ℕ)
      (stones : List SetupStone)
      → IsSized size (read_game read_float nodes root size rules komi ha stones)
  read_game-IsSized nodes root size rules komi ha stones =
      let handicap = handicap_of ha stones in
      let first =
        first_player_of (lower (strip (get (codes "PL") root)))
          (if handicap == 0 then black else white) in
      let start = setup size rules komi handicap stones first in
      let b = text_or (get (codes "PB") root) (codes "Black") in
      let w = text_or (get (codes "PW") root) (codes "White") in
      with_result-IsSized size
        (play_nodes (rest_of nodes) (record start { black_name = b; white_name = w }))
        (get (codes "RE") root)
        (play_nodes-IsSized size (rest_of nodes) (record start { black_name = b; white_name = w })
          (relabelled-IsSized size start b w (record {
            valid = setup-IsValid size rules komi handicap stones first;
            sized = setup-sized size rules komi handicap stones first;
          })))

  -- A game of an allowed size, with the invariant of `Game`.
  pub record IsReadable (g : Game) : Type 0 where
    pub valid : IsValid g
    pub at_least : 2 ≤ g.size
    pub at_most : g.size ≤ 25

  read_nodes-IsReadable :
      (nodes : List Node) (g : Game) → read_nodes read_float nodes ≡ ok g → IsReadable g
  unfolding read_nodes
  read_nodes-IsReadable nodes g h =
      let root = root_of nodes in
      let (size, in_size, h2) = bind-eq-ok (sgf_size root) _ h in
      let (rules, _, h3) =
        bind-eq-ok (as_archive (λ e. bad_rules) (get_rules (sgf_rules (get (codes "RU") root)))) _
          h2 in
      let (komi, _, h4) = bind-eq-ok (sgf_komi read_float root) _ h3 in
      let (ha, _, h5) = bind-eq-ok (sgf_handicap root size) _ h4 in
      let (stones, _, h6) = bind-eq-ok (sgf_setup root size) _ h5 in
      let (lo, hi) = sgf_size-bounds root size in_size in
      let game = read_game-IsSized nodes root size rules komi ha stones in
      let of_size = subst (IsSized size) (ok-injective h6) game in
      record {
        valid = of_size.valid;
        at_least = omega (arith, lo, of_size.sized);
        at_most = omega (arith, hi, of_size.sized);
      }

  -- A game that is read from an SGF text, whatever the text and whatever it makes of numbers, is of a
  -- size from 2 to 25, and its lists, cursor and indexes are in order.
  pub read_sgf-IsReadable :
      (text : Text) (g : Game) → read_sgf read_float text ≡ ok g → IsReadable g
  unfolding read_sgf
  read_sgf-IsReadable text g h =
      let (nodes, _, e) = bind-eq-ok (as_archive bad_sgf (parse text)) _ h in
      read_nodes-IsReadable nodes g e
