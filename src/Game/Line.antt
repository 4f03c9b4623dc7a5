-- ===== src/Game/Line.antt =====
-- What a move, an undo and a move to a past ply do to the line of play.
use gowui.Base.{
  ℕ, ◌+◌, ◌-◌, ◌≤◌, ◌≡◌, refl, sym, ap, ◌∙◌, subst, false, List, [], ◌∷◌, ◌++◌, Option, some, arith,
  length, get_elem?, take, ◌==◌, Text, ok, ok-injective, set_default,
}
use gowui.Coords.{Point}
use gowui.Board.{Board, opponent}
use gowui.Game.{
  key_eq, situation_eq, Move, Game, Attempt, refused, allowed, attempt, truncate, move_of, play_on,
  play_move, undo,
}
use gowui.Game.Plies.{take-length, take-append_left, take-take}
use gowui.Game.Invariant.{IsValid, truncate-IsValid, truncate_only}
use gowui.Game.Methods.{record_move_lem}

-- The game after an accepted move, apart from the indexes.
pub record Continues (g : Game) (color : ℕ) (p : Option Point) (comment : Text) (g' : Game)
    : Type 0 where
  pub after : Board
  pub captured : ℕ
  pub attempted : attempt g color p ≡ allowed after captured
  pub line : g'.moves ≡ take g.cursor g.moves ++ move_of color p captured comment ∷ []
  pub positions : g'.snapshots ≡ take (g.cursor + 1) g.snapshots ++ after.stones ∷ []
  pub prisoners :
      g'.prisoners
      ≡ take (g.cursor + 1) g.prisoners ++ (after.captures.by_black, after.captures.by_white) ∷ []
  pub at_end : g'.cursor ≡ g.cursor + 1
  pub no_result : g'.result ≡ []
  pub same_start : (g'.size ≡ g.size) × (g'.rules ≡ g.rules) × (g'.first_player ≡ g.first_player)

play_on-Continues :
    (g : Game) (color : ℕ) (p : Option Point) (comment : Text) (g' : Game) (a : Attempt)
    → attempt g color p ≡ a
    → IsValid g
    → play_on g color p comment a ≡ ok g'
    → Continues g color p comment g'
play_on-Continues g color p comment g' (refused r) e v h = absurd (cc)
play_on-Continues g color p comment g' (allowed b n) e v h =
    let t = truncate g.cursor g in
    let m = move_of color p n comment in
    let valid = truncate-IsValid g.cursor g v v.cursor_le (omega arith) in
    let same : g' ≡ record t {
      moves = t.moves ++ m ∷ [];
      snapshots = t.snapshots ++ b.stones ∷ [];
      prisoners = t.prisoners ++ (b.captures.by_black, b.captures.by_white) ∷ [];
      first_seen = set_default b.stones (length t.snapshots) t.first_seen;
      first_seen_to_play =
          set_default (b.stones, opponent color) (length t.snapshots) t.first_seen_to_play;
      cursor = length t.snapshots;
      result = [];
    } =
      sym (ok-injective h) ∙ record_move_lem t m b valid in
    let cut = truncate_only g.cursor g in
    record {
      after = b;
      captured = n;
      attempted = e;
      line = ap (λ (x : Game). x.moves) same ∙ ap (λ (x : Game). x.moves ++ m ∷ []) cut;
      positions =
          ap (λ (x : Game). x.snapshots) same ∙ ap (λ (x : Game). x.snapshots ++ b.stones ∷ []) cut;
      prisoners =
          ap (λ (x : Game). x.prisoners) same
          ∙ ap (λ (x : Game). x.prisoners ++ (b.captures.by_black, b.captures.by_white) ∷ []) cut;
      at_end =
          ap (λ (x : Game). x.cursor) same
          ∙ ap (λ (x : Game). length x.snapshots) cut
          ∙ take-length g.snapshots (g.cursor + 1)
              (omega (arith, v.snapshots_aligned, v.cursor_le));
      no_result = ap (λ (x : Game). x.result) same;
      same_start = (
        ap (λ (x : Game). x.size) same ∙ ap (λ (x : Game). x.size) cut,
        ap (λ (x : Game). x.rules) same ∙ ap (λ (x : Game). x.rules) cut,
        ap (λ (x : Game). x.first_player) same ∙ ap (λ (x : Game). x.first_player) cut,
      );
    }

pub play_move-Continues :
    (g : Game) (color : ℕ) (p : Option Point) (comment : Text) (g' : Game)
    → IsValid g
    → play_move g color p comment ≡ ok g'
    → Continues g color p comment g'
unfolding play_move
play_move-Continues g color p comment g' v h =
    play_on-Continues g color p comment g' (attempt g color p) refl v h

undo_later :
    (g : Game) (c : ℕ)
    → g.cursor ≡ c + 1
    → undo g ≡ (get_elem? g.moves c, truncate c (record g { cursor = c; result = [] }))
unfolding undo
undo_later g c e =
    let later : (g.cursor == 0) ≡ false = ground arith in
    let prev : g.cursor - 1 ≡ c = omega arith in
    rw later (
      ap (λ (k : ℕ). (get_elem? g.moves k, truncate k (record g { cursor = k; result = [] }))) prev)

get_elem?-snoc {ℓ} :
    {A : Type ℓ} (xs : List A) (x : A) → get_elem? (xs ++ x ∷ []) (length xs) ≡ some x
get_elem?-snoc [] x = refl
get_elem?-snoc (y ∷ xs) x = get_elem?-snoc xs x

take-snoc_drop {ℓ} :
    {A : Type ℓ} (xs : List A) (x : A) (n : ℕ)
    → n ≤ length xs
    → take n (take n xs ++ x ∷ []) ≡ take n xs
take-snoc_drop xs x n h =
    take-append_left (take n xs) (x ∷ []) n (omega (arith, take-length xs n h))
    ∙ take-take xs n n (omega arith)

-- The game after a move and its undo.
pub record Undone (g : Game) (color : ℕ) (p : Option Point) (comment : Text)
    (u : Option Move × Game) : Type 0 where
  pub captured : ℕ
  pub returned : u.0 ≡ some (move_of color p captured comment)
  pub line : u.1.moves ≡ take g.cursor g.moves
  pub positions : u.1.snapshots ≡ take (g.cursor + 1) g.snapshots
  pub prisoners : u.1.prisoners ≡ take (g.cursor + 1) g.prisoners
  pub same_cursor : u.1.cursor ≡ g.cursor
  pub same_size : u.1.size ≡ g.size

undo-Undone :
    (g : Game) (color : ℕ) (p : Option Point) (comment : Text) (g' : Game)
    → IsValid g
    → Continues g color p comment g'
    → Undone g color p comment (undo g')
undo-Undone g color p comment g' v c =
    let n = g.cursor in
    let m = move_of color p c.captured comment in
    let cut = truncate_only n (record g' { cursor = n; result = [] }) in
    let shots : n + 1 ≤ length g.snapshots = omega (arith, v.snapshots_aligned, v.cursor_le) in
    let pris : n + 1 ≤ length g.prisoners = omega (arith, v.prisoners_aligned, v.cursor_le) in
    rw (undo_later g' n c.at_end) (record {
      captured = c.captured;
      returned =
          ap (λ (ms : List Move). get_elem? ms n) c.line
          ∙ subst (λ (k : ℕ). get_elem? (take n g.moves ++ m ∷ []) k ≡ some m)
              (take-length g.moves n v.cursor_le) (get_elem?-snoc (take n g.moves) m);
      line =
          ap (λ (x : Game). x.moves) cut
          ∙ ap (take n) c.line
          ∙ take-snoc_drop g.moves m n v.cursor_le;
      positions =
          ap (λ (x : Game). x.snapshots) cut
          ∙ ap (take (n + 1)) c.positions
          ∙ take-snoc_drop g.snapshots c.after.stones (n + 1) shots;
      prisoners =
          ap (λ (x : Game). x.prisoners) cut
          ∙ ap (take (n + 1)) c.prisoners
          ∙ take-snoc_drop g.prisoners _ (n + 1) pris;
      same_cursor = ap (λ (x : Game). x.cursor) cut;
      same_size = ap (λ (x : Game). x.size) cut ∙ c.same_start.0;
    })

-- Undoing an accepted move returns that move and gives back the line, the positions, the prisoner
-- counts and the cursor that the game had, without the moves that stood after the cursor.
pub undo-play_move :
    (g : Game) (color : ℕ) (p : Option Point) (comment : Text) (g' : Game)
    → IsValid g
    → play_move g color p comment ≡ ok g'
    → Undone g color p comment (undo g')
undo-play_move g color p comment g' v h =
    undo-Undone g color p comment g' v (play_move-Continues g color p comment g' v h)
