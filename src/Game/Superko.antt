-- ===== src/Game/Superko.antt =====
-- What the ko rules say of the games that moves lead to.
use gowui.Base.{
  ℕ, suc, ◌+◌, ◌≤◌, ◌≡◌, sym, ap, ◌∙◌, subst, false, List, [], ◌∷◌, ◌++◌, Option, none, some, arith,
  length, get_or, take, Text, ok,
}
use gowui.Rules.{Ko, positional_superko}
use gowui.Coords.{Point}
use gowui.Game.{Key, key_eq, Game, snapshot_at, play_move}
use gowui.Game.Index.{occurs}
use gowui.Game.Plies.{take-length, take-append_left, take-take, get_or-snoc}
use gowui.Game.Invariant.{IsValid}
use gowui.Game.Rulings.{scan_refusal, ko_refusal-scan, attempt-point}
use gowui.Game.Line.{Continues, play_move-Continues}

module _ (g : Game) (color : ℕ) (p : Option Point) (comment : Text) (g' : Game) (v : IsValid g)
    (c : Continues g color p comment g') where
  pub new_snapshot : snapshot_at g' g'.cursor ≡ c.after.stones
  new_snapshot =
      let n = g.cursor in
      let ks = take (n + 1) g.snapshots in
      let l : length ks ≡ n + 1 =
        take-length g.snapshots (n + 1) (omega (arith, v.snapshots_aligned, v.cursor_le)) in
      ap (λ (k : ℕ). get_or g'.snapshots k []) c.at_end
      ∙ ap (λ (xs : List Key). get_or xs (n + 1) []) c.positions
      ∙ subst (λ (k : ℕ). get_or (ks ++ c.after.stones ∷ []) k [] ≡ c.after.stones) l
          (get_or-snoc ks c.after.stones [])

  pub past_snapshots : take g'.cursor g'.snapshots ≡ take (g.cursor + 1) g.snapshots
  past_snapshots =
      let n = g.cursor in
      let ks = take (n + 1) g.snapshots in
      let l : n + 1 ≤ length ks = omega (
        arith,
        take-length g.snapshots (n + 1) (omega (arith, v.snapshots_aligned, v.cursor_le)),
      ) in
      ap (λ (k : ℕ). take k g'.snapshots) c.at_end
      ∙ ap (take (n + 1)) c.positions
      ∙ take-append_left ks (c.after.stones ∷ []) (n + 1) l
      ∙ take-take g.snapshots (n + 1) (n + 1) (omega arith)

-- The position after an accepted move on a point is one that the ko rule in force, read off the
-- whole line of play, does not refuse.
pub play_move-scan_refusal :
    (g : Game) (color : ℕ) (p : Point) (comment : Text) (g' : Game)
    → IsValid g
    → play_move g color (some p) comment ≡ ok g'
    → scan_refusal g g.rules.ko color (snapshot_at g' g'.cursor) ≡ none
play_move-scan_refusal g color p comment g' v e =
    let c = play_move-Continues g color (some p) comment g' v e in
    let plays = attempt-point g color p c.after c.captured c.attempted in
    ap (scan_refusal g g.rules.ko color) (new_snapshot g color (some p) comment g' v c)
    ∙ sym (ko_refusal-scan g g.rules.ko color c.after.stones v)
    ∙ plays.no_ko

no_superko :
    (g : Game) (color : ℕ) (key : Key)
    → scan_refusal g positional_superko color key ≡ none
    → occurs key (take (suc g.cursor) g.snapshots) ≡ false
unfolding scan_refusal
no_superko g color key h = ground arith

-- Under positional superko an accepted move on a point gives a position that none of the plies
-- before it has.
pub play_move-superko :
    (g : Game) (color : ℕ) (p : Point) (comment : Text) (g' : Game)
    → IsValid g
    → g.rules.ko ≡ positional_superko
    → play_move g color (some p) comment ≡ ok g'
    → occurs (snapshot_at g' g'.cursor) (take g'.cursor g'.snapshots) ≡ false
play_move-superko g color p comment g' v rule e =
    let c = play_move-Continues g color (some p) comment g' v e in
    let here = snapshot_at g' g'.cursor in
    let suc_n : suc g.cursor ≡ g.cursor + 1 = omega arith in
    ap (occurs here) (past_snapshots g color (some p) comment g' v c)
    ∙ ap (λ (k : ℕ). occurs here (take k g.snapshots)) (sym suc_n)
    ∙ no_superko g color here (
        subst (λ (k : Ko). scan_refusal g k color here ≡ none) rule
          (play_move-scan_refusal g color p comment g' v e))
