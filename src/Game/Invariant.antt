-- ===== src/Game/Invariant.antt =====
-- The invariant of `Game`: the lists run in step, the cursor is in range, and both indexes answer
-- as a scan of the line of play does.
use gowui.Base.{
  ℕ, zero, suc, ◌+◌, ◌-◌, ◌<◌, ◌≤◌, ◌≡◌, refl, sym, ap, subst, List, [], arith, length, get_or,
  take,
}
use gowui.Board.{opponent}
use gowui.Game.{
  Key, key_eq, Situation, situation_eq, Game, color_at, snapshot_at, max_moves, forget, unindex,
  cut, truncate,
}
use gowui.Game.Index.{IsIndex}
use gowui.Game.Plies.{
  forget-take, take-all, take-length, situations, length-situations, situations-at, situations-take,
}

pub record IsValid (g : Game) : Type 0 where
  pub few : length g.moves ≤ max_moves
  pub snapshots_aligned : length g.snapshots ≡ length g.moves + 1
  pub prisoners_aligned : length g.prisoners ≡ length g.moves + 1
  pub cursor_le : g.cursor ≤ length g.moves
  pub indexed : IsIndex g.first_seen g.snapshots
  pub indexed_to_play : IsIndex g.first_seen_to_play (situations g.first_player g.snapshots g.moves)

-- `unindex` writes to the indexes alone.
pub unindex_only :
    (n ply : ℕ) (g : Game)
    → unindex n ply g ≡ record g {
      first_seen = (unindex n ply g).first_seen;
      first_seen_to_play = (unindex n ply g).first_seen_to_play;
    }
unfolding unindex
unindex_only zero ply g = refl
unindex_only (suc n) ply g =
    let i = ply + suc n in
    let key : Key = snapshot_at g i in
    unindex_only n ply (record g {
      first_seen = forget i key g.first_seen;
      first_seen_to_play = forget i (key, opponent (color_at g.moves (i - 1))) g.first_seen_to_play;
    })

-- Both indexes answer for the plies up to `n`.
abbrev IndexedTo : ℕ → Game → Type 0
IndexedTo n g =
    IsIndex g.first_seen (take (suc n) g.snapshots)
    × IsIndex g.first_seen_to_play (take (suc n) (situations g.first_player g.snapshots g.moves))

situation-at :
    (g : Game) (i : ℕ)
    → length g.snapshots ≡ length g.moves + 1
    → 0 < i
    → i ≤ length g.moves
    → get_or (situations g.first_player g.snapshots g.moves) i ([], 0)
      ≡ (snapshot_at g i, opponent (color_at g.moves (i - 1)))
situation-at g zero a p h = absurd (omega arith)
situation-at g (suc j) a p h =
    subst
      (λ (k : ℕ).
        get_or (situations g.first_player g.snapshots g.moves) (suc j) ([], 0)
        ≡ (snapshot_at g (suc j), opponent (color_at g.moves k)))
      (let e : j ≡ suc j - 1 = omega arith in e)
      (situations-at g.first_player g.snapshots g.moves j ([], 0) a (omega arith))

unindex-IndexedTo :
    (n ply : ℕ) (g : Game)
    → length g.snapshots ≡ length g.moves + 1
    → ply + n ≤ length g.moves
    → IndexedTo (ply + n) g
    → IndexedTo ply (unindex n ply g)
unfolding unindex
unindex-IndexedTo zero ply g a h v =
    subst (λ (k : ℕ). IndexedTo k g) (let e : ply + 0 ≡ ply = omega arith in e) v
unindex-IndexedTo (suc n) ply g a h (x, y) =
    let i = ply + suc n in
    let e : i ≡ suc (ply + n) = omega arith in
    let key : Key = snapshot_at g i in
    let color = opponent (color_at g.moves (i - 1)) in
    let sits = situations g.first_player g.snapshots g.moves in
    unindex-IndexedTo n ply
      (record g {
        first_seen = forget i key g.first_seen;
        first_seen_to_play = forget i (key, color) g.first_seen_to_play;
      })
      a (omega arith)
      (
        subst (λ (k : ℕ). IsIndex (forget i key g.first_seen) (take k g.snapshots)) e
            (forget-take g.snapshots i [] g.first_seen (omega arith) x),
        subst (λ (k : ℕ). IsIndex (forget i (key, color) g.first_seen_to_play) (take k sits)) e
            (subst (λ (s : Situation). IsIndex (forget i s g.first_seen_to_play) (take i sits))
              (situation-at g i a (omega arith) h)
              (forget-take sits i ([], 0) g.first_seen_to_play
                (omega (arith, length-situations g.first_player g.snapshots g.moves)) y)),
      )

abbrev pub reindexed : ℕ → Game → Game
reindexed ply g = unindex (length g.snapshots - 1 - ply) ply g

-- What `_truncate` does to a game, apart from the indexes.
pub truncate_only :
    (ply : ℕ) (g : Game)
    → truncate ply g ≡ record (cut ply g) {
      first_seen = (reindexed ply g).first_seen;
      first_seen_to_play = (reindexed ply g).first_seen_to_play;
    }
unfolding truncate
truncate_only ply g = ap (cut ply) (unindex_only (length g.snapshots - 1 - ply) ply g)

reindexed-IndexedTo :
    (ply : ℕ) (g : Game) → IsValid g → ply ≤ length g.moves → IndexedTo ply (reindexed ply g)
reindexed-IndexedTo ply g v h =
    let n = length g.snapshots - 1 - ply in
    let e : ply + n ≡ length g.moves = omega (arith, v.snapshots_aligned) in
    let sits = situations g.first_player g.snapshots g.moves in
    unindex-IndexedTo n ply g v.snapshots_aligned (omega (arith, e)) (
      subst (IsIndex g.first_seen)
          (sym (take-all g.snapshots (suc (ply + n)) (omega (arith, e, v.snapshots_aligned))))
          v.indexed,
      subst (IsIndex g.first_seen_to_play)
          (sym (
            take-all sits (suc (ply + n)) (
              omega (
                arith,
                e,
                v.snapshots_aligned,
                length-situations g.first_player g.snapshots g.moves,
              ))))
          v.indexed_to_play,
    )

module _ (ply : ℕ) (g : Game) (v : IsValid g) (h : ply ≤ length g.moves) where
  cut_moves : length (take ply g.moves) ≡ ply
  cut_moves = take-length g.moves ply h

  next_ply : suc ply ≡ ply + 1
  next_ply = omega arith

  only : reindexed ply g ≡ record g {
    first_seen = (reindexed ply g).first_seen;
    first_seen_to_play = (reindexed ply g).first_seen_to_play;
  }
  only = unindex_only (length g.snapshots - 1 - ply) ply g

  cut_indexed : IsIndex (reindexed ply g).first_seen (take (ply + 1) g.snapshots)
  cut_indexed =
      subst (λ (k : ℕ). IsIndex (reindexed ply g).first_seen (take k g.snapshots)) next_ply
        (subst (λ (ks : List Key). IsIndex (reindexed ply g).first_seen (take (suc ply) ks))
          (ap (λ (t : Game). t.snapshots) only) ((reindexed-IndexedTo ply g v h).0))

  cut_indexed_to_play :
      IsIndex
        (reindexed ply g).first_seen_to_play
        (situations g.first_player (take (ply + 1) g.snapshots) (take ply g.moves))
  cut_indexed_to_play =
      let index = (reindexed ply g).first_seen_to_play in
      subst
        (λ (k : ℕ).
          IsIndex index (situations g.first_player (take k g.snapshots) (take ply g.moves)))
        next_ply
        (subst (IsIndex index) (sym (situations-take g.first_player g.snapshots g.moves ply)) (
          subst (λ (ks : List Situation). IsIndex index (take (suc ply) ks))
            (ap (λ (t : Game). situations t.first_player t.snapshots t.moves) only)
            ((reindexed-IndexedTo ply g v h).1)))

  -- After the truncation both indexes hold what a scan of the shorter line finds.
  pub truncate-IsValid : g.cursor ≤ ply → IsValid (truncate ply g)
  truncate-IsValid c = subst IsValid (sym (truncate_only ply g)) (record {
    few = omega (arith, cut_moves, v.few);
    snapshots_aligned = omega (
      arith,
      cut_moves,
      v.snapshots_aligned,
      take-length g.snapshots (ply + 1) (omega (arith, v.snapshots_aligned)),
    );
    prisoners_aligned = omega (
      arith,
      cut_moves,
      v.prisoners_aligned,
      take-length g.prisoners (ply + 1) (omega (arith, v.prisoners_aligned)),
    );
    cursor_le = omega (arith, cut_moves);
    indexed = cut_indexed;
    indexed_to_play = cut_indexed_to_play;
  })
