-- ===== src/Gtp/Liveness.antt =====
-- `sync` with an engine that grants what it is asked.
use gowui.Base.{
  ℕ, zero, suc, ◌+◌, ◌-◌, ◌≤◌, ◌<◌, ◌≡◌, refl, not, ◌&&◌, List, [], ◌∷◌, ◌++◌, leb, ◌==◌, length,
  Text, codes, All, arith,
}
use gowui.Coords.{decimal}
use gowui.Types.{Position}
use gowui.Engines.{is_refused, has_surrogate}
use gowui.Gtp.{Client, World, return, change, ◌>>◌}
use gowui.Gtp.Exchange.{command}
use gowui.Gtp.Outcome.{Post, map-Post, continue-Post, if-Post, handle-Post}
use gowui.Gtp.Framing.{Speaks}
use gowui.Gtp.Digits.{limit}
use gowui.Gtp.Mirror.{Order, boardsize, clear_board, komi, play, undo, kata_set_rules, line}
use gowui.Gtp.Prefixes.{All-drop, length-drop}
use gowui.Gtp.Progress.{
  IsClean, IsClean-append, literal-IsClean, decimal-IsClean, Never, Ready, granted, command-Ready,
}
use gowui.Gtp.Sync.{
  Played, play_line, run, play_stones, play_moves, undo_moves, reset, rewind, sync, set_rules,
  unless_rejected, start_mirror, play_rest, supports, invalidate_mirror, drop, drop_last,
  common_prefix, on_setting, forgetting,
}

-- The engine accepts every command that changes the board, with an empty reply.
abbrev pub Grants : {E : Type 0} {w : World E} → Speaks w → Type 0
Grants {E} o = (e : E) (x : Order) → (o.obey e (line x)).1 ≡ granted

abbrev pub IsCleanPlay : Played → Type 0
IsCleanPlay (c, v) = IsClean c × IsClean v

play_line-IsClean : (m : Played) → IsCleanPlay m → IsClean (play_line m)
unfolding is_refused has_surrogate
play_line-IsClean (c, v) (h, k) =
    IsClean-append (codes "play " ++ c ++ codes " ") v
      (IsClean-append (codes "play " ++ c) (codes " ")
        (IsClean-append (codes "play ") c (literal-IsClean (codes "play ") refl refl) h)
        (literal-IsClean (codes " ") refl refl))
      k

grow : {E D : Type 0} (n m : ℕ) (c : Client E D) → n ≤ m → Ready n c → Ready m c
grow n m c h r = record {
  idle = r.idle;
  empty = r.empty;
  alive = r.alive;
  numbers = omega (arith, r.numbers);
}

-- What the position and the world put into the lines of `sync`.
pub record IsSendable {E : Type 0} (w : World E) (p : Position) : Type 0 where
  pub komi_clean : IsClean (w.show_komi p.komi)
  pub rules_clean : IsClean p.rules
  pub stones_clean : All IsCleanPlay p.initial_stones
  pub moves_clean : All IsCleanPlay p.moves

module _ {E D : Type 0} {w : World E} (o : Speaks w) (g : Grants o) where
  run-Ready :
      (x : Order) (n : ℕ) (c : Client E D)
      → IsClean (line x)
      → n < limit 17
      → Ready n c
      → Post (λ u d. Ready (suc n) d) Never (run w (line x) c)
  run-Ready x n c l b r =
      continue-Post (λ t d. Ready (suc n) d) (λ u d. Ready (suc n) d) Never (λ t. return tt)
        (command w (line x) c) (command-Ready o (line x) n c l b (g c.engine x) r)
        (λ t d h. record { holds = h })

  -- A command, and what is done with its success.
  run_then :
      (x : Order) (n : ℕ) (f : Client E D → Client E D) (c : Client E D)
      → IsClean (line x)
      → n < limit 17
      → ((d : Client E D) → Ready (suc n) d → Ready (suc n) (f d))
      → Ready n c
      → Post (λ u d. Ready (suc n) d) Never ((run w (line x) >> change f) c)
  run_then x n f c l b k r =
      continue-Post (λ u d. Ready (suc n) d) (λ u d. Ready (suc n) d) Never (λ u. change f)
        (run w (line x) c) (run-Ready x n c l b r) (λ u d h. record { holds = k d h })

  play_stones-Ready :
      (ss : List Played) (n : ℕ) (c : Client E D)
      → All IsCleanPlay ss
      → n + length ss ≤ limit 17
      → Ready n c
      → Post (λ u d. Ready (n + length ss) d) Never (play_stones w ss c)
  unfolding play_stones
  play_stones-Ready [] n c l b r = record { holds = grow n (n + 0) c (omega arith) r }
  play_stones-Ready (s ∷ ss) n c l b r =
      continue-Post (λ u d. Ready (suc n) d) (λ u d. Ready (n + suc (length ss)) d) Never
        (λ u. play_stones w ss) (run w (play_line s) c)
        (run-Ready (play s) n c (play_line-IsClean s (l.0)) (omega arith) r)
        (λ u d h.
          map-Post (λ u d. Ready (suc n + length ss) d) _ Never Never _
            (play_stones-Ready ss (suc n) d (l.1) (omega arith) h)
            (λ u e k. grow (suc n + length ss) (n + suc (length ss)) e (omega arith) k)
            (λ y e k. k))

  play_moves-Ready :
      (ms : List Played) (n : ℕ) (c : Client E D)
      → All IsCleanPlay ms
      → n + length ms ≤ limit 17
      → Ready n c
      → Post (λ u d. Ready (n + length ms) d) Never (play_moves w ms c)
  unfolding play_moves
  play_moves-Ready [] n c l b r = record { holds = grow n (n + 0) c (omega arith) r }
  play_moves-Ready (m ∷ ms) n c l b r =
      continue-Post (λ u d. Ready (suc n) d) (λ u d. Ready (n + suc (length ms)) d) Never
        (λ u. play_moves w ms) _
        (run_then (play m) n (λ c. record c { moves = c.moves ++ m ∷ [] }) c
          (play_line-IsClean m (l.0)) (omega arith)
          (λ d r. record { idle = r.idle; empty = r.empty; alive = r.alive; numbers = r.numbers })
          r)
        (λ u d h.
          map-Post (λ u d. Ready (suc n + length ms) d) _ Never Never _
            (play_moves-Ready ms (suc n) d (l.1) (omega arith) h)
            (λ u e k. grow (suc n + length ms) (n + suc (length ms)) e (omega arith) k)
            (λ y e k. k))

  undo_moves-Ready :
      (j n : ℕ) (c : Client E D)
      → n + j ≤ limit 17
      → Ready n c
      → Post (λ u d. Ready (n + j) d) Never (undo_moves w j c)
  unfolding undo_moves is_refused has_surrogate
  undo_moves-Ready zero n c b r = record { holds = grow n (n + 0) c (omega arith) r }
  undo_moves-Ready (suc j) n c b r =
      continue-Post (λ u d. Ready (suc n) d) (λ u d. Ready (n + suc j) d) Never
        (λ u. undo_moves w j) _
        (run_then undo n (λ c. record c { moves = drop_last c.moves }) c
          (literal-IsClean (codes "undo") refl refl) (omega arith)
          (λ d r. record { idle = r.idle; empty = r.empty; alive = r.alive; numbers = r.numbers })
          r)
        (λ u d h.
          map-Post (λ u d. Ready (suc n + j) d) _ Never Never _
            (undo_moves-Ready j (suc n) d (omega arith) h)
            (λ u e k. grow (suc n + j) (n + suc j) e (omega arith) k) (λ y e k. k))

  set_rules-Ready :
      (rules : Text) (n : ℕ) (c : Client E D)
      → IsClean rules
      → n < limit 17
      → Ready n c
      → Post (λ u d. Ready (suc n) d) Never (set_rules w rules c)
  unfolding is_refused has_surrogate
  set_rules-Ready rules n c l b r =
      if-Post (λ u d. Ready (suc n) d) Never (supports (codes "kata-set-rules") c) _ _
        (λ y.
          handle-Post (λ t d. Ready (suc n) d) Never (λ u d. Ready (suc n) d) Never (λ t. return tt)
            unless_rejected (command w (line (kata_set_rules rules)) c)
            (command-Ready o (line (kata_set_rules rules)) n c
              (IsClean-append (codes "kata-set-rules ") rules
                (literal-IsClean (codes "kata-set-rules ") refl refl) l)
              b (g c.engine (kata_set_rules rules)) r)
            (λ t d h. record { holds = h }) (λ y d h. absurd h))
        (λ y. record { holds = grow n (suc n) c (omega arith) r })

  reset-Ready :
      (p : Position) (n : ℕ) (c : Client E D)
      → IsSendable w p
      → n + 4 + length p.initial_stones ≤ limit 17
      → Ready n c
      → Post (λ u d. Ready (n + 4 + length p.initial_stones) d) Never (reset w p c)
  unfolding reset is_refused has_surrogate
  reset-Ready p n c s b r =
      let At : ℕ → Unit {0} → Client E D → Type 0 = λ n u d. Ready n d in
      continue-Post (At (n + 4 + length p.initial_stones)) _ Never (λ u. change (start_mirror p)) _
        (continue-Post (At (n + 4)) (At (n + 4 + length p.initial_stones)) Never _ _
          (continue-Post (At (n + 3)) (At (n + 4)) Never _ _
            (continue-Post (At (n + 2)) (At (n + 3)) Never _ _
              (continue-Post (At (n + 1)) (At (n + 2)) Never _ _
                (step (boardsize (decimal p.size)) n (n + 1) (invalidate_mirror c)
                  (IsClean-append (codes "boardsize ") (decimal p.size)
                    (literal-IsClean (codes "boardsize ") refl refl) (decimal-IsClean p.size))
                  (omega arith) (omega arith)
                  (record { idle = r.idle; empty = r.empty; alive = r.alive; numbers = r.numbers }))
                (λ u d h.
                  step clear_board (n + 1) (n + 2) d
                    (literal-IsClean (codes "clear_board") refl refl) (omega arith) (omega arith)
                    h))
              (λ u d h.
                step (komi (w.show_komi p.komi)) (n + 2) (n + 3) d
                  (IsClean-append (codes "komi ") (w.show_komi p.komi)
                    (literal-IsClean (codes "komi ") refl refl) s.komi_clean)
                  (omega arith) (omega arith) h))
            (λ u d h.
              map-Post (At (suc (n + 3))) (At (n + 4)) Never Never _
                (set_rules-Ready p.rules (n + 3) d s.rules_clean (omega arith) h)
                (λ u e k. grow (suc (n + 3)) (n + 4) e (omega arith) k) (λ y e k. k)))
          (λ u d h. play_stones-Ready p.initial_stones (n + 4) d s.stones_clean b h))
        (λ u d h. record {
          holds = record { idle = h.idle; empty = h.empty; alive = h.alive; numbers = h.numbers };
        })
    where
      step :
          (x : Order) (n m : ℕ) (c : Client E D)
          → IsClean (line x)
          → n < limit 17
          → suc n ≤ m
          → Ready n c
          → Post (λ u d. Ready m d) Never (run w (line x) c)
      step x n m c l b e r =
          map-Post (λ u d. Ready (suc n) d) (λ u d. Ready m d) Never Never (run w (line x) c)
            (run-Ready x n c l b r) (λ u d h. grow (suc n) m d e h) (λ y d h. h)

  rewind-Ready :
      (p : Position) (n : ℕ) (c : Client E D)
      → IsSendable w p
      → n + 4 + length p.initial_stones ≤ limit 17
      → Ready n c
      → Post (λ u d. Ready (n + 4 + length p.initial_stones) d) Never (rewind w p c)
  unfolding rewind
  rewind-Ready p n c s b r =
      let m = n + 4 + length p.initial_stones in
      let Q : Unit {0} → Client E D → Type 0 = λ u d. Ready m d in
      if-Post Q Never (not (on_setting w p c.state)) _ _ (λ y. reset-Ready p n c s b r)
        (λ y.
          if-Post Q Never (length c.moves - common_prefix c.moves p.moves == 0) _ _
            (λ z. record { holds = grow n m c (omega arith) r })
            (λ z.
              if-Post Q Never
                (leb (length c.moves - common_prefix c.moves p.moves) 3
                  && supports (codes "undo") c)
                _ _
                (λ t.
                  let few : length c.moves - common_prefix c.moves p.moves ≤ 3 =
                    ground (arith, t) in
                  map-Post (λ u d. Ready (n + (length c.moves - common_prefix c.moves p.moves)) d) Q
                    Never Never _
                    (undo_moves-Ready (length c.moves - common_prefix c.moves p.moves) n c
                      (omega arith) r)
                    (λ u e k. grow _ m e (omega arith) k) (λ y e k. k))
                (λ t. reset-Ready p n c s b r)))

  -- With an engine that grants every command that changes the board, on a living connection with
  -- nothing left over, a position whose texts can stand in a line, and numbers of eighteen digits
  -- left for all the commands: `sync` returns.
  pub sync-Ready :
      (p : Position) (n : ℕ) (c : Client E D)
      → IsSendable w p
      → n + 4 + length p.initial_stones + length p.moves ≤ limit 17
      → Ready n c
      → Post (λ u d. Ready (n + 4 + length p.initial_stones + length p.moves) d) Never (sync w p c)
  unfolding sync
  sync-Ready p n c s b r =
      let m = n + 4 + length p.initial_stones in
      let Q : Unit {0} → Client E D → Type 0 = λ u d. Ready (m + length p.moves) d in
      handle-Post Q Never Q Never return forgetting _
        (continue-Post (λ u d. Ready m d) Q Never (λ u. play_rest w p) (rewind w p c)
          (rewind-Ready p n c s (omega arith) r)
          (λ u d h.
            let k = length d.moves in
            map-Post (λ u d. Ready (m + length (drop k p.moves)) d) Q Never Never _
              (play_moves-Ready (drop k p.moves) m d (All-drop IsCleanPlay k p.moves s.moves_clean)
                (omega (arith, b, length-drop k p.moves)) h)
              (λ u e i. grow _ (m + length p.moves) e (omega (arith, length-drop k p.moves)) i)
              (λ y e i. i)))
        (λ u d h. record { holds = h }) (λ y d h. absurd h)
