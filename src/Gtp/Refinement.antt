-- ===== src/Gtp/Refinement.antt =====
-- The client's mirror against the engine's board: `sync` brings the board to the position.
use gowui.Base.{
  ◌-◌, ◌≡◌, refl, sym, ap, ◌∙◌, subst, true, not, List, [], ◌++◌, append-nil, Option, none, some,
  ◌==◌, length, take, Text, codes, All, arith,
}
use gowui.Coords.{decimal}
use gowui.Game.{Float}
use gowui.Types.{Position}
use gowui.Gtp.{Client, Setting, World, GtpError, rejected, change, return}
use gowui.Gtp.Exchange.{command}
use gowui.Gtp.Outcome.{Post, map-Post, continue-Post, if-Post, handle-Post}
use gowui.Gtp.Framing.{Speaks, IsIdle}
use gowui.Gtp.Mirror.{
  Goban, boardsize, clear_board, komi, kata_set_rules, line, effect, IsPlayable, Obeys, Stands,
  Idle, run-Post, command-Stands,
}
use gowui.Gtp.Rewound.{
  goban_of, played_on, Mirroring, play_stones-Post, play_moves-Post, undo_moves-Post,
}
use gowui.Gtp.Prefixes.{
  same_stones_eq, common_prefix-take, take-drop, length-drop, drop-append, take_all, All-rest,
}
use gowui.Gtp.Sync.{
  Played, play_moves, undo_moves, reset, rewind, sync, set_rules, start_mirror, play_rest,
  unless_rejected, setting_of, supports, invalidate_mirror, drop, common_prefix, same_setting,
  on_setting, forgetting,
}

-- Equal floats are written alike.
abbrev pub ShowsSame : {E : Type 0} → World E → Type 0
ShowsSame w = (x y : Float) → w.same_komi x y ≡ true → w.show_komi x ≡ w.show_komi y

module _ {E : Type 0} (w : World E) where
  on_setting-some :
      (p : Position) (s : Option Setting)
      → on_setting w p s ≡ true
      → (k : Setting) × (s ≡ some k) × (same_setting w k (setting_of p) ≡ true)
  on_setting-some p none h = absurd (cc)
  on_setting-some p (some k) h = (k, refl, h)

  same_setting-goban :
      ShowsSame w
      → (k l : Setting) (ms : List Played) → same_setting w k l ≡ true
      → goban_of w k ms ≡ goban_of w l ms
  unfolding same_setting
  same_setting-goban shows k l ms h =
      ground (arith, h, shows k.komi l.komi, same_stones_eq k.stones l.stones)

module _ {E D : Type 0} {w : World E} {o : Speaks w} (b : Obeys o) where
  -- The mirror tells the truth about the engine's board, as long as the connection lives.
  pub record IsMirrored (c : Client E D) : Type 0 where
    pub idle : IsIdle c
    pub goban_is :
        (k : Setting)
        → c.state ≡ some k
        → c.health.failure ≡ none
        → b.goban c.engine ≡ goban_of w k c.moves

  unset : (c : Client E D) → IsIdle c → Stands b none [] (b.goban c.engine) (invalidate_mirror c)
  unset c i = record {
    idle = record { no_stream = i.no_stream; no_lines = i.no_lines };
    state_is = refl;
    moves_are = refl;
    goban_is = λ n. refl;
  }

  unheeded :
      (s : Option Setting) (ms : List Played) (g : Goban) (e : GtpError) (c : Client E D)
      → Stands b s ms g c
      → Post (λ u d. Stands b s ms g d) (Idle b) (unless_rejected e c)
  unheeded s ms g (rejected t) c h = record { holds = h }
  unheeded s ms g _ c h = record { holds = h.idle }

  set_rules-Post :
      (rules : Text) (s : Option Setting) (ms : List Played) (g : Goban) (c : Client E D)
      → Stands b s ms g c
      → Post (λ u d. Stands b s ms g d) (Idle b) (set_rules w rules c)
  unfolding effect
  set_rules-Post rules s ms g c st =
      if-Post (λ u d. Stands b s ms g d) (Idle b) (supports (codes "kata-set-rules") c) _ _
        (λ y.
          handle-Post (λ t d. Stands b s ms g d) (λ e d. Stands b s ms g d)
            (λ u d. Stands b s ms g d) (Idle b) (λ t. return tt) unless_rejected
            (command w (line (kata_set_rules rules)) c)
            (command-Stands b (kata_set_rules rules) s ms g c tt st) (λ t d h. record { holds = h })
            (unheeded s ms g))
        (λ y. record { holds = st })

  anew :
      (p : Position) (g : Goban) (d : Client E D)
      → Stands b none []
          (played_on
            (effect
              (komi (w.show_komi p.komi))
              (effect clear_board (effect (boardsize (decimal p.size)) g)))
            p.initial_stones)
          d
      → Mirroring b (setting_of p) [] (record d { state = some (setting_of p); moves = [] })
  unfolding effect setting_of
  anew p g d h = record {
    idle = record { no_stream = h.idle.no_stream; no_lines = h.idle.no_lines };
    state_is = refl;
    moves_are = refl;
    goban_is = λ n.
        h.goban_is n
        ∙ ap (λ ps. record (goban_of w (setting_of p) []) { plays = ps })
            (sym (append-nil p.initial_stones));
  }

  reset-Post :
      (p : Position) (c : Client E D)
      → All IsPlayable p.initial_stones
      → IsIdle c
      → Post (λ u d. Mirroring b (setting_of p) [] d) (Idle b) (reset w p c)
  unfolding reset
  reset-Post p c l i =
      let g0 = b.goban c.engine in
      let g1 = effect (boardsize (decimal p.size)) g0 in
      let g2 = effect clear_board g1 in
      let g3 = effect (komi (w.show_komi p.komi)) g2 in
      let At : Goban → Unit {0} → Client E D → Type 0 = λ g u d. Stands b none [] g d in
      continue-Post (At (played_on g3 p.initial_stones)) _ (Idle b) (λ u. change (start_mirror p)) _
        (continue-Post (At g3) (At (played_on g3 p.initial_stones)) (Idle b) _ _
          (continue-Post (At g3) (At g3) (Idle b) _ _
            (continue-Post (At g2) (At g3) (Idle b) _ _
              (continue-Post (At g1) (At g2) (Idle b) _ _
                (run-Post b (boardsize (decimal p.size)) none [] g0 (invalidate_mirror c) tt
                  (unset c i))
                (λ u d h. run-Post b clear_board none [] g1 d tt h))
              (λ u d h. run-Post b (komi (w.show_komi p.komi)) none [] g2 d tt h))
            (λ u d h. set_rules-Post p.rules none [] g3 d h))
          (λ u d h. play_stones-Post b p.initial_stones none [] g3 d l h))
        (λ u d h. record { holds = anew p g0 d h })

  -- The mirror's setting is the position's, and its moves are the position's first ones.
  record Rewound (p : Position) (c : Client E D) : Type 0 where
    pub setting : Setting
    pub same : (ms : List Played) → goban_of w setting ms ≡ goban_of w (setting_of p) ms
    pub first : List Played
    pub rest : List Played
    pub is_prefix : first ++ rest ≡ p.moves
    pub mirroring : Mirroring b setting first c

  reset-Rewound :
      (p : Position) (c : Client E D)
      → All IsPlayable p.initial_stones
      → IsIdle c
      → Post (λ u d. Rewound p d) (Idle b) (reset w p c)
  reset-Rewound p c l i =
      map-Post (λ u d. Mirroring b (setting_of p) [] d) (λ u d. Rewound p d) (Idle b) (Idle b)
        (reset w p c) (reset-Post p c l i)
        (λ u d h. record {
          setting = setting_of p;
          same = λ ms. refl;
          first = [];
          rest = p.moves;
          is_prefix = refl;
          mirroring = h;
        })
        (λ e d h. h)

  mirroring_of :
      (k : Setting) (c : Client E D) → IsMirrored c → c.state ≡ some k → Mirroring b k c.moves c
  mirroring_of k c m e = record {
    idle = m.idle;
    state_is = e;
    moves_are = refl;
    goban_is = m.goban_is k e;
  }

  undo_moves-Rewound :
      (p : Position) (k : Setting) (c : Client E D)
      → ((ms : List Played) → goban_of w k ms ≡ goban_of w (setting_of p) ms)
      → Mirroring b k c.moves c
      → Post
          (λ u d. Rewound p d)
          (Idle b)
          (undo_moves w (length c.moves - common_prefix c.moves p.moves) c)
  undo_moves-Rewound p k c s m =
      let n = common_prefix c.moves p.moves in
      let (rest, e) = common_prefix-take c.moves p.moves in
      map-Post (λ u d. Mirroring b k (take n c.moves) d) (λ u d. Rewound p d) (Idle b) (Idle b) _
        (undo_moves-Post b (length c.moves - n) k (take n c.moves) (drop n c.moves) c
          (length-drop n c.moves) (subst (λ ms. Mirroring b k ms c) (sym (take-drop n c.moves)) m))
        (λ u d h. record {
          setting = k;
          same = s;
          first = take n c.moves;
          rest = rest;
          is_prefix = e;
          mirroring = h;
        })
        (λ e d h. h)

  already-Rewound :
      (p : Position) (k : Setting) (c : Client E D)
      → ((ms : List Played) → goban_of w k ms ≡ goban_of w (setting_of p) ms)
      → Mirroring b k c.moves c
      → (length c.moves - common_prefix c.moves p.moves == 0) ≡ true
      → Rewound p c
  already-Rewound p k c s m z =
      let (rest, e) = common_prefix-take c.moves p.moves in
      record {
        setting = k;
        same = s;
        first = c.moves;
        rest = rest;
        is_prefix =
            ap (λ ms. ms ++ rest)
              (sym (take_all (common_prefix c.moves p.moves) c.moves (ground (arith, z))))
            ∙ e;
        mirroring = m;
      }

  rewind-Post :
      ShowsSame w
      → (p : Position) (c : Client E D) → All IsPlayable p.initial_stones
      → IsMirrored c
      → Post (λ u d. Rewound p d) (Idle b) (rewind w p c)
  unfolding rewind
  rewind-Post shows p c l m =
      let Q : Unit {0} → Client E D → Type 0 = λ u d. Rewound p d in
      if-Post Q (Idle b) (not (on_setting w p c.state)) _ _ (λ y. reset-Rewound p c l m.idle)
        (λ y.
          let (k, e, s) = on_setting-some w p c.state (ground (arith, y)) in
          let same : (ms : List Played) → goban_of w k ms ≡ goban_of w (setting_of p) ms =
            λ ms. same_setting-goban w shows k (setting_of p) ms s in
          let mirroring = mirroring_of k c m e in
          if-Post Q (Idle b) (length c.moves - common_prefix c.moves p.moves == 0) _ _
            (λ z. record { holds = already-Rewound p k c same mirroring z })
            (λ z.
              if-Post Q (Idle b) _ _ _ (λ t. undo_moves-Rewound p k c same mirroring)
                (λ t. reset-Rewound p c l m.idle)))

  -- What `sync` promises of the client that it leaves.
  pub record IsPosition (p : Position) (c : Client E D) : Type 0 where
    pub mirrored : IsMirrored c
    pub moves_are : c.moves ≡ p.moves
    pub goban_is : c.health.failure ≡ none → b.goban c.engine ≡ goban_of w (setting_of p) p.moves

  Mirroring-IsMirrored :
      (k : Setting) (ms : List Played) (c : Client E D) → Mirroring b k ms c → IsMirrored c
  Mirroring-IsMirrored k ms c h = record { idle = h.idle; goban_is = λ l e n. truth l e n }
    where
      truth :
          (l : Setting)
          → c.state ≡ some l
          → c.health.failure ≡ none
          → b.goban c.engine ≡ goban_of w l c.moves
      truth l e n =
          let same : k ≡ l = cc in
          h.goban_is n ∙ ap (λ k. goban_of w k ms) same ∙ ap (goban_of w l) (sym h.moves_are)

  play_rest-Post :
      (p : Position) (c : Client E D)
      → All IsPlayable p.moves
      → Rewound p c
      → Post (λ u d. IsPosition p d) (Idle b) (play_rest w p c)
  play_rest-Post p c l r =
      subst (λ xs. Post (λ u d. IsPosition p d) (Idle b) (play_moves w xs c)) rest_eq
        (map-Post (λ u d. Mirroring b r.setting (r.first ++ r.rest) d) (λ u d. IsPosition p d)
          (Idle b) (Idle b) _
          (play_moves-Post b r.rest r.setting r.first c
            (All-rest IsPlayable r.first r.rest (subst (All IsPlayable) (sym r.is_prefix) l))
            r.mirroring)
          (λ u d h. record {
            mirrored = Mirroring-IsMirrored r.setting (r.first ++ r.rest) d h;
            moves_are = h.moves_are ∙ r.is_prefix;
            goban_is = λ n.
                h.goban_is n
                ∙ r.same (r.first ++ r.rest)
                ∙ ap (goban_of w (setting_of p)) r.is_prefix;
          })
          (λ e d h. h))
    where
      rest_eq : r.rest ≡ drop (length c.moves) p.moves
      rest_eq =
          sym (drop-append r.first r.rest)
          ∙ ap (λ ms. drop (length r.first) ms) r.is_prefix
          ∙ ap (λ ms. drop (length ms) p.moves) (sym r.mirroring.moves_are)

  -- The client after a failed `sync`: nothing is believed of the engine's board.
  abbrev pub Forgotten : GtpError → Client E D → Type 0
  Forgotten e c = IsMirrored c × (c.state ≡ none)

  forget : (e : GtpError) (c : Client E D) → IsIdle c → Forgotten e (invalidate_mirror c)
  forget e c i = (
    record {
      idle = record { no_stream = i.no_stream; no_lines = i.no_lines };
      goban_is = λ k e n. absurd (cc);
    },
    refl,
  )

  -- With an engine that keeps the protocol, a client whose mirror is true, and a position whose
  -- stones and moves are of the colours B and W: when `sync` returns, the mirror's moves are the
  -- position's, and if the connection lives the engine's board has the position's size and komi
  -- and was played the position's stones and moves, in order; when it raises, the mirror is gone.
  -- Either way the mirror is true again.
  pub sync-IsPosition :
      ShowsSame w
      → (p : Position) (c : Client E D) → All IsPlayable p.initial_stones
      → All IsPlayable p.moves
      → IsMirrored c
      → Post (λ u d. IsPosition p d) Forgotten (sync w p c)
  unfolding sync
  sync-IsPosition shows p c l k m =
      handle-Post (λ u d. IsPosition p d) (Idle b) (λ u d. IsPosition p d) Forgotten return
        forgetting _
        (continue-Post (λ u d. Rewound p d) (λ u d. IsPosition p d) (Idle b) (λ u. play_rest w p)
          (rewind w p c) (rewind-Post shows p c l m) (λ u d r. play_rest-Post p d k r))
        (λ u d h. record { holds = h }) (λ e d i. record { holds = forget e d i })
