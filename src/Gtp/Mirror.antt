-- ===== src/Gtp/Mirror.antt =====
-- What the commands do to the board of an engine, and the mirror that the client keeps of it.
use gowui.Base.{
  ◌≡◌, ap, ◌∙◌, ◌⊎◌, inl, inr, true, false, List, [], ◌∷◌, ◌++◌, Option, none, Text, codes,
}
use gowui.Gtp.{Client, Setting, World, GtpError, return}
use gowui.Gtp.Exchange.{command}
use gowui.Gtp.Outcome.{Post, map-Post, continue-Post}
use gowui.Gtp.Framing.{Speaks, After, After-map, IsIdle, Done, Kept, command-Post}
use gowui.Gtp.Sync.{Played, play_line, run, drop_last}

-- The board as a GTP engine describes it: the size and komi as they were set, and what was played
-- since the board was cleared.
pub record Goban : Type 0 where
  pub size : Text
  pub komi : Text
  pub plays : List Played

-- The commands that change the board.
pub data Order : Type 0 where
  boardsize : Text → Order
  clear_board : Order
  komi : Text → Order
  play : Played → Order
  undo : Order
  kata_set_rules : Text → Order

abbrev pub line : Order → Text
line (boardsize t) = codes "boardsize " ++ t
line clear_board = codes "clear_board"
line (komi t) = codes "komi " ++ t
line (play m) = play_line m
line undo = codes "undo"
line (kata_set_rules t) = codes "kata-set-rules " ++ t

unfoldable pub effect : Order → Goban → Goban
effect (boardsize t) g = record g { size = t; plays = [] }
effect clear_board g = record g { plays = [] }
effect (komi t) g = record g { komi = t }
effect (play m) g = record g { plays = g.plays ++ m ∷ [] }
effect undo g = record g { plays = drop_last g.plays }
effect (kata_set_rules t) g = g

abbrev pub IsColor : Text → Type 0
IsColor c = (c ≡ codes "B") ⊎ (c ≡ codes "W")

abbrev pub IsPlayable : Played → Type 0
IsPlayable (c, v) = IsColor c

abbrev pub IsLegible : Order → Type 0
IsLegible (play m) = IsPlayable m
IsLegible _ = Unit

-- An order that the engine accepts has its effect, and one that it refuses has none.
pub record Obeys {E : Type 0} {w : World E} (o : Speaks w) : Type 0 where
  pub goban : E → Goban
  pub accepts :
      (e : E) (x : Order)
      → IsLegible x
      → (o.obey e (line x)).1.accepted ≡ true
      → goban (o.obey e (line x)).0 ≡ effect x (goban e)
  pub refuses :
      (e : E) (x : Order)
      → IsLegible x
      → (o.obey e (line x)).1.accepted ≡ false
      → goban (o.obey e (line x)).0 ≡ goban e

module _ {E D : Type 0} {w : World E} {o : Speaks w} (b : Obeys o) where
  -- The client's mirror is as given, and the engine's board, if the connection is alive.
  pub record Stands (s : Option Setting) (ms : List Played) (g : Goban) (c : Client E D)
      : Type 0 where
    pub idle : IsIdle c
    pub state_is : c.state ≡ s
    pub moves_are : c.moves ≡ ms
    pub goban_is : c.health.failure ≡ none → b.goban c.engine ≡ g

  abbrev pub Idle : GtpError → Client E D → Type 0
  Idle x c = IsIdle c

  After-IsIdle : (P : E → Type 0) (c d : Client E D) → After P c d → IsIdle d
  After-IsIdle P c d a = record { no_stream = a.same.no_stream; no_lines = λ n. (a.live n).0 }

  After-Stands :
      (s : Option Setting) (ms : List Played) (g : Goban) (c d : Client E D) (f : Goban → Goban)
      → Stands s ms g c
      → After (λ e. b.goban e ≡ f (b.goban c.engine)) c d
      → Stands s ms (f g) d
  After-Stands s ms g c d f st a = record {
    idle = After-IsIdle _ c d a;
    state_is = a.same.same_state ∙ st.state_is;
    moves_are = a.same.same_moves ∙ st.moves_are;
    goban_is = λ n. (a.live n).1 ∙ ap f (st.goban_is (a.same.alive n));
  }

  pub command-Stands :
      (x : Order) (s : Option Setting) (ms : List Played) (g : Goban) (c : Client E D)
      → IsLegible x
      → Stands s ms g c
      → Post (λ t d. Stands s ms (effect x g) d) (λ e d. Stands s ms g d) (command w (line x) c)
  command-Stands x s ms g c l st =
      map-Post (λ t d. After (Done o c.engine (line x) true) c d)
        (λ t d. Stands s ms (effect x g) d) (λ y d. After (Kept o c.engine (line x)) c d)
        (λ y d. Stands s ms g d) (command w (line x) c) (command-Post w o (line x) c st.idle)
        (λ t d a.
          After-Stands s ms g c d (effect x) st
            (After-map (Done o c.engine (line x) true) _ c d (λ e h. done e h.0 h.1) a))
        (λ y d a.
          After-Stands s ms g c d (λ g. g) st
            (After-map (Kept o c.engine (line x)) _ c d (λ e h. kept e h) a))
    where
      done :
          (e : E)
          → e ≡ (o.obey c.engine (line x)).0
          → (o.obey c.engine (line x)).1.accepted ≡ true
          → b.goban e ≡ effect x (b.goban c.engine)
      done e h y = ap b.goban h ∙ b.accepts c.engine x l y

      kept : (e : E) → Kept o c.engine (line x) e → b.goban e ≡ b.goban c.engine
      kept e (inl h) = ap b.goban h
      kept e (inr (h, n)) = ap b.goban h ∙ b.refuses c.engine x l n

  pub run-Post :
      (x : Order) (s : Option Setting) (ms : List Played) (g : Goban) (c : Client E D)
      → IsLegible x
      → Stands s ms g c
      → Post (λ u d. Stands s ms (effect x g) d) Idle (run w (line x) c)
  run-Post x s ms g c l st =
      continue-Post (λ t d. Stands s ms (effect x g) d) (λ u d. Stands s ms (effect x g) d) Idle
        (λ t. return tt) (command w (line x) c)
        (map-Post _ _ _ _ (command w (line x) c) (command-Stands x s ms g c l st) (λ t d h. h)
          (λ y d h. h.idle))
        (λ t d h. record { holds = h })
