-- ===== src/Session/Moves.antt =====
-- gowui/session.py: moves that an engine makes. `begin_move` is `_engine_move` up to the wait for the
-- engine and `settle_move` is the rest, on the session as it is when the answer comes.
use gowui.Base.{
  ℕ, Bool, true, false, not, ◌&&◌, ◌||◌, [], ◌∷◌, Option, none, some, ltb, ◌==◌, if◌then◌else◌,
  Text, codes, equal, Result, ok, err, or_raise, raise_if, ◌>>=◌, ◌>>◌, one_of, text_eq,
}
use gowui.Coords.{from_gtp}
use gowui.Game.{Game, to_play, max_moves, play_move, resign, branch}
use gowui.Values.{Object, get}
use gowui.Session.{
  Slot, Session, EngineRef, Refusal, no_engine, no_genmove, not_the_turn, full_game,
  already_running, internal, illegal_move, analysis_frame, error_frame, plays_engine, find_slot,
  active_slot, on_slot, emit, emit_state, set_status, position_changed, request_analysis,
  engine_should_move,
}
use gowui.Session.Read.{color_of}
use gowui.Session.Commands.{with_game}

-- What is asked: which engine, the token, and whom it is to move for.
pub record Ask : Type 0 where
  pub engine : ℕ
  pub board : ℕ
  pub version : ℕ
  pub epoch : ℕ
  pub players_epoch : ℕ
  pub mover : ℕ
  pub explicit : Bool

-- What comes back: a vertex, or a failure, which may be the loss of the connection.
pub data Reply : Type 0 where
  vertex : Text → Reply
  failed_with : Refusal → Reply
  connection_lost : Reply

pub data Outcome : Type 0 where
  played stale failed : Outcome

abbrev pub is_engine : ℕ → Option EngineRef → Bool
is_engine n none = false
is_engine n (some e) = e.serial == n

-- `color != game.to_play`, of a color that is given.
abbrev pub wrong_turn : Option ℕ → ℕ → Bool
wrong_turn none n = false
wrong_turn (some c) n = not (c == n)

abbrev pub can_generate : EngineRef → Bool
can_generate e = e.supports_genmove

pub data Begun (A Q : Type 0) : Type 0 where
  asked : Ask → Session A Q → Begun A Q
  not_asked : Outcome → Session A Q → Begun A Q

-- An answer that the game refuses.
abbrev pub refused_as {ℓ} : {E : Type 0} {A : Type ℓ} → Result E A → Result Refusal A
refused_as (ok a) = ok a
refused_as (err e) = err illegal_move

abbrev pub move_to : ℕ → Text → Game → Result Refusal Game
move_to mover v g = do
  point ← refused_as (from_gtp v g.size)
  refused_as (play_move g mover point [])

-- The game after the engine's answer: a move, or a resignation, which ends the game on the board.
unfoldable pub answer_move : ℕ → Text → Game → Result Refusal Game
answer_move mover v g =
    if equal v (codes "resign") then refused_as (resign mover (branch g)) else move_to mover v g

module _ {A Q : Type 0} where
  abbrev pub ask_of : Bool → EngineRef → Slot A → Session A Q → Ask
  ask_of explicit e b s = record {
    engine = e.serial;
    board = b.id;
    version = b.version;
    epoch = s.epoch;
    players_epoch = s.players_epoch;
    mover = to_play b.game;
    explicit = explicit;
  }

  abbrev pub begin_on : Bool → Option ℕ → EngineRef → Slot A → Session A Q → Begun A Q
  begin_on explicit color e b s =
      if not explicit && (s.auto_halted || not (engine_should_move s))
      then not_asked stale s
      else if wrong_turn color (to_play b.game)
      then not_asked failed (emit (error_frame not_the_turn) s)
      else asked (ask_of explicit e b s) (emit_state (record s { thinking = true }))

  abbrev pub begin_with :
      Bool → Option ℕ → Option EngineRef → Option (Slot A) → Session A Q → Begun A Q
  begin_with explicit color (some e) (some b) s =
      if s.closed then not_asked failed s else begin_on explicit color e b s
  begin_with explicit color _ _ s = not_asked failed s

  unfoldable pub begin_move : Bool → Option ℕ → Session A Q → Begun A Q
  begin_move explicit color s = begin_with explicit color s.engine (active_slot s) s

  -- The board that was asked about is as it was asked about.
  unfoldable pub is_current : Ask → Slot A → Session A Q → Bool
  is_current a b s =
      b.id == s.active_board
      && (b.version == a.version
          && (s.epoch == a.epoch
              && (a.explicit
                  || (s.players_epoch == a.players_epoch && plays_engine a.mover s.play_settings))))

  abbrev pub if_current : Ask → Session A Q → Option (Slot A) → Option (Slot A)
  if_current a s none = none
  if_current a s (some b) = if is_current a b s then some b else none

  unfoldable pub current_board : Ask → Session A Q → Option (Slot A)
  current_board a s = if_current a s (find_slot a.board s.boards)

  abbrev pub after_failure : Session A Q → Outcome × Session A Q
  after_failure s = (failed, request_analysis (emit_state s))

  abbrev pub play_answer : Slot A → Result Refusal Game → Session A Q → Outcome × Session A Q
  play_answer b (ok g) s = (played, position_changed b.id false (on_slot b.id (with_game g) s))
  play_answer b (err r) s = after_failure (emit (error_frame r) s)

  abbrev pub settle_on : Ask → Text → Option (Slot A) → Session A Q → Outcome × Session A Q
  settle_on a v none s = (stale, request_analysis (emit_state (set_status s)))
  settle_on a v (some b) s = play_answer b (answer_move a.mover v b.game) s

  abbrev pub settle_reply : Ask → Reply → Session A Q → Outcome × Session A Q
  settle_reply a (vertex v) s = settle_on a v (current_board a s) s
  settle_reply a (failed_with r) s = after_failure (emit (error_frame r) s)
  settle_reply a connection_lost s = after_failure s

  unfoldable pub settle_move : Ask → Reply → Session A Q → Outcome × Session A Q
  settle_move a r s =
      let t : Session A Q = record s { thinking = false } in
      if is_engine a.engine s.engine then settle_reply a r t else (stale, emit_state t)

  -- `_msg_genmove`, up to the task that runs the move.
  unfoldable pub msg_genmove : Object → Session A Q → Result Refusal (Session A Q)
  msg_genmove m s = do
    color ← color_of (get (codes "color") m)
    e ← or_raise s.engine no_engine
    raise_if (not (can_generate e)) no_genmove
    b ← or_raise (active_slot s) internal
    raise_if (wrong_turn color (to_play b.game)) not_the_turn
    raise_if (not (ltb b.game.cursor max_moves)) full_game
    raise_if (one_of (codes "genmove") s.pending) already_running
    ok (record s { pending = codes "genmove" ∷ s.pending })

  -- The consumer of reports that `_analysis_sink` makes for a board, a version and an engine.
  unfoldable pub take_report : ℕ → ℕ → ℕ → A → Session A Q → Session A Q
  take_report i version engine a s = elim (find_slot i s.boards) [
    | none ↦ s
    | some b ↦
        if not (b.version == version)
          || (not (is_engine engine s.engine) || (not s.play_settings.analysis_enabled || s.closed))
        then s
        else let t =
            on_slot i
              (λ (c : Slot A). record c { last_analysis = some a; analysis_version = some version })
              s in
          if i == s.active_board then emit (analysis_frame i a) t else t
  ]
