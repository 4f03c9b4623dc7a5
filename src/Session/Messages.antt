-- ===== src/Session/Messages.antt =====
-- gowui/session.py: what a message of a browser does. The messages that wait for an engine
-- (genmove, connect, disconnect, raw, final_score) are not among these kinds.
use gowui.Base.{
  List, [], ◌∷◌, Option, none, some, Text, codes, equal, Result, ok, err, if◌then◌else◌,
}
use gowui.Values.{Json, Object, get, object_of}
use gowui.Session.{Session, Refusal, not_a_message, unknown_type, error_frame, emit, emit_state}
use gowui.Session.Commands.{
  Outside, msg_play, msg_pass, msg_resign, msg_undo, msg_navigate, msg_new_game, msg_load_sgf,
  msg_analysis,
}
use gowui.Session.Settings.{msg_players, msg_engine_params, msg_human_params, msg_preferences}
use gowui.Session.Boards.{
  msg_board_select, msg_board_duplicate, msg_board_new, msg_board_move, msg_board_delete,
  msg_board_rename,
}

-- `_HANDLERS`, for the messages that need no answer of an engine.
pub data Kind : Type 0 where
  play pass resign undo navigate new_game analysis players engine_params human_params : Kind
  board_select board_delete board_duplicate board_new board_move board_rename : Kind
  preferences load_sgf state : Kind

abbrev kinds : List (Text × Kind)
kinds =
    (codes "play", play)
    ∷ (codes "pass", pass)
    ∷ (codes "resign", resign)
    ∷ (codes "undo", undo)
    ∷ (codes "navigate", navigate)
    ∷ (codes "new_game", new_game)
    ∷ (codes "analysis", analysis)
    ∷ (codes "players", players)
    ∷ (codes "engine_params", engine_params)
    ∷ (codes "human_params", human_params)
    ∷ (codes "board_select", board_select)
    ∷ (codes "board_delete", board_delete)
    ∷ (codes "board_duplicate", board_duplicate)
    ∷ (codes "board_new", board_new)
    ∷ (codes "board_move", board_move)
    ∷ (codes "board_rename", board_rename)
    ∷ (codes "preferences", preferences)
    ∷ (codes "load_sgf", load_sgf)
    ∷ (codes "state", state)
    ∷ []

unfoldable pub kind_named : Text → List (Text × Kind) → Option Kind
kind_named t [] = none
kind_named t ((name, k) ∷ ks) = if equal t name then some k else kind_named t ks

abbrev pub kind_of : Json → Option Kind
kind_of (Json.text t) = kind_named t kinds
kind_of _ = none

module _ {A Q : Type 0} where
  -- A refusal is answer_with and changes nothing.
  abbrev pub answer_with : Session A Q → Result Refusal (Session A Q) → Session A Q
  answer_with s (ok t) = t
  answer_with s (err r) = emit (error_frame r) s

module _ {A Q : Type 0} (outside : Outside Q) where
  unfoldable pub run : Kind → Object → Session A Q → Result Refusal (Session A Q)
  run play m s = msg_play m s
  run pass m s = msg_pass m s
  run resign m s = msg_resign m s
  run undo m s = msg_undo s
  run navigate m s = msg_navigate m s
  run new_game m s = msg_new_game outside.int_float m s
  run analysis m s = msg_analysis m s
  run players m s = msg_players outside m s
  run engine_params m s = msg_engine_params outside m s
  run human_params m s = msg_human_params outside m s
  run board_select m s = msg_board_select m s
  run board_delete m s = msg_board_delete m s
  run board_duplicate m s = msg_board_duplicate m s
  run board_new m s = msg_board_new s
  run board_move m s = msg_board_move m s
  run board_rename m s = msg_board_rename m s
  run preferences m s = msg_preferences outside m s
  run load_sgf m s = msg_load_sgf outside.read_float m s
  run state m s = ok (emit_state s)

  abbrev pub run_named : Option Kind → Object → Session A Q → Result Refusal (Session A Q)
  run_named none m s = err unknown_type
  run_named (some k) m s = run k m s

  abbrev pub received : Option Object → Session A Q → Result Refusal (Session A Q)
  received none s = err not_a_message
  received (some m) s = run_named (kind_of (get (codes "type") m)) m s

  -- `handle`.
  unfoldable pub handle : Json → Session A Q → Session A Q
  handle v s = if s.closed then s else answer_with s (received (object_of v) s)

  unfoldable pub handle_all : List Json → Session A Q → Session A Q
  handle_all [] s = s
  handle_all (m ∷ ms) s = handle_all ms (handle m s)
