-- ===== src/Session.antt =====
-- gowui/session.py: the state of a space's session. The wording of statuses, the traffic log and the
-- hiding of engine addresses in frames are left out. `A` is the analyses, `Q` the engine requests.
pub mod Read
pub mod Commands
pub mod Settings
pub mod Boards
pub mod Messages
pub mod Shapes
pub mod Held
pub mod Places
pub mod Orders
pub mod Finding
pub mod Standing
pub mod Moved
pub mod Safety
pub mod Moves
pub mod Versions
pub mod Current
use gowui.Base.{
  ℕ, zero, suc, ◌+◌, Bool, true, false, not, ◌&&◌, ◌||◌, List, [], ◌∷◌, ◌++◌, Option, none, some,
  ltb, ◌==◌, if◌then◌else◌, length, Text, codes, ℤ, pos, is_some,
}
use gowui.Board.{black, white}
use gowui.Game.{Game, Float, to_play, is_game_over, max_moves}
use gowui.Values.{Json, Object, object, end}
use gowui.Preferences.{Prefs}

abbrev pub max_boards : ℕ
max_boards = 64

abbrev pub max_attempts : ℕ
max_attempts = 2

-- `BoardSlot`; a board without an analysis has no version for it.
pub record Slot (A : Type 0) : Type 0 where
  pub id : ℕ
  pub name : Text
  pub game : Game
  pub profile : Text
  pub policy : Json
  pub compare : Option Json
  pub version : ℕ
  pub last_analysis : Option A
  pub analysis_version : Option ℕ

-- `engine_settings` and `play_settings`.
pub record EngineSettings : Type 0 where
  pub max_visits : ℕ
  pub report_interval : Float
  pub include_ownership : Bool
  pub eval_visits : ℕ

pub record PlaySettings : Type 0 where
  pub black_is_engine : Bool
  pub white_is_engine : Bool
  pub black_style : Text
  pub white_style : Text
  pub analysis_enabled : Bool

-- A client of an engine: which object it is, and what it supports.
pub record EngineRef : Type 0 where
  pub serial : ℕ
  pub supports_genmove : Bool
  pub supports_final_score : Bool
  pub supports_raw : Bool

-- `EngineTarget`, without the address.
pub record Target (Q : Type 0) : Type 0 where
  pub request_echo : Option Q
  pub console : Bool

-- What is refused, by the message that is answered.
pub data Refusal : Type 0 where
  not_a_message unknown_type bad_color bad_string bad_boolean bad_number bad_index : Refusal
  bad_vertex resign_vertex illegal_move bad_komi bad_rules bad_size bad_handicap bad_game : Refusal
  large_sgf bad_sgf bad_style bad_policies bad_profile bad_policy bad_compare : Refusal
  bad_preferences bad_id no_board many_boards bad_anchor after_itself : Refusal
  no_engine no_genmove not_the_turn full_game already_running no_console long_command : Refusal
  broken_command empty_command streaming_command no_score connecting_now closing_now : Refusal
  bad_request internal : Refusal

-- The frames that are sent; the content of a state is the session's at that time.
pub data Frame (A : Type 0) : Type 0 where
  state_frame : Frame A
  error_frame : Refusal → Frame A
  analysis_frame : ℕ → A → Frame A

pub record Session (A Q : Type 0) : Type 0 where
  pub boards : List (Slot A)
  pub active_board : ℕ
  pub next_board : ℕ
  -- The counter `_versions`, as far as this session goes.
  pub next_version : ℕ
  pub engine_settings : EngineSettings
  pub play_settings : PlaySettings
  pub preferences : Option Prefs
  pub engine : Option EngineRef
  pub target : Option (Target Q)
  pub request : Option Q
  pub shown_request : Option Q
  pub want_connected : Bool
  pub status_is_error : Bool
  pub thinking : Bool
  pub epoch : ℕ
  pub players_epoch : ℕ
  pub lifecycle : ℕ
  pub connecting : Option ℕ
  -- The generations of the connect attempts that run, and the engines that are being closed.
  pub attempts : List ℕ
  pub closing : List ℕ
  pub analysis_wanted : Bool
  pub pending : List Text
  pub auto_running : Bool
  pub auto_halted : Bool
  pub closed : Bool
  pub frames : List (Frame A)

abbrev same_version : ℕ → Option ℕ → Bool
same_version v none = false
same_version v (some w) = w == v

abbrev pub plays_engine : ℕ → PlaySettings → Bool
plays_engine color p = if color == black then p.black_is_engine else p.white_is_engine

abbrev can_move : Option EngineRef → Bool
can_move none = false
can_move (some e) = e.supports_genmove

module _ {A : Type 0} where
  -- `_slot`: the first board with the id.
  unfoldable pub find_slot : ℕ → List (Slot A) → Option (Slot A)
  find_slot i [] = none
  find_slot i (s ∷ ss) = if s.id == i then some s else find_slot i ss

  -- A write to the board that `find_slot` gives.
  unfoldable pub update_slot : ℕ → (Slot A → Slot A) → List (Slot A) → List (Slot A)
  update_slot i f [] = []
  update_slot i f (s ∷ ss) = if s.id == i then f s ∷ ss else s ∷ update_slot i f ss

  -- `current_analysis`.
  unfoldable pub current_analysis : Slot A → Option A
  current_analysis s = if same_version s.version s.analysis_version then s.last_analysis else none

  abbrev at_the_end : Option (Slot A) → PlaySettings → Bool
  at_the_end none p = false
  at_the_end (some b) p =
      b.game.cursor == length b.game.moves
      && (not (is_game_over b.game)
          && (ltb b.game.cursor max_moves && plays_engine (to_play b.game) p))

  abbrev pub forget_analysis : Slot A → Slot A
  forget_analysis s = record s { last_analysis = none }

module _ {A Q : Type 0} where
  unfoldable pub emit : Frame A → Session A Q → Session A Q
  emit f s = record s { frames = s.frames ++ f ∷ [] }

  abbrev pub emit_state : Session A Q → Session A Q
  emit_state = emit state_frame

  -- The setter of `status`, and `_fail_status`.
  abbrev pub set_status : Session A Q → Session A Q
  set_status s = record s { status_is_error = false }

  abbrev pub fail_status : Session A Q → Session A Q
  fail_status s = record s { status_is_error = true }

  -- `_active`.
  unfoldable pub active_slot : Session A Q → Option (Slot A)
  active_slot s = find_slot s.active_board s.boards

  abbrev pub on_slot : ℕ → (Slot A → Slot A) → Session A Q → Session A Q
  on_slot i f s = record s { boards = update_slot i f s.boards }

  -- `BoardSlot.changed`.
  abbrev pub changed : ℕ → Session A Q → Session A Q
  changed i s = record s {
    boards = update_slot i (λ (b : Slot A). record b { version = s.next_version }) s.boards;
    next_version = suc s.next_version;
  }

  -- `_engine_should_move`.
  unfoldable pub engine_should_move : Session A Q → Bool
  engine_should_move s =
      can_move s.engine && (not s.closed && at_the_end (active_slot s) s.play_settings)

  -- `_maybe_engine_move`.
  unfoldable pub maybe_engine_move : Session A Q → Session A Q
  maybe_engine_move s =
      if engine_should_move s then record s { auto_halted = false; auto_running = true } else s

  -- `_request_analysis`.
  unfoldable pub request_analysis : Session A Q → Session A Q
  request_analysis s =
      if not (is_some s.engine) || s.closed then s else record s { analysis_wanted = true }

  -- `_position_changed`, of the board with the id.
  unfoldable pub position_changed : ℕ → Bool → Session A Q → Session A Q
  position_changed i rearm s =
      let t = emit_state (set_status (changed i s)) in
      request_analysis (if rearm then maybe_engine_move t else t)
