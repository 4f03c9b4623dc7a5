-- ===== src/Session/Boards.antt =====
-- gowui/session.py: the messages about the boards. Python compares boards by their fields; as a board
-- is always taken as the first one with its id, that is to compare ids.
use gowui.Base.{
  ℕ, zero, suc, Bool, true, false, ◌||◌, List, [], ◌∷◌, ◌++◌, Option, none, some, leb, ◌==◌,
  if◌then◌else◌, length, Text, codes, ℤ, pos, negsuc, Result, ok, err, or_raise, raise_if, ◌>>=◌,
  ◌>>◌, lookup, take, text_eq,
}
use gowui.Coords.{decimal}
use gowui.Game.{Game, GameError, Float, new_game}
use gowui.Values.{Json, null, integer, object, end, Object, get}
use gowui.Preferences.{Prefs, clean_preferences, trim}
use gowui.Session.{
  Slot, Session, Refusal, no_board, many_boards, bad_anchor, after_itself, internal, analysis_frame,
  max_boards, find_slot, active_slot, current_analysis, on_slot, emit, emit_state, set_status,
  maybe_engine_move, request_analysis,
}
use gowui.Session.Read.{string_of, id_of}
use gowui.Session.Commands.{as_refusal}

abbrev pub max_name : ℕ
max_name = 40

abbrev default_profile : Text
default_profile = codes "preaz_1d"

-- The float 0.4.
abbrev default_interval : Float
default_interval = Float.num (pos 3602879701896397) (negsuc 52)

abbrev pub board_name : ℕ → Text
board_name i = codes "Board " ++ decimal i

-- `after`: present, and null or an id.
abbrev pub anchor_of : Option Json → Result Refusal (Option ℤ)
anchor_of (some null) = ok none
anchor_of (some (integer n)) = ok (some n)
anchor_of _ = err bad_anchor

module _ {A : Type 0} where
  unfoldable pub has_id : ℕ → List (Slot A) → Bool
  has_id i [] = false
  has_id i (s ∷ ss) = s.id == i || has_id i ss

  -- `_slot`, of any integer.
  unfoldable pub slot_named : ℤ → List (Slot A) → Option (Slot A)
  slot_named (pos n) ss = find_slot n ss
  slot_named (negsuc n) ss = none

  -- `boards.remove` and `boards.insert` after a board.
  unfoldable pub remove_slot : ℕ → List (Slot A) → List (Slot A)
  remove_slot i [] = []
  remove_slot i (s ∷ ss) = if s.id == i then ss else s ∷ remove_slot i ss

  unfoldable pub insert_after : ℕ → Slot A → List (Slot A) → List (Slot A)
  insert_after a new [] = []
  insert_after a new (s ∷ ss) = if s.id == a then s ∷ new ∷ ss else s ∷ insert_after a new ss

  -- `boards[min(index, len(boards) - 1)]`, for the index where the board stood.
  unfoldable pub slot_in_place : ℕ → List (Slot A) → List (Slot A) → Option (Slot A)
  slot_in_place i [] rest = none
  slot_in_place i (s ∷ ss) [] = none
  slot_in_place i (s ∷ ss) (r ∷ []) = some r
  slot_in_place i (s ∷ ss) (r ∷ q ∷ rest) =
      if s.id == i then some r else slot_in_place i ss (q ∷ rest)

  -- `_fresh_id`: the first number of the counter that no board has.
  unfoldable pub fresh_from : ℕ → ℕ → List (Slot A) → Option ℕ
  fresh_from zero n ss = none
  fresh_from (suc k) n ss =
      let rest = fresh_from k (suc n) ss in if has_id n ss then rest else some n

  unfoldable pub fresh_id : ℕ → List (Slot A) → Option ℕ
  fresh_id next ss = fresh_from (suc (length ss)) next ss

  -- `_fresh_board`, and what a copy gets of its own.
  unfoldable pub fresh_board : ℕ → ℕ → Game → Result Refusal (Slot A)
  fresh_board i version g = do
    new ← as_refusal internal (new_game (pos g.size) none g.rules.name (pos 0))
    ok (record {
      id = i;
      name = board_name i;
      game = new;
      profile = default_profile;
      policy = object end;
      compare = none;
      version = version;
      last_analysis = none;
      analysis_version = none;
    })

  abbrev pub clone_as : ℕ → Slot A → Slot A
  clone_as i b = record b { id = i; name = board_name i }

  abbrev pub rename_to : Text → Slot A → Slot A
  rename_to [] b = b
  rename_to name b = record b { name = name }

  -- The boards with one put at the head or after its anchor.
  abbrev pub put_slot : Option ℕ → Slot A → List (Slot A) → List (Slot A)
  put_slot none new ss = new ∷ ss
  put_slot (some a) new ss = insert_after a new ss

  -- The anchor, which is a board other than the one that is moved.
  unfoldable pub find_anchor : ℕ → Option ℤ → List (Slot A) → Result Refusal (Option ℕ)
  find_anchor i none ss = ok none
  find_anchor i (some n) ss = do
    anchor ← or_raise (slot_named n ss) no_board
    raise_if (anchor.id == i) after_itself
    ok (some anchor.id)

module _ {A Q : Type 0} where
  abbrev pub show_analysis : Bool → ℕ → Option A → Session A Q → Session A Q
  show_analysis true i (some a) s = emit (analysis_frame i a) s
  show_analysis _ i _ s = s

  abbrev pub with_boards : List (Slot A) → Session A Q → Session A Q
  with_boards ss s = record s { boards = ss }

  -- `_switch_to`, of a board that stands among the boards.
  unfoldable pub switch_to : Slot A → Session A Q → Session A Q
  switch_to b s =
      let t = emit_state (set_status (record s { epoch = suc s.epoch; active_board = b.id })) in
      request_analysis (
        maybe_engine_move
          (show_analysis t.play_settings.analysis_enabled b.id (current_analysis b) t))

  abbrev pub switch_or_fail : Option (Slot A) → Session A Q → Result Refusal (Session A Q)
  switch_or_fail none s = err internal
  switch_or_fail (some b) s = ok (switch_to b s)

  -- `_msg_board_select`.
  unfoldable pub msg_board_select : Object → Session A Q → Result Refusal (Session A Q)
  msg_board_select m s = do
    id ← id_of (get (codes "id") m)
    b ← or_raise (slot_named id s.boards) no_board
    ok (switch_to b s)

  -- `_msg_board_duplicate`.
  unfoldable pub msg_board_duplicate : Object → Session A Q → Result Refusal (Session A Q)
  msg_board_duplicate m s = do
    id ← id_of (get (codes "id") m)
    source ← or_raise (slot_named id s.boards) no_board
    raise_if (leb max_boards (length s.boards)) many_boards
    new ← or_raise (fresh_id s.next_board s.boards) internal
    let clone = clone_as new source
    ok (
        switch_to clone
          (record s { boards = insert_after source.id clone s.boards; next_board = suc new }))

  -- `_msg_board_new`.
  unfoldable pub msg_board_new : Session A Q → Result Refusal (Session A Q)
  msg_board_new s = do
    raise_if (leb max_boards (length s.boards)) many_boards
    new ← or_raise (fresh_id s.next_board s.boards) internal
    active ← or_raise (active_slot s) internal
    b ← fresh_board new s.next_version active.game
    ok (
        switch_to b (record s {
          boards = s.boards ++ b ∷ [];
          next_board = suc new;
          next_version = suc s.next_version;
        }))

  -- `_msg_board_move`.
  unfoldable pub msg_board_move : Object → Session A Q → Result Refusal (Session A Q)
  msg_board_move m s = do
    id ← id_of (get (codes "id") m)
    b ← or_raise (slot_named id s.boards) no_board
    named ← anchor_of (lookup (codes "after") m)
    anchor ← find_anchor b.id named s.boards
    ok (emit_state (with_boards (put_slot anchor b (remove_slot b.id s.boards)) s))

  -- The two ways of `_msg_board_delete`: the last board is reset in place.
  unfoldable pub reset_last : Slot A → Session A Q → Result Refusal (Session A Q)
  reset_last b s = do
    active ← or_raise (active_slot s) internal
    new ← fresh_board b.id s.next_version active.game
    ok (switch_to new (record s { boards = new ∷ []; next_version = suc s.next_version }))

  unfoldable pub drop_board : Slot A → Session A Q → Result Refusal (Session A Q)
  drop_board b s = do
    let rest = remove_slot b.id s.boards
    let t : Session A Q = record s { boards = rest; epoch = suc s.epoch }
    if b.id == s.active_board
        then switch_or_fail (slot_in_place b.id s.boards rest) t
        else ok (emit_state t)

  -- `_msg_board_delete`.
  unfoldable pub msg_board_delete : Object → Session A Q → Result Refusal (Session A Q)
  msg_board_delete m s = do
    id ← id_of (get (codes "id") m)
    b ← or_raise (slot_named id s.boards) no_board
    if length s.boards == 1 then reset_last b s else drop_board b s

  -- `_msg_board_rename`.
  unfoldable pub msg_board_rename : Object → Session A Q → Result Refusal (Session A Q)
  msg_board_rename m s = do
    id ← id_of (get (codes "id") m)
    name ← string_of (get (codes "name") m)
    b ← or_raise (slot_named id s.boards) no_board
    ok (emit_state (on_slot b.id (rename_to (trim (take max_name (trim name)))) s))

abbrev cleaned : (ℤ → Option Float) → Option Json → Option Prefs
cleaned int_float none = none
cleaned int_float (some v) = some (clean_preferences int_float v)

-- The session of a new space: `GameSession.__init__`.
unfoldable pub new_session :
    {A Q : Type 0} → (ℤ → Option Float) → ℕ → Option Json → Result GameError (Session A Q)
new_session int_float version preferences = do
  g ← new_game (pos 19) none (codes "japanese") (pos 0)
  ok (record {
    boards =
        record {
          id = 1;
          name = board_name 1;
          game = g;
          profile = default_profile;
          policy = object end;
          compare = none;
          version = version;
          last_analysis = none;
          analysis_version = none;
        }
        ∷ [];
    active_board = 1;
    next_board = 2;
    next_version = suc version;
    engine_settings = record {
      max_visits = 500;
      report_interval = default_interval;
      include_ownership = false;
      eval_visits = 200;
    };
    play_settings = record {
      black_is_engine = false;
      white_is_engine = false;
      black_style = codes "human";
      white_style = codes "human";
      analysis_enabled = false;
    };
    preferences = cleaned int_float preferences;
    engine = none;
    target = none;
    request = none;
    shown_request = none;
    want_connected = false;
    status_is_error = false;
    thinking = false;
    epoch = 0;
    players_epoch = 0;
    lifecycle = 0;
    connecting = none;
    attempts = [];
    closing = [];
    analysis_wanted = false;
    pending = [];
    auto_running = false;
    auto_halted = false;
    closed = false;
    frames = [];
  })
