-- ===== src/Tests/Sessions.antt =====
-- gowui/session.py: runs of a session at concrete messages.
use gowui.Base.{
  ℕ, ◌≡◌, refl, lower, upper_char, true, insert, erase, set_default, false, List, [], ◌∷◌, Option,
  none, some, Text, codes, ℤ, pos, take, arith, equal, lookup,
}
use gowui.Rules.{simple_ko, territory}
use gowui.Board.{
  black, new_board, neighbours, contains, look, visit, walk, chain, clear, capture, add_captures,
  settle, finish, play_at, play,
}
use gowui.Game.{
  to_play_at, Float, Game, key_eq, setup, play_move, ko_refusal, place_setup, board, after_play,
  attempt_at, attempt, forget, unindex, truncate, record_move,
}
use gowui.Values.{Json, integer, null, text, object, Fields, end, field, entries, get}
use gowui.Coords.{from_gtp, match_vertex, find}
use gowui.Session.{
  EngineRef, position_changed, update_slot, Session, Slot, state_frame, find_slot, emit,
  maybe_engine_move, request_analysis, engine_should_move, active_slot,
}
use gowui.Session.Read.{id_of}
use gowui.Session.Commands.{Outside}
use gowui.Session.Boards.{
  board_name, msg_board_duplicate, msg_board_move, msg_board_delete, slot_named, remove_slot,
  insert_after, find_anchor, fresh_id, fresh_from, has_id, switch_to, slot_in_place, drop_board,
  reset_last,
}
use gowui.Session.Messages.{handle, handle_all, run, kind_named}
use gowui.Session.Shapes.{AllFixed, Fixed, ids, IsSound, IsBelow, IsDistinct, member}
use gowui.Session.Moves.{
  Ask, vertex, begin_move, is_current, current_board, answer_move, settle_move,
}
use gowui.Session.Current.{IsPlayedOn, settle_move-IsPlayedOn}
use gowui.Session.Safety.{handle_all-IsSound}

abbrev as_float : ℤ → Option Float
as_float n = some (Float.num n (pos 0))

abbrev outside : Outside ℕ
outside = record {
  int_float = as_float;
  as_float = λ n. Float.num n (pos 0);
  round = λ f. pos 0;
  read_float = λ t. Float.num (pos 0) (pos 0);
  json_length = λ m. 0;
  is_digit = λ c. false;
  resolve = λ m. none;
}

abbrev small_game : Game
small_game =
    setup 2
      (record {
        name = codes "japanese";
        katago = codes "japanese";
        ko = simple_ko;
        suicide = false;
        default_komi = 13;
        scoring = territory;
      })
      none 0 [] black

abbrev slot_of : ℕ → Slot ℕ
slot_of i = record {
  id = i;
  name = board_name i;
  game = small_game;
  profile = codes "preaz_1d";
  policy = object end;
  compare = none;
  version = i;
  last_analysis = none;
  analysis_version = none;
}

abbrev three : Session ℕ ℕ
three = record {
  boards = slot_of 1 ∷ slot_of 4 ∷ slot_of 2 ∷ [];
  active_board = 4;
  next_board = 5;
  next_version = 9;
  engine_settings = record {
    max_visits = 500;
    report_interval = Float.num (pos 1) (pos 0);
    include_ownership = false;
    eval_visits = 200;
  };
  play_settings = record {
    black_is_engine = false;
    white_is_engine = false;
    black_style = codes "human";
    white_style = codes "human";
    analysis_enabled = false;
  };
  preferences = none;
  engine = none;
  target = none;
  request = none;
  shown_request = none;
  want_connected = false;
  status_is_error = false;
  thinking = false;
  epoch = 0;
  players_epoch = 0;
  lifecycle = 0;
  connecting = none;
  attempts = [];
  closing = [];
  analysis_wanted = false;
  pending = [];
  auto_running = false;
  auto_halted = false;
  closed = false;
  frames = [];
}

three-IsSound : IsSound three
unfolding IsSound ids IsBelow IsDistinct member
three-IsSound = record {
  below = (omega arith, (omega arith, (omega arith, tt)));
  distinct = (refl, (refl, (refl, tt)));
  few = omega arith;
  holds_active = refl;
}

abbrev about : Text → ℕ → Fields → Json
about kind i rest =
    object (field (codes "type") (text kind) (field (codes "id") (integer (pos i)) rest))

-- A copy of the first board, its move to the front, the end of the active one, and a bad id.
abbrev sent : List Json
sent =
    about (codes "board_duplicate") 1 end
    ∷ about (codes "board_move") 5 (field (codes "after") null end)
    ∷ about (codes "board_delete") 5 end
    ∷ about (codes "board_delete") 7 end
    ∷ []

abbrev ids_after : List Json → List ℕ
ids_after vs = ids (handle_all outside vs three).boards

two_sent : ids_after (take 2 sent) ≡ 5 ∷ 1 ∷ 4 ∷ 2 ∷ []
unfolding ids handle_all handle run kind_named msg_board_duplicate msg_board_move msg_board_delete
    slot_named find_slot remove_slot insert_after find_anchor fresh_id fresh_from has_id switch_to
    lookup entries get id_of equal emit maybe_engine_move request_analysis engine_should_move
    slot_in_place drop_board reset_last active_slot
two_sent = refl

all_sent : ids_after sent ≡ 1 ∷ 4 ∷ 2 ∷ []
unfolding ids handle_all handle run kind_named msg_board_duplicate msg_board_move msg_board_delete
    slot_named find_slot remove_slot insert_after find_anchor fresh_id fresh_from has_id switch_to
    lookup entries get id_of equal emit maybe_engine_move request_analysis engine_should_move
    slot_in_place drop_board reset_last active_slot
all_sent = refl

handle_all-IsSound_example : IsSound (handle_all outside sent three)
handle_all-IsSound_example = handle_all-IsSound outside sent three three-IsSound

abbrev behind_one : Fields
behind_one = field (codes "id") (integer (pos 2)) (field (codes "after") (integer (pos 1)) end)

abbrev reordered : Session ℕ ℕ
reordered = record three {
  boards = slot_of 1 ∷ slot_of 2 ∷ slot_of 4 ∷ [];
  frames = state_frame ∷ [];
}

abbrev engine : EngineRef
engine = record {
  serial = 3;
  supports_genmove = true;
  supports_final_score = true;
  supports_raw = false;
}

abbrev played_by_engine : Session ℕ ℕ
played_by_engine = record three { engine = some engine }

abbrev question : Ask
question = record {
  engine = 3;
  board = 4;
  version = 4;
  epoch = 0;
  players_epoch = 0;
  mover = black;
  explicit = true;
}

abbrev waiting : Session ℕ ℕ
waiting = record played_by_engine { thinking = true; frames = state_frame ∷ [] }

-- The boards change their order while the engine searches.
abbrev meanwhile : List Json
meanwhile = about (codes "board_move") 2 (field (codes "after") null end) ∷ []

small-Fixed : Fixed 4 small_game played_by_engine
unfolding AllFixed
small-Fixed = record { older = omega arith; same = ((λ e. refl), ((λ e. refl), ((λ e. refl), tt))) }

settle_move-IsPlayedOn_example :
    IsPlayedOn small_game
      (vertex (codes "A1"))
      (handle_all outside meanwhile waiting)
      (settle_move question (vertex (codes "A1")) (handle_all outside meanwhile waiting)).1
unfolding new_board neighbours contains look visit walk chain clear capture add_captures settle
    finish play_at play place_setup setup board ko_refusal after_play attempt_at attempt forget
    unindex truncate record_move play_move equal lookup insert erase set_default from_gtp ids
    handle_all handle run kind_named msg_board_move slot_named find_slot remove_slot insert_after
    find_anchor entries get id_of emit maybe_engine_move request_analysis engine_should_move
    active_slot begin_move is_current current_board answer_move settle_move position_changed
    update_slot to_play_at lower match_vertex find upper_char
settle_move-IsPlayedOn_example =
    settle_move-IsPlayedOn outside true none (slot_of 4) question played_by_engine waiting _
      meanwhile (vertex (codes "A1")) refl small-Fixed refl refl
