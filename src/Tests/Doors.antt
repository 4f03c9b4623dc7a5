-- ===== src/Tests/Doors.antt =====
-- A request at the guard, a queue, a hub, and an SGF text that is read as a game.
use gowui.Base.{
  ℕ, ◌≤◌, ◌≡◌, refl, [], ◌∷◌, ◌++◌, Option, none, some, Result, ok, err, arith, true, false, Bool,
  codes, Text, equal, lower, lookup, insert, length, lstrip, strip, is_space, lower_char,
  set_default,
}
use gowui.Guard.{Scope, Policies, normalise_host}
use gowui.Guard.Hosts.{IsHost, normalise_host-IsHost}
use gowui.Spaces.{Kind, TabQueue, Tab, Hub, new_tab, put, ack, broadcast, for_window}
use gowui.Spaces.Queue.{put-length, others, others-put, appended}
use gowui.Spaces.Pacing.{IsPaced, start, next, acks, reachable-IsPaced}
use gowui.Spaces.Delivery.{IsDistinct, IsAbsent, served, broadcast-served}
use gowui.Rules.{simple_ko, area, get_rules}
use gowui.Coords.{from_sgf, sgf_point, find}
use gowui.Board.{
  play, play_at, finish, settle, capture, clear, chain, walk, visit, look, neighbours, contains,
  add_captures,
}
use gowui.Sgf.{
  parse, game_tree, read_tree, read_step, read_node, ident_of, after_ident, read_values, read_value,
  key_of, upper_of, to_upper, extend, get, replace_char,
}
use gowui.Game.{
  Float, Game, setup, place_setup, play_move, attempt, attempt_at, after_play, ko_refusal, board,
  truncate, unindex, forget, record_move,
}
use gowui.Archive.{
  ArchiveError, read_sgf, read_nodes, sgf_size, match_square, digits_of, after_digits, small_int,
  drop_zeros, number, sgf_rules, sgf_komi, is_number, sgf_handicap, sgf_setup, read_rects,
  add_rects, play_nodes, play_node, play_key,
}
use gowui.Saves.{Baseline, Storage, Saved, saved, save_now, save_snapshot, save_kept}
use gowui.Archive.Reading.{IsReadable, read_sgf-IsReadable}

abbrev no_ipv6 : Text → Option Text
no_ipv6 t = none

abbrev no_literal : Text → Bool
no_literal t = false

abbrev policies : Policies ℕ
policies = record {
  allowed_hosts = some (codes "go.example" ∷ []);
  allow_ip_literals = false;
  trusted = λ t. false;
  identify = λ s. some 1;
}

abbrev request : Scope
request = record {
  websocket = false;
  scheme = some (codes "https");
  method = some (codes "POST");
  path = codes "/api/state";
  raw_path = none;
  client = none;
  headers =
      (codes "Host", codes "go.example") ∷ (codes "Origin", codes "https://go.example:443") ∷ [];
}

normalise_host-IsHost_example :
    IsHost (codes "Go.Example:8080") (normalise_host no_ipv6 (codes "Go.Example:8080"))
normalise_host-IsHost_example = normalise_host-IsHost no_ipv6 (codes "Go.Example:8080")

abbrev state_kind : Kind
state_kind = some (codes "state")

abbrev full_queue : TabQueue
full_queue = record {
  maxsize = 3;
  items =
      (some (codes "log"), codes "a")
      ∷ (some (codes "error"), codes "b")
      ∷ (some (codes "log"), codes "c")
      ∷ [];
  ready = true;
}

put-length_example :
    length (put state_kind (codes "s") (some (some (codes "h"))) full_queue).1.items
    ≤ (put state_kind (codes "s") (some (some (codes "h"))) full_queue).1.maxsize
put-length_example =
    put-length state_kind (codes "s") (some (some (codes "h"))) full_queue (omega arith)
      (omega arith)

others-put_example :
    others (put state_kind (codes "s") (some (some (codes "h"))) full_queue).1.items
    ≡ others full_queue.items
      ++ appended
          (put state_kind (codes "s") (some (some (codes "h"))) full_queue).0
          (state_kind, codes "s")
others-put_example = others-put state_kind (codes "s") (some (some (codes "h"))) full_queue

abbrev two_tabs : Hub
two_tabs = record {
  tabs = (1, new_tab 1) ∷ (2, record (new_tab 3) { queue = full_queue }) ∷ [];
  history = none;
  idle_since = 0;
  closing = [];
}

two_tabs-IsDistinct : IsDistinct two_tabs.tabs
unfolding IsDistinct IsAbsent
two_tabs-IsDistinct = ((λ e. absurd (ground (arith, e)), tt), (tt, tt))

broadcast-served_example :
    (broadcast 5 (some (codes "error"), codes "e") two_tabs).tabs
    ≡ served (some (codes "error"), codes "e") none two_tabs.tabs
broadcast-served_example =
    broadcast-served 5 (some (codes "error"), codes "e") two_tabs two_tabs-IsDistinct

abbrev paced_tab : Tab
paced_tab = record {
  queue = full_queue;
  states_sent = 1;
  states_acked = 0;
  acknowledging = true;
  sender = for_window;
}

paced_tab-IsPaced : IsPaced paced_tab
paced_tab-IsPaced = record {
  acknowledging = refl;
  acked_le = omega arith;
  one_open = omega arith;
  none_open = λ w. absurd (cc);
}

reachable-IsPaced_example : IsPaced (ack paced_tab)
reachable-IsPaced_example = reachable-IsPaced paced_tab-IsPaced (next start (acks paced_tab))

abbrev zero_float : Text → Float
zero_float t = Float.nan

abbrev game_or : Game → Result ArchiveError Game → Game
game_or g (ok g') = g'
game_or g (err e) = g

abbrev sgf_text : Text
sgf_text = codes "(;SZ[5]HA[0];B[cc])"

abbrev read_game : Game
read_game =
    game_or
      (setup 2
        (record {
          name = [];
          katago = [];
          ko = simple_ko;
          suicide = false;
          default_komi = 0;
          scoring = area;
        })
        none 0 [] 1)
      (read_sgf zero_float sgf_text)

reads_game : read_sgf zero_float sgf_text ≡ ok read_game
unfolding read_sgf parse game_tree read_tree read_step read_node lstrip is_space ident_of
    after_ident read_values read_value key_of upper_of to_upper extend lookup insert equal
    read_nodes sgf_size get match_square digits_of after_digits small_int drop_zeros number
    sgf_rules get_rules lower lower_char strip replace_char sgf_komi is_number sgf_handicap
    sgf_setup read_rects add_rects play_nodes play_node play_key from_sgf sgf_point find setup
    place_setup play_move attempt attempt_at after_play ko_refusal board truncate unindex forget
    record_move set_default play play_at finish settle capture clear chain walk visit look
    neighbours contains add_captures
reads_game = refl

read_sgf-IsReadable_example : IsReadable zero_float read_game
read_sgf-IsReadable_example = read_sgf-IsReadable zero_float sgf_text read_game reads_game

abbrev unsaved : Baseline
unsaved = record { saved_text = codes "{}"; saved_preferences_text = [] }

abbrev stored_before : Storage
stored_before = record { snapshot_text = codes "{}"; preferences_text = [] }

-- The snapshot's write succeeds and that of the preferences fails.
abbrev pass : Saved
pass = save_now (codes "{1}") (some (codes "p")) true false unsaved stored_before

half_stored :
    pass
    ≡ saved false
        (record { saved_text = codes "{1}"; saved_preferences_text = [] })
        (record { snapshot_text = codes "{1}"; preferences_text = [] })
unfolding save_now save_snapshot save_kept equal
half_stored = refl
