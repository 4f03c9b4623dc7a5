-- ===== src/Tests/Games.antt =====
-- A short game on a 3x3 board.
use gowui.Base.{
  if◌then◌else◌, ltb, ◌&&◌, ◌≡◌, refl, [], take, none, some, Result, ok, err, pos, false, codes,
  equal, lookup, insert, erase, set_default,
}
use gowui.Rules.{RuleSet, positional_superko, area}
use gowui.Board.{
  black, white, new_board, neighbours, contains, look, visit, walk, chain, clear, capture,
  add_captures, settle, finish, play_at, play,
}
use gowui.Game.{
  Game, key_eq, Reason, snapshot_at, setup, play_move, undo, ko_refusal, place_setup, board,
  after_play, attempt_at, attempt, forget, unindex, truncate, record_move,
}
use gowui.Game.Index.{occurs}
use gowui.Game.Invariant.{IsValid}
use gowui.Game.Methods.{setup-IsValid, play_move-IsValid}
use gowui.Game.Rulings.{scan_refusal, ko_refusal-scan}
use gowui.Game.Line.{Undone, undo-play_move}
use gowui.Game.History.{IsGame}
use gowui.Game.Reach.{start, next, plays, undoes, reachable-IsGame}
use gowui.View.{legal_moves}
use gowui.View.Legal.{times, accepts, times-legal_moves}
use gowui.Game.Superko.{play_move-scan_refusal, play_move-superko}

abbrev area_rules : RuleSet
area_rules = record {
  name = codes "chinese";
  katago = codes "chinese";
  ko = positional_superko;
  suicide = false;
  default_komi = 15;
  scoring = area;
}

abbrev empty_game : Game
empty_game = setup 3 area_rules none 0 [] black

abbrev game_or : Game → Result Reason Game → Game
game_or g (ok g') = g'
game_or g (err e) = g

abbrev opened : Game
opened = game_or empty_game (play_move empty_game black (some (pos 1, pos 1)) [])

opening : play_move empty_game black (some (pos 1, pos 1)) [] ≡ ok opened
unfolding new_board neighbours contains look visit walk chain clear capture add_captures settle
    finish play_at play place_setup setup board ko_refusal after_play attempt_at attempt forget
    unindex truncate record_move play_move equal lookup insert erase set_default
opening = refl

opened-IsValid : IsValid opened
opened-IsValid =
    play_move-IsValid empty_game black (some (pos 1, pos 1)) [] opened
      (setup-IsValid 3 area_rules none 0 [] black) opening

reachable-IsGame_example : IsGame 0 (undo opened).1
reachable-IsGame_example = reachable-IsGame 3 area_rules none black (undo opened).1 (
    next (next start (plays empty_game black (some (pos 1, pos 1)) [] opened opening))
      (undoes opened))

ko_refusal-scan_example :
    ko_refusal opened positional_superko white (snapshot_at opened 1)
    ≡ scan_refusal opened positional_superko white (snapshot_at opened 1)
ko_refusal-scan_example =
    ko_refusal-scan opened positional_superko white (snapshot_at opened 1) opened-IsValid

undo-play_move_example : Undone empty_game black (some (pos 1, pos 1)) [] (undo opened)
undo-play_move_example =
    undo-play_move empty_game black (some (pos 1, pos 1)) [] opened
      (setup-IsValid 3 area_rules none 0 [] black) opening

play_move-scan_refusal_example :
    scan_refusal empty_game empty_game.rules.ko black (snapshot_at opened opened.cursor) ≡ none
play_move-scan_refusal_example =
    play_move-scan_refusal empty_game black (pos 1, pos 1) [] opened
      (setup-IsValid 3 area_rules none 0 [] black) opening

same_rule : empty_game.rules.ko ≡ positional_superko
unfolding setup
same_rule = refl

play_move-superko_example :
    occurs (snapshot_at opened opened.cursor) (take opened.cursor opened.snapshots) ≡ false
play_move-superko_example =
    play_move-superko empty_game black (pos 1, pos 1) [] opened
      (setup-IsValid 3 area_rules none 0 [] black) same_rule opening

times-legal_moves_example :
    times 2 0 (legal_moves opened (some white))
    ≡ (if ltb 0 opened.size && (ltb 2 opened.size && accepts opened white 2 0 []) then 1 else 0)
times-legal_moves_example = times-legal_moves opened (some white) 2 0 []
