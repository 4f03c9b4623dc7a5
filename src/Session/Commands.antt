-- ===== src/Session/Commands.antt =====
-- gowui/session.py: the messages about the game on the active board, and the settings.
use gowui.Base.{
  ℕ, ◌+◌, ◌*◌, Bool, true, false, [], Option, none, some, ltb, if◌then◌else◌, length, min, Text,
  codes, equal, lower, strip, utf8_length, ℤ, pos, negsuc, Result, ok, err, or_raise, raise_if,
  ◌>>=◌, ◌>>◌, lookup, text_eq,
}
use gowui.Coords.{from_gtp}
use gowui.Game.{
  Game, Float, KomiArg, new_game, play_move, undo, navigate, resign, to_play, max_moves,
}
use gowui.Archive.{read_sgf}
use gowui.Values.{Json, null, integer, Object, get, is_finite_number}
use gowui.Session.{
  Slot, Session, Target, Refusal, bad_color, bad_index, bad_vertex, resign_vertex, illegal_move,
  bad_komi, bad_rules, bad_size, bad_handicap, bad_game, large_sgf, bad_sgf, internal, on_slot,
  active_slot, emit_state, position_changed, request_analysis, forget_analysis,
}
use gowui.Session.Read.{string_of, boolean_of, color_of}

-- What the session does not compute itself: floats, the length of a message as JSON text, the
-- digits of other scripts, and the policy for engine requests.
pub record Outside (Q : Type 0) : Type 0 where
  pub int_float : ℤ → Option Float
  pub as_float : ℤ → Float
  pub round : Float → ℤ
  pub read_float : Text → Float
  pub json_length : Object → ℕ
  pub is_digit : ℕ → Bool
  pub resolve : Object → Option (Target Q)

abbrev pub as_refusal {ℓ} : {E : Type 0} {A : Type ℓ} → Refusal → Result E A → Result Refusal A
as_refusal r (ok a) = ok a
as_refusal r (err e) = err r

abbrev pub max_sgf_bytes : ℕ
max_sgf_bytes = 1024 * 1024

abbrev pub max_visits_limit : ℕ
max_visits_limit = 1000000

-- The floats 0.1 and 10.
abbrev pub min_interval : Float
min_interval = Float.num (pos 3602879701896397) (negsuc 54)

abbrev pub max_interval : Float
max_interval = Float.num (pos 10) (pos 0)

-- `max(-1, min(index, MAX_MOVES + 1))`.
abbrev pub clamp_index : ℤ → ℤ
clamp_index (pos n) = pos (min n (max_moves + 1))
clamp_index (negsuc n) = negsuc 0

abbrev pub index_of : Json → Result Refusal ℤ
index_of (integer n) = ok n
index_of _ = err bad_index

abbrev pub or_json : Json → Option Json → Json
or_json d none = d
or_json d (some v) = v

abbrev pub size_of : Json → Result Refusal ℤ
size_of (integer n) = ok n
size_of _ = err bad_size

abbrev pub handicap_of : Json → Result Refusal ℤ
handicap_of null = ok (pos 0)
handicap_of (integer n) = ok n
handicap_of _ = err bad_handicap

abbrev pub rules_of : Json → Result Refusal Text
rules_of (Json.text t) = if ltb 40 (length t) then err bad_rules else ok t
rules_of _ = err bad_rules

abbrev komi_arg : Option Float → KomiArg
komi_arg none = KomiArg.unreadable
komi_arg (some f) = KomiArg.real f

abbrev pub to_move : Option ℕ → Game → ℕ
to_move none g = to_play g
to_move (some c) g = c

abbrev pub refuse_vertex : Text → Result Refusal (Unit {0})
refuse_vertex v = do
  raise_if (ltb 8 (length v)) bad_vertex
  raise_if (equal (lower (strip v)) (codes "resign")) resign_vertex

abbrev pub komi_of : (ℤ → Option Float) → Json → Result Refusal (Option KomiArg)
komi_of int_float null = ok none
komi_of int_float (integer n) =
    if is_finite_number int_float (integer n)
    then ok (some (komi_arg (int_float n)))
    else err bad_komi
komi_of int_float (Json.real f) =
    if is_finite_number int_float (Json.real f) then ok (some (KomiArg.real f)) else err bad_komi
komi_of int_float _ = err bad_komi

module _ {A : Type 0} where
  abbrev pub with_game : Game → Slot A → Slot A
  with_game g b = record b { game = g }

module _ {A Q : Type 0} where
  -- `_play`.
  unfoldable pub play_on : ℕ → Text → Session A Q → Result Refusal (Session A Q)
  play_on color vertex s = do
    b ← or_raise (active_slot s) internal
    point ← as_refusal bad_vertex (from_gtp vertex b.game.size)
    g ← as_refusal illegal_move (play_move b.game color point [])
    ok (position_changed b.id true (on_slot b.id (with_game g) s))

  -- `_msg_play`.
  unfoldable pub msg_play : Object → Session A Q → Result Refusal (Session A Q)
  msg_play m s = do
    named ← color_of (get (codes "color") m)
    color ← or_raise named bad_color
    vertex ← string_of (get (codes "vertex") m)
    refuse_vertex vertex
    play_on color vertex s

  -- `_msg_pass`.
  unfoldable pub msg_pass : Object → Session A Q → Result Refusal (Session A Q)
  msg_pass m s = do
    named ← color_of (get (codes "color") m)
    b ← or_raise (active_slot s) internal
    play_on (to_move named b.game) (codes "pass") s

  -- `_msg_resign`.
  unfoldable pub msg_resign : Object → Session A Q → Result Refusal (Session A Q)
  msg_resign m s = do
    named ← color_of (get (codes "color") m)
    b ← or_raise (active_slot s) internal
    g ← as_refusal internal (resign (to_move named b.game) b.game)
    ok (position_changed b.id true (on_slot b.id (with_game g) s))

  -- `_msg_undo`: it never arms the engine.
  unfoldable pub msg_undo : Session A Q → Result Refusal (Session A Q)
  msg_undo s = do
    b ← or_raise (active_slot s) internal
    ok (position_changed b.id false (on_slot b.id (with_game (undo b.game).1) s))

  -- `_msg_navigate`.
  unfoldable pub msg_navigate : Object → Session A Q → Result Refusal (Session A Q)
  msg_navigate m s = do
    index ← index_of (get (codes "index") m)
    b ← or_raise (active_slot s) internal
    ok (
        position_changed b.id true
          (on_slot b.id (with_game (navigate (clamp_index index) b.game)) s))

  -- `load_game`, of a game that was read.
  unfoldable pub load_game : Game → Session A Q → Result Refusal (Session A Q)
  load_game g s = if s.closed then ok s else (do
    b ← or_raise (active_slot s) internal
    ok (
        position_changed b.id true
          (on_slot b.id (λ (c : Slot A). forget_analysis (with_game g c)) s)))

  -- `_msg_new_game`.
  unfoldable pub msg_new_game :
      (ℤ → Option Float) → Object → Session A Q → Result Refusal (Session A Q)
  msg_new_game int_float m s = do
    size ← size_of (or_json (integer (pos 19)) (lookup (codes "size") m))
    komi ← komi_of int_float (get (codes "komi") m)
    rules ← rules_of (or_json (Json.text (codes "japanese")) (lookup (codes "rules") m))
    handicap ← handicap_of (or_json (integer (pos 0)) (lookup (codes "handicap") m))
    g ← as_refusal bad_game (new_game size komi rules handicap)
    b ← or_raise (active_slot s) internal
    ok (
        position_changed b.id true
          (on_slot b.id (λ (c : Slot A). forget_analysis (with_game g c)) s))

  -- `_msg_load_sgf`.
  unfoldable pub msg_load_sgf : (Text → Float) → Object → Session A Q → Result Refusal (Session A Q)
  msg_load_sgf read_float m s = do
    text ← string_of (get (codes "sgf") m)
    raise_if (ltb max_sgf_bytes (utf8_length text)) large_sgf
    g ← as_refusal bad_sgf (read_sgf read_float text)
    load_game g s

  abbrev pub unless : Bool → Session A Q → Session A Q → Session A Q
  unless true s t = s
  unless false s t = t

  -- `_msg_analysis`.
  unfoldable pub msg_analysis : Object → Session A Q → Result Refusal (Session A Q)
  msg_analysis m s = do
    enabled ← boolean_of (get (codes "enabled") m)
    b ← or_raise (active_slot s) internal
    let t : Session A Q = record s {
      play_settings = record s.play_settings { analysis_enabled = enabled };
    }
    ok (request_analysis (emit_state (unless enabled t (on_slot b.id forget_analysis t))))
