-- ===== src/Session/Settings.antt =====
-- gowui/session.py: the messages about the settings of the players, of the engine and of the human
-- profiles, and about the preferences. An engine only stores what `_configure_engine` hands it.
use gowui.Base.{
  ℕ, suc, Bool, true, false, not, ◌&&◌, List, [], ◌∷◌, Option, none, some, if◌then◌else◌, Text,
  codes, equal, ℤ, Result, ok, err, or_raise, ◌>>=◌, ◌>>◌, lookup, is_some, one_of, pos, text_eq,
}
use gowui.Game.{Float}
use gowui.Values.{Json, null, integer, Object, get, is_number}
use gowui.Human.{check_policies, tuple_problem, move_styles}
use gowui.Preferences.{set_preferences}
use gowui.Session.{
  Slot, Session, PlaySettings, Refusal, bad_number, bad_style, bad_policies, bad_profile,
  bad_policy, bad_compare, bad_preferences, internal, active_slot, on_slot, emit_state,
  maybe_engine_move, request_analysis,
}
use gowui.Session.Read.{boolean_of, clamp_int, clamp_float, profile_ok}
use gowui.Session.Commands.{Outside, as_refusal, max_visits_limit, min_interval, max_interval}

-- The field of a message, when it is there and not null.
abbrev pub given_json : Json → Option Json
given_json null = none
given_json v = some v

abbrev pub given : Text → Object → Option Json
given key m = given_json (get key m)

-- What a field changes to; it is kept when it is not given.
abbrev pub change_to {ℓ} :
    {A : Type ℓ} → A → (Json → Result Refusal A) → Option Json → Result Refusal A
change_to old read none = ok old
change_to old read (some v) = read v

abbrev pub style_of : Json → Result Refusal Text
style_of (Json.text t) = if one_of t move_styles then ok t else err bad_style
style_of _ = err bad_style

abbrev pub profile_of : Json → Result Refusal Text
profile_of (Json.text t) = if profile_ok t then ok t else err bad_profile
profile_of _ = err bad_profile

abbrev pub number_of : (ℤ → Option Float) → Json → Result Refusal Json
number_of int_float v = if is_number int_float v then ok v else err bad_number

abbrev pub same_bool : Bool → Bool → Bool
same_bool true b = b
same_bool false b = not b

abbrev pub same_players : PlaySettings → PlaySettings → Bool
same_players p q =
    same_bool p.black_is_engine q.black_is_engine
    && (same_bool p.white_is_engine q.white_is_engine
        && (equal p.black_style q.black_style && equal p.white_style q.white_style))

abbrev pub policies_of : Json → Option Json → List Json
policies_of policy none = policy ∷ []
policies_of policy (some c) = policy ∷ c ∷ []

abbrev pub with_players : PlaySettings → Object → Result Refusal PlaySettings
with_players p m = do
  black ← change_to p.black_is_engine boolean_of (given (codes "blackIsEngine") m)
  white ← change_to p.white_is_engine boolean_of (given (codes "whiteIsEngine") m)
  first ← change_to p.black_style style_of (given (codes "blackStyle") m)
  second ← change_to p.white_style style_of (given (codes "whiteStyle") m)
  ok (record p {
    black_is_engine = black;
    white_is_engine = white;
    black_style = first;
    white_style = second;
  })

module _ {Q : Type 0} (outside : Outside Q) where
  abbrev pub clamped_visits : ℕ → Json → Result Refusal ℕ
  clamped_visits low v = do
    n ← number_of outside.int_float v
    ok (clamp_int outside.round n low max_visits_limit)

  abbrev pub clamped_interval : Json → Result Refusal Float
  clamped_interval v = do
    n ← number_of outside.int_float v
    ok (clamp_float outside.as_float n min_interval max_interval)

  abbrev pub tuple_of : Refusal → ℕ → Json → Result Refusal Json
  tuple_of r visits v =
      if is_some (tuple_problem outside.int_float v (integer (pos visits))) then err r else ok v

  -- `compare` is there when the key is, and null clears it.
  abbrev pub compare_of : ℕ → Option Json → Option Json → Result Refusal (Option Json)
  compare_of visits old none = ok old
  compare_of visits old (some null) = ok none
  compare_of visits old (some v) = do c ← tuple_of bad_compare visits v; ok (some c)

  abbrev pub checked_tuples : Json → Option Json → ℕ → Result Refusal (Unit {0})
  checked_tuples policy compare visits =
      as_refusal bad_policies
        (check_policies outside.int_float (policies_of policy compare) (integer (pos visits)))

  -- The tuples of the board are checked only against visits that are given.
  abbrev pub check_if : Bool → Json → Option Json → ℕ → Result Refusal (Unit {0})
  check_if false policy compare visits = ok tt
  check_if true policy compare visits = checked_tuples policy compare visits

  module _ {A : Type 0} where
    -- `_msg_players`.
    unfoldable pub msg_players : Object → Session A Q → Result Refusal (Session A Q)
    msg_players m s = do
      p ← with_players s.play_settings m
      let epoch = if same_players s.play_settings p then s.players_epoch else suc s.players_epoch
      ok (
          request_analysis (
            maybe_engine_move (emit_state (record s { play_settings = p; players_epoch = epoch }))))

    -- `_msg_engine_params`.
    unfoldable pub msg_engine_params : Object → Session A Q → Result Refusal (Session A Q)
    msg_engine_params m s = do
      let old = s.engine_settings
      visits ← change_to old.max_visits (clamped_visits 1) (given (codes "maxVisits") m)
      interval ← change_to old.report_interval clamped_interval (given (codes "reportInterval") m)
      ownership ← change_to old.include_ownership boolean_of (given (codes "includeOwnership") m)
      b ← or_raise (active_slot s) internal
      check_if (is_some (given (codes "maxVisits") m)) b.policy b.compare visits
      let new = record old {
        max_visits = visits;
        report_interval = interval;
        include_ownership = ownership;
      }
      ok (request_analysis (emit_state (record s { engine_settings = new })))

    -- `_msg_human_params`.
    unfoldable pub msg_human_params : Object → Session A Q → Result Refusal (Session A Q)
    msg_human_params m s = do
      let old = s.engine_settings
      b ← or_raise (active_slot s) internal
      profile ← change_to b.profile profile_of (given (codes "profile") m)
      policy ← change_to b.policy (tuple_of bad_policy old.max_visits) (given (codes "policy") m)
      compare ← compare_of old.max_visits b.compare (lookup (codes "compare") m)
      eval ← change_to old.eval_visits (clamped_visits 0) (given (codes "evalVisits") m)
      checked_tuples policy compare old.max_visits
      let shaped =
          on_slot b.id
            (λ (c : Slot A). record c { profile = profile; policy = policy; compare = compare }) s
      ok (
          request_analysis
            (emit_state (record shaped { engine_settings = record old { eval_visits = eval } })))

    -- `_msg_preferences`.
    unfoldable pub msg_preferences : Object → Session A Q → Result Refusal (Session A Q)
    msg_preferences m s = do
      p ←
          as_refusal bad_preferences
            (set_preferences outside.int_float m (outside.json_length m) s.preferences)
      ok (emit_state (record s { preferences = some p }))
