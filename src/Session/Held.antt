-- ===== src/Session/Held.antt =====
-- gowui/session.py: the messages about the game and the settings leave the boards where they are.
use gowui.Base.{
  ℕ, suc, ◌≡◌, refl, Bool, true, false, [], Option, some, ltb, if◌then◌else◌, Text, codes, Result,
  ok, or_raise, raise_if, bind-eq-ok, ok-injective, lookup, text_eq, utf8_length, is_some, ℤ, subst,
  pos,
}
use gowui.Values.{Json, Object, get, integer}
use gowui.Game.{Game, Float, play_move, undo, navigate, resign, new_game}
use gowui.Coords.{from_gtp}
use gowui.Archive.{read_sgf}
use gowui.Preferences.{set_preferences}
use gowui.Session.{
  Slot, Session, Refusal, internal, bad_vertex, illegal_move, bad_color, bad_preferences,
  bad_policy, active_slot, on_slot, state_frame, emit_state, position_changed, request_analysis,
  forget_analysis, bad_game, bad_sgf, large_sgf,
}
use gowui.Session.Read.{string_of, boolean_of, color_of}
use gowui.Session.Commands.{
  Outside, as_refusal, with_game, play_on, msg_play, msg_pass, msg_resign, msg_undo, msg_navigate,
  load_game, msg_new_game, msg_load_sgf, msg_analysis, to_move, refuse_vertex, max_sgf_bytes,
  unless, index_of, clamp_index, size_of, or_json, handicap_of, rules_of, komi_of,
}
use gowui.Session.Settings.{
  msg_players, msg_engine_params, msg_human_params, msg_preferences, with_players, same_players,
  change_to, clamped_visits, clamped_interval, given, check_if, profile_of, tuple_of, compare_of,
  checked_tuples,
}
use gowui.Session.Shapes.{
  Keeps, Keeps_refl, Keeps_trans, moved_on-Keeps, on_slot-Keeps, asked-Keeps, rearmed-Keeps,
  emit-Keeps,
}

module _ {A Q : Type 0} (s t : Session A Q) where
  -- What a message ends with, when the boards stand as before in it.
  ended-Keeps :
      (u : Session A Q)
      → Keeps s u
      → ◌≡◌ {A = Result Refusal (Session A Q)} (ok u) (ok t)
      → Keeps s t
  ended-Keeps u k h = subst (λ (v : Session A Q). Keeps s v) (ok-injective h) k

  -- What changes the active board, if there is one.
  module _ (rearm : Bool) (f : Slot A → Slot A) (same : (b : Slot A) → (f b).id ≡ b.id) where
    active_changed-Keeps :
        (i : ℕ)
        → ◌≡◌ {A = Result Refusal (Session A Q)}
            (ok (position_changed i rearm (on_slot i f s)))
            (ok t)
        → Keeps s t
    active_changed-Keeps i h =
        ended-Keeps (position_changed i rearm (on_slot i f s)) (moved_on-Keeps i f same s rearm) h

  play_on-Keeps : (color : ℕ) (vertex : Text) → play_on color vertex s ≡ ok t → Keeps s t
  unfolding play_on
  play_on-Keeps color vertex h =
      let (b, e, h1) = bind-eq-ok (or_raise (active_slot s) internal) _ h in
      let (point, e1, h2) = bind-eq-ok (as_refusal bad_vertex (from_gtp vertex b.game.size)) _ h1 in
      let (g, e2, h3) =
        bind-eq-ok (as_refusal illegal_move (play_move b.game color point [])) _ h2 in
      active_changed-Keeps true (with_game g) (λ c. refl) b.id h3

  pub msg_play-Keeps : (m : Object) → msg_play m s ≡ ok t → Keeps s t
  unfolding msg_play
  msg_play-Keeps m h =
      let (named, e, h1) = bind-eq-ok (color_of (get (codes "color") m)) _ h in
      let (color, e1, h2) = bind-eq-ok (or_raise named bad_color) _ h1 in
      let (vertex, e2, h3) = bind-eq-ok (string_of (get (codes "vertex") m)) _ h2 in
      let (u, e3, h4) = bind-eq-ok (refuse_vertex vertex) _ h3 in play_on-Keeps color vertex h4

  pub msg_pass-Keeps : (m : Object) → msg_pass m s ≡ ok t → Keeps s t
  unfolding msg_pass
  msg_pass-Keeps m h =
      let (named, e, h1) = bind-eq-ok (color_of (get (codes "color") m)) _ h in
      let (b, e1, h2) = bind-eq-ok (or_raise (active_slot s) internal) _ h1 in
      play_on-Keeps (to_move named b.game) (codes "pass") h2

  pub msg_resign-Keeps : (m : Object) → msg_resign m s ≡ ok t → Keeps s t
  unfolding msg_resign
  msg_resign-Keeps m h =
      let (named, e, h1) = bind-eq-ok (color_of (get (codes "color") m)) _ h in
      let (b, e1, h2) = bind-eq-ok (or_raise (active_slot s) internal) _ h1 in
      let (g, e2, h3) =
        bind-eq-ok (as_refusal internal (resign (to_move named b.game) b.game)) _ h2 in
      active_changed-Keeps true (with_game g) (λ c. refl) b.id h3

  pub msg_undo-Keeps : msg_undo s ≡ ok t → Keeps s t
  unfolding msg_undo
  msg_undo-Keeps h =
      let (b, e, h1) = bind-eq-ok (or_raise (active_slot s) internal) _ h in
      active_changed-Keeps false (with_game (undo b.game).1) (λ c. refl) b.id h1

  pub msg_navigate-Keeps : (m : Object) → msg_navigate m s ≡ ok t → Keeps s t
  unfolding msg_navigate
  msg_navigate-Keeps m h =
      let (index, e, h1) = bind-eq-ok (index_of (get (codes "index") m)) _ h in
      let (b, e1, h2) = bind-eq-ok (or_raise (active_slot s) internal) _ h1 in
      active_changed-Keeps true (with_game (navigate (clamp_index index) b.game)) (λ c. refl) b.id
        h2

  replaced-Keeps :
      (g : Game) (i : ℕ)
      → ◌≡◌ {A = Result Refusal (Session A Q)}
          (ok (
            position_changed i true
              (on_slot i (λ (c : Slot A). forget_analysis (with_game g c)) s)))
          (ok t)
      → Keeps s t
  replaced-Keeps g i h =
      active_changed-Keeps true (λ (c : Slot A). forget_analysis (with_game g c)) (λ c. refl) i h

  either_way :
      (c : Bool) {x y : Result Refusal (Session A Q)}
      → (x ≡ ok t → Keeps s t)
      → (y ≡ ok t → Keeps s t)
      → (if c then x else y) ≡ ok t
      → Keeps s t
  either_way true f g h = f h
  either_way false f g h = g h

  load_game-Keeps : (g : Game) → load_game g s ≡ ok t → Keeps s t
  unfolding load_game
  load_game-Keeps g h =
      either_way s.closed (ended-Keeps s (Keeps_refl s))
        (λ n.
          let (b, e, h1) = bind-eq-ok (or_raise (active_slot s) internal) _ n in
          replaced-Keeps g b.id h1)
        h

  pub msg_new_game-Keeps :
      (int_float : ℤ → Option Float) (m : Object) → msg_new_game int_float m s ≡ ok t → Keeps s t
  unfolding msg_new_game
  msg_new_game-Keeps int_float m h =
      let (size, e, h1) =
        bind-eq-ok (size_of (or_json (integer (pos 19)) (lookup (codes "size") m))) _ h in
      let (komi, e1, h2) = bind-eq-ok (komi_of int_float (get (codes "komi") m)) _ h1 in
      let (rules, e2, h3) =
        bind-eq-ok (rules_of (or_json (Json.text (codes "japanese")) (lookup (codes "rules") m))) _
          h2 in
      let (handicap, e3, h4) =
        bind-eq-ok (handicap_of (or_json (integer (pos 0)) (lookup (codes "handicap") m))) _ h3 in
      let (g, e4, h5) = bind-eq-ok (as_refusal bad_game (new_game size komi rules handicap)) _ h4 in
      let (b, e5, h6) = bind-eq-ok (or_raise (active_slot s) internal) _ h5 in
      replaced-Keeps g b.id h6

  pub msg_load_sgf-Keeps :
      (read_float : Text → Float) (m : Object) → msg_load_sgf read_float m s ≡ ok t → Keeps s t
  unfolding msg_load_sgf
  msg_load_sgf-Keeps read_float m h =
      let (text, e, h1) = bind-eq-ok (string_of (get (codes "sgf") m)) _ h in
      let (u, e1, h2) =
        bind-eq-ok (raise_if (ltb max_sgf_bytes (utf8_length text)) large_sgf) _ h1 in
      let (g, e2, h3) = bind-eq-ok (as_refusal bad_sgf (read_sgf read_float text)) _ h2 in
      load_game-Keeps g h3

  -- A change of the settings alone.
  told_on-Keeps :
      (u : Session A Q)
      → Keeps s u
      → ◌≡◌ {A = Result Refusal (Session A Q)} (ok (request_analysis (emit_state u))) (ok t)
      → Keeps s t
  told_on-Keeps u k h =
      ended-Keeps _ (asked-Keeps s (emit_state u) (emit-Keeps state_frame s u k)) h

  unless-Keeps :
      (enabled : Bool) (u v : Session A Q) → Keeps s u → Keeps s v → Keeps s (unless enabled u v)
  unless-Keeps true u v k l = k
  unless-Keeps false u v k l = l

  pub msg_analysis-Keeps : (m : Object) → msg_analysis m s ≡ ok t → Keeps s t
  unfolding msg_analysis
  msg_analysis-Keeps m h =
      let (enabled, e, h1) = bind-eq-ok (boolean_of (get (codes "enabled") m)) _ h in
      let (b, e1, h2) = bind-eq-ok (or_raise (active_slot s) internal) _ h1 in
      let u : Session A Q = record s {
        play_settings = record s.play_settings { analysis_enabled = enabled };
      } in
      let k : Keeps s u = record {
        same_ids = refl;
        same_active = refl;
        same_next = refl;
        fixed = λ v g h. record { older = h.older; same = h.same };
      } in
      told_on-Keeps (unless enabled u (on_slot b.id forget_analysis u))
        (unless-Keeps enabled u (on_slot b.id forget_analysis u) k (
          Keeps_trans s u (on_slot b.id forget_analysis u) k
            (on_slot-Keeps b.id forget_analysis (λ c. refl) (λ c. (refl, refl)) u)))
        h2

  module _ (outside : Outside Q) (m : Object) where
    pub msg_players-Keeps : msg_players outside m s ≡ ok t → Keeps s t
    unfolding msg_players
    msg_players-Keeps h =
        let (p, e, h1) = bind-eq-ok (with_players s.play_settings m) _ h in
        let epoch =
          if same_players s.play_settings p then s.players_epoch else suc s.players_epoch in
        let u : Session A Q = record s { play_settings = p; players_epoch = epoch } in
        ended-Keeps _
          (rearmed-Keeps s (emit_state u) (
            emit-Keeps state_frame s u (record {
              same_ids = refl;
              same_active = refl;
              same_next = refl;
              fixed = λ v g h. record { older = h.older; same = h.same };
            })))
          h1

    pub msg_engine_params-Keeps : msg_engine_params outside m s ≡ ok t → Keeps s t
    unfolding msg_engine_params
    msg_engine_params-Keeps h =
        let old = s.engine_settings in
        let (visits, e, h1) =
          bind-eq-ok
            (change_to old.max_visits (clamped_visits outside 1) (given (codes "maxVisits") m)) _
            h in
        let (interval, e1, h2) =
          bind-eq-ok
            (change_to old.report_interval (clamped_interval outside)
              (given (codes "reportInterval") m))
            _ h1 in
        let (ownership, e2, h3) =
          bind-eq-ok
            (change_to old.include_ownership boolean_of (given (codes "includeOwnership") m)) _
            h2 in
        let (b, e3, h4) = bind-eq-ok (or_raise (active_slot s) internal) _ h3 in
        let (u, e4, h5) =
          bind-eq-ok
            (check_if outside (is_some (given (codes "maxVisits") m)) b.policy b.compare visits) _
            h4 in
        let new = record old {
          max_visits = visits;
          report_interval = interval;
          include_ownership = ownership;
        } in
        told_on-Keeps (record s { engine_settings = new })
          (record {
            same_ids = refl;
            same_active = refl;
            same_next = refl;
            fixed = λ v g h. record { older = h.older; same = h.same };
          })
          h5

    pub msg_human_params-Keeps : msg_human_params outside m s ≡ ok t → Keeps s t
    unfolding msg_human_params
    msg_human_params-Keeps h =
        let old = s.engine_settings in
        let (b, e, h1) = bind-eq-ok (or_raise (active_slot s) internal) _ h in
        let (profile, e1, h2) =
          bind-eq-ok (change_to b.profile profile_of (given (codes "profile") m)) _ h1 in
        let (policy, e2, h3) =
          bind-eq-ok
            (change_to b.policy (tuple_of outside bad_policy old.max_visits)
              (given (codes "policy") m))
            _ h2 in
        let (compare, e3, h4) =
          bind-eq-ok (compare_of outside old.max_visits b.compare (lookup (codes "compare") m)) _
            h3 in
        let (eval, e4, h5) =
          bind-eq-ok
            (change_to old.eval_visits (clamped_visits outside 0) (given (codes "evalVisits") m)) _
            h4 in
        let (u, e5, h6) = bind-eq-ok (checked_tuples outside policy compare old.max_visits) _ h5 in
        let f =
          λ (c : Slot A). record c { profile = profile; policy = policy; compare = compare } in
        let k = on_slot-Keeps b.id f (λ c. refl) (λ c. (refl, refl)) s in
        told_on-Keeps
          (record (on_slot b.id f s) { engine_settings = record old { eval_visits = eval } })
          (record {
            same_ids = k.same_ids;
            same_active = refl;
            same_next = refl;
            fixed = λ v g h. let r = k.fixed v g h in record { older = r.older; same = r.same };
          })
          h6

    pub msg_preferences-Keeps : msg_preferences outside m s ≡ ok t → Keeps s t
    unfolding msg_preferences
    msg_preferences-Keeps h =
        let (p, e, h1) =
          bind-eq-ok
            (as_refusal bad_preferences
              (set_preferences outside.int_float m (outside.json_length m) s.preferences))
            _ h in
        let u : Session A Q = record s { preferences = some p } in
        ended-Keeps _
          (emit-Keeps state_frame s u (record {
            same_ids = refl;
            same_active = refl;
            same_next = refl;
            fixed = λ v g h. record { older = h.older; same = h.same };
          }))
          h1
