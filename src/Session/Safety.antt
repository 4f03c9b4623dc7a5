-- ===== src/Session/Safety.antt =====
-- gowui/session.py: what holds of the boards after any messages, and of a move of a board.
use gowui.Base.{
  ℕ, ◌≡◌, refl, subst, Bool, true, false, List, [], ◌∷◌, Option, none, some, Result, ok, err,
  ok-injective, codes, if◌then◌else◌,
}
use gowui.Game.{Game}
use gowui.Values.{Json, Object, get, object_of}
use gowui.Session.{Session, Refusal, unknown_type, not_a_message, error_frame, state_frame, emit}
use gowui.Session.Commands.{Outside}
use gowui.Session.Messages.{
  Kind, run, run_named, received, kind_of, answer_with, handle, handle_all,
}
use gowui.Session.Versions.{
  msg_board_select-Fixed, msg_board_duplicate-Fixed, msg_board_new-Fixed, msg_board_move-Fixed,
  msg_board_delete-Fixed, msg_board_rename-Fixed,
}
use gowui.Session.Shapes.{Fixed, IsSound, Keeps, Keeps_refl, Keeps-IsSound, emit-Keeps}
use gowui.Session.Held.{
  msg_play-Keeps, msg_pass-Keeps, msg_resign-Keeps, msg_undo-Keeps, msg_navigate-Keeps,
  msg_new_game-Keeps, msg_load_sgf-Keeps, msg_analysis-Keeps, msg_players-Keeps,
  msg_engine_params-Keeps, msg_human_params-Keeps, msg_preferences-Keeps,
}
use gowui.Session.Standing.{
  msg_board_select-IsSound, msg_board_duplicate-IsSound, msg_board_new-IsSound,
  msg_board_move-IsSound, msg_board_delete-IsSound, msg_board_rename-IsSound,
}

module _ {A Q : Type 0} where
  -- What a message does to the boards and to the versions.
  pub record Steps (s t : Session A Q) : Type 0 where
    pub sound : IsSound s → IsSound t
    pub fixed : (v : ℕ) (g : Game) → Fixed v g s → Fixed v g t

  Keeps-Steps : (s t : Session A Q) → Keeps s t → Steps s t
  Keeps-Steps s t k = record { sound = Keeps-IsSound s t k; fixed = k.fixed }

  Steps-trans : (s t u : Session A Q) → Steps s t → Steps t u → Steps s u
  Steps-trans s t u a b = record {
    sound = λ h. b.sound (a.sound h);
    fixed = λ v g h. b.fixed v g (a.fixed v g h);
  }

  refused-Steps : (r : Refusal) (s : Session A Q) → Steps s (emit (error_frame r) s)
  refused-Steps r s =
      Keeps-Steps s (emit (error_frame r) s) (emit-Keeps (error_frame r) s s (Keeps_refl s))

  answer_with-Steps :
      (s : Session A Q) (r : Result Refusal (Session A Q))
      → ((t : Session A Q) → r ≡ ok t → Steps s t)
      → Steps s (answer_with s r)
  answer_with-Steps s (ok t) f = f t refl
  answer_with-Steps s (err e) f = refused-Steps e s

  if_either :
      (c : Bool) (s t u : Session A Q) → Steps s t → Steps s u → Steps s (if c then t else u)
  if_either true s t u h k = h
  if_either false s t u h k = k

module _ {A Q : Type 0} (outside : Outside Q) where
  run-Steps : (k : Kind) (m : Object) (s t : Session A Q) → run outside k m s ≡ ok t → Steps s t
  unfolding run
  run-Steps Kind.play m s t e = Keeps-Steps s t (msg_play-Keeps s t m e)
  run-Steps Kind.pass m s t e = Keeps-Steps s t (msg_pass-Keeps s t m e)
  run-Steps Kind.resign m s t e = Keeps-Steps s t (msg_resign-Keeps s t m e)
  run-Steps Kind.undo m s t e = Keeps-Steps s t (msg_undo-Keeps s t e)
  run-Steps Kind.navigate m s t e = Keeps-Steps s t (msg_navigate-Keeps s t m e)
  run-Steps Kind.new_game m s t e = Keeps-Steps s t (msg_new_game-Keeps s t outside.int_float m e)
  run-Steps Kind.analysis m s t e = Keeps-Steps s t (msg_analysis-Keeps s t m e)
  run-Steps Kind.players m s t e = Keeps-Steps s t (msg_players-Keeps s t outside m e)
  run-Steps Kind.engine_params m s t e = Keeps-Steps s t (msg_engine_params-Keeps s t outside m e)
  run-Steps Kind.human_params m s t e = Keeps-Steps s t (msg_human_params-Keeps s t outside m e)
  run-Steps Kind.board_select m s t e = record {
    sound = λ h. msg_board_select-IsSound s t h m e;
    fixed = λ v g h. msg_board_select-Fixed v g s t h m e;
  }
  run-Steps Kind.board_delete m s t e = record {
    sound = λ h. msg_board_delete-IsSound s t h m e;
    fixed = λ v g h. msg_board_delete-Fixed v g s t h m e;
  }
  run-Steps Kind.board_duplicate m s t e = record {
    sound = λ h. msg_board_duplicate-IsSound s t h m e;
    fixed = λ v g h. msg_board_duplicate-Fixed v g s t h m e;
  }
  run-Steps Kind.board_new m s t e = record {
    sound = λ h. msg_board_new-IsSound s t h e;
    fixed = λ v g h. msg_board_new-Fixed v g s t h e;
  }
  run-Steps Kind.board_move m s t e = record {
    sound = λ h. msg_board_move-IsSound s t h m e;
    fixed = λ v g h. msg_board_move-Fixed v g s t h m e;
  }
  run-Steps Kind.board_rename m s t e = record {
    sound = λ h. msg_board_rename-IsSound s t h m e;
    fixed = λ v g h. msg_board_rename-Fixed v g s t h m e;
  }
  run-Steps Kind.preferences m s t e = Keeps-Steps s t (msg_preferences-Keeps s t outside m e)
  run-Steps Kind.load_sgf m s t e = Keeps-Steps s t (msg_load_sgf-Keeps s t outside.read_float m e)
  run-Steps Kind.state m s t e = Keeps-Steps s t (
      subst (λ (u : Session A Q). Keeps s u) (ok-injective e)
        (emit-Keeps state_frame s s (Keeps_refl s)))

  named-Steps :
      (k : Option Kind) (m : Object) (s : Session A Q)
      → Steps s (answer_with s (run_named outside k m s))
  named-Steps none m s = refused-Steps unknown_type s
  named-Steps (some k) m s = answer_with-Steps s (run outside k m s) (λ t e. run-Steps k m s t e)

  received-Steps :
      (o : Option Object) (s : Session A Q) → Steps s (answer_with s (received outside o s))
  received-Steps none s = refused-Steps not_a_message s
  received-Steps (some m) s = named-Steps (kind_of (get (codes "type") m)) m s

  handle-Steps : (v : Json) (s : Session A Q) → Steps s (handle outside v s)
  unfolding handle
  handle-Steps v s =
      if_either s.closed s s (answer_with s (received outside (object_of v) s))
        (Keeps-Steps s s (Keeps_refl s)) (received-Steps (object_of v) s)

  pub handle_all-Steps : (vs : List Json) (s : Session A Q) → Steps s (handle_all outside vs s)
  unfolding handle_all
  handle_all-Steps [] s = Keeps-Steps s s (Keeps_refl s)
  handle_all-Steps (v ∷ vs) s =
      Steps-trans s (handle outside v s) (handle_all outside vs (handle outside v s))
        (handle-Steps v s) (handle_all-Steps vs (handle outside v s))

  -- Whatever the browsers send that needs no answer of an engine, in whatever order, from a session
  -- of which it holds: the boards' ids stay all different and below the next one, there are at most
  -- 64 boards, and the active board is one of them.
  pub handle_all-IsSound :
      (vs : List Json) (s : Session A Q) → IsSound s → IsSound (handle_all outside vs s)
  handle_all-IsSound vs s h = (handle_all-Steps vs s).sound h
