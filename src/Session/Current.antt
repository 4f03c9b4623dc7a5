-- ===== src/Session/Current.antt =====
-- gowui/session.py: an engine's move is played on the position it was asked for.
use gowui.Base.{
  ℕ, ◌≡◌, refl, sym, ap, ◌∙◌, subst, Bool, true, false, not, ◌&&◌, ◌||◌, List, Option, none, some,
  ◌==◌, if◌then◌else◌, Bool-cases, inl, inr, arith, Text, Result, ok, err,
}
use gowui.Game.{Game, to_play}
use gowui.Values.{Json}
use gowui.Session.{
  Slot, Session, EngineRef, Refusal, find_slot, active_slot, on_slot, emit, emit_state,
  position_changed, engine_should_move,
}
use gowui.Session.Commands.{Outside, with_game}
use gowui.Session.Messages.{handle_all}
use gowui.Session.Moves.{
  Ask, Reply, vertex, failed_with, connection_lost, Outcome, played, failed, Begun, asked,
  not_asked, is_engine, wrong_turn, ask_of, begin_on, begin_with, begin_move, is_current,
  if_current, current_board, answer_move, play_answer, settle_on, settle_reply, settle_move,
}
use gowui.Session.Shapes.{Fixed}
use gowui.Session.Places.{member-find_slot}
use gowui.Session.Versions.{find_slot-Shows}
use gowui.Session.Safety.{handle_all-Steps}

and-both : (a b : Bool) → (a && b) ≡ true → (a ≡ true) × (b ≡ true)
and-both true b h = (refl, h)
and-both false b h = absurd (cc)

equal-of-== : (a b : ℕ) → (a == b) ≡ true → a ≡ b
equal-of-== a b h = ground arith

module _ {A Q : Type 0} where
  -- What a question says of the session in which it was asked.
  pub record IsAsked (b : Slot A) (s : Session A Q) (a : Ask) (u : Session A Q) : Type 0 where
    pub same_version : a.version ≡ b.version
    pub same_mover : a.mover ≡ to_play b.game
    pub then_thinking : u ≡ emit_state (record s { thinking = true })

  module _ (explicit : Bool) (color : Option ℕ) (b : Slot A) (s : Session A Q) (a : Ask)
      (u : Session A Q) where
    asked-IsAsked :
        (e : EngineRef)
        → ◌≡◌ {A = Begun A Q}
            (asked (ask_of explicit e b s) (emit_state (record s { thinking = true })))
            (asked a u)
        → IsAsked b s a u
    asked-IsAsked e h =
        let same : ask_of explicit e b s ≡ a = cc in
        let shown : emit_state (record s { thinking = true }) ≡ u = cc in
        record {
          same_version = sym (ap (λ (x : Ask). x.version) same);
          same_mover = sym (ap (λ (x : Ask). x.mover) same);
          then_thinking = sym shown;
        }

    begin_on-IsAsked : (e : EngineRef) → begin_on explicit color e b s ≡ asked a u → IsAsked b s a u
    begin_on-IsAsked e h =
        elim (Bool-cases (not explicit && (s.auto_halted || not (engine_should_move s)))) [
          | inl y ↦ absurd (let h1 = rw y at h in cc)
          | inr n ↦ elim (Bool-cases (wrong_turn color (to_play b.game))) [
            | inl y ↦ absurd (let h1 = rw (n, y) at h in cc)
            | inr k ↦ asked-IsAsked e (rw (n, k) at h)
          ]
        ]

    past :
        (c : Bool) (x : Begun A Q)
        → (if c then not_asked failed s else x) ≡ asked a u
        → x ≡ asked a u
    past true x h = absurd (cc)
    past false x h = h

    begin_with-IsAsked :
        (o : Option EngineRef)
        → begin_with explicit color o (some b) s ≡ asked a u
        → IsAsked b s a u
    begin_with-IsAsked none h = absurd (cc)
    begin_with-IsAsked (some e) h =
        begin_on-IsAsked e (past s.closed (begin_on explicit color e b s) h)

    begin_move-IsAsked :
        active_slot s ≡ some b → begin_move explicit color s ≡ asked a u → IsAsked b s a u
    unfolding begin_move
    begin_move-IsAsked e h = begin_with-IsAsked s.engine (rw e at h)

  -- The board that an answer is for is the active one, at the version that was asked about.
  if_current-active :
      (a : Ask) (t : Session A Q) (c : Slot A) (o : Option (Slot A))
      → find_slot a.board t.boards ≡ o
      → if_current a t o ≡ some c
      → (find_slot t.active_board t.boards ≡ some c) × (c.version ≡ a.version)
  unfolding is_current
  if_current-active a t c none e h = absurd (cc)
  if_current-active a t c (some b) e h = elim (Bool-cases (is_current a b t)) [
    | inl y ↦
        let h1 = rw y at h in
        let same : b ≡ c = cc in
        let (active, rest) = and-both (b.id == t.active_board) _ y in
        let (at_version, others) = and-both (b.version == a.version) _ rest in
        let (named, found) = member-find_slot a.board t.boards b e in
        (
          subst (λ (i : ℕ). find_slot i t.boards ≡ some c)
              (sym named ∙ equal-of-== b.id t.active_board active) (e ∙ ap some same),
          ap (λ (x : Slot A). x.version) (sym same) ∙ equal-of-== b.version a.version at_version,
        )
    | inr n ↦ absurd (let h1 = rw n at h in cc)
  ]

  current_board-active :
      (a : Ask) (t : Session A Q) (c : Slot A)
      → current_board a t ≡ some c
      → (find_slot t.active_board t.boards ≡ some c) × (c.version ≡ a.version)
  unfolding current_board
  current_board-active a t c h = if_current-active a t c (find_slot a.board t.boards) refl h

  -- What happened when a move was played.
  pub record IsPlayed (a : Ask) (r : Reply) (t w : Session A Q) : Type 0 where
    pub text : Text
    pub board : Slot A
    pub after : Game
    pub answered : r ≡ vertex text
    pub current : current_board a t ≡ some board
    pub legal : answer_move a.mover text board.game ≡ ok after
    pub done : w ≡ position_changed board.id false (on_slot board.id (with_game after) t)

  module _ (a : Ask) (t w : Session A Q) where
    play_answer-IsPlayed :
        (v : Text) (c : Slot A) (x : Result Refusal Game)
        → current_board a t ≡ some c
        → answer_move a.mover v c.game ≡ x
        → play_answer c x t ≡ (played, w)
        → IsPlayed a (vertex v) t w
    play_answer-IsPlayed v c (ok g) e l h = record {
      text = v;
      board = c;
      after = g;
      answered = refl;
      current = e;
      legal = l;
      done = sym (ap (λ (p : Outcome × Session A Q). p.1) h);
    }
    play_answer-IsPlayed v c (err x) e l h = absurd (cc)

    settle_on-IsPlayed :
        (v : Text) (o : Option (Slot A))
        → current_board a t ≡ o
        → settle_on a v o t ≡ (played, w)
        → IsPlayed a (vertex v) t w
    settle_on-IsPlayed v none e h = absurd (cc)
    settle_on-IsPlayed v (some c) e h =
        play_answer-IsPlayed v c (answer_move a.mover v c.game) e refl h

    settle_reply-IsPlayed : (r : Reply) → settle_reply a r t ≡ (played, w) → IsPlayed a r t w
    settle_reply-IsPlayed (vertex v) h = settle_on-IsPlayed v (current_board a t) refl h
    settle_reply-IsPlayed (failed_with x) h = absurd (cc)
    settle_reply-IsPlayed connection_lost h = absurd (cc)

  settle_move-IsPlayed :
      (a : Ask) (r : Reply) (t w : Session A Q)
      → settle_move a r t ≡ (played, w)
      → IsPlayed a r (record t { thinking = false }) w
  unfolding settle_move
  settle_move-IsPlayed a r t w h = elim (Bool-cases (is_engine a.engine t.engine)) [
    | inl y ↦ settle_reply-IsPlayed a (record t { thinking = false }) w r (rw y at h)
    | inr n ↦ absurd (let h1 = rw n at h in cc)
  ]

  -- A move that was played on a position: the answer was a vertex, the active board shows that
  -- position, and what the session became is that position with the answer played on it.
  pub record IsPlayedOn (g : Game) (r : Reply) (t w : Session A Q) : Type 0 where
    pub text : Text
    pub board : Slot A
    pub after : Game
    pub answered : r ≡ vertex text
    pub active : active_slot t ≡ some board
    pub same_game : board.game ≡ g
    pub legal : answer_move (to_play g) text g ≡ ok after
    pub done :
        w
        ≡ position_changed board.id false
            (on_slot board.id (with_game after) (record t { thinking = false }))

  -- An engine's move is asked for, any messages come in that need no answer of an engine, and then
  -- the reply. If the session plays it, then it plays it for the color that was to move when it was
  -- asked for, on the active board, and that board shows the very game that was asked about.
  -- Before, the version of the active board was below the next one, and no other board with that
  -- version showed another game.
  pub settle_move-IsPlayedOn :
      (outside : Outside Q) (explicit : Bool) (color : Option ℕ) (b : Slot A) (a : Ask)
      (s u w : Session A Q) (vs : List Json) (r : Reply)
      → active_slot s ≡ some b
      → Fixed b.version b.game s
      → begin_move explicit color s ≡ asked a u
      → settle_move a r (handle_all outside vs u) ≡ (played, w)
      → IsPlayedOn b.game r (handle_all outside vs u) w
  unfolding active_slot emit
  settle_move-IsPlayedOn outside explicit color b a s u w vs r active fixed began settled =
      let t = handle_all outside vs u in
      let q = begin_move-IsAsked explicit color b s a u active began in
      let p = settle_move-IsPlayed a r t w settled in
      let (shown, version) =
        current_board-active a (record t { thinking = false }) p.board p.current in
      let start : Fixed b.version b.game u =
        subst (λ (x : Session A Q). Fixed b.version b.game x) (sym q.then_thinking)
          (record { older = fixed.older; same = fixed.same }) in
      let later = (handle_all-Steps outside vs u).fixed b.version b.game start in
      let same =
        find_slot-Shows b.version b.game t.active_board t.boards p.board later.same shown
          (version ∙ q.same_version) in
      record {
        text = p.text;
        board = p.board;
        after = p.after;
        answered = p.answered;
        active = shown;
        same_game = same;
        legal =
            subst (λ (n : ℕ). answer_move n p.text b.game ≡ ok p.after) q.same_mover
              (subst (λ (x : Game). answer_move a.mover p.text x ≡ ok p.after) same p.legal);
        done = p.done;
      }
