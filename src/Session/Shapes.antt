-- ===== src/Session/Shapes.antt =====
-- gowui/session.py: the ids of the boards, and what leaves them as they are.
use gowui.Base.{
  ℕ, ◌≡◌, refl, sym, ap, ◌∙◌, Bool, true, false, not, ◌||◌, List, [], ◌∷◌, ◌==◌, length, Bool-cases,
  ◌<◌, ◌≤◌, is_some, arith,
}
use gowui.Base.{inl, inr}
use gowui.Game.{Game}
use gowui.Session.{
  Slot, Session, Frame, update_slot, max_boards, emit, on_slot, request_analysis, maybe_engine_move,
  engine_should_move, position_changed, emit_state, set_status, changed,
}

module _ {A : Type 0} where
  unfoldable pub ids : List (Slot A) → List ℕ
  ids [] = []
  ids (s ∷ ss) = s.id ∷ ids ss

  pub ids-update_slot :
      (i : ℕ) (f : Slot A → Slot A)
      → ((b : Slot A) → (f b).id ≡ b.id)
      → (ss : List (Slot A)) → ids (update_slot i f ss) ≡ ids ss
  unfolding ids update_slot
  ids-update_slot i f h [] = refl
  ids-update_slot i f h (s ∷ ss) = elim (Bool-cases (s.id == i)) [
    | inl y ↦ rw y (ap (λ (j : ℕ). j ∷ ids ss) (h s))
    | inr n ↦ rw n (ap (◌∷◌ s.id) (ids-update_slot i f h ss))
  ]

unfoldable pub member : ℕ → List ℕ → Bool
member i [] = false
member i (j ∷ js) = j == i || member i js

unfoldable pub IsBelow : ℕ → List ℕ → Type 0
IsBelow n [] = Unit {0}
IsBelow n (i ∷ is) = (i < n) × IsBelow n is

unfoldable pub IsDistinct : List ℕ → Type 0
IsDistinct [] = Unit {0}
IsDistinct (i ∷ is) = (member i is ≡ false) × IsDistinct is

-- Ids that are below the next one, all different, at most 64, and the active one among them.
pub record IsOrdered (is : List ℕ) (active next : ℕ) : Type 0 where
  pub below : IsBelow next is
  pub distinct : IsDistinct is
  pub few : length is ≤ max_boards
  pub holds_active : member active is ≡ true

module _ {A : Type 0} where
  unfoldable pub AllFixed : ℕ → Game → List (Slot A) → Type 0
  AllFixed v g [] = Unit {0}
  AllFixed v g (b ∷ bs) = (b.version ≡ v → b.game ≡ g) × AllFixed v g bs

  pub AllFixed-update_slot :
      (v : ℕ) (g : Game) (i : ℕ) (f : Slot A → Slot A)
      → ((b : Slot A) → (b.version ≡ v → b.game ≡ g) → (f b).version ≡ v → (f b).game ≡ g)
      → (ss : List (Slot A)) → AllFixed v g ss
      → AllFixed v g (update_slot i f ss)
  unfolding AllFixed update_slot
  AllFixed-update_slot v g i f k [] h = h
  AllFixed-update_slot v g i f k (s ∷ ss) (a, h) = elim (Bool-cases (s.id == i)) [
    | inl y ↦ rw y (k s a, h)
    | inr n ↦ rw n (a, AllFixed-update_slot v g i f k ss h)
  ]

  -- Two writes to a board are one.
  pub update_slot-update_slot :
      (i : ℕ) (f g : Slot A → Slot A)
      → ((b : Slot A) → (f b).id ≡ b.id)
      → (ss : List (Slot A))
      → update_slot i g (update_slot i f ss) ≡ update_slot i (λ (b : Slot A). g (f b)) ss
  unfolding update_slot
  update_slot-update_slot i f g h [] = refl
  update_slot-update_slot i f g h (s ∷ ss) = elim (Bool-cases (s.id == i)) [
    | inl y ↦ rw (y, h s, y) refl
    | inr n ↦ rw (n, n) (ap (λ (r : List (Slot A)). s ∷ r) (update_slot-update_slot i f g h ss))
  ]

module _ {A Q : Type 0} where
  unfoldable pub IsSound : Session A Q → Type 0
  IsSound s = IsOrdered (ids s.boards) s.active_board s.next_board

  -- A version that was given out names a position: every board with it shows the game.
  pub record Fixed (v : ℕ) (g : Game) (s : Session A Q) : Type 0 where
    pub older : v < s.next_version
    pub same : AllFixed v g s.boards

  -- The boards of the second session stand as those of the first, and versions name what they named.
  pub record Keeps (s t : Session A Q) : Type 0 where
    pub same_ids : ids t.boards ≡ ids s.boards
    pub same_active : t.active_board ≡ s.active_board
    pub same_next : t.next_board ≡ s.next_board
    pub fixed : (v : ℕ) (g : Game) → Fixed v g s → Fixed v g t

  pub Keeps-IsSound : (s t : Session A Q) → Keeps s t → IsSound s → IsSound t
  unfolding IsSound
  Keeps-IsSound s t k h = rw (k.same_ids, k.same_active, k.same_next) h

  pub Keeps_trans : (s t u : Session A Q) → Keeps s t → Keeps t u → Keeps s u
  Keeps_trans s t u k l = record {
    same_ids = l.same_ids ∙ k.same_ids;
    same_active = l.same_active ∙ k.same_active;
    same_next = l.same_next ∙ k.same_next;
    fixed = λ v g h. l.fixed v g (k.fixed v g h);
  }

  pub Keeps_refl : (s : Session A Q) → Keeps s s
  Keeps_refl s = record {
    same_ids = refl;
    same_active = refl;
    same_next = refl;
    fixed = λ v g h. record { older = h.older; same = h.same };
  }

  pub request_analysis-Keeps : (s : Session A Q) → Keeps s (request_analysis s)
  unfolding request_analysis
  request_analysis-Keeps s = elim (Bool-cases (not (is_some s.engine) || s.closed)) [
    | inl y ↦ rw y (Keeps_refl s)
    | inr n ↦ rw n (record {
      same_ids = refl;
      same_active = refl;
      same_next = refl;
      fixed = λ v g h. record { older = h.older; same = h.same };
    })
  ]

  pub maybe_engine_move-Keeps : (s : Session A Q) → Keeps s (maybe_engine_move s)
  unfolding maybe_engine_move
  maybe_engine_move-Keeps s = elim (Bool-cases (engine_should_move s)) [
    | inl y ↦ rw y (record {
      same_ids = refl;
      same_active = refl;
      same_next = refl;
      fixed = λ v g h. record { older = h.older; same = h.same };
    })
    | inr n ↦ rw n (Keeps_refl s)
  ]

  pub on_slot-Keeps :
      (i : ℕ) (f : Slot A → Slot A)
      → ((b : Slot A) → (f b).id ≡ b.id)
      → ((b : Slot A) → ((f b).version ≡ b.version) × ((f b).game ≡ b.game))
      → (s : Session A Q) → Keeps s (on_slot i f s)
  on_slot-Keeps i f h n s = record {
    same_ids = ids-update_slot i f h s.boards;
    same_active = refl;
    same_next = refl;
    fixed = λ v g k. record {
      older = k.older;
      same = AllFixed-update_slot v g i f (λ b a e. (n b).1 ∙ a (sym (n b).0 ∙ e)) s.boards k.same;
    };
  }

  pub asked-Keeps : (s t : Session A Q) → Keeps s t → Keeps s (request_analysis t)
  asked-Keeps s t k = Keeps_trans s t (request_analysis t) k (request_analysis-Keeps t)

  pub rearmed-Keeps :
      (s t : Session A Q) → Keeps s t → Keeps s (request_analysis (maybe_engine_move t))
  rearmed-Keeps s t k =
      asked-Keeps s (maybe_engine_move t)
        (Keeps_trans s t (maybe_engine_move t) k (maybe_engine_move-Keeps t))

  pub emit-Keeps : (f : Frame A) (s t : Session A Q) → Keeps s t → Keeps s (emit f t)
  unfolding emit
  emit-Keeps f s t k = record {
    same_ids = k.same_ids;
    same_active = k.same_active;
    same_next = k.same_next;
    fixed = λ v g h. let r = k.fixed v g h in record { older = r.older; same = r.same };
  }

  module _ (i : ℕ) (f : Slot A → Slot A) (same_id : (b : Slot A) → (f b).id ≡ b.id)
      (s : Session A Q) where
    -- A board that is written to has a new version, which no board had.
    announced-Keeps : Keeps s (emit_state (set_status (changed i (on_slot i f s))))
    unfolding emit
    announced-Keeps =
        let anew = λ (b : Slot A). record b { version = s.next_version } in
        record {
          same_ids =
              ids-update_slot i anew (λ b. refl) (update_slot i f s.boards)
              ∙ ids-update_slot i f same_id s.boards;
          same_active = refl;
          same_next = refl;
          fixed = λ v g k. record {
            older = (let l = k.older in omega (arith, l));
            same = rw (update_slot-update_slot i f anew same_id s.boards) (
                AllFixed-update_slot v g i (λ (b : Slot A). anew (f b))
                  (λ b a e. absurd (let l = k.older in omega (arith, l, e))) s.boards k.same);
          };
        }

    -- A change of the position after a write to the board.
    pub moved_on-Keeps : (rearm : Bool) → Keeps s (position_changed i rearm (on_slot i f s))
    unfolding position_changed
    moved_on-Keeps true =
        rearmed-Keeps s (emit_state (set_status (changed i (on_slot i f s)))) announced-Keeps
    moved_on-Keeps false =
        asked-Keeps s (emit_state (set_status (changed i (on_slot i f s)))) announced-Keeps
