-- ===== src/Session/Versions.antt =====
-- gowui/session.py: a version that was given out goes on naming the position it named.
use gowui.Base.{
  ℕ, suc, ◌≡◌, ap, subst, List, [], ◌∷◌, ◌++◌, Option, none, some, ◌==◌, length, Bool-cases, ◌<◌,
  inl, inr, arith, leb, Result, ok, or_raise, raise_if, bind-eq-ok, ok-injective, codes, lookup,
  text_eq, ℤ, pos, negsuc, take,
}
use gowui.Game.{Game, new_game}
use gowui.Values.{Object, get}
use gowui.Preferences.{trim}
use gowui.Session.{
  Slot, Session, Refusal, internal, no_board, many_boards, max_boards, find_slot, active_slot,
  on_slot, emit_state, state_frame,
}
use gowui.Session.Read.{string_of, id_of}
use gowui.Session.Commands.{as_refusal}
use gowui.Session.Boards.{
  remove_slot, insert_after, slot_named, fresh_id, fresh_board, clone_as, put_slot, find_anchor,
  switch_to, switch_or_fail, anchor_of, rename_to, max_name, reset_last, drop_board,
  msg_board_select, msg_board_duplicate, msg_board_new, msg_board_move, msg_board_delete,
  msg_board_rename,
}
use gowui.Session.Shapes.{AllFixed, Fixed, Keeps_refl, emit-Keeps, on_slot-Keeps}
use gowui.Session.Standing.{switch_to-Keeps}
use gowui.Session.Finding.{or_raise-ok, rename_to-id, rename_to-same}

module _ {A : Type 0} (v : ℕ) (g : Game) where
  -- What holds of one board.
  abbrev Shows : Slot A → Type 0
  Shows b = b.version ≡ v → b.game ≡ g

  AllFixed-remove_slot :
      (i : ℕ) (ss : List (Slot A)) → AllFixed v g ss → AllFixed v g (remove_slot i ss)
  unfolding AllFixed remove_slot
  AllFixed-remove_slot i [] h = h
  AllFixed-remove_slot i (s ∷ ss) (a, h) = elim (Bool-cases (s.id == i)) [
    | inl y ↦ rw y h
    | inr n ↦ rw n (a, AllFixed-remove_slot i ss h)
  ]

  AllFixed-insert_after :
      (i : ℕ) (b : Slot A) (ss : List (Slot A))
      → Shows b
      → AllFixed v g ss
      → AllFixed v g (insert_after i b ss)
  unfolding AllFixed insert_after
  AllFixed-insert_after i b [] k h = h
  AllFixed-insert_after i b (s ∷ ss) k (a, h) = elim (Bool-cases (s.id == i)) [
    | inl y ↦ rw y (a, (k, h))
    | inr n ↦ rw n (a, AllFixed-insert_after i b ss k h)
  ]

  AllFixed-put_slot :
      (o : Option ℕ) (b : Slot A) (ss : List (Slot A))
      → Shows b
      → AllFixed v g ss
      → AllFixed v g (put_slot o b ss)
  unfolding AllFixed
  AllFixed-put_slot none b ss k h = (k, h)
  AllFixed-put_slot (some i) b ss k h = AllFixed-insert_after i b ss k h

  AllFixed-snoc :
      (b : Slot A) (ss : List (Slot A)) → Shows b → AllFixed v g ss → AllFixed v g (ss ++ b ∷ [])
  unfolding AllFixed
  AllFixed-snoc b [] k h = (k, tt)
  AllFixed-snoc b (s ∷ ss) k (a, h) = (a, AllFixed-snoc b ss k h)

  pub find_slot-Shows :
      (i : ℕ) (ss : List (Slot A)) (b : Slot A)
      → AllFixed v g ss
      → find_slot i ss ≡ some b
      → Shows b
  unfolding AllFixed find_slot
  find_slot-Shows i [] b h e = absurd (cc)
  find_slot-Shows i (s ∷ ss) b (a, h) e = elim (Bool-cases (s.id == i)) [
    | inl y ↦ let e1 = rw y at e in let same : s ≡ b = cc in subst Shows same a
    | inr n ↦ find_slot-Shows i ss b h (rw n at e)
  ]

  slot_named-Shows :
      (n : ℤ) (ss : List (Slot A)) (b : Slot A)
      → AllFixed v g ss
      → slot_named n ss ≡ some b
      → Shows b
  unfolding slot_named
  slot_named-Shows (pos n) ss b h e = find_slot-Shows n ss b h e
  slot_named-Shows (negsuc n) ss b h e = absurd (cc)

  -- A board with a version that was never given out shows anything.
  fresh_board-Shows : (i n : ℕ) (f : Game) (b : Slot A) → v < n → fresh_board i n f ≡ ok b → Shows b
  unfolding fresh_board
  fresh_board-Shows i n f b l h e =
      let (new, e1, h1) =
        bind-eq-ok (as_refusal internal (new_game (pos f.size) none f.rules.name (pos 0))) _ h in
      let same = ap (λ (c : Slot A). c.version) (ok-injective h1) in
      absurd (omega (arith, l, same, e))

module _ {A Q : Type 0} (v : ℕ) (g : Game) where
  switch_to-Fixed : (b : Slot A) (s : Session A Q) → Fixed v g s → Fixed v g (switch_to b s)
  switch_to-Fixed b s h =
      (switch_to-Keeps b s).fixed v g (record { older = h.older; same = h.same })

  emit_state-Fixed : (s : Session A Q) → Fixed v g s → Fixed v g (emit_state s)
  emit_state-Fixed s h = (emit-Keeps state_frame s s (Keeps_refl s)).fixed v g h

  module _ (s t : Session A Q) (fixed : Fixed v g s) where
    ended :
        (u : Session A Q)
        → Fixed v g u
        → ◌≡◌ {A = Result Refusal (Session A Q)} (ok u) (ok t)
        → Fixed v g t
    ended u k h = subst (λ (w : Session A Q). Fixed v g w) (ok-injective h) k

    named-Shows :
        (id : ℤ) (b : Slot A)
        → or_raise (slot_named id s.boards) no_board ≡ ok b
        → b.version ≡ v
        → b.game ≡ g
    named-Shows id b e =
        slot_named-Shows v g id s.boards b fixed.same
          (or_raise-ok (slot_named id s.boards) no_board b e)

    pub msg_board_select-Fixed : (m : Object) → msg_board_select m s ≡ ok t → Fixed v g t
    unfolding msg_board_select
    msg_board_select-Fixed m h =
        let (id, e, h1) = bind-eq-ok (id_of (get (codes "id") m)) _ h in
        let (b, e1, h2) = bind-eq-ok (or_raise (slot_named id s.boards) no_board) _ h1 in
        ended (switch_to b s) (switch_to-Fixed b s fixed) h2

    pub msg_board_duplicate-Fixed : (m : Object) → msg_board_duplicate m s ≡ ok t → Fixed v g t
    unfolding msg_board_duplicate
    msg_board_duplicate-Fixed m h =
        let (id, e, h1) = bind-eq-ok (id_of (get (codes "id") m)) _ h in
        let (b, e1, h2) = bind-eq-ok (or_raise (slot_named id s.boards) no_board) _ h1 in
        let (u, e2, h3) =
          bind-eq-ok (raise_if (leb max_boards (length s.boards)) many_boards) _ h2 in
        let (n, e3, h4) = bind-eq-ok (or_raise (fresh_id s.next_board s.boards) internal) _ h3 in
        ended _
          (switch_to-Fixed (clone_as n b)
            (record s { boards = insert_after b.id (clone_as n b) s.boards; next_board = suc n })
            (record {
              older = fixed.older;
              same =
                  AllFixed-insert_after v g b.id (clone_as n b) s.boards (named-Shows id b e1)
                    fixed.same;
            }))
          h4

    pub msg_board_new-Fixed : msg_board_new s ≡ ok t → Fixed v g t
    unfolding msg_board_new
    msg_board_new-Fixed h =
        let (u, e, h1) = bind-eq-ok (raise_if (leb max_boards (length s.boards)) many_boards) _ h in
        let (n, e1, h2) = bind-eq-ok (or_raise (fresh_id s.next_board s.boards) internal) _ h1 in
        let (a, e2, h3) = bind-eq-ok (or_raise (active_slot s) internal) _ h2 in
        let (b, e3, h4) = bind-eq-ok (fresh_board n s.next_version a.game) _ h3 in
        ended _
          (switch_to-Fixed b
            (record s {
              boards = s.boards ++ b ∷ [];
              next_board = suc n;
              next_version = suc s.next_version;
            })
            (record {
              older = (let l = fixed.older in omega (arith, l));
              same =
                  AllFixed-snoc v g b s.boards
                    (fresh_board-Shows v g n s.next_version a.game b fixed.older e3) fixed.same;
            }))
          h4

    pub msg_board_move-Fixed : (m : Object) → msg_board_move m s ≡ ok t → Fixed v g t
    unfolding msg_board_move
    msg_board_move-Fixed m h =
        let (id, e, h1) = bind-eq-ok (id_of (get (codes "id") m)) _ h in
        let (b, e1, h2) = bind-eq-ok (or_raise (slot_named id s.boards) no_board) _ h1 in
        let (named, e2, h3) = bind-eq-ok (anchor_of (lookup (codes "after") m)) _ h2 in
        let (anchor, e3, h4) = bind-eq-ok (find_anchor b.id named s.boards) _ h3 in
        ended _
          (emit_state-Fixed (record s { boards = put_slot anchor b (remove_slot b.id s.boards) })
            (record {
              older = fixed.older;
              same =
                  AllFixed-put_slot v g anchor b (remove_slot b.id s.boards) (named-Shows id b e1)
                    (AllFixed-remove_slot v g b.id s.boards fixed.same);
            }))
          h4

    reset_last-Fixed : (b : Slot A) → reset_last b s ≡ ok t → Fixed v g t
    unfolding reset_last AllFixed
    reset_last-Fixed b h =
        let (a, e, h1) = bind-eq-ok (or_raise (active_slot s) internal) _ h in
        let (new, e1, h2) = bind-eq-ok (fresh_board b.id s.next_version a.game) _ h1 in
        ended _
          (switch_to-Fixed new (record s { boards = new ∷ []; next_version = suc s.next_version })
            (record {
              older = (let l = fixed.older in omega (arith, l));
              same = (fresh_board-Shows v g b.id s.next_version a.game new fixed.older e1, tt);
            }))
          h2

    switch_or_fail-Fixed :
        (o : Option (Slot A)) (u : Session A Q)
        → Fixed v g u
        → switch_or_fail o u ≡ ok t
        → Fixed v g t
    switch_or_fail-Fixed none u k h = absurd (cc)
    switch_or_fail-Fixed (some b) u k h = ended (switch_to b u) (switch_to-Fixed b u k) h

    drop_board-Fixed : (b : Slot A) → drop_board b s ≡ ok t → Fixed v g t
    unfolding drop_board
    drop_board-Fixed b h =
        let u : Session A Q = record s {
          boards = remove_slot b.id s.boards;
          epoch = suc s.epoch;
        } in
        let k : Fixed v g u = record {
          older = fixed.older;
          same = AllFixed-remove_slot v g b.id s.boards fixed.same;
        } in
        elim (Bool-cases (b.id == s.active_board)) [
          | inl y ↦ switch_or_fail-Fixed _ u k (rw y at h)
          | inr n ↦ ended (emit_state u) (emit_state-Fixed u k) (rw n at h)
        ]

    pub msg_board_delete-Fixed : (m : Object) → msg_board_delete m s ≡ ok t → Fixed v g t
    unfolding msg_board_delete
    msg_board_delete-Fixed m h =
        let (id, e, h1) = bind-eq-ok (id_of (get (codes "id") m)) _ h in
        let (b, e1, h2) = bind-eq-ok (or_raise (slot_named id s.boards) no_board) _ h1 in
        elim (Bool-cases (length s.boards == 1)) [
          | inl y ↦ reset_last-Fixed b (rw y at h2)
          | inr n ↦ drop_board-Fixed b (rw n at h2)
        ]

    pub msg_board_rename-Fixed : (m : Object) → msg_board_rename m s ≡ ok t → Fixed v g t
    unfolding msg_board_rename
    msg_board_rename-Fixed m h =
        let (id, e, h1) = bind-eq-ok (id_of (get (codes "id") m)) _ h in
        let (name, e1, h2) = bind-eq-ok (string_of (get (codes "name") m)) _ h1 in
        let (b, e2, h3) = bind-eq-ok (or_raise (slot_named id s.boards) no_board) _ h2 in
        let n = trim (take max_name (trim name)) in
        ended _
          (emit_state-Fixed (on_slot b.id (rename_to n) s) (
            (on_slot-Keeps b.id (rename_to n) (rename_to-id n) (rename_to-same n) s).fixed v g
              fixed))
          h3
