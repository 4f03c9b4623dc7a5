-- ===== src/Session/Standing.antt =====
-- gowui/session.py: the boards of a session through every message: their ids differ and are below
-- the next one, there are at most 64, and the active one is among them.
use gowui.Base.{
  ℕ, suc, ◌≡◌, refl, sym, ◌∙◌, subst, Bool, true, false, List, [], ◌∷◌, ◌++◌, Option, none, some,
  ◌==◌, length, Bool-cases, ◌<◌, inl, inr, arith, leb, Result, ok, or_raise, raise_if, bind-eq-ok,
  ok-injective, Text, codes, lookup, text_eq, ℤ, take,
}
use gowui.Values.{Object, get}
use gowui.Preferences.{trim}
use gowui.Session.{
  Slot, Session, Refusal, internal, no_board, many_boards, after_itself, max_boards, active_slot,
  current_analysis, on_slot, emit, emit_state, set_status, state_frame, analysis_frame,
}
use gowui.Session.Read.{string_of, id_of}
use gowui.Session.Boards.{
  remove_slot, insert_after, slot_in_place, slot_named, fresh_id, fresh_board, clone_as, put_slot,
  find_anchor, switch_to, switch_or_fail, anchor_of, show_analysis, rename_to, max_name, reset_last,
  drop_board, msg_board_select, msg_board_duplicate, msg_board_new, msg_board_move,
  msg_board_delete, msg_board_rename,
}
use gowui.Session.Shapes.{
  ids, member, IsOrdered, IsSound, Keeps, Keeps-IsSound, emit-Keeps, rearmed-Keeps, on_slot-Keeps,
}
use gowui.Session.Finding.{
  or_raise-ok, raise_if-ok, slot_named-member, slot_in_place-member, fresh_id-next, fresh_board-id,
  rename_to-id, rename_to-same,
}
use gowui.Session.Orders.{
  grown-IsOrdered, shrunk-IsOrdered, moved-IsOrdered, alone-IsOrdered, member-below,
}
use gowui.Session.Places.{
  ids-remove_slot, ids-insert_after, ids-snoc, length-ids, Inserted, here, put_after-Inserted,
  snoc-Inserted, without-Inserted, differs, member-Inserted,
}

module _ {A Q : Type 0} where
  shown-Keeps :
      (e : Bool) (i : ℕ) (a : Option A) (s t : Session A Q)
      → Keeps s t
      → Keeps s (show_analysis e i a t)
  shown-Keeps true i (some a) s t k = emit-Keeps (analysis_frame i a) s t k
  shown-Keeps true i none s t k = k
  shown-Keeps false i a s t k = k

  pub switch_to-Keeps :
      (b : Slot A) (s : Session A Q) → Keeps (record s { active_board = b.id }) (switch_to b s)
  unfolding switch_to emit
  switch_to-Keeps b s =
      let u : Session A Q = record s { active_board = b.id } in
      let v = emit_state (set_status (record s { epoch = suc s.epoch; active_board = b.id })) in
      let w = show_analysis v.play_settings.analysis_enabled b.id (current_analysis b) v in
      rearmed-Keeps u w (
        shown-Keeps v.play_settings.analysis_enabled b.id (current_analysis b) u v (record {
          same_ids = refl;
          same_active = refl;
          same_next = refl;
          fixed = λ v g h. record { older = h.older; same = h.same };
        }))

  -- A board that stands among the boards becomes the active one.
  switch_to-IsSound :
      (b : Slot A) (s : Session A Q)
      → IsOrdered (ids s.boards) b.id s.next_board
      → IsSound (switch_to b s)
  unfolding IsSound
  switch_to-IsSound b s h =
      Keeps-IsSound (record s { active_board = b.id }) (switch_to b s) (switch_to-Keeps b s) h

  module _ (s t : Session A Q) (sound : IsSound s) where
    ended :
        (u : Session A Q)
        → IsSound u
        → ◌≡◌ {A = Result Refusal (Session A Q)} (ok u) (ok t)
        → IsSound t
    ended u k h = subst (λ (v : Session A Q). IsSound v) (ok-injective h) k

    renamed-IsSound : (i : ℕ) (name : Text) → IsSound (emit_state (on_slot i (rename_to name) s))
    renamed-IsSound i name =
        Keeps-IsSound s (emit_state (on_slot i (rename_to name) s))
          (emit-Keeps state_frame s (on_slot i (rename_to name) s)
            (on_slot-Keeps i (rename_to name) (rename_to-id name) (rename_to-same name) s))
          sound

    pub msg_board_select-IsSound : (m : Object) → msg_board_select m s ≡ ok t → IsSound t
    unfolding msg_board_select IsSound
    msg_board_select-IsSound m h =
        let (id, e, h1) = bind-eq-ok (id_of (get (codes "id") m)) _ h in
        let (b, e1, h2) = bind-eq-ok (or_raise (slot_named id s.boards) no_board) _ h1 in
        let found =
          slot_named-member id s.boards b (or_raise-ok (slot_named id s.boards) no_board b e1) in
        ended (switch_to b s)
          (switch_to-IsSound b s (record {
            below = sound.below;
            distinct = sound.distinct;
            few = sound.few;
            holds_active = found;
          }))
          h2

    -- A board with the next id that is put in becomes the active one.
    grown-IsSound :
        (b : Slot A) (ss : List (Slot A)) (n v : ℕ)
        → n ≡ s.next_board
        → b.id ≡ n
        → Inserted b.id (ids s.boards) (ids ss)
        → leb max_boards (length s.boards) ≡ false
        → IsSound (switch_to b (record s { boards = ss; next_board = suc n; next_version = v }))
    unfolding IsSound
    grown-IsSound b ss n v next named p room =
        let few : length (ids s.boards) < max_boards =
          rw (length-ids s.boards) (ground (arith, room)) in
        switch_to-IsSound b (record s { boards = ss; next_board = suc n; next_version = v })
          (rw (named, next)
            (grown-IsOrdered (ids s.boards) (ids ss) s.active_board s.next_board
              (rw (named, next) at p) few sound))

    fresh_id-is_next :
        (n : ℕ) → or_raise (fresh_id s.next_board s.boards) internal ≡ ok n → n ≡ s.next_board
    unfolding IsSound
    fresh_id-is_next n h =
        let made = or_raise-ok (fresh_id s.next_board s.boards) internal n h in
        let next = fresh_id-next s.next_board s.boards sound.below in cc

    cloned-Inserted :
        (id : ℤ) (b : Slot A) (n : ℕ)
        → or_raise (slot_named id s.boards) no_board ≡ ok b
        → Inserted n (ids s.boards) (ids (insert_after b.id (clone_as n b) s.boards))
    cloned-Inserted id b n h =
        let found =
          slot_named-member id s.boards b (or_raise-ok (slot_named id s.boards) no_board b h) in
        rw (ids-insert_after b.id (clone_as n b) s.boards)
          (put_after-Inserted b.id n (ids s.boards) found)

    pub msg_board_duplicate-IsSound : (m : Object) → msg_board_duplicate m s ≡ ok t → IsSound t
    unfolding msg_board_duplicate
    msg_board_duplicate-IsSound m h =
        let (id, e, h1) = bind-eq-ok (id_of (get (codes "id") m)) _ h in
        let (b, e1, h2) = bind-eq-ok (or_raise (slot_named id s.boards) no_board) _ h1 in
        let (u, e2, h3) =
          bind-eq-ok (raise_if (leb max_boards (length s.boards)) many_boards) _ h2 in
        let (n, e3, h4) = bind-eq-ok (or_raise (fresh_id s.next_board s.boards) internal) _ h3 in
        ended _
          (grown-IsSound (clone_as n b) (insert_after b.id (clone_as n b) s.boards) n s.next_version
            (fresh_id-is_next n e3) refl (cloned-Inserted id b n e1)
            (raise_if-ok (leb max_boards (length s.boards)) many_boards u e2))
          h4

    added-Inserted : (b : Slot A) → Inserted b.id (ids s.boards) (ids (s.boards ++ b ∷ []))
    added-Inserted b = rw (ids-snoc b s.boards) (snoc-Inserted b.id (ids s.boards))

    pub msg_board_new-IsSound : msg_board_new s ≡ ok t → IsSound t
    unfolding msg_board_new
    msg_board_new-IsSound h =
        let (u, e, h1) = bind-eq-ok (raise_if (leb max_boards (length s.boards)) many_boards) _ h in
        let (n, e1, h2) = bind-eq-ok (or_raise (fresh_id s.next_board s.boards) internal) _ h1 in
        let (a, e2, h3) = bind-eq-ok (or_raise (active_slot s) internal) _ h2 in
        let (b, e3, h4) = bind-eq-ok (fresh_board n s.next_version a.game) _ h3 in
        ended _
          (grown-IsSound b (s.boards ++ b ∷ []) n (suc s.next_version) (fresh_id-is_next n e1)
            (fresh_board-id n s.next_version a.game b e3) (added-Inserted b)
            (raise_if-ok (leb max_boards (length s.boards)) many_boards u e))
          h4

    removed-Inserted :
        (i : ℕ)
        → member i (ids s.boards) ≡ true
        → Inserted i (ids (remove_slot i s.boards)) (ids s.boards)
    removed-Inserted i m = rw (ids-remove_slot i s.boards) (without-Inserted i (ids s.boards) m)

    still-member :
        (i j : ℕ)
        → member i (ids s.boards) ≡ true
        → (i == j) ≡ false
        → member j (ids s.boards) ≡ true
        → member j (ids (remove_slot i s.boards)) ≡ true
    still-member i j m n k =
        let split =
          sym (
            member-Inserted i j (ids (remove_slot i s.boards)) (ids s.boards)
              (removed-Inserted i m))
          ∙ k in
        rw n at split

    anchored-Inserted :
        (anchor : Option ℕ) (b : Slot A) (a : ℕ)
        → ◌≡◌ {A = Result Refusal (Option ℕ)} (ok (some a)) (ok anchor)
        → member a (ids (remove_slot b.id s.boards)) ≡ true
        → Inserted b.id
            (ids (remove_slot b.id s.boards))
            (ids (put_slot anchor b (remove_slot b.id s.boards)))
    anchored-Inserted anchor b a h m = rw⁻¹ (ok-injective h) (
        rw (ids-insert_after a b (remove_slot b.id s.boards))
          (put_after-Inserted a b.id (ids (remove_slot b.id s.boards)) m))

    put_slot-Inserted :
        (named : Option ℤ) (anchor : Option ℕ) (b : Slot A)
        → member b.id (ids s.boards) ≡ true
        → find_anchor b.id named s.boards ≡ ok anchor
        → Inserted b.id
            (ids (remove_slot b.id s.boards))
            (ids (put_slot anchor b (remove_slot b.id s.boards)))
    unfolding find_anchor ids
    put_slot-Inserted none anchor b m h =
        rw⁻¹ (ok-injective h) (here (ids (remove_slot b.id s.boards)))
    put_slot-Inserted (some n) anchor b m h =
        let (c, e, h1) = bind-eq-ok (or_raise (slot_named n s.boards) no_board) _ h in
        let (u, e1, h2) = bind-eq-ok (raise_if (c.id == b.id) after_itself) _ h1 in
        let found =
          slot_named-member n s.boards c (or_raise-ok (slot_named n s.boards) no_board c e) in
        anchored-Inserted anchor b c.id h2 (
          still-member b.id c.id m
            (differs c.id b.id (raise_if-ok (c.id == b.id) after_itself u e1)) found)

    pub msg_board_move-IsSound : (m : Object) → msg_board_move m s ≡ ok t → IsSound t
    unfolding msg_board_move IsSound emit
    msg_board_move-IsSound m h =
        let (id, e, h1) = bind-eq-ok (id_of (get (codes "id") m)) _ h in
        let (b, e1, h2) = bind-eq-ok (or_raise (slot_named id s.boards) no_board) _ h1 in
        let (named, e2, h3) = bind-eq-ok (anchor_of (lookup (codes "after") m)) _ h2 in
        let (anchor, e3, h4) = bind-eq-ok (find_anchor b.id named s.boards) _ h3 in
        let found =
          slot_named-member id s.boards b (or_raise-ok (slot_named id s.boards) no_board b e1) in
        ended _
          (moved-IsOrdered b.id _ _ _ s.active_board s.next_board (removed-Inserted b.id found)
            (put_slot-Inserted named anchor b found e3) sound)
          h4

    reset_last-IsSound :
        (b : Slot A) → member b.id (ids s.boards) ≡ true → reset_last b s ≡ ok t → IsSound t
    unfolding reset_last IsSound ids
    reset_last-IsSound b m h =
        let (a, e, h1) = bind-eq-ok (or_raise (active_slot s) internal) _ h in
        let (new, e1, h2) = bind-eq-ok (fresh_board b.id s.next_version a.game) _ h1 in
        let named = fresh_board-id b.id s.next_version a.game new e1 in
        ended _
          (switch_to-IsSound new (record s { boards = new ∷ []; next_version = suc s.next_version })
            (alone-IsOrdered new.id s.next_board
              (rw named (member-below s.next_board b.id (ids s.boards) m sound.below))))
          h2

    -- The active board is gone, and one of the others becomes active.
    replaced-IsSound :
        (i : ℕ) (next : Option (Slot A)) (v : Session A Q)
        → member i (ids s.boards) ≡ true
        → slot_in_place i s.boards (remove_slot i s.boards) ≡ next
        → v.boards ≡ remove_slot i s.boards
        → v.next_board ≡ s.next_board
        → switch_or_fail next v ≡ ok t
        → IsSound t
    unfolding IsSound
    replaced-IsSound i none v m e same same_next h = absurd (cc)
    replaced-IsSound i (some b) v m e same same_next h =
        let at_hand = slot_in_place-member i s.boards (remove_slot i s.boards) b e in
        ended (switch_to b v)
          (switch_to-IsSound b v (
            rw (same, same_next)
              (shrunk-IsOrdered i _ (ids s.boards) s.active_board b.id s.next_board
                (removed-Inserted i m) at_hand sound)))
          h

    drop_board-IsSound :
        (b : Slot A) → member b.id (ids s.boards) ≡ true → drop_board b s ≡ ok t → IsSound t
    unfolding drop_board IsSound emit
    drop_board-IsSound b m h =
        let v : Session A Q = record s {
          boards = remove_slot b.id s.boards;
          epoch = suc s.epoch;
        } in
        elim (Bool-cases (b.id == s.active_board)) [
          | inl y ↦ replaced-IsSound b.id _ v m refl refl refl (rw y at h)
          | inr n ↦
              ended (emit_state v)
                (shrunk-IsOrdered b.id _ (ids s.boards) s.active_board s.active_board s.next_board
                  (removed-Inserted b.id m)
                  (still-member b.id s.active_board m n sound.holds_active) sound)
                (rw n at h)
        ]

    pub msg_board_delete-IsSound : (m : Object) → msg_board_delete m s ≡ ok t → IsSound t
    unfolding msg_board_delete
    msg_board_delete-IsSound m h =
        let (id, e, h1) = bind-eq-ok (id_of (get (codes "id") m)) _ h in
        let (b, e1, h2) = bind-eq-ok (or_raise (slot_named id s.boards) no_board) _ h1 in
        let found =
          slot_named-member id s.boards b (or_raise-ok (slot_named id s.boards) no_board b e1) in
        elim (Bool-cases (length s.boards == 1)) [
          | inl y ↦ reset_last-IsSound b found (rw y at h2)
          | inr n ↦ drop_board-IsSound b found (rw n at h2)
        ]

    pub msg_board_rename-IsSound : (m : Object) → msg_board_rename m s ≡ ok t → IsSound t
    unfolding msg_board_rename
    msg_board_rename-IsSound m h =
        let (id, e, h1) = bind-eq-ok (id_of (get (codes "id") m)) _ h in
        let (name, e1, h2) = bind-eq-ok (string_of (get (codes "name") m)) _ h1 in
        let (b, e2, h3) = bind-eq-ok (or_raise (slot_named id s.boards) no_board) _ h2 in
        ended _ (renamed-IsSound b.id (trim (take max_name (trim name)))) h3
