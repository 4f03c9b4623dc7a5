-- ===== src/Session/Moved.antt =====
-- gowui/session.py: where a board stands after it was moved.
use gowui.Base.{ℕ, ◌≡◌, List, ◌∷◌, ◌++◌, Option, some, text_eq, pos}
use gowui.Values.{Json, null, integer}
use gowui.Session.{Slot, Session}

module _ {A : Type 0} where
  -- A board of a list, with what stands before it and behind it.
  pub record IsSplit (i : ℕ) (b : Slot A) (before rest : List (Slot A)) : Type 0 where
    pub front : List (Slot A)
    pub back : List (Slot A)
    pub is_named : b.id ≡ i
    pub stood : before ≡ front ++ b ∷ back
    pub others : rest ≡ front ++ back

  -- Where `after` puts a board among the others: null puts it first, an id directly behind its board.
  pub data IsPlaced (b : Slot A) (rest new : List (Slot A)) : Option Json → Type 0 where
    first_of_all : new ≡ b ∷ rest → IsPlaced b rest new (some null)
    behind :
        (a : ℕ) (c : Slot A) (xs ys : List (Slot A))
        → c.id ≡ a
        → rest ≡ xs ++ c ∷ ys
        → new ≡ xs ++ c ∷ b ∷ ys
        → IsPlaced b rest new (some (integer (pos a)))

module _ {A Q : Type 0} where
  -- What an accepted move of the board `i` to `after` does to a session.
  pub record IsMoved (i : ℕ) (after : Option Json) (s t : Session A Q) : Type 0 where
    pub board : Slot A
    pub others : List (Slot A)
    pub taken : IsSplit i board s.boards others
    pub placed : IsPlaced board others t.boards after
    pub same_active : t.active_board ≡ s.active_board
    pub same_epoch : t.epoch ≡ s.epoch
    pub same_counter : t.next_board ≡ s.next_board
    pub same_auto : t.auto_running ≡ s.auto_running
