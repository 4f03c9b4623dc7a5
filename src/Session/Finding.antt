-- ===== src/Session/Finding.antt =====
-- gowui/session.py: the boards that the messages find, make and rename.
use gowui.Base.{
  ℕ, ◌≡◌, refl, sym, ap, ◌∙◌, Bool, true, false, List, [], ◌∷◌, Option, none, some, ◌==◌,
  Bool-cases, inl, inr, ==_self, arith, ok, or_raise, raise_if, bind-eq-ok, ok-injective, Text,
  text_eq, ℤ, pos, negsuc,
}
use gowui.Game.{Game, new_game}
use gowui.Values.{Json, integer}
use gowui.Session.{Slot, internal}
use gowui.Session.Read.{id_of}
use gowui.Session.Commands.{as_refusal}
use gowui.Session.Boards.{slot_in_place, slot_named, fresh_from, fresh_id, fresh_board, rename_to}
use gowui.Session.Shapes.{ids, member, IsBelow}
use gowui.Session.Places.{member-find_slot, has_id-member, member-IsBelow}

pub or_raise-ok {ℓ} :
    {A : Type ℓ} {E : Type 0} (o : Option A) (e : E) (a : A) → or_raise o e ≡ ok a → o ≡ some a
or_raise-ok none e a h = absurd (cc)
or_raise-ok (some b) e a h = ap some (ok-injective h)

pub raise_if-ok : {E : Type 0} (c : Bool) (e : E) (u : Unit {0}) → raise_if c e ≡ ok u → c ≡ false
raise_if-ok true e u h = absurd (cc)
raise_if-ok false e u h = refl

pub later : (i j : ℕ) (is : List ℕ) → member j is ≡ true → member j (i ∷ is) ≡ true
unfolding member
later i j is h = ground (arith, h)

pub id_of-named : (i : ℕ) (n : ℤ) (v : Json) → v ≡ integer (pos i) → id_of v ≡ ok n → pos i ≡ n
unfolding id_of
id_of-named i n v e h = ok-injective (sym (ap id_of e) ∙ h)

module _ {A : Type 0} where
  pub slot_named-member :
      (n : ℤ) (ss : List (Slot A)) (b : Slot A)
      → slot_named n ss ≡ some b
      → member b.id (ids ss) ≡ true
  unfolding slot_named
  slot_named-member (pos n) ss b h = let (e, m) = member-find_slot n ss b h in rw e m
  slot_named-member (negsuc n) ss b h = absurd (cc)

  pub heads-member :
      (r : Slot A) (rest : List (Slot A)) (b : Slot A) → r ≡ b → member b.id (ids (r ∷ rest)) ≡ true
  unfolding member ids
  heads-member r rest b e = rw (sym e, ==_self r.id) refl

  pub slot_named-id :
      (i : ℕ) (n : ℤ) (ss : List (Slot A)) (b : Slot A)
      → pos i ≡ n
      → slot_named n ss ≡ some b
      → b.id ≡ i
  unfolding slot_named
  slot_named-id i n ss b e h = (member-find_slot i ss b (rw (← e) at h)).0

  pub slot_in_place-member :
      (i : ℕ) (ss rest : List (Slot A)) (b : Slot A)
      → slot_in_place i ss rest ≡ some b
      → member b.id (ids rest) ≡ true
  unfolding slot_in_place member ids
  slot_in_place-member i [] rest b h = absurd (cc)
  slot_in_place-member i (s ∷ ss) [] b h = absurd (cc)
  slot_in_place-member i (s ∷ ss) (r ∷ []) b h = heads-member r [] b (let same : r ≡ b = cc in same)
  slot_in_place-member i (s ∷ ss) (r ∷ q ∷ rest) b h = elim (Bool-cases (s.id == i)) [
    | inl y ↦ heads-member r (q ∷ rest) b (let h1 = rw y at h in cc)
    | inr n ↦ later r.id b.id (ids (q ∷ rest)) (slot_in_place-member i ss (q ∷ rest) b (rw n at h))
  ]

  pub fresh_id-next :
      (next : ℕ) (ss : List (Slot A)) → IsBelow next (ids ss) → fresh_id next ss ≡ some next
  unfolding fresh_id fresh_from
  fresh_id-next next ss h = rw (has_id-member next ss, member-IsBelow next (ids ss) h) refl

  pub fresh_board-id : (i v : ℕ) (g : Game) (b : Slot A) → fresh_board i v g ≡ ok b → b.id ≡ i
  unfolding fresh_board
  fresh_board-id i v g b h =
      let (new, e, h1) =
        bind-eq-ok (as_refusal internal (new_game (pos g.size) none g.rules.name (pos 0))) _ h in
      sym (ap (λ (c : Slot A). c.id) (ok-injective h1))

  pub rename_to-id : (name : Text) (b : Slot A) → (rename_to name b).id ≡ b.id
  rename_to-id [] b = refl
  rename_to-id (c ∷ cs) b = refl

  pub rename_to-same :
      (name : Text) (b : Slot A)
      → ((rename_to name b).version ≡ b.version) × ((rename_to name b).game ≡ b.game)
  rename_to-same [] b = (refl, refl)
  rename_to-same (c ∷ cs) b = (refl, refl)
