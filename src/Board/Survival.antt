-- ===== src/Board/Survival.antt =====
-- Every chain keeps a liberty when a stone is placed at `i` and dead enemy chains are removed.
use gowui.Base.{
  ℕ, ◌*◌, ◌<◌, ◌≡◌, ◌≢◌, ◌⊎◌, inl, inr, sym, true, List, arith, length, ◌==◌, Bool-cases, ==_iff,
  ne-of-==, ◌∙◌, ap, subst, set,
}
use gowui.Board.{empty, stone_at, contains, neighbours}
use gowui.Board.Neighbours.{neighbours_symm}
use gowui.Board.Chain.{Linked, Linked-lt}
use gowui.Board.Stones.{stone_at-set}
use gowui.Board.Alive.{
  HasLiberty, IsAlive, HasLiberty-Linked, Linked-color, Linked-Keeps, HasLiberty-Keeps, Keeps,
}
use gowui.Board.Capture.{Removes, Removes-empty}

-- The board `old` with a stone of colour `c` placed at the empty point `i`.
pub record Placed (size : ℕ) (old : List ℕ) (c i : ℕ) (placed : List ℕ) : Type 0 where
  pub stone : c ≢ empty
  pub was_empty : stone_at old i ≡ empty
  pub at_point : stone_at placed i ≡ c
  pub elsewhere : (k : ℕ) → k ≢ i → stone_at placed k ≡ stone_at old k

pub set-Placed :
    (size : ℕ) (old : List ℕ) (c i : ℕ)
    → i < length old
    → c ≢ empty
    → stone_at old i ≡ empty
    → Placed size old c i (set old i c)
set-Placed size old c i on stone e = record {
  stone = stone;
  was_empty = e;
  at_point = stone_at-set old i c i on ∙ ground arith;
  elsewhere = λ k h. stone_at-set old i c k on ∙ ground arith;
}

module _ (size : ℕ) (old : List ℕ) (c i : ℕ) (placed new : List ℕ)
    (put : Placed size old c i placed) where
  -- A stone of the old board is not the new one.
  old-ne : (v k : ℕ) → v ≢ empty → stone_at old k ≡ v → k ≢ i
  old-ne v k h e z = h (sym e ∙ ap (stone_at old) z ∙ put.was_empty)

  placed-old : (v k : ℕ) → v ≢ empty → stone_at old k ≡ v → stone_at placed k ≡ v
  placed-old v k h e = put.elsewhere k (old-ne v k h e) ∙ e

  -- Whole chains removed from the placed board are whole on the old one.
  pub Keeps-old : (v : ℕ) → v ≢ empty → Keeps size placed new v → Keeps size old new v
  Keeps-old v h keep a b n x y z = keep a b n (placed-old v a h x) (placed-old v b h y) z

  -- A removal of the other colour's chains takes no stone of this one.
  pub Keeps-other : (v w : ℕ) → v ≢ w → Removes size w placed new → Keeps size placed new v
  Keeps-other v w h r a b n x y z = elim (r.point b) [
    | inl same ↦ same ∙ y
    | inr (p, q) ↦ absurd (h (sym y ∙ p))
  ]

  -- An old chain that stays: its old liberty is still one, or it is next to the new stone.
  pub old_liberty :
      (v p w : ℕ)
      → v ≢ empty
      → IsAlive size old
      → Removes size w placed new
      → Keeps size old new v
      → p < size * size
      → stone_at old p ≡ v
      → stone_at new p ≡ v
      → HasLiberty size new v p
        ⊎ ((j : ℕ) × Linked size new v p j
            × (j < size * size)
            × (stone_at old j ≡ v)
            × (stone_at new j ≡ v)
            × (contains (neighbours size j) i ≡ true))
  old_liberty v p w h alive r keep on x y =
      let l = alive p v on x h in
      let (linked, kept) = Linked-Keeps size old new v keep x y l.linked in
      elim (Bool-cases (l.free == i)) [
        | inl this ↦ inr (
          l.point,
          linked,
          Linked-lt size old v p on l.linked,
          Linked-color size old v x l.linked,
          kept,
          subst (λ (k : ℕ). contains (neighbours size l.point) k ≡ true) ((==_iff l.free i).0 this)
              l.is_next,
        )
        | inr other ↦ inl (
            HasLiberty-Keeps size old new v p keep x y l (
              Removes-empty size w l.free r
                (put.elsewhere l.free (ne-of-== l.free i other) ∙ l.is_free)))
      ]

  new_old :
      (w v p : ℕ)
      → Removes size w placed new
      → v ≢ empty
      → p ≢ i
      → stone_at new p ≡ v
      → stone_at old p ≡ v
  new_old w v p r h ne e = elim (r.point p) [
    | inl same ↦ sym (put.elsewhere p ne) ∙ sym same ∙ e
    | inr (x, y) ↦ absurd (h (sym e ∙ y))
  ]

  -- After captures, a stone of the other colour `w`.
  pub enemy_lives :
      (w p : ℕ)
      → w ≢ empty
      → w ≢ c
      → i < size * size
      → IsAlive size old
      → Removes size w placed new
      → ((n : ℕ)
          → contains (neighbours size i) n ≡ true
          → stone_at placed n ≡ w
          → (stone_at new n ≡ empty) ⊎ HasLiberty size new w n)
      → p < size * size
      → p ≢ i
      → stone_at new p ≡ w
      → HasLiberty size new w p
  enemy_lives w p h d on-i alive r settled on ne e =
      let x = new_old w w p r h ne e in
      elim (old_liberty w p w h alive r (Keeps-old w h r.whole) on x e) [
        | inl l ↦ l
        | inr (j, linked, on-j, x-j, e-j, n) ↦
            elim (settled j (neighbours_symm size j i on-j n) (placed-old w j h x-j)) [
              | inl gone ↦ absurd (h (sym e-j ∙ gone))
              | inr l ↦ HasLiberty-Linked linked l
            ]
      ]

  -- After captures, a stone of the player's colour, if the new stone has a liberty.
  pub own_lives :
      (w p : ℕ)
      → c ≢ w
      → IsAlive size old
      → Removes size w placed new
      → HasLiberty size new c i
      → stone_at new i ≡ c
      → p < size * size
      → stone_at new p ≡ c
      → HasLiberty size new c p
  own_lives w p d alive r own e-i on e = elim (Bool-cases (p == i)) [
    | inl this ↦ subst (HasLiberty size new c) (sym ((==_iff p i).0 this)) own
    | inr other ↦
        let x = new_old w c p r put.stone (ne-of-== p i other) e in
        elim (old_liberty c p w put.stone alive r (Keeps-old c put.stone (Keeps-other c w d r)) on x
          e) [
            | inl l ↦ l
            | inr (j, linked, on-j, x-j, e-j, n) ↦ HasLiberty-Linked (Linked.next linked n e-i) own
          ]
  ]

  -- After the removal of the new stone's own chain, which leaves `i` empty.
  pub suicide_lives :
      (v p : ℕ)
      → v ≢ empty
      → IsAlive size old
      → Removes size c placed new
      → Keeps size placed new v
      → stone_at new i ≡ empty
      → p < size * size
      → p ≢ i
      → stone_at new p ≡ v
      → HasLiberty size new v p
  suicide_lives v p h alive r keep e-i on ne e =
      let x = new_old c v p r h ne e in
      elim (old_liberty v p c h alive r (Keeps-old v h keep) on x e) [
        | inl l ↦ l
        | inr (j, linked, on-j, x-j, e-j, n) ↦ record {
          point = j;
          free = i;
          linked = linked;
          is_next = n;
          is_free = e-i;
        }
      ]
