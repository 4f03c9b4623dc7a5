-- ===== src/Board/Chain/Visit.antt =====
-- One round of the walk: the neighbours of the popped point.
use gowui.Base.{
  ℕ, ◌≡◌, ◌≢◌, ◌⊎◌, inl, inr, true, false, List, [], ◌∷◌, arith, ◌==◌, Bool-cases, ==_iff, subst,
}
use gowui.Board.{empty, stone_at, contains, neighbours, Walk, look, visit}
use gowui.Board.Measure.{contains-head, contains-tail}

-- Reached from `i` over neighbours of the colour.
pub data Linked (size : ℕ) (stones : List ℕ) (color i : ℕ) : ℕ → Type 0 where
  here : Linked size stones color i i
  next :
      {j k : ℕ}
      → Linked size stones color i j
      → contains (neighbours size j) k ≡ true
      → stone_at stones k ≡ color
      → Linked size stones color i k

-- An empty neighbour of a point of the list.
pub record Liberty (size : ℕ) (stones : List ℕ) (points : List ℕ) : Type 0 where
  pub point : ℕ
  pub free : ℕ
  pub is_point : contains points point ≡ true
  pub is_next : contains (neighbours size point) free ≡ true
  pub is_free : stone_at stones free ≡ empty

-- No point twice.
abbrev pub Distinct : List ℕ → Type 0
Distinct [] = Unit
Distinct (x ∷ xs) = (contains xs x ≡ false) × Distinct xs

-- What a walk has found so far is part of the chain.
pub record IsSound (size : ℕ) (stones : List ℕ) (color i : ℕ) (w : Walk) : Type 0 where
  pub linked : (k : ℕ) → contains w.seen k ≡ true → Linked size stones color i k
  pub stacked : (k : ℕ) → contains w.stack k ≡ true → contains w.seen k ≡ true
  pub witness : w.has_liberty ≡ true → Liberty size stones w.seen

-- A later state of a walk: what is new is still on the stack.
pub record Grows (w w' : Walk) : Type 0 where
  pub seen_le : (k : ℕ) → contains w.seen k ≡ true → contains w'.seen k ≡ true
  pub stack_le : (k : ℕ) → contains w.stack k ≡ true → contains w'.stack k ≡ true
  pub liberty_le : w.has_liberty ≡ true → w'.has_liberty ≡ true
  pub fresh :
      (k : ℕ)
      → contains w'.seen k ≡ true
      → (contains w.seen k ≡ true) ⊎ (contains w'.stack k ≡ true)

Grows-refl : (w : Walk) → Grows w w
Grows-refl w = record {
  seen_le = λ k h. h;
  stack_le = λ k h. h;
  liberty_le = λ h. h;
  fresh = λ k h. inl h;
}

Grows-trans : {u v w : Walk} → Grows u v → Grows v w → Grows u w
Grows-trans g h = record {
  seen_le = λ k c. h.seen_le k (g.seen_le k c);
  stack_le = λ k c. h.stack_le k (g.stack_le k c);
  liberty_le = λ c. h.liberty_le (g.liberty_le c);
  fresh = λ k c. elim (h.fresh k c) [
    | inl old ↦ elim (g.fresh k old) [ inl o ↦ inl o | inr n ↦ inr (h.stack_le k n) ]
    | inr new ↦ inr new
  ];
}

Liberty-le :
    {size : ℕ} {stones : List ℕ} {w w' : Walk}
    → Grows w w'
    → Liberty size stones w.seen
    → Liberty size stones w'.seen
Liberty-le g l = record {
  point = l.point;
  free = l.free;
  is_point = g.seen_le l.point l.is_point;
  is_next = l.is_next;
  is_free = l.is_free;
}

module _ (size : ℕ) (stones : List ℕ) (color : ℕ) where
  look-Grows : (n : ℕ) (w : Walk) → Grows w (look stones color n w)
  unfolding look contains
  look-Grows n w = record {
    seen_le = λ k h. ground arith;
    stack_le = λ k h. ground arith;
    liberty_le = λ h. ground arith;
    fresh = λ k h. ground arith;
  }

  pub visit-Grows : (ns : List ℕ) (w : Walk) → Grows w (visit stones color ns w)
  unfolding visit
  visit-Grows [] w = Grows-refl w
  visit-Grows (n ∷ ns) w = Grows-trans (look-Grows n w) (visit-Grows ns (look stones color n w))

  look-Distinct : (n : ℕ) (w : Walk) → Distinct w.seen → Distinct (look stones color n w).seen
  unfolding look
  look-Distinct n w d = ground arith

  pub visit-Distinct :
      (ns : List ℕ) (w : Walk) → Distinct w.seen → Distinct (visit stones color ns w).seen
  unfolding visit
  visit-Distinct [] w d = d
  visit-Distinct (n ∷ ns) w d = visit-Distinct ns (look stones color n w) (look-Distinct n w d)

  -- A point has been looked at: a liberty is noted, a stone of the colour is seen.
  abbrev pub Covered : Walk → ℕ → Type 0
  Covered w n =
      (stone_at stones n ≡ empty → w.has_liberty ≡ true)
      × (stone_at stones n ≡ color → contains w.seen n ≡ true)

  pub Covered-Grows : {w w' : Walk} (n : ℕ) → Grows w w' → Covered w n → Covered w' n
  Covered-Grows n g c = (λ h. g.liberty_le (c.0 h), λ h. g.seen_le n (c.1 h))

  look-Covered : color ≢ empty → (n : ℕ) (w : Walk) → Covered (look stones color n w) n
  unfolding look contains
  look-Covered c n w = (λ h. ground arith, λ h. ground arith)

  pub visit-Covered :
      color ≢ empty
      → (ns : List ℕ) (w : Walk) (n : ℕ) → contains ns n ≡ true
      → Covered (visit stones color ns w) n
  unfolding visit contains
  visit-Covered c [] w n h = cc
  visit-Covered c (m ∷ ns) w n h = elim (Bool-cases (n == m)) [
    | inl same ↦
        Covered-Grows n (visit-Grows ns (look stones color m w))
          (rw (← (==_iff n m).0 same) (look-Covered c n w))
    | inr other ↦ visit-Covered c ns (look stones color m w) n (ground arith)
  ]

  look-seen :
      (n : ℕ) (w : Walk) (k : ℕ)
      → contains (look stones color n w).seen k ≡ true
      → (contains w.seen k ≡ true) ⊎ ((n ≡ k) × (stone_at stones n ≡ color))
  unfolding look contains
  look-seen n w k h = ground arith

  look-stack :
      (n : ℕ) (w : Walk) (k : ℕ)
      → contains (look stones color n w).stack k ≡ true
      → (contains w.stack k ≡ true) ⊎ (contains (look stones color n w).seen k ≡ true)
  unfolding look contains
  look-stack n w k h = ground arith

  look-liberty :
      (n : ℕ) (w : Walk)
      → (look stones color n w).has_liberty ≡ true
      → (w.has_liberty ≡ true) ⊎ (stone_at stones n ≡ empty)
  unfolding look
  look-liberty n w h = ground arith

  module _ (i c : ℕ) where
    look-IsSound :
        (n : ℕ) (w : Walk)
        → contains (neighbours size c) n ≡ true
        → contains w.seen c ≡ true
        → IsSound size stones color i w
        → IsSound size stones color i (look stones color n w)
    look-IsSound n w h s v =
        let g = look-Grows n w in
        record {
          linked = λ k m. elim (look-seen n w k m) [
            | inl old ↦ v.linked k old
            | inr (e, same) ↦
                subst (Linked size stones color i) e (Linked.next (v.linked c s) h same)
          ];
          stacked = λ k m. elim (look-stack n w k m) [
            | inl old ↦ g.seen_le k (v.stacked k old)
            | inr new ↦ new
          ];
          witness = λ l. elim (look-liberty n w l) [
            | inl old ↦ Liberty-le g (v.witness old)
            | inr free ↦ record {
              point = c;
              free = n;
              is_point = g.seen_le c s;
              is_next = h;
              is_free = free;
            }
          ];
        }

    pub visit-IsSound :
        (ns : List ℕ) (w : Walk)
        → ((n : ℕ) → contains ns n ≡ true → contains (neighbours size c) n ≡ true)
        → contains w.seen c ≡ true
        → IsSound size stones color i w
        → IsSound size stones color i (visit stones color ns w)
    unfolding visit
    visit-IsSound [] w h s v = v
    visit-IsSound (n ∷ ns) w h s v =
        visit-IsSound ns (look stones color n w) (λ k m. h k (contains-tail n k ns m))
          ((look-Grows n w).seen_le c s) (look-IsSound n w (h n (contains-head n ns)) s v)
