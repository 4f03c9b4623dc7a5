-- ===== src/Board/Alive.antt =====
-- Chains with a liberty, and how they survive a change of the board.
use gowui.Base.{ℕ, ◌*◌, ◌<◌, ◌≡◌, ◌≢◌, true, List}
use gowui.Board.{empty, stone_at, contains, neighbours}
use gowui.Board.Chain.{Linked}

-- The chain of `p`, whose colour is `v`, has an empty neighbour.
pub record HasLiberty (size : ℕ) (stones : List ℕ) (v p : ℕ) : Type 0 where
  pub point : ℕ
  pub free : ℕ
  pub linked : Linked size stones v p point
  pub is_next : contains (neighbours size point) free ≡ true
  pub is_free : stone_at stones free ≡ empty

Linked-trans :
    {size : ℕ} {stones : List ℕ} {v p q r : ℕ}
    → Linked size stones v p q
    → Linked size stones v q r
    → Linked size stones v p r
Linked-trans l Linked.here = l
Linked-trans l (Linked.next m n c) = Linked.next (Linked-trans l m) n c

-- A liberty of a linked stone is one of the stone's own.
pub HasLiberty-Linked :
    {size : ℕ} {stones : List ℕ} {v p q : ℕ}
    → Linked size stones v p q
    → HasLiberty size stones v q
    → HasLiberty size stones v p
HasLiberty-Linked l h = record {
  point = h.point;
  free = h.free;
  linked = Linked-trans l h.linked;
  is_next = h.is_next;
  is_free = h.is_free;
}

-- No chain of the board is without liberties.
abbrev pub IsAlive : ℕ → List ℕ → Type 0
IsAlive size stones =
    (p v : ℕ) → p < size * size → stone_at stones p ≡ v → v ≢ empty → HasLiberty size stones v p

module _ (size : ℕ) (old : List ℕ) (v : ℕ) where
  -- The colour of every point that is linked to one of the colour.
  pub Linked-color : {p k : ℕ} → stone_at old p ≡ v → Linked size old v p k → stone_at old k ≡ v
  Linked-color h Linked.here = h
  Linked-color h (Linked.next l n c) = c

module _ (size : ℕ) (old new : List ℕ) (v : ℕ) where
  -- A change that removes stones of the colour by whole chains.
  abbrev pub Keeps : Type 0
  Keeps =
      (a b : ℕ)
      → contains (neighbours size a) b ≡ true
      → stone_at old a ≡ v
      → stone_at old b ≡ v
      → stone_at new a ≡ v
      → stone_at new b ≡ v

  pub Linked-Keeps :
      {p k : ℕ}
      → Keeps
      → stone_at old p ≡ v
      → stone_at new p ≡ v
      → Linked size old v p k
      → Linked size new v p k × (stone_at new k ≡ v)
  Linked-Keeps keep h h' Linked.here = (Linked.here, h')
  Linked-Keeps keep h h' (Linked.next {j} {k} l n c) =
      let (l', e) = Linked-Keeps keep h h' l in
      let e' = keep j k n (Linked-color size old v h l) c e in (Linked.next l' n e', e')

  -- A chain that stays keeps a liberty that stays.
  pub HasLiberty-Keeps :
      (p : ℕ)
      → Keeps
      → stone_at old p ≡ v
      → stone_at new p ≡ v
      → (l : HasLiberty size old v p) → stone_at new l.free ≡ empty
      → HasLiberty size new v p
  HasLiberty-Keeps p keep h h' l e = record {
    point = l.point;
    free = l.free;
    linked = (Linked-Keeps keep h h' l.linked).0;
    is_next = l.is_next;
    is_free = e;
  }
