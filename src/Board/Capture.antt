-- ===== src/Board/Capture.antt =====
-- What the removal of whole chains does to a board.
pub mod Loop
use gowui.Base.{
  ℕ, zero, suc, ◌+◌, ◌*◌, ◌<◌, ◌≤◌, ◌≡◌, ◌≢◌, ◌⊎◌, inl, inr, refl, sym, Bool, true, false, not,
  ◌&&◌, List, [], ◌∷◌, arith, length, if◌then◌else◌, ◌==◌, Bool-cases, ==_iff, ◌∙◌, ap, subst, ◌++◌,
}
use gowui.Board.{empty, stone_at, contains, neighbours, Walk, chain, clear, capture}
use gowui.Board.Neighbours.{neighbours_symm, neighbours-lt}
use gowui.Board.Chain.{Linked, IsChain, chain-IsChain, Distinct}
use gowui.Board.Stones.{stone_at-clear, stone-lt, length-clear, count_stones, count_stones-clear}
use gowui.Board.Alive.{HasLiberty, Keeps, HasLiberty-Keeps, Linked-color}

module _ (size : ℕ) (v : ℕ) where
  -- What the removal of whole chains of colour `v` does to a board.
  pub record Removes (old new : List ℕ) : Type 0 where
    pub point :
        (k : ℕ)
        → (stone_at new k ≡ stone_at old k) ⊎ ((stone_at old k ≡ v) × (stone_at new k ≡ empty))
    pub whole : Keeps size old new v

  pub Removes-refl : (old : List ℕ) → Removes old old
  Removes-refl old = record { point = λ k. inl refl; whole = λ a b n x y z. y }

  pub Removes-trans :
      {old mid new : List ℕ} → v ≢ empty → Removes old mid → Removes mid new → Removes old new
  Removes-trans h f g = record {
    point = λ k. elim (g.point k) [
      | inl same ↦ elim (f.point k) [
        | inl same' ↦ inl (same ∙ same')
        | inr (o, n) ↦ inr (o, same ∙ n)
      ]
      | inr (m, n) ↦ elim (f.point k) [
        | inl same' ↦ inr (sym same' ∙ m, n)
        | inr (o, n') ↦ absurd (h (sym m ∙ n'))
      ]
    ];
    whole = λ a b n x y z. elim (g.point a) [
      | inl same ↦ let m = f.whole a b n x y (sym same ∙ z) in g.whole a b n (sym same ∙ z) m z
      | inr (m, n') ↦ absurd (h (sym z ∙ n'))
    ];
  }

  -- What was empty stays empty.
  pub Removes-empty :
      {old new : List ℕ} (k : ℕ) → Removes old new → stone_at old k ≡ empty → stone_at new k ≡ empty
  Removes-empty k r h = elim (r.point k) [ inl same ↦ same ∙ h | inr (o, n) ↦ n ]

  -- A chain with a liberty is removed, or keeps its liberty.
  pub HasLiberty-Removes :
      {old new : List ℕ} (p : ℕ)
      → Removes old new
      → stone_at old p ≡ v
      → HasLiberty size old v p
      → (stone_at new p ≡ empty) ⊎ HasLiberty size new v p
  HasLiberty-Removes {old} {new} p r h l = elim (r.point p) [
    | inl same ↦ inr (
        HasLiberty-Keeps size old new v p r.whole h (same ∙ h) l (Removes-empty l.free r l.is_free))
    | inr (o, n) ↦ inl n
  ]

  module _ (stones : List ℕ) (n : ℕ) (full : length stones ≡ size * size) (stone : v ≢ empty)
      (on : n < size * size) (e : stone_at stones n ≡ v) where
    pub found : IsChain size stones n (chain size stones n)
    found = chain-IsChain size stones n on (λ z. stone (sym e ∙ z))

    pub chain-Linked :
        (k : ℕ) → contains (chain size stones n).seen k ≡ true → Linked size stones v n k
    chain-Linked k m = subst (λ (c : ℕ). Linked size stones c n k) e (found.linked k m)

    chain_complete :
        (k : ℕ) → Linked size stones v n k → contains (chain size stones n).seen k ≡ true
    chain_complete k l = found.complete k (subst (λ (c : ℕ). Linked size stones c n k) (sym e) l)

    pub chain-color : (k : ℕ) → contains (chain size stones n).seen k ≡ true → stone_at stones k ≡ v
    chain-color k m = Linked-color size stones v e (chain-Linked k m)

    pub chain-origin : contains (chain size stones n).seen n ≡ true
    chain-origin = chain_complete n Linked.here

    pub chain-Distinct : Distinct (chain size stones n).seen
    chain-Distinct = found.distinct

    -- A neighbour of the chain, of its colour, is of the chain.
    chain-closed :
        (a b : ℕ)
        → contains (neighbours size a) b ≡ true
        → stone_at stones a ≡ v
        → contains (chain size stones n).seen b ≡ true
        → contains (chain size stones n).seen a ≡ true
    chain-closed a b m x c = chain_complete a (
        Linked.next (chain-Linked b c)
          (neighbours_symm size a b
            (subst (λ (t : ℕ). a < t) full (stone-lt stones a (λ z. stone (sym x ∙ z)))) m)
          x)

    -- The chain of a stone of colour `v`, cleared.
    pub clear-Removes : Removes stones (clear (chain size stones n).seen stones)
    clear-Removes = record {
      point = λ k. elim (Bool-cases (contains (chain size stones n).seen k)) [
        | inl m ↦ inr (chain-color k m, stone_at-clear _ stones k ∙ rw m refl)
        | inr m ↦ inl (stone_at-clear _ stones k ∙ rw m refl)
      ];
      whole = λ a b m x y z. elim (Bool-cases (contains (chain size stones n).seen b)) [
        | inl c ↦
            absurd (stone (sym z ∙ stone_at-clear _ stones a ∙ rw (chain-closed a b m x c) refl))
        | inr c ↦ stone_at-clear _ stones b ∙ rw c y
      ];
    }
