-- ===== src/Board/Chain/Spec.antt =====
-- The loop of `_chain`, round by round, and its result.
use gowui.Base.{
  ℕ, zero, suc, ◌+◌, ◌*◌, ◌<◌, ◌≡◌, ◌≢◌, inl, inr, refl, Bool, true, false, List, [], ◌∷◌, arith,
  length, ◌==◌, Bool-cases, ==_iff, subst,
}
use gowui.Board.{empty, stone_at, contains, neighbours, Walk, visit, walk, chain}
use gowui.Board.Neighbours.{neighbours-lt}
use gowui.Board.Measure.{
  missing, missing-cons, missing-le, visit_measure, contains-head, contains-tail,
}
use gowui.Board.Chain.Visit.{
  Distinct, visit-Distinct, Linked, Liberty, IsSound, Covered, Covered-Grows, Grows, visit-Grows,
  visit-Covered, visit-IsSound,
}

-- What `_chain(i)` is for: the walk is over, it has seen the chain of `i`, each stone once, and
-- tells whether a stone of the chain has a liberty.
pub record IsChain (size : ℕ) (stones : List ℕ) (i : ℕ) (w : Walk) : Type 0 where
  pub ended : w.stack ≡ []
  pub distinct : Distinct w.seen
  pub linked : (k : ℕ) → contains w.seen k ≡ true → Linked size stones (stone_at stones i) i k
  pub complete : (k : ℕ) → Linked size stones (stone_at stones i) i k → contains w.seen k ≡ true
  pub liberty : w.has_liberty ≡ true → Liberty size stones w.seen
  pub no_liberty :
      w.has_liberty ≡ false
      → (k n : ℕ) → contains w.seen k ≡ true
      → contains (neighbours size k) n ≡ true
      → stone_at stones n ≢ empty

pub Linked-lt :
    (size : ℕ) (stones : List ℕ) (color i : ℕ) {k : ℕ}
    → i < size * size
    → Linked size stones color i k
    → k < size * size
Linked-lt size stones color i h Linked.here = h
Linked-lt size stones color i h (Linked.next {j} {k} l n c) =
    neighbours-lt size j k (Linked-lt size stones color i h l) n

contains-nil : (k : ℕ) → contains [] k ≡ false
unfolding contains
contains-nil k = refl

not-contains-cons :
    (c : ℕ) (xs ys : List ℕ) (k : ℕ)
    → ((j : ℕ) → contains xs j ≡ true → contains ys j ≡ true)
    → contains ys k ≡ false
    → k ≢ c
    → contains (c ∷ xs) k ≡ false
unfolding contains
not-contains-cons c xs ys k h m d = ground (arith, h k)

module _ (size : ℕ) (stones : List ℕ) (color i : ℕ) (stone : color ≢ empty)
    (on : i < size * size) where
  -- The loop's invariant: what is seen and no longer waits has been looked round.
  record Inv (w : Walk) : Type 0 where
    sound : IsSound size stones color i w
    origin : contains w.seen i ≡ true
    distinct : Distinct w.seen
    closed :
        (k : ℕ)
        → contains w.seen k ≡ true
        → contains w.stack k ≡ false
        → (n : ℕ) → contains (neighbours size k) n ≡ true
        → Covered size stones color w n

  abbrev state : List ℕ → List ℕ → Bool → Walk
  state seen stack lib = record { seen = seen; stack = stack; has_liberty = lib }

  abbrev round : ℕ → List ℕ → List ℕ → Bool → Walk
  round c seen rest lib = visit stones color (neighbours size c) (state seen rest lib)

  closed-new :
      (c : ℕ) (seen rest : List ℕ) (lib : Bool)
      → Inv (state seen (c ∷ rest) lib)
      → Grows (state seen rest lib) (round c seen rest lib)
      → (k : ℕ) → contains (round c seen rest lib).seen k ≡ true
      → contains (round c seen rest lib).stack k ≡ false
      → (n : ℕ) → contains (neighbours size k) n ≡ true
      → Covered size stones color (round c seen rest lib) n
  closed-new c seen rest lib v g k s t n m = elim (Bool-cases (k == c)) [
    | inl same ↦
        visit-Covered size stones color stone (neighbours size c) (state seen rest lib) n
          (subst (λ (j : ℕ). contains (neighbours size j) n ≡ true) ((==_iff k c).0 same) m)
    | inr other ↦ elim (g.fresh k s) [
      | inl old ↦ Covered-Grows size stones color n g (
          v.closed k old
            (not-contains-cons c rest (round c seen rest lib).stack k g.stack_le t (ground arith)) n
            m)
      | inr new ↦ cc
    ]
  ]

  round-Inv :
      (c : ℕ) (seen rest : List ℕ) (lib : Bool)
      → Inv (state seen (c ∷ rest) lib)
      → Inv (round c seen rest lib)
  round-Inv c seen rest lib v =
      let g = visit-Grows size stones color (neighbours size c) (state seen rest lib) in
      record {
        sound =
            visit-IsSound size stones color i c (neighbours size c) (state seen rest lib) (λ n h. h)
              (v.sound.stacked c (contains-head c rest))
              (record {
                linked = v.sound.linked;
                stacked = λ k m. v.sound.stacked k (contains-tail c k rest m);
                witness = v.sound.witness;
              });
        origin = g.seen_le i v.origin;
        distinct =
            visit-Distinct size stones color (neighbours size c) (state seen rest lib) v.distinct;
        closed = closed-new c seen rest lib v g;
      }

  popped_inside :
      (c : ℕ) (seen rest : List ℕ) (lib : Bool)
      → Inv (state seen (c ∷ rest) lib)
      → (n : ℕ) → contains (neighbours size c) n ≡ true
      → n < size * size
  popped_inside c seen rest lib v n h =
      neighbours-lt size c n
        (Linked-lt size stones color i on
          (v.sound.linked c (v.sound.stacked c (contains-head c rest))))
        h

  walk-Inv :
      (fuel : ℕ) (seen stack : List ℕ) (lib : Bool)
      → Inv (state seen stack lib)
      → length stack + missing (size * size) seen < fuel
      → Inv (walk fuel size stones color seen stack lib)
        × ((walk fuel size stones color seen stack lib).stack ≡ [])
  unfolding walk
  walk-Inv zero seen stack lib v h = absurd (omega arith)
  walk-Inv (suc fuel) seen [] lib v h = (v, refl)
  walk-Inv (suc fuel) seen (c ∷ stack) lib v h =
      let w = round c seen stack lib in
      walk-Inv fuel w.seen w.stack w.has_liberty (round-Inv c seen stack lib v) (
        omega (
          arith,
          visit_measure size stones color (neighbours size c) (state seen stack lib)
              (popped_inside c seen stack lib v),
        ))

  start-Inv : Inv (state (i ∷ []) (i ∷ []) false)
  unfolding contains
  start-Inv = record {
    sound = record {
      linked = λ k h. subst (Linked size stones color i) (ground arith) Linked.here;
      stacked = λ k h. h;
      witness = λ h. cc;
    };
    origin = contains-head i [];
    distinct = (refl, tt);
    closed = λ k h h'. cc;
  }

  complete :
      (w : Walk)
      → Inv w
      → w.stack ≡ []
      → {k : ℕ} → Linked size stones color i k
      → contains w.seen k ≡ true
  complete w v e Linked.here = v.origin
  complete w v e (Linked.next {j} {k} l n c) =
      (v.closed j (complete w v e l) (rw e (contains-nil j)) k n).1 c

end-IsChain :
    (size : ℕ) (stones : List ℕ) (i : ℕ) (stone : stone_at stones i ≢ empty) (on : i < size * size)
    (w : Walk)
    → Inv size stones (stone_at stones i) i stone on w
    → w.stack ≡ []
    → IsChain size stones i w
end-IsChain size stones i stone on w v e = record {
  ended = e;
  distinct = v.distinct;
  linked = v.sound.linked;
  complete = λ k l. complete size stones (stone_at stones i) i stone on w v e l;
  liberty = v.sound.witness;
  no_liberty = λ h k n m b free. cc ((v.closed k m (rw e (contains-nil k)) n b).0 free);
}

fuel_enough : (size i : ℕ) → i < size * size → 1 + missing (size * size) (i ∷ []) < size * size + 1
fuel_enough size i on =
    omega (arith, missing-cons (size * size) i [] on (contains-nil i), missing-le (size * size) [])

-- From a stone on the board `_chain` ends with nothing left to visit and returns, each once, exactly
-- the points that stones of its colour link to it, with a liberty just when an empty point adjoins
-- one of them.
pub chain-IsChain :
    (size : ℕ) (stones : List ℕ) (i : ℕ)
    → i < size * size
    → stone_at stones i ≢ empty
    → IsChain size stones i (chain size stones i)
unfolding chain
chain-IsChain size stones i on stone =
    let (v, e) =
      walk-Inv size stones (stone_at stones i) i stone on (size * size + 1) (i ∷ []) (i ∷ []) false
        (start-Inv size stones (stone_at stones i) i stone on) (fuel_enough size i on) in
    end-IsChain size stones i stone on _ v e
