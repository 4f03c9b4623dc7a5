-- ===== src/Board/Capture/Loop.antt =====
-- The loop of `play` over the neighbours of the new stone, which removes the dead enemy chains.
use gowui.Base.{
  ℕ, ◌+◌, ◌*◌, ◌<◌, ◌≡◌, ◌≢◌, ◌⊎◌, inl, inr, refl, sym, true, List, [], ◌∷◌, arith, length, ◌==◌,
  Bool-cases, ==_iff, ne-of-==, ◌∙◌, subst, ◌++◌, append-nil, append_assoc, length-append,
}
use gowui.Board.{empty, stone_at, contains, chain, clear, capture}
use gowui.Board.Measure.{contains-head, contains-tail}
use gowui.Board.Stones.{stone_at-clear, length-clear, count_stones, count_stones-clear}
use gowui.Board.Alive.{HasLiberty}
use gowui.Board.Capture.{
  Removes, Removes-refl, Removes-trans, Removes-empty, HasLiberty-Removes, chain-Linked,
  chain-color, clear-Removes, found, chain-origin, chain-Distinct,
}

-- The loop has gone over `ns` from the board `old`, with `captured` before it and `result` after.
pub record Outcome (size v : ℕ) (ns old captured : List ℕ) (result : List ℕ × List ℕ) : Type 0 where
  pub taken : List ℕ
  pub joined : result.1 ≡ captured ++ taken
  pub removes : Removes size v old result.0
  pub full : length result.0 ≡ size * size
  pub settled :
      (n : ℕ)
      → contains ns n ≡ true
      → stone_at old n ≡ v
      → (stone_at result.0 n ≡ empty) ⊎ HasLiberty size result.0 v n
  pub untouched : taken ≡ [] → result.0 ≡ old
  pub opened : taken ≢ [] → (n : ℕ) × (contains ns n ≡ true) × (stone_at result.0 n ≡ empty)
  pub counted : count_stones result.0 + length taken ≡ count_stones old

append-ne-nil : (xs ys : List ℕ) (a : ℕ) → contains xs a ≡ true → xs ++ ys ≢ []
unfolding contains
append-ne-nil [] ys a h e = cc
append-ne-nil (x ∷ xs) ys a h e = cc

-- A chain that the walk calls alive has a liberty.
pub chain_liberty :
    (size v : ℕ) (stones : List ℕ) (n : ℕ)
    → length stones ≡ size * size
    → v ≢ empty
    → n < size * size
    → stone_at stones n ≡ v
    → (chain size stones n).has_liberty ≡ true
    → HasLiberty size stones v n
chain_liberty size v stones n full stone on e h =
    let l = (found size v stones n full stone on e).liberty h in
    record {
      point = l.point;
      free = l.free;
      linked = chain-Linked size v stones n full stone on e l.point l.is_point;
      is_next = l.is_next;
      is_free = l.is_free;
    }

module _ (size v : ℕ) (stone : v ≢ empty) where
  Outcome-nil :
      (old captured : List ℕ)
      → length old ≡ size * size
      → Outcome size v [] old captured (old, captured)
  unfolding contains
  Outcome-nil old captured full = record {
    taken = [];
    joined = sym (append-nil captured);
    removes = Removes-refl size v old;
    full = full;
    settled = λ n h e. cc;
    untouched = λ e. refl;
    opened = λ h. absurd (h refl);
    counted = omega arith;
  }

  module _ (n : ℕ) (ns old captured : List ℕ) (r : List ℕ × List ℕ)
      (full : length old ≡ size * size) (on : n < size * size) where
    abbrev points : List ℕ
    points = (chain size old n).seen

    cleared_origin : stone_at old n ≡ v → stone_at (clear points old) n ≡ empty
    cleared_origin e =
        stone_at-clear points old n ∙ rw (chain-origin size v old n full stone on e) refl

    Outcome-dead :
        stone_at old n ≡ v
        → Outcome size v ns (clear points old) (captured ++ points) r
        → Outcome size v (n ∷ ns) old captured r
    unfolding contains
    Outcome-dead e o =
        let step = clear-Removes size v old n full stone on e in
        let gone : stone_at (clear points old) n ≡ empty = cleared_origin e in
        record {
          taken = points ++ o.taken;
          joined = o.joined ∙ append_assoc captured points o.taken;
          removes = Removes-trans size v stone step o.removes;
          full = o.full;
          settled = λ m h c. elim (step.point m) [
            | inl same ↦ elim (Bool-cases (m == n)) [
              | inl this ↦ inl (rw ((==_iff m n).0 this) (Removes-empty size v n o.removes gone))
              | inr other ↦ o.settled m (ground arith) (same ∙ c)
            ]
            | inr (x, y) ↦ inl (Removes-empty size v m o.removes y)
          ];
          untouched = λ z.
              absurd (append-ne-nil points o.taken n (chain-origin size v old n full stone on e) z);
          opened = λ h. (n, ground arith, Removes-empty size v n o.removes gone);
          counted = omega (
            arith,
            o.counted,
            length-append points o.taken,
            count_stones-clear points old (chain-Distinct size v old n full stone on e)
                (λ k m z. stone (sym (chain-color size v old n full stone on e k m) ∙ z)),
          );
        }

    Outcome-live :
        (stone_at old n ≡ v → HasLiberty size old v n)
        → Outcome size v ns old captured r
        → Outcome size v (n ∷ ns) old captured r
    unfolding contains
    Outcome-live live o = record {
      taken = o.taken;
      joined = o.joined;
      removes = o.removes;
      full = o.full;
      settled = λ m h c. elim (Bool-cases (m == n)) [
        | inl this ↦
            let at : n ≡ m = sym ((==_iff m n).0 this) in
            HasLiberty-Removes size v m o.removes c
              (subst (HasLiberty size old v) at (live (rw at c)))
        | inr other ↦ o.settled m (ground arith) c
      ];
      untouched = o.untouched;
      opened = λ h. let (m, x, y) = o.opened h in (m, contains-tail n m ns x, y);
      counted = o.counted;
    }

  pub capture-Outcome :
      (ns old captured : List ℕ)
      → length old ≡ size * size
      → ((n : ℕ) → contains ns n ≡ true → n < size * size)
      → Outcome size v ns old captured (capture size v ns old captured)
  unfolding capture
  capture-Outcome [] old captured full on = Outcome-nil old captured full
  capture-Outcome (n ∷ ns) old captured full on =
      let on-n : n < size * size = on n (contains-head n ns) in
      let on-ns : ((m : ℕ) → contains ns m ≡ true → m < size * size) =
        λ m c. on m (contains-tail n m ns c) in
      let live = Outcome-live n ns old captured (capture size v ns old captured) full on-n in
      let rest = capture-Outcome ns old captured full on-ns in
      elim (Bool-cases (stone_at old n == v)) [
        | inl enemy ↦
            let e : stone_at old n ≡ v = (==_iff (stone_at old n) v).0 enemy in
            elim (Bool-cases (chain size old n).has_liberty) [
              | inl lives ↦
                  rw (enemy, lives)
                    (live (λ c. chain_liberty size v old n full stone on-n c lives) rest)
              | inr dead ↦
                  let seen = (chain size old n).seen in
                  rw (enemy, dead)
                    (Outcome-dead n ns old captured
                      (capture size v ns (clear seen old) (captured ++ seen)) full on-n e
                      (capture-Outcome ns (clear seen old) (captured ++ seen)
                        (length-clear seen old ∙ full) on-ns))
            ]
        | inr other ↦ rw other (live (λ c. absurd (ne-of-== (stone_at old n) v other c)) rest)
      ]
