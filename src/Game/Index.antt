-- ===== src/Game/Index.antt =====
-- The indexes of `Game`: a dictionary that maps each key to the first ply where it occurred.
use gowui.Base.{
  ℕ, zero, suc, ◌<◌, ◌≡◌, sym, ◌∙◌, Bool, true, false, List, [], ◌∷◌, ◌++◌, Option, none, some,
  arith, if◌then◌else◌, length, take, Eq, same_self, lookup, set_default, lookup-erase,
  lookup-set_default, Option-cases, inl, inr,
}
use gowui.Game.{forget, seen_by}

module _ {ℓ} {K : Type ℓ} ⦃e : Eq K⦄ where
  -- The first place of `k` in a list, by a scan.
  unfoldable pub first_index : K → List K → Option ℕ
  first_index k [] = none
  first_index k (x ∷ xs) =
      if e.same x k then some 0 else elim (first_index k xs) [ none ↦ none | some i ↦ some (suc i) ]

  -- Whether a scan finds `k`.
  unfoldable pub occurs : K → List K → Bool
  occurs k [] = false
  occurs k (x ∷ xs) = if e.same x k then true else occurs k xs

  -- The dictionary answers as a scan of the list.
  abbrev pub IsIndex : List (K × ℕ) → List K → Type ℓ
  IsIndex index xs = (k : K) → lookup k index ≡ first_index k xs

  pub first_index-concat :
      (k x : K) (xs : List K)
      → first_index k (xs ++ x ∷ []) ≡ elim (first_index k xs) [
        | none ↦ if e.same x k then some (length xs) else none
        | some i ↦ some i
      ]
  unfolding first_index
  first_index-concat k x [] = ground arith
  first_index-concat k x (y ∷ xs) = ground (arith, first_index-concat k x xs)

  pub first_index-lt : (k : K) (xs : List K) (i : ℕ) → first_index k xs ≡ some i → i < length xs
  unfolding first_index
  first_index-lt k [] i h = absurd (cc)
  first_index-lt k (x ∷ xs) i h = elim (Option-cases (first_index k xs)) [
    | inl n ↦ ground arith
    | inr (j, s) ↦ ground (arith, first_index-lt k xs j s)
  ]

  -- An entry at or before the cursor is an occurrence among the plies up to the cursor.
  pub seen_by-first_index :
      (k : K) (xs : List K) (cursor : ℕ)
      → seen_by cursor (first_index k xs) ≡ occurs k (take (suc cursor) xs)
  unfolding first_index occurs
  seen_by-first_index k [] cursor = ground arith
  seen_by-first_index k (x ∷ xs) zero = ground arith
  seen_by-first_index k (x ∷ xs) (suc c) = ground (arith, seen_by-first_index k xs c)

  -- Forgetting the last ply.
  pub forget-IsIndex :
      (x : K) (xs : List K) (index : List (K × ℕ))
      → IsIndex index (xs ++ x ∷ [])
      → IsIndex (forget (length xs) x index) xs
  unfolding forget
  forget-IsIndex x xs index h k = elim (Option-cases (first_index x xs)) [
    | inl n ↦ ground (
      arith,
      h k,
      h x,
      first_index-concat k x xs,
      first_index-concat x x xs,
      same_self x,
      lookup-erase x k index,
      e.same_iff x k,
    )
    | inr (j, s) ↦ ground (
      arith,
      h k,
      h x,
      first_index-concat k x xs,
      first_index-concat x x xs,
      first_index-lt x xs j s,
      e.same_iff x k,
    )
  ]

  -- Recording a new one.
  pub set_default-IsIndex :
      (x : K) (xs : List K) (index : List (K × ℕ))
      → IsIndex index xs
      → IsIndex (set_default x (length xs) index) (xs ++ x ∷ [])
  set_default-IsIndex x xs index h k =
      lookup-set_default x k (length xs) index ∙ rw (h k) (sym (first_index-concat k x xs))
