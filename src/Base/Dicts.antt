-- ===== src/Base/Dicts.antt =====
-- Python dictionaries as association lists in insertion order, over any key with an equality test.
use mathlib.Core.Path.{◌≡◌, refl}
use mathlib.Core.Logic.{◌↔◌}
use mathlib.Core.Bool.{Bool, true}
use mathlib.Core.List.{List, [], ◌∷◌}
use mathlib.Core.Option.{Option, none, some}
use native.Mathlib.Omega.{arith}
use gowui.Base.Tests.{if◌then◌else◌}
use gowui.Base.Texts.{Text, equal, equal_iff}

-- What a key needs: the test that `==` makes.
pub record Eq {ℓ} (K : Type ℓ) : Type ℓ where
  pub same : K → K → Bool
  pub same_iff : (a b : K) → (same a b ≡ true) ↔ (a ≡ b)

instance abbrev pub text_eq : Eq Text
text_eq = record { same = equal; same_iff = equal_iff }

module _ {ℓ} {K : Type ℓ} ⦃e : Eq K⦄ where
  pub same_self : (a : K) → e.same a a ≡ true
  same_self a = (e.same_iff a a).1 refl

module _ {ℓ κ} {K : Type ℓ} {V : Type κ} ⦃e : Eq K⦄ where
  -- `d.get(k)`.
  unfoldable pub lookup : K → List (K × V) → Option V
  lookup k [] = none
  lookup k ((j, v) ∷ d) = if e.same j k then some v else lookup k d

  -- `d[k] = v`.
  unfoldable pub insert : K → V → List (K × V) → List (K × V)
  insert k v [] = (k, v) ∷ []
  insert k v ((j, w) ∷ d) = if e.same j k then (j, v) ∷ d else (j, w) ∷ insert k v d

  -- `d.pop(k, None)`; a dictionary holds a key once, and every entry of the key goes.
  unfoldable pub erase : K → List (K × V) → List (K × V)
  erase k [] = []
  erase k ((j, w) ∷ d) = if e.same j k then erase k d else (j, w) ∷ erase k d

  -- `d.setdefault(k, v)`.
  unfoldable pub set_default : K → V → List (K × V) → List (K × V)
  unfolding insert lookup
  set_default k v d = elim (lookup k d) [ none ↦ insert k v d | some w ↦ d ]

  pub lookup-insert :
      (k j : K) (v : V) (d : List (K × V))
      → lookup j (insert k v d) ≡ (if e.same k j then some v else lookup j d)
  unfolding lookup insert
  lookup-insert k j v [] = refl
  lookup-insert k j v ((i, w) ∷ d) =
      ground (arith, lookup-insert k j v d, e.same_iff i k, e.same_iff i j, e.same_iff k j)

  pub lookup-erase :
      (k j : K) (d : List (K × V))
      → lookup j (erase k d) ≡ (if e.same k j then none else lookup j d)
  unfolding lookup erase
  lookup-erase k j [] = ground arith
  lookup-erase k j ((i, w) ∷ d) =
      ground (arith, lookup-erase k j d, e.same_iff i k, e.same_iff i j, e.same_iff k j)

  pub lookup-set_default :
      (k j : K) (v : V) (d : List (K × V))
      → lookup j (set_default k v d)
        ≡ elim (lookup j d) [ none ↦ if e.same k j then some v else none | some w ↦ some w ]
  unfolding set_default
  lookup-set_default k j v d = ground (arith, lookup-insert k j v d, e.same_iff k j)
