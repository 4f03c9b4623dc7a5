-- ===== src/Gtp/Prefixes.antt =====
-- The lists of moves that the mirror compares.
use gowui.Base.{
  ℕ, zero, suc, ◌-◌, ◌≡◌, refl, ap, ◌∙◌, true, Bool-cases, List, [], ◌∷◌, ◌++◌, length, take, All,
  equal_iff, arith, inl, inr,
}
use gowui.Gtp.Sync.{Played, drop, common_prefix, same_played, same_stones}

same_played_eq : (a b : Played) → same_played a b ≡ true → a ≡ b
same_played_eq (c, v) (d, u) h = ground (arith, h, equal_iff c d, equal_iff v u)

pub same_stones_eq : (xs ys : List Played) → same_stones xs ys ≡ true → xs ≡ ys
same_stones_eq [] [] h = refl
same_stones_eq [] (y ∷ ys) h = absurd (cc)
same_stones_eq (x ∷ xs) [] h = absurd (cc)
same_stones_eq (x ∷ xs) (y ∷ ys) h = ground (arith, h, same_played_eq x y, same_stones_eq xs ys)

-- What the two lists have in common is where both begin.
pub common_prefix-take :
    (xs ys : List Played) → (rest : List Played) × (take (common_prefix xs ys) xs ++ rest ≡ ys)
unfolding common_prefix
common_prefix-take [] ys = (ys, refl)
common_prefix-take (x ∷ xs) [] = ([], refl)
common_prefix-take (x ∷ xs) (y ∷ ys) = elim (Bool-cases (same_played x y)) [
  | inl a ↦
      let (rest, e) = common_prefix-take xs ys in
      (rest, rw a (ap (◌∷◌ x) e ∙ ap (λ z. z ∷ ys) (same_played_eq x y a)))
  | inr n ↦ (y ∷ ys, rw n refl)
]

pub take-drop : (n : ℕ) (xs : List Played) → take n xs ++ drop n xs ≡ xs
unfolding drop
take-drop zero xs = refl
take-drop (suc n) [] = refl
take-drop (suc n) (x ∷ xs) = ap (◌∷◌ x) (take-drop n xs)

pub length-drop : (n : ℕ) (xs : List Played) → length (drop n xs) ≡ length xs - n
unfolding drop
length-drop zero xs = omega arith
length-drop (suc n) [] = omega arith
length-drop (suc n) (x ∷ xs) = omega (arith, length-drop n xs)

pub drop-append : (xs ys : List Played) → drop (length xs) (xs ++ ys) ≡ ys
unfolding drop
drop-append [] ys = refl
drop-append (x ∷ xs) ys = drop-append xs ys

pub take_all : (n : ℕ) (xs : List Played) → length xs - n ≡ 0 → take n xs ≡ xs
take_all zero [] h = refl
take_all zero (x ∷ xs) h = absurd (omega arith)
take_all (suc n) [] h = refl
take_all (suc n) (x ∷ xs) h = ap (◌∷◌ x) (take_all n xs (omega arith))

pub All-rest {ℓ κ} : {A : Type ℓ} (P : A → Type κ) (xs ys : List A) → All P (xs ++ ys) → All P ys
All-rest P [] ys h = h
All-rest P (x ∷ xs) ys h = All-rest P xs ys (h.1)

pub All-drop {κ} : (P : Played → Type κ) (n : ℕ) (xs : List Played) → All P xs → All P (drop n xs)
unfolding drop
All-drop P zero xs h = h
All-drop P (suc n) [] h = tt
All-drop P (suc n) (x ∷ xs) h = All-drop P n xs (h.1)
