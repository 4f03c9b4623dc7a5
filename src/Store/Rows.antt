-- ===== src/Store/Rows.antt =====
-- Tables as lists of rows: what the statements leave of them.
use gowui.Base.{
  ◌≡◌, refl, ap, subst, Bool, true, false, ◌||◌, List, [], ◌∷◌, ◌++◌, Option, none, some, arith,
  if◌then◌else◌, Bool-cases, inl, inr, Text, equal,
}
use gowui.Store.{delete, exists, first, local_key}

-- A condition that every row meets.
unfoldable pub Every {ℓ} : {A : Type ℓ} → (A → Bool) → List A → Type 0
Every p [] = Unit {0}
Every p (x ∷ xs) = (p x ≡ true) × Every p xs

module _ {ℓ} {A : Type ℓ} where
  pub Every-mono :
      (p q : A → Bool) (xs : List A) → ((x : A) → p x ≡ true → q x ≡ true) → Every p xs → Every q xs
  unfolding Every
  Every-mono p q [] f h = tt
  Every-mono p q (x ∷ xs) f (a, h) = (f x a, Every-mono p q xs f h)

  -- What is left by a delete is what the condition of the delete does not hold of.
  pub Every-delete :
      (p q d : A → Bool) (xs : List A)
      → ((x : A) → d x ≡ false → p x ≡ true → q x ≡ true)
      → Every p xs
      → Every q (delete d xs)
  unfolding Every delete
  Every-delete p q d [] f h = tt
  Every-delete p q d (x ∷ xs) f (a, h) = elim (Bool-cases (d x)) [
    | inl gone ↦ rw gone (Every-delete p q d xs f h)
    | inr left ↦ rw left ((f x left a, Every-delete p q d xs f h))
  ]

  pub Every-snoc :
      (p : A → Bool) (xs : List A) (x : A) → Every p xs → p x ≡ true → Every p (xs ++ x ∷ [])
  unfolding Every
  Every-snoc p [] x h a = (a, tt)
  Every-snoc p (y ∷ xs) x (b, h) a = (b, Every-snoc p xs x h a)

  pub Every-append : (p : A → Bool) (xs ys : List A) → Every p xs → Every p ys → Every p (xs ++ ys)
  unfolding Every
  Every-append p [] ys h k = k
  Every-append p (x ∷ xs) ys (b, h) k = (b, Every-append p xs ys h k)

  pub exists-cons : (p : A → Bool) (x : A) (xs : List A) → exists p (x ∷ xs) ≡ (p x || exists p xs)
  unfolding exists
  exists-cons p x xs = refl

  pub exists-delete : (p : A → Bool) (xs : List A) → exists p (delete p xs) ≡ false
  unfolding exists delete
  exists-delete p [] = refl
  exists-delete p (x ∷ xs) = elim (Bool-cases (p x)) [
    | inl gone ↦ rw gone (exists-delete p xs)
    | inr left ↦ rw (left, left) (exists-delete p xs)
  ]

  pub exists-append_left :
      (p : A → Bool) (xs ys : List A) → exists p xs ≡ true → exists p (xs ++ ys) ≡ true
  unfolding exists
  exists-append_left p [] ys h = absurd (cc)
  exists-append_left p (x ∷ xs) ys h = elim (Bool-cases (p x)) [
    | inl y ↦ rw y refl
    | inr n ↦ rw n (exists-append_left p xs ys (rw n at h))
  ]

  -- A row that a delete spares is still there.
  pub exists-kept :
      (p d : A → Bool) (xs : List A)
      → ((x : A) → p x ≡ true → d x ≡ false)
      → exists p xs ≡ true
      → exists p (delete d xs) ≡ true
  unfolding exists delete
  exists-kept p d [] f h = absurd (cc)
  exists-kept p d (x ∷ xs) f h = elim (Bool-cases (p x)) [
    | inl y ↦ rw (f x y, y) refl
    | inr n ↦ elim (Bool-cases (d x)) [
      | inl gone ↦ rw gone (exists-kept p d xs f (rw n at h))
      | inr left ↦ rw (left, n) (exists-kept p d xs f (rw n at h))
    ]
  ]

  pub first-some : (p : A → Bool) (xs : List A) (x : A) → first p xs ≡ some x → p x ≡ true
  unfolding first
  first-some p [] x h = absurd (cc)
  first-some p (y ∷ xs) x h = elim (Bool-cases (p y)) [
    | inl t ↦ subst (λ (z : A). p z ≡ true) (same (rw t at h)) t
    | inr n ↦ first-some p xs x (rw n at h)
  ]
    where
      same : ◌≡◌ {A = Option A} (some y) (some x) → y ≡ x
      same e = cc

  pub first-none : (p : A → Bool) (xs : List A) → exists p xs ≡ false → first p xs ≡ none
  unfolding first exists
  first-none p [] h = refl
  first-none p (x ∷ xs) h = elim (Bool-cases (p x)) [
    | inl y ↦ absurd (there (rw y at h))
    | inr n ↦ rw n (first-none p xs (rw n at h))
  ]
    where
      there : true ≡ false → ⊥
      there e = cc

  -- Deleting rows that a search would not stop at does not change what it finds.
  pub first-delete :
      (p d : A → Bool) (xs : List A)
      → ((x : A) → d x ≡ true → p x ≡ false)
      → first p (delete d xs) ≡ first p xs
  unfolding first delete
  first-delete p d [] f = refl
  first-delete p d (x ∷ xs) f = elim (Bool-cases (d x)) [
    | inl gone ↦ rw (gone, f x gone) (first-delete p d xs f)
    | inr left ↦ rw left (ap (λ (o : Option A). if p x then some x else o) (first-delete p d xs f))
  ]

  pub exists_mono :
      (p q : A → Bool) (xs : List A)
      → ((x : A) → p x ≡ true → q x ≡ true)
      → exists p xs ≡ true
      → exists q xs ≡ true
  unfolding exists
  exists_mono p q [] f h = absurd (cc)
  exists_mono p q (x ∷ xs) f h = elim (Bool-cases (p x)) [
    | inl y ↦ rw (f x y) refl
    | inr n ↦ elim (Bool-cases (q x)) [
      | inl z ↦ rw z refl
      | inr z ↦ rw z (exists_mono p q xs f (rw n at h))
    ]
  ]

  pub exists-none :
      (p q : A → Bool) (xs : List A)
      → ((x : A) → p x ≡ true → q x ≡ true)
      → exists q xs ≡ false
      → exists p xs ≡ false
  unfolding exists
  exists-none p q [] f h = refl
  exists-none p q (x ∷ xs) f h = elim (Bool-cases (p x)) [
    | inl y ↦ absurd (clash (f x y) h)
    | inr n ↦ rw n (exists-none p q xs f (ground arith))
  ]
    where
      clash : q x ≡ true → (q x || exists q xs) ≡ false → ⊥
      clash a b = ground arith

  -- With no row before it, a search stops at the row that is added last.
  pub first-snoc :
      (p : A → Bool) (xs : List A) (x : A)
      → exists p xs ≡ false
      → p x ≡ true
      → first p (xs ++ x ∷ []) ≡ some x
  unfolding first exists
  first-snoc p [] x h a = rw a refl
  first-snoc p (y ∷ xs) x h a = elim (Bool-cases (p y)) [
    | inl t ↦ absurd (there (rw t at h))
    | inr n ↦ rw n (first-snoc p xs x (rw n at h) a)
  ]
    where
      there : true ≡ false → ⊥
      there e = cc

-- A key tells an account id.
pub local_key-equal : (a b : Text) → equal (local_key a) (local_key b) ≡ equal a b
unfolding equal
local_key-equal a b = refl
