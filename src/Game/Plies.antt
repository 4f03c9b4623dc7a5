-- ===== src/Game/Plies.antt =====
-- The plies of a line: prefixes, and the situation (position and player to move) after each ply.
use gowui.Base.{
  ℕ, zero, suc, ◌+◌, ◌<◌, ◌≤◌, ◌≡◌, refl, subst, ap, List, [], ◌∷◌, ◌++◌, some, arith, length,
  get_or, take, Eq, length-take,
}
use gowui.Board.{opponent}
use gowui.Game.{Key, Situation, Move, color_at, forget}
use gowui.Game.Index.{first_index, IsIndex, forget-IsIndex}

module _ {ℓ} {A : Type ℓ} where
  pub take-snoc :
      (xs : List A) (i : ℕ) (d : A)
      → i < length xs
      → take (suc i) xs ≡ take i xs ++ get_or xs i d ∷ []
  take-snoc [] i d h = elim h [ ]
  take-snoc (x ∷ xs) zero d h = refl
  take-snoc (x ∷ xs) (suc i) d h = ap (◌∷◌ x) (take-snoc xs i d (omega arith))

  pub take-all : (xs : List A) (n : ℕ) → length xs ≤ n → take n xs ≡ xs
  take-all [] zero h = refl
  take-all [] (suc n) h = refl
  take-all (x ∷ xs) zero h = absurd (omega arith)
  take-all (x ∷ xs) (suc n) h = ap (◌∷◌ x) (take-all xs n (omega arith))

  pub take-length : (xs : List A) (n : ℕ) → n ≤ length xs → length (take n xs) ≡ n
  take-length xs n h = omega (arith, length-take n xs)

  pub take-append_left : (xs ys : List A) (n : ℕ) → n ≤ length xs → take n (xs ++ ys) ≡ take n xs
  take-append_left xs ys zero h = refl
  take-append_left [] ys (suc n) h = absurd (omega arith)
  take-append_left (x ∷ xs) ys (suc n) h = ap (◌∷◌ x) (take-append_left xs ys n (omega arith))

  pub take-take : (xs : List A) (m n : ℕ) → m ≤ n → take m (take n xs) ≡ take m xs
  take-take xs zero n h = refl
  take-take [] (suc m) zero h = refl
  take-take [] (suc m) (suc n) h = refl
  take-take (x ∷ xs) (suc m) zero h = absurd (omega arith)
  take-take (x ∷ xs) (suc m) (suc n) h = ap (◌∷◌ x) (take-take xs m n (omega arith))

  pub get_or-take : (xs : List A) (i n : ℕ) (d : A) → i < n → get_or (take n xs) i d ≡ get_or xs i d
  get_or-take xs i zero d h = absurd (omega arith)
  get_or-take [] i (suc n) d h = refl
  get_or-take (x ∷ xs) zero (suc n) d h = refl
  get_or-take (x ∷ xs) (suc i) (suc n) d h = get_or-take xs i n d (omega arith)

  pub get_or-append_left :
      (xs ys : List A) (i : ℕ) (d : A) → i < length xs → get_or (xs ++ ys) i d ≡ get_or xs i d
  get_or-append_left [] ys i d h = elim h [ ]
  get_or-append_left (x ∷ xs) ys zero d h = refl
  get_or-append_left (x ∷ xs) ys (suc i) d h = get_or-append_left xs ys i d (omega arith)

  pub get_or-snoc : (xs : List A) (x d : A) → get_or (xs ++ x ∷ []) (length xs) d ≡ x
  get_or-snoc [] x d = refl
  get_or-snoc (y ∷ xs) x d = get_or-snoc xs x d

pub first_index-get {ℓ} :
    {K : Type ℓ} ⦃e : Eq K⦄ (k : K) (xs : List K) (i : ℕ) (d : K)
    → first_index k xs ≡ some i
    → get_or xs i d ≡ k
unfolding first_index
first_index-get ⦃e⦄ k [] i d h = absurd (cc)
first_index-get ⦃e⦄ k (x ∷ xs) zero d h = ground (arith, e.same_iff x k)
first_index-get ⦃e⦄ k (x ∷ xs) (suc i) d h = first_index-get k xs i d (ground arith)

-- Forgetting ply `i` leaves an index of the plies before it.
pub forget-take {ℓ} :
    {K : Type ℓ} ⦃e : Eq K⦄ (xs : List K) (i : ℕ) (d : K) (index : List (K × ℕ))
    → i < length xs
    → IsIndex index (take (suc i) xs)
    → IsIndex (forget i (get_or xs i d) index) (take i xs)
forget-take ⦃e⦄ xs i d index h v =
    subst (λ (n : ℕ). IsIndex (forget n (get_or xs i d) index) (take i xs))
      (take-length xs i (omega arith))
      (forget-IsIndex (get_or xs i d) (take i xs) index
        (subst (IsIndex index) (take-snoc xs i d h) v))

-- The position and the player to move before each move of a line and at its end.
unfoldable pub situations : ℕ → List Key → List Move → List Situation
situations p [] ms = []
situations p (k ∷ ks) [] = (k, p) ∷ situations p ks []
situations p (k ∷ ks) (m ∷ ms) = (k, p) ∷ situations (opponent m.color) ks ms

pub length-situations :
    (p : ℕ) (ks : List Key) (ms : List Move) → length (situations p ks ms) ≡ length ks
unfolding situations
length-situations p [] ms = refl
length-situations p (k ∷ ks) [] = ap suc (length-situations p ks [])
length-situations p (k ∷ ks) (m ∷ ms) = ap suc (length-situations (opponent m.color) ks ms)

pub situations-at :
    (p : ℕ) (ks : List Key) (ms : List Move) (j : ℕ) (d : Situation)
    → length ks ≡ length ms + 1
    → j < length ms
    → get_or (situations p ks ms) (suc j) d ≡ (get_or ks (suc j) [], opponent (color_at ms j))
unfolding situations
situations-at p ks [] j d h l = elim l [ ]
situations-at p [] (m ∷ ms) j d h l = absurd (omega arith)
situations-at p (k ∷ []) (m ∷ ms) j d h l = absurd (omega arith)
situations-at p (k ∷ k' ∷ ks) (m ∷ []) zero d h l = refl
situations-at p (k ∷ k' ∷ ks) (m ∷ m' ∷ ms) zero d h l = refl
situations-at p (k ∷ k' ∷ ks) (m ∷ ms) (suc j) d h l =
    situations-at (opponent m.color) (k' ∷ ks) ms j d (omega arith) (omega arith)

situations-take_nil :
    (p n : ℕ) (ks : List Key) → situations p (take n ks) [] ≡ take n (situations p ks [])
unfolding situations
situations-take_nil p zero ks = refl
situations-take_nil p (suc n) [] = refl
situations-take_nil p (suc n) (k ∷ ks) = ap (◌∷◌ (k, p)) (situations-take_nil p n ks)

pub situations-take :
    (p : ℕ) (ks : List Key) (ms : List Move) (n : ℕ)
    → situations p (take (suc n) ks) (take n ms) ≡ take (suc n) (situations p ks ms)
unfolding situations
situations-take p [] ms n = refl
situations-take p (k ∷ ks) [] zero = refl
situations-take p (k ∷ ks) (m ∷ ms) zero = refl
situations-take p (k ∷ ks) [] (suc n) = ap (◌∷◌ (k, p)) (situations-take_nil p (suc n) ks)
situations-take p (k ∷ ks) (m ∷ ms) (suc n) =
    ap (◌∷◌ (k, p)) (situations-take (opponent m.color) ks ms n)

pub situations-snoc :
    (p : ℕ) (ks : List Key) (ms : List Move) (k : Key) (m : Move)
    → length ks ≡ length ms + 1
    → situations p (ks ++ k ∷ []) (ms ++ m ∷ []) ≡ situations p ks ms ++ (k, opponent m.color) ∷ []
unfolding situations
situations-snoc p [] ms k m h = absurd (omega arith)
situations-snoc p (x ∷ []) [] k m h = refl
situations-snoc p (x ∷ y ∷ ks) [] k m h = absurd (omega arith)
situations-snoc p (x ∷ ks) (n ∷ ms) k m h =
    ap (◌∷◌ (x, p)) (situations-snoc (opponent n.color) ks ms k m (omega arith))
