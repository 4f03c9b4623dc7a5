-- ===== src/View/Legal.antt =====
-- The list of legal moves against the points of the board and `Game.play`.
use gowui.Base.{
  ℕ, zero, suc, ◌+◌, ◌≡◌, refl, ap, ◌∙◌, Bool, true, false, not, ◌&&◌, List, [], ◌∷◌, ◌++◌, Option,
  some, is_some, ltb, leb, ◌==◌, if◌then◌else◌, Bool-cases, inl, inr, pos, Result, ok, err, Text,
  arith,
}
use gowui.Coords.{Point}
use gowui.Game.{
  Game, Reason, Attempt, refused, allowed, attempt, play_on, reason_of, play_move, to_play,
  legal_error,
}
use gowui.View.{legal_row, legal_rows, legal_moves, color_or}

-- Whether two points are one, on a board's side of the axes.
unfoldable pub is_at : ℕ → ℕ → Point → Bool
is_at a b (pos x, pos y) = x == a && y == b
is_at a b _ = false

-- How often a point stands in a list.
unfoldable pub times : ℕ → ℕ → List Point → ℕ
times a b [] = 0
times a b (q ∷ qs) = (if is_at a b q then 1 else 0) + times a b qs

abbrev pub is_accepted : Result Reason Game → Bool
is_accepted (ok g) = true
is_accepted (err r) = false

-- Whether the move is played when it is asked for.
unfoldable pub accepts : Game → ℕ → ℕ → ℕ → Text → Bool
accepts g color a b comment = is_accepted (play_move g color (some (pos a, pos b)) comment)

abbrev one : Bool → ℕ
one c = if c then 1 else 0

-- Whether the point is one of `n` points of the row `y` from `x`, and passes.
abbrev in_row : ℕ → ℕ → ℕ → ℕ → ℕ → Bool → Bool
in_row a b n x y k = leb x a && (ltb a (x + n) && (y == b && k))

in_row-none : (a b x y : ℕ) (k : Bool) → in_row a b 0 x y k ≡ false
in_row-none a b x y k = elim (Bool-cases (leb x a)) [
  | inl l ↦ let far : ltb a (x + 0) ≡ false = ground (arith, l) in rw (l, far) refl
  | inr n ↦ rw n refl
]

-- The first point of the row and the others.
in_row-next :
    (a b n x y : ℕ) (l k : Bool)
    → (x ≡ a → y ≡ b → l ≡ k)
    → one (l && (x == a && y == b)) + one (in_row a b n (x + 1) y k)
      ≡ one (in_row a b (suc n) x y k)
in_row-next a b n x y l k h = elim (Bool-cases (x == a)) [
  | inl e ↦
      let same : x ≡ a = ground (arith, e) in
      let past : leb (x + 1) a ≡ false = ground (arith, same) in
      let at : leb x a ≡ true = ground (arith, same) in
      let near : ltb a (x + suc n) ≡ true = ground (arith, same) in
      elim (Bool-cases (y == b)) [
        | inl f ↦
            let row : y ≡ b = ground (arith, f) in
            rw (e, f, past, at, near, h same row) (and_true k)
        | inr f ↦ rw (e, f, past, at, near) (and_false l)
      ]
  | inr e ↦
      let low : leb (x + 1) a ≡ leb x a = ground (arith, e) in
      let high : ltb a (x + 1 + n) ≡ ltb a (x + suc n) = ground arith in
      rw (e, low, high) (skipped l (one (leb x a && (ltb a (x + suc n) && (y == b && k)))))
]
  where
    and_true : (c : Bool) → one (c && true) + 0 ≡ one c
    and_true true = refl
    and_true false = refl

    skipped : (c : Bool) (t : ℕ) → one (c && false) + t ≡ t
    skipped true t = omega arith
    skipped false t = omega arith

    and_false : (c : Bool) → one (c && false) + 0 ≡ 0
    and_false true = refl
    and_false false = refl

module _ (g : Game) (color : ℕ) (a b : ℕ) where
  abbrev legal : ℕ → ℕ → Bool
  legal x y = not (is_some (legal_error g color (some (pos x, pos y))))

  times-append : (ps qs : List Point) → times a b (ps ++ qs) ≡ times a b ps + times a b qs
  unfolding times
  times-append [] qs = omega arith
  times-append (p ∷ ps) qs = omega (arith, times-append ps qs)

  times-if :
      (x y : ℕ) (c : Bool) (rest : List Point)
      → times a b (if c then rest else (pos x, pos y) ∷ rest)
        ≡ one (not c && (x == a && y == b)) + times a b rest
  unfolding times is_at
  times-if x y true rest = omega arith
  times-if x y false rest = refl

  times-legal_row :
      (n x y : ℕ) → times a b (legal_row g color n x y) ≡ one (in_row a b n x y (legal a b))
  unfolding legal_row times
  times-legal_row zero x y = rw (in_row-none a b x y (legal a b)) refl
  times-legal_row (suc n) x y =
      times-if x y (is_some (legal_error g color (some (pos x, pos y))))
        (legal_row g color n (x + 1) y)
      ∙ ap (λ (t : ℕ). one (legal x y && (x == a && y == b)) + t) (times-legal_row n (x + 1) y)
      ∙ in_row-next a b n x y (legal x y) (legal a b) (λ e f. rw (e, f) refl)

  row_of :
      (y : ℕ)
      → one (in_row a b g.size 0 y (legal a b))
        ≡ one ((ltb a g.size && legal a b) && (y == b && true))
  row_of y =
      let low : leb 0 a ≡ true = ground arith in
      let high : ltb a (0 + g.size) ≡ ltb a g.size = ground arith in
      rw (low, high) (ap one (turned (ltb a g.size) (y == b) (legal a b)))
    where
      turned : (p q r : Bool) → (p && (q && r)) ≡ ((p && r) && (q && true))
      turned true true true = refl
      turned true true false = refl
      turned true false true = refl
      turned true false false = refl
      turned false q r = refl

  times-legal_rows :
      (n y : ℕ)
      → times a b (legal_rows g color n y) ≡ one (in_row b 0 n y 0 (ltb a g.size && legal a b))
  unfolding legal_rows times
  times-legal_rows zero y = rw (in_row-none b 0 y 0 (ltb a g.size && legal a b)) refl
  times-legal_rows (suc n) y =
      let k = ltb a g.size && legal a b in
      times-append (legal_row g color g.size 0 y) (legal_rows g color n (y + 1))
      ∙ ap (λ (t : ℕ). t + times a b (legal_rows g color n (y + 1)))
          (times-legal_row g.size 0 y ∙ row_of y)
      ∙ ap (λ (t : ℕ). one (k && (y == b && true)) + t) (times-legal_rows n (y + 1))
      ∙ in_row-next b 0 n y 0 k k (λ e f. refl)

-- A move that `Game.play` plays is one that `legal_error` finds nothing against.
accepted-attempt :
    (g : Game) (color : ℕ) (p : Option Point) (comment : Text) (t : Attempt)
    → is_accepted (play_on g color p comment t) ≡ not (is_some (reason_of t))
accepted-attempt g color p comment (refused r) = refl
accepted-attempt g color p comment (allowed b n) = refl

accepts-legal_error :
    (g : Game) (color a b : ℕ) (comment : Text)
    → accepts g color a b comment ≡ not (is_some (legal_error g color (some (pos a, pos b))))
unfolding accepts play_move legal_error
accepts-legal_error g color a b comment =
    accepted-attempt g color (some (pos a, pos b)) comment (attempt g color (some (pos a, pos b)))

-- The list of legal moves of a colour, or of the player to move, has every point of the board where
-- `Game.play` plays that colour's move exactly once, and no other point with coordinates from 0 on.
pub times-legal_moves :
    (g : Game) (color : Option ℕ) (a b : ℕ) (comment : Text)
    → times a b (legal_moves g color) ≡ (
        if ltb b g.size && (ltb a g.size && accepts g (color_or (to_play g) color) a b comment)
        then 1
        else 0)
unfolding legal_moves
times-legal_moves g color a b comment =
    let c = color_or (to_play g) color in
    let low : leb 0 b ≡ true = ground arith in
    let high : ltb b (0 + g.size) ≡ ltb b g.size = ground arith in
    rw (accepts-legal_error g c a b comment, times-legal_rows g c a b g.size 0, low, high) refl
