-- ===== src/Board/Play.antt =====
-- `Board.play`: the invariant, what a refusal leaves, and where the stones go.
use gowui.Base.{
  ℕ, zero, suc, ◌+◌, ◌*◌, ◌<◌, ◌≡◌, ◌⊎◌, inl, inr, refl, sym, Bool, true, List, [], ◌∷◌, arith,
  length, ◌==◌, Bool-cases, ==_iff, ◌∙◌, ap, subst, set, replicate, length-replicate, Result, ok,
  err, ℤ, pos, negsuc,
}
use gowui.Board.{
  Board, new_board, MoveError, empty, opponent, is_color, stone_at, neighbours, capture, settle,
  finish, play_at, play, on_board, index_of,
}
use gowui.Board.Neighbours.{neighbours-lt}
use gowui.Board.Chain.{Linked}
use gowui.Board.Stones.{count_stones, count_stones-set}
use gowui.Board.Alive.{HasLiberty}
use gowui.Board.Capture.Loop.{Outcome, capture-Outcome}
use gowui.Board.Placement.{IsValid, opponent_facts}
use gowui.Board.Settle.{
  prisoners, prisoners-add, captured-IsValid, settle-IsValid, settle_refused, settle_counts,
  size-full,
}

module _ (b : Board) (c i : ℕ) (color : is_color c ≡ true) (v : IsValid b)
    (on : i < b.size * b.size) (vacant : stone_at b.stones i ≡ empty) where
  abbrev Captured : List ℕ × List ℕ → Type 0
  Captured = Outcome b.size (opponent c) (neighbours b.size i) (set b.stones i c) []

  untaken : (new : List ℕ) → Captured (new, []) → new ≡ set b.stones i c
  untaken new o = o.untouched (sym o.joined)

  finish-IsValid :
      (allow : Bool) (r : List ℕ × List ℕ) → Captured r → IsValid (finish b c i allow r).1
  unfolding finish
  finish-IsValid allow (new, []) o =
      subst (λ (l : List ℕ). IsValid (settle b c i l allow).1) (sym (untaken new o))
        (settle-IsValid b c i color v on vacant allow (λ n m x.
          subst (λ (l : List ℕ). (stone_at l n ≡ empty) ⊎ HasLiberty b.size l (opponent c) n)
            (untaken new o) (o.settled n m x)))
  finish-IsValid allow (new, x ∷ xs) o =
      let (n, m, e) = o.opened (λ z. cc (o.joined, z)) in
      rw color (
        captured-IsValid b c i color v on vacant new _ o.full o.removes o.settled
          (record { point = i; free = n; linked = Linked.here; is_next = m; is_free = e }))

  finish_refused :
      (allow : Bool) (r : List ℕ × List ℕ) (e : MoveError)
      → Captured r
      → (finish b c i allow r).0 ≡ err e
      → (finish b c i allow r).1 ≡ b
  unfolding finish
  finish_refused allow (new, []) e o h =
      subst (λ (l : List ℕ). (settle b c i l allow).0 ≡ err e → (settle b c i l allow).1 ≡ b)
        (sym (untaken new o)) (settle_refused b c i color v on vacant allow e) h
  finish_refused allow (new, x ∷ xs) e o h = absurd (not_refused color h)
    where
      not_refused : is_color c ≡ true → (finish b c i allow (new, x ∷ xs)).0 ≡ err e → ⊥
      not_refused h k = ground arith

  finish_counts :
      (allow : Bool) (r : List ℕ × List ℕ) (xs : List (ℕ × ℕ))
      → Captured r
      → (finish b c i allow r).0 ≡ ok xs
      → count_stones (finish b c i allow r).1.stones + prisoners (finish b c i allow r).1.captures
        ≡ count_stones (set b.stones i c) + prisoners b.captures
  unfolding finish
  finish_counts allow (new, []) xs o h =
      subst
        (λ (l : List ℕ).
          (settle b c i l allow).0 ≡ ok xs
          → count_stones (settle b c i l allow).1.stones
              + prisoners (settle b c i l allow).1.captures
            ≡ count_stones (set b.stones i c) + prisoners b.captures)
        (sym (untaken new o)) (settle_counts b c i color v on vacant allow xs) h
  finish_counts allow (new, x ∷ ks) xs o h = rw color (
      omega (
        arith,
        o.counted,
        prisoners-add c (suc (length ks)) b.captures,
        ap (λ (l : List ℕ). length l) o.joined,
      ))

  captured : Captured (capture b.size (opponent c) (neighbours b.size i) (set b.stones i c) [])
  captured =
      capture-Outcome b.size (opponent c) (opponent_facts c color).1 (neighbours b.size i)
        (set b.stones i c) [] (size-full b c i color v on vacant) (λ n. neighbours-lt b.size i n on)

-- The effect of one call on a board, by how it ended.
abbrev pub Played : Board → Result MoveError (List (ℕ × ℕ)) × Board → Type 0
Played b (ok taken, b') =
    IsValid b'
    × (count_stones b'.stones + prisoners b'.captures
        ≡ count_stones b.stones + prisoners b.captures + 1)
Played b (err e, b') = b' ≡ b

Played-of :
    (b : Board) (r : Result MoveError (List (ℕ × ℕ)) × Board)
    → IsValid r.1
    → ((e : MoveError) → r.0 ≡ err e → r.1 ≡ b)
    → ((xs : List (ℕ × ℕ))
        → r.0 ≡ ok xs
        → count_stones r.1.stones + prisoners r.1.captures
          ≡ count_stones b.stones + prisoners b.captures + 1)
    → Played b r
Played-of b (ok xs, b') v e k = (v, k xs refl)
Played-of b (err x, b') v e k = e x refl

play_at-Played :
    (b : Board) (c i : ℕ) (allow : Bool)
    → is_color c ≡ true
    → IsValid b
    → i < b.size * b.size
    → Played b (play_at b c i allow)
unfolding play_at
play_at-Played b c i allow color v on = elim (Bool-cases (stone_at b.stones i == empty)) [
  | inr taken ↦ rw taken refl
  | inl vacant ↦
      let e : stone_at b.stones i ≡ empty = (==_iff (stone_at b.stones i) empty).0 vacant in
      let o = captured b c i color v on e in
      rw vacant (
        Played-of b _ (finish-IsValid b c i color v on e allow _ o)
          (λ x. finish_refused b c i color v on e allow _ x o)
          (λ xs h. omega (
            arith,
            finish_counts b c i color v on e allow _ xs o h,
            count_stones-set b.stones i c (rw v.full on) e (opponent_facts c color).0,
          )))
]

cell_lt : (x y size : ℕ) → x < size → y < size → y * size + x < size * size
cell_lt x y size hx hy = grind arith

on_board-lt : (b : Board) (x y : ℤ) → on_board b x y ≡ true → index_of b.size x y < b.size * b.size
on_board-lt b (pos x) (pos y) h = cell_lt x y b.size (ground arith) (ground arith)
on_board-lt b (negsuc x) y h = absurd (cc)
on_board-lt b (pos x) (negsuc y) h = absurd (ground arith)

play-Played :
    (b : Board) (c : ℕ) (x y : ℤ) (allow : Bool)
    → is_color c ≡ true
    → IsValid b
    → Played b (play b c x y allow)
unfolding play
play-Played b c x y allow color v = elim (Bool-cases (on_board b x y)) [
  | inr off ↦ rw off refl
  | inl on ↦ rw on (play_at-Played b c (index_of b.size x y) allow color v (on_board-lt b x y on))
]

Played-IsValid :
    (b : Board) (r : Result MoveError (List (ℕ × ℕ)) × Board) → IsValid b → Played b r → IsValid r.1
Played-IsValid b (ok xs, b') v p = p.0
Played-IsValid b (err e, b') v p = subst IsValid (sym p) v

-- Whatever `play` answers to a black or white move, it leaves a full board of empty, black and
-- white points on which every chain has a liberty, if it was given one.
pub play-IsValid :
    (b : Board) (c : ℕ) (x y : ℤ) (allow : Bool)
    → is_color c ≡ true
    → IsValid b
    → IsValid (play b c x y allow).1
play-IsValid b c x y allow color v =
    Played-IsValid b (play b c x y allow) v (play-Played b c x y allow color v)

Played-refused :
    (b : Board) (r : Result MoveError (List (ℕ × ℕ)) × Board) (e : MoveError)
    → Played b r
    → r.0 ≡ err e
    → r.1 ≡ b
Played-refused b (ok xs, b') e p h = cc
Played-refused b (err x, b') e p h = p

-- On a valid board a refused black or white move leaves the board as it was, stones and prisoners.
pub play_refused :
    (b : Board) (c : ℕ) (x y : ℤ) (allow : Bool) (e : MoveError)
    → is_color c ≡ true
    → IsValid b
    → (play b c x y allow).0 ≡ err e
    → (play b c x y allow).1 ≡ b
play_refused b c x y allow e color v h =
    Played-refused b (play b c x y allow) e (play-Played b c x y allow color v) h

Played-counts :
    (b : Board) (r : Result MoveError (List (ℕ × ℕ)) × Board) (xs : List (ℕ × ℕ))
    → Played b r
    → r.0 ≡ ok xs
    → count_stones r.1.stones + prisoners r.1.captures
      ≡ count_stones b.stones + prisoners b.captures + 1
Played-counts b (ok ys, b') xs p h = p.1
Played-counts b (err e, b') xs p h = cc

-- An accepted black or white move on a valid board adds one to the stones on the board and the
-- prisoners of both colours together: every stone that leaves the board is counted once.
pub play_conserves :
    (b : Board) (c : ℕ) (x y : ℤ) (allow : Bool) (taken : List (ℕ × ℕ))
    → is_color c ≡ true
    → IsValid b
    → (play b c x y allow).0 ≡ ok taken
    → count_stones (play b c x y allow).1.stones + prisoners (play b c x y allow).1.captures
      ≡ count_stones b.stones + prisoners b.captures + 1
play_conserves b c x y allow taken color v h =
    Played-counts b (play b c x y allow) taken (play-Played b c x y allow color v) h

stone_at-replicate : (n k : ℕ) → stone_at (replicate n empty) k ≡ empty
stone_at-replicate zero k = refl
stone_at-replicate (suc n) zero = refl
stone_at-replicate (suc n) (suc k) = stone_at-replicate n k

-- The empty board is valid.
pub new_board-IsValid : (size : ℕ) → IsValid (new_board size)
unfolding new_board
new_board-IsValid size = record {
  full = length-replicate (size * size) empty;
  colored = λ k. inl (stone_at-replicate (size * size) k);
  alive = λ p v on e h. absurd (h (sym e ∙ stone_at-replicate (size * size) p));
}

settle-size :
    (b : Board) (c i : ℕ) (stones : List ℕ) (allow : Bool)
    → (settle b c i stones allow).1.size ≡ b.size
unfolding settle
settle-size b c i stones allow = ground arith

finish-size :
    (b : Board) (c i : ℕ) (allow : Bool) (r : List ℕ × List ℕ)
    → (finish b c i allow r).1.size ≡ b.size
unfolding finish
finish-size b c i allow (stones, []) = settle-size b c i stones allow
finish-size b c i allow (stones, x ∷ xs) = ground arith

play_at-size : (b : Board) (c i : ℕ) (allow : Bool) → (play_at b c i allow).1.size ≡ b.size
unfolding play_at
play_at-size b c i allow = elim (Bool-cases (stone_at b.stones i == empty)) [
  | inl vacant ↦ rw vacant (finish-size b c i allow _)
  | inr occupied ↦ rw occupied refl
]

pub play-size : (b : Board) (c : ℕ) (x y : ℤ) (allow : Bool) → (play b c x y allow).1.size ≡ b.size
unfolding play
play-size b c x y allow = ground (arith, play_at-size b c (index_of b.size x y) allow)
