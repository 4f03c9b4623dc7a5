-- ===== src/Board/Placement.antt =====
-- The board between a placement and the end of `play`: colours and liberties.
use gowui.Base.{
  ℕ, ◌*◌, ◌<◌, ◌≡◌, ◌≢◌, ◌⊎◌, inl, inr, refl, sym, true, List, arith, length, ◌==◌, Bool-cases,
  ==_iff, ne-of-==, ◌∙◌, ap, subst, set, length-set, set-set, set-get_or,
}
use gowui.Board.{
  Board, empty, black, white, opponent, is_color, stone_at, contains, neighbours, chain, clear,
}
use gowui.Board.Stones.{stone_at-clear}
use gowui.Board.Alive.{HasLiberty, IsAlive, Keeps}
use gowui.Board.Capture.{Removes, clear-Removes, chain-origin}
use gowui.Board.Survival.{Placed, set-Placed, enemy_lives, own_lives, suicide_lives, Keeps-other}

abbrev pub IsColor : ℕ → Type 0
IsColor v = (v ≡ empty) ⊎ (v ≡ black) ⊎ (v ≡ white)

abbrev pub IsColored : List ℕ → Type 0
IsColored stones = (k : ℕ) → IsColor (stone_at stones k)

-- A position of the game: a full grid of stones, and no chain without a liberty.
pub record IsValid (b : Board) : Type 0 where
  pub full : length b.stones ≡ b.size * b.size
  pub colored : IsColored b.stones
  pub alive : IsAlive b.size b.stones

pub is_color-IsColor : (c : ℕ) → is_color c ≡ true → IsColor c
is_color-IsColor c h = ground arith

pub opponent_facts :
    (c : ℕ) → is_color c ≡ true → (c ≢ empty) × (opponent c ≢ empty) × (opponent c ≢ c)
opponent_facts c h = ground arith

data Side (c : ℕ) (v : ℕ) : Type 0 where
  player : v ≡ c → Side c v
  rival : v ≡ opponent c → Side c v

Side-of : (c v : ℕ) → is_color c ≡ true → v ≢ empty → IsColor v → Side c v
Side-of c v h n k = elim (Bool-cases (v == c)) [
  | inl e ↦ Side.player ((==_iff v c).0 e)
  | inr e ↦ Side.rival (ground arith)
]

module _ (size : ℕ) (old : List ℕ) (c i : ℕ) (color : is_color c ≡ true) (on : i < size * size)
    (full : length old ≡ size * size) (colored : IsColored old) (alive : IsAlive size old)
    (vacant : stone_at old i ≡ empty) where
  abbrev pub placed : List ℕ
  placed = set old i c

  abbrev pub enemy : ℕ
  enemy = opponent c

  pub put : Placed size old c i placed
  put = set-Placed size old c i (rw full on) (opponent_facts c color).0 vacant

  placed-IsColored : IsColored placed
  placed-IsColored k = elim (Bool-cases (k == i)) [
    | inl this ↦
        subst IsColor (sym (ap (stone_at placed) ((==_iff k i).0 this) ∙ put.at_point))
          (is_color-IsColor c color)
    | inr other ↦ subst IsColor (sym (put.elsewhere k (ne-of-== k i other))) (colored k)
  ]

  pub Removes-IsColored : (v : ℕ) (new : List ℕ) → Removes size v placed new → IsColored new
  Removes-IsColored v new r k = elim (r.point k) [
    | inl same ↦ subst IsColor (sym same) (placed-IsColored k)
    | inr (x, y) ↦ inl y
  ]

  -- After captures, or with none, if the new stone has a liberty.
  pub survives :
      (new : List ℕ)
      → Removes size enemy placed new
      → ((n : ℕ)
          → contains (neighbours size i) n ≡ true
          → stone_at placed n ≡ enemy
          → (stone_at new n ≡ empty) ⊎ HasLiberty size new enemy n)
      → stone_at new i ≡ c
      → HasLiberty size new c i
      → IsAlive size new
  survives new r settled e-i l p v on-p e h =
      let (c0, e0, ec) = opponent_facts c color in
      elim (Side-of c v color h (subst IsColor e (Removes-IsColored enemy new r p))) [
        | Side.player x ↦
            subst (λ (w : ℕ). HasLiberty size new w p) (sym x)
              (own_lives size old c i placed new put enemy p (λ z. ec (sym z)) alive r l e-i on-p
                (e ∙ x))
        | Side.rival x ↦
            subst (λ (w : ℕ). HasLiberty size new w p) (sym x)
              (enemy_lives size old c i placed new put enemy p e0 ec on alive r settled on-p
                (λ z. ec (sym x ∙ sym e ∙ ap (stone_at new) z ∙ e-i)) (e ∙ x))
      ]

  -- The new stone stays where only enemy stones are removed.
  pub stays : (new : List ℕ) → Removes size enemy placed new → stone_at new i ≡ c
  stays new r = elim (r.point i) [
    | inl same ↦ same ∙ put.at_point
    | inr (x, y) ↦ absurd ((opponent_facts c color).2 (sym x ∙ put.at_point))
  ]

  pub placed-full : length placed ≡ size * size
  placed-full = length-set old i c ∙ full

  -- The player's own chain, removed.
  pub suicide-Removes : Removes size c placed (clear (chain size placed i).seen placed)
  suicide-Removes =
      clear-Removes size c placed i placed-full (opponent_facts c color).0 on put.at_point

  pub suicide_opens : stone_at (clear (chain size placed i).seen placed) i ≡ empty
  suicide_opens =
      stone_at-clear (chain size placed i).seen placed i
      ∙ rw (chain-origin size c placed i placed-full (opponent_facts c color).0 on put.at_point)
          refl

  -- After a permitted suicide.
  pub suicide_survives : IsAlive size (clear (chain size placed i).seen placed)
  suicide_survives p v on-p e h =
      let (c0, e0, ec) = opponent_facts c color in
      let new : List ℕ = clear (chain size placed i).seen placed in
      let ne : p ≢ i = λ z. h (sym e ∙ ap (stone_at new) z ∙ suicide_opens) in
      let keep : Keeps size placed new v =
        elim (Side-of c v color h (subst IsColor e (Removes-IsColored c new suicide-Removes p))) [
          | Side.player x ↦ subst (Keeps size placed new) (sym x) suicide-Removes.whole
          | Side.rival x ↦
              Keeps-other size old c i placed new put v c (λ z. ec (sym x ∙ z)) suicide-Removes
        ] in
      suicide_lives size old c i placed new put v p h alive suicide-Removes keep suicide_opens on-p
        ne e

  -- Taking the stone back gives the old board.
  pub restored : set placed i empty ≡ old
  restored = set-set old i c empty ∙ rw (← vacant) (set-get_or old i empty)
