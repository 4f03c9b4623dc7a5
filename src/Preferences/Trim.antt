-- ===== src/Preferences/Trim.antt =====
-- A trimmed name is trimmed.
use gowui.Base.{◌≡◌, refl, sym, ap, ◌∙◌, false, Bool-cases, [], ◌∷◌, ◌++◌, Text, inl, inr}
use mathlib.Core.List.{reverse, reverse-append, reverse-reverse}
use gowui.Preferences.{is_trimmed, trim_left, trim}

-- The text begins with no character that is trimmed off.
abbrev Starts : Text → Type 0
Starts [] = Unit
Starts (c ∷ cs) = is_trimmed c ≡ false

trim_left-Starts : (s : Text) → Starts (trim_left s)
unfolding trim_left
trim_left-Starts [] = tt
trim_left-Starts (c ∷ cs) = elim (Bool-cases (is_trimmed c)) [
  | inl a ↦ rw a (trim_left-Starts cs)
  | inr b ↦ rw b b
]

Starts-trim_left : (s : Text) → Starts s → trim_left s ≡ s
unfolding trim_left
Starts-trim_left [] h = refl
Starts-trim_left (c ∷ cs) h = rw h refl

-- What is trimmed off is a prefix.
trim_left-append : (s : Text) → (front : Text) × (s ≡ front ++ trim_left s)
unfolding trim_left
trim_left-append [] = ([], refl)
trim_left-append (c ∷ cs) = elim (Bool-cases (is_trimmed c)) [
  | inl a ↦ let (front, e) = trim_left-append cs in (c ∷ front, rw a (ap (◌∷◌ c) e))
  | inr b ↦ ([], rw b refl)
]

Starts-prefix : (s t : Text) → Starts (s ++ t) → Starts s
Starts-prefix [] t h = tt
Starts-prefix (c ∷ cs) t h = h

trim-Starts : (s : Text) → Starts (trim s)
unfolding trim
trim-Starts s =
    let u = trim_left s in
    let (front, e) = trim_left-append (reverse u) in
    let split : reverse (trim_left (reverse u)) ++ reverse front ≡ u =
      sym (reverse-append front (trim_left (reverse u))) ∙ ap reverse (sym e) ∙ reverse-reverse u in
    Starts-prefix (reverse (trim_left (reverse u))) (reverse front) (rw split (trim_left-Starts s))

pub trim-trim : (s : Text) → trim (trim s) ≡ trim s
unfolding trim
trim-trim s =
    let v = trim_left (reverse (trim_left s)) in
    rw (Starts-trim_left (reverse v) (trim-Starts s), reverse-reverse v)
      (ap reverse (Starts-trim_left v (trim_left-Starts (reverse (trim_left s)))))
