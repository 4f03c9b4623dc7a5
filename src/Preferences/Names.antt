-- ===== src/Preferences/Names.antt =====
-- The names of a list of presets, each of them once.
use gowui.Base.{
  ◌≡◌, refl, true, false, List, [], ◌∷◌, map, Text, equal_iff, equal_self, one_of, arith, All,
}
use gowui.Preferences.{Preset, repeats}

abbrev pub names : List Preset → List Text
names ps = map (λ (p : Preset). p.name) ps

-- No name is one that was seen, or stands twice.
abbrev pub AllNew : List Text → List Preset → Type 0
AllNew seen [] = Unit
AllNew seen (p ∷ ps) = (one_of p.name seen ≡ false) × AllNew (p.name ∷ seen) ps

pub seen-absent :
    (n : Text) (seen : List Text) (ps : List Preset)
    → one_of n seen ≡ true
    → AllNew seen ps
    → one_of n (names ps) ≡ false
unfolding one_of
seen-absent n seen [] h a = refl
seen-absent n seen (p ∷ ps) h (fresh, a) =
    let rest = seen-absent n (p.name ∷ seen) ps (ground (arith, h)) a in
    ground (arith, rest, fresh, h, equal_iff p.name n)

pub AllNew-repeats : (seen : List Text) (ps : List Preset) → AllNew seen ps → repeats ps ≡ false
unfolding repeats one_of
AllNew-repeats seen [] a = refl
AllNew-repeats seen (p ∷ ps) (fresh, a) =
    let first = seen-absent p.name (p.name ∷ seen) ps (rw (equal_self p.name) refl) a in
    ground (arith, first, AllNew-repeats (p.name ∷ seen) ps a)

abbrev pub Unseen : List Text → List Preset → Type 0
Unseen seen = All (λ p. one_of p.name seen ≡ false)

Unseen-more :
    (n : Text) (seen : List Text) (ps : List Preset)
    → Unseen seen ps
    → one_of n (names ps) ≡ false
    → Unseen (n ∷ seen) ps
unfolding one_of
Unseen-more n seen [] u h = tt
Unseen-more n seen (p ∷ ps) (f, u) h = (
  ground (arith, f, h, equal_iff p.name n, equal_iff n p.name),
  Unseen-more n seen ps u (ground (arith, h)),
)

pub repeats-AllNew :
    (seen : List Text) (ps : List Preset) → Unseen seen ps → repeats ps ≡ false → AllNew seen ps
unfolding repeats
repeats-AllNew seen [] u h = tt
repeats-AllNew seen (p ∷ ps) (f, u) h = (
  f,
  repeats-AllNew (p.name ∷ seen) ps (Unseen-more p.name seen ps u (ground (arith, h)))
      (ground (arith, h)),
)

pub Unseen-none : (ps : List Preset) → Unseen [] ps
unfolding one_of
Unseen-none [] = tt
Unseen-none (p ∷ ps) = (refl, Unseen-none ps)
