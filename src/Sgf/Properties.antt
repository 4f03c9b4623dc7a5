-- ===== src/Sgf/Properties.antt =====
-- Reading back the properties of one node.
use gowui.Base.{
  ℕ, ◌≡◌, refl, ap, ◌∙◌, true, false, List, [], ◌∷◌, ◌++◌, Option, none, some, arith, Text,
  is_space, lstrip, Bool-cases, inl, inr, lookup, insert, text_eq, equal,
}
use gowui.Sgf.{
  Node, after_char, is_upper, is_letter, is_nil, ident_of, after_ident, upper_of, key_of, held,
  extend,
}

-- A property name: one or more upper-case letters.
pub data IsName : Text → Type 0 where
  last : (c : ℕ) → is_upper c ≡ true → IsName (c ∷ [])
  more : (c : ℕ) {cs : Text} → is_upper c ≡ true → IsName cs → IsName (c ∷ cs)

-- The text does not begin with a letter.
abbrev pub NoLetter : Text → Type 0
NoLetter t = ident_of t ≡ []

upper-letter : (c : ℕ) → is_upper c ≡ true → is_letter c ≡ true
upper-letter c h = ground arith

ident_of-letter : (c : ℕ) (t : Text) → is_letter c ≡ true → ident_of (c ∷ t) ≡ c ∷ ident_of t
unfolding ident_of
ident_of-letter c t h = rw h refl

after_ident-letter : (c : ℕ) (t : Text) → is_letter c ≡ true → after_ident (c ∷ t) ≡ after_ident t
unfolding after_ident
after_ident-letter c t h = rw h refl

after_ident-none : (t : Text) → NoLetter t → after_ident t ≡ t
unfolding after_ident ident_of
after_ident-none [] h = refl
after_ident-none (c ∷ cs) h = elim (Bool-cases (is_letter c)) [
  | inl y ↦ absurd (nonempty (rw y at h))
  | inr n ↦ rw n refl
]
  where
    nonempty : {c : ℕ} {cs : Text} → ◌≡◌ {A = Text} (c ∷ cs) [] → ⊥
    nonempty e = cc

pub ident_of-name : {k : Text} (t : Text) → IsName k → NoLetter t → ident_of (k ++ t) ≡ k
ident_of-name t (last c u) h = ident_of-letter c t (upper-letter c u) ∙ ap (λ (s : Text). c ∷ s) h
ident_of-name t (more c {cs} u n) h =
    ident_of-letter c (cs ++ t) (upper-letter c u) ∙ ap (λ (s : Text). c ∷ s) (ident_of-name t n h)

pub after_ident-name : {k : Text} (t : Text) → IsName k → NoLetter t → after_ident (k ++ t) ≡ t
after_ident-name t (last c u) h = after_ident-letter c t (upper-letter c u) ∙ after_ident-none t h
after_ident-name t (more c {cs} u n) h =
    after_ident-letter c (cs ++ t) (upper-letter c u) ∙ after_ident-name t n h

upper_of-cons : (c : ℕ) (t : Text) → is_upper c ≡ true → upper_of (c ∷ t) ≡ c ∷ upper_of t
unfolding upper_of
upper_of-cons c t h = rw h refl

upper_of-nil : upper_of [] ≡ []
unfolding upper_of
upper_of-nil = refl

upper_of-name : {k : Text} → IsName k → upper_of k ≡ k
upper_of-name (last c u) = upper_of-cons c [] u ∙ ap (λ (s : Text). c ∷ s) upper_of-nil
upper_of-name (more c {cs} u n) = upper_of-cons c cs u ∙ ap (λ (s : Text). c ∷ s) (upper_of-name n)

is_nil-name : {k : Text} → IsName k → is_nil k ≡ false
is_nil-name (last c u) = refl
is_nil-name (more c u n) = refl

pub key_of-name : {k : Text} → IsName k → key_of k ≡ k
unfolding key_of
key_of-name {k} n = rw (upper_of-name n) (rw (is_nil-name n) refl)

upper-not_space : (c : ℕ) → is_upper c ≡ true → is_space c ≡ false
unfolding is_space
upper-not_space c h = ground arith

lstrip-upper : (c : ℕ) (t : Text) → is_upper c ≡ true → lstrip (c ∷ t) ≡ c ∷ t
unfolding lstrip
lstrip-upper c t h = rw (upper-not_space c h) refl

pub lstrip-name : {k : Text} (t : Text) → IsName k → lstrip (k ++ t) ≡ k ++ t
lstrip-name t (last c u) = lstrip-upper c t u
lstrip-name t (more c {cs} u n) = lstrip-upper c (cs ++ t) u

pub after_char-name : {k : Text} (t : Text) → IsName k → after_char b'[' (k ++ t) ≡ none
after_char-name t (last c u) = not_bracket c t u
  where
    not_bracket : (c : ℕ) (t : Text) → is_upper c ≡ true → after_char b'[' (c ∷ t) ≡ none
    not_bracket c t h = ground arith
after_char-name t (more c {cs} u n) = not_bracket c (cs ++ t) u
  where
    not_bracket : (c : ℕ) (t : Text) → is_upper c ≡ true → after_char b'[' (c ∷ t) ≡ none
    not_bracket c t h = ground arith

-- The properties that a node of the reader can have: names, values for each, no name twice.
unfoldable pub IsProperties : Node → Type 0
IsProperties [] = Unit {0}
IsProperties ((k, vs) ∷ ps) =
    IsName k × (is_nil vs ≡ false) × (lookup k ps ≡ none) × IsProperties ps

-- No name of the second list is in the first.
unfoldable pub IsApart : Node → Node → Type 0
IsApart acc [] = Unit {0}
IsApart acc ((k, vs) ∷ ps) = (lookup k acc ≡ none) × IsApart acc ps

pub IsApart-nil : (ps : Node) → IsApart [] ps
unfolding IsApart lookup
IsApart-nil [] = tt
IsApart-nil ((k, vs) ∷ ps) = (refl, IsApart-nil ps)

insert-new :
    (k : Text) (vs : List Text) (acc : Node)
    → lookup k acc ≡ none
    → insert k vs acc ≡ acc ++ (k, vs) ∷ []
unfolding insert lookup
insert-new k vs [] h = refl
insert-new k vs ((j, ws) ∷ acc) h = elim (Bool-cases (equal j k)) [
  | inl y ↦ absurd (found (rw y at h))
  | inr n ↦ rw n (ap (λ (d : Node). (j, ws) ∷ d) (insert-new k vs acc (rw n at h)))
]
  where
    found : {ws : List Text} → ◌≡◌ {A = Option (List Text)} (some ws) none → ⊥
    found e = cc

pub extend-new :
    (k : Text) (vs : List Text) (acc : Node)
    → lookup k acc ≡ none
    → extend k vs acc ≡ acc ++ (k, vs) ∷ []
unfolding extend
extend-new k vs acc h =
    ap (λ (o : Option (List Text)). insert k (held o ++ vs) acc) h ∙ insert-new k vs acc h

pub lookup-snoc :
    (k j : Text) (vs : List Text) (acc : Node)
    → lookup k acc ≡ none
    → equal j k ≡ false
    → lookup k (acc ++ (j, vs) ∷ []) ≡ none
unfolding lookup
lookup-snoc k j vs [] h n = rw n refl
lookup-snoc k j vs ((i, ws) ∷ acc) h n = elim (Bool-cases (equal i k)) [
  | inl y ↦ absurd (found (rw y at h))
  | inr m ↦ rw m (lookup-snoc k j vs acc (rw m at h) n)
]
  where
    found : {ws : List Text} → ◌≡◌ {A = Option (List Text)} (some ws) none → ⊥
    found e = cc
