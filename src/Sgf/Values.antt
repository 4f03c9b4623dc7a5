-- ===== src/Sgf/Values.antt =====
-- Reading back what the writer writes of one node: values, keys, properties.
use gowui.Base.{
  ℕ, zero, suc, ◌≤◌, ◌<◌, ◌≡◌, refl, sym, ap, ◌∙◌, subst, false, List, [], ◌∷◌, ◌++◌, append_assoc,
  Option, none, some, arith, ◌==◌, if◌then◌else◌, length, length-append, Text, is_space, lstrip,
  Bool-cases, inl, inr, ==_iff, Result, ok, err, text_eq,
}
use gowui.Sgf.{
  SgfError, replace_char, escape, dump_values, plain, Read, stop, skip, keep, read_char, with_char,
  read_value, with_value, after_char, read_values,
}

-- The escape in one pass.
abbrev escape_one : ℕ → Text
escape_one c =
    if c == b'\\' then b'\\' ∷ b'\\' ∷ [] else if c == b']' then b'\\' ∷ b']' ∷ [] else c ∷ []

escape-cons : (c : ℕ) (cs : Text) → escape (c ∷ cs) ≡ escape_one c ++ escape cs
unfolding escape replace_char
escape-cons c cs = elim (Bool-cases (c == b'\\')) [
  | inl y ↦ rw y refl
  | inr n ↦ elim (Bool-cases (c == b']')) [ inl z ↦ rw n (rw z refl) | inr z ↦ rw n (rw z refl) ]
]

read_value-backslash :
    (t : Text) → read_value plain (b'\\' ∷ b'\\' ∷ t) ≡ with_char b'\\' (read_value plain t)
unfolding read_value
read_value-backslash t = refl

read_value-bracket :
    (t : Text) → read_value plain (b'\\' ∷ b']' ∷ t) ≡ with_char b']' (read_value plain t)
unfolding read_value
read_value-bracket t = refl

read_char-keep : (c : ℕ) → c == b'\\' ≡ false → c == b']' ≡ false → read_char plain c ≡ keep c
read_char-keep c n z = rw (n, z) refl

read_value-keep :
    (c : ℕ) (t : Text)
    → read_char plain c ≡ keep c
    → read_value plain (c ∷ t) ≡ with_char c (read_value plain t)
unfolding read_value
read_value-keep c t e =
    ap
      (λ (r : Read). elim r as (λ r. Result SgfError (Text × Text)) [
        | stop ↦ ok ([], t)
        | skip m ↦ read_value m t
        | keep x ↦ with_char x (read_value plain t)
      ])
      e

read_value-one :
    (c : ℕ) (t : Text) → read_value plain (escape_one c ++ t) ≡ with_char c (read_value plain t)
read_value-one c t = elim (Bool-cases (c == b'\\')) [
  | inl y ↦
      subst (λ (x : ℕ). read_value plain (escape_one x ++ t) ≡ with_char x (read_value plain t))
        (sym ((==_iff c b'\\').0 y)) (read_value-backslash t)
  | inr n ↦ elim (Bool-cases (c == b']')) [
    | inl z ↦
        subst (λ (x : ℕ). read_value plain (escape_one x ++ t) ≡ with_char x (read_value plain t))
          (sym ((==_iff c b']').0 z)) (read_value-bracket t)
    | inr z ↦ rw (n, z) (read_value-keep c t (read_char-keep c n z))
  ]
]

read_value-nil : (rest : Text) → read_value plain (escape [] ++ b']' ∷ rest) ≡ ok ([], rest)
unfolding read_value escape replace_char
read_value-nil rest = refl

-- A written value reads back as itself, whatever characters it has.
pub read_value-escape : (v rest : Text) → read_value plain (escape v ++ b']' ∷ rest) ≡ ok (v, rest)
read_value-escape [] rest = read_value-nil rest
read_value-escape (c ∷ v) rest =
    ap (λ (t : Text). read_value plain (t ++ b']' ∷ rest)) (escape-cons c v)
    ∙ ap (read_value plain) (append_assoc (escape_one c) (escape v) (b']' ∷ rest))
    ∙ read_value-one c (escape v ++ b']' ∷ rest)
    ∙ ap (with_char c) (read_value-escape v rest)

-- Text at which the values of a property end.
abbrev pub EndsValues : Text → Type 0
EndsValues t = (lstrip t ≡ t) × (after_char b'[' t ≡ none)

abbrev values_after : ℕ → Text → Option Text → Result SgfError (List Text × Text)
values_after n t o = elim o as (λ o. Result SgfError (List Text × Text)) [
  | none ↦ ok ([], t)
  | some cs ↦ elim (read_value plain cs) as (λ r. Result SgfError (List Text × Text)) [
    | err e ↦ err e
    | ok r ↦ with_value (r.0) (read_values n (r.1))
  ]
]

read_values-end : (n : ℕ) (t : Text) → EndsValues t → read_values (suc n) t ≡ ok ([], t)
unfolding read_values
read_values-end n t (same, shut) =
    ap (λ (s : Text). values_after n s (after_char b'[' s)) same ∙ ap (values_after n t) shut

read_values-open :
    (n : ℕ) (v t : Text)
    → read_values (suc n) (b'[' ∷ escape v ++ b']' ∷ t) ≡ with_value v (read_values n t)
unfolding read_values lstrip is_space
read_values-open n v t =
    ap
      (λ (r : Result SgfError (Text × Text)). elim r as (λ r. Result SgfError (List Text × Text)) [
        | err e ↦ err e
        | ok r ↦ with_value (r.0) (read_values n (r.1))
      ])
      (read_value-escape v t)

dump_values-cons :
    (v : Text) (vs : List Text) (t : Text)
    → dump_values (v ∷ vs) ++ t ≡ b'[' ∷ escape v ++ b']' ∷ (dump_values vs ++ t)
unfolding dump_values
dump_values-cons v vs t =
    ap (λ (s : Text). b'[' ∷ s) (append_assoc (escape v) (b']' ∷ dump_values vs) t)

read_values-nil :
    (n : ℕ) (t : Text) → EndsValues t → read_values (suc n) (dump_values [] ++ t) ≡ ok ([], t)
unfolding dump_values
read_values-nil n t e = read_values-end n t e

length-dump_values : (vs : List Text) → length vs ≤ length (dump_values vs)
unfolding dump_values
length-dump_values [] = omega arith
length-dump_values (v ∷ vs) =
    omega (arith, length-dump_values vs, length-append (escape v) (b']' ∷ dump_values vs))

pub read_values-dump :
    (n : ℕ) (vs : List Text) (t : Text)
    → length vs < n
    → EndsValues t
    → read_values n (dump_values vs ++ t) ≡ ok (vs, t)
read_values-dump zero vs t l e = absurd (omega (arith, l))
read_values-dump (suc n) [] t l e = read_values-nil n t e
read_values-dump (suc n) (v ∷ vs) t l e =
    ap (read_values (suc n)) (dump_values-cons v vs t)
    ∙ read_values-open n v (dump_values vs ++ t)
    ∙ ap (with_value v) (read_values-dump n vs t (omega (arith, l)) e)

-- With the fuel that `read_node` gives it the reader of the values has enough.
pub read_values-written :
    (vs : List Text) (t : Text)
    → EndsValues t
    → read_values (suc (length (dump_values vs ++ t))) (dump_values vs ++ t) ≡ ok (vs, t)
read_values-written vs t e =
    read_values-dump (suc (length (dump_values vs ++ t))) vs t
      (omega (arith, length-dump_values vs, length-append (dump_values vs) t)) e
