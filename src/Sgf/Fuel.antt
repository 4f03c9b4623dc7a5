-- ===== src/Sgf/Fuel.antt =====
-- The fuel of the reader is enough for every text, and the bounds on what it returns.
use gowui.Base.{
  ℕ, zero, suc, ◌≤◌, ◌<◌, ◌≡◌, ◌≢◌, refl, sym, ap, List, [], ◌∷◌, Option, none, some, arith, ◌==◌,
  length, Text, lstrip, Bool-cases, inl, inr, Result, ok, err,
}
use gowui.Sgf.{
  SgfError, out_of_fuel, Mode, plain, Read, stop, skip, keep, read_char, with_char, read_value,
  with_value, after_char, read_values,
}

-- A result that is not for want of fuel, and leaves at most `n` characters.
pub data Leaves {A : Type 0} (n : ℕ) : Result SgfError (A × Text) → Type 0 where
  left : (a : A) (t : Text) → length t ≤ n → Leaves n (ok (a, t))
  failed : (e : SgfError) → e ≢ out_of_fuel → Leaves n (err e)

with_char-Leaves :
    (c n : ℕ) (r : Result SgfError (Text × Text)) → Leaves n r → Leaves (suc n) (with_char c r)
with_char-Leaves c n r (left a t l) = left (c ∷ a) t (omega (arith, l))
with_char-Leaves c n r (failed e h) = failed e h

pub widen :
    {A : Type 0} (n k : ℕ) (r : Result SgfError (A × Text)) → n ≤ k → Leaves n r → Leaves k r
widen n k r b (left a t l) = left a t (omega (arith, l, b))
widen n k r b (failed e h) = failed e h

read_value-Leaves : (m : Mode) (t : Text) → Leaves (length t) (read_value m t)
unfolding read_value
read_value-Leaves m [] = failed _ (λ e. cc)
read_value-Leaves m (c ∷ cs) = of_char (read_char m c) (λ m'. read_value-Leaves m' cs)
  where
    of_char :
        (r : Read)
        → ((m' : Mode) → Leaves (length cs) (read_value m' cs))
        → Leaves (suc (length cs)) (elim r as (λ r. Result SgfError (Text × Text)) [
          | stop ↦ ok ([], cs)
          | skip m' ↦ read_value m' cs
          | keep x ↦ with_char x (read_value plain cs)
        ])
    of_char stop ih = left [] cs (omega arith)
    of_char (skip m') ih =
        widen (length cs) (suc (length cs)) (read_value m' cs) (omega arith) (ih m')
    of_char (keep x) ih = with_char-Leaves x (length cs) (read_value plain cs) (ih plain)

pub length-lstrip : (t : Text) → length (lstrip t) ≤ length t
unfolding lstrip
length-lstrip [] = omega arith
length-lstrip (c ∷ cs) = ground (arith, length-lstrip cs)

pub after_char-length :
    (c : ℕ) (t cs : Text) → after_char c t ≡ some cs → suc (length cs) ≡ length t
after_char-length c [] cs h = absurd (cc)
after_char-length c (x ∷ xs) cs h = elim (Bool-cases (x == c)) [
  | inl y ↦ ap (λ (t : Text). suc (length t)) (sym (same (rw y at h)))
  | inr n ↦ absurd (differs (rw n at h))
]
  where
    same : ◌≡◌ {A = Option Text} (some xs) (some cs) → xs ≡ cs
    same e = cc

    differs : ◌≡◌ {A = Option Text} none (some cs) → ⊥
    differs e = cc

with_value-Leaves :
    (v : Text) (n k : ℕ) (r : Result SgfError (List Text × Text))
    → n ≤ k
    → Leaves n r
    → Leaves k (with_value v r)
with_value-Leaves v n k r b (left a t l) = left (v ∷ a) t (omega (arith, l, b))
with_value-Leaves v n k r b (failed e h) = failed e h

abbrev next_values : ℕ → Result SgfError (Text × Text) → Result SgfError (List Text × Text)
next_values n r = elim r as (λ r. Result SgfError (List Text × Text)) [
  | err e ↦ err e
  | ok r ↦ with_value (r.0) (read_values n (r.1))
]

next_values-Leaves :
    (n k : ℕ) (r : Result SgfError (Text × Text))
    → Leaves k r
    → ((t : Text) → length t ≤ k → Leaves (length t) (read_values n t))
    → Leaves k (next_values n r)
next_values-Leaves n k r (left a t l) ih =
    with_value-Leaves a (length t) k (read_values n t) l (ih t l)
next_values-Leaves n k r (failed e h) ih = failed e h

pub read_values-Leaves : (n : ℕ) (t : Text) → length t < n → Leaves (length t) (read_values n t)
unfolding read_values
read_values-Leaves zero t l = absurd (omega (arith, l))
read_values-Leaves (suc n) t l =
    of_open (after_char b'[' (lstrip t)) refl (λ t'. read_values-Leaves n t')
  where
    of_open :
        (o : Option Text)
        → after_char b'[' (lstrip t) ≡ o
        → ((t' : Text) → length t' < n → Leaves (length t') (read_values n t'))
        → Leaves (length t) (elim o as (λ o. Result SgfError (List Text × Text)) [
          | none ↦ ok ([], lstrip t)
          | some cs ↦ next_values n (read_value plain cs)
        ])
    of_open none e ih = left [] (lstrip t) (length-lstrip t)
    of_open (some cs) e ih =
        let shorter = after_char-length b'[' (lstrip t) cs e in
        widen (length cs) (length t) (next_values n (read_value plain cs))
          (omega (arith, shorter, length-lstrip t))
          (next_values-Leaves n (length cs) (read_value plain cs) (read_value-Leaves plain cs)
            (λ t' b. ih t' (omega (arith, b, shorter, length-lstrip t, l))))
