-- ===== src/Gtp/Digits.antt =====
-- A command's number, as it is written and as the reply's is read.
use gowui.Base.{
  ℕ, zero, suc, ◌+◌, ◌-◌, ◌*◌, ◌/◌, ◌%◌, ◌≤◌, ◌<◌, ◌≡◌, refl, true, false, Bool-cases, [], ◌∷◌,
  ◌++◌, append_assoc, ltb, length, length-append, Text, codes, within, All, All-append, arith, inl,
  inr,
}
use gowui.Coords.{decimal, show_digits}
use gowui.Gtp.{numbered}
use gowui.Gtp.Exchange.{span_digits, number_from, is_mismatch}

abbrev pub IsDigit : ℕ → Type 0
IsDigit c = (48 ≤ c) × (c ≤ 57)

pub show_digits-IsDigit : (fuel n : ℕ) → All IsDigit (show_digits fuel n)
unfolding show_digits
show_digits-IsDigit zero n = tt
show_digits-IsDigit (suc fuel) n = elim (Bool-cases (ltb n 10)) [
  | inl a ↦ rw a ((ground (arith, a), tt))
  | inr b ↦ rw b (
      All-append IsDigit (show_digits fuel (n / 10)) (_ ∷ []) (show_digits-IsDigit fuel (n / 10))
        (omega arith, tt))
]

number_from-append :
    (acc d : ℕ) (xs : Text) → number_from acc (xs ++ d ∷ []) ≡ number_from acc xs * 10 + (d - 48)
unfolding number_from
number_from-append acc d [] = refl
number_from-append acc d (x ∷ xs) = number_from-append (acc * 10 + (x - 48)) d xs

number_from-show_digits : (fuel n : ℕ) → n < fuel → number_from 0 (show_digits fuel n) ≡ n
unfolding show_digits number_from
number_from-show_digits zero n h = absurd (omega arith)
number_from-show_digits (suc fuel) n h = elim (Bool-cases (ltb n 10)) [
  | inl a ↦ rw a (omega arith)
  | inr b ↦
      rw (b, number_from-append 0 (n % 10 + 48) (show_digits fuel (n / 10)))
        (ground (arith, number_from-show_digits fuel (n / 10), b))
]

-- The numbers of `k + 1` digits at most.
abbrev pub limit : ℕ → ℕ
limit zero = 10
limit (suc k) = 10 * limit k

one_more :
    (k n d : ℕ) (ds : Text)
    → 10 ≤ n
    → n < limit k
    → ((j : ℕ) → n / 10 < limit j → length ds ≤ suc j)
    → length (ds ++ d ∷ []) ≤ suc k
one_more zero n d ds l h f = absurd (omega arith)
one_more (suc k) n d ds l h f = omega (arith, length-append ds (d ∷ []), f k (omega arith))

length-show_digits : (fuel k n : ℕ) → n < limit k → length (show_digits fuel n) ≤ suc k
unfolding show_digits
length-show_digits zero k n h = omega arith
length-show_digits (suc fuel) k n h = elim (Bool-cases (ltb n 10)) [
  | inl a ↦ rw a (omega arith)
  | inr b ↦ rw b (
      one_more k n (n % 10 + 48) (show_digits fuel (n / 10)) (ground (arith, b)) h
        (λ j g. length-show_digits fuel j (n / 10) g))
]

digit_within : (d : ℕ) → IsDigit d → within b'0' b'9' d ≡ true
digit_within d h = ground (arith, h)

span_digits-append :
    (ds rest : Text) → All IsDigit ds → span_digits (ds ++ b' ' ∷ rest) ≡ (ds, b' ' ∷ rest)
unfolding span_digits
span_digits-append [] rest h = refl
span_digits-append (d ∷ ds) rest h =
    rw (span_digits-append ds rest (h.1)) (rw (digit_within d (h.0)) refl)

is_mismatch-own :
    (id : ℕ) (ds : Text) → length ds ≤ 18 → number_from 0 ds ≡ id → is_mismatch id ds ≡ false
unfolding is_mismatch number_from
is_mismatch-own id [] l e = refl
is_mismatch-own id (d ∷ ds) l e = ground (arith, l, e)

-- The head of a reply to a command of at most eighteen digits names that command.
pub numbered-own :
    (id : ℕ) (rest : Text)
    → id < limit 17
    → let (ds, after) = span_digits (numbered id rest) in
      (is_mismatch id ds ≡ false) × (after ≡ b' ' ∷ rest)
unfolding decimal
numbered-own id rest h =
    rw
      (
        append_assoc (decimal id) (codes " ") rest,
        span_digits-append (decimal id) rest (show_digits-IsDigit (id + 1) id),
      )
      ((
        is_mismatch-own id (decimal id) (length-show_digits (id + 1) 17 id h)
            (number_from-show_digits (id + 1) id (omega arith)),
        refl,
      ))
