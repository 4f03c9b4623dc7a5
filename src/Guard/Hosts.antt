-- ===== src/Guard/Hosts.antt =====
-- What a host value comes to: a host with its port, a refusal, or the error of `int`.
use gowui.Base.{
  ℕ, ◌≤◌, ◌<◌, ◌≡◌, refl, ◌||◌, [], ◌∷◌, Option, none, some, arith, ◌==◌, Bool-cases, inl, inr,
  Text, lower, Result, ok, err, or_raise, ◌>>=◌, length,
}
use gowui.Guard.{
  HostError, bad_host, too_many_digits, any_char, bad_char, is_blank, port, Host, with_port,
  bracket_rest, plain_rest, bracketed, before_char, beyond_char, host_of, normalise_host,
}

-- What a value may come to. The error of `int` is none of `normalise_host`'s own answers.
pub data IsHost (v : Text) : Result HostError Host → Type 0 where
  refused : IsHost v (err bad_host)
  raised : 4300 < length v → IsHost v (err too_many_digits)
  no_port : (h : Text) → IsHost v (ok (h, none))
  with_number : (h : Text) (n : ℕ) → 1 ≤ n → n ≤ 65535 → IsHost v (ok (h, some n))

port-range : (t : Text) (n : ℕ) → port t ≡ ok n → (1 ≤ n) × (n ≤ 65535)
unfolding port
port-range t n h = (ground (arith, h), ground (arith, h))

port-raises : (t : Text) → port t ≡ err too_many_digits → 4300 < length t
unfolding port
port-raises t h = ground (arith, h)

-- The rest of a text after a character is shorter.
length-beyond_char : (c : ℕ) (t rest : Text) → beyond_char c t ≡ some rest → length rest ≤ length t
unfolding beyond_char
length-beyond_char c [] rest h = absurd (cc)
length-beyond_char c (x ∷ xs) rest h = elim (Bool-cases (x == c)) [
  | inl y ↦ let h1 = rw y at h in let same : xs ≡ rest = cc in rw (← same) (omega arith)
  | inr n ↦ let short = length-beyond_char c xs rest (rw n at h) in omega (arith, short)
]

with_port-IsHost : (v h t : Text) → length t ≤ length v → IsHost v (with_port h t)
with_port-IsHost v h t l = of_port (port t) (λ n. port-range t n) (port-raises t)
  where
    of_port :
        (r : Result HostError ℕ)
        → ((n : ℕ) → r ≡ ok n → (1 ≤ n) × (n ≤ 65535))
        → (r ≡ err too_many_digits → 4300 < length t)
        → IsHost v (r >>= λ n. ok (lower h, some n))
    of_port (ok n) f g = with_number (lower h) n (f n refl).0 (f n refl).1
    of_port (err bad_host) f g = refused
    of_port (err too_many_digits) f g = let long = g refl in raised (omega (arith, long, l))

bracket_rest-IsHost : (v h t : Text) → length t ≤ length v → IsHost v (bracket_rest h t)
bracket_rest-IsHost v h [] l = no_port (lower h)
bracket_rest-IsHost v h (c ∷ cs) l = elim (Bool-cases (c == b':')) [
  | inl y ↦ rw y (with_port-IsHost v h cs (omega (arith, l)))
  | inr n ↦ rw n refused
]

plain_rest-IsHost :
    (v h : Text) (o : Option Text)
    → ((t : Text) → o ≡ some t → length t ≤ length v)
    → IsHost v (plain_rest h o)
plain_rest-IsHost v h none l = elim (Bool-cases (is_blank h)) [
  | inl y ↦ rw y refused
  | inr n ↦ rw n (no_port (lower h))
]
plain_rest-IsHost v h (some t) l = elim (Bool-cases (any_char (λ c. c == b':') t || is_blank h)) [
  | inl y ↦ rw y refused
  | inr n ↦ rw n (with_port-IsHost v h t (l t refl))
]

bracketed-IsHost :
    (read_ipv6 : Text → Option Text) (v inner : Text) (o : Option Text)
    → ((t : Text) → o ≡ some t → length t ≤ length v)
    → IsHost v (bracketed read_ipv6 inner o)
bracketed-IsHost read_ipv6 v inner none l = refused
bracketed-IsHost read_ipv6 v inner (some t) l = of_address (read_ipv6 inner)
  where
    of_address : (o : Option Text) → IsHost v (or_raise o bad_host >>= λ host. bracket_rest host t)
    of_address none = refused
    of_address (some h) = bracket_rest-IsHost v h t (l t refl)

host_of-IsHost : (read_ipv6 : Text → Option Text) (v : Text) → IsHost v (host_of read_ipv6 v)
host_of-IsHost read_ipv6 [] = refused
host_of-IsHost read_ipv6 (c ∷ cs) = elim (Bool-cases (c == b'[')) [
  | inl y ↦ rw y (
      bracketed-IsHost read_ipv6 (c ∷ cs) (before_char b']' cs) (beyond_char b']' cs)
        (λ t e. let short = length-beyond_char b']' cs t e in omega (arith, short)))
  | inr n ↦ rw n (
      plain_rest-IsHost (c ∷ cs) (before_char b':' (c ∷ cs)) (beyond_char b':' (c ∷ cs))
        (λ t e. length-beyond_char b':' (c ∷ cs) t e))
]

-- Every value comes to a host with no port, a host with a port from 1 to 65535, or a refusal, unless
-- it is longer than 4300 characters: then it may also end in the error that `int` raises on too many
-- digits, which `normalise_host` does not catch. All this whatever the reader of IPv6 addresses does.
pub normalise_host-IsHost :
    (read_ipv6 : Text → Option Text) (v : Text) → IsHost v (normalise_host read_ipv6 v)
unfolding normalise_host
normalise_host-IsHost read_ipv6 v = elim (Bool-cases (any_char bad_char v)) [
  | inl y ↦ rw y refused
  | inr n ↦ rw n (host_of-IsHost read_ipv6 v)
]
