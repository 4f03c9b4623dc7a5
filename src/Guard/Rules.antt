-- ===== src/Guard/Rules.antt =====
-- What the guard's rules ask of a host, an Origin, a method and a path, said without its tests.
use gowui.Base.{
  ℕ, ◌≡◌, ◌≢◌, refl, sym, ap, ◌∙◌, subst, Bool, true, false, not, ◌&&◌, ◌||◌, List, [], ◌∷◌, ◌++◌,
  Option, none, some, ◌==◌, if◌then◌else◌, Bool-cases, inl, inr, ◌⊎◌, arith, Text, codes, equal,
  equal_iff, lower, Result, ok, err, ok-injective, All,
}
use gowui.Guard.{
  HostError, bad_host, too_many_digits, Host, Scope, Policies, normalise_host, is_prefix, has_text,
  any_text, raw_of, is_public, split, lower_bytes, before_scheme, after_scheme, drop_three,
  default_port, port_or, is_web, is_safe, at_most_one, origin_host, origin_rest, origin_matches,
  allowed_in, host_allowed,
}

-- The port that counts, where a scheme's default is 443 for TLS and 80 otherwise.
pub data IsPort : Text → Option ℕ → ℕ → Type 0 where
  given : (t : Text) (n : ℕ) → IsPort t (some n) n
  tls : IsPort (codes "https") none 443
  plain : IsPort (codes "http") none 80

-- An Origin: `http` or `https`, whatever its case, of the host and the port that were reached.
pub data IsOrigin (read_ipv6 : Text → Option Text) (host : Text) (wanted : ℕ) (o : Text)
    : Type 0 where
  same_origin :
      (scheme rest name : Text) (port : Option ℕ)
      → o ≡ scheme ++ (codes "://" ++ rest)
      → normalise_host read_ipv6 rest ≡ ok (name, port)
      → name ≡ host
      → IsPort (lower scheme) port wanted
      → IsOrigin read_ipv6 host wanted o

-- A host that the policies allow.
pub data IsAllowed {I : Type 0} (p : Policies I) (is_ip_literal : Text → Bool) (host : Text)
    : Type 0 where
  any_host : p.allowed_hosts ≡ none → IsAllowed p is_ip_literal host
  listed :
      (before behind : List Text)
      → p.allowed_hosts ≡ some (before ++ host ∷ behind)
      → IsAllowed p is_ip_literal host
  literal : p.allow_ip_literals ≡ true → is_ip_literal host ≡ true → IsAllowed p is_ip_literal host

-- A handshake, or a request with a method other than GET and HEAD.
pub data MayChange (s : Scope) : Type 0 where
  handshake : s.websocket ≡ true → MayChange s
  method : s.method ≢ some (codes "GET") → s.method ≢ some (codes "HEAD") → MayChange s

-- A path that needs no identity: the three pages, and the style sheets, without a parent segment or
-- an encoded slash.
pub data IsPublic (s : Scope) : Type 0 where
  health : s.path ≡ codes "/healthz" → IsPublic s
  login : s.path ≡ codes "/login" → IsPublic s
  logout : s.path ≡ codes "/logout" → IsPublic s
  style :
      (rest : Text)
      → s.path ≡ codes "/css/" ++ rest
      → has_text (codes "%2f") (lower_bytes (raw_of s)) ≡ false
      → All (λ (t : Text). t ≢ codes "..") (split b'/' s.path)
      → IsPublic s

-- At most one value of a header.
pub data IsSingle : List Text → Type 0 where
  absent : IsSingle []
  single : (v : Text) → IsSingle (v ∷ [])

pub at_most_one-IsSingle : (vs : List Text) → at_most_one vs ≡ true → IsSingle vs
at_most_one-IsSingle [] h = absent
at_most_one-IsSingle (v ∷ []) h = single v
at_most_one-IsSingle (v ∷ w ∷ vs) h = absurd (cc)

text_same : (a b : Text) → equal a b ≡ true → a ≡ b
text_same a b h = (equal_iff a b).0 h

and_true : (a b : Bool) → (a && b) ≡ true → (a ≡ true) × (b ≡ true)
and_true a b h = (ground (arith, h), ground (arith, h))

equal-of-== : (a b : ℕ) → (a == b) ≡ true → a ≡ b
equal-of-== a b h = ground arith

is_prefix-split : (p t : Text) → is_prefix p t ≡ true → (rest : Text) × (t ≡ p ++ rest)
unfolding is_prefix
is_prefix-split [] t h = (t, refl)
is_prefix-split (p ∷ ps) [] h = absurd (cc)
is_prefix-split (p ∷ ps) (c ∷ cs) h =
    let (x, y) = and_true (p == c) (is_prefix ps cs) h in
    let (rest, e) = is_prefix-split ps cs y in
    let same : p ≡ c = equal-of-== p c x in (rest, rw same (ap (◌∷◌ c) e))

-- What stands before `://` and behind it.
after_scheme-split :
    (o rest : Text) → after_scheme o ≡ some rest → o ≡ before_scheme o ++ (codes "://" ++ rest)
unfolding after_scheme before_scheme
after_scheme-split [] rest h = absurd (cc)
after_scheme-split (c ∷ cs) rest h = elim (Bool-cases (is_prefix (codes "://") (c ∷ cs))) [
  | inl y ↦
      let (r, e) = is_prefix-split (codes "://") (c ∷ cs) y in
      let h1 = rw y at h in
      let short : drop_three (c ∷ cs) ≡ r = ap drop_three e in
      let same : r ≡ rest = cc in rw y (e ∙ ap (λ (x : Text). codes "://" ++ x) same)
  | inr n ↦ rw n (ap (◌∷◌ c) (after_scheme-split cs rest (rw n at h)))
]

default-IsPort : (t : Text) → is_web t ≡ true → IsPort t none (default_port t)
unfolding equal
default-IsPort t h = elim (Bool-cases (equal t (codes "http"))) [
  | inl y ↦
      subst (λ (x : Text). IsPort x none (default_port x)) (sym (text_same t (codes "http") y))
        plain
  | inr n ↦
      let tls_one = rw n at h in
      subst (λ (x : Text). IsPort x none (default_port x))
        (sym (text_same t (codes "https") tls_one)) tls
]

port-IsPort : (t : Text) (o : Option ℕ) → is_web t ≡ true → IsPort t o (port_or (default_port t) o)
port-IsPort t none h = default-IsPort t h
port-IsPort t (some n) h = given t n

module _ (read_ipv6 : Text → Option Text) (is_ip_literal : Text → Bool) {I : Type 0}
    (p : Policies I) (host o : Text) (wanted : ℕ) where
  host-IsOrigin :
      (rest : Text) (r : Result HostError Host)
      → o ≡ before_scheme o ++ (codes "://" ++ rest)
      → is_web (lower (before_scheme o)) ≡ true
      → normalise_host read_ipv6 rest ≡ r
      → origin_host read_ipv6 is_ip_literal p (lower (before_scheme o)) host wanted r ≡ ok true
      → IsOrigin read_ipv6 host wanted o
  host-IsOrigin rest (ok (name, port)) split web e h =
      let both = ok-injective h in
      let (same, at) =
        and_true (equal name host) (port_or (default_port (lower (before_scheme o))) port == wanted)
          both in
      same_origin (before_scheme o) rest name port split e (text_same name host same) (
        subst (λ (n : ℕ). IsPort (lower (before_scheme o)) port n)
          (equal-of-== (port_or (default_port (lower (before_scheme o))) port) wanted at)
          (port-IsPort (lower (before_scheme o)) port web))
  host-IsOrigin rest (err bad_host) split web e h = absurd (cc)
  host-IsOrigin rest (err too_many_digits) split web e h = absurd (cc)

  rest-IsOrigin :
      (r : Option Text)
      → after_scheme o ≡ r
      → origin_rest read_ipv6 is_ip_literal p (lower (before_scheme o)) host wanted r ≡ ok true
      → IsOrigin read_ipv6 host wanted o
  rest-IsOrigin none e h = absurd (cc)
  rest-IsOrigin (some rest) e h = elim (Bool-cases (is_web (lower (before_scheme o)))) [
    | inl y ↦
        host-IsOrigin rest (normalise_host read_ipv6 rest) (after_scheme-split o rest e) y refl
          (rw y at h)
    | inr n ↦ absurd (let h1 = rw n at h in cc)
  ]

  pub origin_matches-IsOrigin :
      origin_matches read_ipv6 is_ip_literal p o host wanted ≡ ok true
      → IsOrigin read_ipv6 host wanted o
  unfolding origin_matches
  origin_matches-IsOrigin h = rest-IsOrigin (after_scheme o) refl h

pub any_text-listed :
    (t : Text) (ts : List Text)
    → any_text (equal t) ts ≡ true
    → (before : List Text) × (behind : List Text) × (ts ≡ before ++ t ∷ behind)
unfolding any_text
any_text-listed t [] h = absurd (cc)
any_text-listed t (u ∷ us) h = elim (Bool-cases (equal t u)) [
  | inl y ↦ ([], us, ap (λ (x : Text). x ∷ us) (sym (text_same t u y)))
  | inr n ↦ let (a, b, e) = any_text-listed t us (rw n at h) in (u ∷ a, b, ap (◌∷◌ u) e)
]

any_text-none :
    (t : Text) (ts : List Text)
    → any_text (λ u. equal u t) ts ≡ false
    → All (λ (u : Text). u ≢ t) ts
unfolding any_text
any_text-none t [] h = tt
any_text-none t (u ∷ us) h = elim (Bool-cases (equal u t)) [
  | inl y ↦ absurd (let h1 = rw y at h in cc)
  | inr n ↦ (
    (λ e. let yes : true ≡ false = sym ((equal_iff u t).1 e) ∙ n in cc),
    any_text-none t us (rw n at h),
  )
]

or_false : (a b : Bool) → (a || b) ≡ false → (a ≡ false) × (b ≡ false)
or_false true b h = absurd (cc)
or_false false b h = (refl, h)

allowed_in-IsAllowed :
    (read_ipv6 : Text → Option Text) (is_ip_literal : Text → Bool) {I : Type 0} (p : Policies I)
    (host : Text) (o : Option (List Text))
    → p.allowed_hosts ≡ o
    → allowed_in read_ipv6 is_ip_literal p host o ≡ true
    → IsAllowed p is_ip_literal host
allowed_in-IsAllowed read_ipv6 is_ip_literal p host none e h = any_host e
allowed_in-IsAllowed read_ipv6 is_ip_literal p host (some hosts) e h =
    elim (Bool-cases (any_text (equal host) hosts)) [
      | inl y ↦
          let (before, behind, split) = any_text-listed host hosts y in
          listed before behind (e ∙ ap some split)
      | inr n ↦
          let (allow, is_one) = and_true p.allow_ip_literals (is_ip_literal host) (rw n at h) in
          literal allow is_one
    ]

pub host_allowed-IsAllowed :
    (read_ipv6 : Text → Option Text) (is_ip_literal : Text → Bool) {I : Type 0} (p : Policies I)
    (host : Text)
    → host_allowed read_ipv6 is_ip_literal p host ≡ true
    → IsAllowed p is_ip_literal host
unfolding host_allowed
host_allowed-IsAllowed read_ipv6 is_ip_literal p host h =
    allowed_in-IsAllowed read_ipv6 is_ip_literal p host p.allowed_hosts refl h

safe-method :
    (m : Option Text) → is_safe m ≡ true → (m ≡ some (codes "GET")) ⊎ (m ≡ some (codes "HEAD"))
safe-method none h = absurd (cc)
safe-method (some t) h = elim (Bool-cases (equal t (codes "GET"))) [
  | inl y ↦ inl (ap some (text_same t (codes "GET") y))
  | inr n ↦ let head = rw n at h in inr (ap some (text_same t (codes "HEAD") head))
]

not-false : (b : Bool) → not b ≡ false → b ≡ true
not-false true h = refl
not-false false h = absurd (cc)

-- A request that the Origin rule leaves out may not change anything.
pub not-MayChange : (s : Scope) → (s.websocket || not (is_safe s.method)) ≡ false → MayChange s → ⊥
not-MayChange s h (handshake e) =
    let (unset, safe) = or_false s.websocket (not (is_safe s.method)) h in
    let clash : true ≡ false = sym e ∙ unset in cc
not-MayChange s h (method get head) =
    let (unset, safe) = or_false s.websocket (not (is_safe s.method)) h in
    elim (safe-method s.method (not-false (is_safe s.method) safe)) [
      | inl e ↦ get e
      | inr e ↦ head e
    ]

not-true : (b : Bool) → not b ≡ true → b ≡ false
not-true true h = absurd (cc)
not-true false h = refl

styled :
    (s : Scope)
    → (if not (is_prefix (codes "/css/") s.path)
        then false
        else if has_text (codes "%2f") (lower_bytes (raw_of s))
        then false
        else not (any_text (λ t. equal t (codes "..")) (split b'/' s.path)))
      ≡ true
    → IsPublic s
styled s h = elim (Bool-cases (is_prefix (codes "/css/") s.path)) [
  | inr n ↦ absurd (let h1 = rw n at h in cc)
  | inl y ↦ elim (Bool-cases (has_text (codes "%2f") (lower_bytes (raw_of s)))) [
    | inl z ↦ absurd (let h1 = rw (y, z) at h in cc)
    | inr z ↦
        let (rest, e) = is_prefix-split (codes "/css/") s.path y in
        style rest e z
          (any_text-none (codes "..") (split b'/' s.path) (not-true _ (rw (y, z) at h)))
  ]
]

pub is_public-IsPublic : (s : Scope) → is_public s ≡ true → IsPublic s
unfolding is_public
is_public-IsPublic s h = elim (Bool-cases (equal s.path (codes "/healthz"))) [
  | inl y ↦ health (text_same s.path (codes "/healthz") y)
  | inr a ↦ elim (Bool-cases (equal s.path (codes "/login"))) [
    | inl y ↦ login (text_same s.path (codes "/login") y)
    | inr b ↦ elim (Bool-cases (equal s.path (codes "/logout"))) [
      | inl y ↦ logout (text_same s.path (codes "/logout") y)
      | inr c ↦ styled s (rw (a, b, c) at h)
    ]
  ]
]
