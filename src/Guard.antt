-- ===== src/Guard.antt =====
-- gowui/guard.py: the rules that a request or handshake passes before the routes see it. The parsers
-- of IP addresses and the identity policy are parameters; header values are texts of their bytes.
pub mod Hosts
pub mod Rules
pub mod Reached
pub mod Passage
use gowui.Base.{
  ℕ, zero, suc, ◌+◌, ◌-◌, ◌*◌, Bool, true, false, not, ◌&&◌, ◌||◌, List, [], ◌∷◌, ◌++◌, Option,
  none, some, ltb, leb, ◌==◌, if◌then◌else◌, length, Text, codes, equal, within, is_space, strip,
  lower, Result, ok, err, raise_if, or_raise, ◌>>=◌, ◌>>◌, is_some,
}

-- A refusal of a host value, or the `ValueError` of `int` on too many digits.
pub data HostError : Type 0 where
  bad_host too_many_digits : HostError

-- How `_check` ends: 403, 401, or the failure that the guard answers with 500.
pub data Refusal : Type 0 where
  forbidden unauthenticated failed : Refusal

-- `_bad_char`: the category Cc is U+0000-001F and U+007F-009F.
abbrev pub bad_char : ℕ → Bool
bad_char c =
    c == b'@' || c == b'/' || c == b'\\' || is_space c || within 0x0 0x1f c || within 0x7f 0x9f c

unfoldable pub any_char : (ℕ → Bool) → Text → Bool
any_char p [] = false
any_char p (c ∷ cs) = p c || any_char p cs

abbrev pub is_digit : ℕ → Bool
is_digit c = within b'0' b'9' c

unfoldable pub to_number : ℕ → Text → ℕ
to_number n [] = n
to_number n (c ∷ cs) = to_number (n * 10 + (c - b'0')) cs

-- The digits that `int` reads at most.
abbrev pub max_digits : ℕ
max_digits = 4300

abbrev pub is_blank : Text → Bool
is_blank [] = true
is_blank (c ∷ cs) = false

-- `_port`.
unfoldable pub port : Text → Result HostError ℕ
port text =
    if is_blank text || any_char (λ c. not (is_digit c)) text
    then err bad_host
    else if ltb max_digits (length text)
    then err too_many_digits
    else let value = to_number 0 text in
      if leb 1 value && leb value 65535 then ok value else err bad_host

-- `text.partition(c)` of one character: the text before it, and the text after it if it occurs.
unfoldable pub before_char : ℕ → Text → Text
before_char c [] = []
before_char c (x ∷ xs) = if x == c then [] else x ∷ before_char c xs

unfoldable pub beyond_char : ℕ → Text → Option Text
beyond_char c [] = none
beyond_char c (x ∷ xs) = if x == c then some xs else beyond_char c xs

abbrev pub Host : Type 0
Host = Text × Option ℕ

abbrev pub with_port : Text → Text → Result HostError Host
with_port host text = do value ← port text; ok (lower host, some value)

abbrev pub bracket_rest : Text → Text → Result HostError Host
bracket_rest host [] = ok (lower host, none)
bracket_rest host (c ∷ cs) = if c == b':' then with_port host cs else err bad_host

abbrev pub plain_rest : Text → Option Text → Result HostError Host
plain_rest host none = if is_blank host then err bad_host else ok (lower host, none)
plain_rest host (some text) =
    if any_char (λ c. c == b':') text || is_blank host then err bad_host else with_port host text

module _ (read_ipv6 : Text → Option Text) where
  abbrev pub bracketed : Text → Option Text → Result HostError Host
  bracketed inner none = err bad_host
  bracketed inner (some rest) = do
    host ← or_raise (read_ipv6 inner) bad_host
    bracket_rest host rest

  abbrev pub host_of : Text → Result HostError Host
  host_of [] = err bad_host
  host_of (c ∷ cs) =
      if c == b'['
      then bracketed (before_char b']' cs) (beyond_char b']' cs)
      else plain_rest (before_char b':' (c ∷ cs)) (beyond_char b':' (c ∷ cs))

  unfoldable pub normalise_host : Text → Result HostError Host
  normalise_host value = if any_char bad_char value then err bad_host else host_of value

-- `bytes.lower`, of ASCII.
unfoldable pub lower_bytes : Text → Text
lower_bytes [] = []
lower_bytes (c ∷ cs) = (if within b'A' b'Z' c then c + 32 else c) ∷ lower_bytes cs

pub record Scope : Type 0 where
  pub websocket : Bool
  pub scheme : Option Text
  pub method : Option Text
  pub path : Text
  pub raw_path : Option Text
  pub client : Option Text
  pub headers : List (Text × Text)

-- The values of a header, in order.
unfoldable pub values_of : Text → List (Text × Text) → List Text
values_of name [] = []
values_of name (h ∷ hs) =
    if equal (lower_bytes (h.0)) name then h.1 ∷ values_of name hs else values_of name hs

abbrev pub first_of : List Text → Option Text
first_of [] = none
first_of (v ∷ vs) = some v

-- `text.split(c)` of one character.
abbrev pub split_with : Bool → ℕ → List Text → List Text
split_with true c ts = [] ∷ ts
split_with false c [] = (c ∷ []) ∷ []
split_with false c (t ∷ ts) = (c ∷ t) ∷ ts

unfoldable pub split : ℕ → Text → List Text
split c [] = [] ∷ []
split c (x ∷ xs) = split_with (x == c) x (split c xs)

unfoldable pub last_of : List Text → Text
last_of [] = []
last_of (t ∷ []) = t
last_of (t ∷ u ∷ ts) = last_of (u ∷ ts)

-- `",".join(values)`.
unfoldable pub join_commas : List Text → Text
join_commas [] = []
join_commas (t ∷ []) = t
join_commas (t ∷ u ∷ ts) = t ++ b',' ∷ join_commas (u ∷ ts)

unfoldable pub forwarded_last : Text → Scope → Option Text
forwarded_last name s = elim (values_of name s.headers) as (λ v. Option Text) [
  | [] ↦ none
  | v ∷ vs ↦ some (strip (last_of (split b',' (join_commas (values_of name s.headers)))))
]

abbrev pub is_secure : Text → Bool
is_secure scheme = equal scheme (codes "https") || equal scheme (codes "wss")

abbrev pub secure_scheme : Option Text → Bool
secure_scheme none = false
secure_scheme (some t) = is_secure t

-- `sub in text`, for bytes and for `str`.
unfoldable pub is_prefix : Text → Text → Bool
is_prefix [] t = true
is_prefix (p ∷ ps) [] = false
is_prefix (p ∷ ps) (c ∷ cs) = p == c && is_prefix ps cs

unfoldable pub has_text : Text → Text → Bool
has_text sub [] = is_prefix sub []
has_text sub (c ∷ cs) = is_prefix sub (c ∷ cs) || has_text sub cs

unfoldable pub any_text : (Text → Bool) → List Text → Bool
any_text p [] = false
any_text p (t ∷ ts) = p t || any_text p ts

-- The raw path, or the path when it is missing or empty; its UTF-8 bytes spell `%2f` where it does.
abbrev pub raw_of : Scope → Text
raw_of s = elim s.raw_path as (λ r. Text) [
  | none ↦ s.path
  | some r ↦ elim r as (λ r. Text) [ [] ↦ s.path | c ∷ cs ↦ c ∷ cs ]
]

unfoldable pub is_public : Scope → Bool
is_public s =
    if equal s.path (codes "/healthz")
      || equal s.path (codes "/login")
      || equal s.path (codes "/logout")
    then true
    else if not (is_prefix (codes "/css/") s.path)
    then false
    else if has_text (codes "%2f") (lower_bytes (raw_of s))
    then false
    else not (any_text (λ t. equal t (codes "..")) (split b'/' s.path))

-- `text.partition("://")`.
unfoldable pub before_scheme : Text → Text
before_scheme [] = []
before_scheme (c ∷ cs) = if is_prefix (codes "://") (c ∷ cs) then [] else c ∷ before_scheme cs

abbrev pub drop_three : Text → Text
drop_three (a ∷ b ∷ c ∷ cs) = cs
drop_three _ = []

unfoldable pub after_scheme : Text → Option Text
after_scheme [] = none
after_scheme (c ∷ cs) =
    if is_prefix (codes "://") (c ∷ cs) then some (drop_three (c ∷ cs)) else after_scheme cs

abbrev pub default_port : Text → ℕ
default_port scheme = if is_secure scheme then 443 else 80

abbrev pub port_or : ℕ → Option ℕ → ℕ
port_or d none = d
port_or d (some p) = p

abbrev pub same_host : Text → ℕ → ℕ → Host → Bool
same_host host wanted d h = equal (h.0) host && port_or d (h.1) == wanted

abbrev pub as_refusal {ℓ} : {A : Type ℓ} → Result HostError A → Result Refusal A
as_refusal (ok a) = ok a
as_refusal (err bad_host) = err forbidden
as_refusal (err too_many_digits) = err failed

abbrev pub is_web : Text → Bool
is_web scheme = equal scheme (codes "http") || equal scheme (codes "https")

abbrev pub at_most_one : List Text → Bool
at_most_one [] = true
at_most_one (v ∷ []) = true
at_most_one (v ∷ w ∷ vs) = false

abbrev pub host_name : Text
host_name = codes "host"

abbrev pub origin_name : Text
origin_name = codes "origin"

abbrev pub forwarded_name : Text
forwarded_name = codes "x-forwarded-host"

-- What the policy bundle says: the hosts that are allowed (`none` allows any), whether an IP literal
-- passes, whether an address is a trusted proxy, and who a request belongs to.
pub record Policies (I : Type 0) : Type 0 where
  pub allowed_hosts : Option (List Text)
  pub allow_ip_literals : Bool
  pub trusted : Text → Bool
  pub identify : Scope → Option I

abbrev pub is_safe : Option Text → Bool
is_safe none = false
is_safe (some m) = equal m (codes "GET") || equal m (codes "HEAD")

abbrev pub own_scheme : Scope → Text
own_scheme s = elim s.scheme [ none ↦ codes "http" | some t ↦ t ]

module _ (read_ipv6 : Text → Option Text) (is_ip_literal : Text → Bool) {I : Type 0}
    (p : Policies I) where
  abbrev pub origin_host : Text → Text → ℕ → Result HostError Host → Result HostError Bool
  origin_host scheme host wanted (ok h) = ok (same_host host wanted (default_port scheme) h)
  origin_host scheme host wanted (err bad_host) = ok false
  origin_host scheme host wanted (err too_many_digits) = err too_many_digits

  -- `_origin_matches`; the `or` gives the port 0, which cannot be read, no part.
  abbrev pub origin_rest : Text → Text → ℕ → Option Text → Result HostError Bool
  origin_rest scheme host wanted none = ok false
  origin_rest scheme host wanted (some rest) =
      if not (is_web scheme)
      then ok false
      else origin_host scheme host wanted (normalise_host read_ipv6 rest)

  unfoldable pub origin_matches : Text → Text → ℕ → Result HostError Bool
  origin_matches origin host wanted =
      origin_rest (lower (before_scheme origin)) host wanted (after_scheme origin)

  -- `trusted_peer`: the peer's address, if it is one, is in a trusted network.
  abbrev pub trusted_peer : Scope → Bool
  trusted_peer s = elim s.client [ none ↦ false | some c ↦ p.trusted c ]

  unfoldable pub request_is_https : Scope → Bool
  request_is_https s =
      if secure_scheme s.scheme
      then true
      else if not (trusted_peer s)
      then false
      else elim (forwarded_last (codes "x-forwarded-proto") s) as (λ o. Bool) [
        | none ↦ false
        | some last ↦ is_secure (lower last)
      ]

  -- The host that counts: behind a trusted proxy the one it forwards, if it forwards one.
  abbrev pub forwarded_or : Host → Option Text → Result Refusal Host
  forwarded_or h none = ok h
  forwarded_or h (some v) = as_refusal (normalise_host read_ipv6 v)

  abbrev pub by_proxy : Scope → Host → Result Refusal Host
  by_proxy s parsed =
      if trusted_peer s
      then forwarded_or parsed (first_of (values_of forwarded_name s.headers))
      else ok parsed

  unfoldable pub effective_host : Scope → Result Refusal Host
  effective_host s = do
    value ← or_raise (first_of (values_of host_name s.headers)) forbidden
    parsed ← as_refusal (normalise_host read_ipv6 value)
    by_proxy s parsed

  unfoldable pub effective_port : Scope → Option ℕ → ℕ
  effective_port s port =
      let scheme : Text =
        if trusted_peer s && request_is_https s then codes "https" else own_scheme s in
      port_or (default_port scheme) port

  abbrev pub allowed_in : Text → Option (List Text) → Bool
  allowed_in host none = true
  allowed_in host (some hosts) =
      any_text (equal host) hosts || (p.allow_ip_literals && is_ip_literal host)

  unfoldable pub host_allowed : Text → Bool
  host_allowed host = allowed_in host p.allowed_hosts

  -- The Origin rule: with no Origin the request passes.
  abbrev pub origin_value : Text → ℕ → Option Text → Result Refusal (Unit {0})
  origin_value host wanted none = ok tt
  origin_value host wanted (some o) = do
    same ← as_refusal (origin_matches o host wanted)
    raise_if (not same) forbidden

  unfoldable pub origin_rule : Scope → Text → ℕ → Result Refusal (Unit {0})
  origin_rule s host wanted =
      if s.websocket || not (is_safe s.method)
      then origin_value host wanted (first_of (values_of origin_name s.headers))
      else ok tt

  abbrev pub resolved : Scope → Option I → Result Refusal (Option I)
  resolved s none = if is_public s then ok none else err unauthenticated
  resolved s (some i) = ok (some i)

  -- `Guard._check`: the identity that the routes are handed.
  unfoldable pub check : Scope → Result Refusal (Option I)
  check s = do
    raise_if
        (not (
          at_most_one (values_of host_name s.headers)
          && (at_most_one (values_of origin_name s.headers)
              && at_most_one (values_of forwarded_name s.headers))))
        forbidden
    host ← effective_host s
    raise_if (not (host_allowed (host.0))) forbidden
    origin_rule s (host.0) (effective_port s (host.1))
    resolved s (p.identify s)
