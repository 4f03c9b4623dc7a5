-- ===== src/Guard/Reached.antt =====
-- Which host and port a request reached.
use gowui.Base.{
  ℕ, ◌≡◌, refl, sym, ap, ◌∙◌, subst, Bool, true, false, ◌&&◌, List, [], ◌∷◌, Option, none, some,
  if◌then◌else◌, Bool-cases, inl, inr, Text, codes, equal, Result, ok, err, ok-injective, or_raise,
  bind-eq-ok,
}
use gowui.Guard.{
  HostError, Refusal, forbidden, Host, Scope, Policies, values_of, first_of, host_name,
  forwarded_name, at_most_one, normalise_host, as_refusal, trusted_peer, forwarded_or, by_proxy,
  effective_host, request_is_https, secure_scheme, own_scheme, is_secure, effective_port,
}

-- The port that was reached: the one that is named, or the scheme's.
pub data IsReachedPort (https : Bool) : Option ℕ → ℕ → Type 0 where
  named : (n : ℕ) → IsReachedPort https (some n) n
  tls : https ≡ true → IsReachedPort https none 443
  plain : https ≡ false → IsReachedPort https none 80

module _ (read_ipv6 : Text → Option Text) (is_ip_literal : Text → Bool) {I : Type 0}
    (p : Policies I) (s : Scope) where
  -- The host that was reached: the request's own, or the one that a trusted proxy forwards.
  pub data IsReached (own host : Host) : Type 0 where
    no_proxy :
        ((c : Text) → s.client ≡ some c → p.trusted c ≡ false) → host ≡ own → IsReached own host
    not_forwarded : values_of forwarded_name s.headers ≡ [] → host ≡ own → IsReached own host
    forwarded :
        (c v : Text)
        → s.client ≡ some c
        → p.trusted c ≡ true
        → values_of forwarded_name s.headers ≡ v ∷ []
        → normalise_host read_ipv6 v ≡ ok host
        → IsReached own host

  trusted-client :
      (o : Option Text)
      → (elim o [ none ↦ false | some c ↦ p.trusted c ]) ≡ true
      → (c : Text) × (o ≡ some c) × (p.trusted c ≡ true)
  trusted-client none h = absurd (cc)
  trusted-client (some c) h = (c, refl, h)

  untrusted-client :
      (o : Option Text)
      → (elim o [ none ↦ false | some c ↦ p.trusted c ]) ≡ false
      → (c : Text) → o ≡ some c
      → p.trusted c ≡ false
  untrusted-client none h c e = absurd (cc)
  untrusted-client (some d) h c e =
      let same : d ≡ c = cc in subst (λ (x : Text). p.trusted x ≡ false) same h

  pub first-single :
      (vs : List Text) (v : Text) → at_most_one vs ≡ true → first_of vs ≡ some v → vs ≡ v ∷ []
  first-single [] v h e = absurd (cc)
  first-single (w ∷ []) v h e = let same : w ≡ v = cc in ap (λ (x : Text). x ∷ []) same
  first-single (w ∷ x ∷ ws) v h e = absurd (cc)

  first-absent : (vs : List Text) → first_of vs ≡ none → vs ≡ []
  first-absent [] e = refl
  first-absent (w ∷ ws) e = absurd (cc)

  host-as_refusal :
      (x : Result HostError Host) (h : Host)
      → ◌≡◌ {A = Result Refusal Host} (as_refusal x) (ok h)
      → ◌≡◌ {A = Result HostError Host} x (ok h)
  host-as_refusal (ok b) h e = ap ok (ok-injective e)
  host-as_refusal (err HostError.bad_host) h e = absurd (cc)
  host-as_refusal (err HostError.too_many_digits) h e = absurd (cc)

  forwarded_or-IsReached :
      (own host : Host) (c : Text) (o : Option Text)
      → s.client ≡ some c
      → p.trusted c ≡ true
      → at_most_one (values_of forwarded_name s.headers) ≡ true
      → first_of (values_of forwarded_name s.headers) ≡ o
      → forwarded_or read_ipv6 is_ip_literal p own o ≡ ok host
      → IsReached own host
  forwarded_or-IsReached own host c none e t one f h =
      not_forwarded (first-absent (values_of forwarded_name s.headers) f) (sym (ok-injective h))
  forwarded_or-IsReached own host c (some v) e t one f h =
      forwarded c v e t (first-single (values_of forwarded_name s.headers) v one f)
        (host-as_refusal (normalise_host read_ipv6 v) host h)

  by_proxy-IsReached :
      (own host : Host)
      → at_most_one (values_of forwarded_name s.headers) ≡ true
      → by_proxy read_ipv6 is_ip_literal p s own ≡ ok host
      → IsReached own host
  by_proxy-IsReached own host one h = elim (Bool-cases (trusted_peer read_ipv6 is_ip_literal p s)) [
    | inl y ↦
        let (c, e, t) = trusted-client s.client y in
        forwarded_or-IsReached own host c (first_of (values_of forwarded_name s.headers)) e t one
          refl (rw y at h)
    | inr n ↦ no_proxy (untrusted-client s.client n) (sym (ok-injective (rw n at h)))
  ]

  -- The own host of the request, and the one that was reached.
  pub effective_host-IsReached :
      (host : Host)
      → at_most_one (values_of host_name s.headers) ≡ true
      → at_most_one (values_of forwarded_name s.headers) ≡ true
      → effective_host read_ipv6 is_ip_literal p s ≡ ok host
      → (v : Text) × (own : Host) × (values_of host_name s.headers ≡ v ∷ [])
        × (normalise_host read_ipv6 v ≡ ok own)
        × IsReached own host
  unfolding effective_host
  effective_host-IsReached host one one_forwarded h =
      let (v, e, h1) =
        bind-eq-ok (or_raise (first_of (values_of host_name s.headers)) forbidden) _ h in
      let (own, e1, h2) = bind-eq-ok (as_refusal (normalise_host read_ipv6 v)) _ h1 in
      (
        v,
        own,
        first-single (values_of host_name s.headers) v one
            (found (first_of (values_of host_name s.headers)) v e),
        host-as_refusal (normalise_host read_ipv6 v) own e1,
        by_proxy-IsReached own host one_forwarded h2,
      )
    where
      found : (o : Option Text) (v : Text) → or_raise o forbidden ≡ ok v → o ≡ some v
      found none v e = absurd (cc)
      found (some w) v e = ap some (ok-injective e)

  own-secure :
      (o : Option Text) → is_secure (elim o [ none ↦ codes "http" | some t ↦ t ]) ≡ secure_scheme o
  unfolding equal
  own-secure none = refl
  own-secure (some t) = refl

  insecure : request_is_https read_ipv6 is_ip_literal p s ≡ false → secure_scheme s.scheme ≡ false
  unfolding request_is_https
  insecure h = elim (Bool-cases (secure_scheme s.scheme)) [
    | inl y ↦ absurd (let h1 = rw y at h in cc)
    | inr n ↦ n
  ]

  direct :
      trusted_peer read_ipv6 is_ip_literal p s ≡ false
      → request_is_https read_ipv6 is_ip_literal p s ≡ secure_scheme s.scheme
  unfolding request_is_https
  direct t = elim (Bool-cases (secure_scheme s.scheme)) [
    | inl y ↦ rw y refl
    | inr n ↦ rw (n, t) refl
  ]

  abbrev scheme : Text
  scheme =
      if trusted_peer read_ipv6 is_ip_literal p s && request_is_https read_ipv6 is_ip_literal p s
      then codes "https"
      else own_scheme s

  scheme-secure : is_secure scheme ≡ request_is_https read_ipv6 is_ip_literal p s
  unfolding equal
  scheme-secure = elim (Bool-cases (trusted_peer read_ipv6 is_ip_literal p s)) [
    | inr t ↦ rw t (own-secure s.scheme ∙ sym (direct t))
    | inl t ↦ elim (Bool-cases (request_is_https read_ipv6 is_ip_literal p s)) [
      | inl y ↦ rw (t, y) refl
      | inr n ↦ rw (t, n) (own-secure s.scheme ∙ insecure n)
    ]
  ]

  pub effective_port-IsReachedPort :
      (o : Option ℕ)
      → IsReachedPort
          (request_is_https read_ipv6 is_ip_literal p s)
          o
          (effective_port read_ipv6 is_ip_literal p s o)
  unfolding effective_port
  effective_port-IsReachedPort (some n) = named n
  effective_port-IsReachedPort none =
      let https = request_is_https read_ipv6 is_ip_literal p s in
      subst (λ (n : ℕ). IsReachedPort https none n)
        (ap (λ (b : Bool). if b then 443 else 80) (sym scheme-secure)) (of_default https refl)
    where
      of_default :
          (b : Bool)
          → request_is_https read_ipv6 is_ip_literal p s ≡ b
          → IsReachedPort
              (request_is_https read_ipv6 is_ip_literal p s)
              none
              (if b then 443 else 80)
      of_default true e = tls e
      of_default false e = plain e
