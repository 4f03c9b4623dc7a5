-- ===== src/Guard/Passage.antt =====
-- What a request that passes the guard has shown.
use gowui.Base.{ℕ, ◌≡◌, Bool, [], ◌∷◌, Option, none, Text, Result, ok}
use gowui.Guard.{
  HostError, Scope, Policies, values_of, host_name, origin_name, forwarded_name, Host,
}
use gowui.Guard.{normalise_host, request_is_https}
use gowui.Guard.Rules.{IsOrigin, IsAllowed, MayChange, IsPublic, IsSingle}
use gowui.Guard.Reached.{IsReached, IsReachedPort}

abbrev answered : Bool → Result HostError Bool
answered b = ok b

module _ (read_ipv6 : Text → Option Text) (is_ip_literal : Text → Bool) {I : Type 0}
    (p : Policies I) where
  -- What passing shows.
  pub record IsPassed (s : Scope) (identity : Option I) : Type 0 where
    pub own_text : Text
    pub one_host : values_of host_name s.headers ≡ own_text ∷ []
    pub one_origin : IsSingle (values_of origin_name s.headers)
    pub one_forwarded : IsSingle (values_of forwarded_name s.headers)
    pub own : Host
    pub reads : normalise_host read_ipv6 own_text ≡ ok own
    pub host : Host
    pub reached : IsReached read_ipv6 is_ip_literal p s own host
    pub allowed : IsAllowed p is_ip_literal (host.0)
    pub port : ℕ
    pub reached_port : IsReachedPort (request_is_https read_ipv6 is_ip_literal p s) (host.1) port
    pub same_origin :
        MayChange s
        → (o : Text) → values_of origin_name s.headers ≡ o ∷ []
        → IsOrigin read_ipv6 (host.0) port o
    pub identified : identity ≡ p.identify s
    pub public_or_known : identity ≡ none → IsPublic s
