-- ===== src/Answers.antt =====
-- gowui/guard.py: how the guard answers a request that it refuses, and the address of a client. The
-- reader of IP addresses is a parameter.
use gowui.Base.{
  ℕ, Bool, true, false, ◌||◌, [], ◌∷◌, Option, none, some, if◌then◌else◌, Text, codes, equal,
}
use gowui.Guard.{Refusal, forbidden, unauthenticated, failed, Scope, is_prefix, forwarded_last}

-- What is sent: a handshake is accepted and closed with a code, a request gets a status, a type, a
-- body and perhaps a location.
pub data Answer : Type 0 where
  closed : ℕ → Answer
  response : ℕ → Text → Text → Option Text → Answer

abbrev pub close_code : Refusal → ℕ
close_code forbidden = 4403
close_code unauthenticated = 4401
close_code failed = 1011

abbrev pub plain_text : Text
plain_text = codes "text/plain; charset=utf-8"

abbrev pub sign_in : Bool → Option Text → Answer
sign_in true url =
    response 401 (codes "application/json") (codes "{\"error\": \"sign-in required\"}") none
sign_in false (some url) = response 303 plain_text [] (some url)
sign_in false none = response 401 plain_text (codes "Sign-in required") none

abbrev pub is_api : Text → Bool
is_api path = equal path (codes "/api") || is_prefix (codes "/api/") path

-- `Guard._refuse`, with the policies' `sign_in_url`; a handshake is answered once it connects.
unfoldable pub refuse : Option Text → Scope → Refusal → Answer
refuse url s refusal =
    if s.websocket then closed (close_code refusal) else elim refusal as (λ r. Answer) [
      | forbidden ↦ response 403 plain_text (codes "Forbidden") none
      | failed ↦ response 500 plain_text (codes "Internal Server Error") none
      | unauthenticated ↦ sign_in (is_api s.path) url
    ]

module _ (read_ip : Text → Option Text) (trusted : Text → Bool) where
  -- `peer_ip` and `trusted_peer`, on the text of an address.
  unfoldable pub peer_ip : Scope → Option Text
  peer_ip s = elim s.client as (λ o. Option Text) [ none ↦ none | some c ↦ read_ip c ]

  abbrev pub in_network : Option Text → Bool
  in_network none = false
  in_network (some a) = trusted a

  abbrev pub own_address : Option Text → Option Text → Text
  own_address (some a) client = a
  own_address none (some c) = c
  own_address none none = []

  abbrev pub forwarded_ip : Option Text → Option Text
  forwarded_ip none = none
  forwarded_ip (some []) = none
  forwarded_ip (some (c ∷ cs)) = read_ip (c ∷ cs)

  abbrev pub address_or : Text → Option Text → Text
  address_or own none = own
  address_or own (some a) = a

  unfoldable pub client_address : Scope → Text
  client_address s =
      let own : Text = own_address (peer_ip s) s.client in
      if in_network (peer_ip s)
      then address_or own (forwarded_ip (forwarded_last (codes "x-forwarded-for") s))
      else own
