-- ===== src/Engines.antt =====
-- gowui/engine/base.py: what the clients of every protocol share, and `check_line` of
-- gowui/engine/transport.py.
use gowui.Base.{
  ℕ, suc, Bool, true, false, ◌&&◌, ◌||◌, [], ◌∷◌, ◌++◌, Option, none, some, leb, ◌==◌,
  if◌then◌else◌, length, take, Text, codes, equal, lower, strip, is_some, not, within,
}

abbrev pub log_limit : ℕ
log_limit = 4000

abbrev pub text_limit : ℕ
text_limit = 500

unfoldable pub clip : Text → ℕ → Text
clip text limit = if leb (length text) limit then text else take limit text ++ codes " ..."

-- What an `EngineError` says of the connection: only a `ConnectionClosed` is the first.
pub data Failure : Type 0 where
  connection_closed unusable : Failure

-- The bookkeeping of failures; `scheduled` counts the calls of `_report_disconnect` handed to the
-- event loop.
pub record Health : Type 0 where
  pub failure : Option Failure
  pub closing : Bool
  pub disconnect_reported : Bool
  pub scheduled : ℕ

-- `_arm`; the calls scheduled for an earlier connection are not counted.
abbrev pub armed : Health
armed = record { failure = none; closing = false; disconnect_reported = false; scheduled = 0 }

abbrev pub is_closed : Option Failure → Bool
is_closed (some connection_closed) = true
is_closed _ = false

-- `_set_failure`: a first failure stands, except that a closed connection takes the place of one
-- that was unusable.
unfoldable pub set_failure : Failure → Health → Health
set_failure f h =
    if is_some h.failure && (is_closed h.failure || not (is_closed (some f)))
    then h
    else record h { failure = some f }

-- `_lost`.
unfoldable pub lost : Health → Health
lost h =
    let g = set_failure connection_closed h in
    if is_closed h.failure || (h.closing || h.disconnect_reported)
    then g
    else record g { disconnect_reported = true; scheduled = suc g.scheduled }

-- `abort`, and the end of `_teardown`, which closes too.
unfoldable pub aborted : Health → Health
aborted h = set_failure connection_closed (record h { closing = true })

-- `color_letter` of a text.
unfoldable pub color_letter : Text → Option Text
color_letter color =
    let key = lower (strip color) in
    if equal key (codes "b") || equal key (codes "black")
    then some (codes "B")
    else if equal key (codes "w") || equal key (codes "white")
    then some (codes "W")
    else none

-- A character of `_FORBIDDEN`: CR, LF or NUL.
abbrev pub breaks_line : ℕ → Bool
breaks_line c = c == 0xd || (c == 0xa || c == 0)

-- `check_line` refuses.
unfoldable pub is_refused : Text → Bool
is_refused [] = false
is_refused (c ∷ cs) = breaks_line c || is_refused cs

-- A lone surrogate, which UTF-8 does not encode.
unfoldable pub has_surrogate : Text → Bool
has_surrogate [] = false
has_surrogate (c ∷ cs) = within 0xd800 0xdfff c || has_surrogate cs
