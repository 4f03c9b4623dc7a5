-- ===== src/Gtp/Exchange.antt =====
-- gowui/engine/gtp.py: one command and its reply, and the end of an analysis.
use gowui.Base.{
  ℕ, ◌+◌, ◌-◌, ◌*◌, Bool, true, false, not, ◌||◌, List, [], ◌∷◌, ◌++◌, Option, none, some, ltb,
  ◌==◌, if◌then◌else◌, length, Text, codes, lstrip, strip, within, starts_with, utf8_length, Result,
  ok, is_some,
}
use gowui.Types.{Analysis}
use gowui.Engines.{clip, text_limit, set_failure, unusable}
use gowui.Reports.{parse_analysis_line}
use gowui.Gtp.{
  Client, Stream, World, Act, GtpError, rejected, return, raise, raise_unusable, starve, handle,
  write, send, max_reply, max_id_digits, ◌>>=◌, ◌>>◌,
}

-- The reply's head: whether it is `=`, the rest of the line, and the lines after it.
pub data Head : Type 0 where
  heads : Bool → Text → List Text → Head
  wrong : List Text → Head
  starved : Head

-- `[0-9]*` and what follows it.
unfoldable pub span_digits : Text → Text × Text
span_digits [] = ([], [])
span_digits (c ∷ cs) =
    let (ds, rest) = span_digits cs in if within b'0' b'9' c then (c ∷ ds, rest) else ([], c ∷ cs)

-- `int(digits)`.
unfoldable pub number_from : ℕ → Text → ℕ
number_from n [] = n
number_from n (c ∷ cs) = number_from (n * 10 + (c - b'0')) cs

-- The digits name another command.
unfoldable pub is_mismatch : ℕ → Text → Bool
is_mismatch id [] = false
is_mismatch id (c ∷ cs) = ltb max_id_digits (length (c ∷ cs)) || not (number_from 0 (c ∷ cs) == id)

abbrev pub is_answer : Text → Bool
is_answer [] = false
is_answer (c ∷ cs) = c == b'=' || c == b'?'

unfoldable pub head_of : ℕ → Text → List Text → Head
head_of id [] ls = wrong ls
head_of id (c ∷ cs) ls =
    let (digits, rest) = span_digits cs in
    if is_mismatch id digits then wrong ls else heads (c == b'=') (strip rest) ls

-- The loop of `_head`, on the lines that have arrived.
unfoldable pub read_head : ℕ → List Text → Head
read_head id [] = starved
read_head id (l ∷ ls) =
    let rest = read_head id ls in
    if starts_with (codes "{") (lstrip l)
    then wrong ls
    else if is_answer l
    then head_of id l ls
    else rest

-- The reply's other lines and what follows its blank line.
pub data Body : Type 0 where
  whole : List Text → List Text → Body
  too_large : List Text → Body
  cut_off : Body

abbrev pub with_line : Text → Body → Body
with_line l (whole ps ls) = whole (l ∷ ps) ls
with_line l (too_large ls) = too_large ls
with_line l cut_off = cut_off

abbrev pub is_blank : Text → Bool
is_blank [] = true
is_blank (c ∷ cs) = false

-- The loop of `_body`, from a total of bytes.
unfoldable pub read_body : ℕ → List Text → Body
read_body total [] = cut_off
read_body total (l ∷ ls) =
    let rest = read_body (total + utf8_length l + 1) ls in
    if is_blank l
    then whole [] ls
    else if ltb max_reply (total + utf8_length l + 1)
    then too_large ls
    else with_line l rest

-- `"\n".join`.
unfoldable pub join_lines : List Text → Text
join_lines [] = []
join_lines (l ∷ []) = l
join_lines (l ∷ m ∷ ls) = l ++ 0xa ∷ join_lines (m ∷ ls)

abbrev pub first_onto : Text → List Text → List Text
first_onto [] ls = ls
first_onto (c ∷ cs) ls = (c ∷ cs) ∷ ls

module _ {E D : Type 0} where
  abbrev pub on_head : Client E D → Head → Client E D × Result GtpError (Bool × Text)
  on_head c (heads good first ls) = (record c { queue = ls }, ok (good, first))
  on_head c (wrong ls) = raise_unusable (record c { queue = ls })
  on_head c starved = starve (record c { queue = [] })

  -- `_head`.
  unfoldable pub head : ℕ → Act E D (Bool × Text)
  head id c = on_head c (read_head id c.queue)

  abbrev pub on_body : Text → Client E D → Body → Client E D × Result GtpError Text
  on_body first c (whole ps ls) = (record c { queue = ls }, ok (join_lines (first_onto first ps)))
  on_body first c (too_large ls) = raise_unusable (record c { queue = ls })
  on_body first c cut_off = starve (record c { queue = [] })

  -- `_body`.
  unfoldable pub body : Text → Act E D Text
  body first c = on_body first c (read_body (utf8_length first + 1) c.queue)

  -- A refusal without a text stands for the client's own words.
  abbrev pub answered : Bool → Text → Act E D Text
  answered true payload = return payload
  answered false payload = raise (rejected (clip payload text_limit))

  abbrev pub delivered_after : Option (Analysis D) → Client E D → Client E D
  delivered_after none c = c
  delivered_after (some a) c = record c { delivered = c.delivered ++ a ∷ [] }

module _ {E D : Type 0} (w : World E) where
  -- `_exchange`.
  unfoldable pub exchange : Text → Act E D Text
  exchange command = send w command >>= λ id.
      head id >>= λ r. body (r.1) >>= λ payload. answered (r.0) (strip payload)

  -- `_report`: a report that cannot be read is skipped.
  unfoldable pub report : Text → Bool → ℕ → Bool → Client E D → Client E D
  report text black size lz c = delivered_after (parse_analysis_line w.numbers text black size lz) c

  -- `_read_stream`, on the lines that have arrived: whether the blank line was among them.
  unfoldable pub read_stream : Stream → List Text → Client E D → Bool × Client E D
  read_stream s [] c = (false, record c { queue = [] })
  read_stream s (l ∷ ls) c =
      let rest = read_stream s ls (report l s.black s.size s.lz c) in
      if is_blank l then (true, record c { queue = ls }) else rest

  abbrev pub drain : Stream → Client E D → Bool × Client E D
  drain s c = read_stream s c.queue c

  -- The stream's task ended, by the blank line or with the connection, or the wait for it did.
  abbrev pub awaited : Bool × Client E D → Client E D × Result GtpError (Unit {0})
  awaited (true, c) = (c, ok tt)
  awaited (false, c) = (record c { health = set_failure unusable c.health }, ok tt)

  abbrev pub interrupt : Stream → Act E D (Unit {0})
  interrupt s c = handle (λ u d. awaited (drain s d)) (λ e. return tt) (write w [] c)

  abbrev pub unless_done : Stream → Bool × Client E D → Client E D × Result GtpError (Unit {0})
  unless_done s (done, c) = (if done || is_some c.health.failure then return tt else interrupt s) c

  abbrev pub stop_stream : Option Stream → Act E D (Unit {0})
  stop_stream none c = return tt c
  stop_stream (some s) c = unless_done s (drain s (record c { stream = none }))

  -- `stop_analysis`.
  unfoldable pub stop_analysis : Act E D (Unit {0})
  stop_analysis c = stop_stream c.stream c

  -- `_command`.
  unfoldable pub command : Text → Act E D Text
  command line = stop_analysis >> exchange line

  abbrev pub none_if_rejected :
      Client E D × Result GtpError Text → Client E D × Result GtpError (Option Text)
  none_if_rejected = handle (λ t. return (some t)) not_rejected
    where
      not_rejected : GtpError → Act E D (Option Text)
      not_rejected (rejected t) = return none
      not_rejected e = raise e

  -- `_optional`.
  unfoldable pub optional : Text → Act E D (Option Text)
  optional line c = none_if_rejected (command line c)
