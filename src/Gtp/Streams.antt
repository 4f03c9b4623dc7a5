-- ===== src/Gtp/Streams.antt =====
-- gowui/engine/gtp.py: the analysis, and the move that is streamed.
use gowui.Base.{
  ℕ, Bool, true, false, not, ◌&&◌, ◌||◌, List, [], ◌∷◌, ◌++◌, Option, none, some, if◌then◌else◌,
  Text, codes, equal, strip, starts_with, Result, ok, err, max, pos_part,
}
use gowui.Coords.{decimal}
use gowui.Game.{Float}
use gowui.Types.{Position, to_play}
use gowui.Engines.{color_letter, clip, text_limit}
use gowui.Gtp.{
  Client, World, Act, GtpError, stream_refused, not_a_move, no_move, no_analysis, return, raise,
  change, starve, send, ◌>>=◌, ◌>>◌,
}
use gowui.Gtp.Exchange.{head, body, report, stop_analysis, is_blank}
use gowui.Gtp.Sync.{
  supports, sync, genmove_as, with_letter, move_answer, played, set_max_visits, drop,
}

-- What is asked for: ownership, and the root's own numbers.
abbrev pub Options : Type 0
Options = Bool × Bool

abbrev pub same_options : Options → Options → Bool
same_options (a, b) (c, d) = (if a then c else not c) && (if b then d else not d)

abbrev pub has_options : Options → List Options → Bool
has_options o [] = false
has_options o (p ∷ ps) = same_options p o || has_options o ps

-- `if attempt not in out: out.append(attempt)`, in turn.
unfoldable pub distinct_onto : List Options → List Options → List Options
distinct_onto out [] = out
distinct_onto out (o ∷ os) = distinct_onto (if has_options o out then out else out ++ o ∷ []) os

abbrev pub all_attempts : Bool → Bool → List Options
all_attempts own root = (own, root) ∷ (own, false) ∷ (false, root) ∷ (false, false) ∷ []

abbrev pub option_words : Options → Text
option_words (own, root) =
    (if own then codes " ownership true" else []) ++ (if root then codes " rootInfo true" else [])

abbrev pub or_rejected : Text → Text
or_rejected [] = codes "rejected"
or_rejected (c ∷ cs) = c ∷ cs

abbrev pub asked_first : List Options → Options
asked_first [] = (false, false)
asked_first (o ∷ os) = o

module _ {E : Type 0} (w : World E) where
  abbrev pub stream_line : Text → Text → Float → Text
  stream_line name color interval =
      name ++ codes " " ++ color ++ codes " " ++ decimal (max 1 (pos_part (w.hundredths interval)))

module _ {E D : Type 0} where
  -- `_attempts`.
  unfoldable pub attempts : Bool → Client E D → List Options
  attempts include_ownership c =
      distinct_onto [] (all_attempts (include_ownership && c.has_ownership) c.has_root_info)

  -- What the engine refused is not asked for again.
  abbrev pub learned : Options → Options → Client E D → Client E D
  learned (asked_own, asked_root) (own, root) c = record c {
    has_ownership = c.has_ownership && not (asked_own && not own);
    has_root_info = c.has_root_info && not (asked_root && not root);
  }

  -- The stream opens, or the reply says why it does not.
  unfoldable pub opened : Bool × Text → Act E D (Option Text)
  opened (true, first) = return none
  opened (false, first) =
      body first >>= λ reply. return (some (clip (or_rejected (strip reply)) text_limit))

module _ {E D : Type 0} (w : World E) where
  unfoldable pub try_options : Text → Options → Act E D (Option Text)
  try_options base o = send w (base ++ option_words o) >>= λ id. head id >>= λ r. opened r

  -- The loop of `_open_stream`.
  unfoldable pub open_with : Text → Options → Text → List Options → Act E D (Unit {0})
  open_with base asked error [] = raise (stream_refused error)
  open_with base asked error (o ∷ os) = try_options base o >>= λ refusal. elim refusal [
    | none ↦ change (learned asked o)
    | some reason ↦ open_with base asked reason os
  ]

  -- `_open_stream`.
  unfoldable pub open_stream : Text → Text → Float → Bool → Act E D (Unit {0})
  open_stream name color interval include_ownership c =
      let os =
        if equal name (codes "lz-analyze")
        then (false, false) ∷ []
        else attempts include_ownership c in
      open_with (stream_line w name color interval) (asked_first os) [] os c

  unfoldable pub start_named : Text → Position → Option ℕ → Float → Bool → Act E D (Unit {0})
  start_named name p max_visits interval include_ownership =
      set_max_visits w max_visits
      >> sync w p
      >> open_stream name (to_play p) interval include_ownership
      >> change (λ c. record c {
        stream = some (record {
          black = equal (to_play p) (codes "B");
          size = p.size;
          lz = equal name (codes "lz-analyze");
        });
      })

  -- `start_analysis`.
  unfoldable pub start_analysis : Position → Option ℕ → Float → Bool → Act E D (Unit {0})
  start_analysis p max_visits interval include_ownership = stop_analysis w >> λ c.
      if supports (codes "kata-analyze") c
      then start_named (codes "kata-analyze") p max_visits interval include_ownership c
      else if supports (codes "lz-analyze") c
      then start_named (codes "lz-analyze") p max_visits interval include_ownership c
      else (c, err no_analysis)

  -- The loop of `genmove_analyze`, on the lines that have arrived, with the move so far.
  unfoldable pub read_move : Bool → ℕ → Option Text → List Text → Act E D (Option Text)
  read_move black size vertex [] c = starve (record c { queue = [] })
  read_move black size vertex (l ∷ ls) c =
      let found = move_answer (drop 5 l) size in
      let after_move = elim found as (λ o. Client E D × Result GtpError (Option Text)) [
        | none ↦ (record c { queue = ls }, err not_a_move)
        | some v ↦ read_move black size (some v) ls c
      ] in
      let after_report = read_move black size vertex ls (report w l black size false c) in
      if is_blank l
      then (record c { queue = ls }, ok vertex)
      else if starts_with (codes "play ") l
      then after_move
      else after_report

  abbrev pub accept_streamed : Text → Option Text → Act E D Text
  accept_streamed letter none = raise no_move
  accept_streamed letter (some vertex) = change (played letter vertex) >> return vertex

  abbrev pub streamed : Position → Text → Float → Bool → Act E D Text
  streamed p letter interval include_ownership =
      stop_analysis w
      >> sync w p
      >> open_stream (codes "kata-genmove_analyze") letter interval include_ownership
      >> (λ c. read_move (equal letter (codes "B")) p.size none c.queue c)
      >>= λ vertex. accept_streamed letter vertex

  -- `genmove_analyze`; without the command it is `genmove`.
  unfoldable pub genmove_analyze : Position → Text → Float → Bool → Act E D Text
  genmove_analyze p color interval include_ownership =
      with_letter
        (λ letter c.
          if supports (codes "kata-genmove_analyze") c
          then streamed p letter interval include_ownership c
          else genmove_as w p letter c)
        (color_letter color)
