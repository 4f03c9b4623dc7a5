-- ===== src/Gtp.antt =====
-- gowui/engine/gtp.py: the lines of a GTP client. The engine is a parameter: it takes the line that
-- is sent and answers with the lines that arrive before the deadline of what was sent, and with
-- what ends the connection after them. The traffic log is left out, and a call is not cancelled.
-- Calls are made one at a time, so that the second stop of the analysis, under the lock, finds none.
pub mod Exchange
pub mod Sync
pub mod Streams
pub mod Outcome
pub mod Framing
pub mod Mirror
pub mod Digits
pub mod Prefixes
pub mod Rewound
pub mod Refinement
pub mod Progress
pub mod Liveness
use gowui.Base.{
  ℕ, zero, suc, ◌+◌, ◌*◌, ◌≡◌, Bool, true, false, not, ◌&&◌, ◌||◌, List, [], ◌∷◌, ◌++◌, Option,
  none, some, ltb, leb, ◌==◌, if◌then◌else◌, length, Text, codes, equal, lstrip, strip, within,
  starts_with, utf8_length, Result, ok, err, is_some, ℤ,
}
use gowui.Coords.{decimal}
use gowui.Game.{Float}
use gowui.Types.{Analysis}
use gowui.Reports.{Numbers}
use gowui.Engines.{
  Failure, connection_closed, unusable, Health, set_failure, lost, is_refused, has_surrogate,
}

abbrev pub max_reply : ℕ
max_reply = 4 * 1024 * 1024

abbrev pub max_id_digits : ℕ
max_id_digits = 18

-- What becomes of a line that is sent.
pub data Sent : Type 0 where
  taken : List Text → Option Failure → Sent
  stalled broken_off : Sent

-- The dictionary `(size, komi, rules, setup)` of the mirror is a record of its own.
pub data GtpError : Type 0 where
  rejected stream_refused : Text → GtpError
  refused_line unencodable : GtpError
  dead : Failure → GtpError
  no_command_list not_a_move no_move no_analysis unknown_color : GtpError

-- The running analysis: whose view, the board's size, and the scale.
pub record Stream : Type 0 where
  pub black : Bool
  pub size : ℕ
  pub lz : Bool

-- The key `(size, komi, rules, setup)` of the mirror.
pub record Setting : Type 0 where
  pub size : ℕ
  pub komi : Float
  pub rules : Text
  pub stones : List (Text × Text)

-- `GTPEngine`, with what its engine has become and the reports delivered, oldest first.
pub record Client (E D : Type 0) : Type 0 where
  pub engine : E
  pub queue : List Text
  pub health : Health
  pub next_id : ℕ
  pub commands : List Text
  pub has_root_info : Bool
  pub has_ownership : Bool
  pub stream : Option Stream
  pub state : Option Setting
  pub moves : List (Text × Text)
  pub name : Text
  pub version : Text
  pub delivered : List (Analysis D)

-- The engine, `float`, `f"{komi:g}"` and `==` of floats, and `int(round(interval * 100))`.
pub record World (E : Type 0) : Type 0 where
  pub peer : E → Text → E × Sent
  pub numbers : Numbers
  pub show_komi : Float → Text
  pub same_komi : Float → Float → Bool
  pub hundredths : Float → ℤ

-- A coroutine of the client, run to its end.
abbrev pub Act : Type 0 → Type 0 → Type 0 → Type 0
Act E D A = Client E D → Client E D × Result GtpError A

abbrev failure_or : Failure → Option Failure → Failure
failure_or f none = f
failure_or f (some g) = g

abbrev ended : Option Failure → Health → Health
ended none h = h
ended (some connection_closed) h = lost h
ended (some unusable) h = set_failure unusable h

-- The line of a command.
abbrev pub numbered : ℕ → Text → Text
numbered id command = decimal id ++ codes " " ++ command

module _ {E D : Type 0} where
  abbrev pub return : {A : Type 0} → A → Act E D A
  return a c = (c, ok a)

  abbrev pub raise : {A : Type 0} → GtpError → Act E D A
  raise e c = (c, err e)

  abbrev pub continue :
      {A B : Type 0}
      → (A → Act E D B)
      → Client E D × Result GtpError A
      → Client E D × Result GtpError B
  continue f (c, ok a) = f a c
  continue f (c, err e) = (c, err e)

  infixl 5 ◌>>=◌ ◌>>◌
  abbrev pub ◌>>=◌ : {A B : Type 0} → Act E D A → (A → Act E D B) → Act E D B
  (m >>= f) c = continue f (m c)

  abbrev pub ◌>>◌ : {B : Type 0} → Act E D (Unit {0}) → Act E D B → Act E D B
  m >> k = m >>= λ _. k

  -- `except EngineError`, and the code that runs after it.
  abbrev pub handle :
      {A B : Type 0}
      → (A → Act E D B)
      → (GtpError → Act E D B)
      → Client E D × Result GtpError A
      → Client E D × Result GtpError B
  handle f g (c, ok a) = f a c
  handle f g (c, err e) = g e c

  abbrev pub change : (Client E D → Client E D) → Act E D (Unit {0})
  change f c = (f c, ok tt)

  abbrev pub failed : {A : Type 0} → Option Failure → Act E D A → Act E D A
  failed none m = m
  failed (some f) m = raise (dead f)

  -- `_check`.
  abbrev pub check : Act E D (Unit {0})
  check c = failed c.health.failure (return tt) c

  -- `raise self._unusable(...)`.
  unfoldable pub raise_unusable : {A : Type 0} → Act E D A
  raise_unusable c =
      let h = set_failure unusable c.health in
      (record c { health = h }, err (dead (failure_or unusable h.failure)))

  -- What `_write` makes of the fate of the line.
  unfoldable pub on_sent : Client E D → E × Sent → Client E D × Result GtpError (Unit {0})
  on_sent c (e, taken lines ending) =
      (record c { engine = e; queue = c.queue ++ lines; health = ended ending c.health }, ok tt)
  on_sent c (e, stalled) = raise_unusable (record c { engine = e })
  on_sent c (e, broken_off) =
      let h = lost c.health in
      (record c { engine = e; health = h }, err (dead (failure_or connection_closed h.failure)))

  -- `_next_line` when nothing more arrives.
  abbrev pub starve : {A : Type 0} → Act E D A
  starve = check >> raise_unusable

module _ {E D : Type 0} (w : World E) where
  abbrev pub write_open : Text → Act E D (Unit {0})
  write_open line c =
      if is_refused line
      then (c, err refused_line)
      else if has_surrogate line
      then (c, err unencodable)
      else on_sent c (w.peer c.engine line)

  -- `_write`, with `write_line`.
  unfoldable pub write : Text → Act E D (Unit {0})
  write line = check >> write_open line

  abbrev pub send_open : Text → Act E D ℕ
  send_open command c =
      (write (numbered c.next_id command) >> return c.next_id)
        (record c { next_id = suc c.next_id })

  -- `_send`.
  unfoldable pub send : Text → Act E D ℕ
  send command c =
      if is_refused command then (c, err refused_line) else (check >> send_open command) c
