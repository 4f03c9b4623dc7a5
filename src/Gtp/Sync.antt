-- ===== src/Gtp/Sync.antt =====
-- gowui/engine/gtp.py: the mirror of the engine's board, and the moves.
use gowui.Base.{
  ℕ, zero, suc, ◌-◌, Bool, true, false, not, ◌&&◌, ◌||◌, List, [], ◌∷◌, ◌++◌, Option, none, some,
  leb, ◌==◌, if◌then◌else◌, length, Text, codes, equal, lower, strip, lines_from, one_of, Result,
  ok, err,
}
use gowui.Coords.{decimal}
use gowui.Types.{Value, Position, board_vertex}
use gowui.Engines.{color_letter, armed, aborted, is_refused}
use gowui.Gtp.{
  Client, Setting, World, Act, GtpError, rejected, refused_line, no_command_list, not_a_move,
  unknown_color, return, raise, change, handle, ◌>>=◌, ◌>>◌,
}
use gowui.Gtp.Exchange.{command, optional, stop_analysis}

abbrev pub Played : Type 0
Played = Text × Text

abbrev pub same_played : Played → Played → Bool
same_played (c, v) (d, u) = equal c d && equal v u

-- `_common_prefix`.
unfoldable pub common_prefix : List Played → List Played → ℕ
common_prefix (a ∷ as_) (b ∷ bs) =
    let rest = common_prefix as_ bs in if same_played a b then suc rest else 0
common_prefix _ _ = 0

-- `xs[n:]`.
unfoldable pub drop {ℓ} : {A : Type ℓ} → ℕ → List A → List A
drop zero xs = xs
drop (suc n) [] = []
drop (suc n) (x ∷ xs) = drop n xs

-- `xs.pop()`, of the last.
unfoldable pub drop_last {ℓ} : {A : Type ℓ} → List A → List A
drop_last [] = []
drop_last (x ∷ []) = []
drop_last (x ∷ y ∷ xs) = x ∷ drop_last (y ∷ xs)

abbrev pub same_stones : List Played → List Played → Bool
same_stones [] [] = true
same_stones (a ∷ as_) (b ∷ bs) = same_played a b && same_stones as_ bs
same_stones _ _ = false

unfoldable pub setting_of : Position → Setting
setting_of p = record { size = p.size; komi = p.komi; rules = p.rules; stones = p.initial_stones }

abbrev pub play_line : Played → Text
play_line (c, v) = codes "play " ++ c ++ codes " " ++ v

abbrev pub stripped_lines : List Text → List Text
stripped_lines [] = []
stripped_lines (l ∷ ls) =
    let rest = stripped_lines ls in elim (strip l) [ [] ↦ rest | c ∷ cs ↦ (c ∷ cs) ∷ rest ]

-- The command names that `list_commands` answers.
unfoldable pub listed_commands : Text → List Text
listed_commands t = let (line, rest) = lines_from t in stripped_lines (line ∷ rest)

abbrev pub text_or : Text → Option Text → Text
text_or d none = d
text_or d (some []) = d
text_or d (some (c ∷ cs)) = c ∷ cs

module _ {E D : Type 0} where
  -- `supports`.
  unfoldable pub supports : Text → Client E D → Bool
  supports name c = one_of name c.commands

  -- `invalidate_mirror`.
  abbrev pub invalidate_mirror : Client E D → Client E D
  invalidate_mirror c = record c { state = none; moves = [] }

  abbrev pub forgetting : {A : Type 0} → GtpError → Act E D A
  forgetting e c = (invalidate_mirror c, err e)

  -- `except BaseException`: the mirror goes, and the error goes on.
  abbrev pub no_mirror :
      {A : Type 0} → Client E D × Result GtpError A → Client E D × Result GtpError A
  no_mirror = handle return forgetting

  abbrev pub start_mirror : Position → Client E D → Client E D
  start_mirror p c = record c { state = some (setting_of p); moves = [] }

  -- `_played`.
  unfoldable pub played : Text → Text → Client E D → Client E D
  played color vertex c =
      if equal vertex (codes "resign")
      then c
      else elim c.state [ none ↦ c | some k ↦ record c { moves = c.moves ++ (color, vertex) ∷ [] } ]

  abbrev pub unless_rejected : GtpError → Act E D (Unit {0})
  unless_rejected (rejected t) = return tt
  unless_rejected e = raise e

  -- A refusal goes unheeded.
  abbrev pub or_refused :
      Client E D × Result GtpError Text → Client E D × Result GtpError (Unit {0})
  or_refused = handle (λ t. return tt) unless_rejected

module _ {E D : Type 0} where
  abbrev pub accept_move : Text → Option Text → Act E D Text
  accept_move letter none = raise not_a_move
  accept_move letter (some vertex) = change (played letter vertex) >> return vertex

  abbrev pub with_letter : {A : Type 0} → (Text → Act E D A) → Option Text → Act E D A
  with_letter f none = raise unknown_color
  with_letter f (some letter) = f letter

-- `_move_answer`.
unfoldable pub move_answer : Text → ℕ → Option Text
move_answer reply size =
    let text = strip reply in
    if equal (lower text) (codes "pass") || equal (lower text) (codes "resign")
    then some (lower text)
    else board_vertex (Value.text text) size

module _ {E : Type 0} (w : World E) where
  unfoldable pub same_setting : Setting → Setting → Bool
  same_setting k l =
      k.size == l.size
      && (w.same_komi k.komi l.komi && (equal k.rules l.rules && same_stones k.stones l.stones))

  abbrev pub on_setting : Position → Option Setting → Bool
  on_setting p none = false
  on_setting p (some k) = same_setting k (setting_of p)

module _ {E D : Type 0} (w : World E) where
  abbrev pub run : Text → Act E D (Unit {0})
  run line = command w line >>= λ t. return tt

  unfoldable pub play_stones : List Played → Act E D (Unit {0})
  play_stones [] = return tt
  play_stones (s ∷ ss) = run (play_line s) >> play_stones ss

  -- Each move that the engine plays is appended to the mirror.
  unfoldable pub play_moves : List Played → Act E D (Unit {0})
  play_moves [] = return tt
  play_moves (m ∷ ms) =
      run (play_line m) >> change (λ c. record c { moves = c.moves ++ m ∷ [] }) >> play_moves ms

  abbrev pub set_rules : Text → Act E D (Unit {0})
  set_rules rules c =
      if supports (codes "kata-set-rules") c
      then or_refused (command w (codes "kata-set-rules " ++ rules) c)
      else return tt c

  -- `_reset`.
  unfoldable pub reset : Position → Act E D (Unit {0})
  reset p =
      change invalidate_mirror
      >> run (codes "boardsize " ++ decimal p.size)
      >> run (codes "clear_board")
      >> run (codes "komi " ++ w.show_komi p.komi)
      >> set_rules p.rules
      >> play_stones p.initial_stones
      >> change (start_mirror p)

  unfoldable pub undo_moves : ℕ → Act E D (Unit {0})
  undo_moves zero = return tt
  undo_moves (suc n) =
      run (codes "undo") >> change (λ c. record c { moves = drop_last c.moves }) >> undo_moves n

  -- The engine's board becomes a prefix of the position.
  unfoldable pub rewind : Position → Act E D (Unit {0})
  rewind p c =
      let extra = length c.moves - common_prefix c.moves p.moves in
      if not (on_setting w p c.state)
      then reset p c
      else if extra == 0
      then return tt c
      else if leb extra 3 && supports (codes "undo") c
      then undo_moves extra c
      else reset p c

  abbrev pub play_rest : Position → Act E D (Unit {0})
  play_rest p c = play_moves (drop (length c.moves) p.moves) c

  -- `sync`.
  unfoldable pub sync : Position → Act E D (Unit {0})
  sync p c = no_mirror ((rewind p >> play_rest p) c)

  -- `raw`: the mirror is dropped before and after.
  unfoldable pub raw : Text → Act E D Text
  raw line c =
      if is_refused line
      then (c, err refused_line)
      else handle (λ t d. (invalidate_mirror d, ok t)) (λ e d. (invalidate_mirror d, err e))
          (command w line (invalidate_mirror c))

  -- `set_max_visits`; None and 0 set none.
  unfoldable pub set_max_visits : Option ℕ → Act E D (Unit {0})
  set_max_visits none c = return tt c
  set_max_visits (some zero) c = return tt c
  set_max_visits (some (suc n)) c =
      if supports (codes "kata-set-param") c
      then or_refused (command w (codes "kata-set-param maxVisits " ++ decimal (suc n)) c)
      else return tt c

  abbrev pub genmove_as : Position → Text → Act E D Text
  genmove_as p letter =
      stop_analysis w >> sync p >> command w (codes "genmove " ++ letter) >>= λ reply.
      accept_move letter (move_answer reply p.size)

  -- `genmove`.
  unfoldable pub genmove : Position → Text → Act E D Text
  genmove p color = with_letter (genmove_as p) (color_letter color)

  -- `final_score`.
  unfoldable pub final_score : Position → Act E D Text
  final_score p = stop_analysis w >> sync p >> command w (codes "final_score")

  abbrev pub torn_down :
      {A : Type 0} → Client E D × Result GtpError A → Client E D × Result GtpError A
  torn_down = handle return (λ e c. (record c { health = aborted c.health }, err e))

  abbrev pub known : List Text → Act E D (Unit {0})
  known [] = raise no_command_list
  known (n ∷ ns) = change (λ c. record c { commands = n ∷ ns })

  abbrev pub greet : Act E D (Unit {0})
  greet = optional w (codes "name") >>= λ n.
      change (λ c. record c { name = text_or (codes "GTP engine") n })
      >> optional w (codes "version")
      >>= λ v.
          change (λ c. record c { version = text_or [] v })
          >> optional w (codes "list_commands")
          >>= λ l. known (listed_commands (text_or [] l))

  -- `connect`, once the socket is open to an engine: every connection starts afresh.
  unfoldable pub connect : E → Act E D (Unit {0})
  connect e c = torn_down (
      greet (record c {
        engine = e;
        queue = [];
        health = armed;
        commands = [];
        has_root_info = true;
        has_ownership = true;
        stream = none;
        state = none;
        moves = [];
      }))

  abbrev pub quit_or : Act E D (Unit {0})
  quit_or c = elim c.health.failure [
    | none ↦ handle (λ t. return tt) (λ e. return tt) (command w (codes "quit") c)
    | some f ↦ return tt c
  ]

  -- `close`.
  unfoldable pub close : Act E D (Unit {0})
  close =
      change (λ c. record c { health = record c.health { closing = true } })
      >> stop_analysis w
      >> quit_or
      >> change (λ c. record c { health = aborted c.health })
