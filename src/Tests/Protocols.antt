-- ===== src/Tests/Protocols.antt =====
-- A GTP engine that keeps a record of its board, and a client of it.
use gowui.Base.{
  ℕ, zero, suc, ◌+◌, ◌/◌, ◌%◌, ◌≡◌, refl, ap, ◌∙◌, inl, inr, Bool, true, false, [], ◌∷◌, ◌++◌, none,
  ltb, ◌==◌, if◌then◌else◌, Text, codes, starts_with, All, pos, arith, ◌&&◌, All-append,
  append_assoc,
}
use gowui.Coords.{decimal, show_digits}
use gowui.Game.{Float}
use gowui.Types.{Position}
use gowui.Engines.{armed, is_refused, has_surrogate}
use gowui.Reports.{Numbers}
use gowui.Gtp.{Client, World, Sent, taken, numbered}
use gowui.Gtp.Outcome.{Post}
use gowui.Gtp.Framing.{Reply, framed, Speaks}
use gowui.Gtp.Mirror.{
  Goban, Order, boardsize, clear_board, komi, play, undo, kata_set_rules, line, effect, IsLegible,
  Obeys,
}
use gowui.Gtp.Refinement.{ShowsSame, IsMirrored, IsPosition, Forgotten, sync-IsPosition}
use gowui.Gtp.Progress.{IsClean, Ready, Never}
use gowui.Gtp.Liveness.{Grants, IsCleanPlay, IsSendable, sync-Ready}
use gowui.Gtp.Sync.{Played, drop, drop_last, sync}

-- The text before the first space, and the text after it.
unfoldable at_space : Text → Text × Text
at_space [] = ([], [])
at_space (c ∷ cs) = let (a, rest) = at_space cs in if c == b' ' then ([], cs) else (c ∷ a, rest)

abbrev sound : Reply
sound = record { accepted = true; first = []; more = [] }

unfoldable board_after : Goban → Text → Goban
board_after g cmd =
    if starts_with (codes "boardsize ") cmd
    then record g { size = drop 10 cmd; plays = [] }
    else if starts_with (codes "clear_board") cmd
    then record g { plays = [] }
    else if starts_with (codes "komi ") cmd
    then record g { komi = drop 5 cmd }
    else if starts_with (codes "play ") cmd
    then record g { plays = g.plays ++ at_space (drop 5 cmd) ∷ [] }
    else if starts_with (codes "undo") cmd
    then record g { plays = drop_last g.plays }
    else g

abbrev obey : Goban → Text → Goban × Reply
obey g cmd = (board_after g cmd, sound)

-- The reply carries the number that the line began with.
unfoldable answer : Text → Goban × Reply → Goban × Sent
answer id (g, r) = (g, taken ((b'=' ∷ id ++ codes " " ++ r.first) ∷ (r.more ++ [] ∷ [])) none)

unfoldable peer : Goban → Text → Goban × Sent
peer g l = answer (at_space l).0 (obey g (at_space l).1)

abbrev plain : Numbers
plain = record {
  read_float = λ t. none;
  int_float = λ n. none;
  one_minus = λ f. f;
  per_ten_thousand = λ f. f;
}

unfoldable same_float : Float → Float → Bool
same_float (Float.num (pos a) (pos b)) (Float.num (pos c) (pos d)) = a == c && b == d
same_float _ _ = false

unfoldable show_float : Float → Text
show_float (Float.num (pos a) (pos b)) = decimal a
show_float _ = codes "nan"

abbrev world : World Goban
world = record {
  peer = peer;
  numbers = plain;
  show_komi = show_float;
  same_komi = same_float;
  hundredths = λ f. pos 40;
}

abbrev NotSpace : ℕ → Type 0
NotSpace c = (c == b' ') ≡ false

at_space-append : (xs rest : Text) → All NotSpace xs → at_space (xs ++ b' ' ∷ rest) ≡ (xs, rest)
unfolding at_space
at_space-append [] rest h = refl
at_space-append (x ∷ xs) rest h = rw (at_space-append xs rest (h.1), h.0) refl

digit-NotSpace : (n : ℕ) → NotSpace (n + b'0')
digit-NotSpace n = ground arith

if-All :
    (test : Bool) (xs ys : Text)
    → All NotSpace xs
    → All NotSpace ys
    → All NotSpace (if test then xs else ys)
if-All true xs ys h k = h
if-All false xs ys h k = k

show_digits-NotSpace : (fuel n : ℕ) → All NotSpace (show_digits fuel n)
unfolding show_digits
show_digits-NotSpace zero n = tt
show_digits-NotSpace (suc fuel) n =
    if-All (ltb n 10) _ _ (digit-NotSpace n, tt)
      (All-append NotSpace (show_digits fuel (n / 10)) (_ ∷ []) (show_digits-NotSpace fuel (n / 10))
        (digit-NotSpace (n % 10), tt))

decimal-NotSpace : (n : ℕ) → All NotSpace (decimal n)
unfolding decimal
decimal-NotSpace n = show_digits-NotSpace (n + 1) n

at_space-numbered : (id : ℕ) (l : Text) → at_space (numbered id l) ≡ (decimal id, l)
at_space-numbered id l =
    ap at_space (append_assoc (decimal id) (codes " ") l)
    ∙ at_space-append (decimal id) l (decimal-NotSpace id)

world-Speaks : Speaks world
unfolding peer answer framed
world-Speaks = record {
  obey = obey;
  speaks = λ e id l. ap (λ t. answer (t.0) (obey e (t.1))) (at_space-numbered id l);
  tidy = λ e l. tt;
}

accepts_order : (g : Goban) (x : Order) → IsLegible x → board_after g (line x) ≡ effect x g
unfolding board_after effect starts_with at_space drop
accepts_order g (boardsize t) l = refl
accepts_order g clear_board l = refl
accepts_order g (komi t) l = refl
accepts_order g (play (c, v)) (inl e) = rw e refl
accepts_order g (play (c, v)) (inr e) = rw e refl
accepts_order g undo l = refl
accepts_order g (kata_set_rules t) l = refl

world-Obeys : Obeys world-Speaks
unfolding world-Speaks
world-Obeys = record {
  goban = λ g. g;
  accepts = λ g x l h. accepts_order g x l;
  refuses = λ g x l h. absurd (cc);
}

world-ShowsSame : ShowsSame world
unfolding same_float show_float
world-ShowsSame (Float.num (pos a) (pos b)) (Float.num (pos c) (pos d)) h = ground (arith, h)
world-ShowsSame _ _ h = absurd (cc)

abbrev client : Client Goban (Unit {0})
client = record {
  engine = record { size = codes "19"; komi = codes "0"; plays = (codes "B", codes "Q16") ∷ [] };
  queue = [];
  health = armed;
  next_id = 9;
  commands = codes "play" ∷ codes "undo" ∷ [];
  has_root_info = true;
  has_ownership = true;
  stream = none;
  state = none;
  moves = [];
  name = [];
  version = [];
  delivered = [];
}

abbrev position : Position
position = record {
  size = 9;
  komi = Float.num (pos 7) (pos 0);
  rules = codes "chinese";
  initial_stones = (codes "B", codes "E5") ∷ [];
  moves = (codes "W", codes "C3") ∷ (codes "B", codes "G7") ∷ [];
  first_player = codes "W";
}

client-IsMirrored : IsMirrored {D = Unit {0}} world-Obeys client
client-IsMirrored = record {
  idle = record { no_stream = refl; no_lines = λ n. refl };
  goban_is = λ k e n. absurd (cc);
}

sync-IsPosition_example :
    Post
      (λ u d. IsPosition {D = Unit {0}} world-Obeys position d)
      (Forgotten world-Obeys)
      (sync world position client)
sync-IsPosition_example =
    sync-IsPosition world-Obeys world-ShowsSame position client (inl refl, tt)
      (inr refl, (inl refl, tt)) client-IsMirrored

world-Grants : Grants world-Speaks
unfolding world-Speaks
world-Grants g x = refl

text-IsClean : (t : Text) → is_refused t ≡ false → has_surrogate t ≡ false → IsClean t
text-IsClean t h k = record { one_line = h; encodable = k }

move-IsCleanPlay :
    (m : Played)
    → is_refused (m.0) ≡ false
    → has_surrogate (m.0) ≡ false
    → is_refused (m.1) ≡ false
    → has_surrogate (m.1) ≡ false
    → IsCleanPlay m
move-IsCleanPlay (c, v) a b d e = (text-IsClean c a b, text-IsClean v d e)

position-IsSendable : IsSendable world position
unfolding is_refused has_surrogate show_float decimal show_digits
position-IsSendable = record {
  komi_clean = text-IsClean (show_float position.komi) refl refl;
  rules_clean = text-IsClean (codes "chinese") refl refl;
  stones_clean = (move-IsCleanPlay (codes "B", codes "E5") refl refl refl refl, tt);
  moves_clean = (
    move-IsCleanPlay (codes "W", codes "C3") refl refl refl refl,
    (move-IsCleanPlay (codes "B", codes "G7") refl refl refl refl, tt),
  );
}

sync-Ready_example :
    Post (λ u d. Ready {D = Unit {0}} (9 + 4 + 1 + 2) d) Never (sync world position client)
sync-Ready_example =
    sync-Ready world-Speaks world-Grants position 9 client position-IsSendable (omega arith)
      (record { idle = refl; empty = refl; alive = refl; numbers = omega arith })
