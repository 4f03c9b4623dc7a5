-- ===== src/Gtp/Rewound.antt =====
-- What `_reset`, the undo loop and the play loop make of the mirror and of the engine's board.
use gowui.Base.{
  ℕ, zero, suc, ◌≡◌, refl, sym, ap, ◌∙◌, subst, List, [], ◌∷◌, ◌++◌, append-nil, append_assoc,
  Option, some, length, codes, All, arith,
}
use gowui.Coords.{decimal}
use gowui.Gtp.{Client, Setting, World, change, ◌>>◌}
use gowui.Gtp.Outcome.{Post, continue-Post}
use gowui.Gtp.Framing.{Speaks}
use gowui.Gtp.Mirror.{Goban, play, undo, effect, IsPlayable, Obeys, Stands, Idle, run-Post}
use gowui.Gtp.Sync.{Played, play_line, run, play_stones, play_moves, undo_moves, drop_last}

-- The board that a mirror of this setting and these moves stands for.
abbrev pub goban_of : {E : Type 0} → World E → Setting → List Played → Goban
goban_of w k ms = record {
  size = decimal k.size;
  komi = w.show_komi k.komi;
  plays = k.stones ++ ms;
}

abbrev pub played_on : Goban → List Played → Goban
played_on g ss = record g { plays = g.plays ++ ss }

drop_last-append :
    (xs : List Played) (y : Played) (ys : List Played)
    → drop_last (xs ++ y ∷ ys) ≡ xs ++ drop_last (y ∷ ys)
unfolding drop_last
drop_last-append [] y ys = refl
drop_last-append (x ∷ []) y ys = refl
drop_last-append (x ∷ z ∷ xs) y ys = ap (◌∷◌ x) (drop_last-append (z ∷ xs) y ys)

drop_last-inner :
    (ss xs : List Played) (y : Played) (ys : List Played)
    → drop_last (ss ++ (xs ++ y ∷ ys)) ≡ ss ++ (xs ++ drop_last (y ∷ ys))
drop_last-inner ss xs y ys =
    ap drop_last (sym (append_assoc ss xs (y ∷ ys)))
    ∙ drop_last-append (ss ++ xs) y ys
    ∙ append_assoc ss xs (drop_last (y ∷ ys))

length-drop_last : (y : Played) (ys : List Played) → length (drop_last (y ∷ ys)) ≡ length ys
unfolding drop_last
length-drop_last y [] = refl
length-drop_last y (z ∷ ys) = ap suc (length-drop_last z ys)

module _ {E D : Type 0} {w : World E} {o : Speaks w} (b : Obeys o) where
  pub play_stones-Post :
      (ss : List Played) (s : Option Setting) (ms : List Played) (g : Goban) (c : Client E D)
      → All IsPlayable ss
      → Stands b s ms g c
      → Post (λ u d. Stands b s ms (played_on g ss) d) (Idle b) (play_stones w ss c)
  unfolding play_stones effect
  play_stones-Post [] s ms g c l st = record {
    holds = subst (λ ps. Stands b s ms (record g { plays = ps }) c) (sym (append-nil _)) st;
  }
  play_stones-Post (x ∷ ss) s ms g c l st =
      continue-Post (λ u d. Stands b s ms (effect (play x) g) d)
        (λ u d. Stands b s ms (played_on g (x ∷ ss)) d) (Idle b) (λ u. play_stones w ss)
        (run w (play_line x) c) (run-Post b (play x) s ms g c (l.0) st)
        (λ u d h.
          subst
            (λ ps.
              Post (λ u d. Stands b s ms (record g { plays = ps }) d) (Idle b) (play_stones w ss d))
            (append_assoc g.plays (x ∷ []) ss)
            (play_stones-Post ss s ms (effect (play x) g) d (l.1) h))

  abbrev pub Mirroring : Setting → List Played → Client E D → Type 0
  Mirroring k ms = Stands b (some k) ms (goban_of w k ms)

  abbrev append_move : Played → Client E D → Client E D
  append_move x c = record c { moves = c.moves ++ x ∷ [] }

  abbrev drop_move : Client E D → Client E D
  drop_move c = record c { moves = drop_last c.moves }

  appended :
      (x : Played) (k : Setting) (ms : List Played) (d : Client E D)
      → Stands b (some k) ms (effect (play x) (goban_of w k ms)) d
      → Mirroring k (ms ++ x ∷ []) (append_move x d)
  unfolding effect
  appended x k ms d h = record {
    idle = record { no_stream = h.idle.no_stream; no_lines = h.idle.no_lines };
    state_is = h.state_is;
    moves_are = ap (λ ps. ps ++ x ∷ []) h.moves_are;
    goban_is = λ n.
        h.goban_is n
        ∙ ap (λ ps. record (goban_of w k ms) { plays = ps }) (append_assoc k.stones ms (x ∷ []));
  }

  dropped :
      (x : Played) (gone : List Played) (k : Setting) (kept : List Played) (d : Client E D)
      → Stands b (some k) (kept ++ x ∷ gone) (effect undo (goban_of w k (kept ++ x ∷ gone))) d
      → Mirroring k (kept ++ drop_last (x ∷ gone)) (drop_move d)
  unfolding effect
  dropped x gone k kept d h = record {
    idle = record { no_stream = h.idle.no_stream; no_lines = h.idle.no_lines };
    state_is = h.state_is;
    moves_are = ap drop_last h.moves_are ∙ drop_last-append kept x gone;
    goban_is = λ n.
        h.goban_is n
        ∙ ap (λ ps. record (goban_of w k []) { plays = ps }) (drop_last-inner k.stones kept x gone);
  }

  pub play_moves-Post :
      (xs : List Played) (k : Setting) (ms : List Played) (c : Client E D)
      → All IsPlayable xs
      → Mirroring k ms c
      → Post (λ u d. Mirroring k (ms ++ xs) d) (Idle b) (play_moves w xs c)
  unfolding play_moves effect
  play_moves-Post [] k ms c l st = record {
    holds = subst (λ ps. Mirroring k ps c) (sym (append-nil _)) st;
  }
  play_moves-Post (x ∷ xs) k ms c l st =
      continue-Post (λ u d. Mirroring k (ms ++ x ∷ []) d) (λ u d. Mirroring k (ms ++ x ∷ xs) d)
        (Idle b) (λ u. play_moves w xs) ((run w (play_line x) >> change (append_move x)) c)
        (continue-Post (λ u d. Stands b (some k) ms (effect (play x) (goban_of w k ms)) d)
          (λ u d. Mirroring k (ms ++ x ∷ []) d) (Idle b) (λ u. change (append_move x))
          (run w (play_line x) c) (run-Post b (play x) (some k) ms (goban_of w k ms) c (l.0) st)
          (λ u d h. record { holds = appended x k ms d h }))
        (λ u d h.
          subst (λ ps. Post (λ u d. Mirroring k ps d) (Idle b) (play_moves w xs d))
            (append_assoc ms (x ∷ []) xs) (play_moves-Post xs k (ms ++ x ∷ []) d (l.1) h))

  -- The moves that `undo` takes back are the last ones.
  pub undo_moves-Post :
      (n : ℕ) (k : Setting) (kept gone : List Played) (c : Client E D)
      → length gone ≡ n
      → Mirroring k (kept ++ gone) c
      → Post (λ u d. Mirroring k kept d) (Idle b) (undo_moves w n c)
  unfolding undo_moves effect
  undo_moves-Post zero k kept [] c e st = record {
    holds = subst (λ ps. Mirroring k ps c) (append-nil kept) st;
  }
  undo_moves-Post zero k kept (x ∷ gone) c e st = absurd (omega arith)
  undo_moves-Post (suc n) k kept [] c e st = absurd (omega arith)
  undo_moves-Post (suc n) k kept (x ∷ gone) c e st =
      let rest = drop_last (x ∷ gone) in
      continue-Post (λ u d. Mirroring k (kept ++ rest) d) (λ u d. Mirroring k kept d) (Idle b)
        (λ u. undo_moves w n) ((run w (codes "undo") >> change drop_move) c)
        (continue-Post
          (λ u d.
            Stands b (some k) (kept ++ x ∷ gone) (effect undo (goban_of w k (kept ++ x ∷ gone))) d)
          (λ u d. Mirroring k (kept ++ rest) d) (Idle b) (λ u. change drop_move)
          (run w (codes "undo") c)
          (run-Post b undo (some k) (kept ++ x ∷ gone) (goban_of w k (kept ++ x ∷ gone)) c tt st)
          (λ u d h. record { holds = dropped x gone k kept d h }))
        (λ u d h. undo_moves-Post n k kept rest d (length-drop_last x gone ∙ omega arith) h)
