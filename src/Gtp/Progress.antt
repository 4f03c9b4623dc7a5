-- ===== src/Gtp/Progress.antt =====
-- With an engine that grants what it is asked, every command of `sync` returns.
use gowui.Base.{
  ℕ, suc, ◌+◌, ◌≤◌, ◌<◌, ◌≡◌, refl, true, false, ◌||◌, [], ◌∷◌, ◌++◌, none, Text, codes, All, arith,
  strip, lstrip, is_space, starts_with, utf8_length,
}
use gowui.Coords.{decimal, show_digits}
use gowui.Engines.{is_refused, has_surrogate}
use gowui.Gtp.{Client, World, GtpError, numbered, return, write, write_open, send, send_open, ◌>>=◌}
use gowui.Gtp.Exchange.{
  heads, head, read_head, body, read_body, head_of, exchange, command, join_lines,
}
use gowui.Gtp.Outcome.{Post, continue-Post, if-Post, check-Post}
use gowui.Gtp.Framing.{
  Reply, framed, Speaks, sent_client, Out, on_sent-Post, after_head, stop_analysis-idle,
}
use gowui.Gtp.Digits.{IsDigit, show_digits-IsDigit, limit, numbered-own}

-- A text that can stand in a line.
pub record IsClean (t : Text) : Type 0 where
  pub one_line : is_refused t ≡ false
  pub encodable : has_surrogate t ≡ false

is_refused-append : (s t : Text) → is_refused (s ++ t) ≡ (is_refused s || is_refused t)
unfolding is_refused
is_refused-append [] t = refl
is_refused-append (c ∷ s) t = ground (arith, is_refused-append s t)

has_surrogate-append : (s t : Text) → has_surrogate (s ++ t) ≡ (has_surrogate s || has_surrogate t)
unfolding has_surrogate
has_surrogate-append [] t = refl
has_surrogate-append (c ∷ s) t = ground (arith, has_surrogate-append s t)

pub IsClean-append : (s t : Text) → IsClean s → IsClean t → IsClean (s ++ t)
IsClean-append s t h k = record {
  one_line = rw (is_refused-append s t, h.one_line) k.one_line;
  encodable = rw (has_surrogate-append s t, h.encodable) k.encodable;
}

digits-IsClean : (ds : Text) → All IsDigit ds → IsClean ds
unfolding is_refused has_surrogate
digits-IsClean [] h = record { one_line = refl; encodable = refl }
digits-IsClean (d ∷ ds) (h, k) =
    let i = digits-IsClean ds k in
    record { one_line = ground (arith, h, i.one_line); encodable = ground (arith, h, i.encodable) }

pub decimal-IsClean : (n : ℕ) → IsClean (decimal n)
unfolding decimal
decimal-IsClean n = digits-IsClean (show_digits (n + 1) n) (show_digits-IsDigit (n + 1) n)

pub literal-IsClean : (t : Text) → is_refused t ≡ false → has_surrogate t ≡ false → IsClean t
literal-IsClean t h k = record { one_line = h; encodable = k }

numbered-IsClean : (id : ℕ) (line : Text) → IsClean line → IsClean (numbered id line)
unfolding is_refused has_surrogate
numbered-IsClean id line l =
    IsClean-append (decimal id ++ codes " ") line
      (IsClean-append (decimal id) (codes " ") (decimal-IsClean id)
        (literal-IsClean (codes " ") refl refl))
      l

-- No error is raised.
abbrev pub Never : {E D : Type 0} → GtpError → Client E D → Type 0
Never e c = ⊥

-- Nothing failed or is left over, and the next command's number is at most this.
pub record Ready {E D : Type 0} (bound : ℕ) (c : Client E D) : Type 0 where
  pub idle : c.stream ≡ none
  pub empty : c.queue ≡ []
  pub alive : c.health.failure ≡ none
  pub numbers : c.next_id ≤ bound

abbrev pub granted : Reply
granted = record { accepted = true; first = []; more = [] }

read_head-granted :
    (id : ℕ) → id < limit 17 → read_head id (framed id granted) ≡ heads true [] ([] ∷ [])
unfolding read_head framed lstrip is_space starts_with head_of strip
read_head-granted id h = let (own, after) = numbered-own id [] h in rw (own, after) refl

module _ {E D : Type 0} {w : World E} (o : Speaks w) where
  send-Ready :
      (line : Text) (bound : ℕ) (c : Client E D)
      → IsClean line
      → Ready bound c
      → Post (λ id d. (id ≡ c.next_id) × Out w o line c id d) Never (send w line c)
  unfolding send write
  send-Ready line bound c l r =
      let Q : ℕ → Client E D → Type 0 = λ id d. (id ≡ c.next_id) × Out w o line c id d in
      let sent = numbered c.next_id line in
      let clean : IsClean sent = numbered-IsClean c.next_id line l in
      if-Post Q Never (is_refused line) _ _ (λ y. cc)
        (λ y.
          check-Post Q Never (λ u. send_open w line) c
            (λ n.
              continue-Post (Out w o line c) Q Never (λ u. return c.next_id) _
                (check-Post (Out w o line c) Never (λ u. write_open w sent)
                  (record c { next_id = suc c.next_id })
                  (λ n.
                    if-Post (Out w o line c) Never (is_refused sent) _ _ (λ y. cc)
                      (λ y.
                        if-Post (Out w o line c) Never (has_surrogate sent) _ _ (λ z. cc)
                          (λ z. on_sent-Post w o Never line c r.empty)))
                  (λ g e. cc))
                (λ u d h. record { holds = (refl, h) }))
            (λ g e. cc))

  answer-Ready :
      (line : Text) (bound : ℕ) (c : Client E D)
      → bound < limit 17
      → (o.obey c.engine line).1 ≡ granted
      → Ready bound c
      → Post
          (λ t d. Ready (suc bound) d)
          Never
          ((head c.next_id >>= after_head w o) (sent_client w o line c))
  unfolding head body read_body utf8_length join_lines strip lstrip is_space
  answer-Ready line bound c b g r =
      rw (g, read_head-granted c.next_id (omega (arith, r.numbers)))
        (record {
          holds = record {
            idle = r.idle;
            empty = refl;
            alive = r.alive;
            numbers = omega (arith, r.numbers);
          };
        })

  pub command-Ready :
      (line : Text) (bound : ℕ) (c : Client E D)
      → IsClean line
      → bound < limit 17
      → (o.obey c.engine line).1 ≡ granted
      → Ready bound c
      → Post (λ t d. Ready (suc bound) d) Never (command w line c)
  unfolding command exchange
  command-Ready line bound c l b g r = rw (stop_analysis-idle w c r.idle) (
      continue-Post (λ id d. (id ≡ c.next_id) × Out w o line c id d) (λ t d. Ready (suc bound) d)
        Never (λ id. head id >>= after_head w o) (send w line c) (send-Ready line bound c l r)
        (λ id d h. rw (h.0, h.1) (answer-Ready line bound c b g r)))
