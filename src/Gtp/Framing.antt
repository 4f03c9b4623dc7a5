-- ===== src/Gtp/Framing.antt =====
-- What a well-behaved engine answers, and what one command makes of the client then.
use gowui.Base.{
  ℕ, suc, ◌+◌, ◌≡◌, refl, sym, ap, subst, ◌⊎◌, inl, inr, Bool, true, false, Bool-cases, List, [],
  ◌∷◌, ◌++◌, Option, none, some, ◌≢◌, ltb, if◌then◌else◌, Text, strip, lstrip, is_space,
  starts_with, utf8_length, ◌==◌, All, ok, arith,
}
use gowui.Coords.{decimal}
use gowui.Engines.{Failure, unusable, Health, set_failure, lost, is_refused, has_surrogate}
use gowui.Gtp.{
  ◌>>=◌, Act, Client, Stream, World, GtpError, taken, raise_unusable, starve, write, write_open,
  send, send_open, numbered, on_sent, max_reply, return,
}
use gowui.Gtp.Outcome.{Post, continue-Post, if-Post, check-Post}
use gowui.Gtp.Exchange.{
  Head, heads, wrong, Body, whole, too_large, is_blank, is_mismatch, head_of, span_digits, on_head,
  on_body, read_head, read_body, with_line, head, body, exchange, stop_analysis, stop_stream,
  command, answered,
}

-- The reply to a command: whether it is accepted, and its lines.
pub record Reply : Type 0 where
  pub accepted : Bool
  pub first : Text
  pub more : List Text

abbrev sign : Bool → ℕ
sign true = b'='
sign false = b'?'

-- `=id payload` or `?id error`, closed by a blank line.
unfoldable pub framed : ℕ → Reply → List Text
unfolding decimal
framed id r = (sign r.accepted ∷ numbered id r.first) ∷ (r.more ++ [] ∷ [])

abbrev pub NonBlank : Text → Type 0
NonBlank l = is_blank l ≡ false

-- The engine answers each numbered command with one reply, in the frame of the protocol.
pub record Speaks {E : Type 0} (w : World E) : Type 0 where
  pub obey : E → Text → E × Reply
  pub speaks :
      (e : E) (id : ℕ) (line : Text)
      → w.peer e (numbered id line) ≡ ((obey e line).0, taken (framed id (obey e line).1) none)
  pub tidy : (e : E) (line : Text) → All NonBlank (obey e line).1.more

abbrev HeadedBy : Bool → List Text → Head → Type 0
HeadedBy good ls h = (h ≡ wrong ls) ⊎ ((t : Text) × (h ≡ heads good t ls))

head_of-HeadedBy :
    (id c : ℕ) (cs : Text) (ls : List Text) → HeadedBy (c == b'=') ls (head_of id (c ∷ cs) ls)
unfolding head_of
head_of-HeadedBy id c cs ls = elim (Bool-cases (is_mismatch id (span_digits cs).0)) [
  | inl a ↦ inl (rw a refl)
  | inr b ↦ inr (strip (span_digits cs).1, rw b refl)
]

read_head-HeadedBy :
    (id : ℕ) (good : Bool) (cs : Text) (ls : List Text)
    → HeadedBy good ls (read_head id ((sign good ∷ cs) ∷ ls))
unfolding read_head lstrip is_space starts_with
read_head-HeadedBy id true cs ls = head_of-HeadedBy id b'=' cs ls
read_head-HeadedBy id false cs ls = head_of-HeadedBy id b'?' cs ls

abbrev BodyOf : List Text → Body → Type 0
BodyOf more b = (b ≡ whole more []) ⊎ ((ls : List Text) × (b ≡ too_large ls))

with_line-BodyOf :
    (l : Text) (more : List Text) (large : Bool) (ls : List Text) (b : Body)
    → BodyOf more b
    → BodyOf (l ∷ more) (if large then too_large ls else with_line l b)
with_line-BodyOf l more true ls b h = inr (ls, refl)
with_line-BodyOf l more false ls b (inl e) = inl (ap (with_line l) e)
with_line-BodyOf l more false ls b (inr (ms, e)) = inr (ms, ap (with_line l) e)

read_body-BodyOf :
    (total : ℕ) (more : List Text)
    → All NonBlank more
    → BodyOf more (read_body total (more ++ [] ∷ []))
unfolding read_body
read_body-BodyOf total [] h = inl refl
read_body-BodyOf total (l ∷ more) h = rw (h.0) (
    with_line-BodyOf l more (ltb max_reply (total + utf8_length l + 1)) (more ++ [] ∷ [])
      (read_body (total + utf8_length l + 1) (more ++ [] ∷ []))
      (read_body-BodyOf (total + utf8_length l + 1) more (h.1)))

-- What a command leaves as it was.
pub record Same {E D : Type 0} (c d : Client E D) : Type 0 where
  pub no_stream : d.stream ≡ none
  pub same_state : d.state ≡ c.state
  pub same_moves : d.moves ≡ c.moves
  pub same_commands : d.commands ≡ c.commands
  pub alive : d.health.failure ≡ none → c.health.failure ≡ none

-- Unless the connection failed, no line of the engine is left over, and `P` holds of it.
pub record After {E D : Type 0} (P : E → Type 0) (c d : Client E D) : Type 0 where
  pub same : Same c d
  pub live : d.health.failure ≡ none → (d.queue ≡ []) × P d.engine

-- Between two commands: no analysis runs, and no line is left over.
pub record IsIdle {E D : Type 0} (c : Client E D) : Type 0 where
  pub no_stream : c.stream ≡ none
  pub no_lines : c.health.failure ≡ none → c.queue ≡ []

set_failure-some : (f : Failure) (h : Health) → (set_failure f h).failure ≢ none
unfolding set_failure
set_failure-some f h = ground arith

lost-some : (h : Health) → (lost h).failure ≢ none
unfolding lost set_failure
lost-some h = ground arith

pub Same-refl : {E D : Type 0} (c : Client E D) → c.stream ≡ none → Same c c
Same-refl c h = record {
  no_stream = h;
  same_state = refl;
  same_moves = refl;
  same_commands = refl;
  alive = λ n. n;
}

module _ {E D A : Type 0} (Q : A → Client E D → Type 0) (P : E → Type 0) (b : Client E D) where
  dead-After : (d : Client E D) → Same b d → d.health.failure ≢ none → After P b d
  dead-After d s h = record { same = s; live = λ n. absurd (h n) }

  raise_unusable-Post : (c : Client E D) → Same b c → Post Q (λ x d. After P b d) (raise_unusable c)
  unfolding raise_unusable
  raise_unusable-Post c s = record {
    holds =
        dead-After (record c { health = set_failure unusable c.health })
          (record {
            no_stream = s.no_stream;
            same_state = s.same_state;
            same_moves = s.same_moves;
            same_commands = s.same_commands;
            alive = λ n. absurd (set_failure-some unusable c.health n);
          })
          (set_failure-some unusable c.health);
  }

  starve-Post : (c : Client E D) → Same b c → Post Q (λ x d. After P b d) (starve c)
  starve-Post c s =
      check-Post Q (λ x d. After P b d) (λ u. raise_unusable) c (λ n. raise_unusable-Post c s)
        (λ g e. dead-After c s (λ n. cc))

pub Same-queue :
    {E D : Type 0} {b c : Client E D} (ls : List Text) → Same b c → Same b (record c { queue = ls })
Same-queue ls s = record {
  no_stream = s.no_stream;
  same_state = s.same_state;
  same_moves = s.same_moves;
  same_commands = s.same_commands;
  alive = s.alive;
}

module _ {E D : Type 0} (P R : E → Type 0) (b : Client E D) where
  on_head-Post :
      (good : Bool) (ls : List Text) (c : Client E D) (h : Head)
      → HeadedBy good ls h
      → Same b c
      → Post
          (λ r d. (r.0 ≡ good) × (d ≡ record c { queue = ls }))
          (λ x d. After R b d)
          (on_head c h)
  on_head-Post good ls c h (inl e) s =
      subst
        (λ h.
          Post (λ r d. (r.0 ≡ good) × (d ≡ record c { queue = ls })) (λ x d. After R b d)
            (on_head c h))
        (sym e)
        (raise_unusable-Post (λ r d. (r.0 ≡ good) × (d ≡ record c { queue = ls })) R b
          (record c { queue = ls }) (Same-queue ls s))
  on_head-Post good ls c h (inr (t, e)) s = record { holds = rw e ((refl, refl)) }

  on_body-Post :
      (first : Text) (more : List Text) (c : Client E D) (y : Body)
      → BodyOf more y
      → Same b c
      → P c.engine
      → Post (λ t d. After P b d) (λ x d. After R b d) (on_body first c y)
  on_body-Post first more c y (inl e) s p = record {
    holds = rw e (record { same = Same-queue [] s; live = λ n. (refl, p) });
  }
  on_body-Post first more c y (inr (ls, e)) s p =
      subst (λ y. Post (λ t d. After P b d) (λ x d. After R b d) (on_body first c y)) (sym e)
        (raise_unusable-Post (λ t d. After P b d) R b (record c { queue = ls }) (Same-queue ls s))

pub After-map :
    {E D : Type 0} (P R : E → Type 0) (b c : Client E D)
    → ((e : E) → P e → R e)
    → After P b c
    → After R b c
After-map P R b c f a = record {
  same = a.same;
  live = λ n. ((a.live n).0, f c.engine (a.live n).1);
}

answered-Post :
    {E D : Type 0} (P : Bool → E → Type 0) (R : E → Type 0) (good : Bool) (payload : Text)
    (b c : Client E D)
    → ((e : E) → P false e → R e)
    → After (P good) b c
    → Post (λ t d. After (P true) b d) (λ x d. After R b d) (answered good payload c)
answered-Post P R true payload b c f a = record { holds = a }
answered-Post P R false payload b c f a = record { holds = After-map (P false) R b c f a }

module _ {E : Type 0} {w : World E} (o : Speaks w) where
  -- The engine was sent the line, and answered.
  abbrev pub Done : E → Text → Bool → E → Type 0
  Done e line good f = (f ≡ (o.obey e line).0) × ((o.obey e line).1.accepted ≡ good)

  -- Nothing was sent, or the engine refused it.
  abbrev pub Kept : E → Text → E → Type 0
  Kept e line f = (f ≡ e) ⊎ Done e line false f

module _ {E D : Type 0} (w : World E) (o : Speaks w) where
  -- The client when the line is out.
  abbrev pub sent_client : Text → Client E D → Client E D
  sent_client line c = record c {
    next_id = suc c.next_id;
    engine = (o.obey c.engine line).0;
    queue = framed c.next_id (o.obey c.engine line).1;
  }

  unsent-After :
      (line : Text) (c : Client E D) (id : ℕ)
      → IsIdle c
      → After (Kept o c.engine line) c (record c { next_id = id })
  unsent-After line c id i = record {
    same = record {
      no_stream = i.no_stream;
      same_state = refl;
      same_moves = refl;
      same_commands = refl;
      alive = λ n. n;
    };
    live = λ n. (i.no_lines n, inl refl);
  }

  abbrev pub Out : Text → Client E D → {A : Type 0} → A → Client E D → Type 0
  Out line c a d = d ≡ sent_client line c

  pub on_sent-Post :
      (R : GtpError → Client E D → Type 0) (line : Text) (c : Client E D)
      → c.queue ≡ []
      → Post (Out line c) R (
          on_sent
            (record c { next_id = suc c.next_id })
            (w.peer c.engine (numbered c.next_id line)))
  unfolding on_sent
  on_sent-Post R line c q = record { holds = rw (o.speaks c.engine c.next_id line, q) refl }

  write-Post :
      (line : Text) (c : Client E D)
      → IsIdle c
      → Post
          (Out line c)
          (λ x d. After (Kept o c.engine line) c d)
          (write w (numbered c.next_id line) (record c { next_id = suc c.next_id }))
  unfolding write
  write-Post line c i =
      let R : GtpError → Client E D → Type 0 = λ x d. After (Kept o c.engine line) c d in
      let unsent = unsent-After line c (suc c.next_id) i in
      check-Post (Out line c) R (λ u. write_open w (numbered c.next_id line))
        (record c { next_id = suc c.next_id })
        (λ n.
          if-Post (Out line c) R (is_refused (numbered c.next_id line)) _ _
            (λ y. record { holds = unsent })
            (λ y.
              if-Post (Out line c) R (has_surrogate (numbered c.next_id line)) _ _
                (λ z. record { holds = unsent }) (λ z. on_sent-Post R line c (i.no_lines n))))
        (λ g e. unsent)

  send-Post :
      (line : Text) (c : Client E D)
      → IsIdle c
      → Post
          (λ id d. (id ≡ c.next_id) × Out line c id d)
          (λ x d. After (Kept o c.engine line) c d)
          (send w line c)
  unfolding send
  send-Post line c i =
      let R : GtpError → Client E D → Type 0 = λ x d. After (Kept o c.engine line) c d in
      let Q : ℕ → Client E D → Type 0 = λ id d. (id ≡ c.next_id) × Out line c id d in
      let unsent = unsent-After line c c.next_id i in
      if-Post Q R (is_refused line) _ _ (λ y. record { holds = unsent })
        (λ y.
          check-Post Q R (λ u. send_open w line) c
            (λ n.
              continue-Post (Out line c) Q R (λ u. return c.next_id) _ (write-Post line c i)
                (λ u d h. record { holds = (refl, h) }))
            (λ g e. unsent))

  abbrev pub after_head : Bool × Text → Act E D Text
  after_head r = body (r.1) >>= λ payload. answered (r.0) (strip payload)

  body-Post :
      (line : Text) (c : Client E D) (first : Text)
      → IsIdle c
      → let r = (o.obey c.engine line).1 in
        let P : Bool → E → Type 0 = λ good. Done o c.engine line good in
        Post
          (λ t d. After (P r.accepted) c d)
          (λ x d. After (Kept o c.engine line) c d)
          (body first (record (sent_client line c) { queue = r.more ++ [] ∷ [] }))
  unfolding body
  body-Post line c first i =
      let r = (o.obey c.engine line).1 in
      on_body-Post (Done o c.engine line r.accepted) (Kept o c.engine line) c first r.more
        (record (sent_client line c) { queue = r.more ++ [] ∷ [] })
        (read_body (utf8_length first + 1) (r.more ++ [] ∷ []))
        (read_body-BodyOf (utf8_length first + 1) r.more (o.tidy c.engine line))
        (record {
          no_stream = i.no_stream;
          same_state = refl;
          same_moves = refl;
          same_commands = refl;
          alive = λ n. n;
        })
        (refl, refl)

  head-Post :
      (line : Text) (c : Client E D)
      → IsIdle c
      → let r = (o.obey c.engine line).1 in
        Post
          (λ h d.
            (h.0 ≡ r.accepted) × (d ≡ record (sent_client line c) { queue = r.more ++ [] ∷ [] }))
          (λ x d. After (Kept o c.engine line) c d)
          (head c.next_id (sent_client line c))
  unfolding head framed
  head-Post line c i =
      let r = (o.obey c.engine line).1 in
      on_head-Post (Kept o c.engine line) (Kept o c.engine line) c r.accepted (r.more ++ [] ∷ [])
        (sent_client line c) (read_head c.next_id (framed c.next_id r))
        (read_head-HeadedBy c.next_id r.accepted (numbered c.next_id r.first) (r.more ++ [] ∷ []))
        (record {
          no_stream = i.no_stream;
          same_state = refl;
          same_moves = refl;
          same_commands = refl;
          alive = λ n. n;
        })

  pub exchange-Post :
      (line : Text) (c : Client E D)
      → IsIdle c
      → Post
          (λ t d. After (Done o c.engine line true) c d)
          (λ x d. After (Kept o c.engine line) c d)
          (exchange w line c)
  unfolding exchange
  exchange-Post line c i =
      let r = (o.obey c.engine line).1 in
      let P : Bool → E → Type 0 = Done o c.engine line in
      let R : GtpError → Client E D → Type 0 = λ x d. After (Kept o c.engine line) c d in
      let Q : Text → Client E D → Type 0 = λ t d. After (P true) c d in
      let M : Client E D = record (sent_client line c) { queue = r.more ++ [] ∷ [] } in
      continue-Post (λ id d. (id ≡ c.next_id) × Out line c id d) Q R (λ id. head id >>= after_head)
        _ (send-Post line c i)
        (λ id d h.
          rw (h.0, h.1)
            (continue-Post (λ h d. (h.0 ≡ r.accepted) × (d ≡ M)) Q R after_head _
              (head-Post line c i)
              (λ h d (g, m). rw m (
                continue-Post (λ t d. After (P r.accepted) c d) Q R (λ t. answered (h.0) (strip t))
                  _ (body-Post line c (h.1) i)
                  (λ t d a.
                    answered-Post P (Kept o c.engine line) (h.0) (strip t) c d (λ e k. inr k)
                      (rw g a))))))

stop_none :
    {E D : Type 0} (w : World E) (c : Client E D) (s : Option Stream)
    → s ≡ none
    → stop_stream w s c ≡ (c, ok tt)
stop_none w c none e = refl
stop_none w c (some s) e = absurd (cc)

pub stop_analysis-idle :
    {E D : Type 0} (w : World E) (c : Client E D) → c.stream ≡ none → stop_analysis w c ≡ (c, ok tt)
unfolding stop_analysis
stop_analysis-idle w c e = stop_none w c c.stream e

module _ {E D : Type 0} (w : World E) (o : Speaks w) where
  -- One command, to an engine that speaks the protocol.
  pub command-Post :
      (line : Text) (c : Client E D)
      → IsIdle c
      → Post
          (λ t d. After (Done o c.engine line true) c d)
          (λ x d. After (Kept o c.engine line) c d)
          (command w line c)
  unfolding command
  command-Post line c i = rw (stop_analysis-idle w c i.no_stream) (exchange-Post w o line c i)
