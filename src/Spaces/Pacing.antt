-- ===== src/Spaces/Pacing.antt =====
-- The `state` frames of a tab whose page acknowledges them: how many are under way.
use gowui.Base.{
  ◌+◌, ◌≤◌, ◌≡◌, refl, Bool, true, false, List, [], ◌∷◌, Option, none, some, arith, ltb,
  if◌then◌else◌, Text, Bool-cases, inl, inr,
}
use gowui.Spaces.{
  Kind, Frame, Waiting, for_window, for_frame, Tab, sent_by, put, ack, window_shut, pass_window,
  send_next,
}

-- What may happen to an attached tab between two `await`s: a frame is put into its queue, an `ack`
-- arrives, or its sender goes on.
pub data Move : Tab → Tab → Type 0 where
  puts :
      (t : Tab) (kind : Kind) (text : Text) (history : Option (Option Text))
      → Move t (record t { queue = (put kind text history t.queue).1 })
  acks : (t : Tab) → Move t (ack t)
  passes : (t : Tab) → Move t (pass_window t)
  sends : (t : Tab) → Move t (send_next t).1

pub data Reach (t : Tab) : Tab → Type 0 where
  start : Reach t t
  next : {a b : Tab} → Reach t a → Move a b → Reach t b

abbrev at_queue : Waiting → Bool
at_queue for_window = false
at_queue for_frame = true

-- An acknowledging tab that is being paced.
pub record IsPaced (t : Tab) : Type 0 where
  pub acknowledging : t.acknowledging ≡ true
  pub acked_le : t.states_acked ≤ t.states_sent
  pub one_open : t.states_sent ≤ t.states_acked + 1
  pub none_open : t.sender ≡ for_frame → t.states_sent ≡ t.states_acked

ack-IsPaced : (t : Tab) → IsPaced t → IsPaced (ack t)
unfolding ack
ack-IsPaced t h = elim (Bool-cases (ltb t.states_acked t.states_sent)) [
  | inl less ↦ rw less (record {
    acknowledging = refl;
    acked_le = ground (arith, less);
    one_open = omega (arith, h.one_open);
    none_open = λ w. absurd (shut less (h.none_open w));
  })
  | inr same ↦ rw same (record {
    acknowledging = refl;
    acked_le = h.acked_le;
    one_open = h.one_open;
    none_open = h.none_open;
  })
]
  where
    shut : ltb t.states_acked t.states_sent ≡ true → t.states_sent ≡ t.states_acked → ⊥
    shut l e = ground arith

pass_window-IsPaced : (t : Tab) → IsPaced t → IsPaced (pass_window t)
unfolding pass_window window_shut
pass_window-IsPaced t h = passed t.sender refl
  where
    passed :
        (s : Waiting)
        → t.sender ≡ s
        → IsPaced (elim s as (λ s. Tab) [
          | for_window ↦ if window_shut t then t else record t { sender = for_frame }
          | for_frame ↦ t
        ])
    passed for_frame e = h
    passed for_window e = elim (Bool-cases (window_shut t)) [
      | inl shut ↦ rw shut h
      | inr free ↦ rw free (record {
        acknowledging = h.acknowledging;
        acked_le = h.acked_le;
        one_open = h.one_open;
        none_open = λ w. ground (arith, h.acknowledging, h.acked_le, free);
      })
    ]

sent_by-le : (k : Kind) → sent_by k ≤ 1
sent_by-le k = ground arith

send_next-IsPaced : (t : Tab) → IsPaced t → IsPaced (send_next t).1
unfolding send_next
send_next-IsPaced t h = sent t.sender t.queue.items refl
  where
    sent :
        (s : Waiting) (is : List Frame)
        → t.sender ≡ s
        → IsPaced
            (elim s as (λ s. Option Text × Tab) [
              | for_window ↦ (none, t)
              | for_frame ↦ elim is as (λ is. Option Text × Tab) [
                | [] ↦ (none, record t { queue = record t.queue { ready = false } })
                | f ∷ fs ↦ (
                  some (f.1),
                  record t {
                    queue = record t.queue { items = fs };
                    states_sent = t.states_sent + sent_by (f.0);
                    sender = for_window;
                  },
                )
              ]
            ]).1
    sent for_window is e = h
    sent for_frame [] e = record {
      acknowledging = h.acknowledging;
      acked_le = h.acked_le;
      one_open = h.one_open;
      none_open = h.none_open;
    }
    sent for_frame (f ∷ fs) e = record {
      acknowledging = h.acknowledging;
      acked_le = omega (arith, h.acked_le);
      one_open = omega (arith, h.none_open e, sent_by-le (f.0));
      none_open = λ w. absurd (cc);
    }

move-IsPaced : {t t' : Tab} → IsPaced t → Move t t' → IsPaced t'
move-IsPaced h (puts t kind text history) = record {
  acknowledging = h.acknowledging;
  acked_le = h.acked_le;
  one_open = h.one_open;
  none_open = h.none_open;
}
move-IsPaced h (acks t) = ack-IsPaced t h
move-IsPaced h (passes t) = pass_window-IsPaced t h
move-IsPaced h (sends t) = send_next-IsPaced t h

-- Once a tab acknowledges, has no more than one `state` under way, and none while its sender waits
-- for a frame, it stays so whatever frames, acknowledgements and steps of the sender follow, in
-- whatever order.
pub reachable-IsPaced : {t t' : Tab} → IsPaced t → Reach t t' → IsPaced t'
reachable-IsPaced h start = h
reachable-IsPaced h (next r m) = move-IsPaced (reachable-IsPaced h r) m
