-- ===== src/Spaces.antt =====
-- gowui/spaces.py: the bounded queue of a tab, the pacing of its sender, and the hub of a space.
pub mod Queue
pub mod Pacing
pub mod Delivery
use gowui.Base.{
  ℕ, zero, suc, ◌+◌, ◌-◌, ◌/◌, Bool, true, false, not, ◌&&◌, ◌||◌, List, [], ◌∷◌, ◌++◌, Option,
  none, some, ltb, leb, ◌==◌, if◌then◌else◌, length, Text, codes, equal, Result, ok, err,
}

abbrev pub default_queue_size : ℕ
default_queue_size = 256

abbrev pub max_tabs : ℕ
max_tabs = 32

abbrev pub state_window : ℕ
state_window = 1

-- A frame as `broadcast` sees it: its `type`, which it may lack, and its JSON text.
abbrev pub Kind : Type 0
Kind = Option Text

abbrev pub Frame : Type 0
Frame = Kind × Text

unfoldable pub same_kind : Kind → Kind → Bool
same_kind none none = true
same_kind (some a) (some b) = equal a b
same_kind _ _ = false

unfoldable pub is_kind : Text → Kind → Bool
is_kind name none = false
is_kind name (some k) = equal k name

-- `kind in COALESCED`, `kind in FOLDED`.
abbrev pub coalesced : Kind → Bool
coalesced k = is_kind (codes "state") k || is_kind (codes "analysis") k

abbrev pub folded : Kind → Bool
folded k = is_kind (codes "log") k || is_kind (codes "log_history") k

abbrev pub folding : Kind → Bool
folding k = coalesced k || folded k

pub record TabQueue : Type 0 where
  pub maxsize : ℕ
  pub items : List Frame
  pub ready : Bool

abbrev pub new_queue : ℕ → TabQueue
new_queue maxsize = record { maxsize = maxsize; items = []; ready = false }

-- The loop that deletes the first queued frame of a type.
unfoldable pub drop_first : Kind → List Frame → List Frame
drop_first k [] = []
drop_first k (f ∷ fs) = if same_kind (f.0) k then fs else f ∷ drop_first k fs

-- The queued frames that are not logs.
unfoldable pub unfolded : List Frame → List Frame
unfolded [] = []
unfolded (f ∷ fs) = if folded (f.0) then unfolded fs else f ∷ unfolded fs

abbrev pub superseded : Kind → List Frame → List Frame
superseded kind items = if coalesced kind then drop_first kind items else items

abbrev pub half : ℕ → ℕ
half n = n / 2

abbrev pub history_kind : Kind
history_kind = some (codes "log_history")

-- The items that `put` leaves when the queue, already without the superseded frame, is full; the
-- argument `history` is what the callback answers, `none` when there is no callback.
abbrev pub fold_logs : ℕ → Kind → Text → Option (Option Text) → List Frame → Option (List Frame)
fold_logs maxsize kind text history items =
    if not (folding kind) then none else elim history as (λ h. Option (List Frame)) [
      | none ↦ none
      | some answer ↦
          if ltb (half maxsize) (length (unfolded items))
          then none
          else elim answer as (λ a. Option (List Frame)) [
            | none ↦ none
            | some t ↦
                let logs = unfolded items ++ (history_kind, t) ∷ [] in
                some (if folded kind then logs else logs ++ (kind, text) ∷ [])
          ]
    ]

abbrev pub next_items : ℕ → Kind → Text → Option (Option Text) → List Frame → Option (List Frame)
next_items maxsize kind text history items =
    if leb maxsize (length items)
    then fold_logs maxsize kind text history items
    else some (items ++ (kind, text) ∷ [])

abbrev pub stored : TabQueue → List Frame → Option (List Frame) → Bool × TabQueue
stored q items none = (false, record q { items = items })
stored q items (some new) = (true, record q { items = new; ready = true })

-- `TabQueue.put`.
unfoldable pub put : Kind → Text → Option (Option Text) → TabQueue → Bool × TabQueue
put kind text history q =
    let items = superseded kind q.items in
    stored q items (next_items q.maxsize kind text history items)

-- Where the sender task of a tab waits: in `window`, or in `queue.get`.
pub data Waiting : Type 0 where
  for_window for_frame : Waiting

pub record Tab : Type 0 where
  pub queue : TabQueue
  pub states_sent : ℕ
  pub states_acked : ℕ
  pub acknowledging : Bool
  pub sender : Waiting

abbrev pub new_tab : ℕ → Tab
new_tab maxsize = record {
  queue = new_queue maxsize;
  states_sent = 0;
  states_acked = 0;
  acknowledging = false;
  sender = for_window;
}

unfoldable pub ack : Tab → Tab
ack t = record t {
  acknowledging = true;
  states_acked = if ltb t.states_acked t.states_sent then t.states_acked + 1 else t.states_acked;
}

-- The test of the loop in `window`.
unfoldable pub window_shut : Tab → Bool
window_shut t = t.acknowledging && leb state_window (t.states_sent - t.states_acked)

-- `_drain` up to the next `await`: past the window when it is open.
unfoldable pub pass_window : Tab → Tab
pass_window t = elim t.sender as (λ s. Tab) [
  | for_window ↦ if window_shut t then t else record t { sender = for_frame }
  | for_frame ↦ t
]

abbrev pub sent_by : Kind → ℕ
sent_by k = if is_kind (codes "state") k then 1 else 0

-- `_drain` after the window: take the oldest frame, count a `state`, send it and go back to the
-- window; with no frame it goes on waiting.
unfoldable pub send_next : Tab → Option Text × Tab
send_next t = elim t.sender as (λ s. Option Text × Tab) [
  | for_window ↦ (none, t)
  | for_frame ↦ elim t.queue.items as (λ is. Option Text × Tab) [
    | [] ↦ (none, record t { queue = record t.queue { ready = false } })
    | f ∷ fs ↦ (
      some (f.1),
      record t {
        queue = record t.queue { items = fs };
        states_sent = t.states_sent + sent_by (f.0);
        sender = for_window;
      },
    )
  ]
]

-- A hub: the attached tabs under a number that stands for the object, what `history()` answers, and
-- the tabs that are being closed with 1013.
pub record Hub : Type 0 where
  pub tabs : List (ℕ × Tab)
  pub history : Option (Option Text)
  pub idle_since : ℕ
  pub closing : List ℕ

unfoldable pub tab_of : ℕ → List (ℕ × Tab) → Option Tab
tab_of id [] = none
tab_of id ((j, t) ∷ ts) = if j == id then some t else tab_of id ts

unfoldable pub set_tab : ℕ → Tab → List (ℕ × Tab) → List (ℕ × Tab)
set_tab id new [] = []
set_tab id new ((j, t) ∷ ts) = if j == id then (j, new) ∷ ts else (j, t) ∷ set_tab id new ts

-- `self.tabs.remove(tab)`: the first one.
unfoldable pub remove_tab : ℕ → List (ℕ × Tab) → List (ℕ × Tab)
remove_tab id [] = []
remove_tab id ((j, t) ∷ ts) = if j == id then ts else (j, t) ∷ remove_tab id ts

abbrev pub is_empty {ℓ} : {A : Type ℓ} → List A → Bool
is_empty [] = true
is_empty (x ∷ xs) = false

abbrev pub removed : ℕ → ℕ → Hub → Option Tab → Hub
removed now id h none = h
removed now id h (some t) =
    let rest = remove_tab id h.tabs in
    record h { tabs = rest; idle_since = if is_empty rest then now else h.idle_since }

-- `Hub.remove`, at the time `now`; the cancelled sender is gone with the tab.
unfoldable pub remove : ℕ → ℕ → Hub → Hub
remove now id h = removed now id h (tab_of id h.tabs)

abbrev pub after_put : ℕ → ℕ → Hub → Tab → Bool × TabQueue → Hub
after_put now id h t (true, q) = record h { tabs = set_tab id (record t { queue = q }) h.tabs }
after_put now id h t (false, q) =
    let dropped = remove now id h in record dropped { closing = id ∷ dropped.closing }

-- `Hub._history_text`.
abbrev pub history_text : Hub → Option Text
history_text h = elim h.history [ none ↦ none | some answer ↦ answer ]

abbrev pub delivered : ℕ → ℕ → Frame → Hub → Option Tab → Hub
delivered now id f h none = h
delivered now id f h (some t) =
    after_put now id h t (put (f.0) (f.1) (some (history_text h)) t.queue)

-- `Hub.deliver`.
unfoldable pub deliver : ℕ → ℕ → Frame → Hub → Hub
deliver now id f h = delivered now id f h (tab_of id h.tabs)

unfoldable pub deliver_all : ℕ → List ℕ → Frame → Hub → Hub
deliver_all now [] f h = h
deliver_all now (id ∷ ids) f h = deliver_all now ids f (deliver now id f h)

unfoldable pub tab_ids : List (ℕ × Tab) → List ℕ
tab_ids [] = []
tab_ids (t ∷ ts) = t.0 ∷ tab_ids ts

-- `Hub.broadcast`: to the tabs that are attached when it starts.
unfoldable pub broadcast : ℕ → Frame → Hub → Hub
broadcast now f h = deliver_all now (tab_ids h.tabs) f h

unfoldable pub deliver_each : ℕ → ℕ → List Frame → Hub → Hub
deliver_each now id [] h = h
deliver_each now id (f ∷ fs) h = deliver_each now id fs (deliver now id f h)

-- `Hub.add`, without the start of the sender task.
unfoldable pub add : ℕ → ℕ → Tab → List Frame → Hub → Hub
add now id t frames h = deliver_each now id frames (record h { tabs = h.tabs ++ (id, t) ∷ [] })

pub data AttachError : Type 0 where
  too_many_tabs : AttachError

-- `SpaceRegistry.attach`, on the hub of the identity's space, of the tab that is made under `id`.
unfoldable pub attach : ℕ → ℕ → ℕ → ℕ → List Frame → Hub → Result AttachError Hub
attach cap queue_size now id frames h =
    if leb cap (length h.tabs)
    then err too_many_tabs
    else ok (add now id (new_tab queue_size) frames h)
