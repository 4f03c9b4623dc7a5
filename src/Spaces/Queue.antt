-- ===== src/Spaces/Queue.antt =====
-- What `TabQueue.put` keeps: the bound, one frame of each superseded type, and every other frame.
use gowui.Base.{
  ℕ, ◌+◌, ◌≤◌, ◌<◌, ◌≡◌, refl, sym, ap, ◌∙◌, Bool, true, false, ◌||◌, List, [], ◌∷◌, ◌++◌,
  append-nil, Option, none, some, arith, ltb, leb, if◌then◌else◌, length, length-append, Text,
  codes, equal, equal_iff, Bool-cases, inl, inr, ltb-false,
}
use gowui.Spaces.{
  Kind, Frame, TabQueue, same_kind, is_kind, coalesced, folded, folding, drop_first, unfolded,
  superseded, half, history_kind, fold_logs, next_items, stored, put,
}

pub same_kind-is_kind :
    (k j : Kind) (name : Text) → same_kind j k ≡ true → is_kind name j ≡ is_kind name k
unfolding same_kind is_kind
same_kind-is_kind none none name h = refl
same_kind-is_kind none (some j) name h = absurd (cc)
same_kind-is_kind (some k) none name h = absurd (cc)
same_kind-is_kind (some k) (some j) name h = ap (λ (t : Text). equal t name) ((equal_iff j k).0 h)

length-drop_first : (k : Kind) (fs : List Frame) → length (drop_first k fs) ≤ length fs
unfolding drop_first
length-drop_first k [] = omega arith
length-drop_first k (f ∷ fs) = ground (arith, length-drop_first k fs)

length-unfolded : (fs : List Frame) → length (unfolded fs) ≤ length fs
unfolding unfolded
length-unfolded [] = omega arith
length-unfolded (f ∷ fs) = ground (arith, length-unfolded fs)

-- The frames that are neither superseded nor folded.
unfoldable pub others : List Frame → List Frame
others [] = []
others (f ∷ fs) = if folding (f.0) then others fs else f ∷ others fs

others-append : (fs gs : List Frame) → others (fs ++ gs) ≡ others fs ++ others gs
unfolding others
others-append [] gs = refl
others-append (f ∷ fs) gs = elim (Bool-cases (folding (f.0))) [
  | inl y ↦ rw y (others-append fs gs)
  | inr n ↦ rw n (ap (λ (xs : List Frame). f ∷ xs) (others-append fs gs))
]

others-cons : (f : Frame) (fs : List Frame) → folding (f.0) ≡ true → others (f ∷ fs) ≡ others fs
unfolding others
others-cons f fs h = rw h refl

coalesced-folding : (k : Kind) → coalesced k ≡ true → folding k ≡ true
coalesced-folding k h = ground arith

coalesced-same : (k j : Kind) → same_kind j k ≡ true → coalesced k ≡ true → coalesced j ≡ true
coalesced-same k j s h =
    ap (λ (b : Bool). b || is_kind (codes "analysis") j) (same_kind-is_kind k j (codes "state") s)
    ∙ ap (λ (b : Bool). is_kind (codes "state") k || b) (same_kind-is_kind k j (codes "analysis") s)
    ∙ h

others-cong :
    (f : Frame) (fs gs : List Frame) → others fs ≡ others gs → others (f ∷ fs) ≡ others (f ∷ gs)
unfolding others
others-cong f fs gs e = ap (λ (xs : List Frame). if folding (f.0) then xs else f ∷ xs) e

others-drop_first :
    (k : Kind) (fs : List Frame) → coalesced k ≡ true → others (drop_first k fs) ≡ others fs
unfolding drop_first
others-drop_first k [] h = refl
others-drop_first k (f ∷ fs) h = elim (Bool-cases (same_kind (f.0) k)) [
  | inl y ↦ rw y (sym (others-cons f fs (coalesced-folding (f.0) (coalesced-same k (f.0) y h))))
  | inr n ↦ rw n (others-cong f (drop_first k fs) fs (others-drop_first k fs h))
]

folded-folding : (k : Kind) → folded k ≡ true → folding k ≡ true
folded-folding k h = ground arith

unfolded-folded :
    (f : Frame) (fs : List Frame) → folded (f.0) ≡ true → unfolded (f ∷ fs) ≡ unfolded fs
unfolding unfolded
unfolded-folded f fs h = rw h refl

unfolded-kept :
    (f : Frame) (fs : List Frame) → folded (f.0) ≡ false → unfolded (f ∷ fs) ≡ f ∷ unfolded fs
unfolding unfolded
unfolded-kept f fs h = rw h refl

others-unfolded : (fs : List Frame) → others (unfolded fs) ≡ others fs
unfolding unfolded
others-unfolded [] = refl
others-unfolded (f ∷ fs) = elim (Bool-cases (folded (f.0))) [
  | inl y ↦
      ap others (unfolded-folded f fs y)
      ∙ others-unfolded fs
      ∙ sym (others-cons f fs (folded-folding (f.0) y))
  | inr n ↦ ap others (unfolded-kept f fs n) ∙ others-cong f (unfolded fs) fs (others-unfolded fs)
]

others-superseded : (k : Kind) (fs : List Frame) → others (superseded k fs) ≡ others fs
others-superseded k fs = elim (Bool-cases (coalesced k)) [
  | inl y ↦ rw y (others-drop_first k fs y)
  | inr n ↦ rw n refl
]

length-superseded : (k : Kind) (fs : List Frame) → length (superseded k fs) ≤ length fs
length-superseded k fs = ground (arith, length-drop_first k fs)

-- How a queue full of `items` takes a frame: never, by a fold, or by a fold and the frame.
data Folded (n : ℕ) (k : Kind) (text : Text) (items : List Frame)
    : Option (List Frame) → Type 0 where
  refused : Folded n k text items none
  into :
      (t : Text)
      → folding k ≡ true
      → length (unfolded items) ≤ half n
      → folded k ≡ true
      → Folded n k text items (some (unfolded items ++ (history_kind, t) ∷ []))
  before :
      (t : Text)
      → folding k ≡ true
      → length (unfolded items) ≤ half n
      → folded k ≡ false
      → Folded n k text items (some ((unfolded items ++ (history_kind, t) ∷ []) ++ (k, text) ∷ []))

fold_logs-Folded :
    (n : ℕ) (k : Kind) (text : Text) (h : Option (Option Text)) (items : List Frame)
    → Folded n k text items (fold_logs n k text h items)
fold_logs-Folded n k text none items = elim (Bool-cases (folding k)) [
  | inl y ↦ rw y refused
  | inr z ↦ rw z refused
]
fold_logs-Folded n k text (some none) items = elim (Bool-cases (folding k)) [
  | inl y ↦ elim (Bool-cases (ltb (half n) (length (unfolded items)))) [
    | inl a ↦ rw y (rw a refused)
    | inr a ↦ rw y (rw a refused)
  ]
  | inr z ↦ rw z refused
]
fold_logs-Folded n k text (some (some t)) items = elim (Bool-cases (folding k)) [
  | inr z ↦ rw z refused
  | inl y ↦ elim (Bool-cases (ltb (half n) (length (unfolded items)))) [
    | inl a ↦ rw y (rw a refused)
    | inr a ↦
        let few = ltb-false (half n) (length (unfolded items)) a in
        elim (Bool-cases (folded k)) [
          | inl l ↦ rw y (rw a (rw l (into t y few l)))
          | inr l ↦ rw y (rw a (rw l (before t y few l)))
        ]
  ]
]

abbrev accepted : TabQueue → Kind → Text → Option (Option Text) → Option (List Frame)
accepted q kind text history = next_items q.maxsize kind text history (superseded kind q.items)

some_eq : {a b : List Frame} → ◌≡◌ {A = Option (List Frame)} (some a) (some b) → a ≡ b
some_eq h = cc

history_folding : folding history_kind ≡ true
unfolding is_kind equal
history_folding = refl

others-nil : others [] ≡ []
unfolding others
others-nil = refl

fit : (n : ℕ) → 3 ≤ n → half n + 2 ≤ n
fit n h = omega arith

fold-length :
    (n : ℕ) (k : Kind) (text : Text) (items new : List Frame) (r : Option (List Frame))
    → Folded n k text items r
    → 3 ≤ n
    → r ≡ some new
    → length new ≤ n
fold-length n k text items new r refused b e = absurd (cc)
fold-length n k text items new r (into t y few l) b e =
    let e' : unfolded items ++ (history_kind, t) ∷ [] ≡ new = cc in
    omega
      (arith, fit n b, few, ap length e', length-append (unfolded items) ((history_kind, t) ∷ []))
fold-length n k text items new r (before t y few l) b e =
    let e' : (unfolded items ++ (history_kind, t) ∷ []) ++ (k, text) ∷ [] ≡ new = cc in
    omega (
      arith,
      fit n b,
      few,
      ap length e',
      length-append (unfolded items) ((history_kind, t) ∷ []),
      length-append (unfolded items ++ (history_kind, t) ∷ []) ((k, text) ∷ []),
    )

next_items-length :
    (n : ℕ) (k : Kind) (text : Text) (h : Option (Option Text)) (items new : List Frame)
    → 3 ≤ n
    → next_items n k text h items ≡ some new
    → length new ≤ n
next_items-length n k text h items new b e = elim (Bool-cases (leb n (length items))) [
  | inl full ↦
      fold-length n k text items new (fold_logs n k text h items)
        (fold_logs-Folded n k text h items) b (rw full at e)
  | inr room ↦
      let e' : items ++ (k, text) ∷ [] ≡ new = some_eq (rw room at e) in
      let l : length items < n = ground (arith, room) in
      omega (arith, l, ap length e', length-append items ((k, text) ∷ []))
]

stored-length :
    (q : TabQueue) (items : List Frame) (r : Option (List Frame))
    → length items ≤ q.maxsize
    → ((new : List Frame) → r ≡ some new → length new ≤ q.maxsize)
    → length (stored q items r).1.items ≤ q.maxsize
stored-length q items none h k = h
stored-length q items (some new) h k = k new refl

-- A queue of at least three frames that is within its size stays within it, whichever frame is put
-- and whatever the history is.
pub put-length :
    (kind : Kind) (text : Text) (history : Option (Option Text)) (q : TabQueue)
    → 3 ≤ q.maxsize
    → length q.items ≤ q.maxsize
    → length (put kind text history q).1.items ≤ (put kind text history q).1.maxsize
unfolding put
put-length kind text history q b h =
    let items = superseded kind q.items in
    rw (stored-maxsize q items (accepted q kind text history)) (
      stored-length q items (accepted q kind text history)
        (omega (arith, length-superseded kind q.items))
        (λ new. next_items-length q.maxsize kind text history items new b))
  where
    stored-maxsize :
        (q : TabQueue) (items : List Frame) (r : Option (List Frame))
        → (stored q items r).1.maxsize ≡ q.maxsize
    stored-maxsize q items none = refl
    stored-maxsize q items (some new) = refl

others-last :
    (fs : List Frame) (f : Frame) → folding (f.0) ≡ true → others (fs ++ f ∷ []) ≡ others fs
unfolding others
others-last fs f h = others-append fs (f ∷ []) ∙ rw h (append-nil (others fs))

-- The frame itself, where the queue took it and it is of no superseded or folded type.
abbrev pub appended : Bool → Frame → List Frame
appended taken f = if taken then others (f ∷ []) else []

others-fold :
    (n : ℕ) (k : Kind) (text : Text) (items new : List Frame) (r : Option (List Frame))
    → Folded n k text items r
    → r ≡ some new
    → (others new ≡ others items) × (folding k ≡ true)
others-fold n k text items new r refused e = absurd (cc)
others-fold n k text items new r (into t y few l) e =
    let e' : unfolded items ++ (history_kind, t) ∷ [] ≡ new = cc in
    (
      ap others (sym e')
          ∙ others-last (unfolded items) (history_kind, t) history_folding
          ∙ others-unfolded items,
      y,
    )
others-fold n k text items new r (before t y few l) e =
    let logs = unfolded items ++ (history_kind, t) ∷ [] in
    let e' : logs ++ (k, text) ∷ [] ≡ new = cc in
    (
      ap others (sym e')
          ∙ others-last logs (k, text) y
          ∙ others-last (unfolded items) (history_kind, t) history_folding
          ∙ others-unfolded items,
      y,
    )

others-next_items :
    (n : ℕ) (k : Kind) (text : Text) (h : Option (Option Text)) (items new : List Frame)
    → next_items n k text h items ≡ some new
    → others new ≡ others items ++ others ((k, text) ∷ [])
others-next_items n k text h items new e = elim (Bool-cases (leb n (length items))) [
  | inl full ↦
      let (kept, y) =
        others-fold n k text items new (fold_logs n k text h items)
          (fold_logs-Folded n k text h items) (rw full at e) in
      kept
      ∙ sym (append-nil (others items))
      ∙ ap (λ (xs : List Frame). others items ++ xs) (sym (others-cons (k, text) [] y ∙ others-nil))
  | inr room ↦ ap others (sym (some_eq (rw room at e))) ∙ others-append items ((k, text) ∷ [])
]

-- The frames of no superseded or folded type are never dropped, changed or reordered: `put` appends
-- the frame to them when it takes it and the frame is one of them, and otherwise leaves them.
pub others-put :
    (kind : Kind) (text : Text) (history : Option (Option Text)) (q : TabQueue)
    → others (put kind text history q).1.items
      ≡ others q.items ++ appended (put kind text history q).0 (kind, text)
unfolding put
others-put kind text history q =
    stored-others q (superseded kind q.items) (accepted q kind text history)
      (others-superseded kind q.items)
      (λ new. others-next_items q.maxsize kind text history (superseded kind q.items) new)
  where
    stored-others :
        (q : TabQueue) (items : List Frame) (r : Option (List Frame))
        → others items ≡ others q.items
        → ((new : List Frame)
            → r ≡ some new
            → others new ≡ others items ++ others ((kind, text) ∷ []))
        → others (stored q items r).1.items
          ≡ others q.items ++ appended (stored q items r).0 (kind, text)
    stored-others q items none s h = s ∙ sym (append-nil (others q.items))
    stored-others q items (some new) s h =
        h new refl ∙ ap (λ (xs : List Frame). xs ++ others ((kind, text) ∷ [])) s
