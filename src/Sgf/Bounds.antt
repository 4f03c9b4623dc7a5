-- ===== src/Sgf/Bounds.antt =====
-- What the reader answers for any text: one to 10,000 nodes, or an error of the text.
use gowui.Base.{
  ℕ, zero, suc, ◌+◌, ◌≤◌, ◌<◌, ◌≡◌, ◌≢◌, refl, ap, Bool, true, false, ◌&&◌, List, [], ◌∷◌, Option,
  none, some, arith, leb, ◌==◌, length, length-append, Text, lstrip, Bool-cases, inl, inr, Result,
  ok, err, ◌>>=◌,
}
use gowui.Sgf.{
  SgfError, no_open, out_of_fuel, no_value, Node, after_char, read_values, is_nil, ident_of,
  after_ident, key_of, extend, read_node, Frame, Reader, add_node, at_node, at_open, at_char,
  read_step, non_empty, read_tree, game_tree, parse, max_nodes, max_depth,
}
use gowui.Sgf.Fuel.{Leaves, left, failed, widen, length-lstrip, read_values-Leaves}

length-ident : (t : Text) → length (ident_of t) + length (after_ident t) ≡ length t
unfolding ident_of after_ident
length-ident [] = omega arith
length-ident (c ∷ cs) = ground (arith, length-ident cs)

abbrev next_property :
    ℕ → Node → Text → Result SgfError (List Text × Text) → Result SgfError (Node × Text)
next_property n node ident r = elim r as (λ r. Result SgfError (Node × Text)) [
  | err e ↦ err e
  | ok (vs, rest') ↦ elim vs as (λ v. Result SgfError (Node × Text)) [
    | [] ↦ err no_value
    | v ∷ vs' ↦ read_node n (extend (key_of ident) vs node) rest'
  ]
]

next_property-Leaves :
    (n k : ℕ) (node : Node) (ident : Text) (r : Result SgfError (List Text × Text))
    → Leaves k r
    → ((acc : Node) (t : Text) → length t ≤ k → Leaves (length t) (read_node n acc t))
    → Leaves k (next_property n node ident r)
next_property-Leaves n k node ident r (left [] t l) ih = failed _ (λ e. cc)
next_property-Leaves n k node ident r (left (v ∷ vs) t l) ih =
    widen (length t) k (read_node n (extend (key_of ident) (v ∷ vs) node) t) l
      (ih (extend (key_of ident) (v ∷ vs) node) t l)
next_property-Leaves n k node ident r (failed e h) ih = failed e h

read_node-Leaves :
    (n : ℕ) (node : Node) (t : Text) → length t < n → Leaves (length t) (read_node n node t)
unfolding read_node
read_node-Leaves zero node t l = absurd (omega (arith, l))
read_node-Leaves (suc n) node t l =
    of_ident (ident_of (lstrip t)) refl (λ acc t'. read_node-Leaves n acc t')
  where
    of_ident :
        (i : Text)
        → ident_of (lstrip t) ≡ i
        → ((acc : Node) (t' : Text) → length t' < n → Leaves (length t') (read_node n acc t'))
        → Leaves (length t) (elim i as (λ i. Result SgfError (Node × Text)) [
          | [] ↦ ok (node, lstrip t)
          | c ∷ cs ↦
              next_property n node
                (ident_of (lstrip t))
                (read_values (suc (length (after_ident (lstrip t)))) (after_ident (lstrip t)))
        ])
    of_ident [] e ih = left node (lstrip t) (length-lstrip t)
    of_ident (c ∷ cs) e ih =
        let rest = after_ident (lstrip t) in
        let r = read_values (suc (length rest)) rest in
        let ident : Text = ident_of (lstrip t) in
        let some_letter : length ident ≡ suc (length cs) = ap length e in
        let shorter : length rest < length t =
          omega (arith, some_letter, length-ident (lstrip t), length-lstrip t) in
        widen (length rest) (length t) (next_property n node ident r) (omega (arith, shorter)) (
          next_property-Leaves n (length rest) node ident r
            (read_values-Leaves (suc (length rest)) rest (omega arith))
            (λ acc t' b. ih acc t' (omega (arith, b, shorter, l))))

-- What one round of the loop makes of a reader: one with less text, within the bounds, or an error.
data Advances (r : Reader) : Result SgfError Reader → Type 0 where
  advanced :
      (r' : Reader)
      → length r'.rest < length r.rest
      → (length r.nodes ≤ max_nodes → length r'.nodes ≤ max_nodes)
      → (length r.stack ≤ max_depth → length r'.stack ≤ max_depth)
      → Advances r (ok r')
  ended : (e : SgfError) → e ≢ out_of_fuel → Advances r (err e)

module _ (r : Reader) (f : Frame) (fs : List Frame) (c : ℕ) (cs : Text) (top : r.stack ≡ f ∷ fs)
    (less : length cs < length r.rest) where
  depth : length r.stack ≡ suc (length fs)
  depth = ap length top

  node-Advances :
      (x : Result SgfError (Node × Text))
      → (f.0 && leb max_nodes (length r.nodes)) ≡ false
      → Leaves (length cs) x
      → Advances r (x >>= λ p. ok (record r { rest = p.1; nodes = add_node (f.0) (p.0) r.nodes }))
  node-Advances x room (left n t l) =
      advanced (record r { rest = t; nodes = add_node (f.0) n r.nodes }) (omega (arith, l, less))
        (added (f.0) room) (λ h. h)
    where
      added :
          (b : Bool)
          → (b && leb max_nodes (length r.nodes)) ≡ false
          → length r.nodes ≤ max_nodes
          → length (add_node b n r.nodes) ≤ max_nodes
      added true room h =
          let strict : length r.nodes < max_nodes = ground (arith, room) in
          omega (arith, strict, length-append r.nodes (n ∷ []))
      added false room h = h
  node-Advances x room (failed e h) = ended e h

  at_node-Advances : Advances r (at_node r f cs)
  at_node-Advances = elim (Bool-cases (f.1 == 0)) [
    | inr n ↦ rw n (ended _ (λ e. cc))
    | inl y ↦ elim (Bool-cases (f.0 && leb max_nodes (length r.nodes))) [
      | inl full ↦ rw (y, full) (ended _ (λ e. cc))
      | inr room ↦
          rw (y, room)
            (node-Advances (read_node (suc (length cs)) [] cs) room
              (read_node-Leaves (suc (length cs)) [] cs (omega arith)))
    ]
  ]

  at_open-Advances : Advances r (at_open r f fs cs)
  at_open-Advances = elim (Bool-cases (leb max_depth (suc (length fs)))) [
    | inl deep ↦ rw deep (ended _ (λ e. cc))
    | inr room ↦ rw room (
        advanced (record r { rest = cs; stack = (f.0 && f.1 == 0, 0) ∷ (f.0, f.1 + 1) ∷ fs }) less
          (λ h. h) (λ h. ground (arith, room)))
  ]

  at_close-Advances : Advances r (ok (record r { rest = cs; stack = fs }))
  at_close-Advances =
      advanced (record r { rest = cs; stack = fs }) less (λ h. h) (λ h. omega (arith, h, depth))

  at_char-Advances : Advances r (at_char r f fs (c ∷ cs))
  at_char-Advances = elim (Bool-cases (c == b';')) [
    | inl y ↦ rw y at_node-Advances
    | inr n ↦ elim (Bool-cases (c == b'(')) [
      | inl y ↦ rw (n, y) at_open-Advances
      | inr m ↦ elim (Bool-cases (c == b')')) [
        | inl y ↦ rw (n, m, y) at_close-Advances
        | inr k ↦ rw (n, m, k) (ended _ (λ e. cc))
      ]
    ]
  ]

read_step-Advances :
    (r : Reader) (f : Frame) (fs : List Frame) → r.stack ≡ f ∷ fs → Advances r (read_step r f fs)
unfolding read_step
read_step-Advances r f fs top = of_rest (lstrip r.rest) (length-lstrip r.rest)
  where
    of_rest : (t : Text) → length t ≤ length r.rest → Advances r (at_char r f fs t)
    of_rest [] l = ended _ (λ e. cc)
    of_rest (c ∷ cs) l = at_char-Advances r f fs c cs top (omega (arith, l))

-- A game tree: one to 10,000 nodes, or an error other than the lack of fuel.
pub data IsRead : Result SgfError (List Node) → Type 0 where
  game : (ns : List Node) → is_nil ns ≡ false → length ns ≤ max_nodes → IsRead (ok ns)
  no_game : (e : SgfError) → e ≢ out_of_fuel → IsRead (err e)

non_empty-IsRead : (ns : List Node) → length ns ≤ max_nodes → IsRead (non_empty ns)
non_empty-IsRead [] l = no_game _ (λ e. cc)
non_empty-IsRead (n ∷ ns) l = game (n ∷ ns) refl l

then-IsRead :
    (n : ℕ) (r : Reader) (x : Result SgfError Reader)
    → Advances r x
    → length r.nodes ≤ max_nodes
    → length r.rest ≤ n
    → ((r' : Reader) → length r'.rest < n → length r'.nodes ≤ max_nodes → IsRead (read_tree n r'))
    → IsRead (x >>= read_tree n)
then-IsRead n r x (advanced r' l a d) h b ih = ih r' (omega (arith, l, b)) (a h)
then-IsRead n r x (ended e q) h b ih = no_game e q

read_tree-IsRead :
    (n : ℕ) (r : Reader) → length r.rest < n → length r.nodes ≤ max_nodes → IsRead (read_tree n r)
unfolding read_tree
read_tree-IsRead zero r l h = absurd (omega (arith, l))
read_tree-IsRead (suc n) r l h = of_stack r.stack refl (λ r'. read_tree-IsRead n r')
  where
    of_stack :
        (s : List Frame)
        → r.stack ≡ s
        → ((r' : Reader)
            → length r'.rest < n
            → length r'.nodes ≤ max_nodes
            → IsRead (read_tree n r'))
        → IsRead (elim s as (λ s. Result SgfError (List Node)) [
          | [] ↦ non_empty r.nodes
          | f ∷ fs ↦ read_step r f fs >>= read_tree n
        ])
    of_stack [] e ih = non_empty-IsRead r.nodes h
    of_stack (f ∷ fs) e ih =
        then-IsRead n r (read_step r f fs) (read_step-Advances r f fs e) h (omega (arith, l)) ih

-- For every text the reader comes to an end: it returns at least one and at most 10,000 nodes, or
-- raises an error of the text, never for want of fuel.
pub parse-IsRead : (t : Text) → IsRead (parse t)
unfolding parse game_tree
parse-IsRead t = of_open (after_char b'(' (lstrip t))
  where
    of_open :
        (o : Option Text)
        → IsRead (elim o as (λ o. Result SgfError (List Node)) [
          | none ↦ err no_open
          | some cs ↦
              read_tree
                (suc (suc (length cs)))
                (record { rest = cs; nodes = []; stack = (true, 0) ∷ [] })
        ])
    of_open none = no_game _ (λ e. cc)
    of_open (some cs) =
        read_tree-IsRead (suc (suc (length cs)))
          (record { rest = cs; nodes = []; stack = (true, 0) ∷ [] }) (omega arith) (omega arith)
