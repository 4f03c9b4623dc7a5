-- ===== src/Sgf/Nodes.antt =====
-- Reading back what the writer writes: nodes, and the game tree.
use gowui.Base.{
  ℕ, zero, suc, ◌≤◌, ◌<◌, ◌≡◌, refl, sym, ap, ◌∙◌, subst, false, List, [], ◌∷◌, ◌++◌, append-nil,
  append_assoc, Option, none, some, arith, length, length-append, Text, Bool-cases, inl, inr,
  Result, ok, err, lookup, text_eq, equal, equal_iff,
}
use gowui.Sgf.{
  SgfError, Node, dump_values, dump_properties, read_values, is_nil, ident_of, after_ident, key_of,
  extend, read_node, no_value,
}
use gowui.Sgf.Values.{EndsValues, read_values-written}
use gowui.Sgf.Properties.{
  IsName, IsProperties, IsApart, IsApart-nil, NoLetter, ident_of-name, after_ident-name,
  key_of-name, lstrip-name, after_char-name, extend-new, lookup-snoc,
}

-- Text at which the properties of a node end.
abbrev pub EndsNode : Text → Type 0
EndsNode t = EndsValues t × NoLetter t

abbrev checked_values :
    ℕ → Node → Text → Result SgfError (List Text × Text) → Result SgfError (Node × Text)
checked_values n node ident r = elim r as (λ r. Result SgfError (Node × Text)) [
  | err e ↦ err e
  | ok (vs, rest') ↦ elim vs as (λ v. Result SgfError (Node × Text)) [
    | [] ↦ err no_value
    | v ∷ vs' ↦ read_node n (extend (key_of ident) vs node) rest'
  ]
]

abbrev named : ℕ → Node → Text → Text → Text → Result SgfError (Node × Text)
named n node s ident rest = elim ident as (λ i. Result SgfError (Node × Text)) [
  | [] ↦ ok (node, s)
  | c ∷ cs ↦ checked_values n node ident (read_values (suc (length rest)) rest)
]

read_node-end : (n : ℕ) (acc : Node) (t : Text) → EndsNode t → read_node (suc n) acc t ≡ ok (acc, t)
unfolding read_node
read_node-end n acc t (e, h) =
    ap (λ (s : Text). named n acc s (ident_of s) (after_ident s)) (e.0)
    ∙ ap (λ (i : Text). named n acc t i (after_ident t)) h

named-name :
    (n : ℕ) (acc : Node) (s rest : Text) {k : Text}
    → IsName k
    → named n acc s k rest ≡ checked_values n acc k (read_values (suc (length rest)) rest)
named-name n acc s rest (IsName.last c u) = refl
named-name n acc s rest (IsName.more c u m) = refl

checked_values-some :
    (n : ℕ) (acc : Node) (k : Text) (vs : List Text) (t : Text)
    → is_nil vs ≡ false
    → checked_values n acc k (ok (vs, t)) ≡ read_node n (extend (key_of k) vs acc) t
checked_values-some n acc k [] t h = absurd (cc)
checked_values-some n acc k (v ∷ vs) t h = refl

NoLetter-values : (vs : List Text) (t : Text) → is_nil vs ≡ false → NoLetter (dump_values vs ++ t)
unfolding dump_values ident_of
NoLetter-values [] t h = absurd (cc)
NoLetter-values (v ∷ vs) t h = refl

-- One property is read and added to the node.
read_node-property :
    (n : ℕ) (acc : Node) (k : Text) (vs : List Text) (t : Text)
    → IsName k
    → is_nil vs ≡ false
    → lookup k acc ≡ none
    → EndsValues t
    → read_node (suc n) acc (k ++ (dump_values vs ++ t)) ≡ read_node n (acc ++ (k, vs) ∷ []) t
unfolding read_node
read_node-property n acc k vs t name vals new e =
    let s : Text = k ++ (dump_values vs ++ t) in
    let rest : Text = dump_values vs ++ t in
    let first = NoLetter-values vs t vals in
    ap (λ (x : Text). named n acc x (ident_of x) (after_ident x)) (lstrip-name rest name)
    ∙ ap (λ (i : Text). named n acc s i (after_ident s)) (ident_of-name rest name first)
    ∙ ap (named n acc s k) (after_ident-name rest name first)
    ∙ named-name n acc s rest name
    ∙ ap (checked_values n acc k) (read_values-written vs t e)
    ∙ checked_values-some n acc k vs t vals
    ∙ ap (λ (i : Text). read_node n (extend i vs acc) t) (key_of-name name)
    ∙ ap (λ (d : Node). read_node n d t) (extend-new k vs acc new)

spread : (k vs ps t : Text) → ((k ++ vs) ++ ps) ++ t ≡ k ++ (vs ++ (ps ++ t))
spread k vs ps t = append_assoc (k ++ vs) ps t ∙ append_assoc k vs (ps ++ t)

EndsValues-properties :
    (ps : Node) (t : Text) → IsProperties ps → EndsNode t → EndsValues (dump_properties ps ++ t)
unfolding dump_properties IsProperties
EndsValues-properties [] t h (e, n) = e
EndsValues-properties ((k, vs) ∷ ps) t (name, vals, new, h) e =
    let rest : Text = dump_values vs ++ (dump_properties ps ++ t) in
    subst EndsValues (sym (spread k (dump_values vs) (dump_properties ps) t))
      (lstrip-name rest name, after_char-name rest name)

IsApart-snoc :
    (k : Text) (vs : List Text) (acc ps : Node)
    → IsApart acc ps
    → lookup k ps ≡ none
    → IsApart (acc ++ (k, vs) ∷ []) ps
unfolding IsApart lookup
IsApart-snoc k vs acc [] a h = tt
IsApart-snoc k vs acc ((j, ws) ∷ ps) (x, a) h = elim (Bool-cases (equal j k)) [
  | inl y ↦ absurd (found (rw y at h))
  | inr n ↦ (lookup-snoc j k vs acc x (flipped n), IsApart-snoc k vs acc ps a (rw n at h))
]
  where
    found : {ws : List Text} → ◌≡◌ {A = Option (List Text)} (some ws) none → ⊥
    found e = cc

    flipped : equal j k ≡ false → equal k j ≡ false
    flipped n = ground (arith, equal_iff j k, equal_iff k j)

abbrev ok_node : Node → Text → Result SgfError (Node × Text)
ok_node d t = ok (d, t)

length-name : {k : Text} → IsName k → 0 < length k
length-name (IsName.last c u) = omega arith
length-name (IsName.more c u n) = omega arith

read_node-dump :
    (n : ℕ) (ps acc : Node) (t : Text)
    → length ps < n
    → IsProperties ps
    → IsApart acc ps
    → EndsNode t
    → read_node n acc (dump_properties ps ++ t) ≡ ok (acc ++ ps, t)
unfolding dump_properties IsProperties IsApart
read_node-dump zero ps acc t l p a e = absurd (omega (arith, l))
read_node-dump (suc n) [] acc t l p a e =
    read_node-end n acc t e ∙ ap (λ (d : Node). ok_node d t) (sym (append-nil acc))
read_node-dump (suc n) ((k, vs) ∷ ps) acc t l (name, vals, new, p) (x, a) e =
    let rest : Text = dump_properties ps ++ t in
    ap (read_node (suc n) acc) (spread k (dump_values vs) (dump_properties ps) t)
    ∙ read_node-property n acc k vs rest name vals x (EndsValues-properties ps t p e)
    ∙ read_node-dump n ps (acc ++ (k, vs) ∷ []) t (omega (arith, l)) p
        (IsApart-snoc k vs acc ps a new) e
    ∙ ap (λ (d : Node). ok_node d t) (append_assoc acc ((k, vs) ∷ []) ps)

length-dump_properties : (ps : Node) → IsProperties ps → length ps ≤ length (dump_properties ps)
unfolding dump_properties IsProperties
length-dump_properties [] p = omega arith
length-dump_properties ((k, vs) ∷ ps) (name, vals, new, p) = omega (
  arith,
  length-dump_properties ps p,
  length-append (k ++ dump_values vs) (dump_properties ps),
  length-append k (dump_values vs),
  length-name name,
)

-- A written node reads back as itself, with the fuel that `at_node` gives.
pub read_node-written :
    (ps : Node) (t : Text)
    → IsProperties ps
    → EndsNode t
    → read_node (suc (length (dump_properties ps ++ t))) [] (dump_properties ps ++ t) ≡ ok (ps, t)
read_node-written ps t p e =
    read_node-dump (suc (length (dump_properties ps ++ t))) ps [] t
      (omega (arith, length-dump_properties ps p, length-append (dump_properties ps) t)) p
      (IsApart-nil ps) e
