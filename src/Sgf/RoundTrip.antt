-- ===== src/Sgf/RoundTrip.antt =====
-- The reader reads back what the writer writes.
use gowui.Base.{
  ℕ, zero, suc, ◌+◌, ◌≤◌, ◌<◌, ◌≡◌, refl, sym, ap, ◌∙◌, subst, true, false, List, [], ◌∷◌, ◌++◌,
  append-nil, append_assoc, arith, leb, length, length-append, Text, is_space, lstrip, Result, ok,
  ◌>>=◌,
}
use gowui.Sgf.{
  SgfError, Node, dump_properties, dump_nodes, dump, is_nil, ident_of, Reader, at_node, read_step,
  non_empty, read_tree, game_tree, parse, max_nodes,
}
use gowui.Sgf.Properties.{IsProperties}
use gowui.Sgf.Nodes.{EndsNode, read_node-written}

-- Every node of the list is one that the reader can have.
unfoldable pub AreNodes : List Node → Type 0
AreNodes [] = Unit {0}
AreNodes (n ∷ ns) = IsProperties n × AreNodes ns

abbrev closed : List Node → Text
closed ns = dump_nodes ns ++ b')' ∷ b'\n' ∷ []

closed-EndsNode : (ns : List Node) → EndsNode (closed ns)
unfolding dump_nodes lstrip is_space ident_of
closed-EndsNode [] = ((refl, refl), refl)
closed-EndsNode (n ∷ ns) = ((refl, refl), refl)

closed-cons : (n : Node) (ns : List Node) → closed (n ∷ ns) ≡ b';' ∷ dump_properties n ++ closed ns
unfolding dump_nodes
closed-cons n ns =
    ap (λ (t : Text). b';' ∷ t)
      (append_assoc (dump_properties n) (dump_nodes ns) (b')' ∷ b'\n' ∷ []))

abbrev on_main : Text → List Node → Reader
on_main t acc = record { rest = t; nodes = acc; stack = (true, 0) ∷ [] }

at_node-written :
    (acc : List Node) (n : Node) (ns : List Node)
    → length acc < max_nodes
    → IsProperties n
    → at_node
        (on_main (b';' ∷ dump_properties n ++ closed ns) acc)
        (true, 0)
        (dump_properties n ++ closed ns)
      ≡ ok (on_main (closed ns) (acc ++ n ∷ []))
at_node-written acc n ns room p =
    rw (few room) (rw (read_node-written n (closed ns) p (closed-EndsNode ns)) refl)
  where
    few : length acc < max_nodes → leb max_nodes (length acc) ≡ false
    few h = ground (arith, h)

read_step-node :
    (acc : List Node) (n : Node) (ns : List Node)
    → length acc < max_nodes
    → IsProperties n
    → read_step (on_main (closed (n ∷ ns)) acc) (true, 0) []
      ≡ ok (on_main (closed ns) (acc ++ n ∷ []))
unfolding read_step lstrip is_space
read_step-node acc n ns room p =
    ap (λ (t : Text). read_step (on_main t acc) (true, 0) []) (closed-cons n ns)
    ∙ at_node-written acc n ns room p

abbrev finished : List Node → Result SgfError (List Node)
finished ns = ok ns

non_empty-some : (ns : List Node) → is_nil ns ≡ false → non_empty ns ≡ finished ns
non_empty-some [] h = absurd (cc)
non_empty-some (n ∷ ns) h = refl

is_nil-append : (acc : List Node) (n : Node) (ns : List Node) → is_nil (acc ++ n ∷ ns) ≡ false
is_nil-append [] n ns = refl
is_nil-append (a ∷ acc) n ns = refl

read_tree-end :
    (k : ℕ) (acc : List Node)
    → is_nil acc ≡ false
    → read_tree (suc (suc k)) (on_main (closed []) acc) ≡ finished acc
unfolding read_tree read_step lstrip is_space dump_nodes
read_tree-end k acc h = non_empty-some acc h

read_tree-node :
    (k : ℕ) (acc : List Node) (n : Node) (ns : List Node)
    → length acc < max_nodes
    → IsProperties n
    → read_tree (suc k) (on_main (closed (n ∷ ns)) acc)
      ≡ read_tree k (on_main (closed ns) (acc ++ n ∷ []))
unfolding read_tree
read_tree-node k acc n ns room p =
    ap (λ (r : Result SgfError Reader). r >>= read_tree k) (read_step-node acc n ns room p)

read_tree-nodes :
    (k : ℕ) (ns acc : List Node)
    → length ns + 2 ≤ k
    → is_nil (acc ++ ns) ≡ false
    → length acc + length ns ≤ max_nodes
    → AreNodes ns
    → read_tree k (on_main (closed ns) acc) ≡ finished (acc ++ ns)
unfolding AreNodes
read_tree-nodes zero ns acc l h m p = absurd (omega (arith, l))
read_tree-nodes (suc zero) ns acc l h m p = absurd (omega (arith, l))
read_tree-nodes (suc (suc k)) [] acc l h m p =
    read_tree-end k acc (subst (λ (x : List Node). is_nil x ≡ false) (append-nil acc) h)
    ∙ ap finished (sym (append-nil acc))
read_tree-nodes (suc (suc k)) (n ∷ ns) acc l h m (p, ps) =
    read_tree-node (suc k) acc n ns (omega (arith, m)) p
    ∙ read_tree-nodes (suc k) ns (acc ++ n ∷ []) (omega (arith, l))
        (subst (λ (x : List Node). is_nil x ≡ false) (sym (append_assoc acc (n ∷ []) ns)) h)
        (omega (arith, m, length-append acc (n ∷ []))) ps
    ∙ ap finished (append_assoc acc (n ∷ []) ns)

length-dump_nodes : (ns : List Node) → length ns ≤ length (dump_nodes ns)
unfolding dump_nodes
length-dump_nodes [] = omega arith
length-dump_nodes (n ∷ ns) =
    omega (arith, length-dump_nodes ns, length-append (dump_properties n) (dump_nodes ns))

-- A game tree of one to 10,000 nodes, whose properties have upper-case names, none twice in a node,
-- and at least one value each, reads back as it was written, whatever the values are.
pub parse-dump :
    (ns : List Node)
    → is_nil ns ≡ false
    → length ns ≤ max_nodes
    → AreNodes ns
    → parse (dump ns) ≡ finished ns
unfolding parse game_tree dump lstrip is_space
parse-dump ns h m p =
    read_tree-nodes (suc (suc (length (closed ns)))) ns []
      (omega (arith, length-dump_nodes ns, length-append (dump_nodes ns) (b')' ∷ b'\n' ∷ []))) h
      (omega (arith, m)) p
