-- ===== src/Sgf.antt =====
-- gowui/sgf.py: the reader of the main line of an SGF text and the writer. The reader's position is
-- the rest of the text; its loops run on fuel, which Sgf/Fuel shows to be enough.
pub mod Values
pub mod Properties
pub mod Nodes
pub mod RoundTrip
pub mod Fuel
pub mod Bounds
use gowui.Base.{
  ℕ, zero, suc, ◌+◌, ◌-◌, Bool, true, false, not, ◌&&◌, ◌||◌, List, [], ◌∷◌, ◌++◌, Option, none,
  some, ltb, leb, ◌==◌, if◌then◌else◌, length, Text, codes, within, is_space, lstrip, upper_char,
  Result, ok, err, raise_if, ◌>>=◌, ◌>>◌, lookup, insert, Eq, text_eq,
}

abbrev pub max_depth : ℕ
max_depth = 1000

abbrev pub max_nodes : ℕ
max_nodes = 10000

pub data SgfError : Type 0 where
  no_open node_after_variation too_long too_deep missing_close unexpected no_nodes : SgfError
  no_value open_value out_of_fuel : SgfError

-- `SGFNode.properties`, in insertion order.
abbrev pub Node : Type 0
Node = List (Text × List Text)

-- `SGFNode.get`, without a default: the empty text.
abbrev pub first_value : Option (List Text) → Text
first_value (some (v ∷ vs)) = v
first_value (some []) = []
first_value none = []

unfoldable pub get : Text → Node → Text
get key node = first_value (lookup key node)

-- `str.replace` of one character.
unfoldable pub replace_char : ℕ → Text → Text → Text
replace_char c new [] = []
replace_char c new (x ∷ xs) =
    let rest = replace_char c new xs in if x == c then new ++ rest else x ∷ rest

unfoldable pub escape : Text → Text
escape value = replace_char b']' (b'\\' ∷ b']' ∷ []) (replace_char b'\\' (b'\\' ∷ b'\\' ∷ []) value)

unfoldable pub dump_values : List Text → Text
dump_values [] = []
dump_values (v ∷ vs) = b'[' ∷ escape v ++ b']' ∷ dump_values vs

unfoldable pub dump_properties : Node → Text
dump_properties [] = []
dump_properties ((key, values) ∷ ps) = key ++ dump_values values ++ dump_properties ps

unfoldable pub dump_nodes : List Node → Text
dump_nodes [] = []
dump_nodes (n ∷ ns) = b';' ∷ dump_properties n ++ dump_nodes ns

unfoldable pub dump : List Node → Text
dump nodes = b'(' ∷ dump_nodes nodes ++ b')' ∷ b'\n' ∷ []

-- Where the loop of `_value` stands: in plain text, after a backslash, or after the line break of a
-- soft break.
pub data Mode : Type 0 where
  plain after_backslash : Mode
  after_break : ℕ → Mode

-- What it does with a character: end the value, drop it, or keep it.
pub data Read : Type 0 where
  stop : Read
  skip : Mode → Read
  keep : ℕ → Read

abbrev pub is_break : ℕ → Bool
is_break c = c == b'\r' || c == b'\n'

abbrev pub read_plain : ℕ → Read
read_plain c = if c == b']' then stop else if c == b'\\' then skip after_backslash else keep c

abbrev pub read_char : Mode → ℕ → Read
read_char plain c = read_plain c
read_char after_backslash c = if is_break c then skip (after_break c) else keep c
read_char (after_break d) c = if is_break c && not (c == d) then skip plain else read_plain c

abbrev pub with_char : ℕ → Result SgfError (Text × Text) → Result SgfError (Text × Text)
with_char c (ok (v, rest)) = ok (c ∷ v, rest)
with_char c (err e) = err e

-- `_value`, after the bracket: the value and the rest of the text.
unfoldable pub read_value : Mode → Text → Result SgfError (Text × Text)
read_value m [] = err open_value
read_value m (c ∷ cs) = elim (read_char m c) [
  | stop ↦ ok ([], cs)
  | skip m' ↦ read_value m' cs
  | keep x ↦ with_char x (read_value plain cs)
]

abbrev pub with_value :
    Text → Result SgfError (List Text × Text) → Result SgfError (List Text × Text)
with_value v (ok (vs, rest)) = ok (v ∷ vs, rest)
with_value v (err e) = err e

-- Whether the text goes on with the character, and what follows it.
abbrev pub after_char : ℕ → Text → Option Text
after_char c [] = none
after_char c (x ∷ xs) = if x == c then some xs else none

-- The loop of `_node` over the values of one property.
unfoldable pub read_values : ℕ → Text → Result SgfError (List Text × Text)
read_values zero t = err out_of_fuel
read_values (suc n) t = elim (after_char b'[' (lstrip t)) [
  | none ↦ ok ([], lstrip t)
  | some cs ↦ elim (read_value plain cs) [
    | err e ↦ err e
    | ok r ↦ with_value (r.0) (read_values n (r.1))
  ]
]

abbrev pub is_upper : ℕ → Bool
is_upper c = within b'A' b'Z' c

abbrev pub is_letter : ℕ → Bool
is_letter c = is_upper c || within b'a' b'z' c

-- The match of `[A-Za-z]+`, empty when there is none, and the text after it.
unfoldable pub ident_of : Text → Text
ident_of [] = []
ident_of (c ∷ cs) = if is_letter c then c ∷ ident_of cs else []

unfoldable pub after_ident : Text → Text
after_ident [] = []
after_ident (c ∷ cs) = if is_letter c then after_ident cs else c ∷ cs

unfoldable pub upper_of : Text → Text
upper_of [] = []
upper_of (c ∷ cs) = if is_upper c then c ∷ upper_of cs else upper_of cs

unfoldable pub to_upper : Text → Text
to_upper [] = []
to_upper (c ∷ cs) = upper_char c ∷ to_upper cs

abbrev pub is_nil {ℓ} : {A : Type ℓ} → List A → Bool
is_nil [] = true
is_nil (x ∷ xs) = false

unfoldable pub key_of : Text → Text
key_of ident = if is_nil (upper_of ident) then to_upper ident else upper_of ident

abbrev pub held : Option (List Text) → List Text
held none = []
held (some vs) = vs

-- `node.properties.setdefault(key, []).extend(values)`.
unfoldable pub extend : Text → List Text → Node → Node
extend key values node = insert key (held (lookup key node) ++ values) node

unfoldable pub read_node : ℕ → Node → Text → Result SgfError (Node × Text)
read_node zero node t = err out_of_fuel
read_node (suc n) node t =
    let s = lstrip t in
    let ident = ident_of s in
    let rest = after_ident s in
    elim ident as (λ i. Result SgfError (Node × Text)) [
      | [] ↦ ok (node, s)
      | c ∷ cs ↦
          elim (read_values (suc (length rest)) rest) as (λ r. Result SgfError (Node × Text)) [
            | err e ↦ err e
            | ok (vs, rest') ↦ elim vs as (λ v. Result SgfError (Node × Text)) [
              | [] ↦ err no_value
              | v ∷ vs' ↦ read_node n (extend (key_of ident) vs node) rest'
            ]
          ]
    ]

-- A frame of the stack: on the main line, and how many subtrees it has had.
abbrev pub Frame : Type 0
Frame = Bool × ℕ

pub record Reader : Type 0 where
  pub rest : Text
  pub nodes : List Node
  pub stack : List Frame

abbrev pub add_node : Bool → Node → List Node → List Node
add_node true node nodes = nodes ++ node ∷ []
add_node false node nodes = nodes

abbrev pub at_node : Reader → Frame → Text → Result SgfError Reader
at_node r f cs =
    if not (f.1 == 0)
    then err node_after_variation
    else if f.0 && leb max_nodes (length r.nodes)
    then err too_long
    else (read_node (suc (length cs)) [] cs >>= λ p.
        ok (record r { rest = p.1; nodes = add_node (f.0) (p.0) r.nodes }))

abbrev pub at_open : Reader → Frame → List Frame → Text → Result SgfError Reader
at_open r f fs cs =
    if leb max_depth (length (f ∷ fs))
    then err too_deep
    else ok (record r { rest = cs; stack = (f.0 && f.1 == 0, 0) ∷ (f.0, f.1 + 1) ∷ fs })

abbrev pub at_char : Reader → Frame → List Frame → Text → Result SgfError Reader
at_char r f fs [] = err missing_close
at_char r f fs (c ∷ cs) =
    if c == b';'
    then at_node r f cs
    else if c == b'('
    then at_open r f fs cs
    else if c == b')'
    then ok (record r { rest = cs; stack = fs })
    else err unexpected

-- One round of the loop of `game_tree`, with `f` the top of the stack.
unfoldable pub read_step : Reader → Frame → List Frame → Result SgfError Reader
read_step r f fs = at_char r f fs (lstrip r.rest)

abbrev pub non_empty : List Node → Result SgfError (List Node)
non_empty [] = err no_nodes
non_empty (n ∷ ns) = ok (n ∷ ns)

unfoldable pub read_tree : ℕ → Reader → Result SgfError (List Node)
read_tree zero r = err out_of_fuel
read_tree (suc n) r = elim r.stack as (λ s. Result SgfError (List Node)) [
  | [] ↦ non_empty r.nodes
  | f ∷ fs ↦ read_step r f fs >>= read_tree n
]

unfoldable pub game_tree : Text → Result SgfError (List Node)
game_tree t = elim (after_char b'(' (lstrip t)) as (λ o. Result SgfError (List Node)) [
  | none ↦ err no_open
  | some cs ↦
      read_tree (suc (suc (length cs))) (record { rest = cs; nodes = []; stack = (true, 0) ∷ [] })
]

-- `parse`, of a text.
unfoldable pub parse : Text → Result SgfError (List Node)
parse t = game_tree t
