-- ===== src/Types/Vertices.antt =====
-- What the sanitised vertices and arrays are.
use gowui.Base.{ℕ, ◌≤◌, ◌≡◌, refl, sym, ap, ◌∙◌, Option, none, some, Text, Result, ok, err}
use gowui.Coords.{CoordinateError, Point, to_gtp, from_gtp}
use gowui.Coords.Gtp.{from_gtp-to_gtp}
use gowui.Types.{Value, written, vertex_of, board_vertex}

written-some : (r : Result CoordinateError Text) (t : Text) → written r ≡ some t → r ≡ ok t
written-some (ok u) t h = cc
written-some (err e) t h = absurd (cc)

vertex_of-some :
    (size : ℕ) (r : Result CoordinateError (Option Point)) (t : Text)
    → vertex_of size r ≡ some t
    → (p : Option Point) × (r ≡ ok p) × (to_gtp p size ≡ ok t)
vertex_of-some size (ok p) t h = (p, refl, written-some (to_gtp p size) t h)
vertex_of-some size (err e) t h = absurd (cc)

-- The sanitised vertex is read as the engine's own was.
pub record IsCanonical (size : ℕ) (v : Value) (t : Text) : Type 0 where
  pub given : Text
  pub is_text : v ≡ Value.text given
  pub same_point : from_gtp t size ≡ from_gtp given size
  pub unchanged : board_vertex (Value.text t) size ≡ some t

text-IsCanonical :
    (size : ℕ) (given t : Text)
    → size ≤ 25
    → board_vertex (Value.text given) size ≡ some t
    → IsCanonical size (Value.text given) t
unfolding board_vertex
text-IsCanonical size given t s h =
    let (p, read, wrote) = vertex_of-some size (from_gtp given size) t h in
    let back = from_gtp-to_gtp p size t s wrote in
    record {
      given = given;
      is_text = refl;
      same_point = back ∙ sym read;
      unchanged = ap (vertex_of size) back ∙ ap written wrote;
    }

no_vertex : (v : Value) (size : ℕ) (t : Text) → none ≡ some t → IsCanonical size v t
no_vertex v size t h = absurd (cc)

-- On boards up to 25x25 a vertex that is kept was a text, names the point or the pass that the
-- engine's text does, and is kept as it is when it is sanitised again.
pub board_vertex-IsCanonical :
    (v : Value) (size : ℕ) (t : Text)
    → size ≤ 25
    → board_vertex v size ≡ some t
    → IsCanonical size v t
unfolding board_vertex
board_vertex-IsCanonical (Value.text given) size t s h = text-IsCanonical size given t s h
board_vertex-IsCanonical Value.null size t s h = no_vertex Value.null size t h
board_vertex-IsCanonical (Value.boolean b) size t s h = no_vertex (Value.boolean b) size t h
board_vertex-IsCanonical (Value.integer n) size t s h = no_vertex (Value.integer n) size t h
board_vertex-IsCanonical (Value.real f) size t s h = no_vertex (Value.real f) size t h
board_vertex-IsCanonical Value.other size t s h = no_vertex Value.other size t h
