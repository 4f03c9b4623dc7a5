-- ===== src/Board/Chain.antt =====
-- What `_chain` finds: exactly the stones of one colour that are linked to its stone, and whether
-- one of them has an empty neighbour. The fuel is enough: the walk ends with an empty stack.
mod Visit
pub use Visit.{Linked, here, next, Liberty, Distinct}
mod Spec
pub use Spec.*
