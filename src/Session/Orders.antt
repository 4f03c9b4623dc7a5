-- ===== src/Session/Orders.antt =====
-- gowui/session.py: ids in order, as a board is put in, moved or taken away.
use gowui.Base.{
  ℕ, suc, ◌≡◌, refl, sym, ◌∙◌, true, List, [], ◌∷◌, length, ◌<◌, ==_self, arith, text_eq,
}
use gowui.Session.{max_boards}
use gowui.Session.Shapes.{member, IsBelow, IsDistinct, IsOrdered}
use gowui.Session.Places.{
  without, member-IsBelow, Inserted, without-Inserted, length-Inserted, member-Inserted,
  IsBelow-Inserted, IsBelow-without, IsDistinct-Inserted, IsDistinct-without,
}

IsBelow_weaken : (n : ℕ) (is : List ℕ) → IsBelow n is → IsBelow (suc n) is
unfolding IsBelow
IsBelow_weaken n [] h = h
IsBelow_weaken n (i ∷ is) (l, h) = (omega (arith, l), IsBelow_weaken n is h)

pub member-below : (n i : ℕ) (is : List ℕ) → member i is ≡ true → IsBelow n is → i < n
member-below n i is m h =
    let (l, k) = IsBelow-without n i (without i is) is (without-Inserted i is m) h in l

-- A board of a new id is put in, and is the active one.
pub grown-IsOrdered :
    (is js : List ℕ) (active next : ℕ)
    → Inserted next is js
    → length is < max_boards
    → IsOrdered is active next
    → IsOrdered js next (suc next)
grown-IsOrdered is js active next p few h = record {
  below = IsBelow-Inserted (suc next) next is js p (omega arith) (IsBelow_weaken next is h.below);
  distinct = IsDistinct-Inserted next is js p (member-IsBelow next is h.below) h.distinct;
  few = rw (length-Inserted next is js p) (omega (arith, few));
  holds_active = member-Inserted next next is js p ∙ (rw (==_self next) refl);
}

-- A board is taken away, and the active one is among the others.
pub shrunk-IsOrdered :
    (i : ℕ) (is js : List ℕ) (active new next : ℕ)
    → Inserted i is js
    → member new is ≡ true
    → IsOrdered js active next
    → IsOrdered is new next
shrunk-IsOrdered i is js active new next p m h =
    let (l, below) = IsBelow-without next i is js p h.below in
    let (n, distinct) = IsDistinct-without i is js p h.distinct in
    let longer = length-Inserted i is js p in
    let fits = h.few in
    record {
      below = below;
      distinct = distinct;
      few = omega (arith, longer, fits);
      holds_active = m;
    }

-- A board stands at another place.
pub moved-IsOrdered :
    (i : ℕ) (is js ks : List ℕ) (active next : ℕ)
    → Inserted i is js
    → Inserted i is ks
    → IsOrdered js active next
    → IsOrdered ks active next
moved-IsOrdered i is js ks active next p q h =
    let (l, below) = IsBelow-without next i is js p h.below in
    let (n, distinct) = IsDistinct-without i is js p h.distinct in
    let longer = length-Inserted i is js p in
    let fits = h.few in
    record {
      below = IsBelow-Inserted next i is ks q l below;
      distinct = IsDistinct-Inserted i is ks q n distinct;
      few = rw (length-Inserted i is ks q) (omega (arith, longer, fits));
      holds_active =
          member-Inserted i active is ks q
          ∙ (sym (member-Inserted i active is js p) ∙ h.holds_active);
    }

pub alone-IsOrdered : (i next : ℕ) → i < next → IsOrdered (i ∷ []) i next
unfolding IsBelow IsDistinct member
alone-IsOrdered i next l = record {
  below = (l, tt);
  distinct = (refl, tt);
  few = omega arith;
  holds_active = rw (==_self i) refl;
}
