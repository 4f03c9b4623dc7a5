-- ===== src/Session/Places.antt =====
-- gowui/session.py: the ids of the boards after a board is added, moved or taken away.
use gowui.Base.{
  ℕ, suc, ◌≡◌, refl, sym, ap, ◌∙◌, Bool, true, false, ◌||◌, List, [], ◌∷◌, ◌++◌, some, ◌==◌,
  if◌then◌else◌, length, Bool-cases, ◌<◌, inl, inr, ==_self, ==_ne, arith, ne-of-==,
}
use gowui.Session.{Slot, find_slot}
use gowui.Session.Boards.{remove_slot, insert_after, has_id}
use gowui.Session.Shapes.{ids, member, IsBelow, IsDistinct}

eq-of-== : (a b : ℕ) → (a == b) ≡ true → a ≡ b
eq-of-== a b h = ground arith

or-false : (a b : Bool) → (a || b) ≡ false → (a ≡ false) × (b ≡ false)
or-false true b h = cc
or-false false b h = (refl, h)

pub differs : (i j : ℕ) → (i == j) ≡ false → (j == i) ≡ false
differs i j h = ==_ne j i (λ e. ne-of-== i j h (sym e))

or_swap : (a b c : Bool) → (a || (b || c)) ≡ (b || (a || c))
or_swap true true c = refl
or_swap true false c = refl
or_swap false b c = refl

-- Of lists of ids: one is taken away, one is put after another.
unfoldable pub without : ℕ → List ℕ → List ℕ
without i [] = []
without i (j ∷ js) = if j == i then js else j ∷ without i js

unfoldable pub put_after : ℕ → ℕ → List ℕ → List ℕ
put_after a i [] = []
put_after a i (j ∷ js) = if j == a then j ∷ i ∷ js else j ∷ put_after a i js

module _ {A : Type 0} where
  pub ids-remove_slot : (i : ℕ) (ss : List (Slot A)) → ids (remove_slot i ss) ≡ without i (ids ss)
  unfolding ids remove_slot without
  ids-remove_slot i [] = refl
  ids-remove_slot i (s ∷ ss) = elim (Bool-cases (s.id == i)) [
    | inl y ↦ rw y refl
    | inr n ↦ rw n (ap (◌∷◌ s.id) (ids-remove_slot i ss))
  ]

  pub ids-insert_after :
      (a : ℕ) (b : Slot A) (ss : List (Slot A))
      → ids (insert_after a b ss) ≡ put_after a b.id (ids ss)
  unfolding ids insert_after put_after
  ids-insert_after a b [] = refl
  ids-insert_after a b (s ∷ ss) = elim (Bool-cases (s.id == a)) [
    | inl y ↦ rw y refl
    | inr n ↦ rw n (ap (◌∷◌ s.id) (ids-insert_after a b ss))
  ]

  pub ids-snoc : (b : Slot A) (ss : List (Slot A)) → ids (ss ++ b ∷ []) ≡ ids ss ++ b.id ∷ []
  unfolding ids
  ids-snoc b [] = refl
  ids-snoc b (s ∷ ss) = ap (◌∷◌ s.id) (ids-snoc b ss)

  pub length-ids : (ss : List (Slot A)) → length (ids ss) ≡ length ss
  unfolding ids
  length-ids [] = refl
  length-ids (s ∷ ss) = ap suc (length-ids ss)

  pub member-find_slot :
      (i : ℕ) (ss : List (Slot A)) (b : Slot A)
      → find_slot i ss ≡ some b
      → (b.id ≡ i) × (member i (ids ss) ≡ true)
  unfolding find_slot member ids
  member-find_slot i [] b h = absurd (cc)
  member-find_slot i (s ∷ ss) b h = elim (Bool-cases (s.id == i)) [
    | inl y ↦
        let same : s ≡ b = let h1 = rw y at h in cc in
        (ap (λ (c : Slot A). c.id) (sym same) ∙ eq-of-== s.id i y, rw y refl)
    | inr n ↦ let (e, m) = member-find_slot i ss b (rw n at h) in (e, rw (n, m) refl)
  ]

  -- The counter stands above every id, so its next number is fresh.
  pub has_id-member : (i : ℕ) (ss : List (Slot A)) → has_id i ss ≡ member i (ids ss)
  unfolding has_id member ids
  has_id-member i [] = refl
  has_id-member i (s ∷ ss) = ap (λ (b : Bool). s.id == i || b) (has_id-member i ss)

pub member-IsBelow : (n : ℕ) (is : List ℕ) → IsBelow n is → member n is ≡ false
unfolding member IsBelow
member-IsBelow n [] h = refl
member-IsBelow n (i ∷ is) (l, h) =
    rw (==_ne i n (λ e. omega (arith, l, e)), member-IsBelow n is h) refl

-- The second list is the first with an id put in somewhere.
pub data Inserted (i : ℕ) : List ℕ → List ℕ → Type 0 where
  here : (is : List ℕ) → Inserted i is (i ∷ is)
  there : (j : ℕ) (is js : List ℕ) → Inserted i is js → Inserted i (j ∷ is) (j ∷ js)

pub put_after-Inserted :
    (a i : ℕ) (is : List ℕ) → member a is ≡ true → Inserted i is (put_after a i is)
unfolding member put_after
put_after-Inserted a i [] h = absurd (cc)
put_after-Inserted a i (j ∷ js) h = elim (Bool-cases (j == a)) [
  | inl y ↦ rw y (there j js (i ∷ js) (here js))
  | inr n ↦ rw n (there j js (put_after a i js) (put_after-Inserted a i js (rw n at h)))
]

pub snoc-Inserted : (i : ℕ) (is : List ℕ) → Inserted i is (is ++ i ∷ [])
snoc-Inserted i [] = here []
snoc-Inserted i (j ∷ js) = there j js (js ++ i ∷ []) (snoc-Inserted i js)

pub without-Inserted : (i : ℕ) (is : List ℕ) → member i is ≡ true → Inserted i (without i is) is
unfolding member without
without-Inserted i [] h = absurd (cc)
without-Inserted i (j ∷ js) h = elim (Bool-cases (j == i)) [
  | inl y ↦ rw (eq-of-== j i y, ==_self i) (here js)
  | inr n ↦ rw n (there j (without i js) js (without-Inserted i js (rw n at h)))
]

pub length-Inserted : (i : ℕ) (is js : List ℕ) → Inserted i is js → length js ≡ suc (length is)
length-Inserted i _ _ (here is) = refl
length-Inserted i _ _ (there j is js p) = ap suc (length-Inserted i is js p)

pub member-Inserted :
    (i k : ℕ) (is js : List ℕ) → Inserted i is js → member k js ≡ (i == k || member k is)
unfolding member
member-Inserted i k _ _ (here is) = refl
member-Inserted i k _ _ (there j is js p) =
    ap (λ (b : Bool). j == k || b) (member-Inserted i k is js p)
    ∙ or_swap (j == k) (i == k) (member k is)

pub IsBelow-Inserted :
    (n i : ℕ) (is js : List ℕ) → Inserted i is js → i < n → IsBelow n is → IsBelow n js
unfolding IsBelow
IsBelow-Inserted n i _ _ (here is) l h = (l, h)
IsBelow-Inserted n i _ _ (there j is js p) l (k, h) = (k, IsBelow-Inserted n i is js p l h)

pub IsBelow-without :
    (n i : ℕ) (is js : List ℕ) → Inserted i is js → IsBelow n js → (i < n) × IsBelow n is
unfolding IsBelow
IsBelow-without n i _ _ (here is) h = h
IsBelow-without n i _ _ (there j is js p) (k, h) =
    let (l, m) = IsBelow-without n i is js p h in (l, (k, m))

pub IsDistinct-Inserted :
    (i : ℕ) (is js : List ℕ)
    → Inserted i is js
    → member i is ≡ false
    → IsDistinct is
    → IsDistinct js
unfolding IsDistinct member
IsDistinct-Inserted i _ _ (here is) n h = (n, h)
IsDistinct-Inserted i _ _ (there j is js p) n (a, h) =
    let (k, m) = or-false (j == i) (member i is) n in
    (rw (member-Inserted i j is js p, differs j i k, a) refl, IsDistinct-Inserted i is js p m h)

pub IsDistinct-without :
    (i : ℕ) (is js : List ℕ)
    → Inserted i is js
    → IsDistinct js
    → (member i is ≡ false) × IsDistinct is
unfolding IsDistinct member
IsDistinct-without i _ _ (here is) h = h
IsDistinct-without i _ _ (there j is js p) (a, h) =
    let (k, m) = or-false (i == j) (member j is) (sym (member-Inserted i j is js p) ∙ a) in
    let (l, o) = IsDistinct-without i is js p h in (rw (differs i j k, l) refl, (m, o))
