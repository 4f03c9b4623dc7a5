-- ===== src/Throttle/Window.antt =====
-- The stamps of a key that are still in the window, and what the operations on a table do to them.
use gowui.Base.{
  ℕ, ◌-◌, ◌≤◌, ◌≡◌, refl, sym, ap, ◌∙◌, false, List, [], ◌∷◌, ◌++◌, append-nil, Option, arith, ltb,
  if◌then◌else◌, Bool-cases, inl, inr, Eq, lookup, lookup-insert, lookup-erase,
}
use gowui.Throttle.{
  fresh, stamps_of, get_stamps, live, kept, after_live, keys, purge_keys, purge, append_stamp,
}

-- Stamps that are old at one time are old later.
fresh-fresh : (w now t : ℕ) (ts : List ℕ) → now ≤ t → fresh w t (fresh w now ts) ≡ fresh w t ts
unfolding fresh
fresh-fresh w now t [] h = refl
fresh-fresh w now t (s ∷ ts) h = elim (Bool-cases (ltb (now - s) w)) [
  | inl y ↦
      rw y (ap (λ (xs : List ℕ). if ltb (t - s) w then s ∷ xs else xs) (fresh-fresh w now t ts h))
  | inr n ↦ rw (n, old n) (fresh-fresh w now t ts h)
]
  where
    old : ltb (now - s) w ≡ false → ltb (t - s) w ≡ false
    old n = ground (arith, n, h)

fresh-append : (w t : ℕ) (xs ys : List ℕ) → fresh w t (xs ++ ys) ≡ fresh w t xs ++ fresh w t ys
unfolding fresh
fresh-append w t [] ys = refl
fresh-append w t (x ∷ xs) ys = elim (Bool-cases (ltb (t - x) w)) [
  | inl y ↦ rw y (ap (λ (zs : List ℕ). x ∷ zs) (fresh-append w t xs ys))
  | inr n ↦ rw n (fresh-append w t xs ys)
]

module _ {K : Type 0} ⦃e : Eq K⦄ where
  live-kept :
      (w now t : ℕ) (key k : K) (table : List (K × List ℕ)) (ts : List ℕ)
      → live w now key table ≡ ts
      → now ≤ t
      → live w t k (kept key ts table) ≡ live w t k table
  unfolding live get_stamps
  live-kept w now t key k table [] d h = elim (Bool-cases (e.same key k)) [
    | inl y ↦
        ap (λ (o : Option (List ℕ)). fresh w t (stamps_of o)) (lookup-erase key k table)
        ∙ rw y (gone ((e.same_iff key k).0 y))
    | inr n ↦
        ap (λ (o : Option (List ℕ)). fresh w t (stamps_of o)) (lookup-erase key k table) ∙ rw n refl
  ]
    where
      gone : key ≡ k → fresh w t [] ≡ fresh w t (stamps_of (lookup k table))
      gone same =
          ap (fresh w t) (sym d)
          ∙ fresh-fresh w now t (stamps_of (lookup key table)) h
          ∙ ap (λ (j : K). fresh w t (stamps_of (lookup j table))) same
  live-kept w now t key k table (s ∷ ts) d h = elim (Bool-cases (e.same key k)) [
    | inl y ↦
        ap (λ (o : Option (List ℕ)). fresh w t (stamps_of o)) (lookup-insert key k (s ∷ ts) table)
        ∙ rw y (left ((e.same_iff key k).0 y))
    | inr n ↦
        ap (λ (o : Option (List ℕ)). fresh w t (stamps_of o)) (lookup-insert key k (s ∷ ts) table)
        ∙ rw n refl
  ]
    where
      left : key ≡ k → fresh w t (s ∷ ts) ≡ fresh w t (stamps_of (lookup k table))
      left same =
          ap (fresh w t) (sym d)
          ∙ fresh-fresh w now t (stamps_of (lookup key table)) h
          ∙ ap (λ (j : K). fresh w t (stamps_of (lookup j table))) same

  -- Looking a key up changes no count, then or later.
  pub live-after_live :
      (w now t : ℕ) (key k : K) (table : List (K × List ℕ))
      → now ≤ t
      → live w t k (after_live w now key table) ≡ live w t k table
  unfolding after_live
  live-after_live w now t key k table h =
      live-kept w now t key k table (live w now key table) refl h

  live-purge_keys :
      (w now t : ℕ) (ks : List K) (k : K) (table : List (K × List ℕ))
      → now ≤ t
      → live w t k (purge_keys w now ks table) ≡ live w t k table
  unfolding purge_keys
  live-purge_keys w now t [] k table h = refl
  live-purge_keys w now t (j ∷ ks) k table h =
      live-purge_keys w now t ks k (after_live w now j table) h
      ∙ live-after_live w now t j k table h

  -- Nor does a purge.
  pub live-purge :
      (w now t : ℕ) (k : K) (table : List (K × List ℕ))
      → now ≤ t
      → live w t k (purge w now table) ≡ live w t k table
  unfolding purge
  live-purge w now t k table h = live-purge_keys w now t (keys table) k table h

  -- A stamp is added to its key alone.
  pub live-append_stamp :
      (w t now : ℕ) (key k : K) (table : List (K × List ℕ))
      → live w t k (append_stamp key now table)
        ≡ live w t k table ++ (if e.same key k then fresh w t (now ∷ []) else [])
  unfolding live append_stamp get_stamps
  live-append_stamp w t now key k table = elim (Bool-cases (e.same key k)) [
    | inl y ↦
        ap (λ (o : Option (List ℕ)). fresh w t (stamps_of o))
          (lookup-insert key k (stamps_of (lookup key table) ++ now ∷ []) table)
        ∙ rw y (added ((e.same_iff key k).0 y))
    | inr n ↦
        ap (λ (o : Option (List ℕ)). fresh w t (stamps_of o))
          (lookup-insert key k (stamps_of (lookup key table) ++ now ∷ []) table)
        ∙ rw n (sym (append-nil (fresh w t (stamps_of (lookup k table)))))
  ]
    where
      added :
          key ≡ k
          → fresh w t (stamps_of (lookup key table) ++ now ∷ [])
            ≡ fresh w t (stamps_of (lookup k table)) ++ fresh w t (now ∷ [])
      added same =
          fresh-append w t (stamps_of (lookup key table)) (now ∷ [])
          ∙ ap (λ (j : K). fresh w t (stamps_of (lookup j table)) ++ fresh w t (now ∷ [])) same
