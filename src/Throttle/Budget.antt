-- ===== src/Throttle/Budget.antt =====
-- What one attempt to sign in takes from the three budgets.
use gowui.Base.{
  ℕ, ◌≤◌, ◌<◌, ◌≡◌, refl, ap, ◌∙◌, Bool, true, false, List, [], ◌∷◌, ◌++◌, Option, none, some,
  arith, leb, leb→le, if◌then◌else◌, length, Bool-cases, inl, inr, Text, text_eq, equal, Eq,
}
use gowui.Throttle.{
  Pair, same_pair, pair_eq, fresh, Table, live, has_room, Limits, Throttle, purge_all, room,
  granted, on_room, seen_names, seen_clients, seen_accounts, reserve_keys,
}
use gowui.Throttle.Window.{live-after_live, live-purge, live-append_stamp}

-- Every count of the second throttle is that of the first, from the time `now` on.
pub record Same (w now : ℕ) (a b : Throttle) : Type 0 where
  pub of_names : (t : ℕ) (k : Pair) → now ≤ t → live w t k b.names ≡ live w t k a.names
  pub of_clients : (t : ℕ) (k : Text) → now ≤ t → live w t k b.clients ≡ live w t k a.clients
  pub of_accounts : (t : ℕ) (k : Text) → now ≤ t → live w t k b.accounts ≡ live w t k a.accounts

Same-self : (w now : ℕ) (a : Throttle) → Same w now a a
Same-self w now a = record {
  of_names = λ t k h. refl;
  of_clients = λ t k h. refl;
  of_accounts = λ t k h. refl;
}

Same-then : (w now : ℕ) (a b c : Throttle) → Same w now a b → Same w now b c → Same w now a c
Same-then w now a b c x y = record {
  of_names = λ t k h. y.of_names t k h ∙ x.of_names t k h;
  of_clients = λ t k h. y.of_clients t k h ∙ x.of_clients t k h;
  of_accounts = λ t k h. y.of_accounts t k h ∙ x.of_accounts t k h;
}

purge_all-Same : (w now : ℕ) (s : Throttle) → Same w now s (purge_all w now s)
purge_all-Same w now s = record {
  of_names = λ t k h. live-purge w now t k s.names h;
  of_clients = λ t k h. live-purge w now t k s.clients h;
  of_accounts = λ t k h. live-purge w now t k s.accounts h;
}

module _ (l : Limits) (now : ℕ) (client name : Text) (s : Throttle) where
  seen_names-Same : Same l.window now s (seen_names l now client name s)
  seen_names-Same = record {
    of_names = λ t k h. live-after_live l.window now t (client, name) k s.names h;
    of_clients = λ t k h. refl;
    of_accounts = λ t k h. refl;
  }

  seen_clients-Same : Same l.window now s (seen_clients l now client name s)
  seen_clients-Same = record {
    of_names = λ t k h. refl;
    of_clients = λ t k h. live-after_live l.window now t client k s.clients h;
    of_accounts = λ t k h. refl;
  }

  seen_accounts-Same : Same l.window now s (seen_accounts l now client name s)
  seen_accounts-Same = record {
    of_names = λ t k h. refl;
    of_clients = λ t k h. refl;
    of_accounts = λ t k h. live-after_live l.window now t name k s.accounts h;
  }

-- One more attempt for the pair, the client and the name, and for no other key.
pub record OneMore (w now : ℕ) (client name : Text) (a b : Throttle) : Type 0 where
  pub of_names :
      (t : ℕ) (k : Pair)
      → now ≤ t
      → live w t k b.names
        ≡ live w t k a.names ++ (if same_pair (client, name) k then fresh w t (now ∷ []) else [])
  pub of_clients :
      (t : ℕ) (k : Text)
      → now ≤ t
      → live w t k b.clients
        ≡ live w t k a.clients ++ (if equal client k then fresh w t (now ∷ []) else [])
  pub of_accounts :
      (t : ℕ) (k : Text)
      → now ≤ t
      → live w t k b.accounts
        ≡ live w t k a.accounts ++ (if equal name k then fresh w t (now ∷ []) else [])

granted-OneMore :
    (w now : ℕ) (client name : Text) (a b : Throttle)
    → Same w now a b
    → OneMore w now client name a (granted now client name b).1
granted-OneMore w now client name a b x = record {
  of_names = λ t k h.
      live-append_stamp w t now (client, name) k b.names
      ∙ ap
          (λ (xs : List ℕ). xs ++ (if same_pair (client, name) k then fresh w t (now ∷ []) else []))
          (x.of_names t k h);
  of_clients = λ t k h.
      live-append_stamp w t now client k b.clients
      ∙ ap (λ (xs : List ℕ). xs ++ (if equal client k then fresh w t (now ∷ []) else []))
          (x.of_clients t k h);
  of_accounts = λ t k h.
      live-append_stamp w t now name k b.accounts
      ∙ ap (λ (xs : List ℕ). xs ++ (if equal name k then fresh w t (now ∷ []) else []))
          (x.of_accounts t k h);
}

-- Why an attempt is refused: a budget is spent, or a table is full.
pub data IsSpent (l : Limits) (now : ℕ) (client name : Text) (s s' : Throttle) : Type 0 where
  by_name :
      l.per_name ≤ length (live l.window now (client, name) s.names)
      → IsSpent l now client name s s'
  by_client :
      l.per_client ≤ length (live l.window now client s.clients) → IsSpent l now client name s s'
  by_account :
      l.per_account ≤ length (live l.window now name s.accounts) → IsSpent l now client name s s'
  names_full : l.max_entries ≤ length s'.names → IsSpent l now client name s s'
  clients_full : l.max_entries ≤ length s'.clients → IsSpent l now client name s s'
  accounts_full : l.max_entries ≤ length s'.accounts → IsSpent l now client name s s'

-- What an attempt comes to.
pub data Outcome (l : Limits) (now : ℕ) (client name : Text) (s : Throttle)
    : Option ℕ × Throttle → Type 0 where
  grant :
      (s' : Throttle)
      → length (live l.window now (client, name) s.names) < l.per_name
      → length (live l.window now client s.clients) < l.per_client
      → length (live l.window now name s.accounts) < l.per_account
      → OneMore l.window now client name s s'
      → Outcome l now client name s (some now, s')
  refuse :
      (s' : Throttle)
      → IsSpent l now client name s s'
      → Same l.window now s s'
      → Outcome l now client name s (none, s')

no_room :
    {K : Type 0} ⦃e : Eq K⦄ (n : ℕ) (key : K) (table : Table K)
    → has_room n key table ≡ false
    → n ≤ length table
no_room n key table h = ground (arith, h)

-- A test for room leaves the counts, and refuses only for a full table.
data Roomy (l : Limits) (now : ℕ) {K : Type 0} (table : Throttle → Table K) (s : Throttle)
    : Bool × Throttle → Type 0 where
  roomy : (s' : Throttle) → Same l.window now s s' → Roomy l now table s (true, s')
  full :
      (s' : Throttle)
      → Same l.window now s s'
      → l.max_entries ≤ length (table s')
      → Roomy l now table s (false, s')

room-Roomy :
    {K : Type 0} ⦃e : Eq K⦄ (l : Limits) (now : ℕ) (table : Throttle → Table K) (key : K)
    (s : Throttle)
    → Roomy l now table s (room l now table key s)
room-Roomy l now table key s = elim (Bool-cases (has_room l.max_entries key (table s))) [
  | inl y ↦ rw y (roomy s (Same-self l.window now s))
  | inr n ↦
      let s' = purge_all l.window now s in
      elim (Bool-cases (has_room l.max_entries key (table s'))) [
        | inl y ↦ rw n (rw y (roomy s' (purge_all-Same l.window now s)))
        | inr m ↦ rw n (
            rw m (full s' (purge_all-Same l.window now s) (no_room l.max_entries key (table s') m)))
      ]
]

module _ (l : Limits) (now : ℕ) (client name : Text) (s : Throttle)
    (n : length (live l.window now (client, name) s.names) < l.per_name)
    (c : length (live l.window now client s.clients) < l.per_client)
    (a : length (live l.window now name s.accounts) < l.per_account) where
  abbrev w : ℕ
  w = l.window

  third :
      (b : Throttle) (r : Bool × Throttle)
      → Same w now s b
      → Roomy l now (λ t. t.accounts) b r
      → Outcome l now client name s (on_room r (granted now client name))
  third b r x (roomy s' y) =
      grant (granted now client name s').1 n c a
        (granted-OneMore w now client name s s' (Same-then w now s b s' x y))
  third b r x (full s' y f) = refuse s' (IsSpent.accounts_full f) (Same-then w now s b s' x y)

  abbrev accounts_room : Throttle → Option ℕ × Throttle
  accounts_room t = on_room (room l now (λ t. t.accounts) name t) (granted now client name)

  second :
      (b : Throttle) (r : Bool × Throttle)
      → Same w now s b
      → Roomy l now (λ t. t.clients) b r
      → Outcome l now client name s (on_room r accounts_room)
  second b r x (roomy s' y) =
      third s' (room l now (λ t. t.accounts) name s') (Same-then w now s b s' x y)
        (room-Roomy l now (λ t. t.accounts) name s')
  second b r x (full s' y f) = refuse s' (IsSpent.clients_full f) (Same-then w now s b s' x y)

  abbrev clients_room : Throttle → Option ℕ × Throttle
  clients_room t = on_room (room l now (λ t. t.clients) client t) accounts_room

  room_for-Outcome :
      (b : Throttle) (r : Bool × Throttle)
      → Same w now s b
      → Roomy l now (λ t. t.names) b r
      → Outcome l now client name s (on_room r clients_room)
  room_for-Outcome b r x (roomy s' y) =
      second s' (room l now (λ t. t.clients) client s') (Same-then w now s b s' x y)
        (room-Roomy l now (λ t. t.clients) client s')
  room_for-Outcome b r x (full s' y f) =
      refuse s' (IsSpent.names_full f) (Same-then w now s b s' x y)

-- An attempt is granted when each of its three budgets has room for it, and then adds its time to
-- those three and to no other; it is refused only when a budget is spent or a table is full, and then
-- changes no count, now or later.
pub reserve_keys-Outcome :
    (l : Limits) (now : ℕ) (client name : Text) (s : Throttle)
    → Outcome l now client name s (reserve_keys l now client name s)
unfolding reserve_keys
reserve_keys-Outcome l now client name s =
    let w = l.window in
    let s1 = seen_names l now client name s in
    let s2 = seen_clients l now client name s1 in
    let s3 = seen_accounts l now client name s2 in
    let to1 = seen_names-Same l now client name s in
    let to2 = Same-then w now s s1 s2 to1 (seen_clients-Same l now client name s1) in
    let to3 = Same-then w now s s2 s3 to2 (seen_accounts-Same l now client name s2) in
    elim (Bool-cases (leb l.per_name (length (live w now (client, name) s.names)))) [
      | inl y ↦ rw y (refuse s1 (IsSpent.by_name (leb→le _ _ y)) to1)
      | inr n ↦ elim (Bool-cases (leb l.per_client (length (live w now client s.clients)))) [
        | inl y ↦ rw (n, y) (refuse s2 (IsSpent.by_client (leb→le _ _ y)) to2)
        | inr m ↦ elim (Bool-cases (leb l.per_account (length (live w now name s.accounts)))) [
          | inl y ↦ rw (n, m, y) (refuse s3 (IsSpent.by_account (leb→le _ _ y)) to3)
          | inr k ↦
              rw (n, m, k)
                (room_for-Outcome l now client name s (ground (arith, n)) (ground (arith, m))
                  (ground (arith, k)) s3 (room l now (λ t. t.names) (client, name) s3) to3
                  (room-Roomy l now (λ t. t.names) (client, name) s3))
        ]
      ]
    ]
