-- ===== src/Throttle.antt =====
-- gowui/server_mode.py, `LoginThrottle`: sign-in attempts in a sliding window, per client and name, per
-- client, and per name. Times are numbers of a clock tick; `throttle_client`, which reads IP
-- addresses, is a parameter.
pub mod Window
pub mod Budget
use gowui.Base.{
  ℕ, zero, suc, ◌+◌, ◌-◌, ◌≡◌, ◌↔◌, Bool, true, false, not, ◌&&◌, ◌||◌, List, [], ◌∷◌, ◌++◌, Option,
  none, some, ltb, leb, ◌==◌, if◌then◌else◌, length, take, Text, equal, equal_iff, Eq, lookup,
  insert, erase, text_eq, is_some, arith,
}

abbrev pub Pair : Type 0
Pair = Text × Text

abbrev pub same_pair : Pair → Pair → Bool
same_pair a b = equal (a.0) (b.0) && equal (a.1) (b.1)

pub same_pair_iff : (a b : Pair) → (same_pair a b ≡ true) ↔ (a ≡ b)
same_pair_iff a b = ground (arith, equal_iff (a.0) (b.0), equal_iff (a.1) (b.1))

instance abbrev pub pair_eq : Eq Pair
pair_eq = record { same = same_pair; same_iff = same_pair_iff }

-- The stamps whose age is less than the window.
unfoldable pub fresh : ℕ → ℕ → List ℕ → List ℕ
fresh window now [] = []
fresh window now (t ∷ ts) =
    if ltb (now - t) window then t ∷ fresh window now ts else fresh window now ts

-- `table.get(key, ())`.
abbrev pub stamps_of : Option (List ℕ) → List ℕ
stamps_of none = []
stamps_of (some ts) = ts

abbrev pub is_none_left : List ℕ → Bool
is_none_left [] = true
is_none_left (t ∷ ts) = false

-- `stamps.remove(slot)`: the first one.
unfoldable pub remove_stamp : ℕ → List ℕ → List ℕ
remove_stamp slot [] = []
remove_stamp slot (t ∷ ts) = if t == slot then ts else t ∷ remove_stamp slot ts

unfoldable pub has_stamp : ℕ → List ℕ → Bool
has_stamp slot [] = false
has_stamp slot (t ∷ ts) = t == slot || has_stamp slot ts

abbrev pub Table : Type 0 → Type 0
Table K = List (K × List ℕ)

unfoldable pub keys : {K : Type 0} → Table K → List K
keys [] = []
keys (p ∷ ps) = p.0 ∷ keys ps

module _ {K : Type 0} ⦃e : Eq K⦄ where
  unfoldable pub get_stamps : K → Table K → List ℕ
  get_stamps key table = stamps_of (lookup key table)

  -- What `_live` returns, and the table that it leaves.
  unfoldable pub live : ℕ → ℕ → K → Table K → List ℕ
  live window now key table = fresh window now (get_stamps key table)

  abbrev pub kept : K → List ℕ → Table K → Table K
  kept key [] table = erase key table
  kept key (t ∷ ts) table = insert key (t ∷ ts) table

  unfoldable pub after_live : ℕ → ℕ → K → Table K → Table K
  after_live window now key table = kept key (live window now key table) table

  unfoldable pub purge_keys : ℕ → ℕ → List K → Table K → Table K
  purge_keys window now [] table = table
  purge_keys window now (k ∷ ks) table = purge_keys window now ks (after_live window now k table)

  -- `_purge` of one table.
  unfoldable pub purge : ℕ → ℕ → Table K → Table K
  purge window now table = purge_keys window now (keys table) table

  abbrev pub has_room : ℕ → K → Table K → Bool
  has_room max_entries key table = is_some (lookup key table) || ltb (length table) max_entries

  -- `table.setdefault(key, []).append(now)`.
  unfoldable pub append_stamp : K → ℕ → Table K → Table K
  append_stamp key now table = insert key (get_stamps key table ++ now ∷ []) table

  abbrev pub released : ℕ → K → Table K → Option (List ℕ) → Table K
  released slot key table none = table
  released slot key table (some ts) =
      if has_stamp slot ts
      then (if is_none_left (remove_stamp slot ts)
          then erase key table
          else insert key (remove_stamp slot ts) table)
      else table

  -- What `succeeded` does to the table of clients and to that of names.
  unfoldable pub release : ℕ → K → Table K → Table K
  release slot key table = released slot key table (lookup key table)

pub record Limits : Type 0 where
  pub window : ℕ
  pub per_name : ℕ
  pub per_client : ℕ
  pub per_account : ℕ
  pub max_entries : ℕ

pub record Throttle : Type 0 where
  pub names : List (Pair × List ℕ)
  pub clients : List (Text × List ℕ)
  pub accounts : List (Text × List ℕ)

abbrev pub purge_all : ℕ → ℕ → Throttle → Throttle
purge_all window now s = record {
  names = purge window now s.names;
  clients = purge window now s.clients;
  accounts = purge window now s.accounts;
}

-- `_room`: the answer, and the throttle that it leaves.
abbrev pub room :
    {K : Type 0} ⦃e : Eq K⦄
    → Limits
    → ℕ
    → (Throttle → List (K × List ℕ))
    → K
    → Throttle
    → Bool × Throttle
room l now table key s =
    if has_room l.max_entries key (table s)
    then (true, s)
    else let s' = purge_all l.window now s in (has_room l.max_entries key (table s'), s')

abbrev pub name_key : Text → Text
name_key name = take 64 name

abbrev pub granted : ℕ → Text → Text → Throttle → Option ℕ × Throttle
granted now client name s = (
  some now,
  record {
    names = append_stamp (client, name) now s.names;
    clients = append_stamp client now s.clients;
    accounts = append_stamp name now s.accounts;
  },
)

abbrev pub refused : Throttle → Option ℕ × Throttle
refused s = (none, s)

abbrev pub on_room : Bool × Throttle → (Throttle → Option ℕ × Throttle) → Option ℕ × Throttle
on_room (true, s) next = next s
on_room (false, s) next = refused s

abbrev pub room_for : Limits → ℕ → Text → Text → Throttle → Option ℕ × Throttle
room_for l now client name s = on_room (room l now (λ t. t.names) (client, name) s) (λ s.
    on_room (room l now (λ t. t.clients) client s)
      (λ s. on_room (room l now (λ t. t.accounts) name s) (granted now client name)))

abbrev pub seen_names : Limits → ℕ → Text → Text → Throttle → Throttle
seen_names l now client name s = record s { names = after_live l.window now (client, name) s.names }

abbrev pub seen_clients : Limits → ℕ → Text → Text → Throttle → Throttle
seen_clients l now client name s = record s { clients = after_live l.window now client s.clients }

abbrev pub seen_accounts : Limits → ℕ → Text → Text → Throttle → Throttle
seen_accounts l now client name s = record s { accounts = after_live l.window now name s.accounts }

-- The body of `reserve`, on the keys, at the time `now`.
unfoldable pub reserve_keys : Limits → ℕ → Text → Text → Throttle → Option ℕ × Throttle
reserve_keys l now client name s =
    let s1 = seen_names l now client name s in
    let s2 = seen_clients l now client name s1 in
    let s3 = seen_accounts l now client name s2 in
    if leb l.per_name (length (live l.window now (client, name) s.names))
    then refused s1
    else if leb l.per_client (length (live l.window now client s1.clients))
    then refused s2
    else if leb l.per_account (length (live l.window now name s2.accounts))
    then refused s3
    else room_for l now client name s3

module _ (throttle_client : Text → Text) where
  unfoldable pub reserve : Limits → ℕ → Text → Text → Throttle → Option ℕ × Throttle
  reserve l now client name s = reserve_keys l now (throttle_client client) (name_key name) s

  unfoldable pub succeeded : Text → Text → ℕ → Throttle → Throttle
  succeeded client name slot s = record {
    names = erase (throttle_client client, name_key name) s.names;
    clients = release slot (throttle_client client) s.clients;
    accounts = release slot (name_key name) s.accounts;
  }
