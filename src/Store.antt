-- ===== src/Store.antt =====
-- gowui/store.py: the server database as a value. A statement is a function on it; a method that
-- runs several outside one transaction takes the database at each.
pub mod Rows
pub mod Owned
pub mod Changes
pub mod Passwords
pub mod Logins
use gowui.Base.{
  utf8_length, ℕ, zero, suc, ◌+◌, ◌-◌, Bool, true, false, not, ◌&&◌, ◌||◌, List, [], ◌∷◌, ◌++◌,
  Option, none, some, ltb, leb, ◌==◌, if◌then◌else◌, length, Text, codes, equal, within, strip,
  Result, ok, err,
}
use gowui.Hashes.{HashError, Scrypt, hash, verify, needs_rehash}

abbrev pub max_name : ℕ
max_name = 64

abbrev pub min_password : ℕ
min_password = 8

abbrev pub max_password : ℕ
max_password = 256

abbrev pub snapshot_cap : ℕ
snapshot_cap = 403701760

abbrev pub preferences_cap : ℕ
preferences_cap = 131072

pub record User : Type 0 where
  pub id : Text
  pub name : Text
  pub password : Text
  pub created : ℕ

pub record Login : Type 0 where
  pub token_hash : Text
  pub account : Text
  pub expires : ℕ

-- A row of `states` or of `preferences`.
pub record Saved : Type 0 where
  pub account : Text
  pub text : Text
  pub updated : ℕ

pub record Aside : Type 0 where
  pub account : Text
  pub snapshot : Text
  pub reason : Text
  pub at : ℕ

pub record Db : Type 0 where
  pub users : List User
  pub logins : List Login
  pub states : List Saved
  pub preferences : List Saved
  pub set_aside : List Aside

pub data UserExists : Type 0 where
  user_exists : Text → UserExists

abbrev pub local_prefix : Text
local_prefix = codes "local:"

abbrev pub local_key : Text → Text
local_key id = local_prefix ++ id

-- `str.startswith`.
unfoldable pub starts_with : Text → Text → Bool
starts_with [] t = true
starts_with (p ∷ ps) [] = false
starts_with (p ∷ ps) (c ∷ cs) = p == c && starts_with ps cs

-- The rows that a condition holds of, those it does not hold of, and whether there is one.
unfoldable pub select {ℓ} : {A : Type ℓ} → (A → Bool) → List A → List A
select p [] = []
select p (x ∷ xs) = if p x then x ∷ select p xs else select p xs

unfoldable pub delete {ℓ} : {A : Type ℓ} → (A → Bool) → List A → List A
delete p [] = []
delete p (x ∷ xs) = if p x then delete p xs else x ∷ delete p xs

unfoldable pub exists {ℓ} : {A : Type ℓ} → (A → Bool) → List A → Bool
exists p [] = false
exists p (x ∷ xs) = p x || exists p xs

unfoldable pub first {ℓ} : {A : Type ℓ} → (A → Bool) → List A → Option A
first p [] = none
first p (x ∷ xs) = if p x then some x else first p xs

abbrev pub named : Text → User → Bool
named name u = equal u.name name

abbrev pub has_id : Text → User → Bool
has_id id u = equal u.id id

abbrev pub of_account : Text → Login → Bool
of_account key l = equal l.account key

abbrev pub saved_for : Text → Saved → Bool
saved_for key s = equal s.account key

abbrev pub aside_for : Text → Aside → Bool
aside_for key a = equal a.account key

-- `add_user`, with the random id, the hash and the time.
unfoldable pub add_user : Text → Text → Text → ℕ → Db → Result UserExists Db
add_user id name hashed now db =
    if exists (λ u. has_id id u || named name u) db.users
    then err (user_exists name)
    else ok (record db {
      users = db.users ++ record { id = id; name = name; password = hashed; created = now } ∷ [];
    })

abbrev pub with_password : Text → Text → User → User
with_password id hashed u = if has_id id u then record u { password = hashed } else u

unfoldable pub update_password : Text → Text → List User → List User
update_password id hashed [] = []
update_password id hashed (u ∷ us) = with_password id hashed u ∷ update_password id hashed us

abbrev pub changed_password : Text → Text → Db → Db
changed_password id hashed db = record db {
  users = update_password id hashed db.users;
  logins = delete (of_account (local_key id)) db.logins;
}

-- `set_password`, with the new hash: the transaction is rolled back unless one row changes.
abbrev pub set_found : Text → Db → Option User → Bool × Db
set_found hashed db none = (false, db)
set_found hashed db (some u) =
    if length (select (has_id u.id) db.users) == 1
    then (true, changed_password u.id hashed db)
    else (false, db)

unfoldable pub set_password : Text → Text → Db → Bool × Db
set_password name hashed db = set_found hashed db (first (named name) db.users)

abbrev pub removed : Text → Db → Db
removed id db =
    let key = local_key id in
    record {
      users = delete (has_id id) db.users;
      logins = delete (of_account key) db.logins;
      states = delete (saved_for key) db.states;
      preferences = delete (saved_for key) db.preferences;
      set_aside = delete (aside_for key) db.set_aside;
    }

abbrev pub remove_found : Db → Option User → Bool × Db
remove_found db none = (false, db)
remove_found db (some u) =
    if length (select (has_id u.id) db.users) == 1 then (true, removed u.id db) else (false, db)

unfoldable pub remove_user : Text → Db → Bool × Db
remove_user name db = remove_found db (first (named name) db.users)

pub record Verified : Type 0 where
  pub account_id : Text
  pub name : Text
  pub password_hash : Text

-- `hasher`, any of them: `hash` of a password with its salt, which may raise, `verify`, and
-- `needs_rehash`, false for a hasher that has none.
pub record Hasher : Type 0 where
  pub hash : Text → Text → Result HashError Text
  pub verify : Text → Text → Bool
  pub needs_rehash : Text → Bool

abbrev pub is_current : Text → Text → Text → User → Bool
is_current id name password u = equal u.id id && equal u.name name && equal u.password password

-- The UPDATE of `check_password`: it touches the row only while its hash is still the old one.
unfoldable pub replace_password : Text → Text → Text → Text → List User → List User
replace_password id name old new [] = []
replace_password id name old new (u ∷ us) =
    (if is_current id name old u then record u { password = new } else u)
    ∷ replace_password id name old new us

abbrev pub verified_user : User → Text → Verified
verified_user u hashed = record { account_id = u.id; name = u.name; password_hash = hashed }

abbrev pub replaced_hash :
    Result HashError Text → User → Db → Result HashError (Option Verified) × Db
replaced_hash (err e) u db = (err e, db)
replaced_hash (ok new) u db =
    let current = is_current u.id u.name u.password in
    (
      ok (
          some
            (verified_user u (if length (select current db.users) == 1 then new else u.password))),
      record db { users = replace_password u.id u.name u.password new db.users },
    )

abbrev pub rehashed : Hasher → Text → Text → User → Db → Result HashError (Option Verified) × Db
rehashed h password salt u db =
    if h.needs_rehash u.password
    then replaced_hash (h.hash salt password) u db
    else (ok (some (verified_user u u.password)), db)

abbrev pub check_found :
    Hasher → Text → Text → Db → Option User → Result HashError (Option Verified) × Db
check_found h password salt db none = (ok none, db)
check_found h password salt db (some u) =
    if h.verify password u.password then rehashed h password salt u db else (ok none, db)

-- `check_password`: `before` is the database that the query reads, `db` the one that the update
-- meets. It raises what `hash` raises.
unfoldable pub check_password :
    Hasher → Text → Text → Text → Db → Db → Result HashError (Option Verified) × Db
check_password h name password salt before db =
    check_found h password salt db (first (named name) before.users)

module _ (scrypt : Text → Text → ℕ → ℕ → ℕ → ℕ → Option Text) (encode : Text → Text)
    (decode decode_strict : Text → Option Text) (read_int : Text → Option ℕ) where
  -- `Scrypt`, the hasher of a `Store` that is given none.
  abbrev pub scrypt_hasher : Scrypt → Hasher
  scrypt_hasher s = record {
    hash = hash scrypt encode decode decode_strict read_int s;
    verify = verify scrypt encode decode decode_strict read_int;
    needs_rehash = needs_rehash scrypt encode decode decode_strict read_int s;
  }

abbrev pub expired : ℕ → Login → Bool
expired now l = ltb l.expires now

abbrev pub has_token : Text → Login → Bool
has_token hashed l = equal l.token_hash hashed

unfoldable pub purge_logins : ℕ → Db → Db
purge_logins now db = record db { logins = delete (expired now) db.logins }

module _ (token_hash : Text → Text) where
  -- `open_login`, with the random token and the time.
  unfoldable pub open_login : Verified → Text → ℕ → ℕ → Db → Option Text × Db
  open_login v token now seconds db =
      let kept = delete (expired now) db.logins in
      if exists (is_current v.account_id v.name v.password_hash) db.users
      then (
        some token,
        record db {
          logins =
              kept
              ++ record {
                token_hash = token_hash token;
                account = local_key v.account_id;
                expires = now + seconds;
              }
                ∷ [];
        },
      )
      else (none, record db { logins = kept })

  abbrev pub live_login : Text → ℕ → Login → Bool
  live_login token now l = equal l.token_hash (token_hash token) && leb now l.expires

  abbrev pub joined : Db → Option Login → Option (Text × Text)
  joined db none = none
  joined db (some l) =
      elim (first (λ u. equal l.account (local_key u.id)) db.users) as (λ o. Option (Text × Text)) [
        | none ↦ none
        | some u ↦ some (l.account, u.name)
      ]

  -- `login_account`: the token hash is the primary key, so one login at most can match.
  unfoldable pub login_account : Text → ℕ → Db → Option (Text × Text)
  login_account [] now db = none
  login_account (c ∷ cs) now db = joined db (first (live_login (c ∷ cs) now) db.logins)

  unfoldable pub close_login : Text → Db → Db
  close_login [] db = db
  close_login (c ∷ cs) db = record db {
    logins = delete (has_token (token_hash (c ∷ cs))) db.logins;
  }

-- The upsert of a saved text: an existing row is updated, else one is added.
unfoldable pub upsert : Text → Text → ℕ → List Saved → List Saved
upsert key text now [] = record { account = key; text = text; updated = now } ∷ []
upsert key text now (s ∷ ss) =
    if saved_for key s
    then record s { text = text; updated = now } ∷ ss
    else s ∷ upsert key text now ss

-- Whether an account has the key, and whether a row may be written under the key: a local one needs
-- its account.
abbrev pub has_account : List User → Text → Bool
has_account users key = exists (λ u. equal (local_key u.id) key) users

unfoldable pub may_save : Text → List User → Bool
may_save key users = if starts_with local_prefix key then has_account users key else true

unfoldable pub save_state : Text → Text → ℕ → Db → Db
save_state key text now db =
    if may_save key db.users then record db { states = upsert key text now db.states } else db

unfoldable pub save_preferences : Text → Text → ℕ → Db → Db
save_preferences key text now db =
    if may_save key db.users
    then record db { preferences = upsert key text now db.preferences }
    else db

unfoldable pub asides : Text → Text → ℕ → List Saved → List Aside
asides key reason now [] = []
asides key reason now (s ∷ ss) =
    if saved_for key s
    then record { account = s.account; snapshot = s.text; reason = reason; at = now }
      ∷ asides key reason now ss
    else asides key reason now ss

-- `_move_aside`, which `set_aside` is.
unfoldable pub move_aside : Text → Text → ℕ → Db → Db
move_aside key reason now db = record db {
  set_aside = db.set_aside ++ asides key reason now db.states;
  states = delete (saved_for key) db.states;
}

-- What `json.loads` and the test for an object make of a text.
pub data Json (D : Type 0) : Type 0 where
  invalid not_object : Json D
  object : D → Json D

module _ {D : Type 0} (loads : Text → Json D) where
  abbrev pub loaded : Text → ℕ → Db → Json D → Option D × Db
  loaded key now db (Json.object d) = (some d, db)
  loaded key now db Json.invalid = (none, move_aside key (codes "is not valid JSON") now db)
  loaded key now db Json.not_object = (none, move_aside key (codes "is not a JSON object") now db)

  abbrev pub load_row : Text → ℕ → Db → Option Saved → Option D × Db
  load_row key now db none = (none, db)
  load_row key now db (some s) =
      if ltb snapshot_cap (utf8_length s.text)
      then (none, move_aside key (codes "is larger than 403701760 bytes") now db)
      else loaded key now db (loads s.text)

  unfoldable pub load_state : Text → ℕ → Db → Option D × Db
  load_state key now db = load_row key now db (first (saved_for key) db.states)

  abbrev pub object_of : Json D → Option D
  object_of (Json.object d) = some d
  object_of Json.invalid = none
  object_of Json.not_object = none

  unfoldable pub load_preferences : Text → Db → Option D
  load_preferences key db = elim (first (saved_for key) db.preferences) as (λ o. Option D) [
    | none ↦ none
    | some s ↦ if ltb preferences_cap (utf8_length s.text) then none else object_of (loads s.text)
  ]
