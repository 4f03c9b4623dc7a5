-- ===== src/Store/Changes.antt =====
-- Every method of the store keeps its rows owned.
use gowui.Base.{
  utf8_length, ℕ, ◌≡◌, subst, true, ◌||◌, [], ◌∷◌, ◌++◌, Option, none, some, arith, length, ◌==◌,
  ltb, Bool-cases, inl, inr, Text, equal, Result, ok, err, ok-injective,
}
use gowui.Hashes.{HashError}
use gowui.Store.{
  User, Login, Saved, Aside, Db, UserExists, Verified, Hasher, Json, select, delete, exists, first,
  local_key, named, has_id, has_account, may_save, add_user, set_password, set_found,
  changed_password, update_password, remove_user, remove_found, check_password, check_found,
  replaced_hash, replace_password, is_current, expired, has_token, purge_logins, open_login,
  close_login, save_state, save_preferences, asides, move_aside, saved_for, load_state, load_row,
  loaded, snapshot_cap,
}
use gowui.Store.Rows.{Every-delete, Every-snoc, Every-append, exists_mono}
use gowui.Store.Owned.{
  IsOwned, keeps-IsOwned, snoc-Keeps, update_password-Keeps, replace_password-Keeps,
  removed-IsOwned, delete_logins-IsOwned, upsert-Every, asides-Every,
}

module _ (token_hash : Text → Text) (h : Hasher) {D : Type 0} (loads : Text → Json D) where
  -- One call of a method on the database.
  pub data Change : Db → Db → Type 0 where
    adds :
        (db : Db) (id name hashed : Text) (now : ℕ) (db' : Db)
        → add_user id name hashed now db ≡ ok db'
        → Change db db'
    sets : (db : Db) (name hashed : Text) → Change db (set_password name hashed db).1
    removes : (db : Db) (name : Text) → Change db (remove_user name db).1
    checks :
        (before db : Db) (name password salt : Text)
        → Change db (check_password h name password salt before db).1
    opens :
        (db : Db) (v : Verified) (token : Text) (now seconds : ℕ)
        → Change db (open_login token_hash v token now seconds db).1
    purges : (db : Db) (now : ℕ) → Change db (purge_logins now db)
    closes : (db : Db) (token : Text) → Change db (close_login token_hash token db)
    saves : (db : Db) (key text : Text) (now : ℕ) → Change db (save_state key text now db)
    prefers : (db : Db) (key text : Text) (now : ℕ) → Change db (save_preferences key text now db)
    puts_aside : (db : Db) (key reason : Text) (now : ℕ) → Change db (move_aside key reason now db)
    reads : (db : Db) (key : Text) (now : ℕ) → Change db (load_state loads key now db).1

  pub data Reach (db : Db) : Db → Type 0 where
    start : Reach db db
    next : {a b : Db} → Reach db a → Change a b → Reach db b

add_user-IsOwned :
    (db : Db) (id name hashed : Text) (now : ℕ) (db' : Db)
    → add_user id name hashed now db ≡ ok db'
    → IsOwned db
    → IsOwned db'
unfolding add_user
add_user-IsOwned db id name hashed now db' e o =
    elim (Bool-cases (exists (λ u. has_id id u || named name u) db.users)) [
      | inl y ↦ absurd (refused (rw y at e))
      | inr n ↦ subst IsOwned (ok-injective (rw n at e)) (
          keeps-IsOwned
            (db.users ++ record { id = id; name = name; password = hashed; created = now } ∷ []) db
            (snoc-Keeps db.users _) o)
    ]
  where
    refused : {x : UserExists} {d : Db} → ◌≡◌ {A = Result UserExists Db} (err x) (ok d) → ⊥
    refused e = cc

changed_password-IsOwned :
    (id hashed : Text) (db : Db) → IsOwned db → IsOwned (changed_password id hashed db)
changed_password-IsOwned id hashed db o =
    delete_logins-IsOwned _ (record db { users = update_password id hashed db.users })
      (keeps-IsOwned (update_password id hashed db.users) db
        (update_password-Keeps id hashed db.users) o)

set_found-IsOwned :
    (hashed : Text) (db : Db) (u : Option User) → IsOwned db → IsOwned (set_found hashed db u).1
set_found-IsOwned hashed db none o = o
set_found-IsOwned hashed db (some u) o =
    elim (Bool-cases (length (select (has_id u.id) db.users) == 1)) [
      | inl y ↦ rw y (changed_password-IsOwned u.id hashed db o)
      | inr n ↦ rw n o
    ]

remove_found-IsOwned : (db : Db) (u : Option User) → IsOwned db → IsOwned (remove_found db u).1
remove_found-IsOwned db none o = o
remove_found-IsOwned db (some u) o =
    elim (Bool-cases (length (select (has_id u.id) db.users) == 1)) [
      | inl y ↦ rw y (removed-IsOwned u.id db o)
      | inr n ↦ rw n o
    ]

replaced_hash-IsOwned :
    (r : Result HashError Text) (u : User) (db : Db) → IsOwned db → IsOwned (replaced_hash r u db).1
replaced_hash-IsOwned (err e) u db o = o
replaced_hash-IsOwned (ok new) u db o =
    keeps-IsOwned (replace_password u.id u.name u.password new db.users) db
      (replace_password-Keeps u.id u.name u.password new db.users) o

check_found-IsOwned :
    (h : Hasher) (password salt : Text) (db : Db) (u : Option User)
    → IsOwned db
    → IsOwned (check_found h password salt db u).1
check_found-IsOwned h password salt db none o = o
check_found-IsOwned h password salt db (some u) o =
    elim (Bool-cases (h.verify password u.password)) [
      | inr n ↦ rw n o
      | inl y ↦ elim (Bool-cases (h.needs_rehash u.password)) [
        | inr n ↦ rw (y, n) o
        | inl z ↦ rw (y, z) (replaced_hash-IsOwned (h.hash salt password) u db o)
      ]
    ]

is_current-id :
    (id name password : Text) (u : User)
    → is_current id name password u ≡ true
    → equal (local_key u.id) (local_key id) ≡ true
unfolding equal
is_current-id id name password u e = ground arith

open_login-IsOwned :
    (th : Text → Text) (v : Verified) (token : Text) (now seconds : ℕ) (db : Db)
    → IsOwned db
    → IsOwned (open_login th v token now seconds db).1
unfolding open_login
open_login-IsOwned th v token now seconds db o =
    let cut = delete_logins-IsOwned (expired now) db o in
    elim (Bool-cases (exists (is_current v.account_id v.name v.password_hash) db.users)) [
      | inr n ↦ rw n cut
      | inl y ↦ rw y (record {
        owned_logins =
            Every-snoc (λ (l : Login). has_account db.users l.account)
              (delete (expired now) db.logins) _ cut.owned_logins
              (exists_mono (is_current v.account_id v.name v.password_hash)
                (λ (u : User). equal (local_key u.id) (local_key v.account_id)) db.users
                (λ u. is_current-id v.account_id v.name v.password_hash u) y);
        owned_states = cut.owned_states;
        owned_preferences = cut.owned_preferences;
        owned_asides = cut.owned_asides;
      })
    ]

close_login-IsOwned :
    (th : Text → Text) (token : Text) (db : Db) → IsOwned db → IsOwned (close_login th token db)
unfolding close_login
close_login-IsOwned th [] db o = o
close_login-IsOwned th (c ∷ cs) db o = delete_logins-IsOwned (has_token (th (c ∷ cs))) db o

save_state-IsOwned :
    (key text : Text) (now : ℕ) (db : Db) → IsOwned db → IsOwned (save_state key text now db)
unfolding save_state
save_state-IsOwned key text now db o = elim (Bool-cases (may_save key db.users)) [
  | inr n ↦ rw n o
  | inl y ↦ rw y (record {
    owned_logins = o.owned_logins;
    owned_states = upsert-Every db.users key text now db.states y o.owned_states;
    owned_preferences = o.owned_preferences;
    owned_asides = o.owned_asides;
  })
]

save_preferences-IsOwned :
    (key text : Text) (now : ℕ) (db : Db) → IsOwned db → IsOwned (save_preferences key text now db)
unfolding save_preferences
save_preferences-IsOwned key text now db o = elim (Bool-cases (may_save key db.users)) [
  | inr n ↦ rw n o
  | inl y ↦ rw y (record {
    owned_logins = o.owned_logins;
    owned_states = o.owned_states;
    owned_preferences = upsert-Every db.users key text now db.preferences y o.owned_preferences;
    owned_asides = o.owned_asides;
  })
]

move_aside-IsOwned :
    (key reason : Text) (now : ℕ) (db : Db) → IsOwned db → IsOwned (move_aside key reason now db)
unfolding move_aside
move_aside-IsOwned key reason now db o =
    let saved = λ (s : Saved). may_save s.account db.users in
    record {
      owned_logins = o.owned_logins;
      owned_states = Every-delete saved saved (saved_for key) db.states (λ s n h. h) o.owned_states;
      owned_preferences = o.owned_preferences;
      owned_asides =
          Every-append (λ (a : Aside). may_save a.account db.users) db.set_aside
            (asides key reason now db.states) o.owned_asides
            (asides-Every db.users key reason now db.states o.owned_states);
    }

module _ (th : Text → Text) (h : Hasher) {D : Type 0} (loads : Text → Json D) where
  load_row-IsOwned :
      (key : Text) (now : ℕ) (db : Db) (s : Option Saved)
      → IsOwned db
      → IsOwned (load_row loads key now db s).1
  load_row-IsOwned key now db none o = o
  load_row-IsOwned key now db (some s) o =
      elim (Bool-cases (ltb snapshot_cap (utf8_length s.text))) [
        | inl y ↦ rw y (move_aside-IsOwned key _ now db o)
        | inr n ↦ rw n (of_json (loads s.text))
      ]
    where
      of_json : (j : Json D) → IsOwned (loaded loads key now db j).1
      of_json (Json.object d) = o
      of_json Json.invalid = move_aside-IsOwned key _ now db o
      of_json Json.not_object = move_aside-IsOwned key _ now db o

  Change-IsOwned : {db db' : Db} → IsOwned db → Change th h loads db db' → IsOwned db'
  unfolding set_password remove_user check_password purge_logins load_state
  Change-IsOwned o (adds db id name hashed now db' e) =
      add_user-IsOwned db id name hashed now db' e o
  Change-IsOwned o (sets db name hashed) =
      set_found-IsOwned hashed db (first (named name) db.users) o
  Change-IsOwned o (removes db name) = remove_found-IsOwned db (first (named name) db.users) o
  Change-IsOwned o (checks before db name password salt) =
      check_found-IsOwned h password salt db (first (named name) before.users) o
  Change-IsOwned o (opens db v token now seconds) = open_login-IsOwned th v token now seconds db o
  Change-IsOwned o (purges db now) = delete_logins-IsOwned (expired now) db o
  Change-IsOwned o (closes db token) = close_login-IsOwned th token db o
  Change-IsOwned o (saves db key text now) = save_state-IsOwned key text now db o
  Change-IsOwned o (prefers db key text now) = save_preferences-IsOwned key text now db o
  Change-IsOwned o (puts_aside db key reason now) = move_aside-IsOwned key reason now db o
  Change-IsOwned o (reads db key now) =
      load_row-IsOwned key now db (first (saved_for key) db.states) o

  -- Whatever methods are called from a database whose rows are owned, in whatever order, and with
  -- password checks that read an older database than they update, its rows stay owned.
  pub reachable-IsOwned : {db db' : Db} → IsOwned db → Reach th h loads db db' → IsOwned db'
  reachable-IsOwned o start = o
  reachable-IsOwned o (next r c) = Change-IsOwned (reachable-IsOwned o r) c
