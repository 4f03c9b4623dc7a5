-- ===== src/Store/Passwords.antt =====
-- What a change of password and a removal end, and what a password check vouches for.
use gowui.Base.{
  ℕ, ◌≡◌, ◌≢◌, refl, sym, ap, ◌∙◌, Bool, true, false, List, [], ◌∷◌, none, some, arith, length,
  ◌==◌, Bool-cases, inl, inr, Text, equal, equal_iff,
}
use gowui.Store.{
  User, Db, Verified, Hasher, select, delete, exists, first, local_key, named, has_id, of_account,
  saved_for, aside_for, with_password, update_password, changed_password, set_found, set_password,
  removed, remove_found, remove_user, is_current, open_login,
}
use gowui.Store.Rows.{exists-delete}

-- After the change every row of the account has the new hash.
current-update :
    (id name hashed old : Text) (us : List User)
    → old ≢ hashed
    → exists (is_current id name old) (update_password id hashed us) ≡ false
unfolding exists update_password
current-update id name hashed old [] d = refl
current-update id name hashed old (u ∷ us) d =
    rw (one (equal u.id id) refl) (current-update id name hashed old us d)
  where
    one :
        (b : Bool) → equal u.id id ≡ b → is_current id name old (with_password id hashed u) ≡ false
    one true e = ground (arith, e, equal_iff hashed old)
    one false e = ground (arith, e)

current-delete :
    (id name old : Text) (us : List User)
    → exists (is_current id name old) (delete (has_id id) us) ≡ false
unfolding exists delete
current-delete id name old [] = refl
current-delete id name old (u ∷ us) = elim (Bool-cases (equal u.id id)) [
  | inl y ↦ rw y (current-delete id name old us)
  | inr n ↦ rw n (rw n (current-delete id name old us))
]

open_login-stale :
    (th : Text → Text) (v : Verified) (token : Text) (now seconds : ℕ) (db : Db)
    → exists (is_current v.account_id v.name v.password_hash) db.users ≡ false
    → (open_login th v token now seconds db).0 ≡ none
unfolding open_login
open_login-stale th v token now seconds db h = rw h refl

-- Nobody is signed in to the account, and what was verified with the hash signs nobody in.
pub record IsEnded (v : Verified) (db : Db) : Type 0 where
  pub no_login : exists (of_account (local_key v.account_id)) db.logins ≡ false
  pub no_token :
      (th : Text → Text) (token : Text) (now seconds : ℕ)
      → (open_login th v token now seconds db).0 ≡ none

abbrev done : Db → Bool × Db
done db = (true, db)

set_found-done :
    (hashed : Text) (u : User) (db db' : Db)
    → set_found hashed db (some u) ≡ done db'
    → db' ≡ changed_password u.id hashed db
set_found-done hashed u db db' e = elim (Bool-cases (length (select (has_id u.id) db.users) == 1)) [
  | inl y ↦ sym (ap (λ (r : Bool × Db). r.1) (rw y at e))
  | inr n ↦ absurd (not_done (ap (λ (r : Bool × Db). r.0) (rw n at e)))
]
  where
    not_done : false ≡ true → ⊥
    not_done e = cc

-- Once `set_password` has answered `True`, the account it found has no login, and a sign-in that was
-- verified with any other hash than the new one gets no token.
pub set_password-IsEnded :
    (name hashed : Text) (v : Verified) (u : User) (db db' : Db)
    → first (named name) db.users ≡ some u
    → set_password name hashed db ≡ done db'
    → v.account_id ≡ u.id
    → v.password_hash ≢ hashed
    → IsEnded v db'
unfolding set_password
set_password-IsEnded name hashed v u db db' f e a d =
    let e' : db' ≡ changed_password u.id hashed db =
      set_found-done hashed u db db' (sym (ap (set_found hashed db) f) ∙ e) in
    let e'' = e' ∙ ap (λ (i : Text). changed_password i hashed db) (sym a) in
    rw e'' (record {
      no_login = exists-delete (of_account (local_key v.account_id)) db.logins;
      no_token = λ th token now seconds.
          open_login-stale th v token now seconds (changed_password v.account_id hashed db)
            (current-update v.account_id v.name hashed v.password_hash db.users d);
    })

-- Nothing of the account is left, and nothing that was verified for it signs anybody in.
pub record IsGone (v : Verified) (db : Db) : Type 0 where
  pub no_user : exists (has_id v.account_id) db.users ≡ false
  pub ended : IsEnded v db
  pub no_state : exists (saved_for (local_key v.account_id)) db.states ≡ false
  pub no_preferences : exists (saved_for (local_key v.account_id)) db.preferences ≡ false
  pub no_aside : exists (aside_for (local_key v.account_id)) db.set_aside ≡ false

remove_found-done :
    (u : User) (db db' : Db) → remove_found db (some u) ≡ done db' → db' ≡ removed u.id db
remove_found-done u db db' e = elim (Bool-cases (length (select (has_id u.id) db.users) == 1)) [
  | inl y ↦ sym (ap (λ (r : Bool × Db). r.1) (rw y at e))
  | inr n ↦ absurd (not_done (ap (λ (r : Bool × Db). r.0) (rw n at e)))
]
  where
    not_done : false ≡ true → ⊥
    not_done e = cc

-- Once `remove_user` has answered `True`, the account it found has no row, no login, no snapshot, no
-- preferences and no set-aside row, and a sign-in verified for it gets no token.
pub remove_user-IsGone :
    (name : Text) (v : Verified) (u : User) (db db' : Db)
    → first (named name) db.users ≡ some u
    → remove_user name db ≡ done db'
    → v.account_id ≡ u.id
    → IsGone v db'
unfolding remove_user
remove_user-IsGone name v u db db' f e a =
    let e' : db' ≡ removed u.id db =
      remove_found-done u db db' (sym (ap (remove_found db) f) ∙ e) in
    let e'' = e' ∙ ap (λ (i : Text). removed i db) (sym a) in
    let key = local_key v.account_id in
    rw e'' (record {
      no_user = exists-delete (has_id v.account_id) db.users;
      ended = record {
        no_login = exists-delete (of_account key) db.logins;
        no_token = λ th token now seconds.
            open_login-stale th v token now seconds (removed v.account_id db)
              (current-delete v.account_id v.name v.password_hash db.users);
      };
      no_state = exists-delete (saved_for key) db.states;
      no_preferences = exists-delete (saved_for key) db.preferences;
      no_aside = exists-delete (aside_for key) db.set_aside;
    })

-- What a successful check says: of the row that the query found, and of the hash handed on.
pub record IsVerified (h : Hasher) (name password : Text) (before : Db) (v : Verified)
    : Type 0 where
  pub user : User
  pub found : first (named name) before.users ≡ some user
  pub matched : h.verify password user.password ≡ true
  pub same_id : v.account_id ≡ user.id
  pub same_name : v.name ≡ name
  pub matches : h.verify password v.password_hash ≡ true
