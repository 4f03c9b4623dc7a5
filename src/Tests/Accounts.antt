-- ===== src/Tests/Accounts.antt =====
-- A database with one account, and a throttle.
use gowui.Base.{
  ℕ, ◌≡◌, ◌≢◌, refl, ok, [], ◌∷◌, some, arith, true, false, codes, Text, equal, equal_iff,
}
use gowui.Store.{
  User, Db, Verified, Hasher, Json, set_password, remove_user, check_password, open_login,
  login_account, purge_logins, first, named, exists, select, has_token,
}
use gowui.Store.Rows.{Every}
use gowui.Store.Owned.{IsOwned}
use gowui.Store.Changes.{start, next, sets, removes, reachable-IsOwned}
use gowui.Store.Passwords.{IsEnded, set_password-IsEnded, IsGone, remove_user-IsGone}
use gowui.Store.Logins.{HasUniqueIds, open_login-login_account, login_account-purge_logins}
use gowui.Throttle.{Limits, Throttle, reserve_keys}
use gowui.Throttle.Budget.{Outcome, reserve_keys-Outcome}

abbrev ann : User
ann = record { id = codes "7f"; name = codes "ann"; password = codes "old"; created = 0 }

abbrev one_account : Db
one_account = record {
  users = ann ∷ [];
  logins = record { token_hash = codes "t0"; account = codes "local:7f"; expires = 90 } ∷ [];
  states = [];
  preferences = [];
  set_aside = [];
}

abbrev ann_verified : Verified
ann_verified = record { account_id = codes "7f"; name = codes "ann"; password_hash = codes "old" }

-- A hasher that keeps the password after its salt and a mark.
abbrev plain_hasher : Hasher
plain_hasher = record {
  hash = λ salt p. ok p;
  verify = λ p stored. equal p stored;
  needs_rehash = λ stored. false;
}

found_ann : first (named (codes "ann")) one_account.users ≡ some ann
unfolding first equal
found_ann = refl

changed :
    set_password (codes "ann") (codes "new") one_account
    ≡ (true, (set_password (codes "ann") (codes "new") one_account).1)
unfolding set_password first equal select
changed = refl

differ : false ≡ true → ⊥
differ e = cc

new_hash : ann_verified.password_hash ≢ codes "new"
unfolding equal
new_hash e = differ ((equal_iff ann_verified.password_hash (codes "new")).1 e)

set_password-IsEnded_example :
    IsEnded ann_verified (set_password (codes "ann") (codes "new") one_account).1
set_password-IsEnded_example =
    set_password-IsEnded (codes "ann") (codes "new") ann_verified ann one_account
      (set_password (codes "ann") (codes "new") one_account).1 found_ann changed refl new_hash

removed_ann :
    remove_user (codes "ann") one_account ≡ (true, (remove_user (codes "ann") one_account).1)
unfolding remove_user first equal select
removed_ann = refl

remove_user-IsGone_example : IsGone ann_verified (remove_user (codes "ann") one_account).1
remove_user-IsGone_example =
    remove_user-IsGone (codes "ann") ann_verified ann one_account
      (remove_user (codes "ann") one_account).1 found_ann removed_ann refl

one_account-IsOwned : IsOwned one_account
unfolding Every exists equal
one_account-IsOwned = record {
  owned_logins = (refl, tt);
  owned_states = tt;
  owned_preferences = tt;
  owned_asides = tt;
}

abbrev no_json : Text → Json ℕ
no_json t = Json.invalid

abbrev same_text : Text → Text
same_text t = t

reachable-IsOwned_example :
    IsOwned (remove_user (codes "ann") (set_password (codes "ann") (codes "new") one_account).1).1
reachable-IsOwned_example = reachable-IsOwned same_text plain_hasher no_json one_account-IsOwned (
    next (next start (sets one_account (codes "ann") (codes "new")))
      (removes (set_password (codes "ann") (codes "new") one_account).1 (codes "ann")))

ids_differ : HasUniqueIds one_account.users
unfolding HasUniqueIds exists
ids_differ = (refl, tt)

new_token : exists (has_token (codes "t1")) one_account.logins ≡ false
unfolding exists equal
new_token = refl

signed_in :
    open_login same_text ann_verified (codes "t1") 50 60 one_account
    ≡ (some (codes "t1"), (open_login same_text ann_verified (codes "t1") 50 60 one_account).1)
unfolding open_login exists equal
signed_in = refl

open_login-login_account_example :
    login_account same_text
      (codes "t1")
      100
      (open_login same_text ann_verified (codes "t1") 50 60 one_account).1
    ≡ some (codes "local:7f", codes "ann")
open_login-login_account_example =
    open_login-login_account same_text ann_verified b't' (b'1' ∷ []) 50 60 100 one_account
      (open_login same_text ann_verified (codes "t1") 50 60 one_account).1 ids_differ new_token
      signed_in (omega arith)

login_account-purge_logins_example :
    login_account same_text (codes "t0") 95 (purge_logins 91 one_account)
    ≡ login_account same_text (codes "t0") 95 one_account
login_account-purge_logins_example =
    login_account-purge_logins same_text (codes "t0") 91 95 one_account (omega arith)

verified_ann :
    (check_password plain_hasher (codes "ann") (codes "old") [] one_account one_account).0
    ≡ ok (some ann_verified)
unfolding check_password first equal
verified_ann = refl

abbrev limits : Limits
limits = record {
  window = 600;
  per_name = 5;
  per_client = 30;
  per_account = 20;
  max_entries = 10000;
}

abbrev unused : Throttle
unused = record { names = []; clients = []; accounts = [] }

reserve_keys-Outcome_example :
    Outcome limits 7
      (codes "192.0.2.1")
      (codes "ann")
      unused
      (reserve_keys limits 7 (codes "192.0.2.1") (codes "ann") unused)
reserve_keys-Outcome_example =
    reserve_keys-Outcome limits 7 (codes "192.0.2.1") (codes "ann") unused
