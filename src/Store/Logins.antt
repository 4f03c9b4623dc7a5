-- ===== src/Store/Logins.antt =====
-- What a sign-in token stands for.
use gowui.Base.{
  ℕ, ◌+◌, ◌≤◌, ◌≡◌, refl, sym, ap, ◌∙◌, Bool, true, false, ◌||◌, List, [], ◌∷◌, ◌++◌, Option, none,
  some, arith, Bool-cases, inl, inr, Text, equal, equal_iff, equal_self,
}
use gowui.Store.{
  User, Login, Db, Verified, delete, exists, first, local_key, has_id, is_current, expired,
  has_token, purge_logins, open_login, live_login, joined, login_account, close_login,
}
use gowui.Store.Rows.{
  first-none, first-delete, first-snoc, exists-delete, exists-none, local_key-equal,
}

-- No account id stands in two rows, as the primary key has it.
unfoldable pub HasUniqueIds : List User → Type 0
HasUniqueIds [] = Unit {0}
HasUniqueIds (u ∷ us) = (exists (has_id u.id) us ≡ false) × HasUniqueIds us

-- The join finds the row whose hash was verified.
joined-current :
    (id name hashed : Text) (us : List User)
    → HasUniqueIds us
    → exists (is_current id name hashed) us ≡ true
    → (u : User) × (first (λ u. equal (local_key id) (local_key u.id)) us ≡ some u)
      × (u.name ≡ name)
unfolding HasUniqueIds first exists
joined-current id name hashed [] w h = absurd (cc)
joined-current id name hashed (u ∷ us) (new, w) h = elim (Bool-cases (equal id u.id)) [
  | inl y ↦ (u, rw (local_key-equal id u.id) (rw y refl), named_so (first_is y new) h)
  | inr n ↦
      let (x, f, e) = joined-current id name hashed us w (later n h) in
      (x, rw (local_key-equal id u.id) (rw n f), e)
]
  where
    first_is :
        equal id u.id ≡ true
        → exists (has_id u.id) us ≡ false
        → exists (is_current id name hashed) us ≡ false
    first_is y new =
        exists-none (is_current id name hashed) (has_id u.id) us
          (λ x e. ground (arith, e, equal_iff id u.id, equal_iff x.id id, equal_iff x.id u.id)) new

    named_so :
        exists (is_current id name hashed) us ≡ false
        → (is_current id name hashed u || exists (is_current id name hashed) us) ≡ true
        → u.name ≡ name
    named_so a b = ground (arith, a, b, equal_iff u.name name)

    later :
        equal id u.id ≡ false
        → (is_current id name hashed u || exists (is_current id name hashed) us) ≡ true
        → exists (is_current id name hashed) us ≡ true
    later n b = ground (arith, n, b, equal_iff id u.id, equal_iff u.id id)

module _ (th : Text → Text) where
  no_other :
      (token : Text) (now : ℕ) (ls : List Login)
      → exists (has_token (th token)) ls ≡ false
      → (d : Login → Bool) → exists (live_login th token now) (delete d ls) ≡ false
  unfolding exists delete
  no_other token now [] h d = refl
  no_other token now (l ∷ ls) h d = elim (Bool-cases (equal l.token_hash (th token))) [
    | inl y ↦ absurd (clash y h)
    | inr n ↦ elim (Bool-cases (d l)) [
      | inl gone ↦ rw gone (no_other token now ls (rw n at h) d)
      | inr left ↦ rw (left, n) (no_other token now ls (rw n at h) d)
    ]
  ]
    where
      clash :
          equal l.token_hash (th token) ≡ true
          → (equal l.token_hash (th token) || exists (has_token (th token)) ls) ≡ false
          → ⊥
      clash a b = ground arith

  abbrev issued : Text → Db → Option Text × Db
  issued token db = (some token, db)

  abbrev after_login : Verified → Text → ℕ → ℕ → Db → Db
  after_login v token now seconds db = record db {
    logins =
        delete (expired now) db.logins
        ++ record {
          token_hash = th token;
          account = local_key v.account_id;
          expires = now + seconds;
        }
          ∷ [];
  }

  open_login-some :
      (v : Verified) (token : Text) (now seconds : ℕ) (db db' : Db)
      → open_login th v token now seconds db ≡ issued token db'
      → (exists (is_current v.account_id v.name v.password_hash) db.users ≡ true)
        × (db' ≡ after_login v token now seconds db)
  unfolding open_login
  open_login-some v token now seconds db db' e =
      elim (Bool-cases (exists (is_current v.account_id v.name v.password_hash) db.users)) [
        | inl y ↦ (y, sym (ap (λ (r : Option Text × Db). r.1) (rw y at e)))
        | inr n ↦ absurd (no_token (ap (λ (r : Option Text × Db). r.0) (rw n at e)))
      ]
    where
      no_token : ◌≡◌ {A = Option Text} none (some token) → ⊥
      no_token e = cc

  login_account-found :
      (c : ℕ) (cs : Text) (now : ℕ) (db : Db) (l : Login)
      → first (live_login th (c ∷ cs) now) db.logins ≡ some l
      → login_account th (c ∷ cs) now db ≡ joined th db (some l)
  unfolding login_account
  login_account-found c cs now db l e = ap (joined th db) e

  -- A token that a sign-in stored, new among the stored ones, stands until it expires for the account
  -- and the name that were verified.
  pub open_login-login_account :
      (v : Verified) (c : ℕ) (cs : Text) (now seconds later : ℕ) (db db' : Db)
      → HasUniqueIds db.users
      → exists (has_token (th (c ∷ cs))) db.logins ≡ false
      → open_login th v (c ∷ cs) now seconds db ≡ issued (c ∷ cs) db'
      → later ≤ now + seconds
      → login_account th (c ∷ cs) later db' ≡ some (local_key v.account_id, v.name)
  open_login-login_account v c cs now seconds later db db' w new e in_time =
      let token : Text = c ∷ cs in
      let (current, same) = open_login-some v token now seconds db db' e in
      let l : Login = record {
        token_hash = th token;
        account = local_key v.account_id;
        expires = now + seconds;
      } in
      let live : live_login th token later l ≡ true =
        rw (equal_self (th token)) (ground (arith, in_time)) in
      let found =
        first-snoc (live_login th token later) (delete (expired now) db.logins) l
          (no_other token later db.logins new (expired now)) live in
      let (u, f, named) = joined-current v.account_id v.name v.password_hash db.users w current in
      rw same (
        login_account-found c cs later (after_login v token now seconds db) l found
        ∙ ap
            (λ (o : Option User). elim o as (λ o. Option (Text × Text)) [
              | none ↦ none
              | some u ↦ some (local_key v.account_id, u.name)
            ])
            f
        ∙ ap (λ (n : Text). some (local_key v.account_id, n)) named)

  -- Purging the expired logins changes no answer about a token, then or later.
  pub login_account-purge_logins :
      (token : Text) (now later : ℕ) (db : Db)
      → now ≤ later
      → login_account th token later (purge_logins now db) ≡ login_account th token later db
  unfolding login_account purge_logins
  login_account-purge_logins [] now later db h = refl
  login_account-purge_logins (c ∷ cs) now later db h =
      ap (joined th db)
        (first-delete (live_login th (c ∷ cs) later) (expired now) db.logins (λ l e. dead l e))
    where
      dead : (l : Login) → expired now l ≡ true → live_login th (c ∷ cs) later l ≡ false
      dead l e = ground (arith, e, h)

  -- A token that was closed stands for nobody.
  pub login_account-close_login :
      (token : Text) (now : ℕ) (db : Db)
      → login_account th token now (close_login th token db) ≡ none
  unfolding login_account close_login
  login_account-close_login [] now db = refl
  login_account-close_login (c ∷ cs) now db =
      ap (joined th (record db { logins = delete (has_token (th (c ∷ cs))) db.logins })) (
        first-none (live_login th (c ∷ cs) now) (delete (has_token (th (c ∷ cs))) db.logins) (
          exists-none (live_login th (c ∷ cs) now) (has_token (th (c ∷ cs)))
            (delete (has_token (th (c ∷ cs))) db.logins) (λ l e. ground (arith, e))
            (exists-delete (has_token (th (c ∷ cs))) db.logins)))
