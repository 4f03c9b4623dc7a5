-- ===== src/Store/Owned.antt =====
-- Who the rows of the database belong to.
use gowui.Base.{
  ℕ, ◌≡◌, refl, sym, ap, ◌∙◌, subst, Bool, true, false, ◌||◌, List, [], ◌∷◌, ◌++◌, arith,
  if◌then◌else◌, Bool-cases, inl, inr, Text, equal, equal_iff,
}
use gowui.Store.{
  User, Login, Saved, Aside, Db, delete, exists, local_key, local_prefix, starts_with, has_id,
  of_account, saved_for, aside_for, has_account, may_save, with_password, update_password, removed,
  is_current, replace_password, upsert, asides,
}
use gowui.Store.Rows.{Every, Every-mono, Every-delete, exists-append_left, exists-kept}

-- Every login is of an account that exists, and so is every saved or set-aside row under a local
-- key.
pub record IsOwned (db : Db) : Type 0 where
  pub owned_logins : Every (λ (l : Login). has_account db.users l.account) db.logins
  pub owned_states : Every (λ (s : Saved). may_save s.account db.users) db.states
  pub owned_preferences : Every (λ (s : Saved). may_save s.account db.users) db.preferences
  pub owned_asides : Every (λ (a : Aside). may_save a.account db.users) db.set_aside

-- Every key with an account keeps it.
abbrev pub Keeps : List User → List User → Type 0
Keeps us vs = (key : Text) → has_account us key ≡ true → has_account vs key ≡ true

may_save_mono :
    (us vs : List User) (key : Text)
    → (has_account us key ≡ true → has_account vs key ≡ true)
    → may_save key us ≡ true
    → may_save key vs ≡ true
unfolding may_save
may_save_mono us vs key k h = elim (Bool-cases (starts_with local_prefix key)) [
  | inl y ↦ rw y (k (rw y at h))
  | inr n ↦ rw n refl
]

pub keeps-IsOwned :
    (us : List User) (db : Db) → Keeps db.users us → IsOwned db → IsOwned (record db { users = us })
keeps-IsOwned us db k o =
    let saved = λ (key : Text). may_save_mono db.users us key (k key) in
    record {
      owned_logins =
          Every-mono (λ (l : Login). has_account db.users l.account)
            (λ (l : Login). has_account us l.account) db.logins (λ l. k l.account) o.owned_logins;
      owned_states =
          Every-mono (λ (s : Saved). may_save s.account db.users)
            (λ (s : Saved). may_save s.account us) db.states (λ s. saved s.account) o.owned_states;
      owned_preferences =
          Every-mono (λ (s : Saved). may_save s.account db.users)
            (λ (s : Saved). may_save s.account us) db.preferences (λ s. saved s.account)
            o.owned_preferences;
      owned_asides =
          Every-mono (λ (a : Aside). may_save a.account db.users)
            (λ (a : Aside). may_save a.account us) db.set_aside (λ a. saved a.account)
            o.owned_asides;
    }

pub snoc-Keeps : (us : List User) (u : User) → Keeps us (us ++ u ∷ [])
snoc-Keeps us u key = exists-append_left (λ (v : User). equal (local_key v.id) key) us (u ∷ [])

with_password-id : (id hashed : Text) (u : User) → (with_password id hashed u).id ≡ u.id
with_password-id id hashed u = ground arith

update_password-account :
    (id hashed key : Text) (us : List User)
    → has_account (update_password id hashed us) key ≡ has_account us key
unfolding update_password exists
update_password-account id hashed key [] = refl
update_password-account id hashed key (u ∷ us) =
    ap (λ (i : Text). equal (local_key i) key || has_account (update_password id hashed us) key)
      (with_password-id id hashed u)
    ∙ ap (λ (b : Bool). equal (local_key u.id) key || b) (update_password-account id hashed key us)

pub update_password-Keeps :
    (id hashed : Text) (us : List User) → Keeps us (update_password id hashed us)
update_password-Keeps id hashed us key h = update_password-account id hashed key us ∙ h

abbrev replaced : Text → Text → Text → Text → User → User
replaced id name old new u = if is_current id name old u then record u { password = new } else u

replaced-id : (id name old new : Text) (u : User) → (replaced id name old new u).id ≡ u.id
replaced-id id name old new u = ground arith

replace_password-account :
    (id name old new key : Text) (us : List User)
    → has_account (replace_password id name old new us) key ≡ has_account us key
unfolding replace_password exists
replace_password-account id name old new key [] = refl
replace_password-account id name old new key (u ∷ us) =
    ap
      (λ (i : Text).
        equal (local_key i) key || has_account (replace_password id name old new us) key)
      (replaced-id id name old new u)
    ∙ ap (λ (b : Bool). equal (local_key u.id) key || b)
        (replace_password-account id name old new key us)

pub replace_password-Keeps :
    (id name old new : Text) (us : List User) → Keeps us (replace_password id name old new us)
replace_password-Keeps id name old new us key h =
    replace_password-account id name old new key us ∙ h

-- The removed user's key goes; every other key keeps its account.
delete-account :
    (id key : Text) (us : List User)
    → equal key (local_key id) ≡ false
    → has_account us key ≡ true
    → has_account (delete (has_id id) us) key ≡ true
delete-account id key us n h =
    exists-kept (λ (u : User). equal (local_key u.id) key) (has_id id) us (λ u e. other u e) h
  where
    other : (u : User) → equal (local_key u.id) key ≡ true → equal u.id id ≡ false
    other u e = elim (Bool-cases (equal u.id id)) [
      | inr different ↦ different
      | inl y ↦ absurd (
          clash
            (subst (λ (t : Text). equal key (local_key t) ≡ false) (sym ((equal_iff u.id id).0 y))
              n)
            ((equal_iff (local_key u.id) key).0 e))
    ]
      where
        clash : {k l : Text} → equal k l ≡ false → l ≡ k → ⊥
        clash {k} {l} f e = ground (arith, equal_iff k l)

delete-may_save :
    (id key : Text) (us : List User)
    → equal key (local_key id) ≡ false
    → may_save key us ≡ true
    → may_save key (delete (has_id id) us) ≡ true
delete-may_save id key us n h =
    may_save_mono us (delete (has_id id) us) key (delete-account id key us n) h

pub removed-IsOwned : (id : Text) (db : Db) → IsOwned db → IsOwned (removed id db)
removed-IsOwned id db o =
    let us = delete (has_id id) db.users in
    let key = local_key id in
    record {
      owned_logins =
          Every-delete (λ (l : Login). has_account db.users l.account)
            (λ (l : Login). has_account us l.account) (of_account key) db.logins
            (λ l. delete-account id l.account db.users) o.owned_logins;
      owned_states =
          Every-delete (λ (s : Saved). may_save s.account db.users)
            (λ (s : Saved). may_save s.account us) (saved_for key) db.states
            (λ s. delete-may_save id s.account db.users) o.owned_states;
      owned_preferences =
          Every-delete (λ (s : Saved). may_save s.account db.users)
            (λ (s : Saved). may_save s.account us) (saved_for key) db.preferences
            (λ s. delete-may_save id s.account db.users) o.owned_preferences;
      owned_asides =
          Every-delete (λ (a : Aside). may_save a.account db.users)
            (λ (a : Aside). may_save a.account us) (aside_for key) db.set_aside
            (λ a. delete-may_save id a.account db.users) o.owned_asides;
    }

pub delete_logins-IsOwned :
    (d : Login → Bool) (db : Db) → IsOwned db → IsOwned (record db { logins = delete d db.logins })
delete_logins-IsOwned d db o =
    let owned = λ (l : Login). has_account db.users l.account in
    record {
      owned_logins = Every-delete owned owned d db.logins (λ l n h. h) o.owned_logins;
      owned_states = o.owned_states;
      owned_preferences = o.owned_preferences;
      owned_asides = o.owned_asides;
    }

pub upsert-Every :
    (users : List User) (key text : Text) (now : ℕ) (ss : List Saved)
    → may_save key users ≡ true
    → Every (λ (s : Saved). may_save s.account users) ss
    → Every (λ (s : Saved). may_save s.account users) (upsert key text now ss)
unfolding upsert Every
upsert-Every users key text now [] h e = (h, tt)
upsert-Every users key text now (s ∷ ss) h (a, e) = elim (Bool-cases (saved_for key s)) [
  | inl y ↦ rw y ((a, e))
  | inr n ↦ rw n ((a, upsert-Every users key text now ss h e))
]

pub asides-Every :
    (users : List User) (key reason : Text) (now : ℕ) (ss : List Saved)
    → Every (λ (s : Saved). may_save s.account users) ss
    → Every (λ (a : Aside). may_save a.account users) (asides key reason now ss)
unfolding asides Every
asides-Every users key reason now [] e = tt
asides-Every users key reason now (s ∷ ss) (a, e) = elim (Bool-cases (saved_for key s)) [
  | inl y ↦ rw y ((a, asides-Every users key reason now ss e))
  | inr n ↦ rw n (asides-Every users key reason now ss e)
]
