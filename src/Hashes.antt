-- ===== src/Hashes.antt =====
-- gowui/store.py, `Scrypt`: password hashes in stored form. scrypt, base64 and `int` are parameters;
-- the random bytes are arguments.
pub mod RoundTrip
use gowui.Base.{
  ℕ, ◌+◌, ◌*◌, Bool, true, false, ◌&&◌, ◌||◌, List, [], ◌∷◌, ◌++◌, Option, none, some, ltb, ◌==◌,
  if◌then◌else◌, length, Text, codes, equal, Result, ok, err,
}
use gowui.Coords.{decimal}

abbrev pub max_hash_memory : ℕ
max_hash_memory = 1073741824

abbrev pub digest_length : ℕ
digest_length = 64

-- `_maxmem`.
unfoldable pub memory_for : ℕ → ℕ → ℕ → ℕ
memory_for n r p = 128 * r * (n + p + 2) + 1048576

pub record Scrypt : Type 0 where
  pub n : ℕ
  pub r : ℕ
  pub p : ℕ

abbrev pub default_scrypt : Scrypt
default_scrypt = record { n = 65536; r = 8; p = 2 }

pub data HashError : Type 0 where
  too_costly refused : HashError

-- The fields of a stored hash.
pub record Stored : Type 0 where
  pub n : ℕ
  pub r : ℕ
  pub p : ℕ
  pub salt : Text
  pub digest : Text

-- Whether scrypt ran, and to the expected digest.
abbrev pub is_digest : Text → Option Text → Bool
is_digest expected none = false
is_digest expected (some actual) = equal actual expected

-- `text.split("$")`.
abbrev pub add_char : Bool → ℕ → List Text → List Text
add_char true c ts = [] ∷ ts
add_char false c [] = (c ∷ []) ∷ []
add_char false c (t ∷ ts) = (c ∷ t) ∷ ts

unfoldable pub split_dollar : Text → List Text
split_dollar [] = [] ∷ []
split_dollar (c ∷ cs) = add_char (c == b'$') c (split_dollar cs)

module _ (scrypt : Text → Text → ℕ → ℕ → ℕ → ℕ → Option Text) (encode : Text → Text)
    (decode decode_strict : Text → Option Text) (read_int : Text → Option ℕ) where
  abbrev pub stored_form : Scrypt → Text → Text → Text
  stored_form s salt digest =
      codes "scrypt$"
      ++ (decimal s.n
          ++ b'$'
            ∷ (decimal s.r ++ b'$' ∷ (decimal s.p ++ b'$' ∷ (encode salt ++ b'$' ∷ encode digest))))

  abbrev pub hashed_form : Scrypt → Text → Option Text → Result HashError Text
  hashed_form s salt none = err refused
  hashed_form s salt (some digest) = ok (stored_form s salt digest)

  unfoldable pub hash : Scrypt → Text → Text → Result HashError Text
  hash s salt password =
      if ltb max_hash_memory (memory_for s.n s.r s.p)
      then err too_costly
      else hashed_form s salt (scrypt password salt s.n s.r s.p digest_length)

  unfoldable pub dummy : Scrypt → Text → Text → Text
  dummy s salt digest = stored_form s salt digest

  abbrev pub numbers_of : Option ℕ → Option ℕ → Option ℕ → Option Text → Option Text → Option Stored
  numbers_of (some n) (some r) (some p) (some salt) (some digest) =
      some (record { n = n; r = r; p = p; salt = salt; digest = digest })
  numbers_of _ _ _ _ _ = none

  -- The fields of a hash of this scheme; `none` for another scheme and for what cannot be read.
  abbrev pub fields_of : (Text → Option Text) → (Text → Option Text) → List Text → Option Stored
  fields_of read_salt read_digest (scheme ∷ n ∷ r ∷ p ∷ salt ∷ digest ∷ []) =
      if equal scheme (codes "scrypt")
      then numbers_of (read_int n) (read_int r) (read_int p) (read_salt salt) (read_digest digest)
      else none
  fields_of read_salt read_digest _ = none

  -- `needs_rehash`, which does not read the salt.
  unfoldable pub needs_rehash : Scrypt → Text → Bool
  needs_rehash s stored =
      elim (fields_of (λ salt. some salt) decode_strict (split_dollar stored)) as (λ o. Bool) [
        | none ↦ false
        | some f ↦
            let work = f.n * f.r * f.p in
            let current = s.n * s.r * s.p in
            ltb work current || (work == current && ltb (length f.digest) digest_length)
      ]

  abbrev pub verify_fields : Text → Option Stored → Bool
  verify_fields password none = false
  verify_fields password (some f) =
      if ltb max_hash_memory (memory_for f.n f.r f.p)
      then false
      else is_digest f.digest (scrypt password f.salt f.n f.r f.p (length f.digest))

  -- `verify`; a parameter below zero, which scrypt refuses, counts as unreadable.
  unfoldable pub verify : Text → Text → Bool
  verify password stored = verify_fields password (fields_of decode decode (split_dollar stored))
