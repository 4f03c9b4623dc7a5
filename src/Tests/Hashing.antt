-- ===== src/Tests/Hashing.antt =====
-- A sign-in whose hash is replaced by a stronger one, with libraries made up for it: base64 is a
-- shift of the characters, and scrypt gives zeros.
use gowui.Base.{ℕ, ◌+◌, ◌-◌, [], ◌∷◌, Option, some, Text, codes, replicate}
use gowui.Hashes.{Scrypt, stored_form}
use gowui.Gtp.Exchange.{number_from}
use gowui.Store.{Db, Verified}

abbrev shift : Text → Text
shift [] = []
shift (c ∷ cs) = (c + 37) ∷ shift cs

abbrev unshift : Text → Text
unshift [] = []
unshift (c ∷ cs) = (c - 37) ∷ unshift cs

abbrev decoded : Text → Option Text
decoded t = some (unshift t)

abbrev zeros : Text → Text → ℕ → ℕ → ℕ → ℕ → Option Text
zeros password salt n r p size = some (replicate size 0)

abbrev digits : Text → Option ℕ
digits t = some (number_from 0 t)

abbrev strong : Scrypt
strong = record { n = 4; r = 1; p = 1 }

abbrev weak_hash : Text
weak_hash = codes "scrypt$2$1$1$AAAA$%%"

abbrev account : Db
account = record {
  users = record { id = codes "7f"; name = codes "ann"; password = weak_hash; created = 0 } ∷ [];
  logins = [];
  states = [];
  preferences = [];
  set_aside = [];
}

abbrev verified : Verified
verified = record {
  account_id = codes "7f";
  name = codes "ann";
  password_hash =
      stored_form zeros shift decoded decoded digits strong (codes "salt") (replicate 64 0);
}
