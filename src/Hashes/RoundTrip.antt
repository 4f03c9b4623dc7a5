-- ===== src/Hashes/RoundTrip.antt =====
-- A hash in stored form is read back to what it was made of, and verifies its password.
use gowui.Base.{
  ℕ, ◌+◌, ◌≡◌, refl, ap, ◌∙◌, subst, true, false, [], ◌∷◌, ◌++◌, Option, none, some, ltb, ◌==◌,
  length, Text, codes, equal, equal_self, ok, ok-injective, All, arith, Bool-cases, inl, inr,
}
use gowui.Coords.{decimal, show_digits}
use gowui.Gtp.Digits.{IsDigit, show_digits-IsDigit}
use gowui.Hashes.{
  Scrypt, max_hash_memory, memory_for, digest_length, split_dollar, stored_form, hashed_form, hash,
  verify_fields, verify, fields_of,
}

-- No `$` stands in the text.
abbrev pub IsFree : Text → Type 0
IsFree t = All (λ (c : ℕ). (c == b'$') ≡ false) t

digits-IsFree : (t : Text) → All IsDigit t → IsFree t
digits-IsFree [] h = tt
digits-IsFree (c ∷ cs) (d, h) = (ground (arith, d), digits-IsFree cs h)

decimal-IsFree : (n : ℕ) → IsFree (decimal n)
unfolding decimal
decimal-IsFree n = digits-IsFree (show_digits (n + 1) n) (show_digits-IsDigit (n + 1) n)

split_dollar-field :
    (t rest : Text) → IsFree t → split_dollar (t ++ b'$' ∷ rest) ≡ t ∷ split_dollar rest
unfolding split_dollar
split_dollar-field [] rest h = refl
split_dollar-field (c ∷ cs) rest (f, h) = rw (f, split_dollar-field cs rest h) refl

split_dollar-last : (t : Text) → IsFree t → split_dollar t ≡ t ∷ []
unfolding split_dollar
split_dollar-last [] h = refl
split_dollar-last (c ∷ cs) (f, h) = rw (f, split_dollar-last cs h) refl

module _ (scrypt : Text → Text → ℕ → ℕ → ℕ → ℕ → Option Text) (encode : Text → Text)
    (decode decode_strict : Text → Option Text) (read_int : Text → Option ℕ) where
  -- What the libraries do: `base64` reads back what it wrote, without a `$`, scrypt gives as many
  -- bytes as are asked for, and `int` reads the three parameters that were printed.
  pub record Documented (s : Scrypt) : Type 0 where
    pub decodes : (t : Text) → decode (encode t) ≡ some t
    pub encodes_free : (t : Text) → IsFree (encode t)
    pub gives :
        (password salt : Text) (n r p size : ℕ) (d : Text)
        → scrypt password salt n r p size ≡ some d
        → length d ≡ size
    pub reads_n : read_int (decimal s.n) ≡ some s.n
    pub reads_r : read_int (decimal s.r) ≡ some s.r
    pub reads_p : read_int (decimal s.p) ≡ some s.p

  module _ (s : Scrypt) (doc : Documented s) where
    abbrev pub form : Text → Text → Text
    form salt digest = stored_form scrypt encode decode decode_strict read_int s salt digest

    split_dollar-form :
        (salt digest : Text)
        → split_dollar (form salt digest)
          ≡ codes "scrypt"
            ∷ decimal s.n
            ∷ decimal s.r
            ∷ decimal s.p
            ∷ encode salt
            ∷ encode digest
            ∷ []
    split_dollar-form salt digest =
        split_dollar-field (codes "scrypt") _ (refl, (refl, (refl, (refl, (refl, (refl, tt))))))
        ∙ ap (◌∷◌ (codes "scrypt")) (
            rw
              (
                split_dollar-field (decimal s.n)
                    (decimal s.r
                      ++ b'$' ∷ (decimal s.p ++ b'$' ∷ (encode salt ++ b'$' ∷ encode digest)))
                    (decimal-IsFree s.n),
                split_dollar-field (decimal s.r)
                    (decimal s.p ++ b'$' ∷ (encode salt ++ b'$' ∷ encode digest))
                    (decimal-IsFree s.r),
                split_dollar-field (decimal s.p) (encode salt ++ b'$' ∷ encode digest)
                    (decimal-IsFree s.p),
                split_dollar-field (encode salt) (encode digest) (doc.encodes_free salt),
                split_dollar-last (encode digest) (doc.encodes_free digest),
              )
              refl)

    fields_of-form :
        (salt digest : Text)
        → fields_of scrypt encode decode decode_strict read_int decode decode
            (split_dollar (form salt digest))
          ≡ some (record { n = s.n; r = s.r; p = s.p; salt = salt; digest = digest })
    unfolding equal
    fields_of-form salt digest =
        rw
          (
            split_dollar-form salt digest,
            doc.reads_n,
            doc.reads_r,
            doc.reads_p,
            doc.decodes salt,
            doc.decodes digest,
          )
          refl

    verify-form :
        (password salt digest : Text)
        → ltb max_hash_memory (memory_for s.n s.r s.p) ≡ false
        → scrypt password salt s.n s.r s.p digest_length ≡ some digest
        → verify scrypt encode decode decode_strict read_int password (form salt digest) ≡ true
    unfolding verify
    verify-form password salt digest small made =
        ap (verify_fields scrypt encode decode decode_strict read_int password)
          (fields_of-form salt digest)
        ∙ (rw (small, doc.gives password salt s.n s.r s.p digest_length digest made, made)
            (equal_self digest))

    made-verify :
        (salt password t : Text) (o : Option Text)
        → ltb max_hash_memory (memory_for s.n s.r s.p) ≡ false
        → scrypt password salt s.n s.r s.p digest_length ≡ o
        → hashed_form scrypt encode decode decode_strict read_int s salt o ≡ ok t
        → verify scrypt encode decode decode_strict read_int password t ≡ true
    made-verify salt password t none small e h = absurd (cc)
    made-verify salt password t (some digest) small e h =
        subst (λ (x : Text). verify scrypt encode decode decode_strict read_int password x ≡ true)
          (ok-injective h) (verify-form password salt digest small e)

    -- A hash that is made, which is in stored form, verifies the password it was made of.
    pub verify-hash :
        (salt password t : Text)
        → hash scrypt encode decode decode_strict read_int s salt password ≡ ok t
        → verify scrypt encode decode decode_strict read_int password t ≡ true
    unfolding hash
    verify-hash salt password t h =
        elim (Bool-cases (ltb max_hash_memory (memory_for s.n s.r s.p))) [
          | inl y ↦ absurd (let h1 = rw y at h in cc)
          | inr n ↦
              made-verify salt password t (scrypt password salt s.n s.r s.p digest_length) n refl
                (rw n at h)
        ]
