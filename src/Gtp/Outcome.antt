-- ===== src/Gtp/Outcome.antt =====
-- What holds after a coroutine of the client, of what it returns or raises and the client it leaves.
use gowui.Base.{◌≡◌, refl, Bool, true, false, Option, none, some, if◌then◌else◌, Result, ok, err}
use gowui.Engines.{Failure}
use gowui.Gtp.{Act, handle, Client, GtpError, dead, continue, check, failed, return}

-- What holds of either outcome of a coroutine.
abbrev pub Holds {ℓ} :
    {E D A : Type 0}
    → (A → Client E D → Type ℓ)
    → (GtpError → Client E D → Type ℓ)
    → Client E D × Result GtpError A
    → Type ℓ
Holds Q R (c, ok a) = Q a c
Holds Q R (c, err e) = R e c

pub record Post {ℓ} {E D A : Type 0} (Q : A → Client E D → Type ℓ)
    (R : GtpError → Client E D → Type ℓ) (r : Client E D × Result GtpError A) : Type ℓ where
  pub holds : Holds Q R r

module _ {ℓ} {E D A B : Type 0} where
  pub continue-Post :
      (Q : A → Client E D → Type ℓ) (P : B → Client E D → Type ℓ)
      (R : GtpError → Client E D → Type ℓ) (f : A → Client E D → Client E D × Result GtpError B)
      (r : Client E D × Result GtpError A)
      → Post Q R r
      → ((a : A) (c : Client E D) → Q a c → Post P R (f a c))
      → Post P R (continue f r)
  continue-Post Q P R f (c, ok a) q k = k a c q.holds
  continue-Post Q P R f (c, err e) q k = record { holds = q.holds }

module _ {ℓ} {E D A : Type 0} (Q : A → Client E D → Type ℓ)
    (R : GtpError → Client E D → Type ℓ) where
  pub if-Post :
      (test : Bool) (x y : Client E D × Result GtpError A)
      → (test ≡ true → Post Q R x)
      → (test ≡ false → Post Q R y)
      → Post Q R (if test then x else y)
  if-Post true x y h k = h refl
  if-Post false x y h k = k refl

  failed-Post :
      (k : Unit {0} → Client E D → Client E D × Result GtpError A) (c : Client E D)
      (f : Option Failure)
      → (f ≡ none → Post Q R (k tt c))
      → ((g : Failure) → f ≡ some g → R (dead g) c)
      → Post Q R (continue k (failed f (return tt) c))
  failed-Post k c none h r = h refl
  failed-Post k c (some g) h r = record { holds = r g refl }

  pub check-Post :
      (k : Unit {0} → Client E D → Client E D × Result GtpError A) (c : Client E D)
      → (c.health.failure ≡ none → Post Q R (k tt c))
      → ((g : Failure) → c.health.failure ≡ some g → R (dead g) c)
      → Post Q R (continue k (check c))
  check-Post k c h r = failed-Post k c c.health.failure h r

module _ {ℓ} {E D A : Type 0} where
  pub map-Post :
      (Q Q' : A → Client E D → Type ℓ) (R R' : GtpError → Client E D → Type ℓ)
      (r : Client E D × Result GtpError A)
      → Post Q R r
      → ((a : A) (c : Client E D) → Q a c → Q' a c)
      → ((e : GtpError) (c : Client E D) → R e c → R' e c)
      → Post Q' R' r
  map-Post Q Q' R R' (c, ok a) h f g = record { holds = f a c h.holds }
  map-Post Q Q' R R' (c, err e) h f g = record { holds = g e c h.holds }

  pub handle-Post {κ} :
      {B : Type 0} (Q : A → Client E D → Type ℓ) (R : GtpError → Client E D → Type ℓ)
      (P : B → Client E D → Type κ) (S : GtpError → Client E D → Type κ) (f : A → Act E D B)
      (g : GtpError → Act E D B) (r : Client E D × Result GtpError A)
      → Post Q R r
      → ((a : A) (c : Client E D) → Q a c → Post P S (f a c))
      → ((e : GtpError) (c : Client E D) → R e c → Post P S (g e c))
      → Post P S (handle f g r)
  handle-Post Q R P S f g (c, ok a) h x y = x a c h.holds
  handle-Post Q R P S f g (c, err e) h x y = y e c h.holds
