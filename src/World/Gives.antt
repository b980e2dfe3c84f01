-- ===== src/World/Gives.antt =====
-- Actions with what holds before and after them.
use test_api.Prelude.{◌≡◌, refl, Result, ok, err}
use test_api.Domain.Errors.{Error}
use test_api.Service.Exec.{Exec, pure, lift, continue, ◌>>=◌}
use test_api.World.{World}

-- `E` holds wherever an action ends with an error.
module _ (E : World → Type 0) where
  -- What holds after an action: `Q` of its value, and `E` after an error.
  abbrev pub Post : {A : Type 0} → (A → World → Type 0) → Result Error A → World → Type 0
  Post Q (ok a) w = Q a w
  Post Q (err e) w = E w

  pub record Gives {A : Type 0} (P : World → Type 0) (m : Exec World A) (Q : A → World → Type 0)
      : Type 0 where
    pub at : (w : World) → P w → Post Q (m w).0 (m w).1

  pub Gives-pure : {A : Type 0} (P : World → Type 0) (a : A) → Gives P (pure a) (λ _. P)
  Gives-pure P a = record { at = λ w p. p }

  module _ {A B : Type 0} where
    continue-Post :
        (Q : A → World → Type 0) (R : B → World → Type 0) (r : Result Error A)
        (f : A → Exec World B) (w : World)
        → ((a : A) → Gives (Q a) (f a) R)
        → Post Q r w
        → Post R (continue r f w).0 (continue r f w).1
    continue-Post Q R (ok a) f w k q = (k a).at w q
    continue-Post Q R (err e) f w k q = q

    pub Gives-bind :
        (P : World → Type 0) (Q : A → World → Type 0) (R : B → World → Type 0) (m : Exec World A)
        (f : A → Exec World B)
        → Gives P m Q
        → ((a : A) → Gives (Q a) (f a) R)
        → Gives P (m >>= f) R
    Gives-bind P Q R m f k l = record {
      at = λ w p. continue-Post Q R (m w).0 f (m w).1 l (k.at w p);
    }

    -- A check, and what follows if it passes.
    pub Gives-check :
        (P : World → Type 0) (R : B → World → Type 0) (r : Result Error A) (f : A → Exec World B)
        → ((w : World) → P w → E w)
        → ((a : A) → r ≡ ok a → Gives P (f a) R)
        → Gives P (lift r >>= f) R
    Gives-check P R (ok a) f fails k = k a refl
    Gives-check P R (err e) f fails k = record { at = fails }
