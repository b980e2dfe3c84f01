-- ===== src/World/Keeps.antt =====
-- Invariants of the database across the use cases, one rule for each way to build one.
use test_api.Prelude.{Bool, true, false, ◌≡◌, refl, Result, ok, err, if◌then◌else◌}
use test_api.Domain.Errors.{Error, Failure}
use test_api.Store.Schema.{Tables, Counters}
use test_api.Store.Driver.{Method}
use test_api.Store.Driver.Keeps.{Keeps}
use test_api.Service.Exec.{Exec, Call, pure, lift, call, step, modify, replace_error, ◌>>=◌}
use test_api.World.{World, on_db}

pub record Preserves (P : Tables → Counters → Type 0) {A : Type 0} (m : Exec World A) : Type 0 where
  pub at : (w : World) → P w.db.tables w.db.next → P (m w).1.db.tables (m w).1.db.next

module _ {P : Tables → Counters → Type 0} {A : Type 0} where
  pub Preserves-pure : (a : A) → Preserves P (pure {W = World} a)
  Preserves-pure a = record { at = λ w p. p }

  pub Preserves-lift : (r : Result Error A) → Preserves P (lift {W = World} r)
  Preserves-lift r = record { at = λ w p. p }

  pub Preserves-call :
      (m : Method A) (f : Failure → Error) → Keeps P m → Preserves P (call (on_db m) f)
  Preserves-call m f k = record { at = λ w p. (k.at w.db p).inv }

  -- A call that changes something else than the database.
  pub Preserves-other :
      (m : Call World A) (f : Failure → Error)
      → ((w : World) → (m w).1.db ≡ w.db)
      → Preserves P (call m f)
  Preserves-other m f same = record { at = λ w p. rw (same w) p }

  pub Preserves-step :
      (m : World → A × World) → ((w : World) → (m w).1.db ≡ w.db) → Preserves P (step m)
  Preserves-step m same = record { at = λ w p. rw (same w) p }

  pub Preserves-replace :
      (e : Error) (m : Exec World A) → Preserves P m → Preserves P (replace_error e m)
  Preserves-replace e m k = record { at = λ w p. k.at w p }

  pub Preserves-if :
      (b : Bool) (m n : Exec World A)
      → Preserves P m
      → Preserves P n
      → Preserves P (if b then m else n)
  Preserves-if true m n k l = k
  Preserves-if false m n k l = l

pub Preserves-modify :
    {P : Tables → Counters → Type 0} (f : World → World)
    → ((w : World) → (f w).db ≡ w.db)
    → Preserves P (modify f)
Preserves-modify f same = record { at = λ w p. rw (same w) p }

module _ {P : Tables → Counters → Type 0} {A B : Type 0} where
  -- What follows a check may use that the check has passed.
  pub Preserves-bind_lift :
      (r : Result Error A) (f : A → Exec World B)
      → ((a : A) → r ≡ ok a → Preserves P (f a))
      → Preserves P (lift r >>= f)
  Preserves-bind_lift (ok a) f k = k a refl
  Preserves-bind_lift (err e) f k = Preserves-lift (err e)

  pub Preserves-bind :
      (m : Exec World A) (f : A → Exec World B)
      → Preserves P m
      → ((a : A) → Preserves P (f a))
      → Preserves P (m >>= f)
  Preserves-bind m f k l = record {
    at = λ w p. let (r, w') = m w in (Preserves-bind_lift r f (λ a _. l a)).at w' (k.at w p);
  }

pub ruleset keeps_rules = (
  Preserves-pure, Preserves-lift, Preserves-call, Preserves-replace, Preserves-if, Preserves-bind,
)
