-- ===== src/World/Steady.antt =====
-- The use cases that leave the tasks and the cache alone.
pub mod Cases
pub mod Requests
use test_api.Prelude.{◌≡◌, refl, ◌∙◌, Bool, true, false, if◌then◌else◌, Result, ok, err}
use test_api.Domain.Errors.{Error, Failure}
use test_api.Store.Driver.{Method}
use test_api.Store.Steady.{SameTasks, SameTasks-refl, SameTasks-trans, Steady as SteadyMethod}
use test_api.Service.Exec.{
  Exec, Call, pure, lift, call, step, replace_error, continue, or_error, ◌>>=◌,
}
use test_api.World.{World, on_db}

pub record Unmoved (w w' : World) : Type 0 where
  pub db : SameTasks w.db w'.db
  pub redis : w'.redis ≡ w.redis

pub Unmoved-refl : (w : World) → Unmoved w w
Unmoved-refl w = record { db = SameTasks-refl w.db; redis = refl }

pub Unmoved-trans : (a b c : World) → Unmoved a b → Unmoved b c → Unmoved a c
Unmoved-trans a b c h k = record {
  db = SameTasks-trans a.db b.db c.db h.db k.db;
  redis = k.redis ∙ h.redis;
}

pub record Steady {A : Type 0} (m : Exec World A) : Type 0 where
  pub at : (w : World) → Unmoved w (m w).1

module _ {A : Type 0} where
  pub Steady-pure : (a : A) → Steady (pure {W = World} a)
  Steady-pure a = record { at = Unmoved-refl }

  pub Steady-lift : (r : Result Error A) → Steady (lift {W = World} r)
  Steady-lift r = record { at = Unmoved-refl }

  pub Steady-call :
      (m : Method A) (f : Failure → Error) → SteadyMethod m → Steady (call (on_db m) f)
  Steady-call m f k = record { at = λ w. record { db = k.at w.db; redis = refl } }

  -- A call that changes neither the database nor Redis.
  pub Steady-other :
      (m : Call World A) (f : Failure → Error)
      → ((w : World) → Unmoved w (m w).1)
      → Steady (call m f)
  Steady-other m f k = record { at = k }

  pub Steady-step : (m : World → A × World) → ((w : World) → Unmoved w (m w).1) → Steady (step m)
  Steady-step m k = record { at = k }

  pub Steady-replace : (e : Error) (m : Exec World A) → Steady m → Steady (replace_error e m)
  Steady-replace e m k = record { at = k.at }

  pub Steady-if :
      (b : Bool) (m n : Exec World A) → Steady m → Steady n → Steady (if b then m else n)
  Steady-if true m n k l = k
  Steady-if false m n k l = l

module _ {A B : Type 0} where
  continue-Unmoved :
      (r : Result Error A) (f : A → Exec World B) (w₀ w : World)
      → ((a : A) → Steady (f a))
      → Unmoved w₀ w
      → Unmoved w₀ (continue r f w).1
  continue-Unmoved (ok a) f w₀ w k h = Unmoved-trans w₀ w _ h ((k a).at w)
  continue-Unmoved (err e) f w₀ w k h = h

  pub Steady-bind :
      (m : Exec World A) (f : A → Exec World B)
      → Steady m
      → ((a : A) → Steady (f a))
      → Steady (m >>= f)
  Steady-bind m f k l = record { at = λ w. continue-Unmoved (m w).0 f w (m w).1 l (k.at w) }

pub ruleset steady_rules =
    (Steady-pure, Steady-lift, Steady-call, Steady-replace, Steady-if, Steady-bind)
