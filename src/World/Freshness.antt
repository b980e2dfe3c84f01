-- ===== src/World/Freshness.antt =====
-- The pages of internal/cache/task.go beside the tables that they were read from: the invariant that
-- joins them, and rules for the actions of the use cases.
pub mod Requests
pub mod Serving
use test_api.Prelude.{
  ℤ, ◌≡◌, refl, sym, ap, ◌∙◌, subst, Bool, true, false, if◌then◌else◌, List, [], ◌∷◌, All, Result,
  ok, err, some,
}
use test_api.Domain.Errors.{Error, Failure}
use test_api.Domain.Task.{Task}
use test_api.Store.Driver.{Method}
use test_api.Store.Driver.Keeps.{Keeps}
use test_api.Store.Steady.{IsAnswered}
use test_api.Store.Tasks.Valid.{TasksValid, TasksValid-same}
use test_api.Store.Tasks.Elsewhere.{SameElsewhere}
use test_api.Store.Tasks.Writes.{Writes, Written}
use test_api.Cache.{TaskCache}
use test_api.Cache.Fresh.{IsFresh}
use test_api.Cache.Fresh.Invalidation.{invalidate-IsFresh}
use test_api.Service.Exec.{Exec, pure, lift, call, step, modify, continue, or_error, ◌>>=◌, ◌>>◌}
use test_api.World.{World, Outside, on_db, service}
use test_api.World.Gives.{Post, Gives, Gives-bind}
use test_api.World.Steady.{Unmoved, Steady}

module _ (o : Outside) (c : TaskCache) where
  -- The tasks are valid, no answer of the driver is lost, and the cache is fresh.
  pub record IsSound (w : World) : Type 0 where
    pub fresh : IsFresh c o.page_json w.db.tables.tasks w.redis
    pub valid : TasksValid w.db.tables w.db.next
    pub answered : All IsAnswered w.db.faults

  pub Unmoved-IsSound : (w w' : World) → Unmoved w w' → IsSound w → IsSound w'
  Unmoved-IsSound w w' h s = record {
    fresh = rw (h.db.tasks, h.redis) s.fresh;
    valid = TasksValid-same w.db w'.db s.valid h.db;
    answered = h.db.answered s.answered;
  }

  -- The tasks of one team have changed, and the cache does not know it.
  record IsBehind (team_id : ℤ) (w : World) : Type 0 where
    before : List Task
    fresh : IsFresh c o.page_json before w.redis
    same : SameElsewhere team_id before w.db.tables.tasks
    valid : TasksValid w.db.tables w.db.next
    answered : All IsAnswered w.db.faults

  module _ {A : Type 0} where
    Post-steady :
        (r : Result Error A) (ts : List Task) (w : World)
        → IsSound w
        → w.db.tables.tasks ≡ ts
        → Post IsSound (λ _ w'. IsSound w' × (w'.db.tables.tasks ≡ ts)) r w
    Post-steady (ok a) ts w s e = (s, e)
    Post-steady (err e) ts w s _ = s

    -- What leaves the tasks and the cache alone.
    pub Gives-Steady :
        (ts : List Task) (m : Exec World A)
        → Steady m
        → Gives IsSound
            (λ w. IsSound w × (w.db.tables.tasks ≡ ts))
            m
            (λ _ w. IsSound w × (w.db.tables.tasks ≡ ts))
    Gives-Steady ts m k = record {
      at = λ w (s, e).
          let h = k.at w in
          Post-steady (m w).0 ts (m w).1 (Unmoved-IsSound w (m w).1 h s) (h.db.tasks ∙ e);
    }

  -- An action that keeps the invariant.
  pub record Sound {A : Type 0} (m : Exec World A) : Type 0 where
    pub at : (w : World) → IsSound w → IsSound (m w).1

  module _ {A : Type 0} where
    pub Sound-pure : (a : A) → Sound (pure a)
    Sound-pure a = record { at = λ w s. s }

    pub Sound-lift : (r : Result Error A) → Sound (lift r)
    Sound-lift r = record { at = λ w s. s }

    pub Sound-Steady : (m : Exec World A) → Steady m → Sound m
    Sound-Steady m k = record { at = λ w s. Unmoved-IsSound w (m w).1 (k.at w) s }

  module _ {A B : Type 0} where
    continue-IsSound :
        (r : Result Error A) (f : A → Exec World B) (w : World)
        → ((a : A) → Sound (f a))
        → IsSound w
        → IsSound (continue r f w).1
    continue-IsSound (ok a) f w k s = (k a).at w s
    continue-IsSound (err e) f w k s = s

    pub Sound-bind :
        (m : Exec World A) (f : A → Exec World B)
        → Sound m
        → ((a : A) → Sound (f a))
        → Sound (m >>= f)
    Sound-bind m f k l = record { at = λ w s. continue-IsSound (m w).0 f (m w).1 l (k.at w s) }

  -- A write of one team's tasks.
  Written-Post :
      (m : Method Task) (f : Failure → Error) (r : Result Failure Task) (w : World) (w' : World)
      → IsSound w
      → w'.redis ≡ w.redis
      → TasksValid w'.db.tables w'.db.next
      → All IsAnswered w'.db.faults
      → Written r w.db.tables.tasks w'.db.tables.tasks
      → Post IsSound (λ t. IsBehind t.team_id) (or_error r f) w'
  Written-Post m f (ok t) w w' s e v h written = record {
    before = w.db.tables.tasks;
    fresh = rw e s.fresh;
    same = written;
    valid = v;
    answered = h;
  }
  Written-Post m f (err x) w w' s e v h written = record {
    fresh = rw (written, e) s.fresh;
    valid = v;
    answered = h;
  }

  write-Gives :
      (m : Method Task) (f : Failure → Error)
      → Writes m
      → Keeps TasksValid m
      → Gives IsSound IsSound (call (on_db m) f) (λ t. IsBehind t.team_id)
  write-Gives m f writes keeps = record {
    at = λ w s.
        let (written, answered) = writes.at w.db s.valid s.answered in
        Written-Post m f (m w.db).0 w _ s refl (keeps.at w.db s.valid).inv answered written;
  }

  invalidate-IsSound :
      (team_id : ℤ) (w : World)
      → c.enabled ≡ true
      → IsBehind team_id w
      → IsSound ((service o c).cache.invalidate team_id w)
  invalidate-IsSound team_id w enabled b = record {
    fresh =
        invalidate-IsFresh c o.page_json team_id b.before w.db.tables.tasks w.redis enabled b.same
          b.fresh;
    valid = b.valid;
    answered = b.answered;
  }

  Post-IsSound :
      {A : Type 0} (r : Result Error A) (w : World) → Post IsSound (λ _. IsSound) r w → IsSound w
  Post-IsSound (ok a) w s = s
  Post-IsSound (err e) w s = s

  -- A write, and `Invalidate` of the team that is written.
  pub Sound-write :
      (m : Method Task) (f : Failure → Error)
      → c.enabled ≡ true
      → Writes m
      → Keeps TasksValid m
      → Sound
          (call (on_db m) f >>= λ t. modify ((service o c).cache.invalidate t.team_id) >> pure t)
  Sound-write m f enabled writes keeps = record {
    at = λ w s. Post-IsSound _ _ (
        (Gives-bind IsSound IsSound (λ t. IsBehind t.team_id) (λ _. IsSound) (call (on_db m) f) _
            (write-Gives m f writes keeps)
            λ t. record { at = λ w' b. invalidate-IsSound t.team_id w' enabled b }).at
          w s);
  }
