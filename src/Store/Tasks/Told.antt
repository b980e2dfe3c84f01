-- ===== src/Store/Tasks/Told.antt =====
-- The rows of `task_history`, replayed: the changes of a task's entries, applied one after the other.
pub mod Keeping
pub mod Methods
pub mod Rows
pub mod Updates
use test_api.Prelude.{
  ℕ, suc, ℤ, pos, pos_part, ◌≡◌, ◌≢◌, ◌≤◌, refl, sym, ◌∙◌, Bool, true, false, ◌==◌, int_eq, Option,
  none, some, List, [], ◌∷◌, ◌++◌, All, Dict, String, arith, lookup, insert,
}
use test_api.Domain.Task.{Task, Status, FieldChange, creation_changes}
use test_api.Domain.Patch.{apply}
use test_api.Store.Schema.{Tables, Counters, HistoryRow}
use test_api.Store.Tasks.{Json}
use test_api.Store.Tasks.Valid.{TasksValid}

-- A task before its first entry. Of its fields, only the assignee is ever left out of that entry.
abbrev pub blank : Task
blank = record {
  id = pos 0;
  team_id = pos 0;
  title = "";
  description = "";
  status = "";
  created_by = pos 0;
  assignee_id = none;
  created_at = 0;
  updated_at = 0;
  closed_at = none;
  version = pos 0;
}

-- The fields that a history tells of.
pub record SameFields (t u : Task) : Type 0 where
  pub title : t.title ≡ u.title
  pub description : t.description ≡ u.description
  pub status : t.status ≡ u.status
  pub assignee : t.assignee_id ≡ u.assignee_id

pub SameFields-trans : (t u v : Task) → SameFields t u → SameFields u v → SameFields t v
SameFields-trans t u v h k = record {
  title = h.title ∙ k.title;
  description = h.description ∙ k.description;
  status = h.status ∙ k.status;
  assignee = h.assignee ∙ k.assignee;
}

pub apply-SameFields :
    (t u : Task) (changes : Dict FieldChange)
    → SameFields t u
    → SameFields (apply t changes) (apply u changes)
unfolding apply
apply-SameFields t u changes h = record {
  title = ground (arith, h.title);
  description = ground (arith, h.description);
  status = ground (arith, h.status);
  assignee = ground (arith, h.assignee);
}

-- The first entry.
pub created-SameFields : (t : Task) → SameFields (apply blank (creation_changes t)) t
unfolding apply creation_changes lookup insert
created-SameFields t = by_assignee t.assignee_id refl
  where
    by_assignee :
        (a : Option ℤ) → t.assignee_id ≡ a → SameFields (apply blank (creation_changes t)) t
    by_assignee none e = record {
      title = ground (arith, e);
      description = ground (arith, e);
      status = ground (arith, e);
      assignee = ground (arith, e);
    }
    by_assignee (some a) e = record {
      title = ground (arith, e);
      description = ground (arith, e);
      status = ground (arith, e);
      assignee = ground (arith, e);
    }

module _ (json : Json) (id : ℤ) where
  -- From a task, the entries of one number lead to another.
  pub data Replay : Task → List HistoryRow → Task → Type 0 where
    done : (t : Task) → Replay t [] t
    passed :
        (t u : Task) (r : HistoryRow) (rs : List HistoryRow)
        → r.task_id ≢ id
        → Replay t rs u
        → Replay t (r ∷ rs) u
    applied :
        (t u : Task) (r : HistoryRow) (rs : List HistoryRow) (changes : Dict FieldChange)
        → r.task_id ≡ id
        → json.marshal changes ≡ some r.changes
        → Replay (apply t changes) rs u
        → Replay t (r ∷ rs) u

  pub Replay-passed :
      (t u : Task) (rs : List HistoryRow) (r : HistoryRow)
      → r.task_id ≢ id
      → Replay t rs u
      → Replay t (rs ++ r ∷ []) u
  Replay-passed t _ [] r apart (done _) = passed t t r [] apart (done t)
  Replay-passed t u (_ ∷ _) r apart (passed _ _ s rs other h) =
      passed t u s (rs ++ r ∷ []) other (Replay-passed t u rs r apart h)
  Replay-passed t u (_ ∷ _) r apart (applied _ _ s rs cs same text h) =
      applied t u s (rs ++ r ∷ []) cs same text (Replay-passed (apply t cs) u rs r apart h)

  pub Replay-applied :
      (t u : Task) (rs : List HistoryRow) (r : HistoryRow) (changes : Dict FieldChange)
      → r.task_id ≡ id
      → json.marshal changes ≡ some r.changes
      → Replay t rs u
      → Replay t (rs ++ r ∷ []) (apply u changes)
  Replay-applied t _ [] r changes same text (done _) =
      applied t (apply t changes) r [] changes same text (done (apply t changes))
  Replay-applied t u (_ ∷ _) r changes same text (passed _ _ s rs other h) =
      passed t (apply u changes) s (rs ++ r ∷ []) other
        (Replay-applied t u rs r changes same text h)
  Replay-applied t u (_ ∷ _) r changes same text (applied _ _ s rs cs same' text' h) =
      applied t (apply u changes) s (rs ++ r ∷ []) cs same' text'
        (Replay-applied (apply t cs) u rs r changes same text h)

  -- Entries of other tasks alone.
  pub Replay-others :
      (t : Task) (rs : List HistoryRow) → All (λ r. r.task_id ≢ id) rs → Replay t rs t
  Replay-others t [] h = done t
  Replay-others t (r ∷ rs) h = passed t t r rs h.0 (Replay-others t rs h.1)

module _ (json : Json) where
  pub record IsTold (rows : List HistoryRow) (t : Task) : Type 0 where
    pub end : Task
    pub replay : Replay json t.id blank rows end
    pub same : SameFields end t

  -- Each task is told by its history, and no entry is of a number that has not been given out.
  pub record TasksTold (t : Tables) (n : Counters) : Type 0 where
    pub valid : TasksValid t n
    pub told : All (IsTold t.task_history) t.tasks
    pub known : All (λ r. suc (pos_part r.task_id) ≤ n.tasks) t.task_history
