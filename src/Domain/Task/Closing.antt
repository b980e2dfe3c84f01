-- ===== src/Domain/Task/Closing.antt =====
-- When a task is closed: `CloseTimestamp` of internal/domain/task.go.
use test_api.Prelude.{if◌then◌else◌, ◌≡◌, ◌≢◌, ◌↔◌, ◌⊎◌, true, Option, none, some, arith, eq_iff}
use test_api.Domain.Task.{
  Task, Status, Time, terminal, close_timestamp, status_done, status_cancelled,
}

pub terminal_iff : (s : Status) → (terminal s ≡ true) ↔ ((s ≡ status_done) ⊎ (s ≡ status_cancelled))
unfolding terminal
terminal_iff s = ground (arith, eq_iff s "done", eq_iff s "cancelled")

-- The timestamp of closing is there exactly in a terminal status.
abbrev pub IsClosedWell : Status → Option Time → Type 0
IsClosedWell s closed = (closed ≢ none) ↔ (terminal s ≡ true)

-- Whatever the task was, the timestamp for its next status is there exactly if that is terminal.
pub close_timestamp-IsClosedWell :
    (t : Task) (next : Status) (now : Time) → IsClosedWell next (close_timestamp t next now)
unfolding close_timestamp
close_timestamp-IsClosedWell t next now = ground arith

-- Of a task whose timestamp fits its status, a move between terminal statuses keeps the time at
-- which it was first closed, a move out of them forgets it, and a move into them takes the present.
pub close_timestamp_lem :
    (t : Task) (next : Status) (now : Time)
    → IsClosedWell t.status t.closed_at
    → close_timestamp t next now
      ≡ (if terminal next then (if terminal t.status then t.closed_at else some now) else none)
unfolding close_timestamp
close_timestamp_lem t next now w = ground arith
