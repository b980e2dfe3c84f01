-- ===== src/Cache.antt =====
-- internal/cache/task.go: the pages of task lists in Redis. An entry's key holds the generation of
-- its team, and a new generation leaves the old entries unread.
pub mod Fresh
pub mod Keys
pub mod Pages
use Prim.Native.String.{◌++◌ as ◌<>◌}
use test_api.Prelude.{
  ℕ, suc, ℤ, pos, String, Bool, false, ltb_ℤ, Option, some, none, List, [], ◌∷◌, Result, ok, err,
  Dict, lookup, insert, if◌then◌else◌, format_int,
}
use test_api.Domain.Task.{TaskFilter, TaskPage, Status}

-- A value in Redis: a counter that INCR has made, or a text.
pub data Value : Type 0 where
  number : ℕ → Value
  text : String → Value

-- What happens to one command: it works, it fails, or it has its effect and the answer is lost.
-- A call that runs out of time is one of the latter two.
pub data Outcome : Type 0 where
  works fails is_lost : Outcome

-- The keys that have not expired, and what will happen to the commands to come.
pub record Redis : Type 0 where
  pub entries : Dict Value
  pub outcomes : List Outcome

abbrev pub lose : {A : Type 0} → Result {0} Unit A × Redis → Result {0} Unit A × Redis
lose (a, r) = (err tt, r)

unfoldable pub command :
    {A : Type 0} → (Redis → Result {0} Unit A × Redis) → Redis → Result {0} Unit A × Redis
command run r = elim r.outcomes [
  | [] ↦ run r
  | works ∷ rest ↦ run (record r { outcomes = rest })
  | fails ∷ rest ↦ (err tt, record r { outcomes = rest })
  | is_lost ∷ rest ↦ lose (run (record r { outcomes = rest }))
]

-- GET; `none` is `redis.Nil`.
unfoldable pub get_key : String → Redis → Result {0} Unit (Option Value) × Redis
unfolding command lookup
get_key key = command (λ r. (ok (lookup key r.entries), r))

unfoldable pub set_key : String → Value → Redis → Result {0} Unit Unit × Redis
unfolding command insert
set_key key v = command (λ r. (ok tt, record r { entries = insert key v r.entries }))

-- INCR: an error on a text, and one for a key that is not there.
abbrev pub incremented : Option Value → Option Value
incremented none = some (number 1)
incremented (some (number n)) = some (number (suc n))
incremented (some (text s)) = none

abbrev pub increment : String → Option Value → Redis → Result {0} Unit Unit × Redis
increment key none r = (err tt, r)
increment key (some v) r = (ok tt, record r { entries = insert key v r.entries })

unfoldable pub incr_key : String → Redis → Result {0} Unit Unit × Redis
unfolding command lookup insert
incr_key key = command (λ r. increment key (incremented (lookup key r.entries)) r)

-- Of the fields, whether the cache is in use; the client is the Redis of the state.
pub record TaskCache : Type 0 where
  pub enabled : Bool

-- `NewTaskCache`; `none` is a nil client.
unfoldable pub new_task_cache : {R : Type 0} → Option R → ℤ → TaskCache
new_task_cache none ttl = record { enabled = false }
new_task_cache (some rdb) ttl = record { enabled = ltb_ℤ (pos 0) ttl }

-- encoding/json on a page.
pub record PageJson : Type 0 where
  pub marshal : TaskPage → Option String
  pub unmarshal : String → Option TaskPage

unfoldable pub generation_key : ℤ → String
unfolding format_int
generation_key team_id = "tasks:gen:" <> format_int team_id

abbrev pub status_part : Option Status → String
status_part none = ""
status_part (some s) = s

abbrev pub assignee_part : Option ℤ → String
assignee_part none = ""
assignee_part (some a) = format_int a

unfoldable pub list_key : TaskFilter → ℕ → String
unfolding format_int
list_key f generation =
    "tasks:"
    <> (format_int f.team_id
        <> (":"
            <> (format_int (pos generation)
                <> (":"
                    <> ("status="
                        <> (status_part f.status
                            <> (";assignee="
                                <> (assignee_part f.assignee_id
                                    <> (";limit="
                                        <> (format_int f.limit
                                            <> (";offset=" <> format_int f.offset)))))))))))

-- `Get(…).Int64()`, with 0 for a key that is not there.
abbrev pub as_generation : Result {0} Unit (Option Value) → Result {0} Unit ℕ
as_generation (err e) = err e
as_generation (ok none) = ok 0
as_generation (ok (some (number n))) = ok n
as_generation (ok (some (text s))) = err tt

unfoldable pub generation : ℤ → Redis → Result {0} Unit ℕ × Redis
unfolding get_key generation_key
generation team_id r = let (a, r') = get_key (generation_key team_id) r in (as_generation a, r')

-- `Invalidate`
unfoldable pub invalidate : TaskCache → ℤ → Redis → Redis
unfolding incr_key generation_key
invalidate c team_id r = if c.enabled then (incr_key (generation_key team_id) r).1 else r

module _ (c : TaskCache) (json : PageJson) where
  -- What a reply to GET stands for: a page, or a miss.
  abbrev pub as_page : Result {0} Unit (Option Value) → Option TaskPage
  as_page (err e) = none
  as_page (ok none) = none
  as_page (ok (some (number n))) = json.unmarshal (format_int (pos n))
  as_page (ok (some (text s))) = json.unmarshal s

  abbrev pub get_at : Result {0} Unit ℕ → TaskFilter → Redis → Option TaskPage × Redis
  get_at (err e) f r = (none, r)
  get_at (ok gen) f r = let (a, r') = get_key (list_key f gen) r in (as_page a, r')

  -- `Get`
  unfoldable pub get : TaskFilter → Redis → Option TaskPage × Redis
  unfolding generation get_key list_key
  get f r =
      if c.enabled then (let (gen, r') = generation f.team_id r in get_at gen f r') else (none, r)

  abbrev pub set_at : Result {0} Unit ℕ → TaskFilter → String → Redis → Redis
  set_at (err e) f payload r = r
  set_at (ok gen) f payload r = (set_key (list_key f gen) (text payload) r).1

  abbrev pub set_payload : Option String → TaskFilter → Redis → Redis
  set_payload none f r = r
  set_payload (some payload) f r = let (gen, r') = generation f.team_id r in set_at gen f payload r'

  -- `Set`
  unfoldable pub set : TaskFilter → TaskPage → Redis → Redis
  unfolding generation set_key list_key
  set f page r = if c.enabled then set_payload (json.marshal page) f r else r
