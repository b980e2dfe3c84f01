-- ===== src/Service/Tasks/Limits.antt =====
-- The page that a list of tasks is asked for: `normalizeLimit` and `normalizeOffset`.
use test_api.Prelude.{ℤ, pos, ◌≤ℤ◌, ◌≡◌, ◌↔◌, arith}
use test_api.Service.Tasks.{normalize_limit, normalize_offset}

-- The limit of a page is from 1 to 100, and is the one that is asked for exactly if that is; the
-- offset is not negative, and is the one that is asked for exactly if that is not.
pub normalize_bounds :
    (limit offset : ℤ)
    → (pos 1 ≤ℤ normalize_limit limit)
      × (normalize_limit limit ≤ℤ pos 100)
      × ((normalize_limit limit ≡ limit) ↔ ((pos 1 ≤ℤ limit) × (limit ≤ℤ pos 100)))
      × (pos 0 ≤ℤ normalize_offset offset)
      × ((normalize_offset offset ≡ offset) ↔ (pos 0 ≤ℤ offset))
unfolding normalize_limit normalize_offset
normalize_bounds limit offset = ground arith
