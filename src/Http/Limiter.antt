-- ===== src/Http/Limiter.antt =====
-- internal/httpapi/ratelimit.go: a bucket for each address. `Rate` is golang.org/x/time/rate: a
-- limiter's state, and its answer to a request at a time.
pub mod Buckets
use Prim.Native.Char.{Char, code}
use Prim.Native.String.{[] as nil, ◌∷◌ as ◌:-◌}
use test_api.Prelude.{
  cut_first, has_code, ℕ, ◌≡◌, refl, ◌+◌, String, Bool, true, false, not, ◌||◌, ◌==◌, nat_eq,
  Option, none, some, Dict, lookup, insert, ltb, if◌then◌else◌, List, [], ◌∷◌, select,
}
use test_api.Domain.Task.{Time}

-- `rate.NewLimiter(rps, burst)` and `Allow` at a time.
pub record Rate (L : Type 0) : Type 0 where
  pub new_limiter : ℕ → ℕ → L
  pub allow : Time → L → Bool × L

pub record Bucket (L : Type 0) : Type 0 where
  pub limiter : L
  pub last_seen : Time

pub record IpRateLimiter (L : Type 0) : Type 0 where
  pub rps : ℕ
  pub burst : ℕ
  pub buckets : Dict (Bucket L)

-- Ten minutes, in microseconds.
abbrev pub bucket_ttl : ℕ
bucket_ttl = 600000000

module _ {L : Type 0} where
  unfoldable pub new_ip_rate_limiter : ℕ → ℕ → IpRateLimiter L
  new_ip_rate_limiter rps burst = record { rps = rps; burst = burst; buckets = [] }

  abbrev pub limiter_or_new : Rate L → IpRateLimiter L → Option (Bucket L) → L
  limiter_or_new rate l none = rate.new_limiter l.rps l.burst
  limiter_or_new rate l (some b) = b.limiter

  unfoldable pub allow : Rate L → String → Time → IpRateLimiter L → Bool × IpRateLimiter L
  unfolding lookup insert
  allow rate ip now l =
      let (allowed, limiter) = rate.allow now (limiter_or_new rate l (lookup ip l.buckets)) in
      (
        allowed,
        record l { buckets = insert ip (record { limiter = limiter; last_seen = now }) l.buckets },
      )

  -- `now.Sub(b.lastSeen) > bucketTTL`
  abbrev pub is_stale : Time → String × Bucket L → Bool
  is_stale now (ip, b) = ltb (b.last_seen + bucket_ttl) now

  -- One tick of `collect`.
  unfoldable pub collect : Time → IpRateLimiter L → IpRateLimiter L
  unfolding select
  collect now l = record l { buckets = select (λ e. not (is_stale now e)) l.buckets }

-- A text before and after the last place of a character.
abbrev last_or : Bool → Char → String → Option (String × String) → Option (String × String)
last_or here c s (some (before, after)) = some (c :- before, after)
last_or true c s none = some (nil, s)
last_or false c s none = none

unfoldable pub cut_last : ℕ → String → Option (String × String)
cut_last k nil = none
cut_last k (c :- s) = last_or (code c == k) c s (cut_last k s)

-- The host before `:port` if nothing of the text is out of place.
abbrev plain_host : String → Option (String × String) → Option String
plain_host s none = none
plain_host s (some (host, port)) =
    if has_code 58 host || has_code 91 s || has_code 93 s then none else some host

-- What follows `[host]`: a colon and a port.
abbrev bracketed_port : String → String → String → Option String
bracketed_port s host nil = none
bracketed_port s host (c :- port) =
    if not (code c == 58) || has_code 58 port || has_code 91 s || has_code 93 port
    then none
    else some host

abbrev bracketed_host : String → Option (String × String) → Option String
bracketed_host s none = none
bracketed_host s (some (host, after)) = bracketed_port s host after

-- `net.SplitHostPort`, for its host: `none` for an error.
unfoldable pub split_host : String → Option String
unfolding cut_first cut_last has_code
split_host nil = none
split_host (c :- s) =
    if code c == 91
    then bracketed_host s (cut_first 93 s)
    else plain_host (c :- s) (cut_last 58 (c :- s))

abbrev or_whole : String → Option String → String
or_whole addr none = addr
or_whole addr (some host) = host

unfoldable pub client_ip : String → String
unfolding split_host
client_ip remote_addr = or_whole remote_addr (split_host remote_addr)

ip_examples :
    (client_ip "10.0.0.1:80" ≡ "10.0.0.1")
    × (client_ip "[::1]:80" ≡ "::1")
    × (client_ip "::1" ≡ "::1")
    × (client_ip "pipe" ≡ "pipe")
unfolding client_ip
ip_examples = (refl, refl, refl, refl)
