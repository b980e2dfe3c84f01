-- ===== src/Http/Middleware.antt =====
-- internal/httpapi/middleware.go, and `rateLimit` of ratelimit.go. A handler changes a server's
-- state `S` and what it writes.
pub mod Identifier
use Prim.Native.Nat.{◌/◌, ◌%◌}
use Prim.Native.Char.{code}
use Prim.Native.String.{[] as nil, ◌∷◌ as ◌:-◌}
use test_api.Prelude.{
  cut_first, ℕ, ℤ, pos, ◌+◌, String, len, Bool, true, false, not, ◌||◌, ◌&&◌, ◌==◌, nat_eq,
  string_eq, Option, none, some, List, [], ◌∷◌, ◌++◌, insert, ltb, leb, if◌then◌else◌, Result, ok,
  err, take, length, trim_space, format_int,
}
use test_api.Domain.Errors.{unauthorized, rate_limited}
use test_api.Domain.Task.{Time}
use test_api.Http.Message.{Bytes, bytes, HttpRequest, header_value, Writer, Response, Context}
use test_api.Http.Json.{write_error, of_domain, or_no_bytes}
use test_api.Http.Limiter.{Rate, IpRateLimiter, allow, client_ip}

abbrev pub Handler : Type 0 → Type 0
Handler S = Context → HttpRequest → Writer → S → Writer × S

abbrev pub set_header : String → Bytes → Writer → Writer
set_header name value w = record w { header = insert name value w.header }

-- What the surroundings give to a request: `rand.Read` of sixteen bytes, unless it fails, and the
-- time, in nanoseconds for an identifier.
pub record Surroundings : Type 0 where
  pub random : Option Bytes
  pub unix_nano : ℤ
  pub now : Time

abbrev or_zero : Option ℤ → ℤ
or_zero none = pos 0
or_zero (some id) = id

-- `userID`: the zero value where no user is known.
abbrev pub user_id_of : Context → ℤ
user_id_of ctx = or_zero ctx.user_id

-- The letter in lower case; of the letters in "Bearer" no other is a folding.
abbrev fold : ℕ → ℕ
fold c = if leb 65 c && leb c 90 then c + 32 else c

-- `strings.EqualFold`, for texts without k and s
unfoldable pub equal_fold : String → String → Bool
equal_fold nil nil = true
equal_fold nil (d :- t) = false
equal_fold (c :- s) nil = false
equal_fold (c :- s) (d :- t) = fold (code c) == fold (code d) && equal_fold s t

abbrev token_of : Option (String × String) → Option String
token_of none = none
token_of (some (scheme, rest)) =
    let token = trim_space rest in
    if not (equal_fold scheme "Bearer") || token == "" then none else some token

-- `bearerToken`, with `none` for false. `strings.Cut` at a space.
unfoldable pub bearer_token : String → Option String
unfolding cut_first equal_fold
bearer_token header = token_of (cut_first 32 header)

-- `hex.EncodeToString`
abbrev hex_digit : ℕ → ℕ
hex_digit d = if ltb d 10 then 48 + d else 87 + d

unfoldable pub hex : Bytes → Bytes
hex [] = []
hex (b ∷ bs) = hex_digit (b / 16) ∷ hex_digit (b % 16) ∷ hex bs

abbrev identifier : Option Bytes → ℤ → Bytes
identifier none nano = bytes (format_int nano)
identifier (some b) nano = hex b

unfoldable pub new_request_id : Surroundings → Bytes
unfolding bytes hex format_int
new_request_id env = identifier env.random env.unix_nano

-- `id[:64]` cuts bytes, also inside of a rune.
unfoldable pub incoming_request_id : HttpRequest → Surroundings → Bytes
unfolding new_request_id bytes trim_space take
incoming_request_id r env =
    let id = trim_space (header_value r "X-Request-Id") in
    if id == ""
    then new_request_id env
    else if ltb 64 (len id)
    then take 64 (bytes id)
    else bytes id

module _ {S : Type 0} where
  unfoldable pub with_request_id : Surroundings → Handler S → Handler S
  unfolding incoming_request_id insert bytes
  with_request_id env next ctx r w s =
      let id = incoming_request_id r env in
      next (record ctx { request_id = some id }) r (set_header "X-Request-Id" id w) s

  -- The answer to the token of `s.tokens.Parse`.
  abbrev pub with_user : Option ℤ → Handler S → Handler S
  with_user none next ctx r w s = (
    write_error ctx (of_domain (unauthorized "token is invalid or has expired" []))
        (set_header "Www-Authenticate" (bytes "Bearer error=\"invalid_token\"") w),
    s,
  )
  with_user (some id) next ctx r w s = next (record ctx { user_id = some id }) r w s

  abbrev pub with_token : (String → Option ℤ) → Option String → Handler S → Handler S
  with_token parse none next ctx r w s = (
    write_error ctx (of_domain (unauthorized "bearer token is required" []))
        (set_header "Www-Authenticate" (bytes "Bearer realm=\"api\"") w),
    s,
  )
  with_token parse (some token) next ctx r w s = with_user (parse token) next ctx r w s

  -- `parse` is `Parse` of the tokens, with `none` for an error.
  unfoldable pub authenticate : (String → Option ℤ) → Handler S → Handler S
  unfolding bearer_token write_error insert bytes
  authenticate parse next ctx r w s =
      with_token parse (bearer_token (header_value r "Authorization")) next ctx r w s

-- A line of the log.
pub record Entry : Type 0 where
  pub is_error : Bool
  pub method : String
  pub path : String
  pub status : ℕ
  pub request_id : Bytes

-- The server's own state beside the world that the use cases change.
pub record Server (L W : Type 0) : Type 0 where
  pub world : W
  pub limiter : Option (IpRateLimiter L)
  pub log : List Entry

-- The status that `statusWriter` has recorded: 200 before anything is sent. It is read off the answer
-- that is sent, which is the same, as one answer is written for a request.
abbrev pub recorded_status : Option Response → ℕ
recorded_status none = 200
recorded_status (some r) = r.status

module _ {L W : Type 0} where
  unfoldable pub request_logger : Handler (Server L W) → Handler (Server L W)
  request_logger next ctx r w s =
      let (w', s') = next ctx r w s in
      let status = recorded_status w'.sent in
      (
        w',
        record s' {
          log =
              s'.log
              ++ record {
                is_error = leb 500 status;
                method = r.method;
                path = r.path;
                status = status;
                request_id = or_no_bytes ctx.request_id;
              }
                ∷ [];
        },
      )

  abbrev pub let_through : Bool → Handler (Server L W) → Handler (Server L W)
  let_through true next ctx r w s = next ctx r w s
  let_through false next ctx r w s = (
    write_error ctx (of_domain (rate_limited "too many requests, slow down" []))
        (set_header "Retry-After" (bytes "1") w),
    s,
  )

  abbrev pub limited :
      Rate L → Time → Option (IpRateLimiter L) → Handler (Server L W) → Handler (Server L W)
  limited rate now none next ctx r w s = next ctx r w s
  limited rate now (some l) next ctx r w s =
      let (allowed, l') = allow rate (client_ip r.remote_addr) now l in
      let_through allowed next ctx r w (record s { limiter = some l' })

  unfoldable pub rate_limit : Rate L → Time → Handler (Server L W) → Handler (Server L W)
  unfolding allow client_ip write_error insert bytes
  rate_limit rate now next ctx r w s = limited rate now s.limiter next ctx r w s
