-- ===== src/Http/Message.antt =====
-- Requests, answers, and what net/http keeps for a handler.
use Prim.Native.Nat.{◌/◌, ◌%◌}
use Prim.Native.Char.{code}
use Prim.Native.String.{[] as nil, ◌∷◌ as ◌:-◌}
use test_api.Prelude.{
  ℕ, ◌+◌, ℤ, String, Option, none, some, List, [], ◌∷◌, ◌++◌, Dict, lookup, if◌then◌else◌, ltb,
}
use test_api.Domain.Errors.{Code, Message}
use test_api.Domain.Role.{Role}
use test_api.Domain.Task.{Task, TaskPage, HistoryEntry}
use test_api.Domain.Team.{Team}
use test_api.Domain.User.{User}
use test_api.Domain.Comment.{Comment}
use test_api.Domain.Stats.{TeamStats}
use test_api.Service.Auth.{Session}

abbrev pub Bytes : Type 0
Bytes = List ℕ

-- A code point in UTF-8.
abbrev pub encode_code : ℕ → Bytes
encode_code c =
    if ltb c 0x80
    then c ∷ []
    else if ltb c 0x800
    then (0xc0 + c / 0x40) ∷ (0x80 + c % 0x40) ∷ []
    else if ltb c 0x10000
    then (0xe0 + c / 0x1000) ∷ (0x80 + c / 0x40 % 0x40) ∷ (0x80 + c % 0x40) ∷ []
    else (0xf0 + c / 0x40000)
      ∷ (0x80 + c / 0x1000 % 0x40)
      ∷ (0x80 + c / 0x40 % 0x40)
      ∷ (0x80 + c % 0x40)
      ∷ []

-- The bytes of a string.
unfoldable pub bytes : String → Bytes
bytes nil = []
bytes (c :- s) = encode_code (code c) ++ bytes s

-- A request as net/http hands it on: a cleaned path, cut at its slashes, the first value of each
-- parameter of the query and of each header, and the body.
pub record HttpRequest : Type 0 where
  pub method : String
  pub path : String
  pub segments : List String
  pub query : Dict String
  pub header : Dict String
  pub body : Bytes
  pub remote_addr : String
  pub path_values : Dict String

abbrev pub or_empty : Option String → String
or_empty none = ""
or_empty (some s) = s

-- `r.URL.Query().Get`, `r.Header.Get` and `r.PathValue`
abbrev pub query_value : HttpRequest → String → String
query_value r name = or_empty (lookup name r.query)

abbrev pub header_value : HttpRequest → String → String
header_value r name = or_empty (lookup name r.header)

abbrev pub path_value : HttpRequest → String → String
path_value r name = or_empty (lookup name r.path_values)

-- `memberResponse`
pub record MemberResponse : Type 0 where
  pub team_id : ℤ
  pub user_id : ℤ
  pub role : Role
  pub email : String
  pub name : String

-- `errorBody`
pub record ErrorBody : Type 0 where
  pub code : Code
  pub message : Message
  pub request_id : Bytes

-- The values that the handlers hand to the JSON encoder, and the plain texts of net/http.
pub data Payload : Type 0 where
  user : User → Payload
  session : Session → Payload
  team : Team → Payload
  teams : List Team → Payload
  member : MemberResponse → Payload
  stats : TeamStats → Payload
  task : Task → Payload
  page : TaskPage → Payload
  entries : List HistoryEntry → Payload
  comment : Comment → Payload
  comments : List Comment → Payload
  error : ErrorBody → Payload
  plain_text : String → Payload

pub record Response : Type 0 where
  pub status : ℕ
  pub header : Dict Bytes
  pub payload : Payload

-- `http.ResponseWriter`: the headers so far, and what has been sent.
pub record Writer : Type 0 where
  pub header : Dict Bytes
  pub sent : Option Response

-- The values in the context of a request: `userIDKey` and `requestIDKey`.
pub record Context : Type 0 where
  pub user_id : Option ℤ
  pub request_id : Option Bytes
