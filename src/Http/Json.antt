-- ===== src/Http/Json.antt =====
-- internal/httpapi/json.go
pub mod Secrecy
use test_api.Prelude.{
  ℕ, Bool, Option, none, some, [], ◌∷◌, length, take, ltb, if◌then◌else◌, Result, ok, err, insert,
  String,
}
use test_api.Domain.Errors.{
  Error, Failure, Code, code_validation, code_unauthorized, code_forbidden, code_not_found,
  code_conflict, code_rate_limited, code_internal, Message, invalid, internal,
}
use test_api.Http.Message.{Bytes, bytes, Payload, error, ErrorBody, Response, Writer, Context}

-- What `http.MaxBytesReader` lets through of a body, and whether it cuts it off there.
pub record Reader : Type 0 where
  pub content : Bytes
  pub is_cut : Bool

-- 1<<20
unfoldable pub max_body : ℕ
max_body = 1048576

unfoldable pub max_bytes_reader : Bytes → Reader
unfolding take max_body
max_bytes_reader body = record { content = take max_body body; is_cut = ltb max_body (length body) }

-- A `json.Decoder` that takes no unknown fields: a first value of the type, with what it leaves of
-- the body, or an error; and whether a further `Decode` answers with `io.EOF`.
pub record Decoder (T : Type 0) : Type 0 where
  pub decode : Reader → Option (T × Reader)
  pub is_end : Reader → Bool

module _ {T : Type 0} (decoder : Decoder T) where
  abbrev decoded : Option (T × Reader) → Result Error T
  decoded none = err (invalid "malformed request body" [])
  decoded (some (value, rest)) =
      if decoder.is_end rest
      then ok value
      else err (invalid "request body must contain a single JSON object" [])

  unfoldable pub decode_json : Bytes → Result Error T
  unfolding max_bytes_reader
  decode_json body = decoded (decoder.decode (max_bytes_reader body))

-- `WriteHeader` and the body: the first one counts.
abbrev send : Response → Option Response → Option Response
send r none = some r
send r (some earlier) = some earlier

unfoldable pub write_json : ℕ → Payload → Writer → Writer
unfolding insert bytes
write_json status payload w =
    let header = insert "Content-Type" (bytes "application/json; charset=utf-8") w.header in
    record {
      header = header;
      sent = send (record { status = status; header = header; payload = payload }) w.sent;
    }

-- An `error`: a `*domain.Error`, or another one.
pub data AnyError : Type 0 where
  of_domain : Error → AnyError
  of_other : Failure → AnyError

-- `errors.As`, or an internal error with the other one as its cause.
abbrev pub as_domain : AnyError → Error
as_domain (of_domain e) = e
as_domain (of_other e) = internal e "unexpected error" []

abbrev pub status_of : Code → ℕ
status_of code_validation = 400
status_of code_unauthorized = 401
status_of code_forbidden = 403
status_of code_not_found = 404
status_of code_conflict = 409
status_of code_rate_limited = 429
status_of code_internal = 500

abbrev pub message_of : Error → Message
message_of e = elim e.code [
  | code_internal ↦ record { format = "internal server error"; args = [] }
  | _ ↦ e.message
]

abbrev pub or_no_bytes : Option Bytes → Bytes
or_no_bytes none = []
or_no_bytes (some b) = b

unfoldable pub write_error : Context → AnyError → Writer → Writer
unfolding write_json
write_error ctx e w =
    let de = as_domain e in
    write_json (status_of de.code)
      (error (record {
        code = de.code;
        message = message_of de;
        request_id = or_no_bytes ctx.request_id;
      }))
      w
