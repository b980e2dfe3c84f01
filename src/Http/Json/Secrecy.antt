-- ===== src/Http/Json/Secrecy.antt =====
-- What an answer tells of an error inside the program.
use test_api.Prelude.{[], ◌≡◌, refl}
use test_api.Domain.Errors.{Error, code_internal}
use test_api.Http.Message.{Writer, Context}
use test_api.Http.Json.{write_error, AnyError, as_domain, message_of}

message-internal :
    (e : Error)
    → e.code ≡ code_internal
    → message_of e ≡ record { format = "internal server error"; args = [] }
message-internal e h = rw h refl

-- All internal errors get the same answer, whatever their messages and causes are, and so does
-- every error that is not one of the domain's.
pub write_error_internal :
    (ctx : Context) (e e' : AnyError) (w : Writer)
    → (as_domain e).code ≡ code_internal
    → (as_domain e').code ≡ code_internal
    → write_error ctx e w ≡ write_error ctx e' w
unfolding write_error
write_error_internal ctx e e' w h h' =
    rw (message-internal (as_domain e) h, message-internal (as_domain e') h', h, h') refl
