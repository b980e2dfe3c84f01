-- ===== src/Http/Server/Answers.antt =====
-- Every request is answered, under its identifier, and logged.
use test_api.Prelude.{
  ℕ, ℤ, String, ◌≡◌, ◌≢◌, refl, ◌∙◌, Bool, true, false, Option, none, some, [], ◌∷◌, ◌++◌, Result,
  ok, err, lookup, insert, lookup-insert_same, lookup-insert_other, arith, eq_iff, leb,
}
use test_api.Domain.Errors.{Error}
use test_api.Domain.Task.{Time}
use test_api.Http.Message.{
  Bytes, bytes, Payload, HttpRequest, Response, Writer, Context, header_value,
}
use test_api.Http.Json.{write_json, write_error, AnyError}
use test_api.Http.Limiter.{IpRateLimiter, allow, client_ip}
use test_api.Http.Handlers.{respond}
use test_api.Http.Middleware.{
  Server, Surroundings, Handler, Entry, set_header, authenticate, with_request_id, request_logger,
  rate_limit, bearer_token, let_through, limited, with_token, with_user, incoming_request_id,
  recorded_status,
}
use test_api.Http.Server.{
  Api, Endpoint, handler, guarded, dispatch, mux, serve_http, fresh, Found, endpoint, other_method,
  nothing, find_route, routes, is_public,
}

abbrev id_header : String
id_header = "X-Request-Id"

-- Something has been sent, with the identifier that the headers held before.
record Sent (w w' : Writer) : Type 0 where
  response : Response
  sent : w'.sent ≡ some response
  kept : lookup id_header response.header ≡ lookup id_header w.header

write_json-Sent :
    (status : ℕ) (payload : Payload) (w : Writer)
    → w.sent ≡ none
    → Sent w (write_json status payload w)
unfolding write_json
write_json-Sent status payload w h = record {
  response = record {
    status = status;
    header = insert "Content-Type" (bytes "application/json; charset=utf-8") w.header;
    payload = payload;
  };
  sent = rw h refl;
  kept =
      lookup-insert_other "Content-Type" id_header _ w.header
        (ground (arith, eq_iff "Content-Type" "X-Request-Id"));
}

write_error-Sent :
    (ctx : Context) (e : AnyError) (w : Writer) → w.sent ≡ none → Sent w (write_error ctx e w)
unfolding write_error
write_error-Sent ctx e w h = write_json-Sent _ _ w h

Sent-set_header :
    (name : String) (value : Bytes) (w w' : Writer)
    → name ≢ id_header
    → Sent (set_header name value w) w'
    → Sent w w'
Sent-set_header name value w w' apart k = record {
  response = k.response;
  sent = k.sent;
  kept = k.kept ∙ lookup-insert_other name id_header value w.header apart;
}

respond-Sent :
    (ctx : Context) (a : Result Error (ℕ × Payload)) (w : Writer)
    → w.sent ≡ none
    → Sent w (respond ctx a w)
respond-Sent ctx (ok (status, payload)) w h = write_json-Sent status payload w h
respond-Sent ctx (err e) w h = write_error-Sent ctx _ w h

refused-Sent :
    (name : String) (value : Bytes) (ctx : Context) (e : AnyError) (w : Writer)
    → name ≢ id_header
    → w.sent ≡ none
    → Sent w (write_error ctx e (set_header name value w))
refused-Sent name value ctx e w apart h =
    Sent-set_header name value w _ apart (write_error-Sent ctx e (set_header name value w) h)

www_apart : "Www-Authenticate" ≢ id_header
www_apart = ground (arith, eq_iff "Www-Authenticate" "X-Request-Id")

retry_apart : "Retry-After" ≢ id_header
retry_apart = ground (arith, eq_iff "Retry-After" "X-Request-Id")

module _ {L W : Type 0} where
  -- A handler that sends something where nothing has been sent, and leaves the log alone.
  record Answering (h : Handler (Server L W)) : Type 0 where
    sends :
        (ctx : Context) (r : HttpRequest) (w : Writer) (s : Server L W)
        → w.sent ≡ none
        → Sent w (h ctx r w s).0
    silent :
        (ctx : Context) (r : HttpRequest) (w : Writer) (s : Server L W)
        → (h ctx r w s).1.log ≡ s.log

  module _ (api : Api L W) where
    handler-Answering : (e : Endpoint) → Answering (handler api e)
    handler-Answering e = record {
      sends = λ ctx r w s h. respond-Sent ctx _ w h;
      silent = λ ctx r w s. refl;
    }

    with_user-Answering :
        (id : Option ℤ) (h : Handler (Server L W)) → Answering h → Answering (with_user id h)
    with_user-Answering none h k = record {
      sends = λ ctx r w s e. refused-Sent "Www-Authenticate" _ ctx _ w www_apart e;
      silent = λ ctx r w s. refl;
    }
    with_user-Answering (some id) h k = record {
      sends = λ ctx r w s e. k.sends _ r w s e;
      silent = λ ctx r w s. k.silent _ r w s;
    }

    with_token-Answering :
        (parse : String → Option ℤ) (token : Option String) (h : Handler (Server L W))
        → Answering h
        → Answering (with_token parse token h)
    with_token-Answering parse none h k = record {
      sends = λ ctx r w s e. refused-Sent "Www-Authenticate" _ ctx _ w www_apart e;
      silent = λ ctx r w s. refl;
    }
    with_token-Answering parse (some token) h k = record {
      sends = (with_user-Answering (parse token) h k).sends;
      silent = (with_user-Answering (parse token) h k).silent;
    }

    guarded-Answering : (now : Time) (b : Bool) (e : Endpoint) → Answering (guarded api now b e)
    unfolding authenticate
    guarded-Answering now true e = handler-Answering e
    guarded-Answering now false e = record {
      sends = λ ctx r.
          (with_token-Answering (api.parse now) (bearer_token (header_value r "Authorization")) _
              (handler-Answering e)).sends
            ctx r;
      silent = λ ctx r.
          (with_token-Answering (api.parse now) (bearer_token (header_value r "Authorization")) _
              (handler-Answering e)).silent
            ctx r;
    }

    dispatch-Answering : (now : Time) (f : Found) → Answering (dispatch api now f)
    dispatch-Answering now (endpoint e values) = record {
      sends = λ ctx r. (guarded-Answering now (is_public e) e).sends ctx _;
      silent = λ ctx r. (guarded-Answering now (is_public e) e).silent ctx _;
    }
    dispatch-Answering now other_method = record {
      sends = λ ctx r w s e. record { response = _; sent = refl; kept = refl };
      silent = λ ctx r w s. refl;
    }
    dispatch-Answering now nothing = record {
      sends = λ ctx r w s e. record { response = _; sent = refl; kept = refl };
      silent = λ ctx r w s. refl;
    }

    mux-Answering : (now : Time) → Answering (mux api now)
    unfolding mux
    mux-Answering now = record {
      sends = λ ctx r. (dispatch-Answering now (find_route routes r.method r.segments)).sends ctx r;
      silent =
          λ ctx r. (dispatch-Answering now (find_route routes r.method r.segments)).silent ctx r;
    }

    let_through-Answering :
        (b : Bool) (h : Handler (Server L W)) → Answering h → Answering (let_through b h)
    let_through-Answering true h k = record { sends = k.sends; silent = k.silent }
    let_through-Answering false h k = record {
      sends = λ ctx r w s e. refused-Sent "Retry-After" _ ctx _ w retry_apart e;
      silent = λ ctx r w s. refl;
    }

    limited-Answering :
        (l : Option (IpRateLimiter L)) (now : Time) (h : Handler (Server L W))
        → Answering h
        → Answering (limited api.rate now l h)
    limited-Answering none now h k = record { sends = k.sends; silent = k.silent }
    limited-Answering (some l) now h k = record {
      sends = λ ctx r w s.
          (let_through-Answering (allow api.rate (client_ip r.remote_addr) now l).0 h k).sends ctx r
            w _;
      silent = λ ctx r w s.
          (let_through-Answering (allow api.rate (client_ip r.remote_addr) now l).0 h k).silent ctx
            r w _;
    }

    abbrev logged : Surroundings → HttpRequest → Option Response → Entry
    logged env r sent = record {
      is_error = leb 500 (recorded_status sent);
      method = r.method;
      path = r.path;
      status = recorded_status sent;
      request_id = incoming_request_id r env;
    }

    -- The line of the log for an answer.
    abbrev pub entry : Surroundings → HttpRequest → Response → Entry
    entry env r response = record {
      is_error = leb 500 response.status;
      method = r.method;
      path = r.path;
      status = response.status;
      request_id = incoming_request_id r env;
    }

    -- Whatever arrives, and whatever state the server is in: one answer is sent, it carries the
    -- identifier of the request, and one line of the log is added, with the answer's status.
    pub serve_http-answers :
        (env : Surroundings) (r : HttpRequest) (s : Server L W)
        → let (w, s') = serve_http api env r s in
          (response : Response) × (w.sent ≡ some response)
          × (lookup "X-Request-Id" response.header ≡ some (incoming_request_id r env))
          × (s'.log ≡ s.log ++ entry env r response ∷ [])
    unfolding serve_http with_request_id request_logger rate_limit
    serve_http-answers env r s =
        let inner = limited-Answering s.limiter env.now (mux api env.now) (mux-Answering env.now) in
        let id = incoming_request_id r env in
        let ctx : Context = record { user_id = none; request_id = some id } in
        let w = set_header id_header id fresh in
        let k = inner.sends ctx r w s refl in
        (
          k.response,
          k.sent,
          k.kept ∙ lookup-insert_same id_header id [],
          λ i. inner.silent ctx r w s i ++ logged env r (k.sent i) ∷ [],
        )
