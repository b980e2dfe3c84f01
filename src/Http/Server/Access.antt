-- ===== src/Http/Server/Access.antt =====
-- Who gets through to the use cases.
use test_api.Prelude.{
  String, ◌≡◌, ◌≢◌, [], refl, sym, ap, subst, ◌∙◌, Bool, true, false, Option, none, some, Dict, inl,
  inr, ℕ, ◌⊎◌, ℤ,
}
use test_api.Domain.Errors.{Error, unauthorized, rate_limited}
use test_api.Domain.Task.{Time}
use test_api.Http.Json.{write_error, write_json, of_domain, status_of}
use test_api.Http.Message.{bytes, HttpRequest, Writer, Context, header_value}
use test_api.Http.Limiter.{IpRateLimiter, allow, client_ip}
use test_api.Http.Middleware.{
  Server, Surroundings, authenticate, bearer_token, with_request_id, request_logger, rate_limit,
  set_header, Handler, let_through, limited,
}
use test_api.Http.Server as Server
use test_api.Http.Server.{
  Api, Endpoint, Found, endpoint, find_route, routes, is_public, mux, serve_http, guarded, handler,
  dispatch,
}

-- No token, or one that the tokens' `Parse` refuses.
pub data IsUnknown (parse : String → Option ℤ) (r : HttpRequest) : Type 0 where
  no_token : bearer_token (header_value r "Authorization") ≡ none → IsUnknown parse r
  bad_token :
      (token : String)
      → bearer_token (header_value r "Authorization") ≡ some token
      → parse token ≡ none
      → IsUnknown parse r

abbrev pub status_sent : Writer → Option ℕ
status_sent w = elim w.sent [ none ↦ none | some r ↦ some r.status ]

-- What an error sends is its status, where nothing has been sent.
write_error-status :
    (ctx : Context) (e : Error) (w : Writer)
    → w.sent ≡ none
    → status_sent (write_error ctx (of_domain e) w) ≡ some (status_of e.code)
unfolding write_error write_json
write_error-status ctx e w h = rw h refl

module _ {L W : Type 0} where
  -- An outcome that sends the status and changes nothing.
  abbrev IsRefused : ℕ → Server L W → Writer × Server L W → Type 0
  IsRefused status s outcome = (status_sent outcome.0 ≡ some status) × (outcome.1 ≡ s)

  authenticate-unknown :
      (parse : String → Option ℤ) (h : Handler (Server L W)) (ctx : Context) (r : HttpRequest)
      (w : Writer) (s : Server L W)
      → IsUnknown parse r
      → w.sent ≡ none
      → IsRefused 401 s (authenticate parse h ctx r w s)
  unfolding authenticate
  authenticate-unknown parse h ctx r w s (no_token missing) fresh = rw missing (
    write_error-status ctx (unauthorized "bearer token is required" [])
        (set_header "Www-Authenticate" (bytes "Bearer realm=\"api\"") w) fresh,
    refl,
  )
  authenticate-unknown parse h ctx r w s (bad_token token given refused) fresh =
      rw (given, refused)
        (
          write_error-status ctx (unauthorized "token is invalid or has expired" [])
              (set_header "Www-Authenticate" (bytes "Bearer error=\"invalid_token\"") w) fresh,
          refl,
        )

  module _ (api : Api L W) where
    mux-dispatch :
        (now : Time) (ctx : Context) (r : HttpRequest) (w : Writer) (s : Server L W)
        → mux api now ctx r w s ≡ dispatch api now (find_route routes r.method r.segments) ctx r w s
    unfolding mux
    mux-dispatch now ctx r w s = refl

    guarded-unknown :
        (now : Time) (b : Bool) (e : Endpoint) (ctx : Context) (r : HttpRequest) (w : Writer)
        (s : Server L W)
        → b ≡ false
        → IsUnknown (api.parse now) r
        → w.sent ≡ none
        → IsRefused 401 s (guarded api now b e ctx r w s)
    guarded-unknown now true e ctx r w s private unknown fresh = cc
    guarded-unknown now false e ctx r w s private unknown fresh =
        authenticate-unknown (api.parse now) (handler api e) ctx r w s unknown fresh

    -- Every endpoint but the two has the wrapper.
    is_public-private :
        (e : Endpoint) → e ≢ Server.register → e ≢ Server.login → is_public e ≡ false
    is_public-private Server.register h k = absurd (h refl)
    is_public-private Server.login h k = absurd (k refl)
    is_public-private Server.create_team h k = refl
    is_public-private Server.list_teams h k = refl
    is_public-private Server.invite h k = refl
    is_public-private Server.change_role h k = refl
    is_public-private Server.team_stats h k = refl
    is_public-private Server.create_task h k = refl
    is_public-private Server.list_tasks h k = refl
    is_public-private Server.update_task h k = refl
    is_public-private Server.task_history h k = refl
    is_public-private Server.add_comment h k = refl
    is_public-private Server.list_comments h k = refl

    mux-unknown :
        (now : Time) (ctx : Context) (r : HttpRequest) (w : Writer) (s : Server L W) (e : Endpoint)
        (values : Dict String)
        → find_route routes r.method r.segments ≡ endpoint e values
        → is_public e ≡ false
        → IsUnknown (api.parse now) r
        → w.sent ≡ none
        → IsRefused 401 s (mux api now ctx r w s)
    mux-unknown now ctx r w s e values route private unknown fresh =
        subst (IsRefused 401 s)
          (sym
            (mux-dispatch now ctx r w s ∙ ap (λ (f : Found). dispatch api now f ctx r w s) route))
          (guarded-unknown now (is_public e) e ctx (record r { path_values = values }) w s private
            (same_header unknown) fresh)
      where
        same_header :
            IsUnknown (api.parse now) r
            → IsUnknown (api.parse now) (record r { path_values = values })
        same_header (no_token missing) = no_token missing
        same_header (bad_token token given refused) = bad_token token given refused

    -- A refusal by the tokens or by the limiter.
    abbrev IsTurnedAway : Server L W → Writer × Server L W → Type 0
    IsTurnedAway s outcome =
        ((status_sent outcome.0 ≡ some 401) ⊎ (status_sent outcome.0 ≡ some 429))
        × (outcome.1.world ≡ s.world)

    let_through-unknown :
        (b : Bool) (h : Handler (Server L W)) (ctx : Context) (r : HttpRequest) (w : Writer)
        (s : Server L W)
        → IsRefused 401 s (h ctx r w s)
        → w.sent ≡ none
        → IsTurnedAway s (let_through b h ctx r w s)
    let_through-unknown true h ctx r w s k fresh = (inl k.0, ap (λ (t : Server L W). t.world) k.1)
    let_through-unknown false h ctx r w s k fresh = (
      inr (
          write_error-status ctx (rate_limited "too many requests, slow down" [])
            (set_header "Retry-After" (bytes "1") w) fresh),
      refl,
    )

    limited-unknown :
        (l : Option (IpRateLimiter L)) (now : Time) (h : Handler (Server L W)) (ctx : Context)
        (r : HttpRequest) (w : Writer) (s : Server L W)
        → ((t : Server L W) → IsRefused 401 t (h ctx r w t))
        → w.sent ≡ none
        → IsTurnedAway s (limited api.rate now l h ctx r w s)
    limited-unknown none now h ctx r w s k fresh =
        (inl (k s).0, ap (λ (t : Server L W). t.world) (k s).1)
    limited-unknown (some l) now h ctx r w s k fresh =
        let (allowed, l') = allow api.rate (client_ip r.remote_addr) now l in
        let_through-unknown allowed h ctx r w (record s { limiter = some l' }) (k _) fresh

    -- A request for any endpoint but `register` and `login` that carries no token, or one that is
    -- refused, is answered with 401, or with 429 by the limiter, and leaves the world as it was.
    pub serve_http-unknown :
        (env : Surroundings) (r : HttpRequest) (s : Server L W) (e : Endpoint)
        (values : Dict String)
        → find_route routes r.method r.segments ≡ endpoint e values
        → e ≢ Server.register
        → e ≢ Server.login
        → IsUnknown (api.parse env.now) r
        → let (w, s') = serve_http api env r s in
          ((status_sent w ≡ some 401) ⊎ (status_sent w ≡ some 429)) × (s'.world ≡ s.world)
    unfolding serve_http with_request_id request_logger rate_limit
    serve_http-unknown env r s e values route not_register not_login unknown =
        limited-unknown s.limiter env.now (mux api env.now) _ r _ s
          (λ t.
            mux-unknown env.now _ r _ t e values route (is_public-private e not_register not_login)
              unknown refl)
          refl
