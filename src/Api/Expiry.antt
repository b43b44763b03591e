-- ===== src/Api/Expiry.antt =====
-- The life of a session, from a login to its end.
use frp_cluster.Base.{
  ◌+◌, ◌≡◌, ◌≢◌, refl, ap, ◌∙◌, Bool, true, false, not, none, some, [], inr, inl, ltb, Bool-cases,
}
use frp_cluster.Text.{Text, str, text_eq, text_eq_refl, text_differs}
use frp_cluster.Dict.{get, put, remove, get-put, get-remove}
use frp_cluster.Types.{Instant}
use frp_cluster.Totp.{verify_totp}
use frp_cluster.Api.{
  Api, World, HttpRequest, TotpConfig, LoginRequest, authenticated_is, Response, Handler,
}
use frp_cluster.Api.Answers.{answer, on_method, on_json}
use frp_cluster.Api.Auth.{
  with_sessions, current_totp_config, totp_configured, is_some, is_admin_auth_enabled,
  create_session, session_with, clear_session, use_session, session_of_cookie, valid_session,
}
use frp_cluster.Api.Login.{
  handle_login, login_decoded, login_with, session_answer, with_cookie, handle_logout, logout_now,
  clear_cookie,
}

-- with an authenticator, the session under the cookie decides
pub valid_session-cookie :
    (w : World) (r : HttpRequest) (a : Api) (cfg : TotpConfig) (token : Text)
    → current_totp_config a ≡ some cfg
    → r.cookie ≡ some token
    → token ≢ []
    → valid_session w r a ≡ use_session (get token a.sessions) token w a
unfolding valid_session is_admin_auth_enabled totp_configured is_some session_of_cookie
valid_session-cookie w r a cfg token configured cookie named =
    rw (configured, cookie, text_differs token [] named) refl

-- a session is valid up to its end
use_session-lives :
    (expires : Instant) (token : Text) (w : World) (a : Api)
    → (use_session (some expires) token w a).0 ≡ not (ltb expires w.env.now)
unfolding use_session
use_session-lives expires token w a = elim (Bool-cases (ltb expires w.env.now)) [
  | inl e ↦ rw e refl
  | inr e ↦ rw e refl
]

on_method_taken :
    (method : Text) (h : Handler) (w : World) (r : HttpRequest) (a : Api)
    → r.method ≡ method
    → on_method method h w r a ≡ h w r a
unfolding on_method
on_method_taken method h w r a e =
    let same : text_eq r.method method ≡ true = rw e (text_eq_refl method) in
    rw (on_method, same) refl

module _ (w : World) (r : HttpRequest) (a : Api) (cfg : TotpConfig) (req : LoginRequest)
    (token : Text) where
  -- the API after the login
  abbrev pub logged_in : Api
  logged_in = with_sessions (put token (w.env.now + a.session_ttl) a.sessions) a

  login-logged_in :
      r.method ≡ str "POST"
      → r.body.as_login ≡ inr req
      → current_totp_config a ≡ some cfg
      → verify_totp w.crypto cfg.secret req.code w.env.now ≡ true
      → w.session_token ≡ some token
      → handle_login w r a ≡ (with_cookie token (answer 200 (authenticated_is true)), logged_in)
  unfolding handle_login on_json login_decoded login_with create_session session_with session_answer
  login-logged_in post body configured right fresh =
      on_method_taken (str "POST") (λ w r a. on_json r.body.as_login login_decoded w r a) w r a post
      ∙ rw (body, configured, right, fresh) refl

  later_lives :
      (v : World) (later : HttpRequest)
      → current_totp_config a ≡ some cfg
      → token ≢ []
      → later.cookie ≡ some token
      → (valid_session v later logged_in).0 ≡ not (ltb (w.env.now + a.session_ttl) v.env.now)
  unfolding with_sessions
  later_lives v later configured named cookie =
      ap (λ (p : Bool × Api). p.0)
        (valid_session-cookie v later logged_in cfg token (unfold current_totp_config in configured)
          cookie named)
      ∙ rw (found) (use_session-lives (w.env.now + a.session_ttl) token v logged_in)
    where
      found :
          get token (put token (w.env.now + a.session_ttl) a.sessions)
          ≡ some (w.env.now + a.session_ttl)
      found = get-put token token _ a.sessions ∙ rw (text_eq_refl token) refl

  logged_out :
      (v : World) (later : HttpRequest)
      → later.method ≡ str "POST"
      → token ≢ []
      → later.cookie ≡ some token
      → (handle_logout v later logged_in).1
        ≡ with_sessions (remove token logged_in.sessions) logged_in
  unfolding handle_logout logout_now clear_cookie clear_session
  logged_out v later post named cookie =
      ap (λ (p : Response × Api). p.1)
        (on_method_taken (str "POST") logout_now v later logged_in post)
      ∙ rw (cookie, text_differs token [] named) refl

  abbrev pub without_token : Api
  without_token = with_sessions (remove token logged_in.sessions) logged_in

  later_refused :
      (v : World) (later : HttpRequest)
      → current_totp_config a ≡ some cfg
      → token ≢ []
      → later.cookie ≡ some token
      → (valid_session v later without_token).0 ≡ false
  unfolding with_sessions
  later_refused v later configured named cookie =
      ap (λ (p : Bool × Api). p.0)
        (valid_session-cookie v later without_token cfg token
          (unfold current_totp_config in configured) cookie named)
      ∙ rw gone (unfold use_session in refl)
    where
      gone : get token (remove token logged_in.sessions) ≡ none
      gone = get-remove token token _ ∙ rw (text_eq_refl token) refl

  -- With the right code of a configured authenticator, a POST to the login is answered by 200 and
  -- a cookie with a fresh token. A later request with this cookie is admitted exactly up to the
  -- end of the session's time to live, if no other comes between; once it was posted to the
  -- logout, it is not admitted any more.
  pub login_logout :
      (v : World) (later : HttpRequest)
      → r.method ≡ str "POST"
      → r.body.as_login ≡ inr req
      → current_totp_config a ≡ some cfg
      → verify_totp w.crypto cfg.secret req.code w.env.now ≡ true
      → w.session_token ≡ some token
      → token ≢ []
      → later.method ≡ str "POST"
      → later.cookie ≡ some token
      → ((handle_login w r a).0 ≡ with_cookie token (answer 200 (authenticated_is true)))
        × ((valid_session v later (handle_login w r a).1).0
            ≡ not (ltb (w.env.now + a.session_ttl) v.env.now))
        × ((valid_session v later (handle_logout v later (handle_login w r a).1).1).0 ≡ false)
  login_logout v later post body configured right fresh named later_post cookie =
      rw (login-logged_in post body configured right fresh) (
        refl,
        later_lives v later configured named cookie,
        rw (logged_out v later later_post named cookie)
            (later_refused v later configured named cookie),
      )
