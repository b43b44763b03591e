-- ===== src/Api/Login.antt =====
-- Logging in and out, and setting up the authenticator: handleLogin, handleLogout, handleAuthMe,
-- allowTOTPBootstrap, handleTOTPSetup and handleTOTPConfirm of internal/control/api.go.
use frp_cluster.Base.{Bool, true, false, not, Option, none, some, [], if◌then◌else◌}
use frp_cluster.Text.{Text, str, text_eq, trim_space}
use frp_cluster.Totp.{verify_totp}
use frp_cluster.Api.{
  Api, World, HttpRequest, TotpConfig, LoginRequest, TotpSetupRequest, TotpConfirmRequest, Answer,
  env_failure, authenticated_is, totp_confirmed, auth_status, totp_setup, Response, Handler,
}
use frp_cluster.EnvFile.{EnvError}
use frp_cluster.Api.Answers.{answer, refuse, on_method, on_json, constant_time_string_equal}
use frp_cluster.Api.Auth.{
  current_admin_password, current_totp_config, totp_configured, is_admin_auth_enabled,
  write_totp_config, create_session, clear_session, valid_session,
}

unfoldable pub with_cookie : Text → Response → Response
with_cookie token resp = record resp { set_cookie = some token }

unfoldable pub session_answer : Answer → Option Text × Api → Response × Api
unfolding answer refuse with_cookie
session_answer done (none, a) = (refuse 500 (str "random"), a)
session_answer done (some token, a) = (with_cookie token (answer 200 done), a)

unfoldable pub login_with : Option TotpConfig → LoginRequest → Handler
unfolding refuse session_answer
login_with none req w r a = (refuse 428 (str "authenticator not configured"), a)
login_with (some cfg) req w r a =
    if not (verify_totp w.crypto cfg.secret req.code w.env.now)
    then (refuse 401 (str "invalid authenticator code"), a)
    else session_answer (authenticated_is true) (create_session w a)

unfoldable pub login_decoded : LoginRequest → Handler
unfolding login_with
login_decoded req w r a = login_with (current_totp_config a) req w r a

unfoldable pub handle_login : Handler
unfolding on_method on_json login_decoded
handle_login = on_method (str "POST") (λ w r a. on_json r.body.as_login login_decoded w r a)

-- clearSessionCookie
unfoldable pub clear_cookie : Option Text → Api → Api
clear_cookie none a = a
clear_cookie (some token) a = clear_session token a

unfoldable pub logout_now : Handler
unfolding clear_cookie with_cookie answer
logout_now w r a = (with_cookie [] (answer 200 (authenticated_is false)), clear_cookie r.cookie a)

unfoldable pub handle_logout : Handler
unfolding on_method logout_now
handle_logout = on_method (str "POST") logout_now

unfoldable pub auth_me_now : Handler
unfolding answer
auth_me_now w r a =
    let (valid, after) = valid_session w r a in
    (
      answer 200 (
          auth_status (record {
            auth_enabled = is_admin_auth_enabled w a;
            authenticated = valid;
            totp_configured = totp_configured a;
            bootstrap_required = not (totp_configured a);
          })),
      after,
    )

unfoldable pub handle_auth_me : Handler
unfolding on_method auth_me_now
handle_auth_me = on_method (str "GET") auth_me_now

unfoldable pub allow_totp_bootstrap : Text → World → HttpRequest → Api → Bool × Api
allow_totp_bootstrap bootstrap_password w r a =
    let (valid, after) = valid_session w r a in
    let password = current_admin_password w a in
    (
      if valid
          then true
          else if text_eq password []
          then false
          else constant_time_string_equal (trim_space bootstrap_password) password,
      after,
    )

-- what is done if the bootstrap is allowed
unfoldable pub if_allowed : Bool × Api → (Api → Response × Api) → Response × Api
unfolding refuse
if_allowed (true, a) next = next a
if_allowed (false, a) next = (refuse 401 (str "bootstrap authorization required"), a)

account_or_admin : Text → Text
account_or_admin account =
    if text_eq (trim_space account) [] then str "admin" else trim_space account

unfoldable pub setup_with : Option Text → TotpSetupRequest → World → Api → Response × Api
unfolding refuse answer account_or_admin
setup_with none req w a = (refuse 500 (str "random"), a)
setup_with (some secret) req w a =
    let account = account_or_admin req.account in
    (
      answer 200 (
          totp_setup (record {
            secret = secret;
            issuer = str "frp-cluster";
            account = account;
            otpauth_uri = w.totp_uri (str "frp-cluster") account secret;
          })),
      a,
    )

unfoldable pub setup_decoded : TotpSetupRequest → Handler
unfolding allow_totp_bootstrap if_allowed setup_with
setup_decoded req w r a =
    if_allowed (allow_totp_bootstrap req.bootstrap_password w r a)
      (λ a. setup_with w.totp_secret req w a)

unfoldable pub handle_totp_setup : Handler
unfolding on_method on_json setup_decoded
handle_totp_setup =
    on_method (str "POST") (λ w r a. on_json r.body.as_totp_setup setup_decoded w r a)

unfoldable pub config_error : Option EnvError → Response
unfolding refuse answer
config_error none = refuse 500 (str "auth config file not configured")
config_error (some e) = answer 500 (env_failure e)

unfoldable pub confirm_written : Option (Option EnvError) × Api → World → Response × Api
unfolding config_error session_answer
confirm_written (some e, a) w = (config_error e, a)
confirm_written (none, a) w = session_answer totp_confirmed (create_session w a)

unfoldable pub confirm_allowed : TotpConfirmRequest → World → Api → Response × Api
unfolding refuse confirm_written
confirm_allowed req w a =
    if not (verify_totp w.crypto req.secret req.code w.env.now)
    then (refuse 401 (str "invalid authenticator code"), a)
    else confirm_written
        (write_totp_config
          (record { secret = req.secret; issuer = str "frp-cluster"; account = req.account }) w a)
        w

unfoldable pub confirm_decoded : TotpConfirmRequest → Handler
unfolding allow_totp_bootstrap if_allowed confirm_allowed
confirm_decoded req w r a =
    if_allowed (allow_totp_bootstrap req.bootstrap_password w r a) (λ a. confirm_allowed req w a)

unfoldable pub handle_totp_confirm : Handler
unfolding on_method on_json confirm_decoded
handle_totp_confirm =
    on_method (str "POST") (λ w r a. on_json r.body.as_totp_confirm confirm_decoded w r a)
