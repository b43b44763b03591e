-- ===== src/Api/Auth.antt =====
-- Sessions and the configuration of the authenticator: internal/control/runtime.go.
use frp_cluster.Base.{
  ◌+◌, Bool, true, false, not, ◌||◌, Option, none, some, [], ◌∷◌, ◌⊎◌, inl, inr, ltb, if◌then◌else◌,
}
use frp_cluster.Text.{Text, str, text_eq, trim_space}
use frp_cluster.Dict.{Dict, get, put, remove}
use frp_cluster.Types.{Instant}
use frp_cluster.EnvFile.{EnvError, read_env_file, write_env_file, value_of}
use frp_cluster.Totp.{normalize_totp_secret}
use frp_cluster.Api.{Api, World, HttpRequest, TotpConfig}

abbrev or_when_unset : Text → Text → Text
or_when_unset value fallback = if text_eq value [] then fallback else value

password_in : Option Text → Text
password_in none = []
password_in (some content) = trim_space content

unfoldable pub current_admin_password : World → Api → Text
unfolding password_in
current_admin_password w a =
    if not (text_eq a.admin_password [])
    then a.admin_password
    else if text_eq a.admin_password_file []
    then []
    else password_in w.password_file

unfoldable pub with_defaults : TotpConfig → TotpConfig
with_defaults cfg = record cfg {
  issuer = or_when_unset cfg.issuer (str "frp-cluster");
  account = or_when_unset cfg.account (str "admin");
}

unfoldable totp_config_in : EnvError ⊎ Dict Text → Option TotpConfig
unfolding with_defaults
totp_config_in (inl e) = none
totp_config_in (inr values) =
    let cfg = with_defaults (record {
      secret = normalize_totp_secret (value_of (str "TOTP_SECRET") values);
      issuer = trim_space (value_of (str "TOTP_ISSUER") values);
      account = trim_space (value_of (str "TOTP_ACCOUNT") values);
    }) in
    if text_eq cfg.secret [] then none else some cfg

-- `none` for every error: no caller tells them apart
unfoldable pub current_totp_config : Api → Option TotpConfig
unfolding totp_config_in
current_totp_config a =
    if text_eq a.auth_config_file [] then none else totp_config_in (read_env_file a.auth_disk.file)

unfoldable pub is_some {ℓ} : {A : Type ℓ} → Option A → Bool
is_some none = false
is_some (some x) = true

unfoldable pub totp_configured : Api → Bool
unfolding current_totp_config is_some
totp_configured a = is_some (current_totp_config a)

unfoldable pub is_admin_auth_enabled : World → Api → Bool
unfolding totp_configured current_admin_password
is_admin_auth_enabled w a = totp_configured a || not (text_eq (current_admin_password w a) [])

-- the error that writing gives; `none` inside an error for a file that is not configured
unfoldable pub write_totp_config : TotpConfig → World → Api → Option (Option EnvError) × Api
unfolding with_defaults
write_totp_config cfg w a =
    let cfg = with_defaults cfg in
    let values =
      (str "TOTP_SECRET", normalize_totp_secret cfg.secret)
      ∷ (str "TOTP_ISSUER", cfg.issuer)
      ∷ (str "TOTP_ACCOUNT", cfg.account)
      ∷ [] in
    if text_eq a.auth_config_file []
    then (some none, a)
    else let (e, d) = write_env_file values w.auth_saving a.auth_disk in
      (elim e [ none ↦ none | some error ↦ some (some error) ], record a { auth_disk = d })

unfoldable pub with_sessions : Dict Instant → Api → Api
with_sessions sessions a = record a { sessions = sessions }

unfoldable pub session_with : Option Text → World → Api → Option Text × Api
unfolding with_sessions
session_with none w a = (none, a)
session_with (some token) w a =
    (some token, with_sessions (put token (w.env.now + a.session_ttl) a.sessions) a)

-- the new token, unless the system gives no random bytes
unfoldable pub create_session : World → Api → Option Text × Api
unfolding session_with
create_session w a = session_with w.session_token w a

unfoldable pub clear_session : Text → Api → Api
unfolding with_sessions
clear_session token a = if text_eq token [] then a else with_sessions (remove token a.sessions) a

-- the session that was found under the cookie's value
unfoldable pub use_session : Option Instant → Text → World → Api → Bool × Api
unfolding with_sessions
use_session none token w a = (false, a)
use_session (some expires) token w a =
    if ltb expires w.env.now
    then (false, with_sessions (remove token a.sessions) a)
    else (true, with_sessions (put token (w.env.now + a.session_ttl) a.sessions) a)

unfoldable pub session_of_cookie : Option Text → World → Api → Bool × Api
unfolding use_session
session_of_cookie none w a = (false, a)
session_of_cookie (some token) w a =
    if text_eq token [] then (false, a) else use_session (get token a.sessions) token w a

-- Each use of a session prolongs it. Without a password and an authenticator, all are let in.
unfoldable pub valid_session : World → HttpRequest → Api → Bool × Api
unfolding is_admin_auth_enabled session_of_cookie
valid_session w r a =
    if not (is_admin_auth_enabled w a) then (true, a) else session_of_cookie r.cookie w a
