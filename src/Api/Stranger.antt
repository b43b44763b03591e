-- ===== src/Api/Stranger.antt =====
-- What a request without a session can change.
use frp_cluster.Base.{
  ◌≡◌, refl, ◌∙◌, Bool, true, false, Option, none, some, [], inl, inr, Bool-cases,
}
use frp_cluster.Text.{Text, text_eq}
use frp_cluster.Store.{Store}
use frp_cluster.EnvFile.{EnvError}
use frp_cluster.Totp.{verify_totp}
use frp_cluster.Api.{
  Api, World, HttpRequest, TotpConfig, LoginRequest, TotpSetupRequest, TotpConfirmRequest, Decoded,
  Answer, Response, Handler,
}
use frp_cluster.Api.Answers.{on_method, on_json, with_store}
use frp_cluster.Api.Auth.{
  with_sessions, valid_session, create_session, session_with, clear_session, write_totp_config,
}
use frp_cluster.Api.Login.{
  handle_login, handle_logout, handle_auth_me, handle_totp_setup, handle_totp_confirm,
  allow_totp_bootstrap, session_answer, login_with, login_decoded, clear_cookie, logout_now,
  auth_me_now, if_allowed, setup_with, setup_decoded, confirm_written, confirm_allowed,
  confirm_decoded,
}
use frp_cluster.Api.Guarded.{SameButSessions, valid_session-SameButSessions}
use frp_cluster.Api.Settings.{SameSettings, SameSettings-refl}

-- What belongs to administrators is as it was: the settings, and the two files of settings.
pub record IsUnharmed (b a : Api) : Type 0 where
  pub settings : SameSettings b.store.state.config a.store.state.config
  pub ali_dns_file : b.ali_dns_disk ≡ a.ali_dns_disk
  pub node_file : b.node_disk ≡ a.node_disk

pub IsUnharmed-refl : (a : Api) → IsUnharmed a a
IsUnharmed-refl a = record {
  settings = SameSettings-refl a.store.state.config;
  ali_dns_file = refl;
  node_file = refl;
}

pub IsUnharmed-sessions : (b a : Api) → SameButSessions b a → IsUnharmed b a
unfolding with_sessions
IsUnharmed-sessions b a e = rw e (record {
  settings = SameSettings-refl a.store.state.config;
  ali_dns_file = refl;
  node_file = refl;
})

abbrev pub Spares : Handler → Type 0
Spares h = (w : World) (r : HttpRequest) (a : Api) → IsUnharmed (h w r a).1 a

pub IsUnharmed-store :
    (a : Api) (s : Store)
    → SameSettings s.state.config a.store.state.config
    → IsUnharmed (with_store s a) a
unfolding with_store
IsUnharmed-store a s h = record { settings = h; ali_dns_file = refl; node_file = refl }

pub on_method-Spares : (method : Text) (h : Handler) → Spares h → Spares (on_method method h)
unfolding on_method
on_method-Spares method h spares w r a = elim (Bool-cases (text_eq r.method method)) [
  | inl e ↦ rw (on_method, e) (spares w r a)
  | inr e ↦ rw (on_method, e) (IsUnharmed-refl a)
]

pub on_json-Spares :
    {A : Type 0} (d : Decoded A) (h : A → Handler)
    → ((value : A) → Spares (h value))
    → Spares (on_json d h)
unfolding on_json
on_json-Spares (inl text) h spares w r a = IsUnharmed-refl a
on_json-Spares (inr value) h spares w r a = spares value w r a

pub valid_session-Unharmed :
    (w : World) (r : HttpRequest) (a : Api) → IsUnharmed (valid_session w r a).1 a
valid_session-Unharmed w r a =
    IsUnharmed-sessions (valid_session w r a).1 a (valid_session-SameButSessions w r a)

create_session-Unharmed : (w : World) (a : Api) → IsUnharmed (create_session w a).1 a
unfolding create_session
create_session-Unharmed w a = made w.session_token
  where
    made : (t : Option Text) → IsUnharmed (session_with t w a).1 a
    made none = unfold session_with in IsUnharmed-refl a
    made (some token) =
        unfold session_with with_sessions in
        record {
          settings = SameSettings-refl a.store.state.config;
          ali_dns_file = refl;
          node_file = refl;
        }

session_answer-Unharmed :
    (done : Answer) (p : Option Text × Api) (a : Api)
    → IsUnharmed p.1 a
    → IsUnharmed (session_answer done p).1 a
unfolding session_answer
session_answer-Unharmed done (none, b) a h = h
session_answer-Unharmed done (some token, b) a h = h

login_with-Spares : (cfg : Option TotpConfig) (req : LoginRequest) → Spares (login_with cfg req)
unfolding login_with
login_with-Spares none req w r a = IsUnharmed-refl a
login_with-Spares (some cfg) req w r a =
    elim (Bool-cases (verify_totp w.crypto cfg.secret req.code w.env.now)) [
      | inl e ↦ rw e (session_answer-Unharmed _ _ a (create_session-Unharmed w a))
      | inr e ↦ rw e (IsUnharmed-refl a)
    ]

pub login-Spares : Spares handle_login
unfolding handle_login login_decoded
login-Spares =
    on_method-Spares _ _
      (λ w r a. on_json-Spares r.body.as_login _ (λ req w r a. login_with-Spares _ req w r a) w r a)

pub logout-Spares : Spares handle_logout
unfolding handle_logout logout_now clear_cookie clear_session with_sessions
logout-Spares = on_method-Spares _ _ (λ w r a. cleared r.cookie a)
  where
    cleared : (cookie : Option Text) (a : Api) → IsUnharmed (clear_cookie cookie a) a
    cleared none a = IsUnharmed-refl a
    cleared (some token) a = elim (Bool-cases (text_eq token [])) [
      | inl e ↦ rw e (IsUnharmed-refl a)
      | inr e ↦ rw e (record {
        settings = SameSettings-refl a.store.state.config;
        ali_dns_file = refl;
        node_file = refl;
      })
    ]

pub auth_me-Spares : Spares handle_auth_me
unfolding handle_auth_me auth_me_now
auth_me-Spares = on_method-Spares _ _ valid_session-Unharmed

if_allowed-Unharmed :
    (p : Bool × Api) (next : Api → Response × Api) (a : Api)
    → IsUnharmed p.1 a
    → ((b : Api) → IsUnharmed b a → IsUnharmed (next b).1 a)
    → IsUnharmed (if_allowed p next).1 a
unfolding if_allowed
if_allowed-Unharmed (true, b) next a h k = k b h
if_allowed-Unharmed (false, b) next a h k = h

pub IsUnharmed-trans : (c b a : Api) → IsUnharmed c b → IsUnharmed b a → IsUnharmed c a
IsUnharmed-trans c b a h k = record {
  settings = record {
    auto_migration = h.settings.auto_migration ∙ k.settings.auto_migration;
    migration_score_gap = h.settings.migration_score_gap ∙ k.settings.migration_score_gap;
    public_entry_host = h.settings.public_entry_host ∙ k.settings.public_entry_host;
    dns_update_hook = h.settings.dns_update_hook ∙ k.settings.dns_update_hook;
  };
  ali_dns_file = h.ali_dns_file ∙ k.ali_dns_file;
  node_file = h.node_file ∙ k.node_file;
}

allow_bootstrap-Unharmed :
    (password : Text) (w : World) (r : HttpRequest) (a : Api)
    → IsUnharmed (allow_totp_bootstrap password w r a).1 a
unfolding allow_totp_bootstrap
allow_bootstrap-Unharmed password w r a = valid_session-Unharmed w r a

setup_with-Unharmed :
    (o : Option Text) (req : TotpSetupRequest) (w : World) (a : Api)
    → IsUnharmed (setup_with o req w a).1 a
unfolding setup_with
setup_with-Unharmed none req w a = IsUnharmed-refl a
setup_with-Unharmed (some secret) req w a = IsUnharmed-refl a

pub setup-Spares : Spares handle_totp_setup
unfolding handle_totp_setup setup_decoded
setup-Spares = on_method-Spares _ _ (λ w r a.
    on_json-Spares r.body.as_totp_setup _
      (λ req w r a.
        if_allowed-Unharmed _ _ a (allow_bootstrap-Unharmed req.bootstrap_password w r a)
          (λ b h. IsUnharmed-trans _ b a (setup_with-Unharmed w.totp_secret req w b) h))
      w r a)

write_totp_config-Unharmed :
    (cfg : TotpConfig) (w : World) (a : Api) → IsUnharmed (write_totp_config cfg w a).1 a
unfolding write_totp_config
write_totp_config-Unharmed cfg w a = elim (Bool-cases (text_eq a.auth_config_file [])) [
  | inl e ↦ rw e (IsUnharmed-refl a)
  | inr e ↦ rw e (record {
    settings = SameSettings-refl a.store.state.config;
    ali_dns_file = refl;
    node_file = refl;
  })
]

confirm_written-Unharmed :
    (p : Option (Option EnvError) × Api) (w : World) (a : Api)
    → IsUnharmed p.1 a
    → IsUnharmed (confirm_written p w).1 a
unfolding confirm_written
confirm_written-Unharmed (some e, b) w a h = h
confirm_written-Unharmed (none, b) w a h =
    session_answer-Unharmed _ _ a (IsUnharmed-trans _ b a (create_session-Unharmed w b) h)

confirm_allowed-Unharmed :
    (req : TotpConfirmRequest) (w : World) (a : Api) → IsUnharmed (confirm_allowed req w a).1 a
unfolding confirm_allowed
confirm_allowed-Unharmed req w a =
    elim (Bool-cases (verify_totp w.crypto req.secret req.code w.env.now)) [
      | inl e ↦ rw e (confirm_written-Unharmed _ w a (write_totp_config-Unharmed _ w a))
      | inr e ↦ rw e (IsUnharmed-refl a)
    ]

pub confirm-Spares : Spares handle_totp_confirm
unfolding handle_totp_confirm confirm_decoded
confirm-Spares = on_method-Spares _ _ (λ w r a.
    on_json-Spares r.body.as_totp_confirm _
      (λ req w r a.
        if_allowed-Unharmed _ _ a (allow_bootstrap-Unharmed req.bootstrap_password w r a)
          (λ b h. IsUnharmed-trans _ b a (confirm_allowed-Unharmed req w b) h))
      w r a)
