-- ===== src/Api/Guarded.antt =====
-- What a handler for administrators does without a session.
use frp_cluster.Base.{
  ◌≡◌, refl, ◌∙◌, Bool, true, false, Option, none, some, inl, inr, Bool-cases, [], ◌∷◌, ltb,
}
use frp_cluster.Text.{Text, str, text_eq, text_eq_refl}
use frp_cluster.Dict.{get}
use frp_cluster.Types.{Instant}
use frp_cluster.Api.{Api, World, HttpRequest, Handler}
use frp_cluster.Api.Answers.{refuse, on_method}
use frp_cluster.Api.Cluster.{
  path_parts, admin_leave_if, admin_leave_now, node_answer, node_action, node_parts,
  handle_node_action,
}
use frp_cluster.Api.Auth.{
  with_sessions, is_admin_auth_enabled, use_session, session_of_cookie, valid_session,
}
use frp_cluster.Api.Router.{
  Route, cluster_route, traffic_route, dns_test_route, settings_route, admin_config_route,
  restart_agent_route, tokens_route, node_action_route, client_action_route, join_command_route,
  route_of, admit, require_admin, handler_of, handle,
}

-- the parts of the program that are for administrators
pub data IsAdminRoute : Route → Type 0 where
  cluster_admin : IsAdminRoute cluster_route
  traffic_admin : IsAdminRoute traffic_route
  dns_test_admin : IsAdminRoute dns_test_route
  settings_admin : IsAdminRoute settings_route
  admin_config_admin : IsAdminRoute admin_config_route
  restart_agent_admin : IsAdminRoute restart_agent_route
  tokens_admin : IsAdminRoute tokens_route
  client_action_admin : IsAdminRoute client_action_route
  join_command_admin : IsAdminRoute join_command_route

-- What only an administrator may ask for: all requests for these parts, and the POST that makes
-- a node leave for an administrator.
pub data IsForAdmin (r : HttpRequest) : Type 0 where
  for_admin : IsAdminRoute (route_of r.path) → IsForAdmin r
  leave_for_admin :
      (node_id : Text)
      → route_of r.path ≡ node_action_route
      → path_parts r.path (str "/api/v1/nodes/") ≡ node_id ∷ str "admin-leave" ∷ []
      → r.method ≡ str "POST"
      → IsForAdmin r

-- the same but for the sessions
abbrev pub SameButSessions : Api → Api → Type 0
SameButSessions a b = a ≡ with_sessions a.sessions b

use_session-SameButSessions :
    (o : Option Instant) (token : Text) (w : World) (a : Api)
    → SameButSessions (use_session o token w a).1 a
unfolding use_session with_sessions
use_session-SameButSessions none token w a = refl
use_session-SameButSessions (some expires) token w a = elim (Bool-cases (ltb expires w.env.now)) [
  | inl e ↦ rw e refl
  | inr e ↦ rw e refl
]

cookie-SameButSessions :
    (cookie : Option Text) (w : World) (a : Api)
    → SameButSessions (session_of_cookie cookie w a).1 a
unfolding session_of_cookie with_sessions
cookie-SameButSessions none w a = refl
cookie-SameButSessions (some token) w a = elim (Bool-cases (text_eq token [])) [
  | inl e ↦ rw e refl
  | inr e ↦
      rw e (unfold with_sessions in use_session-SameButSessions (get token a.sessions) token w a)
]

pub valid_session-SameButSessions :
    (w : World) (r : HttpRequest) (a : Api) → SameButSessions (valid_session w r a).1 a
unfolding valid_session
valid_session-SameButSessions w r a = elim (Bool-cases (is_admin_auth_enabled w a)) [
  | inl e ↦ rw e (cookie-SameButSessions r.cookie w a)
  | inr e ↦ rw e (unfold with_sessions in refl)
]

require_admin-refuses :
    (next : Handler) (w : World) (r : HttpRequest) (a : Api)
    → (valid_session w r a).0 ≡ false
    → require_admin next w r a ≡ (refuse 401 (str "login required"), (valid_session w r a).1)
unfolding require_admin
require_admin-refuses next w r a h = refused (valid_session w r a) h
  where
    refused :
        (v : Bool × Api) → v.0 ≡ false → admit next v w r ≡ (refuse 401 (str "login required"), v.1)
    refused (true, b) e = absurd (cc e)
    refused (false, b) e = unfold admit in refl

handler_of-refuses :
    {route : Route} (w : World) (r : HttpRequest) (a : Api)
    → IsAdminRoute route
    → (valid_session w r a).0 ≡ false
    → handler_of route w r a ≡ (refuse 401 (str "login required"), (valid_session w r a).1)
unfolding handler_of
handler_of-refuses w r a cluster_admin h = require_admin-refuses _ w r a h
handler_of-refuses w r a traffic_admin h = require_admin-refuses _ w r a h
handler_of-refuses w r a dns_test_admin h = require_admin-refuses _ w r a h
handler_of-refuses w r a settings_admin h = require_admin-refuses _ w r a h
handler_of-refuses w r a admin_config_admin h = require_admin-refuses _ w r a h
handler_of-refuses w r a restart_agent_admin h = require_admin-refuses _ w r a h
handler_of-refuses w r a tokens_admin h = require_admin-refuses _ w r a h
handler_of-refuses w r a client_action_admin h = require_admin-refuses _ w r a h
handler_of-refuses w r a join_command_admin h = require_admin-refuses _ w r a h

admin_leave_if-refuses :
    (node_id : Text) (v : Bool × Api) (w : World) (r : HttpRequest)
    → v.0 ≡ false
    → admin_leave_if node_id v w r ≡ (refuse 401 (str "login required"), v.1)
unfolding admin_leave_if
admin_leave_if-refuses node_id (true, b) w r e = absurd (cc e)
admin_leave_if-refuses node_id (false, b) w r e = refl

admin_leave_action :
    (node_id : Text) (w : World) (r : HttpRequest) (a : Api)
    → node_action node_id (str "admin-leave") w r a
      ≡ on_method (str "POST") (admin_leave_now node_id) w r a
unfolding node_action node_answer text_eq str
admin_leave_action node_id w r a = refl

on_own_method :
    (next : Handler) (w : World) (r : HttpRequest) (a : Api)
    → r.method ≡ str "POST"
    → on_method (str "POST") next w r a ≡ next w r a
unfolding on_method
on_own_method next w r a post =
    let own : text_eq r.method (str "POST") ≡ true = cc (post, text_eq_refl (str "POST")) in
    rw (on_method, own) refl

admin_leave-refuses :
    (node_id : Text) (w : World) (r : HttpRequest) (a : Api)
    → path_parts r.path (str "/api/v1/nodes/") ≡ node_id ∷ str "admin-leave" ∷ []
    → r.method ≡ str "POST"
    → (valid_session w r a).0 ≡ false
    → handle_node_action w r a ≡ (refuse 401 (str "login required"), (valid_session w r a).1)
unfolding handle_node_action node_parts admin_leave_now
admin_leave-refuses node_id w r a parts post h = rw parts (
    admin_leave_action node_id w r a
    ∙ on_own_method (admin_leave_now node_id) w r a post
    ∙ admin_leave_if-refuses node_id (valid_session w r a) w r h)

handle-refuses :
    (w : World) (r : HttpRequest) (a : Api)
    → IsForAdmin r
    → (valid_session w r a).0 ≡ false
    → handle w r a ≡ (refuse 401 (str "login required"), (valid_session w r a).1)
unfolding handle handler_of
handle-refuses w r a (for_admin k) h = handler_of-refuses w r a k h
handle-refuses w r a (leave_for_admin node_id route parts post) h =
    rw route (admin_leave-refuses node_id w r a parts post h)

-- Without a valid session, a request for a part of the program that is for administrators,
-- whatever its method and its body, and a POST that makes a node leave for an administrator are
-- answered by 401 and change nothing but the sessions.
pub handle_refuses :
    (w : World) (r : HttpRequest) (a : Api)
    → IsForAdmin r
    → (valid_session w r a).0 ≡ false
    → ((handle w r a).0 ≡ refuse 401 (str "login required")) × SameButSessions (handle w r a).1 a
handle_refuses w r a k h = rw (handle-refuses w r a k h) (refl, valid_session-SameButSessions w r a)
