-- ===== src/Api/Peers.antt =====
-- The handlers for peers and for the plugin of frps: handlePeerState and handlePlugin of
-- internal/control/api.go.
use frp_cluster.Base.{true, false, [], ◌∷◌, if◌then◌else◌}
use frp_cluster.Text.{Text, str, text_eq, has_prefix}
use frp_cluster.Ids.{first_non_empty}
use frp_cluster.Content.{PluginEvent}
use frp_cluster.Requests.{Error}
use frp_cluster.Plugin.{apply_plugin_event}
use frp_cluster.Merge.{RemoteState, merge_state, raw_state}
use frp_cluster.Api.{HttpRequest, failure, status_is, state_is, event_taken, Response, Handler}
use frp_cluster.Api.Answers.{
  answer, refuse, on_method, on_json, run_store, query_get, control_url_from_request,
}
use frp_cluster.Api.Cluster.{trim_prefix}

-- every error of the operation is the server's
server_error : Error → Response
unfolding answer
server_error e = answer 500 (failure e)

unfoldable pub state_decoded : RemoteState → Handler
unfolding run_store server_error answer
state_decoded state w r a =
    let given = query_get (str "source_url") r in
    let source_url = if text_eq given [] then control_url_from_request r else given in
    run_store server_error (λ _. answer 200 (status_is (str "merged")))
      (merge_state state source_url) w r a

-- It asks for no session and for no token.
unfoldable pub handle_peer_state : Handler
unfolding answer refuse on_json state_decoded
handle_peer_state w r a = elim (text_eq r.method (str "GET")) [
  | true ↦ (answer 200 (state_is (raw_state a.store.state)), a)
  | false ↦ elim (text_eq r.method (str "POST")) [
    | true ↦ on_json r.body.as_state state_decoded w r a
    | false ↦ (refuse 405 (str "method not allowed"), a)
  ]
]

-- the node that the path names, if it names one
unfoldable path_node : Text → Text
path_node path =
    if has_prefix path (str "/api/v1/frp/plugin/")
    then trim_prefix path (str "/api/v1/frp/plugin/")
    else []

-- what the event leaves out is taken from the query
unfoldable fill_plugin_event : HttpRequest → PluginEvent → PluginEvent
fill_plugin_event r event = record event {
  op = if text_eq event.op [] then query_get (str "op") r else event.op;
  node_id = if text_eq event.node_id [] then query_get (str "node_id") r else event.node_id;
}

unfoldable pub event_decoded : PluginEvent → Handler
unfolding run_store server_error answer path_node fill_plugin_event
event_decoded event w r a =
    run_store server_error (λ _. answer 200 event_taken)
      (apply_plugin_event (first_non_empty (query_get (str "node_id") r ∷ path_node r.path ∷ []))
        (fill_plugin_event r event))
      w r a

unfoldable pub handle_plugin : Handler
unfolding on_method on_json event_decoded
handle_plugin = on_method (str "POST") (λ w r a. on_json r.body.as_plugin_event event_decoded w r a)
