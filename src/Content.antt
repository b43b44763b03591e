-- ===== src/Content.antt =====
-- The content of a plugin event: normalizePluginEvent, stringField, intField and metaField of
-- internal/control/service.go.
use frp_cluster.Base.{Option, none, some, [], ◌∷◌, ℤ, pos, int_eq, if◌then◌else◌}
use frp_cluster.Text.{Text, str, text_eq, trim_space}
use frp_cluster.Ids.{first_non_empty}

-- The value that `any` holds after the request's body is decoded. A number is kept as the `int`
-- that `int(value)` makes of it; null, a Boolean and an array are one case, which no test admits.
mutual
  pub data JsonValue : Type 0 where
    json_other : JsonValue
    json_text : Text → JsonValue
    json_number : ℤ → JsonValue
    json_object : JsonFields → JsonValue

  pub data JsonFields : Type 0 where
    no_fields : JsonFields
    json_field : Text → JsonValue → JsonFields → JsonFields

pub record PluginEvent : Type 0 where
  pub version : Text
  pub op : Text
  pub content : JsonValue
  pub user : Text
  pub proxy_name : Text
  pub proxy_type : Text
  pub remote_addr : Text
  pub remote_port : ℤ
  pub client_id : Text
  pub node_id : Text

-- `values[key]`; a missing key gives nil, which no test admits
unfoldable pub field_value : Text → JsonFields → JsonValue
field_value key no_fields = json_other
field_value key (json_field name value values) =
    let rest = field_value key values in if text_eq name key then value else rest

unfoldable text_value : JsonValue → Text
text_value json_other = []
text_value (json_text text) = trim_space text
text_value (json_number n) = []
text_value (json_object values) = []

unfoldable number_value : JsonValue → ℤ
number_value json_other = pos 0
number_value (json_text text) = pos 0
number_value (json_number n) = n
number_value (json_object values) = pos 0

unfoldable object_value : JsonValue → Option JsonFields
object_value json_other = none
object_value (json_text text) = none
object_value (json_number n) = none
object_value (json_object values) = some values

unfoldable pub string_field : JsonFields → Text → Text
unfolding text_value
string_field values key = text_value (field_value key values)

unfoldable pub int_field : JsonFields → Text → ℤ
unfolding number_value
int_field values key = number_value (field_value key values)

unfoldable meta_of : Option JsonFields → Text → Text
meta_of none key = []
meta_of (some metas) key = string_field metas key

unfoldable pub meta_field : JsonFields → Text → Text
unfolding meta_of object_value
meta_field values key = meta_of (object_value (field_value (str "metas") values)) key

-- a text that is empty gives way to another
abbrev pub or_text : Text → Text → Text
or_text value fallback = if text_eq value [] then fallback else value

-- the part of normalizePluginEvent on a nested user
unfoldable pub fill_user : Option JsonFields → PluginEvent → PluginEvent
fill_user none event = event
fill_user (some user) event = record event {
  user = or_text event.user (string_field user (str "user"));
  client_id =
      or_text event.client_id (
        first_non_empty
          (meta_field user (str "client_id") ∷ string_field user (str "run_id") ∷ []));
}

unfoldable pub fill_rest : JsonFields → PluginEvent → PluginEvent
fill_rest content event = record event {
  remote_addr = or_text event.remote_addr (
      first_non_empty (
        string_field content (str "client_address")
        ∷ string_field content (str "remote_addr")
        ∷ []));
  client_id = or_text event.client_id (
      first_non_empty (
        meta_field content (str "client_id")
        ∷ string_field content (str "run_id")
        ∷ event.user
        ∷ []));
  proxy_name = or_text event.proxy_name (string_field content (str "proxy_name"));
  proxy_type = or_text event.proxy_type (string_field content (str "proxy_type"));
  remote_port =
      if int_eq event.remote_port (pos 0)
      then int_field content (str "remote_port")
      else event.remote_port;
}

unfoldable fill_event : Option JsonFields → PluginEvent → PluginEvent
unfolding object_value
fill_event none event = event
fill_event (some content) event = fill_rest content (
    fill_user (object_value (field_value (str "user") content))
      (record event { user = or_text event.user (string_field content (str "user")) }))

unfoldable pub normalize_plugin_event : PluginEvent → PluginEvent
unfolding fill_event object_value
normalize_plugin_event event = fill_event (object_value event.content) event
