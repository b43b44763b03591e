-- ===== src/Api/Answers.antt =====
-- The helpers of the handlers: errors and their status, what is read of a request, quoting for a
-- shell (internal/control/api.go).
use frp_cluster.Base.{
  ℕ, Bool, true, false, not, none, List, [], ◌∷◌, ◌++◌, inl, inr, drop, length, ◌==◌, if◌then◌else◌,
}
use Prim.Native.Nat.{bit_or, bit_xor}
use frp_cluster.Text.{
  Text, str, text_eq, to_lower, trim_space, has_prefix, contains_any, replace_char, split,
}
use frp_cluster.Dict.{get}
use frp_cluster.EnvFile.{or_empty}
use frp_cluster.Requests.{
  Error, node_not_found, client_not_found, node_token_required, node_token_mismatch,
  no_available_node, invalid_join_request, invalid_token, token_expired, token_used,
  dns_hook_not_configured, Result, ok, err,
}
use frp_cluster.Store.{Store, Exec}
use frp_cluster.Api.{Api, HttpRequest, Answer, message, failure, Response, Handler, Decoded}

unfoldable pub answer : ℕ → Answer → Response
answer status a = record { status = status; answer = a; set_cookie = none }

-- `writeError`
unfoldable pub refuse : ℕ → Text → Response
unfolding answer
refuse status text = answer status (message text)

-- writeMappedError
unfoldable pub status_of_error : Error → ℕ
status_of_error invalid_join_request = 401
status_of_error invalid_token = 401
status_of_error token_expired = 401
status_of_error token_used = 401
status_of_error node_token_required = 401
status_of_error node_token_mismatch = 401
status_of_error node_not_found = 404
status_of_error no_available_node = 404
status_of_error client_not_found = 404
status_of_error dns_hook_not_configured = 428
status_of_error e = 500

unfoldable pub refuse_mapped : Error → Response
unfolding answer status_of_error
refuse_mapped e = answer (status_of_error e) (failure e)

unfoldable pub with_store : Store → Api → Api
with_store s a = record a { store = s }

-- an operation of the store in a handler: what is answered to its error, and to its value
unfoldable pub respond {ℓ} :
    {A : Type ℓ} → (Error → Response) → (A → Response) → Result A → Response
respond on_error on_value (err e) = on_error e
respond on_error on_value (ok value) = on_value value

unfoldable pub run_store : {A : Type 0} → (Error → Response) → (A → Response) → Exec A → Handler
unfolding respond with_store
run_store on_error on_value op w r a =
    let (result, s) = op w.env a.store in (respond on_error on_value result, with_store s a)

-- a handler that takes one method only
unfoldable pub on_method : Text → Handler → Handler
unfolding refuse
on_method method next w r a = elim (text_eq r.method method) [
  | true ↦ next w r a
  | false ↦ (refuse 405 (str "method not allowed"), a)
]

-- readJSON
unfoldable pub on_json : {A : Type 0} → Decoded A → (A → Handler) → Handler
unfolding refuse
on_json (inl text) next w r a = (refuse 400 text, a)
on_json (inr value) next w r a = next value w r a

-- `r.URL.Query().Get(key)`
unfoldable pub query_get : Text → HttpRequest → Text
unfolding or_empty
query_get key r = or_empty (get key r.query)

-- `r.URL.Query()[key]`
unfoldable pub query_all : Text → List (Text × Text) → List Text
query_all key [] = []
query_all key ((k, v) ∷ rest) =
    let others = query_all key rest in if text_eq k key then v ∷ others else others

unfoldable pub bearer_token : HttpRequest → Text
bearer_token r =
    if has_prefix (to_lower r.authorization) (str "bearer ")
    then trim_space (drop 7 r.authorization)
    else []

-- `strings.Split(value, ",")[0]`
unfoldable first_part : List Text → Text
first_part [] = []
first_part (part ∷ parts) = part

unfoldable pub control_url_from_request : HttpRequest → Text
unfolding first_part
control_url_from_request r =
    let plain = if r.tls then str "https" else str "http" in
    let scheme =
      if text_eq r.forwarded_proto [] then plain else first_part (split b',' r.forwarded_proto) in
    let host =
      if text_eq r.forwarded_host [] then r.host else first_part (split b',' r.forwarded_host) in
    scheme ++ str "://" ++ trim_space host

unfoldable pub shell_quote : Text → Text
shell_quote value =
    if text_eq value []
    then str "''"
    else if contains_any value (str " \t\n'\"$`\\")
    then str "'" ++ replace_char b'\'' (str "'\\''") value ++ str "'"
    else value

-- The loop runs over all bytes, whatever the differences; a text of one byte a character.
unfoldable pub difference : ℕ → Text → Text → ℕ
difference diff (x ∷ xs) (y ∷ ys) = difference (bit_or diff (bit_xor x y)) xs ys
difference diff xs ys = diff

unfoldable pub constant_time_string_equal : Text → Text → Bool
unfolding difference
constant_time_string_equal got want =
    if not (length got == length want) then false else difference 0 got want == 0
