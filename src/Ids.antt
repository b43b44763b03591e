-- ===== src/Ids.antt =====
-- Identifiers and lists of texts: sanitizeID, proxyID, firstNonEmpty and cleanList of
-- internal/control/service.go, normalizeControlURL, mergePeerURLs, removePeerURL and
-- mergeStrings of internal/control/store.go.
pub mod Sanitize
pub mod Distinct
use frp_cluster.Base.{
  ℕ, Bool, true, false, not, ◌&&◌, ◌||◌, Option, none, some, List, [], ◌∷◌, ◌++◌, ◌==◌, leb, filter,
  if◌then◌else◌,
}
use frp_cluster.Sort.{sort_by}
use frp_cluster.Text.{
  Text, str, text_eq, text_lt, text_in, to_lower, trim_space, trim_by, trim_slashes,
}

-- the runes that stay
unfoldable pub is_id_rune : ℕ → Bool
is_id_rune c =
    (leb b'a' c && leb c b'z') || (leb b'0' c && leb c b'9') || c == b'-' || c == b'_' || c == b'.'

-- the runes that become a dash
unfoldable pub is_separator : ℕ → Bool
is_separator c = c == b' ' || c == b'/' || c == b':' || c == b'@'

-- the loop over the runes
unfoldable pub id_runes : Text → Text
unfolding is_id_rune is_separator
id_runes [] = []
id_runes (c ∷ cs) =
    let rest = id_runes cs in
    if is_id_rune c then c ∷ rest else if is_separator c then b'-' ∷ rest else rest

-- the cutset "-_."
unfoldable pub is_id_edge : ℕ → Bool
is_id_edge c = c == b'-' || c == b'_' || c == b'.'

unfoldable pub sanitize_id : Text → Text
unfolding id_runes is_id_edge
sanitize_id value = trim_by is_id_edge (id_runes (trim_space (to_lower value)))

unfoldable pub first_non_empty : List Text → Text
first_non_empty [] = []
first_non_empty (value ∷ values) =
    let rest = first_non_empty values in
    if not (text_eq (trim_space value) []) then trim_space value else rest

unfoldable pub proxy_id : Text → Text → Text → Text
proxy_id node_id client_id name =
    sanitize_id
      (node_id ++ str "-" ++ client_id ++ str "-" ++ first_non_empty (name ∷ str "proxy" ∷ []))

-- The loop of cleanList, mergePeerURLs and mergeStrings: each value is normalised, and dropped if
-- it is then empty or was seen before.
unfoldable pub distinct_values : (Text → Text) → List Text → List Text → List Text
distinct_values normalize seen [] = []
distinct_values normalize seen (v ∷ vs) =
    let value = normalize v in
    let skipped = distinct_values normalize seen vs in
    let kept = value ∷ distinct_values normalize (value ∷ seen) vs in
    if text_eq value [] || text_in value seen then skipped else kept

unfoldable pub clean_list : List Text → List Text
unfolding distinct_values
clean_list values = distinct_values trim_space [] values

unfoldable pub normalize_control_url : Text → Text
normalize_control_url value =
    let value = trim_space value in if text_eq value [] then [] else trim_slashes value

unfoldable pub merge_peer_urls : List Text → List Text → List Text
unfolding distinct_values
merge_peer_urls existing values =
    sort_by text_lt (distinct_values normalize_control_url [] (existing ++ values))

unfoldable pub merge_strings : List Text → List Text → List Text
unfolding distinct_values
merge_strings existing values = sort_by text_lt (distinct_values trim_space [] (existing ++ values))

unfoldable pub remove_peer_url : List Text → Text → List Text
remove_peer_url [] removed = []
remove_peer_url (v ∷ vs) removed =
    let value = normalize_control_url v in
    let rest = remove_peer_url vs removed in
    if text_eq value [] || text_eq value (normalize_control_url removed) then rest else value ∷ rest
