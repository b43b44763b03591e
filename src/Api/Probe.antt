-- ===== src/Api/Probe.antt =====
-- The network probe: handleNetworkProbe of internal/control/api.go.
pub mod Chunks
use frp_cluster.Base.{
  ℕ, zero, suc, ◌+◌, ◌-◌, ◌*◌, ◌/◌, ◌≤◌, ◌<◌, ◌≡◌, refl, Bool, true, false, Option, none, some,
  List, [], ◌∷◌, ℤ, pos, pos_part, int_lt, arith, All, ltb, ◌==◌, length, if◌then◌else◌,
}
use frp_cluster.Text.{Text, str, text_eq, atoi}
use frp_cluster.Api.{Api, World, HttpRequest, Body, chunks, received, Response, Handler}
use frp_cluster.Api.Answers.{answer, refuse, query_get}

abbrev pub default_probe_bytes : ℕ
default_probe_bytes = 262_144

abbrev pub max_probe_bytes : ℕ
max_probe_bytes = 8_388_608

abbrev pub chunk_bytes : ℕ
chunk_bytes = 32_768

unfoldable pub next_chunk : ℕ → ℕ
next_chunk remaining = if ltb remaining chunk_bytes then remaining else chunk_bytes

-- The sizes of the chunks that are written, on fuel: `writes` more writes to the connection
-- succeed, and after the next the loop returns.
unfoldable pub send_chunks : ℕ → ℕ → ℕ → List ℕ
unfolding next_chunk
send_chunks zero writes remaining = []
send_chunks (suc fuel) zero remaining = []
send_chunks (suc fuel) (suc writes) remaining =
    let n = next_chunk remaining in
    let rest = send_chunks fuel writes (remaining - n) in if ltb 0 remaining then n ∷ rest else []

-- enough for every size
unfoldable pub probe_chunks : ℕ → ℕ → List ℕ
unfolding send_chunks
probe_chunks writes size = send_chunks (suc (size / chunk_bytes)) writes size

unfoldable read_size : Option ℤ → Option ℕ
read_size none = none
read_size (some n) = if int_lt n (pos 0) then none else some (pos_part n)

-- `none` for an invalid size
unfoldable pub probe_size : Text → Option ℕ
unfolding read_size
probe_size raw = if text_eq raw [] then some default_probe_bytes else read_size (atoi raw)

unfoldable clamp_size : ℕ → ℕ
clamp_size size = if ltb max_probe_bytes size then max_probe_bytes else size

-- `io.Copy` reads at most one byte more than is allowed
unfoldable read_body : ℕ → Response
unfolding answer refuse
read_body size =
    let n = if ltb max_probe_bytes size then suc max_probe_bytes else size in
    if ltb max_probe_bytes n
    then refuse 413 (str "probe body too large")
    else answer 200 (received n)

unfoldable pub probe_sized : Option ℕ → World → HttpRequest → Response
unfolding answer refuse clamp_size probe_chunks read_body
probe_sized none w r = refuse 400 (str "invalid probe size")
probe_sized (some size) w r =
    if text_eq r.method (str "GET")
    then answer 200 (chunks (probe_chunks w.writes (clamp_size size)))
    else if text_eq r.method (str "POST")
    then read_body r.body.size
    else refuse 405 (str "method not allowed")

unfoldable pub handle_network_probe : Handler
unfolding probe_sized probe_size
handle_network_probe w r a = (probe_sized (probe_size (query_get (str "size") r)) w r, a)
