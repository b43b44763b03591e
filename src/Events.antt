-- ===== src/Events.antt =====
-- The event log, instants as text and the calendar month: addEventLocked and currentMonth of
-- internal/control/store.go.
pub mod Log
use frp_cluster.Base.{
  ℕ, zero, suc, ◌+◌, ◌-◌, ◌*◌, ◌/◌, ◌%◌, List, [], ◌∷◌, ◌++◌, ℤ, sub_ℕ, length, drop, ltb, leb,
  if◌then◌else◌,
}
use frp_cluster.Text.{Text, str, decimal, int_text}
use frp_cluster.Dict.{Dict}
use frp_cluster.Types.{Instant, is_zero, Event, ClusterState}

-- `now.UnixNano()`: nanoseconds since 1970, for instants in the range of an `int64` (to 2262)
abbrev pub unix_epoch : Instant
unix_epoch = 62_135_596_800_000_000_000

unfoldable pub unix_nano : Instant → ℤ
unix_nano now = sub_ℕ now unix_epoch

-- the last `n` elements: `l[len(l)-n:]` of a list that is longer
unfoldable pub last_n {ℓ} : {A : Type ℓ} → ℕ → List A → List A
last_n n l = if ltb n (length l) then drop (length l - n) l else l

abbrev pub max_events : ℕ
max_events = 500

unfoldable pub new_event : Text → Text → Text → Text → Text → Dict Text → Instant → Event
new_event event_type message node_id client_id proxy_id metadata now = record {
  id = int_text (unix_nano now) ++ str "-" ++ event_type;
  type = event_type;
  message = message;
  node_id = node_id;
  client_id = client_id;
  proxy_id = proxy_id;
  metadata = metadata;
  created_at = now;
}

-- a full log forgets its oldest events
unfoldable pub append_event : List Event → Event → List Event
append_event events event = last_n max_events (events ++ event ∷ [])

unfoldable pub add_event :
    Text → Text → Text → Text → Text → Dict Text → Instant → ClusterState → ClusterState
unfolding append_event new_event
add_event event_type message node_id client_id proxy_id metadata now state = record state {
  events =
      append_event state.events
        (new_event event_type message node_id client_id proxy_id metadata now);
}

-- the year and the month of a day, counted from 1 January of year 1, in the calendar of package
-- time; the cycle of 400 years begins on 1 March
unfoldable pub year_month : ℕ → ℕ × ℕ
year_month day =
    let shifted = day + 306 in
    let era = shifted / 146_097 in
    let in_era = shifted % 146_097 in
    let year = (in_era + in_era / 36_524 - in_era / 1_460 - in_era / 146_096) / 365 in
    let in_year = in_era + year / 100 - 365 * year - year / 4 in
    let march = (5 * in_year + 2) / 153 in
    let from_march = year + era * 400 in
    if ltb march 10 then (from_march, march + 3) else (from_march + 1, march - 9)

unfoldable pub zeros : ℕ → Text → Text
zeros zero s = s
zeros (suc k) s = b'0' ∷ zeros k s

-- a number with zeros before it, of at least `n` digits
unfoldable pub pad : ℕ → Text → Text
unfolding zeros
pad n s = zeros (n - length s) s

-- `now.UTC().Format("2006-01")`
unfoldable pub month_text : Instant → Text
unfolding pad decimal year_month
month_text now =
    let (year, month) = year_month (now / 86_400_000_000_000) in
    pad 4 (decimal year) ++ str "-" ++ pad 2 (decimal month)

-- a zero instant stands for a second reading of the clock
unfoldable pub current_month : Instant → Instant → Text
unfolding month_text
current_month now clock = if is_zero now then month_text clock else month_text now
