-- ===== src/Events/Log.antt =====
-- The event log keeps the newest events.
use frp_cluster.Base.{ℕ, ◌≤◌, ◌-◌, List, length, length-drop, arith}
use frp_cluster.Events.{last_n}

pub length-last_n {ℓ} : {A : Type ℓ} (n : ℕ) (l : List A) → length (last_n n l) ≤ n
unfolding last_n
length-last_n n l = ground (arith, length-drop (length l - n) l)
