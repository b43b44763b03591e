-- ===== src/Traffic/Samples.antt =====
-- What recordTrafficLocked leaves in the list of samples.

use frp_cluster.Base.{
  ℕ, zero, suc, ◌≤◌, ◌-◌, ◌<◌, ◌≡◌, refl, ap, ◌∙◌, true, List, [], ◌∷◌, ◌++◌, All, All-drop,
  All-filter, drop, length, length-append, filter, filter-append, Bool-cases, inl, inr, arith,
  if◌then◌else◌, ltb,
}
use frp_cluster.Text.{text_eq, text_eq_refl}
use frp_cluster.Types.{Instant, TrafficSample}
use frp_cluster.Events.{last_n}
use frp_cluster.Events.Log.{length-last_n}
use frp_cluster.Traffic.{
  max_traffic_samples, is_kept, prune_traffic_samples, no_sample, last_from,
  last_traffic_sample_for_node,
}

All-last_n {ℓ κ} : {A : Type ℓ} (P : A → Type κ) (n : ℕ) (l : List A) → All P l → All P (last_n n l)
unfolding last_n
All-last_n P n l h = elim (Bool-cases (ltb n (length l))) [
  | inl e ↦ rw e (All-drop P (length l - n) l h)
  | inr e ↦ rw e h
]

-- dated, and within the retention
abbrev pub AreKept : Instant → List TrafficSample → Type 0
AreKept now samples = All (λ s. is_kept now s ≡ true) samples

-- Pruning leaves at most 100,000 samples, all of them dated and at most seven days old.
pub prune_traffic_samples_lem :
    (now : Instant) (samples : List TrafficSample)
    → AreKept now (prune_traffic_samples now samples)
      × (length (prune_traffic_samples now samples) ≤ max_traffic_samples)
unfolding prune_traffic_samples
prune_traffic_samples_lem now samples = (
  All-last_n (λ s. is_kept now s ≡ true) max_traffic_samples (filter (is_kept now) samples)
      (All-filter (is_kept now) samples),
  length-last_n max_traffic_samples (filter (is_kept now) samples),
)

drop-append {ℓ} :
    {A : Type ℓ} (n : ℕ) (xs ys : List A) → n ≤ length xs → drop n (xs ++ ys) ≡ drop n xs ++ ys
drop-append zero xs ys h = refl
drop-append (suc n) [] ys h = absurd (omega (arith, h))
drop-append (suc n) (x ∷ xs) ys h = drop-append n xs ys (omega (arith, h))

-- the newest element of a list is among its last ones
last_n-append {ℓ} :
    {A : Type ℓ} (n : ℕ) (xs : List A) (y : A)
    → 0 < n
    → (zs : List A) × (last_n n (xs ++ y ∷ []) ≡ zs ++ y ∷ [])
unfolding last_n
last_n-append n xs y h = elim (Bool-cases (ltb n (length (xs ++ y ∷ [])))) [
  | inl e ↦ (
    drop (length (xs ++ y ∷ []) - n) xs,
    rw e (
        drop-append (length (xs ++ y ∷ []) - n) xs (y ∷ [])
          (omega (arith, length-append xs (y ∷ []), h))),
  )
  | inr e ↦ (xs, rw e refl)
]

last_from-append :
    (found : TrafficSample) (xs : List TrafficSample) (y : TrafficSample)
    → last_from found (xs ++ y ∷ []) y.node_id ≡ y
unfolding last_from
last_from-append found [] y = rw (text_eq_refl y.node_id) refl
last_from-append found (x ∷ xs) y =
    last_from-append (if text_eq x.node_id y.node_id then x else found) xs y

filter-kept-append :
    (now : Instant) (xs : List TrafficSample) (y : TrafficSample)
    → is_kept now y ≡ true
    → filter (is_kept now) (xs ++ y ∷ []) ≡ filter (is_kept now) xs ++ y ∷ []
unfolding filter
filter-kept-append now xs y h =
    filter-append (is_kept now) xs (y ∷ [])
    ∙ ap (λ (l : List TrafficSample). filter (is_kept now) xs ++ l) (rw h refl)

-- a sample that pruning keeps is the last of its node
pub last-prune :
    (now : Instant) (xs : List TrafficSample) (y : TrafficSample)
    → is_kept now y ≡ true
    → last_traffic_sample_for_node (prune_traffic_samples now (xs ++ y ∷ [])) y.node_id ≡ y
unfolding prune_traffic_samples last_traffic_sample_for_node
last-prune now xs y h =
    let r = last_n-append max_traffic_samples (filter (is_kept now) xs) y (omega arith) in
    rw (filter-kept-append now xs y h, r.1) (last_from-append no_sample r.0 y)
