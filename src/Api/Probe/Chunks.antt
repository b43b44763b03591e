-- ===== src/Api/Probe/Chunks.antt =====
-- The loop that writes the chunks of a probe.
use frp_cluster.Base.{
  ℕ, zero, suc, ◌+◌, ◌-◌, ◌*◌, ◌/◌, ◌≤◌, ◌<◌, ◌≡◌, refl, List, [], ◌∷◌, arith, All, ltb, leb,
  if◌then◌else◌, inl, inr, Bool-cases,
}
use frp_cluster.Api.Probe.{chunk_bytes, next_chunk, send_chunks, probe_chunks}

abbrev pub sum : List ℕ → ℕ
sum [] = 0
sum (n ∷ ns) = n + sum ns

-- a chunk that is not empty and fits the buffer
abbrev pub IsChunk : ℕ → Type 0
IsChunk n = (0 < n) × (n ≤ chunk_bytes)

next_chunk_lem :
    (remaining : ℕ)
    → (next_chunk remaining ≤ remaining)
      × (next_chunk remaining ≤ chunk_bytes)
      × (0 < remaining → 0 < next_chunk remaining)
      × (chunk_bytes ≤ remaining → next_chunk remaining ≡ chunk_bytes)
      × (remaining < chunk_bytes → next_chunk remaining ≡ remaining)
unfolding next_chunk
next_chunk_lem remaining = ground arith

-- what is written of so many bytes, if the connection takes so many chunks
abbrev pub written : ℕ → ℕ → ℕ
written writes size = if leb size (writes * chunk_bytes) then size else writes * chunk_bytes

written_step :
    (writes remaining : ℕ)
    → next_chunk remaining + written writes (remaining - next_chunk remaining)
      ≡ written (suc writes) remaining
unfolding next_chunk
written_step writes remaining = ground arith

sum-send_chunks :
    (fuel writes remaining : ℕ)
    → remaining ≤ fuel * chunk_bytes
    → sum (send_chunks fuel writes remaining) ≡ written writes remaining
unfolding send_chunks
sum-send_chunks zero writes remaining h = ground arith
sum-send_chunks (suc fuel) zero remaining h = ground arith
sum-send_chunks (suc fuel) (suc writes) remaining h = elim (Bool-cases (ltb 0 remaining)) [
  | inr e ↦ rw e (ground (arith, e))
  | inl e ↦
      let steps = next_chunk_lem remaining in
      rw
        (
          e,
          sum-send_chunks fuel writes (remaining - next_chunk remaining) (ground (arith, h, steps)),
        )
        (written_step writes remaining)
]

send_chunks-IsChunk : (fuel writes remaining : ℕ) → All IsChunk (send_chunks fuel writes remaining)
unfolding send_chunks
send_chunks-IsChunk zero writes remaining = tt
send_chunks-IsChunk (suc fuel) zero remaining = tt
send_chunks-IsChunk (suc fuel) (suc writes) remaining = elim (Bool-cases (ltb 0 remaining)) [
  | inr e ↦ rw e tt
  | inl e ↦ rw e (
    ground (arith, e, next_chunk_lem remaining),
    send_chunks-IsChunk fuel writes (remaining - next_chunk remaining),
  )
]

send_chunks-fuel :
    (fuel other writes remaining : ℕ)
    → remaining ≤ fuel * chunk_bytes
    → remaining ≤ other * chunk_bytes
    → send_chunks fuel writes remaining ≡ send_chunks other writes remaining
unfolding send_chunks
send_chunks-fuel zero zero writes remaining h k = refl
send_chunks-fuel zero (suc other) zero remaining h k = refl
send_chunks-fuel zero (suc other) (suc writes) remaining h k = ground (arith, h)
send_chunks-fuel (suc fuel) zero zero remaining h k = refl
send_chunks-fuel (suc fuel) zero (suc writes) remaining h k = ground (arith, k)
send_chunks-fuel (suc fuel) (suc other) zero remaining h k = refl
send_chunks-fuel (suc fuel) (suc other) (suc writes) remaining h k = ground (
  arith,
  send_chunks-fuel fuel other writes (remaining - next_chunk remaining),
  next_chunk_lem remaining,
)

-- The loop of the probe ends, whenever the connection fails: with more fuel than the size has whole
-- chunks, it writes the same chunks as with any more. Every chunk is not empty and fits the buffer
-- of 32 KB, and together they are the size, or as many full buffers as the connection takes, if
-- these are less.
pub probe_chunks_lem :
    (fuel writes size : ℕ)
    → size / 32_768 < fuel
    → (send_chunks fuel writes size ≡ probe_chunks writes size)
      × All (λ n. (0 < n) × (n ≤ 32_768)) (probe_chunks writes size)
      × (sum (probe_chunks writes size)
          ≡ (if leb size (writes * 32_768) then size else writes * 32_768))
unfolding probe_chunks
probe_chunks_lem fuel writes size h =
    let enough = suc (size / chunk_bytes) in
    (
      send_chunks-fuel fuel enough writes size (omega arith) (omega arith),
      send_chunks-IsChunk enough writes size,
      sum-send_chunks enough writes size (omega arith),
    )
