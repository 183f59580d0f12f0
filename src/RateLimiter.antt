-- ===== src/RateLimiter.antt =====
-- network/rate_limiter.py. Times are in milliseconds, so that a product with a time in seconds is
-- one with milliseconds divided by 1000; the constants 0.01 and 0.1 are exact fractions here.
pub mod Bounds
pub mod Waiting
pub mod Bandwidth
mod Tests
use aioslsk.Base.{ℕ, ◌+◌, ◌-◌, ◌*◌, ◌/◌, min, max, Bool, true, false, ltb, leb, ◌==◌, if◌then◌else◌}
use aioslsk.Base.{Option, none, some, List, [], ◌∷◌}

-- `UnlimitedRateLimiter.CHUNK_SIZE`.
abbrev pub chunk_size : ℕ
chunk_size = 256 * 1024

abbrev pub min_chunk : ℕ
min_chunk = 128

abbrev pub max_chunk : ℕ
max_chunk = 64 * 1024

-- `LimitedRateLimiter`, without its lock: the waiters are served one at a time.
pub record Limiter : Type 0 where
  pub limit_bps : ℕ
  pub bucket : ℕ
  pub last_refill : ℕ
  pub min_chunk_size : ℕ
  pub max_chunk_size : ℕ

pub data RateLimiter : Type 0 where
  unlimited : RateLimiter
  limited : Limiter → RateLimiter

unfoldable pub clamp_chunk_size : ℕ → ℕ
clamp_chunk_size n = max min_chunk (min max_chunk n)

unfoldable pub new_limiter : ℕ → Limiter
unfolding clamp_chunk_size
new_limiter limit_kbps =
    let limit = limit_kbps * 1024 in
    record {
      limit_bps = limit;
      bucket = 0;
      last_refill = 0;
      min_chunk_size = clamp_chunk_size (limit / 100);
      max_chunk_size = clamp_chunk_size (limit / 10);
    }

unfoldable pub create_limiter : ℕ → RateLimiter
unfolding new_limiter
create_limiter limit_kbps = if limit_kbps == 0 then unlimited else limited (new_limiter limit_kbps)

unfoldable pub is_empty : Limiter → Bool
is_empty l = ltb l.bucket min_chunk

unfoldable pub add_tokens : ℕ → Limiter → Limiter
add_tokens amount l =
    let more = l.bucket + amount in
    record l { bucket = if ltb l.limit_bps more then l.limit_bps else more }

-- A full bucket is left alone, with the time of its last refill.
unfoldable pub refill : ℕ → Limiter → Limiter × Bool
unfolding add_tokens is_empty
refill now l =
    if l.limit_bps == l.bucket
    then (l, false)
    else let time_passed = now - l.last_refill in
      let new_tokens = (l.limit_bps - l.bucket) * time_passed / 1000 in
      let l' = if ltb l.bucket l.limit_bps then add_tokens new_tokens l else l in
      let l'' = record l' { last_refill = now } in (l'', is_empty l'')

-- One round of the loop in `take_tokens`, at the time `now`: the chunk, or `none` to sleep.
unfoldable pub poll : ℕ → Limiter → Limiter × Option ℕ
unfolding refill
poll now l =
    let l' = (refill now l).0 in
    if leb l'.min_chunk_size l'.bucket
    then (let amount = min l'.bucket l'.max_chunk_size in
        (record l' { bucket = l'.bucket - amount }, some amount))
    else (l', none)

-- `take_tokens`, with the times at which the loop comes round; `none` if it still waits then.
unfoldable pub take_tokens : List ℕ → Limiter → Limiter × Option ℕ
take_tokens [] l = (l, none)
take_tokens (now ∷ times) l = elim (poll now l).1 [
  | some amount ↦ ((poll now l).0, some amount)
  | none ↦ take_tokens times (poll now l).0
]

unfoldable pub copy_tokens : Limiter → Limiter → Limiter
unfolding add_tokens
copy_tokens other l = record (add_tokens other.bucket l) { last_refill = other.last_refill }

-- The methods on either limiter; an unlimited one hands out a chunk at once and keeps no tokens.
unfoldable pub take : List ℕ → RateLimiter → RateLimiter × Option ℕ
unfolding take_tokens
take times unlimited = (unlimited, some chunk_size)
take times (limited l) = let (l', amount) = take_tokens times l in (limited l', amount)
