-- ===== src/RateLimiter/Tests.antt =====
-- A limiter of 2 kB/s at work.
use aioslsk.Base.{ℕ, ◌+◌, ◌*◌, ◌-◌, ◌/◌, ◌≤◌, ◌≡◌, refl, arith, some, List, [], ◌∷◌, none}
use aioslsk.RateLimiter.{Limiter, new_limiter, clamp_chunk_size, refill, poll, take_tokens}
use aioslsk.RateLimiter.Bounds.{
  IsValid, new_limiter-IsValid, operate_all, on_poll, on_add_tokens, on_copy_tokens,
  operate_all-new_limiter, poll_bounds,
}
use aioslsk.RateLimiter.Waiting.{take_tokens_returns}
use aioslsk.RateLimiter.Bandwidth.{total, last_time, total_limit}

abbrev slow : Limiter
slow = new_limiter 2

slow-IsValid : IsValid slow
slow-IsValid = new_limiter-IsValid 2

filled : (poll 1000 slow).1 ≡ some 204
unfolding poll new_limiter
filled = refl

waits : (poll 50 slow).1 ≡ none
unfolding poll new_limiter
waits = refl

operate_all-new_limiter_example :
    IsValid
      (operate_all (on_add_tokens 300 ∷ on_poll 50 ∷ on_copy_tokens slow ∷ []) (new_limiter 2))
operate_all-new_limiter_example =
    operate_all-new_limiter 2 (on_add_tokens 300 ∷ on_poll 50 ∷ on_copy_tokens slow ∷ [])

poll_bounds_example :
    (clamp_chunk_size (slow.limit_bps / 100) ≤ 204)
    × (204 ≤ clamp_chunk_size (slow.limit_bps / 10))
    × (204 + (poll 1000 slow).0.bucket ≡ (refill 1000 slow).0.bucket)
poll_bounds_example = poll_bounds 1000 204 slow slow-IsValid filled

abbrev rounds : List ℕ
rounds = 10 ∷ 20 ∷ 30 ∷ 40 ∷ 50 ∷ 60 ∷ 70 ∷ 80 ∷ 90 ∷ 100 ∷ 110 ∷ 120 ∷ 130 ∷ 140 ∷ 150 ∷ 160 ∷ []

take_tokens_returns_example : (amount : ℕ) × ((take_tokens (0 ∷ rounds) slow).1 ≡ some amount)
unfolding new_limiter
take_tokens_returns_example =
    take_tokens_returns 0 rounds slow slow-IsValid (omega arith) (ground arith) (omega arith)
      (omega arith)

total_limit_example :
    total rounds slow * 1000 ≤ slow.bucket * 1000 + slow.limit_bps * (last_time 0 rounds - 0)
unfolding new_limiter
total_limit_example = total_limit rounds slow slow-IsValid (ground arith)

handed_out : total rounds slow ≡ 272
unfolding total poll new_limiter
handed_out = refl
