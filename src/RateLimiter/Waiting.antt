-- ===== src/RateLimiter/Waiting.antt =====
-- `take_tokens` of network/rate_limiter.py does not wait for ever.
use aioslsk.Base.{
  ℕ, ◌+◌, ◌-◌, ◌*◌, ◌/◌, ◌≤◌, ◌<◌, ◌≡◌, arith, some, none, List, [], ◌∷◌, length, cases_option, inl,
  inr,
}
use aioslsk.RateLimiter.{Limiter, clamp_chunk_size, poll, take_tokens}
use aioslsk.RateLimiter.Bounds.{IsValid, poll-IsValid}

-- Rounds of the loop are `INTERVAL`, ten milliseconds, or more apart.
abbrev pub Spaced : ℕ → List ℕ → Type 0
Spaced last [] = Unit
Spaced last (now ∷ times) = (last + 10 ≤ now) × Spaced now times

gain : (a d : ℕ) → 10 ≤ d → a / 100 ≤ a * d / 1000
gain a d h = let more : a * 10 ≤ a * d = grind arith in omega arith

-- A round that hands out nothing leaves eight tokens more, below the smallest chunk.
record Waited (now : ℕ) (l l' : Limiter) : Type 0 where
  waits : l'.bucket < 128
  gains : l.bucket + 8 ≤ l'.bucket
  refilled : l'.last_refill ≡ now
  limit : l'.limit_bps ≡ l.limit_bps

poll-none :
    (now : ℕ) (l : Limiter)
    → IsValid l
    → 1024 ≤ l.limit_bps
    → l.last_refill + 10 ≤ now
    → (poll now l).1 ≡ none
    → Waited now l (poll now l).0
unfolding poll clamp_chunk_size
poll-none now l v big late h =
    ground (arith, gain (l.limit_bps - l.bucket) (now - l.last_refill) (omega arith))

-- Rounds that come ten milliseconds or more behind the last refill.
take_tokens-Spaced :
    (times : List ℕ) (l : Limiter)
    → IsValid l
    → 1024 ≤ l.limit_bps
    → Spaced l.last_refill times
    → 128 ≤ l.bucket + 8 * length times
    → 0 < length times
    → (amount : ℕ) × ((take_tokens times l).1 ≡ some amount)
unfolding take_tokens
take_tokens-Spaced [] l v big spaced enough some_round = absurd (omega arith)
take_tokens-Spaced (now ∷ times) l v big (late, spaced) enough some_round =
    elim (cases_option (poll now l).1) [
      | inl (amount, e) ↦ (amount, rw (e, take_tokens))
      | inr e ↦
          let w : Waited now l (poll now l).0 = poll-none now l v big late e in
          let (amount, returns) =
            take_tokens-Spaced times (poll now l).0 (poll-IsValid now l v) (omega (arith, w.limit))
              (rw w.refilled spaced) (omega (arith, w.gains)) (omega (arith, w.gains, w.waits)) in
          (amount, rw (e, take_tokens) returns)
    ]

-- The first round may come at once: where it hands out nothing, the bucket is no emptier than before.
record Refilled (now : ℕ) (l l' : Limiter) : Type 0 where
  kept : l.bucket ≤ l'.bucket
  refilled : l'.last_refill ≡ now
  limit : l'.limit_bps ≡ l.limit_bps

poll-Refilled :
    (now : ℕ) (l : Limiter)
    → IsValid l
    → 1024 ≤ l.limit_bps
    → (poll now l).1 ≡ none
    → Refilled now l (poll now l).0
unfolding poll clamp_chunk_size
poll-Refilled now l v big h = ground arith

-- A valid limiter of 1024 B/s or more hands out a chunk at a first round, which comes at any time, or
-- at one of the rounds that follow it ten milliseconds or more apart, if these are enough: at least
-- one, and at least one for every eight tokens by which the bucket is short of 128.
pub take_tokens_returns :
    (first : ℕ) (times : List ℕ) (l : Limiter)
    → IsValid l
    → 1024 ≤ l.limit_bps
    → Spaced first times
    → 128 ≤ l.bucket + 8 * length times
    → 0 < length times
    → (amount : ℕ) × ((take_tokens (first ∷ times) l).1 ≡ some amount)
unfolding take_tokens
take_tokens_returns first times l v big spaced enough some_round =
    elim (cases_option (poll first l).1) [
      | inl (amount, e) ↦ (amount, rw (e, take_tokens))
      | inr e ↦
          let r : Refilled first l (poll first l).0 = poll-Refilled first l v big e in
          let (amount, returns) =
            take_tokens-Spaced times (poll first l).0 (poll-IsValid first l v)
              (omega (arith, r.limit)) (rw r.refilled spaced) (omega (arith, r.kept)) some_round in
          (amount, rw (e, take_tokens) returns)
    ]
