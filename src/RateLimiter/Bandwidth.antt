-- ===== src/RateLimiter/Bandwidth.antt =====
-- The tokens that a limiter hands out stay within its limit.
use aioslsk.Base.{ℕ, ◌+◌, ◌-◌, ◌*◌, ◌/◌, ◌≤◌, ◌≡◌, arith, some, none, Option, List, [], ◌∷◌}
use mathlib.Core.Path.{subst}
use aioslsk.RateLimiter.{Limiter, poll}
use aioslsk.RateLimiter.Bounds.{IsValid, poll-IsValid}

-- The clock does not go back.
abbrev pub Monotone : ℕ → List ℕ → Type 0
Monotone last [] = Unit
Monotone last (now ∷ times) = (last ≤ now) × Monotone now times

abbrev pub handed : Option ℕ → ℕ
handed none = 0
handed (some n) = n

-- All that is handed out over rounds at the given times, whoever asks.
unfoldable pub total : List ℕ → Limiter → ℕ
total [] l = 0
total (now ∷ times) l = handed (poll now l).1 + total times (poll now l).0

pub last_time : ℕ → List ℕ → ℕ
last_time last [] = last
last_time last (now ∷ times) = last_time now times

last_time-Monotone : (last : ℕ) (times : List ℕ) → Monotone last times → last ≤ last_time last times
unfolding last_time
last_time-Monotone last [] mono = omega arith
last_time-Monotone last (now ∷ times) (later, mono) =
    omega (arith, last_time-Monotone now times mono)

rate : (a b d : ℕ) → a ≤ b → a * d / 1000 * 1000 ≤ b * d
rate a b d h = let more : a * d ≤ b * d = grind arith in omega arith

-- What a round hands out was in the bucket or came in since the last refill.
record Accounts (now : ℕ) (l l' : Limiter) (amount : ℕ) : Type 0 where
  limit : l'.limit_bps ≡ l.limit_bps
  before : l'.last_refill ≤ now
  accounts :
      (amount + l'.bucket) * 1000 + l.limit_bps * l.last_refill
      ≤ l.bucket * 1000 + l.limit_bps * l'.last_refill

split_time : (a last now : ℕ) → last ≤ now → a * now ≡ a * last + a * (now - last)
split_time a last now h = let e : now ≡ last + (now - last) = omega arith in grind arith

poll-Accounts :
    (now : ℕ) (l : Limiter)
    → IsValid l
    → l.last_refill ≤ now
    → Accounts now l (poll now l).0 (handed (poll now l).1)
unfolding poll
poll-Accounts now l v h = ground (
  arith,
  rate (l.limit_bps - l.bucket) l.limit_bps (now - l.last_refill) (omega arith),
  split_time l.limit_bps l.last_refill now h,
)

total_bound :
    (times : List ℕ) (last : ℕ) (l : Limiter)
    → IsValid l
    → l.last_refill ≤ last
    → Monotone last times
    → total times l * 1000 + l.limit_bps * l.last_refill
      ≤ l.bucket * 1000 + l.limit_bps * last_time last times
unfolding total last_time
total_bound [] last l v h mono =
    let more : l.limit_bps * l.last_refill ≤ l.limit_bps * last = grind arith in omega arith
total_bound (now ∷ times) last l v h (later, mono) =
    let a : Accounts now l (poll now l).0 (handed (poll now l).1) =
      poll-Accounts now l v (omega arith) in
    let rest = total_bound times now (poll now l).0 (poll-IsValid now l v) a.before mono in
    omega (
      arith,
      a.accounts,
      subst
          (λ b.
            total times (poll now l).0 * 1000 + b * (poll now l).0.last_refill
            ≤ (poll now l).0.bucket * 1000 + b * last_time now times)
          a.limit rest,
    )

-- However many transfers ask a limiter, at times that do not go back: what it hands out is at
-- most what its bucket held and what its limit allows for the time since its last refill.
pub total_limit :
    (times : List ℕ) (l : Limiter)
    → IsValid l
    → Monotone l.last_refill times
    → total times l * 1000
      ≤ l.bucket * 1000 + l.limit_bps * (last_time l.last_refill times - l.last_refill)
total_limit times l v mono = omega (
  arith,
  total_bound times l.last_refill l v (omega arith) mono,
  split_time l.limit_bps l.last_refill (last_time l.last_refill times)
      (last_time-Monotone l.last_refill times mono),
)
