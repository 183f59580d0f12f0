-- ===== src/RateLimiter/Bounds.antt =====
-- The invariant of a limiter, and the sizes of the chunks that it hands out.
use aioslsk.Base.{ℕ, ◌+◌, ◌/◌, ◌≤◌, ◌≡◌, arith, some, List, [], ◌∷◌}
use aioslsk.RateLimiter.{
  Limiter, clamp_chunk_size, new_limiter, add_tokens, refill, poll, copy_tokens,
}

pub record IsValid (l : Limiter) : Type 0 where
  pub capped : l.bucket ≤ l.limit_bps
  pub least : l.min_chunk_size ≡ clamp_chunk_size (l.limit_bps / 100)
  pub most : l.max_chunk_size ≡ clamp_chunk_size (l.limit_bps / 10)

pub new_limiter-IsValid : (kbps : ℕ) → IsValid (new_limiter kbps)
unfolding new_limiter
new_limiter-IsValid kbps = ground arith

pub add_tokens-IsValid : (amount : ℕ) (l : Limiter) → IsValid l → IsValid (add_tokens amount l)
unfolding add_tokens
add_tokens-IsValid amount l v = ground arith

pub refill-IsValid : (now : ℕ) (l : Limiter) → IsValid l → IsValid (refill now l).0
unfolding refill
refill-IsValid now l v = ground arith

pub poll-IsValid : (now : ℕ) (l : Limiter) → IsValid l → IsValid (poll now l).0
unfolding poll
poll-IsValid now l v = ground (arith)

pub copy_tokens-IsValid : (other l : Limiter) → IsValid l → IsValid (copy_tokens other l)
unfolding copy_tokens
copy_tokens-IsValid other l v = ground arith

pub chunk_order : (n m : ℕ) → n ≤ m → clamp_chunk_size n ≤ clamp_chunk_size m
unfolding clamp_chunk_size
chunk_order n m h = omega arith

-- Every operation that changes a limiter.
pub data Operation : Type 0 where
  on_poll : ℕ → Operation
  on_add_tokens : ℕ → Operation
  on_refill : ℕ → Operation
  on_copy_tokens : Limiter → Operation

unfoldable pub operate : Operation → Limiter → Limiter
operate (on_poll now) l = (poll now l).0
operate (on_add_tokens amount) l = add_tokens amount l
operate (on_refill now) l = (refill now l).0
operate (on_copy_tokens other) l = copy_tokens other l

operate-IsValid : (o : Operation) (l : Limiter) → IsValid l → IsValid (operate o l)
unfolding operate
operate-IsValid (on_poll now) l v = poll-IsValid now l v
operate-IsValid (on_add_tokens amount) l v = add_tokens-IsValid amount l v
operate-IsValid (on_refill now) l v = refill-IsValid now l v
operate-IsValid (on_copy_tokens other) l v = copy_tokens-IsValid other l v

unfoldable pub operate_all : List Operation → Limiter → Limiter
unfolding operate
operate_all [] l = l
operate_all (o ∷ os) l = operate_all os (operate o l)

operate_all-IsValid : (os : List Operation) (l : Limiter) → IsValid l → IsValid (operate_all os l)
unfolding operate_all
operate_all-IsValid [] l v = v
operate_all-IsValid (o ∷ os) l v = operate_all-IsValid os (operate o l) (operate-IsValid o l v)

-- From its creation on, whatever is done to it in whatever order, a limiter never holds more
-- tokens than its limit, and its chunk sizes are those of its limit.
pub operate_all-new_limiter :
    (kbps : ℕ) (os : List Operation) → IsValid (operate_all os (new_limiter kbps))
operate_all-new_limiter kbps os =
    operate_all-IsValid os (new_limiter kbps) (new_limiter-IsValid kbps)

-- A valid limiter hands out a chunk that is at least a hundredth and at most a tenth of its limit,
-- both brought into the range from 128 bytes to 64 kB, and the chunk is taken from the bucket.
pub poll_bounds :
    (now amount : ℕ) (l : Limiter)
    → IsValid l
    → (poll now l).1 ≡ some amount
    → (clamp_chunk_size (l.limit_bps / 100) ≤ amount)
      × (amount ≤ clamp_chunk_size (l.limit_bps / 10))
      × (amount + (poll now l).0.bucket ≡ (refill now l).0.bucket)
unfolding poll
poll_bounds now amount l v h = ground (arith, chunk_order (l.limit_bps / 100) (l.limit_bps / 10))
