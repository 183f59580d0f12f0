-- ===== src/Protocol/Obfuscation/RoundTrip.antt =====
-- What `encode` masks, `decode` unmasks.
use aioslsk.Base.{
  ℕ, zero, suc, ◌+◌, ◌-◌, ◌*◌, ◌/◌, ◌%◌, ◌^◌, ◌≤◌, ◌<◌, ◌≡◌, ◌≢◌, refl, ap, ◌∙◌, arith, min,
}
use aioslsk.Base.{ltb, ltb→lt, ◌==◌, ==→eq, Bool-cases, inl, inr, ◌⊎◌, if◌then◌else◌}
use aioslsk.Base.{Option, List, [], ◌∷◌, ◌++◌, length, take, drop, All}
use aioslsk.Base.{take-append_length, drop-append_length, length-append}
use aioslsk.Base.Result.{ok}
use aioslsk.Base.Bits.{xor_twice}
use aioslsk.Protocol.Struct.{to_le, from_le, from_le-to_le, from_le_lt, IsByte}
use aioslsk.Protocol.Obfuscation.{
  key_size, byte_at, rotate_key, rotations, unmask, decode, mask, encode,
}
use aioslsk.Protocol.Obfuscation.Rotation.{
  rotated, rotated_lt, rotate_key-rotated, rotated-rotated, rotated-zero,
}
use mathlib.Core.Option
use native.Mathlib.Nat.{sub-zero, mod-eq_of_lt}
use Prim.Native.Nat.{bit_xor}

-- The rotation in use at byte `idx`: one bit more to the left with every fourth byte.
abbrev turn : ℕ → ℕ
turn idx = 31 - idx / 4 % 32

-- The byte of the rotated key `k` that masks byte `idx`.
abbrev stream : ℕ → ℕ → ℕ
stream k idx = byte_at (to_le 4 (rotated k (turn idx))) (idx % 4)

masked : ℕ → ℕ → List ℕ → List ℕ
masked k idx [] = []
masked k idx (b ∷ bs) = bit_xor (stream k idx) b ∷ masked k (idx + 1) bs

length-masked : (k idx : ℕ) (bs : List ℕ) → length (masked k idx bs) ≡ length bs
unfolding masked
length-masked k idx [] = refl
length-masked k idx (b ∷ bs) = ap suc (length-masked k (idx + 1) bs)

-- The key that the loop of `encode` holds in front of byte `idx`.
record Holds (k : ℕ) (key : List ℕ) (idx : ℕ) : Type 0 where
  small : from_le key < 2 ^ 32
  turning : idx % 4 ≡ 0 → rotated (from_le key) 31 ≡ rotated k (turn idx)
  turned : idx % 4 ≢ 0 → key ≡ to_le 4 (rotated k (turn idx))

turn_lt : (idx : ℕ) → turn idx < 33
turn_lt idx = omega arith

-- Behind the last byte of a group the key turns once more; after 32 turns it is itself again.
next_turn :
    (k idx : ℕ)
    → k < 2 ^ 32
    → (idx + 1) % 4 ≡ 0
    → rotated (rotated k (turn idx)) 31 ≡ rotated k (turn (idx + 1))
next_turn k idx h e = elim (Bool-cases (idx / 4 % 32 == 31)) [
  | inl full ↦
      let full' : idx / 4 % 32 ≡ 31 = ==→eq _ _ full in
      let first : turn idx ≡ 0 = omega arith in
      let again : turn (idx + 1) ≡ 31 = omega arith in rw (first, again, rotated-zero k h)
  | inr other ↦
      let low : idx / 4 % 32 < 31 = ground arith in
      let later : turn idx ≡ suc (turn (idx + 1)) = omega arith in
      rw later (rotated-rotated k (turn (idx + 1)) h (omega arith))
]

Holds-next : (k idx : ℕ) → k < 2 ^ 32 → Holds k (to_le 4 (rotated k (turn idx))) (idx + 1)
Holds-next k idx h =
    let word : from_le (to_le 4 (rotated k (turn idx))) ≡ rotated k (turn idx) =
      from_le-to_le 4 _ (rotated_lt k (turn idx) h (turn_lt idx)) in
    record {
      small = rw word (rotated_lt k (turn idx) h (turn_lt idx));
      turning = λ e. rw word (next_turn k idx h e);
      turned = λ e. let same : turn (idx + 1) ≡ turn idx = omega arith in rw same;
    }

turned_key :
    (k idx : ℕ) (key : List ℕ)
    → Holds k key idx
    → (if idx % key_size == 0 then rotate_key key 31 else ok key)
      ≡ ok (to_le 4 (rotated k (turn idx)))
turned_key k idx key h = elim (Bool-cases (idx % 4 == 0)) [
  | inl e ↦ rw e (
      rotate_key-rotated key 31 h.small (omega arith)
      ∙ ap (λ (w : ℕ). ok (to_le 4 w)) (h.turning (==→eq _ _ e)))
  | inr e ↦ rw e (ap ok (h.turned (λ z. ground arith)))
]

mask-masked :
    (k : ℕ) (key : List ℕ) (idx : ℕ) (bs : List ℕ)
    → k < 2 ^ 32
    → Holds k key idx
    → mask key idx bs ≡ ok (masked k idx bs)
unfolding mask masked
mask-masked k key idx [] h held = refl
mask-masked k key idx (b ∷ bs) h held =
    rw (turned_key k idx key held)
      (rw (mask-masked k (to_le 4 (rotated k (turn idx))) (idx + 1) bs h (Holds-next k idx h)))

-- The rotations that `decode` lays out.
words : ℕ → ℕ → ℕ → List ℕ
words k zero rot = []
words k (suc n) rot = to_le 4 (rotated k rot) ++ words k n (rot - 1)

length-words : (k n rot : ℕ) → length (words k n rot) ≡ 4 * n
unfolding words to_le
length-words k zero rot = refl
length-words k (suc n) rot = omega (arith, length-words k n (rot - 1))

rotations-words :
    (key : List ℕ) (n rot : ℕ)
    → from_le key < 2 ^ 32
    → rot < 33
    → rotations n key rot ≡ ok (words (from_le key) n rot)
unfolding rotations words
rotations-words key zero rot h k = refl
rotations-words key (suc n) rot h k =
    rw (rotate_key-rotated key rot h k, rotations-words key n (rot - 1) h (omega arith))

words-byte :
    (k n rot j : ℕ)
    → j < 4 * n
    → byte_at (words k n rot) j ≡ byte_at (to_le 4 (rotated k (rot - j / 4))) (j % 4)
unfolding words to_le
words-byte k zero rot j h = absurd (omega arith)
words-byte k (suc n) rot zero h = rw sub-zero
words-byte k (suc n) rot (suc zero) h = rw sub-zero
words-byte k (suc n) rot (suc (suc zero)) h = rw sub-zero
words-byte k (suc n) rot (suc (suc (suc zero))) h = rw sub-zero
words-byte k (suc n) rot (suc (suc (suc (suc j)))) h =
    let group : suc (suc (suc (suc j))) / 4 ≡ suc (j / 4) = omega arith in
    let place : suc (suc (suc (suc j))) % 4 ≡ j % 4 = omega arith in
    let fewer : rot - suc (j / 4) ≡ rot - 1 - j / 4 = omega arith in
    rw (group, place, fewer) (words-byte k n (rot - 1) j (omega arith))

-- Where a position falls in a key of `a` words, if the message needs no more or `a` is 32.
abbrev Fits : ℕ → ℕ → Type 0
Fits idx a =
    (idx % (4 * a) / 4 ≡ idx / 4 % 32) × (idx % (4 * a) % 4 ≡ idx % 4) × (idx % (4 * a) < 4 * a)

position : (idx a : ℕ) → (a ≡ 32) ⊎ ((idx < 4 * a) × (a ≤ 32)) → Fits idx a
position idx a (inl whole) = rw whole (omega arith)
position idx a (inr (short, most)) = rw (mod-eq_of_lt short) (omega arith)

enough :
    (n idx : ℕ) → idx < n → let a = min ((n + 3) / 4) 32 in (a ≡ 32) ⊎ ((idx < 4 * a) × (a ≤ 32))
enough n idx h = elim (Bool-cases (ltb ((n + 3) / 4) 32)) [
  | inl few ↦ let few' : (n + 3) / 4 < 32 = ltb→lt _ _ few in inr (omega arith, omega arith)
  | inr many ↦ let many' : 32 ≤ (n + 3) / 4 = ground arith in inl (omega arith)
]

-- Every byte of the message meets the byte of the key that masked it.
full_key-stream :
    (k n idx : ℕ)
    → idx < n
    → let amount = min ((n + 3) / 4) 32 in
      byte_at (words k amount 31) (idx % length (words k amount 31)) ≡ stream k idx
full_key-stream k n idx h =
    let a : ℕ = min ((n + 3) / 4) 32 in
    let (word, byte, inside) = position idx a (enough n idx h) in
    rw (length-words k a 31) (words-byte k a 31 (idx % (4 * a)) inside ∙ rw (word, byte))

unmask-masked :
    (full : List ℕ) (k idx : ℕ) (bs : List ℕ)
    → ((i : ℕ) → i < idx + length bs → byte_at full (i % length full) ≡ stream k i)
    → unmask full idx (masked k idx bs) ≡ bs
unfolding unmask masked
unmask-masked full k idx [] h = refl
unmask-masked full k idx (b ∷ bs) h =
    rw (h idx (omega arith), xor_twice (stream k idx) b)
      (ap (λ (l : List ℕ). b ∷ l) (unmask-masked full k (idx + 1) bs (λ i lt. h i (omega arith))))

-- Where the key, given or generated, is four bytes: every message is encoded, to four bytes more
-- than it has, and decodes to itself.
pub decode-encode :
    (bytes : List ℕ) (key : Option (List ℕ)) (generated : List ℕ)
    → length (Option.get_or key generated) ≡ 4
    → All IsByte (Option.get_or key generated)
    → (b : List ℕ) × (encode bytes key generated ≡ ok b)
      × (decode b ≡ ok bytes)
      × (length b ≡ 4 + length bytes)
unfolding encode decode
decode-encode bytes key generated four good = (
  orig ++ masked k 0 bytes,
  rw (mask-masked k orig 0 bytes small start),
  rw (key_back, rest_back)
      (rw (length-masked k 0 bytes) (
        rw (rotations-words orig (min ((length bytes + 3) / 4) 32) 31 small (omega arith)) (
          ap ok (
            unmask-masked _ k 0 bytes
              (λ i lt. full_key-stream k (length bytes) i (omega arith)))))),
  omega (arith, length-append orig (masked k 0 bytes), length-masked k 0 bytes),
)
  where
    orig : List ℕ
    orig = Option.get_or key generated

    k : ℕ
    k = from_le orig

    small : k < 2 ^ 32
    small = rw four at (from_le_lt orig good)

    start : Holds k orig 0
    start = record { small = small; turning = λ _. refl; turned = λ h. absurd (h refl) }

    key_back : take 4 (orig ++ masked k 0 bytes) ≡ orig
    key_back = rw four at (take-append_length orig (masked k 0 bytes))

    rest_back : drop 4 (orig ++ masked k 0 bytes) ≡ masked k 0 bytes
    rest_back = rw four at (drop-append_length orig (masked k 0 bytes))
