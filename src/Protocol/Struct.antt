-- ===== src/Protocol/Struct.antt =====
-- Python's `struct.Struct` for the little-endian formats that protocol/primitives.py uses.
use aioslsk.Base.{ℕ, zero, suc, ◌+◌, ◌*◌, ◌/◌, ◌%◌, ◌^◌, ◌<◌, ◌≡◌, refl, sym, ap, arith}
use aioslsk.Base.{List, [], ◌∷◌, ◌++◌, length, take, drop, All, ltb, ◌==◌, if◌then◌else◌}
use aioslsk.Base.{true, lt→ltb, ==_self, drop-append_length, take-append_length, drop-drop, ◌∙◌}
use aioslsk.Base.Result.{Result, ok, err, struct_error}
use native.Mathlib.Nat.{pow-suc}

abbrev pub IsByte : ℕ → Type 0
IsByte b = b < 256

-- The `width` low bytes of `n`, lowest first.
unfoldable pub to_le : ℕ → ℕ → List ℕ
to_le zero n = []
to_le (suc width) n = (n % 256) ∷ to_le width (n / 256)

unfoldable pub from_le : List ℕ → ℕ
from_le [] = 0
from_le (b ∷ bs) = b + 256 * from_le bs

-- `pack` refuses a number that the format cannot hold.
unfoldable pub pack : ℕ → ℕ → Result (List ℕ)
pack width n = if ltb n (256 ^ width) then ok (to_le width n) else err struct_error

-- `unpack_from(data, offset=pos)`, which refuses a buffer that ends too early.
unfoldable pub unpack_from : ℕ → ℕ → List ℕ → Result ℕ
unpack_from width pos bytes =
    let w = take width (drop pos bytes) in
    if length w == width then ok (from_le w) else err struct_error

pub length-to_le : (width n : ℕ) → length (to_le width n) ≡ width
unfolding to_le
length-to_le zero n = refl
length-to_le (suc width) n = ap suc (length-to_le width (n / 256))

pub to_le-IsByte : (width n : ℕ) → All IsByte (to_le width n)
unfolding to_le
to_le-IsByte zero n = tt
to_le-IsByte (suc width) n = (omega arith, to_le-IsByte width (n / 256))

pub from_le-to_le : (width n : ℕ) → n < 256 ^ width → from_le (to_le width n) ≡ n
unfolding to_le from_le
from_le-to_le zero n h = omega arith
from_le-to_le (suc width) n h =
    omega (arith, from_le-to_le width (n / 256) (omega (arith, pow-suc 256 width)))

pub pack-ok : (width n : ℕ) → n < 256 ^ width → pack width n ≡ ok (to_le width n)
unfolding pack
pack-ok width n h = rw (lt→ltb _ _ h)

-- Reading where the message goes on with `b ++ post`.
pub slice_here :
    (p : ℕ) (message b post : List ℕ)
    → drop p message ≡ b ++ post
    → take (length b) (drop p message) ≡ b
slice_here p message b post e = rw e (take-append_length b post)

-- The message behind what was read.
pub drop_after :
    (p : ℕ) (message b post : List ℕ)
    → drop p message ≡ b ++ post
    → drop (p + length b) message ≡ post
drop_after p message b post e =
    sym (drop-drop p (length b) message) ∙ rw e (drop-append_length b post)

pub unpack_from-to_le :
    (width n p : ℕ) (message post : List ℕ)
    → n < 256 ^ width
    → drop p message ≡ to_le width n ++ post
    → unpack_from width p message ≡ ok n
unfolding unpack_from
unpack_from-to_le width n p message post h e = rw slice (rw (len, from_le-to_le width n h))
  where
    slice : take width (drop p message) ≡ to_le width n
    slice = rw (length-to_le width n) at (slice_here p message (to_le width n) post e)

    len : (length (to_le width n) == width) ≡ true
    len = rw (length-to_le width n) (==_self width)

pub from_le_lt : (bs : List ℕ) → All IsByte bs → from_le bs < 256 ^ length bs
unfolding from_le
from_le_lt [] h = omega arith
from_le_lt (b ∷ bs) (hb, hbs) = omega (arith, from_le_lt bs hbs, pow-suc 256 (length bs))
