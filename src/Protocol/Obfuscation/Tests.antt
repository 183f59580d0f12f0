-- ===== src/Protocol/Obfuscation/Tests.antt =====
-- Masked messages, and the round trip at one of them.
use aioslsk.Base.{ℕ, ◌+◌, ◌≡◌, refl, arith, some, List, [], ◌∷◌, length}
use aioslsk.Base.Result.{ok}
use aioslsk.Protocol.Struct.{to_le, from_le}
use aioslsk.Protocol.Obfuscation.{rotate_key, to_bytes, decode, encode}
use aioslsk.Protocol.Obfuscation.RoundTrip.{decode-encode}

abbrev key : List ℕ
key = 0xca ∷ 0xa9 ∷ 0x7e ∷ 0xee ∷ []

rotate_key_test : rotate_key key 31 ≡ ok (0x95 ∷ 0x53 ∷ 0xfd ∷ 0xdc ∷ [])
unfolding rotate_key to_bytes to_le from_le
rotate_key_test = refl

decode-encode_example :
    (b : List ℕ) × (encode (1 ∷ 2 ∷ 3 ∷ 4 ∷ 5 ∷ []) (some key) [] ≡ ok b)
    × (decode b ≡ ok (1 ∷ 2 ∷ 3 ∷ 4 ∷ 5 ∷ []))
    × (length b ≡ 4 + 5)
decode-encode_example = decode-encode (1 ∷ 2 ∷ 3 ∷ 4 ∷ 5 ∷ []) (some key) [] refl (omega arith)

-- "hello" under the key of the repository's own test.
hello_test :
    encode (0x68 ∷ 0x65 ∷ 0x6c ∷ 0x6c ∷ 0x6f ∷ []) (some (0x99 ∷ 0xab ∷ 0xcd ∷ 0xef ∷ [])) []
    ≡ ok (0x99 ∷ 0xab ∷ 0xcd ∷ 0xef ∷ 0x5b ∷ 0x32 ∷ 0xf7 ∷ 0xb3 ∷ 0x08 ∷ [])
unfolding encode rotate_key to_bytes to_le from_le
hello_test = refl
