-- ===== src/Protocol/Platform.antt =====
-- What protocol/primitives.py takes from Python's standard library: the text codecs, the
-- address functions of `socket` and `zlib`. A call that raises returns `none`.
use aioslsk.Base.{ℕ, ◌≡◌, Option, some, List}

pub record Platform : Type 0 where
  pub encode_utf8 : List ℕ → Option (List ℕ)
  pub decode_utf8 : List ℕ → Option (List ℕ)
  pub decode_cp1252 : List ℕ → Option (List ℕ)
  pub inet_aton : List ℕ → Option (List ℕ)
  pub inet_ntoa : List ℕ → Option (List ℕ)
  pub compress : List ℕ → List ℕ
  pub decompress : List ℕ → Option (List ℕ)

-- The documented behaviour that the round trips rest on.
pub record Laws (p : Platform) : Type 0 where
  pub decode-encode : (s b : List ℕ) → p.encode_utf8 s ≡ some b → p.decode_utf8 b ≡ some s
  pub decompress-compress : (b : List ℕ) → p.decompress (p.compress b) ≡ some b
