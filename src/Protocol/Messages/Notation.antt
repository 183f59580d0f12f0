-- ===== src/Protocol/Messages/Notation.antt =====
-- Short forms for the field declarations of protocol/messages.py.
use aioslsk.Base.{ℕ, Bool, true, false, Option, none, some}
use aioslsk.Protocol.Value.{Uint, Value, null, Ty, Fields, field}
use aioslsk.Protocol.Message.{MessageClass}
use Prim.Native.String.{String}

abbrev pub plain : Uint → ℕ → Fields → MessageClass
plain k n fs = record { id_type = k; id = n; compressed = false; fields = fs }

-- A class that overrides `serialize` and `deserialize` to compress its contents.
abbrev pub compressed : Uint → ℕ → Fields → MessageClass
compressed k n fs = record { id_type = k; id = n; compressed = true; fields = fs }

-- `if_true`, `if_false`, `optional` and the default, written out.
abbrev pub special :
    String → Ty → Option String → Option String → Bool → Option Value → Fields → Fields
special name t a b o d fs =
    field name t (record { if_true = a; if_false = b; optional = o; default = d }) fs

abbrev pub required : String → Ty → Fields → Fields
required name t fs = special name t none none false none fs

-- The last three have the default `None`.
abbrev pub optional : String → Ty → Fields → Fields
optional name t fs = special name t none none true (some null) fs

abbrev pub only_if : String → Ty → String → Fields → Fields
only_if name t other fs = special name t (some other) none false (some null) fs

abbrev pub only_unless : String → Ty → String → Fields → Fields
only_unless name t other fs = special name t none (some other) false (some null) fs
