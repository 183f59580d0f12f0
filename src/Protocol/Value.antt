-- ===== src/Protocol/Value.antt =====
-- The Python values that message fields hold, and the field types of protocol/primitives.py.
use aioslsk.Base.{ℕ, zero, suc, Bool, true, false, Option, List, [], ◌∷◌}
use Prim.Native.String.{String}

-- Python's `int`; `negsuc n` is -(n + 1).
pub data ℤ : Type 0 where
  pos : ℕ → ℤ
  negsuc : ℕ → ℤ

-- `null` is `None`; a `str` is its list of code points; an `obj` is a dataclass instance, given
-- by the values of its fields in their order.
mutual
  pub data Value : Type 0 where
    null : Value
    int : ℤ → Value
    bool : Bool → Value
    str : List ℕ → Value
    bytes : List ℕ → Value
    list : Values → Value
    obj : Values → Value

  pub data Values : Type 0 where
    nil : Values
    cons : Value → Values → Values

abbrev pub count : Values → ℕ
count nil = 0
count (cons v vs) = suc (count vs)

-- `bool(value)`.
abbrev pub truthy : Value → Bool
truthy null = false
truthy (int (pos zero)) = false
truthy (int (pos (suc n))) = true
truthy (int (negsuc n)) = true
truthy (bool b) = b
truthy (str []) = false
truthy (str (c ∷ s)) = true
truthy (bytes []) = false
truthy (bytes (c ∷ s)) = true
truthy (list nil) = false
truthy (list (cons v vs)) = true
truthy (obj vs) = true

-- The four unsigned integer classes.
pub data Uint : Type 0 where
  uint8 uint16 uint32 uint64 : Uint

-- `STRUCT.size`.
abbrev pub size : Uint → ℕ
size uint8 = 1
size uint16 = 2
size uint32 = 4
size uint64 = 8

-- The metadata of a field, and its default value where it has one.
pub record Meta : Type 0 where
  pub if_true : Option String
  pub if_false : Option String
  pub optional : Bool
  pub default : Option Value

-- What a field's `type` (and `subtype`) can be, and the fields of a dataclass in their order.
-- `Attribute`, `FileData` and `DirectoryData` have serialisers of their own.
mutual
  pub data Ty : Type 0 where
    uint : Uint → Ty
    int32 string bytearr ipaddr boolean peer_init_ticket : Ty
    attribute file_data directory_data : Ty
    array : Ty → Ty
    dataclass : Fields → Ty

  pub data Fields : Type 0 where
    end : Fields
    field : String → Ty → Meta → Fields → Fields
