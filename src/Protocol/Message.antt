-- ===== src/Protocol/Message.antt =====
-- `MessageDataclass` of protocol/primitives.py, and the classes of protocol/messages.py that find
-- the class of an incoming message.
pub mod RoundTrip
use aioslsk.Base.{
  ℕ, ◌+◌, Bool, true, false, if◌then◌else◌, ◌==◌, Option, none, some, List, [], ◌∷◌, ◌++◌, length,
  drop,
}
use aioslsk.Base.Result.{Result, ok, err, or_raise, ◌>>=◌, value_error, zlib_error, unknown_message}
use aioslsk.Protocol.Struct.{pack}
use aioslsk.Protocol.Value.{Uint, uint32, size, Fields, Values}
use aioslsk.Protocol.Platform.{Platform}
use aioslsk.Protocol.Primitives.{read_uint}
use aioslsk.Protocol.Dataclass.{attributes, construct, serialize_fields, deserialize_fields}
use Prim.Native.String.{String}

-- A message class: the type and value of its `MESSAGE_ID`, whether it overrides `serialize` and
-- `deserialize` to compress its contents, and its fields.
pub record MessageClass : Type 0 where
  pub id_type : Uint
  pub id : ℕ
  pub compressed : Bool
  pub fields : Fields

-- A subclass of `ServerMessage`, `PeerMessage` and so on, with its nested classes.
pub record MessageKind : Type 0 where
  pub name : String
  pub request : Option MessageClass
  pub response : Option MessageClass

-- The first class of the list with that id.
unfoldable pub find_class : ℕ → List MessageClass → Option MessageClass
find_class msg_id [] = none
find_class msg_id (c ∷ cs) = if c.id == msg_id then some c else find_class msg_id cs

module _ (platform : Platform) where
  open platform use {compress, decompress}

  -- The contents of a message, compressed if the class says so.
  unfoldable pub contents : MessageClass → Values → Result (List ℕ)
  contents c vs = do
    message ← serialize_fields platform c.fields (attributes c.fields vs) vs
    ok (if c.compressed then compress message else message)

  unfoldable pub serialize_message : MessageClass → Values → Result (List ℕ)
  serialize_message c vs = do
    message_id ← pack (size c.id_type) c.id
    message ← contents c vs
    len ← pack 4 (length message_id + length message)
    ok (len ++ (message_id ++ message))

  -- `super().deserialize`: the position behind the last field, and the object's field values.
  unfoldable pub deserialize_object : Fields → ℕ → List ℕ → Result (ℕ × Values)
  deserialize_object fs p message = do
    (p', found) ← deserialize_fields platform fs [] p message
    vs ← construct fs found
    ok (p', vs)

  -- The object behind the id; bytes behind its last field are only logged.
  unfoldable pub deserialize_contents : MessageClass → ℕ → List ℕ → Result Values
  unfolding deserialize_object
  deserialize_contents c p message = elim c.compressed [
    | true ↦ do
      plain ← or_raise (decompress (drop p message)) zlib_error
      (_, vs) ← deserialize_object c.fields 0 plain
      ok vs
    | false ↦ do (_, vs) ← deserialize_object c.fields p message; ok vs
  ]

  unfoldable pub deserialize_message : MessageClass → ℕ → List ℕ → Result Values
  unfolding deserialize_contents
  deserialize_message c p message = do
    (p1, _) ← read_uint uint32 p message
    (p2, message_id) ← read_uint c.id_type p1 message
    if message_id == c.id then deserialize_contents c p2 message else err value_error

  -- `deserialize_request` and `deserialize_response`: the id behind the length selects the class.
  unfoldable pub deserialize_with :
      Uint → List MessageClass → List ℕ → Result (MessageClass × Values)
  unfolding find_class
  deserialize_with header classes message = do
    (_, msg_id) ← read_uint header 4 message
    c ← or_raise (find_class msg_id classes) unknown_message
    vs ← deserialize_message c 0 message
    ok (c, vs)

-- The `Request` or `Response` classes of the subclasses, in the order of their definition.
unfoldable pub requests : List MessageKind → List MessageClass
requests [] = []
requests (k ∷ ks) = elim k.request [ some c ↦ c ∷ requests ks | none ↦ requests ks ]

unfoldable pub responses : List MessageKind → List MessageClass
responses [] = []
responses (k ∷ ks) = elim k.response [ some c ↦ c ∷ responses ks | none ↦ responses ks ]
