-- ===== src/Protocol/Messages/Tests.antt =====
-- Messages over a small platform: ASCII text, dotted addresses and a compressor that adds a byte.
use aioslsk.Base.{ℕ, ◌≡◌, refl}
use aioslsk.Base.{false, none, some, List, [], ◌∷◌}
use aioslsk.Base.Result.{ok}
use aioslsk.Protocol.Struct.{pack, to_le}
use aioslsk.Protocol.Value.{uint32, end, null, int, bool, str, nil, cons, pos}
use aioslsk.Protocol.Primitives.{serialize_uint, serialize_boolean, serialize_string}
use aioslsk.Protocol.Dataclass.{lookup, attributes, get_value_for_field, serialize_into}
use aioslsk.Protocol.Message.{MessageClass, contents, serialize_message}
use aioslsk.Protocol.Messages.{server_response, classes, dispatch_message}
use aioslsk.Protocol.Messages.RoundTrip.{dispatch_message-serialize_message}
use aioslsk.Protocol.Messages.Notation.{plain}
use aioslsk.Protocol.Messages.Peer.{peer_transfer_reply}
use aioslsk.Protocol.Value.{dataclass}
use aioslsk.Protocol.Dataclass.{deserialize_directory_data, deserialize}
use aioslsk.Protocol.Messages.Classes.{directory_data_fields}
use aioslsk.Protocol.Messages.Optimised.{deserialize_directory_data_lem}
use aioslsk.Protocol.Messages.Sample.{
  codes, small, small_laws, logged_in, login_response, logged_in_fits,
}

dispatch_message-serialize_message_example :
    (b : List ℕ) × (serialize_message small login_response logged_in ≡ ok b)
    × (dispatch_message small server_response b ≡ ok (login_response, logged_in))
unfolding classes
dispatch_message-serialize_message_example =
    dispatch_message-serialize_message small small_laws server_response 0 login_response logged_in
      refl logged_in_fits

-- A `FileData` with one attribute.
abbrev file_image : List ℕ
file_image =
    1 ∷ 1 ∷ 0 ∷ 0 ∷ 0 ∷ 97 ∷ 5 ∷ 0 ∷ 0 ∷ 0 ∷ 0 ∷ 0 ∷ 0 ∷ 0 ∷ 0 ∷ 0 ∷ 0 ∷ 0 ∷ 1 ∷ 0 ∷ 0 ∷ 0 ∷ 2 ∷ 0
    ∷ 0 ∷ 0 ∷ 9 ∷ 0 ∷ 0 ∷ 0 ∷ []

abbrev directory_image : List ℕ
directory_image = 1 ∷ 0 ∷ 0 ∷ 0 ∷ 98 ∷ 1 ∷ 0 ∷ 0 ∷ 0 ∷ file_image

deserialize_directory_data_lem_example :
    deserialize_directory_data small 0 directory_image
    ≡ deserialize small (dataclass directory_data_fields) 0 directory_image
deserialize_directory_data_lem_example = deserialize_directory_data_lem small 0 directory_image

abbrev reply_class : MessageClass
reply_class = elim peer_transfer_reply.request [ some c ↦ c | none ↦ plain uint32 0 end ]

-- The bytes of a `PeerTransferReply` that refuses a transfer: the size is left out.
refused :
    serialize_message small
      (reply_class)
      (cons (int (pos 7)) (cons (bool false) (cons null (cons (str (codes "no")) nil))))
    ≡ ok (15 ∷ 0 ∷ 0 ∷ 0 ∷ 41 ∷ 0 ∷ 0 ∷ 0 ∷ 7 ∷ 0 ∷ 0 ∷ 0 ∷ 0 ∷ 2 ∷ 0 ∷ 0 ∷ 0 ∷ codes "no")
unfolding serialize_message contents serialize_into get_value_for_field lookup attributes pack to_le
    serialize_uint serialize_boolean serialize_string
refused = refl
