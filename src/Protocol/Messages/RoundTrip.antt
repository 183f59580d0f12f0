-- ===== src/Protocol/Messages/RoundTrip.antt =====
-- Every message of protocol/messages.py comes back as it was sent.
use aioslsk.Base.{ℕ, ◌≡◌, refl, true, some, List, get_elem?}
use aioslsk.Base.Result.{ok}
use aioslsk.Protocol.Value.{Values}
use aioslsk.Protocol.Platform.{Platform, Laws}
use aioslsk.Protocol.Dataclass.Fits.{fields_ok}
use aioslsk.Protocol.Message.{MessageClass, serialize_message}
use aioslsk.Protocol.Message.RoundTrip.{
  FitsMessage, registry_ok, deserialize_with-serialize_message,
}
use aioslsk.Protocol.Messages.{
  Dispatcher, server_request, server_response, peer_init_request, peer_request, distributed_request,
  header, classes, dispatch_message,
}

-- In each table the ids are distinct and within their type, the entry point can tell them from
-- what it reads, and every class's conditions are on fields in front.
pub classes-registry_ok : (d : Dispatcher) → registry_ok (header d) (classes d) ≡ true
unfolding registry_ok fields_ok header classes
classes-registry_ok server_request = refl
classes-registry_ok server_response = refl
classes-registry_ok peer_init_request = refl
classes-registry_ok peer_request = refl
classes-registry_ok distributed_request = refl

-- On a platform that satisfies its laws, every message class that an entry point knows writes all
-- values that fit its annotations, and the entry point reads the bytes back as the same class with
-- the same values.
pub dispatch_message-serialize_message :
    (platform : Platform) (laws : Laws platform) (d : Dispatcher) (i : ℕ) (c : MessageClass)
    (vs : Values)
    → get_elem? (classes d) i ≡ some c
    → FitsMessage platform c vs
    → (b : List ℕ) × (serialize_message platform c vs ≡ ok b)
      × (dispatch_message platform d b ≡ ok (c, vs))
unfolding dispatch_message
dispatch_message-serialize_message platform laws d i c vs at fit =
    deserialize_with-serialize_message platform laws (header d) (classes d) i c vs
      (classes-registry_ok d) at fit
