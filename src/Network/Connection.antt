-- ===== src/Network/Connection.antt =====
-- network/connection.py: the state of a data connection, and the messages that go over it.
pub mod Frames
pub mod Reader
pub mod Arrival
mod Tests
use aioslsk.Base.{ℕ, zero, suc, ◌+◌, Bool, true, false, not, ◌&&◌, ltb, if◌then◌else◌}
use aioslsk.Base.{Option, none, some, List, [], ◌∷◌, ◌++◌, length, take, drop}
use aioslsk.Base.Result.{Result, ok, err, ◌>>=◌}
use aioslsk.Protocol.Value.{uint32, Values}
use aioslsk.Protocol.Platform.{Platform}
use aioslsk.Protocol.Primitives.{read_uint}
use aioslsk.Protocol.Message.{MessageClass, serialize_message}
use aioslsk.Protocol.Messages.{
  Dispatcher, server_response, peer_init_request, peer_request, distributed_request,
  dispatch_message,
}
use aioslsk.Protocol.Obfuscation.{key_size, encode, decode}

pub data ConnectionState : Type 0 where
  uninitialized connecting connected closing closed : ConnectionState

pub data CloseReason : Type 0 where
  unknown connect_failed requested read_error write_error timeout eof : CloseReason

pub data PeerConnectionState : Type 0 where
  awaiting_init established negotiating_transfer transferring : PeerConnectionState

-- The strings `F`, `P` and `D`.
pub data PeerConnectionType : Type 0 where
  file peer distributed : PeerConnectionType

-- The two subclasses of `DataConnection`.
pub data Kind : Type 0 where
  server_connection peer_connection : Kind

-- `reader` and `writer` are whether the streams are there, `reader_task` whether the task is;
-- `queued_messages` are the numbers of the tasks. What the network is told, with the reason, stands
-- newest first in `state_changes`.
pub record Connection : Type 0 where
  pub kind : Kind
  pub state : ConnectionState
  pub obfuscated : Bool
  pub reader : Bool
  pub writer : Bool
  pub reader_task : Bool
  pub queued_messages : List ℕ
  pub connection_state : PeerConnectionState
  pub connection_type : PeerConnectionType
  pub state_changes : List (ConnectionState × CloseReason)

-- `_is_closing`, which `set_state` keeps in step with the state.
abbrev pub closing? : ConnectionState → Bool
closing? closing = true
closing? closed = true
closing? _ = false

abbrev pub is_closing : Connection → Bool
is_closing c = closing? c.state

unfoldable pub set_state : ConnectionState → CloseReason → Connection → Connection
set_state state reason c = record c {
  state = state;
  state_changes = (state, reason) ∷ c.state_changes;
}

-- `DataConnection.disconnect`; what closing the writer raises is only logged.
unfoldable pub disconnect : CloseReason → Connection → Connection
unfolding set_state
disconnect reason c =
    if is_closing c
    then c
    else let c' = record (set_state closing reason c) { queued_messages = [] } in
      record (set_state closed reason c') { reader_task = false; reader = false; writer = false }

-- `connect`, by whether `open_connection` succeeds; the error is raised where it does not.
unfoldable pub connect : Bool → Connection → Connection × Bool
unfolding set_state disconnect
connect opens c =
    let c' = set_state connecting unknown c in
    if opens
    then (set_state connected unknown (record c' { reader = true; writer = true }), true)
    else (disconnect connect_failed c', false)

unfoldable pub start_reader_task : Connection → Connection
start_reader_task c = record c { reader_task = true }

unfoldable pub stop_reader_task : Connection → Connection
stop_reader_task c = record c { reader_task = false }

abbrev pub awaiting? : PeerConnectionState → Bool
awaiting? awaiting_init = true
awaiting? _ = false

abbrev pub peer? : PeerConnectionType → Bool
peer? peer = true
peer? _ = false

abbrev pub established? : PeerConnectionState → Bool
established? established = true
established? _ = false

unfoldable pub set_connection_state : PeerConnectionState → Connection → Connection
unfolding start_reader_task stop_reader_task
set_connection_state state c =
    let plain = if awaiting? state then c.obfuscated else c.obfuscated && peer? c.connection_type in
    let c' = record c { obfuscated = plain; connection_state = state } in
    if established? state then start_reader_task c' else stop_reader_task c'

-- What is still to come from the other end: bytes, and then the end, or nothing within the time, or
-- an error.
pub data Ending : Type 0 where
  at_eof at_timeout at_failure : Ending

pub record Stream : Type 0 where
  pub coming : List ℕ
  pub ending : Ending

-- What a coroutine that reads returns or raises.
pub data Read : Type 0 where
  read_data : List ℕ → Stream → Read
  incomplete : List ℕ → Read
  timed_out failed : Read

-- `StreamReader.readexactly`.
unfoldable pub readexactly : ℕ → Stream → Read
readexactly n s =
    if ltb (length s.coming) n
    then elim s.ending [
      | at_eof ↦ incomplete s.coming
      | at_timeout ↦ timed_out
      | at_failure ↦ failed
    ]
    else read_data (take n s.coming) (record s { coming = drop n s.coming })

abbrev pub header_size : Bool → ℕ
header_size true = key_size + 4
header_size false = 4

unfoldable pub header_length : Bool → List ℕ → Result (ℕ × ℕ)
header_length obfuscated header = do
  message_len_buf ← if obfuscated then decode header else ok header
  read_uint uint32 0 message_len_buf

-- `_read_message`: the header says how much more to read. Its second half, from what the reading of
-- the message, and before that of the header, gave.
unfoldable pub read_rest : List ℕ → Read → Read
read_rest header (read_data message s) = read_data (header ++ message) s
read_rest header (incomplete partial) = incomplete partial
read_rest header timed_out = timed_out
read_rest header failed = failed

unfoldable pub read_body : List ℕ → Result (ℕ × ℕ) → Stream → Read
unfolding read_rest
read_body header (err e) s = failed
read_body header (ok (_, message_len)) s = read_rest header (readexactly message_len s)

unfoldable pub read_behind : Bool → Read → Read
unfolding read_body
read_behind obfuscated (read_data header s) = read_body header (header_length obfuscated header) s
read_behind obfuscated (incomplete partial) = incomplete partial
read_behind obfuscated timed_out = timed_out
read_behind obfuscated failed = failed

unfoldable pub read_message : Bool → Stream → Read
unfolding read_behind
read_message obfuscated s = read_behind obfuscated (readexactly (header_size obfuscated) s)

-- What `_read` returns, `nothing` for `None`, or that it raises a `ConnectionReadError`.
pub data Received : Type 0 where
  received : List ℕ → Stream → Received
  nothing raised : Received

-- `_read`, which closes the connection unless there is data.
unfoldable pub read_with : Read → Connection → Connection × Received
unfolding disconnect
read_with (read_data [] s) c = (disconnect eof c, nothing)
read_with (read_data (b ∷ bs) s) c = (c, received (b ∷ bs) s)
read_with (incomplete []) c = (disconnect eof c, nothing)
read_with (incomplete (b ∷ bs)) c = (disconnect read_error c, raised)
read_with timed_out c = (disconnect timeout c, raised)
read_with failed c = (disconnect read_error c, raised)

-- Without a reader `_read_message` raises, which `_read` treats as any other exception.
unfoldable pub receive_message : Stream → Connection → Connection × Received
unfolding read_with
receive_message s c = read_with (if c.reader then read_message c.obfuscated s else failed) c

-- `deserialize_message`: the entry point that the connection's kind and state ask for.
unfoldable pub dispatcher : Connection → Dispatcher
dispatcher c = elim c.kind [
  | server_connection ↦ server_response
  | peer_connection ↦
      if awaiting? c.connection_state
      then peer_init_request
      else if peer? c.connection_type
      then peer_request
      else distributed_request
]

-- How `drain` of the writer ends.
pub data Drain : Type 0 where
  drains drain_timeout drain_failure : Drain

module _ (platform : Platform) where
  unfoldable pub decode_message_data : Connection → List ℕ → Result (MessageClass × Values)
  unfolding dispatcher
  decode_message_data c bytes = do
    plain ← if c.obfuscated then decode bytes else ok bytes
    dispatch_message platform (dispatcher c) plain

  -- `generated` is the random key of the message.
  unfoldable pub encode_message_data : Bool → List ℕ → MessageClass → Values → Result (List ℕ)
  encode_message_data obfuscated generated c vs = do
    bytes ← serialize_message platform c vs
    if obfuscated then encode bytes none generated else ok bytes

  -- `send_message`, by how the writer drains: the connection afterwards, what is written, and
  -- whether a `ConnectionWriteError` is raised. A message that cannot be serialised is dropped.
  unfoldable pub send_message :
      Drain → List ℕ → MessageClass → Values → Connection → Connection × List ℕ × Bool
  unfolding encode_message_data disconnect
  send_message drained generated m vs c =
      if is_closing c
      then (c, [], false)
      else elim (encode_message_data c.obfuscated generated m vs) [
        | err e ↦ (c, [], false)
        | ok bytes ↦
            if c.writer
            then elim drained [
              | drains ↦ (c, bytes, false)
              | drain_timeout ↦ (disconnect timeout c, bytes, true)
              | drain_failure ↦ (disconnect write_error c, bytes, true)
            ]
            else (c, [], true)
      ]

  -- `on_message_received` of the network, which may change the connection.
  module _ (on_message_received : MessageClass × Values → Connection → Connection) where
    -- `_message_reader_loop`, with the messages that were handled; `none` is out of fuel. Every
    -- round takes a header from the stream or closes the connection.
    unfoldable pub reader_loop :
        ℕ → Stream → Connection → Option (Connection × List (MessageClass × Values))
    reader_loop zero s c = none
    reader_loop (suc fuel) s c =
        let (c', result) = receive_message s c in
        elim (is_closing c) [
          | true ↦ some (c, [])
          | false ↦ elim result [
            | nothing ↦ some (c', [])
            | raised ↦ reader_loop fuel s c'
            | received bytes s' ↦ elim (decode_message_data c' bytes) [
              | err e ↦ reader_loop fuel s' c'
              | ok m ↦ elim (reader_loop fuel s' (on_message_received m c')) [
                | none ↦ none
                | some (c'', ms) ↦ some (c'', m ∷ ms)
              ]
            ]
          ]
        ]
