-- ===== src/Lib.antt =====
-- aioslsk: a client library for the Soulseek network. This development covers the parts of it that
-- decide by themselves: the wire format, the obfuscation, the connections that carry messages, our
-- place in the distributed network, the users, the life of a transfer, the names of its files and the
-- bandwidth.
--
-- The parts and how they meet. The network layer frames the bytes of a message, unmasks them where
-- the connection is obfuscated (`Protocol/Obfuscation`), and hands them to the dispatching class of the
-- connection's kind, which finds the message class by its id (`Protocol/Messages`) and reads its fields
-- by their annotations (`Protocol/Dataclass`, `Protocol/Primitives`). The transfer manager keeps
-- `Transfer` objects (`Transfer/Model`), whose state objects do the transitions (`Transfer/State`), and
-- the connections that carry their files ask a limiter for each chunk (`RateLimiter`). The manager
-- picks the transfers to start from its list and calls their state objects (`Transfer/Queue`), and a
-- chain of strategies names the file of a download (`Naming`). The requests of peers come to its list
-- (`Transfer/Requests`), and it has the users of unfinished transfers tracked (`User/Tracking`), beside
-- those that the user manager has tracked as friends (`User/Manager`). The distributed network
-- (`Distributed`) chooses a parent among the open connections and tells the children of it.
--
-- The files, and what they stand for:
--   Base              Boolean tests and lists over the native numbers, `Result` for the exceptions
--                     that the code raises, lists of numbers as sets, and bits of a number.
--   Protocol/Struct, Value, Platform, Primitives, Dataclass, Message
--                     src/aioslsk/protocol/primitives.py: `pack` and `unpack` of struct formats in
--                     little endian, the values of fields, the primitive classes, the loop over the
--                     dataclass fields with `if_true`, `if_false` and `optional`, and the envelope of
--                     length and id.
--   Protocol/Messages src/aioslsk/protocol/messages.py: a table per class in the order of its fields,
--                     and the entry points `deserialize_request` and `deserialize_response`.
--   Protocol/Obfuscation
--                     src/aioslsk/protocol/obfuscation.py: `rotate_key`, `encode` and `decode`.
--   Network/Connection
--                     src/aioslsk/network/connection.py: the states of a data connection, the framing
--                     of messages (`_read_message`), `_message_reader_loop` and `send_message`. What
--                     the other end sends is the bytes to come and how they end.
--   Distributed       src/aioslsk/distributed.py: `DistributedNetwork` as a record, with the peers by
--                     the numbers of their connections and what is sent as an outbox; a function per
--                     handler, and `react` for the event that calls it. Sends to the server may
--                     fail, which ends the handler.
--   Transfer/Model    src/aioslsk/transfer/model.py: `Transfer` as a record, its methods as functions
--                     of it.
--   Transfer/State    src/aioslsk/transfer/state.py: a function per state class; what a method does
--                     outside of the transfer (cancelling tasks, removing the file, telling the
--                     listeners) is a list of effects beside the new transfer.
--   Transfer/Queue    src/aioslsk/transfer/manager.py: which queued transfers are started
--                     (`_get_queued_transfers`, `_prioritize_uploads`, `manage_transfers`), and what
--                     becomes of uploads when shares or blocked users change
--                     (`manage_shares_changed`, `_evaluate_aborted_state`), and which users are tracked
--                     for their transfers (`manage_user_tracking`). User objects, friends,
--                     slots, blocked users and shared files are read from a record or a function.
--   Transfer/Requests src/aioslsk/transfer/manager.py: the list of transfers, `add`, `download`,
--                     `abort`, `queue`, `pause` and `remove`, and the handlers of what peers ask for
--                     (`_on_peer_transfer_queue`, `_on_peer_transfer_request` and others). The shared
--                     files and the blocked users are functions.
--   Transfer/Storage  src/aioslsk/transfer/model.py and manager.py: `__getstate__`, `__setstate__` and
--                     the correction of states in `read_cache`.
--   User/Tracking     src/aioslsk/user/manager.py: `UserTrackingManager`, for one user name. A step is a
--                     request, a round of `_tracking_task` with the answer of the server, a retry, or
--                     the end of a task.
--   User/Manager      src/aioslsk/user/manager.py: `UserManager`, the user objects by name with the
--                     handlers that write to them, and `_management_job`. What goes out is a list of
--                     effects.
--   Naming            src/aioslsk/naming.py, and `split_remote_path` of src/aioslsk/utils.py: where a
--                     download is written. Listing, existence and `os.path` are a record.
--   RateLimiter       src/aioslsk/network/rate_limiter.py: the limiters, and the loop of `take_tokens`
--                     over the times at which it comes round.
--
-- Bounds and parameters. Bytes and characters are numbers; an integer outside the range of its struct
-- format is an error, as in Python. The text codecs, `inet_aton`, `inet_ntoa` and zlib are the fields of
-- `Platform`, with `Laws` for what the code relies on. The generated obfuscation key is an argument. The
-- clock, the file system and the numbers of tasks are arguments. Times are whole milliseconds, and the
-- limiter's fractions 0.01 and 0.1 are exact, where the code has floating point. Reading a list of
-- unknown length goes through the count that the message states, and nested types through the
-- structure of the type, so that these need no fuel. Writing a number in decimal takes the number
-- itself as fuel, which is at least as many as its digits; the search for a free file number goes
-- through the finite range of the code.
--
-- The reader loop runs on fuel: every round that goes on takes a header from the bytes to come or
-- closes the connection, so that two rounds more than there are bytes are enough.
--
-- Not modelled: logging; the sockets, tasks and events, which are input and output; speeds, which are
-- floating point; the files of settings and caches; the exchanges of messages by which the transfer
-- manager carries out a transfer, once it is asked for; the interleaving of handlers at an `await`, but
-- for the closing of a connection, which runs to its end, so that a method of a state object that
-- waits for the lock of its transfer is called on the state that it finds; a send to a peer that
-- fails, but for the closing of its connection that comes of it; and the components for searches,
-- shares, rooms and interests.
pub mod Base
pub mod Protocol
pub mod Transfer
pub mod User
pub mod RateLimiter
pub mod Naming
pub mod Network
pub mod Distributed
