-- ===== src/Protocol/Messages.antt =====
-- The tables of protocol/messages.py: the subclasses of each dispatching class, in the order of
-- their definition, which `__subclasses__` keeps.
pub mod Notation
pub mod Classes
pub mod ServerA
pub mod ServerB
pub mod ServerC
pub mod ServerD
pub mod ServerE
pub mod ServerF
pub mod PeerInit
pub mod Peer
pub mod Distributed
pub mod RoundTrip
pub mod Optimised
pub mod Sample
mod Tests
use aioslsk.Base.{ℕ, List, [], ◌∷◌, ◌++◌}
use aioslsk.Base.Result.{Result}
use aioslsk.Protocol.Value.{Uint, uint8, uint32, Values}
use aioslsk.Protocol.Platform.{Platform}
use aioslsk.Protocol.Message.{MessageClass, MessageKind, requests, responses, deserialize_with}
use aioslsk.Protocol.Messages.ServerA.{
  login, set_listen_port, get_peer_address, add_user, remove_user, get_user_status, ignore_user,
  unignore_user, room_chat_message, join_room, leave_room, user_joined_room, user_left_room,
  connect_to_peer, private_chat_message, private_chat_message_ack, file_search_room, file_search,
}
use aioslsk.Protocol.Messages.ServerB.{
  set_status, ping, send_connect_ticket, send_download_speed, shared_folders_files, get_user_stats,
  kicked, user_search, deprecated_get_item_recommendations, add_interest, remove_interest,
  get_recommendations, get_interests, get_global_recommendations, get_user_interests,
  execute_command, room_list, exact_file_search,
}
use aioslsk.Protocol.Messages.ServerC.{
  admin_message, get_user_list, tunneled_message, privileged_users, toggle_parent_search, parent_ip,
  unknown80, parent_min_speed, parent_speed_ratio, parent_inactivity_timeout,
  search_inactivity_timeout, min_parents_in_cache, distributed_distribute_interval,
  distributed_alive_interval, add_privileged_user, check_privileges, server_search_request,
  accept_children,
}
use aioslsk.Protocol.Messages.ServerD.{
  potential_parents, wishlist_search, wishlist_interval, get_similar_users,
  get_item_recommendations, get_item_similar_users, room_tickers, room_ticker_added,
  room_ticker_removed, set_room_ticker, add_hated_interest, remove_hated_interest, room_search,
  send_upload_speed, get_user_privileges, give_user_privileges, privileges_notification,
  privileges_notification_ack,
}
use aioslsk.Protocol.Messages.ServerE.{
  branch_level, branch_root, child_depth, reset_distributed, private_room_members,
  private_room_grant_membership, private_room_revoke_membership, private_room_drop_membership,
  private_room_drop_ownership, private_room_membership_granted, private_room_membership_revoked,
  toggle_private_room_invites, new_password, private_room_grant_operator,
  private_room_revoke_operator, private_room_operator_granted, private_room_operator_revoked,
  private_room_operators,
}
use aioslsk.Protocol.Messages.ServerF.{
  private_chat_message_users, enable_public_chat, disable_public_chat, public_chat_message,
  get_related_searches, excluded_search_phrases, cannot_connect, cannot_create_room,
}
use aioslsk.Protocol.Messages.PeerInit.{peer_pierce_firewall, peer_init}
use aioslsk.Protocol.Messages.Peer.{
  peer_shares_request, peer_shares_reply, peer_search_reply, peer_user_info_request,
  peer_user_info_reply, peer_directory_contents_request, peer_directory_contents_reply,
  peer_transfer_request, peer_transfer_reply, peer_transfer_queue, peer_place_in_queue_reply,
  peer_upload_failed, peer_transfer_queue_failed, peer_place_in_queue_request,
  peer_upload_queue_notification,
}
use aioslsk.Protocol.Messages.Distributed.{
  distributed_ping, distributed_init, distributed_search_request, distributed_branch_level,
  distributed_branch_root, distributed_child_depth, distributed_server_search_request,
}

-- `ServerMessage.__subclasses__()`.
abbrev pub server_messages : List MessageKind
server_messages =
    login ∷ set_listen_port ∷ get_peer_address ∷ add_user ∷ remove_user ∷ get_user_status
    ∷ ignore_user ∷ unignore_user ∷ room_chat_message ∷ join_room ∷ leave_room ∷ user_joined_room
    ∷ user_left_room ∷ connect_to_peer ∷ private_chat_message ∷ private_chat_message_ack
    ∷ file_search_room ∷ file_search ∷ set_status ∷ ping ∷ send_connect_ticket ∷ send_download_speed
    ∷ shared_folders_files ∷ get_user_stats ∷ kicked ∷ user_search
    ∷ deprecated_get_item_recommendations ∷ add_interest ∷ remove_interest ∷ get_recommendations
    ∷ get_interests ∷ get_global_recommendations ∷ get_user_interests ∷ execute_command ∷ room_list
    ∷ exact_file_search ∷ admin_message ∷ get_user_list ∷ tunneled_message ∷ privileged_users
    ∷ toggle_parent_search ∷ parent_ip ∷ unknown80 ∷ parent_min_speed ∷ parent_speed_ratio
    ∷ parent_inactivity_timeout ∷ search_inactivity_timeout ∷ min_parents_in_cache
    ∷ distributed_distribute_interval ∷ distributed_alive_interval ∷ add_privileged_user
    ∷ check_privileges ∷ server_search_request ∷ accept_children ∷ potential_parents
    ∷ wishlist_search ∷ wishlist_interval ∷ get_similar_users ∷ get_item_recommendations
    ∷ get_item_similar_users ∷ room_tickers ∷ room_ticker_added ∷ room_ticker_removed
    ∷ set_room_ticker ∷ add_hated_interest ∷ remove_hated_interest ∷ room_search ∷ send_upload_speed
    ∷ get_user_privileges ∷ give_user_privileges ∷ privileges_notification
    ∷ privileges_notification_ack ∷ branch_level ∷ branch_root ∷ child_depth ∷ reset_distributed
    ∷ private_room_members ∷ private_room_grant_membership ∷ private_room_revoke_membership
    ∷ private_room_drop_membership ∷ private_room_drop_ownership ∷ private_room_membership_granted
    ∷ private_room_membership_revoked ∷ toggle_private_room_invites ∷ new_password
    ∷ private_room_grant_operator ∷ private_room_revoke_operator ∷ private_room_operator_granted
    ∷ private_room_operator_revoked ∷ private_room_operators ∷ private_chat_message_users
    ∷ enable_public_chat ∷ disable_public_chat ∷ public_chat_message ∷ get_related_searches
    ∷ excluded_search_phrases ∷ cannot_connect ∷ cannot_create_room ∷ []

-- `PeerInitializationMessage.__subclasses__()`.
abbrev pub peer_init_messages : List MessageKind
peer_init_messages = peer_pierce_firewall ∷ peer_init ∷ []

-- `PeerMessage.__subclasses__()`.
abbrev pub peer_messages : List MessageKind
peer_messages =
    peer_shares_request ∷ peer_shares_reply ∷ peer_search_reply ∷ peer_user_info_request
    ∷ peer_user_info_reply ∷ peer_directory_contents_request ∷ peer_directory_contents_reply
    ∷ peer_transfer_request ∷ peer_transfer_reply ∷ peer_transfer_queue ∷ peer_place_in_queue_reply
    ∷ peer_upload_failed ∷ peer_transfer_queue_failed ∷ peer_place_in_queue_request
    ∷ peer_upload_queue_notification ∷ []

-- `DistributedMessage.__subclasses__()`.
abbrev pub distributed_messages : List MessageKind
distributed_messages =
    distributed_ping ∷ distributed_init ∷ distributed_search_request ∷ distributed_branch_level
    ∷ distributed_branch_root ∷ distributed_child_depth ∷ distributed_server_search_request ∷ []

-- The five entry points that find the class of an incoming message.
pub data Dispatcher : Type 0 where
  server_request server_response peer_init_request peer_request distributed_request : Dispatcher

-- The type of id that the entry point reads, and the classes that it goes through.
unfoldable pub header : Dispatcher → Uint
header server_request = uint32
header server_response = uint32
header peer_init_request = uint8
header peer_request = uint32
header distributed_request = uint8

unfoldable pub classes : Dispatcher → List MessageClass
unfolding requests responses
classes server_request = requests server_messages
classes server_response = responses server_messages
classes peer_init_request = requests peer_init_messages
classes peer_request = requests peer_messages
classes distributed_request = requests distributed_messages

-- `ServerMessage.deserialize_request`, `ServerMessage.deserialize_response` and so on.
unfoldable pub dispatch_message : Platform → Dispatcher → List ℕ → Result (MessageClass × Values)
unfolding header classes
dispatch_message platform d message = deserialize_with platform (header d) (classes d) message
