-- ===== src/Sockets/Chat.antt =====
-- ChatSocketHub: the chat sockets by id and by profile, and who is subscribed to which
-- conversation. `accepts` says of which sockets `send` does not throw for the event at hand.
use euphoria_api.Base.{
  ℕ, ◌+◌, Bool, true, false, List, [], ◌∷◌, ◌++◌, Option, none, some, Text, text_eq, holds, is_null,
  if◌then◌else◌,
}
use euphoria_api.Maps.{get, put, drop}
use euphoria_api.Maps.Nested.{TextSet, has, or_empty, put_in, drop_in}

pub record ChatSocket : Type 0 where
  pub id : Text
  pub user_id : Text
  pub profile_id : Text

pub record ChatHub : Type 0 where
  pub sockets_by_id : List (Text × ChatSocket)
  pub sockets_by_profile_id : List (Text × List (Text × ChatSocket))
  pub conversation_subscriptions : List (Text × TextSet)
  pub subscriptions_by_socket_id : List (Text × TextSet)

abbrev pub new_hub : ChatHub
new_hub = record {
  sockets_by_id = [];
  sockets_by_profile_id = [];
  conversation_subscriptions = [];
  subscriptions_by_socket_id = [];
}

-- The hub with the socket, and whether it is the first of its profile.
abbrev no_entry : List (Text × ChatSocket) → Bool
no_entry [] = true
no_entry (e ∷ entries) = false

unfoldable pub add_socket : ChatSocket → ChatHub → Bool × ChatHub
unfolding put put_in get
add_socket socket hub = (
  no_entry (or_empty (get socket.profile_id hub.sockets_by_profile_id)),
  record hub {
    sockets_by_id = put socket.id socket hub.sockets_by_id;
    sockets_by_profile_id = put_in socket.profile_id socket.id socket hub.sockets_by_profile_id;
  },
)

-- The loop over the conversations of the removed socket.
unfoldable pub forget : Text → TextSet → List (Text × TextSet) → List (Text × TextSet)
unfolding drop_in
forget socket_id [] subscriptions = subscriptions
forget socket_id (e ∷ entries) subscriptions =
    forget socket_id entries (drop_in e.0 socket_id subscriptions)

abbrev pub remove_known : Text → ChatHub → Option ChatSocket → Option (Text × Bool) × ChatHub
remove_known socket_id hub none = (none, hub)
remove_known socket_id hub (some socket) =
    let by_profile = drop_in socket.profile_id socket_id hub.sockets_by_profile_id in
    (
      some (socket.profile_id, is_null (get socket.profile_id by_profile)),
      record hub {
        sockets_by_id = drop socket_id hub.sockets_by_id;
        sockets_by_profile_id = by_profile;
        conversation_subscriptions =
            forget socket_id (or_empty (get socket_id hub.subscriptions_by_socket_id))
              hub.conversation_subscriptions;
        subscriptions_by_socket_id = drop socket_id hub.subscriptions_by_socket_id;
      },
    )

-- The profile of the socket and whether it was the profile's last, where it is known.
unfoldable pub remove_socket : Text → ChatHub → Option (Text × Bool) × ChatHub
unfolding get drop drop_in forget
remove_socket socket_id hub = remove_known socket_id hub (get socket_id hub.sockets_by_id)

abbrev pub subscribe_known : Text → Text → ChatHub → Option ChatSocket → Bool × ChatHub
subscribe_known socket_id conversation_id hub none = (false, hub)
subscribe_known socket_id conversation_id hub (some socket) = (
  true,
  record hub {
    subscriptions_by_socket_id = put_in socket_id conversation_id tt hub.subscriptions_by_socket_id;
    conversation_subscriptions = put_in conversation_id socket_id tt hub.conversation_subscriptions;
  },
)

unfoldable pub subscribe : Text → Text → ChatHub → Bool × ChatHub
unfolding get put_in
subscribe socket_id conversation_id hub =
    subscribe_known socket_id conversation_id hub (get socket_id hub.sockets_by_id)

unfoldable pub unsubscribe : Text → Text → ChatHub → ChatHub
unfolding drop_in
unsubscribe socket_id conversation_id hub = record hub {
  subscriptions_by_socket_id = drop_in socket_id conversation_id hub.subscriptions_by_socket_id;
  conversation_subscriptions = drop_in conversation_id socket_id hub.conversation_subscriptions;
}

unfoldable pub is_socket_subscribed : Text → Text → ChatHub → Bool
unfolding get
is_socket_subscribed socket_id conversation_id hub =
    has conversation_id (or_empty (get socket_id hub.subscriptions_by_socket_id))

unfoldable pub is_profile_online : Text → ChatHub → Bool
unfolding get
is_profile_online profile_id hub = has profile_id hub.sockets_by_profile_id

-- `new Set(Array.from(…).map(({ userId }) => userId))`
unfoldable pub user_ids : List (Text × ChatSocket) → TextSet → TextSet
unfolding put
user_ids [] users = users
user_ids (e ∷ entries) users = user_ids entries (put e.1.user_id tt users)

unfoldable pub active_user_ids_for_profile : Text → ChatHub → TextSet
unfolding get user_ids
active_user_ids_for_profile profile_id hub =
    user_ids (or_empty (get profile_id hub.sockets_by_profile_id)) []

abbrev pub with_user : Option ChatSocket → TextSet → TextSet
with_user none users = users
with_user (some socket) users = put socket.user_id tt users

unfoldable pub subscriber_ids : List (Text × ChatSocket) → TextSet → TextSet → TextSet
unfolding get put
subscriber_ids sockets [] users = users
subscriber_ids sockets (e ∷ entries) users =
    subscriber_ids sockets entries (with_user (get e.0 sockets) users)

unfoldable pub active_user_ids_for_subscribers : Text → ChatHub → TextSet
unfolding get subscriber_ids
active_user_ids_for_subscribers conversation_id hub =
    subscriber_ids hub.sockets_by_id (or_empty (get conversation_id hub.conversation_subscriptions))
      []

abbrev pub Sends : Type 0
Sends = ℕ × List Text

abbrev pub sent_or_stale : (ChatSocket → Bool) → Sends → Sends → Option ChatSocket → Sends
sent_or_stale accepts counted failed none = failed
sent_or_stale accepts counted failed (some socket) = if accepts socket then counted else failed

-- The loop that sends: how many sends went through, and the ids that are to be removed.
unfoldable pub send_each :
    {V : Type 0} (accepts : ChatSocket → Bool) (exclude : Option Text)
    → List (Text × ChatSocket)
    → List (Text × V)
    → ℕ
    → List Text
    → Sends
unfolding get
send_each accepts exclude sockets [] sent stale = (sent, stale)
send_each accepts exclude sockets (e ∷ entries) sent stale =
    let skipped = send_each accepts exclude sockets entries sent stale in
    let counted = send_each accepts exclude sockets entries (sent + 1) stale in
    let failed = send_each accepts exclude sockets entries sent (stale ++ e.0 ∷ []) in
    if holds exclude e.0 then skipped else sent_or_stale accepts counted failed (get e.0 sockets)

unfoldable pub remove_each : List Text → ChatHub → ChatHub
unfolding remove_socket
remove_each [] hub = hub
remove_each (socket_id ∷ stale) hub = remove_each stale (remove_socket socket_id hub).1

unfoldable pub send_to_sockets :
    {V : Type 0} (accepts : ChatSocket → Bool)
    → List (Text × V)
    → Option Text
    → ChatHub
    → ℕ × ChatHub
unfolding send_each remove_each
send_to_sockets accepts entries exclude hub =
    let sends = send_each accepts exclude hub.sockets_by_id entries 0 [] in
    (sends.0, remove_each sends.1 hub)

unfoldable pub send_to_profile :
    (accepts : ChatSocket → Bool) → Text → Option Text → ChatHub → ℕ × ChatHub
unfolding get send_to_sockets
send_to_profile accepts profile_id exclude hub =
    send_to_sockets accepts (or_empty (get profile_id hub.sockets_by_profile_id)) exclude hub

unfoldable pub send_to_profiles : (accepts : ChatSocket → Bool) → List Text → ChatHub → ℕ × ChatHub
unfolding send_to_profile
send_to_profiles accepts [] hub = (0, hub)
send_to_profiles accepts (profile_id ∷ profile_ids) hub =
    let first = send_to_profile accepts profile_id none hub in
    let rest = send_to_profiles accepts profile_ids first.1 in (first.0 + rest.0, rest.1)

unfoldable pub send_to_conversation_subscribers :
    (accepts : ChatSocket → Bool) → Text → Option Text → ChatHub → ℕ × ChatHub
unfolding get send_to_sockets
send_to_conversation_subscribers accepts conversation_id exclude hub =
    send_to_sockets accepts (or_empty (get conversation_id hub.conversation_subscriptions)) exclude
      hub
