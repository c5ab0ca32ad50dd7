-- ===== src/Sockets/Notification.antt =====
-- NotificationSocketHub: the sockets of each user. `accepts` says of which sockets `send` does not
-- throw; a socket stands for its id, which is all that the hub looks at.
use euphoria_api.Base.{ℕ, ◌+◌, Bool, List, [], ◌∷◌, Option, none, some, Text, if◌then◌else◌}
use euphoria_api.Maps.{get, put, drop}

pub record Socket : Type 0 where
  pub id : Text

abbrev pub Sockets : Type 0
Sockets = List (Text × Socket)

abbrev pub Hub : Type 0
Hub = List (Text × Sockets)

-- `map.get(key) ?? new Map()`
abbrev pub or_new : Option Sockets → Sockets
or_new none = []
or_new (some sockets) = sockets

unfoldable pub add : Text → Socket → Hub → Hub
unfolding get put
add user socket hub = put user (put socket.id socket (or_new (get user hub))) hub

-- `if (sockets.size === 0) delete`, beside the map that was changed in place
abbrev pub kept_or_dropped : Text → Sockets → Hub → Hub
kept_or_dropped user [] hub = drop user hub
kept_or_dropped user (s ∷ sockets) hub = put user (s ∷ sockets) hub

abbrev pub remove_from : Text → Text → Hub → Option Sockets → Hub
remove_from user socket_id hub none = hub
remove_from user socket_id hub (some sockets) = kept_or_dropped user (drop socket_id sockets) hub

unfoldable pub remove : Text → Text → Hub → Hub
unfolding get put drop
remove user socket_id hub = remove_from user socket_id hub (get user hub)

-- The loop over the entries: the sockets that accept are counted, the others deleted.
unfoldable pub deliver : (accepts : Text → Bool) → Sockets → ℕ → Sockets → ℕ × Sockets
unfolding drop
deliver accepts [] sent sockets = (sent, sockets)
deliver accepts (e ∷ entries) sent sockets =
    let counted = deliver accepts entries (sent + 1) sockets in
    let deleted = deliver accepts entries sent (drop e.0 sockets) in
    if accepts e.0 then counted else deleted

abbrev pub send_to : (accepts : Text → Bool) → Text → Hub → Option Sockets → ℕ × Hub
send_to accepts user hub none = (0, hub)
send_to accepts user hub (some sockets) =
    let out = deliver accepts sockets 0 sockets in (out.0, kept_or_dropped user out.1 hub)

unfoldable pub send_to_user : (accepts : Text → Bool) → Text → Hub → ℕ × Hub
unfolding get deliver drop put
send_to_user accepts user hub = send_to accepts user hub (get user hub)
