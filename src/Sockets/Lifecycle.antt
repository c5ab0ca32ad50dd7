-- ===== src/Sockets/Lifecycle.antt =====
-- Every sequence of connections, disconnections and events, from an empty hub.
use euphoria_api.Base.{
  ◌≡◌, refl, Bool, true, false, inl, inr, [], ◌∷◌, Text, All, Option-cases, arith,
}
use euphoria_api.Maps.{get, put, drop, All-put, All-drop}
use euphoria_api.Sockets.Notification.{
  Socket, Sockets, Hub, or_new, add, remove, kept_or_dropped, deliver, send_to_user,
}

abbrev is_no_socket : Sockets → Bool
is_no_socket [] = true
is_no_socket (s ∷ sockets) = false

-- No user stands in the hub without a socket.
abbrev pub Connected : Hub → Type 0
Connected hub = All (λ e. is_no_socket e.1 ≡ false) hub

pub data HubStep (hub : Hub) : Hub → Type 0 where
  adds : (user : Text) (socket : Socket) → HubStep hub (add user socket hub)
  removes : (user socket_id : Text) → HubStep hub (remove user socket_id hub)
  sends : (accepts : Text → Bool) (user : Text) → HubStep hub (send_to_user accepts user hub).1

pub data HubReach : Hub → Type 0 where
  no_hub : HubReach []
  after : {hub next : Hub} → HubReach hub → HubStep hub next → HubReach next

put_some :
    (id : Text) (socket : Socket) (sockets : Sockets) → is_no_socket (put id socket sockets) ≡ false
unfolding put
put_some id socket [] = refl
put_some id socket (e ∷ sockets) = ground arith

kept_or_dropped-Connected :
    (user : Text) (sockets : Sockets) (hub : Hub)
    → Connected hub
    → Connected (kept_or_dropped user sockets hub)
kept_or_dropped-Connected user [] hub h = All-drop _ user hub h
kept_or_dropped-Connected user (s ∷ sockets) hub h = All-put _ user (s ∷ sockets) hub (λ l. refl) h

HubStep-Connected : (hub next : Hub) → Connected hub → HubStep hub next → Connected next
unfolding add remove send_to_user
HubStep-Connected hub _ h (adds user socket) =
    All-put (λ e. is_no_socket e.1 ≡ false) user (put socket.id socket (or_new (get user hub))) hub
      (λ l. put_some socket.id socket (or_new (get user hub))) h
HubStep-Connected hub _ h (removes user socket_id) = elim (Option-cases (get user hub)) [
  | inl n ↦ rw n h
  | inr (sockets, e) ↦ rw e (kept_or_dropped-Connected user (drop socket_id sockets) hub h)
]
HubStep-Connected hub _ h (sends accepts user) = elim (Option-cases (get user hub)) [
  | inl n ↦ rw n h
  | inr (sockets, e) ↦
      rw e (kept_or_dropped-Connected user (deliver accepts sockets 0 sockets).1 hub h)
]

-- Whatever has been added, removed and sent from an empty hub, each user that the hub lists has a
-- socket: an entry goes with its last socket.
pub HubReach-Connected : (hub : Hub) → HubReach hub → Connected hub
HubReach-Connected _ no_hub = tt
HubReach-Connected next (after {hub} reached step) =
    HubStep-Connected hub next (HubReach-Connected hub reached) step
