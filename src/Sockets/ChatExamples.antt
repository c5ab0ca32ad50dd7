-- ===== src/Sockets/ChatExamples.antt =====
-- Two chat sockets in a conversation, one of which fails.
use euphoria_api.Base.{
  ◌≡◌, ◌↔◌, refl, Bool, true, false, not, ◌&&◌, List, [], ◌∷◌, none, some, Text, text, text_eq,
  text_eqb, length, holds,
}
use euphoria_api.Sql.{select}
use euphoria_api.Maps.{get}
use euphoria_api.Maps.Nested.{or_empty}
use euphoria_api.Sockets.Chat.{
  ChatSocket, ChatHub, add_socket, subscribe, new_hub, is_socket_subscribed, is_profile_online,
  send_to_conversation_subscribers, active_user_ids_for_subscribers,
}
use euphoria_api.Sockets.ChatState.{Models, Sessions, no_sessions}
use euphoria_api.Sockets.ChatState.Sending.{
  without, failed, takes, send_to_conversation_subscribers-Models,
}
use euphoria_api.Sockets.ChatState.Runs.{
  Call, adds, subscribes, sends_to_conversation, perform_all, intended_all, AllAllowed,
  perform_all-Models, is_profile_online_iff,
}

abbrev mine : ChatSocket
mine = record { id = text "s1"; user_id = text "u1"; profile_id = text "p1" }

abbrev theirs : ChatSocket
theirs = record { id = text "s2"; user_id = text "u2"; profile_id = text "p2" }

abbrev accepts : ChatSocket → Bool
accepts socket = text_eqb socket.id (text "s1")

abbrev calls : List Call
calls =
    adds mine
    ∷ adds theirs
    ∷ subscribes (text "s1") (text "c")
    ∷ subscribes (text "s2") (text "c")
    ∷ []

abbrev calls_and_sending : List Call
calls_and_sending = adds mine ∷ adds theirs ∷ sends_to_conversation accepts (text "c") none ∷ []

abbrev sessions : Sessions
sessions = intended_all calls no_sessions

abbrev hub : ChatHub
hub = perform_all calls new_hub

allowed : AllAllowed calls no_sessions
unfolding text_eqb
allowed = (refl, (refl, (tt, (tt, tt))))

allowed_too : AllAllowed calls_and_sending no_sessions
unfolding text_eqb
allowed_too = (refl, (refl, (tt, tt)))

perform_all-Models_example :
    Models (intended_all calls_and_sending no_sessions) (perform_all calls_and_sending new_hub)
perform_all-Models_example = perform_all-Models calls_and_sending allowed_too

hub-Models : Models sessions hub
hub-Models = perform_all-Models calls allowed

send_to_conversation_subscribers-Models_example :
    let out = send_to_conversation_subscribers accepts (text "c") none hub in
    (out.0
      ≡ length (
          select
            (λ e. not (holds none e.0) && takes accepts (sessions.sockets e.0))
            (or_empty (get (text "c") hub.conversation_subscriptions))))
    × Models
        (without (failed accepts none (λ s. sessions.subscribed s (text "c")) sessions) sessions)
        out.1
send_to_conversation_subscribers-Models_example =
    send_to_conversation_subscribers-Models accepts sessions hub hub-Models (text "c") none

is_profile_online_iff_example : (is_profile_online (text "p2") hub ≡ true) ↔ (
    (s : Text) × (k : ChatSocket) × (get s hub.sockets_by_id ≡ some k) × (k.profile_id ≡ text "p2"))
is_profile_online_iff_example = is_profile_online_iff calls (text "p2") allowed

-- The send to one subscriber goes through; the other is removed and its profile goes offline.
sending_runs :
    let out = send_to_conversation_subscribers accepts (text "c") none hub in
    (out.0 ≡ 1)
    × (is_profile_online (text "p1") out.1 ≡ true)
    × (is_profile_online (text "p2") out.1 ≡ false)
    × (is_socket_subscribed (text "s2") (text "c") out.1 ≡ false)
unfolding add_socket subscribe send_to_conversation_subscribers is_profile_online
    is_socket_subscribed text_eqb
sending_runs = (refl, refl, refl, refl)

both_active :
    active_user_ids_for_subscribers (text "c") hub ≡ (text "u1", tt) ∷ (text "u2", tt) ∷ []
unfolding add_socket subscribe active_user_ids_for_subscribers text_eqb
both_active = refl
