-- ===== src/Sockets/ChatState/Runs.antt =====
-- Every sequence of calls of the chat hub, beside the sessions it is meant to keep.
use euphoria_api.Base.{
  ◌≡◌, ◌↔◌, refl, sym, ◌∙◌, ap, Bool, true, inl, inr, List, [], ◌∷◌, Option, none, some, Text,
  text_eqb, text_eqb_iff, is_set, Bool-cases, Option-cases,
}
use euphoria_api.Maps.{get}
use euphoria_api.Maps.Nested.{has, or_empty, nested, entry_of}
use euphoria_api.Sockets.Chat.{
  ChatSocket, ChatHub, new_hub, add_socket, remove_socket, subscribe, unsubscribe, send_to_profile,
  send_to_profiles, send_to_conversation_subscribers, is_profile_online,
}
use euphoria_api.Sockets.ChatState.{
  Sessions, Models, no_sessions, joined, left, followed, unfollowed, of_profile, Models-new,
  add_socket-Models,
}
use euphoria_api.Sockets.ChatState.Leaving.{remove_socket-Models}
use euphoria_api.Sockets.ChatState.Following.{subscribe-Models, unsubscribe-Models}
use euphoria_api.Sockets.ChatState.Sending.{
  without, failed, send_to_profile-Models, send_to_conversation_subscribers-Models,
}

pub data Call : Type 0 where
  adds : ChatSocket → Call
  removes : Text → Call
  subscribes unsubscribes : (socket_id conversation_id : Text) → Call
  sends_to_profile sends_to_conversation :
      (accepts : ChatSocket → Bool) (target : Text) (exclude : Option Text) → Call
  sends_to_profiles : (accepts : ChatSocket → Bool) (profile_ids : List Text) → Call

abbrev pub perform : Call → ChatHub → ChatHub
perform (adds k) hub = (add_socket k hub).1
perform (removes t) hub = (remove_socket t hub).1
perform (subscribes t d) hub = (subscribe t d hub).1
perform (unsubscribes t d) hub = unsubscribe t d hub
perform (sends_to_profile accepts p exclude) hub = (send_to_profile accepts p exclude hub).1
perform (sends_to_conversation accepts c exclude) hub =
    (send_to_conversation_subscribers accepts c exclude hub).1
perform (sends_to_profiles accepts ps) hub = (send_to_profiles accepts ps hub).1

abbrev pub told : (ChatSocket → Bool) → Text → Option Text → Sessions → Sessions
told accepts p exclude a =
    without (failed accepts exclude (λ s. is_set (of_profile p (a.sockets s))) a) a

abbrev pub told_all : (ChatSocket → Bool) → List Text → Sessions → Sessions
told_all accepts [] a = a
told_all accepts (p ∷ ps) a = told_all accepts ps (told accepts p none a)

abbrev pub intended : Call → Sessions → Sessions
intended (adds k) a = joined k a
intended (removes t) a = left t a
intended (subscribes t d) a = followed t d a
intended (unsubscribes t d) a = unfollowed t d a
intended (sends_to_profile accepts p exclude) a = told accepts p exclude a
intended (sends_to_conversation accepts c exclude) a =
    without (failed accepts exclude (λ s. a.subscribed s c) a) a
intended (sends_to_profiles accepts ps) a = told_all accepts ps a

-- A socket that is added has an id that no connected socket has.
abbrev pub Allowed : Call → Sessions → Type 0
Allowed (adds k) a = a.sockets k.id ≡ none
Allowed other a = Unit

abbrev pub AllAllowed : List Call → Sessions → Type 0
AllAllowed [] a = Unit
AllAllowed (call ∷ calls) a = Allowed call a × AllAllowed calls (intended call a)

abbrev pub perform_all : List Call → ChatHub → ChatHub
perform_all [] hub = hub
perform_all (call ∷ calls) hub = perform_all calls (perform call hub)

abbrev pub intended_all : List Call → Sessions → Sessions
intended_all [] a = a
intended_all (call ∷ calls) a = intended_all calls (intended call a)

send_to_profiles-Models :
    (accepts : ChatSocket → Bool) (ps : List Text) (a : Sessions) (hub : ChatHub)
    → Models a hub
    → Models (told_all accepts ps a) (send_to_profiles accepts ps hub).1
unfolding send_to_profiles
send_to_profiles-Models accepts [] a hub h = h
send_to_profiles-Models accepts (p ∷ ps) a hub h =
    send_to_profiles-Models accepts ps (told accepts p none a)
      (send_to_profile accepts p none hub).1 (send_to_profile-Models accepts a hub h p none)

perform-Models :
    (call : Call) (a : Sessions) (hub : ChatHub)
    → Models a hub
    → Allowed call a
    → Models (intended call a) (perform call hub)
perform-Models (adds k) a hub h new = add_socket-Models a hub k h new
perform-Models (removes t) a hub h _ = remove_socket-Models a hub t h
perform-Models (subscribes t d) a hub h _ = (subscribe-Models a hub t d h).0
perform-Models (unsubscribes t d) a hub h _ = unsubscribe-Models a hub t d h
perform-Models (sends_to_profile accepts p exclude) a hub h _ =
    send_to_profile-Models accepts a hub h p exclude
perform-Models (sends_to_conversation accepts c exclude) a hub h _ =
    (send_to_conversation_subscribers-Models accepts a hub h c exclude).1
perform-Models (sends_to_profiles accepts ps) a hub h _ = send_to_profiles-Models accepts ps a hub h

perform_all-keeps :
    (calls : List Call) (a : Sessions) (hub : ChatHub)
    → Models a hub
    → AllAllowed calls a
    → Models (intended_all calls a) (perform_all calls hub)
perform_all-keeps [] a hub h _ = h
perform_all-keeps (call ∷ calls) a hub h (new, rest) =
    perform_all-keeps calls (intended call a) (perform call hub) (perform-Models call a hub h new)
      rest

-- Whatever calls a new hub gets, as long as a socket is added under an id that is not connected, its
-- four maps stand for the intended sessions: who is connected, of which profile, and subscribed to
-- what, the same seen from the sockets and from the conversations, and no empty set is kept.
pub perform_all-Models :
    (calls : List Call)
    → AllAllowed calls no_sessions
    → Models (intended_all calls no_sessions) (perform_all calls new_hub)
perform_all-Models calls allowed = perform_all-keeps calls no_sessions new_hub Models-new allowed

of_profile-some :
    (p : Text) (o : Option ChatSocket)
    → is_set (of_profile p o) ≡ true
    → (k : ChatSocket) × (o ≡ some k) × (k.profile_id ≡ p)
of_profile-some p none q = absurd (cc q)
of_profile-some p (some k) q = elim (Bool-cases (text_eqb k.profile_id p)) [
  | inl e ↦ (k, refl, (text_eqb_iff k.profile_id p).0 e)
  | inr e ↦ absurd (cc (e, q))
]

has_entry :
    {V : Type 0} (k : Text) (m : List (Text × List (Text × V))) (j : Text)
    → is_set (nested k j m) ≡ true
    → has k m ≡ true
unfolding get
has_entry k m j q = elim (Option-cases (get k m)) [
  | inl n ↦ absurd (cc (ap (λ o. is_set (get j (or_empty o))) n, q))
  | inr (inner, n) ↦ ap is_set n
]

-- After such calls a profile is online exactly when a connected socket belongs to it.
pub is_profile_online_iff :
    (calls : List Call) (p : Text)
    → AllAllowed calls no_sessions
    → let hub = perform_all calls new_hub in
      (is_profile_online p hub ≡ true)
      ↔ ((s : Text) × (k : ChatSocket) × (get s hub.sockets_by_id ≡ some k) × (k.profile_id ≡ p))
unfolding is_profile_online
is_profile_online_iff calls p allowed =
    let h = perform_all-Models calls allowed in
    let hub = perform_all calls new_hub in
    let a = intended_all calls no_sessions in
    (
      λ q.
          let (s, entry) = entry_of p hub.sockets_by_profile_id h.profiles_inhabited q in
          let (k, e, same) =
            of_profile-some p (a.sockets s) (sym (ap is_set (h.by_profile p s)) ∙ entry) in
          (s, k, h.by_id s ∙ e, same),
      λ (s, k, e, same).
          let belongs : is_set (of_profile p (some k)) ≡ true =
            rw ((text_eqb_iff k.profile_id p).1 same) refl in
          has_entry p hub.sockets_by_profile_id s
            (ap is_set (h.by_profile p s ∙ ap (of_profile p) (sym (h.by_id s) ∙ e)) ∙ belongs),
    )
