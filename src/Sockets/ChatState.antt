-- ===== src/Sockets/ChatState.antt =====
-- What the four maps of the chat hub stand for: the sockets that are connected, and the
-- conversations that each is subscribed to.
pub mod Leaving
pub mod Following
pub mod Sending
pub mod Runs
use euphoria_api.Base.{
  ◌≡◌, refl, sym, ◌∙◌, ap, Bool, true, false, ◌&&◌, ◌||◌, inl, inr, List, [], ◌∷◌, Option, none,
  some, Text, text_eqb, text_eqb_iff, text_eqb_sym, is_set, Bool-cases, Option-cases, if◌then◌else◌,
  arith, any, ◌↔◌,
}
use euphoria_api.Maps.{get, put, drop, get-put, get-drop}
use euphoria_api.Maps.Nested.{
  TextSet, has, or_empty, nested, put_in, drop_in, Inhabited, nested-put_in, nested-drop_in,
  Inhabited-put_in, Inhabited-drop_in, entry_of,
}
use euphoria_api.Sockets.Chat.{
  ChatSocket, ChatHub, add_socket, forget, remove_known, remove_socket, subscribe_known, subscribe,
  unsubscribe, is_profile_online, is_socket_subscribed, new_hub,
}

pub record Sessions : Type 0 where
  pub sockets : Text → Option ChatSocket
  pub subscribed : Text → Text → Bool

abbrev pub no_sessions : Sessions
no_sessions = record { sockets = λ s. none; subscribed = λ s c. false }

-- The socket, where it belongs to the profile.
abbrev pub of_profile : Text → Option ChatSocket → Option ChatSocket
of_profile p none = none
of_profile p (some k) = if text_eqb k.profile_id p then some k else none

-- Every map agrees with the sessions, none keeps an empty set, and only connected sockets are
-- subscribed.
pub record Models (a : Sessions) (hub : ChatHub) : Type 0 where
  pub by_id : (s : Text) → get s hub.sockets_by_id ≡ a.sockets s
  pub by_profile : (p s : Text) → nested p s hub.sockets_by_profile_id ≡ of_profile p (a.sockets s)
  pub by_socket :
      (s c : Text) → is_set (nested s c hub.subscriptions_by_socket_id) ≡ a.subscribed s c
  pub by_conversation :
      (s c : Text) → is_set (nested c s hub.conversation_subscriptions) ≡ a.subscribed s c
  pub connected : (s c : Text) → a.subscribed s c ≡ true → is_set (a.sockets s) ≡ true
  pub profiles_inhabited : Inhabited hub.sockets_by_profile_id
  pub conversations_inhabited : Inhabited hub.conversation_subscriptions
  pub subscriptions_inhabited : Inhabited hub.subscriptions_by_socket_id

abbrev pub joined : ChatSocket → Sessions → Sessions
joined k a = record a { sockets = λ s. if text_eqb k.id s then some k else a.sockets s }

abbrev pub left : Text → Sessions → Sessions
left t a = record {
  sockets = λ s. if text_eqb t s then none else a.sockets s;
  subscribed = λ s c. if text_eqb t s then false else a.subscribed s c;
}

abbrev pub followed : Text → Text → Sessions → Sessions
followed t d a = record a {
  subscribed =
      λ s c. if text_eqb t s && text_eqb d c then is_set (a.sockets t) else a.subscribed s c;
}

abbrev pub unfollowed : Text → Text → Sessions → Sessions
unfollowed t d a = record a {
  subscribed = λ s c. if text_eqb t s && text_eqb d c then false else a.subscribed s c;
}

Models-new : Models no_sessions new_hub
unfolding get
Models-new = record {
  by_id = λ s. refl;
  by_profile = λ p s. refl;
  by_socket = λ s c. refl;
  by_conversation = λ s c. refl;
  connected = λ s c h. absurd (cc h);
  profiles_inhabited = λ k. refl;
  conversations_inhabited = λ k. refl;
  subscriptions_inhabited = λ k. refl;
}

-- A socket with a new id joins.
pub add_socket-Models :
    (a : Sessions) (hub : ChatHub) (k : ChatSocket)
    → Models a hub
    → a.sockets k.id ≡ none
    → Models (joined k a) (add_socket k hub).1
unfolding add_socket
add_socket-Models a hub k h new = record {
  by_id = λ s.
      get-put k.id k hub.sockets_by_id s
      ∙ ap (λ o. if text_eqb k.id s then some k else o) (h.by_id s);
  by_profile =
      λ p s. nested-put_in k.profile_id k.id k hub.sockets_by_profile_id p s ∙ profile_lem p s;
  by_socket = h.by_socket;
  by_conversation = h.by_conversation;
  connected = λ s c q. connected_lem s (h.connected s c q);
  profiles_inhabited =
      Inhabited-put_in k.profile_id k.id k hub.sockets_by_profile_id h.profiles_inhabited;
  conversations_inhabited = h.conversations_inhabited;
  subscriptions_inhabited = h.subscriptions_inhabited;
}
  where
    profile_lem :
        (p s : Text)
        → (if text_eqb k.profile_id p && text_eqb k.id s
            then some k
            else nested p s hub.sockets_by_profile_id)
          ≡ of_profile p (if text_eqb k.id s then some k else a.sockets s)
    profile_lem p s = elim (Bool-cases (text_eqb k.id s)) [
      | inl q ↦
          let none_here : nested p s hub.sockets_by_profile_id ≡ none =
            h.by_profile p s
            ∙ ap (of_profile p) (ap a.sockets (sym ((text_eqb_iff k.id s).0 q)) ∙ new) in
          rw (q, none_here) (ground arith)
      | inr q ↦ rw (q, h.by_profile p s) (ground arith)
    ]

    connected_lem :
        (s : Text)
        → is_set (a.sockets s) ≡ true
        → is_set (if text_eqb k.id s then some k else a.sockets s) ≡ true
    connected_lem s q = ground arith
