-- ===== src/Sockets/ChatState/Leaving.antt =====
-- The removal of a chat socket.
use euphoria_api.Base.{
  ◌≡◌, refl, sym, ◌∙◌, ap, true, false, ◌&&◌, inl, inr, List, [], ◌∷◌, none, some, Text, text_eqb,
  text_eqb_iff, is_set, Bool-cases, Option-cases, if◌then◌else◌, arith, any,
}
use euphoria_api.Maps.{get, drop, get-drop}
use euphoria_api.Maps.Nested.{
  TextSet, has, or_empty, nested, drop_in, Inhabited, nested-drop_in, Inhabited-drop_in,
}
use euphoria_api.Sockets.Chat.{ChatSocket, ChatHub, forget, remove_known, remove_socket}
use euphoria_api.Sockets.ChatState.{Sessions, Models, left, of_profile}

-- A listed key is a key of the map.
pub any-has :
    {V : Type 0} (c : Text) (entries : List (Text × V))
    → any (λ e. text_eqb e.0 c) entries ≡ has c entries
unfolding get
any-has c [] = refl
any-has c (e ∷ entries) = elim (Bool-cases (text_eqb e.0 c)) [
  | inl q ↦ rw q refl
  | inr q ↦ rw q (any-has c entries)
]

-- The loop deletes the socket from the conversations that are listed, and from no other.
forget-nested :
    (t : Text) (entries : TextSet) (m : List (Text × TextSet)) (c s : Text)
    → is_set (nested c s (forget t entries m))
      ≡ (if text_eqb t s && any (λ e. text_eqb e.0 c) entries then false else is_set (nested c s m))
unfolding forget
forget-nested t [] m c s = ground arith
forget-nested t (e ∷ entries) m c s =
    forget-nested t entries (drop_in e.0 t m) c s ∙ rw (nested-drop_in e.0 t m c s) (ground arith)

forget-Inhabited :
    (t : Text) (entries : TextSet) (m : List (Text × TextSet))
    → Inhabited m
    → Inhabited (forget t entries m)
unfolding forget
forget-Inhabited t [] m h = h
forget-Inhabited t (e ∷ entries) m h =
    forget-Inhabited t entries (drop_in e.0 t m) (Inhabited-drop_in e.0 t m h)

module _ (a : Sessions) (hub : ChatHub) (t : Text) (h : Models a hub) where
  unsubscribed : (c : Text) → a.sockets t ≡ none → a.subscribed t c ≡ false
  unsubscribed c n = elim (Bool-cases (a.subscribed t c)) [
    | inl q ↦ absurd (cc (h.connected t c q, ap is_set n))
    | inr q ↦ q
  ]

  left_unknown : a.sockets t ≡ none → Models (left t a) hub
  left_unknown n = record {
    profiles_inhabited = h.profiles_inhabited;
    conversations_inhabited = h.conversations_inhabited;
    subscriptions_inhabited = h.subscriptions_inhabited;
    by_id = λ s. h.by_id s ∙ sym (same s);
    by_profile = λ p s. h.by_profile p s ∙ ap (of_profile p) (sym (same s));
    by_socket = λ s c. h.by_socket s c ∙ sym (same_topics s c);
    by_conversation = λ s c. h.by_conversation s c ∙ sym (same_topics s c);
    connected = λ s c q. ap is_set (same s) ∙ h.connected s c (sym (same_topics s c) ∙ q);
  }
    where
      same : (s : Text) → (if text_eqb t s then none else a.sockets s) ≡ a.sockets s
      same s = elim (Bool-cases (text_eqb t s)) [
        | inl q ↦ rw q (sym n ∙ ap a.sockets ((text_eqb_iff t s).0 q))
        | inr q ↦ rw q refl
      ]

      same_topics :
          (s c : Text) → (if text_eqb t s then false else a.subscribed s c) ≡ a.subscribed s c
      same_topics s c = elim (Bool-cases (text_eqb t s)) [
        | inl q ↦
            rw q (sym (unsubscribed c n) ∙ ap (λ x. a.subscribed x c) ((text_eqb_iff t s).0 q))
        | inr q ↦ rw q refl
      ]

  module _ (k : ChatSocket) (known : a.sockets t ≡ some k) where
    profile_without :
        (p s : Text)
        → (if text_eqb k.profile_id p && text_eqb t s
            then none
            else nested p s hub.sockets_by_profile_id)
          ≡ of_profile p (if text_eqb t s then none else a.sockets s)
    profile_without p s = elim (Bool-cases (text_eqb t s)) [
      | inl q ↦
          let here : nested p s hub.sockets_by_profile_id ≡ of_profile p (some k) =
            h.by_profile p s
            ∙ ap (of_profile p) (ap a.sockets (sym ((text_eqb_iff t s).0 q)) ∙ known) in
          rw (q, here) (ground arith)
      | inr q ↦ rw (q, h.by_profile p s) (ground arith)
    ]

    topics_without :
        (s c : Text)
        → is_set (nested s c (drop t hub.subscriptions_by_socket_id))
          ≡ (if text_eqb t s then false else a.subscribed s c)
    unfolding get
    topics_without s c =
        ap (λ o. is_set (get c (or_empty o))) (get-drop t hub.subscriptions_by_socket_id s)
        ∙ elim (Bool-cases (text_eqb t s)) [ inl q ↦ rw q refl | inr q ↦ rw q (h.by_socket s c) ]

    subscribers_without :
        (s c : Text)
        → is_set (
            nested c s (
              forget t
                (or_empty (get t hub.subscriptions_by_socket_id))
                hub.conversation_subscriptions))
          ≡ (if text_eqb t s then false else a.subscribed s c)
    subscribers_without s c =
        let entries = or_empty (get t hub.subscriptions_by_socket_id) in
        forget-nested t entries hub.conversation_subscriptions c s
        ∙ rw (any-has c entries, h.by_socket t c, h.by_conversation s c)
            (elim (Bool-cases (text_eqb t s)) [
              | inl q ↦
                  let same : a.subscribed s c ≡ a.subscribed t c =
                    ap (λ x. a.subscribed x c) (sym ((text_eqb_iff t s).0 q)) in
                  rw (q, same) (ground arith)
              | inr q ↦ rw q refl
            ])

    subscriptions-Inhabited_without : Inhabited (drop t hub.subscriptions_by_socket_id)
    subscriptions-Inhabited_without l =
        rw (get-drop t hub.subscriptions_by_socket_id l) (elim (Bool-cases (text_eqb t l)) [
          | inl q ↦ rw q refl
          | inr q ↦ rw q (h.subscriptions_inhabited l)
        ])

    left_known : Models (left t a) (remove_known t hub (some k)).1
    left_known = record {
      by_id = λ s.
          get-drop t hub.sockets_by_id s ∙ ap (λ o. if text_eqb t s then none else o) (h.by_id s);
      by_profile =
          λ p s. nested-drop_in k.profile_id t hub.sockets_by_profile_id p s ∙ profile_without p s;
      by_socket = topics_without;
      by_conversation = subscribers_without;
      connected = λ s c q. still s c (h.connected s c) q;
      profiles_inhabited =
          Inhabited-drop_in k.profile_id t hub.sockets_by_profile_id h.profiles_inhabited;
      conversations_inhabited =
          forget-Inhabited t (or_empty (get t hub.subscriptions_by_socket_id))
            hub.conversation_subscriptions h.conversations_inhabited;
      subscriptions_inhabited = subscriptions-Inhabited_without;
    }
      where
        still :
            (s c : Text)
            → (a.subscribed s c ≡ true → is_set (a.sockets s) ≡ true)
            → (if text_eqb t s then false else a.subscribed s c) ≡ true
            → is_set (if text_eqb t s then none else a.sockets s) ≡ true
        still s c keeps q = ground arith

-- The socket leaves, whether or not it was there.
pub remove_socket-Models :
    (a : Sessions) (hub : ChatHub) (t : Text)
    → Models a hub
    → Models (left t a) (remove_socket t hub).1
unfolding remove_socket
remove_socket-Models a hub t h = elim (Option-cases (get t hub.sockets_by_id)) [
  | inl n ↦ rw n (left_unknown a hub t h (sym (h.by_id t) ∙ n))
  | inr (k, n) ↦ rw n (left_known a hub t h k (sym (h.by_id t) ∙ n))
]
