-- ===== src/Sockets/ChatState/Following.antt =====
-- Subscriptions of a chat socket, and which profiles are online.
use euphoria_api.Base.{
  ◌≡◌, refl, sym, ◌∙◌, ap, Bool, true, false, ◌&&◌, inl, inr, Option, none, some, Text, text_eqb,
  text_eqb_iff, is_set, Bool-cases, Option-cases, if◌then◌else◌, arith,
}
use euphoria_api.Maps.{get}
use euphoria_api.Maps.Nested.{nested-put_in, nested-drop_in, Inhabited-put_in, Inhabited-drop_in}
use euphoria_api.Sockets.Chat.{ChatSocket, ChatHub, subscribe_known, subscribe, unsubscribe}
use euphoria_api.Sockets.ChatState.{Sessions, Models, followed, unfollowed}

module _ (a : Sessions) (hub : ChatHub) (t d : Text) (h : Models a hub) where
  followed_known :
      (k : ChatSocket)
      → a.sockets t ≡ some k
      → Models (followed t d a) (subscribe_known t d hub (some k)).1
  followed_known k n = record {
    by_id = h.by_id;
    by_profile = h.by_profile;
    by_socket = λ s c.
        ap is_set (nested-put_in t d tt hub.subscriptions_by_socket_id s c)
        ∙ pick (text_eqb t s) (text_eqb d c) _ (h.by_socket s c);
    by_conversation = λ s c.
        ap is_set (nested-put_in d t tt hub.conversation_subscriptions c s)
        ∙ pick_swapped (text_eqb d c) (text_eqb t s) _ (h.by_conversation s c);
    connected = λ s c q. still s c q;
    profiles_inhabited = h.profiles_inhabited;
    conversations_inhabited =
        Inhabited-put_in d t tt hub.conversation_subscriptions h.conversations_inhabited;
    subscriptions_inhabited =
        Inhabited-put_in t d tt hub.subscriptions_by_socket_id h.subscriptions_inhabited;
  }
    where
      there : is_set (a.sockets t) ≡ true
      there = ap is_set n

      pick :
          (p q : Bool) (o : Option (Unit {0})) {b : Bool}
          → is_set o ≡ b
          → is_set (if p && q then some tt else o) ≡ (if p && q then is_set (a.sockets t) else b)
      pick p q o e = rw there (ground arith)

      pick_swapped :
          (q p : Bool) (o : Option (Unit {0})) {b : Bool}
          → is_set o ≡ b
          → is_set (if q && p then some tt else o) ≡ (if p && q then is_set (a.sockets t) else b)
      pick_swapped q p o e = rw there (ground arith)

      still :
          (s c : Text)
          → (if text_eqb t s && text_eqb d c then is_set (a.sockets t) else a.subscribed s c) ≡ true
          → is_set (a.sockets s) ≡ true
      still s c q = elim (Bool-cases (text_eqb t s)) [
        | inl e ↦ ap (λ x. is_set (a.sockets x)) (sym ((text_eqb_iff t s).0 e)) ∙ there
        | inr e ↦ h.connected s c (rw e at q)
      ]

  followed_unknown : a.sockets t ≡ none → Models (followed t d a) hub
  followed_unknown n = record {
    by_id = h.by_id;
    by_profile = h.by_profile;
    profiles_inhabited = h.profiles_inhabited;
    conversations_inhabited = h.conversations_inhabited;
    subscriptions_inhabited = h.subscriptions_inhabited;
    by_socket = λ s c. h.by_socket s c ∙ sym (same s c);
    by_conversation = λ s c. h.by_conversation s c ∙ sym (same s c);
    connected = λ s c q. h.connected s c (sym (same s c) ∙ q);
  }
    where
      same :
          (s c : Text)
          → (if text_eqb t s && text_eqb d c then is_set (a.sockets t) else a.subscribed s c)
            ≡ a.subscribed s c
      same s c = elim (Bool-cases (text_eqb t s)) [
        | inl q ↦
            let gone : a.sockets s ≡ none = ap a.sockets (sym ((text_eqb_iff t s).0 q)) ∙ n in
            elim (Bool-cases (a.subscribed s c)) [
              | inl on ↦ absurd (cc (h.connected s c on, ap is_set gone))
              | inr off ↦ rw (n, off) (ground arith)
            ]
        | inr q ↦ rw q refl
      ]

  pub unsubscribe-Models : Models (unfollowed t d a) (unsubscribe t d hub)
  unfolding unsubscribe
  unsubscribe-Models = record {
    by_id = h.by_id;
    by_profile = h.by_profile;
    by_socket = λ s c.
        ap is_set (nested-drop_in t d hub.subscriptions_by_socket_id s c)
        ∙ pick (text_eqb t s) (text_eqb d c) _ (h.by_socket s c);
    by_conversation = λ s c.
        ap is_set (nested-drop_in d t hub.conversation_subscriptions c s)
        ∙ pick_swapped (text_eqb d c) (text_eqb t s) _ (h.by_conversation s c);
    connected = λ s c q. still (text_eqb t s && text_eqb d c) s c (h.connected s c) q;
    profiles_inhabited = h.profiles_inhabited;
    conversations_inhabited =
        Inhabited-drop_in d t hub.conversation_subscriptions h.conversations_inhabited;
    subscriptions_inhabited =
        Inhabited-drop_in t d hub.subscriptions_by_socket_id h.subscriptions_inhabited;
  }
    where
      pick :
          (p q : Bool) (o : Option (Unit {0})) {b : Bool}
          → is_set o ≡ b
          → is_set (if p && q then none else o) ≡ (if p && q then false else b)
      pick p q o e = ground arith

      pick_swapped :
          (q p : Bool) (o : Option (Unit {0})) {b : Bool}
          → is_set o ≡ b
          → is_set (if q && p then none else o) ≡ (if p && q then false else b)
      pick_swapped q p o e = ground arith

      still :
          (p : Bool) (s c : Text)
          → (a.subscribed s c ≡ true → is_set (a.sockets s) ≡ true)
          → (if p then false else a.subscribed s c) ≡ true
          → is_set (a.sockets s) ≡ true
      still p s c keeps q = ground arith

-- A subscription stands where the socket is connected, and the answer says whether it is.
pub subscribe-Models :
    (a : Sessions) (hub : ChatHub) (t d : Text)
    → Models a hub
    → Models (followed t d a) (subscribe t d hub).1 × ((subscribe t d hub).0 ≡ is_set (a.sockets t))
unfolding subscribe
subscribe-Models a hub t d h = elim (Option-cases (get t hub.sockets_by_id)) [
  | inl n ↦
      let gone = sym (h.by_id t) ∙ n in
      rw n (followed_unknown a hub t d h gone, sym (ap is_set gone))
  | inr (k, n) ↦
      let there = sym (h.by_id t) ∙ n in
      rw n (followed_known a hub t d h k there, sym (ap is_set there))
]
