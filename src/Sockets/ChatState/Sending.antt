-- ===== src/Sockets/ChatState/Sending.antt =====
-- Sending an event to chat sockets: what is counted, and who is removed afterwards.
use euphoria_api.Base.{
  any-insert, ℕ, suc, ◌+◌, ◌≡◌, refl, sym, ◌∙◌, ap, Bool, true, false, not, ◌&&◌, ◌||◌, inl, inr,
  List, [], ◌∷◌, ◌++◌, Option, none, some, Text, text_eq, text_eqb, text_eqb_iff, is_set,
  Bool-cases, Option-cases, if◌then◌else◌, arith, any, holds, length,
}
use euphoria_api.Sql.{select}
use euphoria_api.Maps.{get}
use euphoria_api.Maps.Nested.{has, or_empty}
use euphoria_api.Sockets.Chat.{
  ChatSocket, ChatHub, send_each, remove_each, remove_socket, send_to_sockets, send_to_profile,
  send_to_conversation_subscribers,
}
use euphoria_api.Sockets.ChatState.{Sessions, Models, left, of_profile}
use euphoria_api.Sockets.ChatState.Leaving.{any-has, remove_socket-Models}

-- A socket that is there and whose `send` does not throw.
abbrev pub takes : (ChatSocket → Bool) → Option ChatSocket → Bool
takes accepts none = false
takes accepts (some k) = accepts k

abbrev is_in : Text → List Text → Bool
is_in s ids = any (λ x. text_eqb x s) ids

module _ (accepts : ChatSocket → Bool) (exclude : Option Text)
    (known : List (Text × ChatSocket)) where
  fails : Text → Bool
  fails s = not (holds exclude s) && not (takes accepts (get s known))

  fails_same : (x s : Text) → (text_eqb x s && fails s) ≡ (text_eqb x s && fails x)
  fails_same x s = elim (Bool-cases (text_eqb x s)) [
    | inl q ↦ rw (q, (text_eqb_iff x s).0 q) refl
    | inr q ↦ rw q refl
  ]

  kept_step :
      (x s : Text) {b : Bool} (on more : Bool)
      → fails x ≡ false
      → b ≡ (on || (more && fails s))
      → b ≡ (on || ((text_eqb x s || more) && fails s))
  kept_step x s on more f e = ground (arith, fails_same x s)

  stale_step :
      (x s : Text) {b : Bool} (on more : Bool)
      → fails x ≡ true
      → b ≡ (on || text_eqb x s || (more && fails s))
      → b ≡ (on || ((text_eqb x s || more) && fails s))
  stale_step x s on more f e = ground (arith, fails_same x s)

  module _ {V : Type 0} where
    sent_count :
        (entries : List (Text × V)) (sent : ℕ) (stale : List Text)
        → (send_each accepts exclude known entries sent stale).0
          ≡ sent
            + length
                (select (λ e. not (holds exclude e.0) && takes accepts (get e.0 known)) entries)
    unfolding send_each select
    sent_count [] sent stale = omega arith
    sent_count (e ∷ entries) sent stale = elim (Bool-cases (holds exclude e.0)) [
      | inl q ↦ rw q (sent_count entries sent stale)
      | inr q ↦ rw q (elim (Option-cases (get e.0 known)) [
        | inl n ↦ rw n (sent_count entries sent (stale ++ e.0 ∷ []))
        | inr (k, n) ↦ rw n (elim (Bool-cases (accepts k)) [
          | inl y ↦ rw y (sent_count entries (sent + 1) stale ∙ omega arith)
          | inr y ↦ rw y (sent_count entries sent (stale ++ e.0 ∷ []))
        ])
      ])
    ]

    stale_ids :
        (s : Text) (entries : List (Text × V)) (sent : ℕ) (stale : List Text)
        → is_in s (send_each accepts exclude known entries sent stale).1
          ≡ (is_in s stale || (any (λ e. text_eqb e.0 s) entries && fails s))
    unfolding send_each
    stale_ids s [] sent stale = ground arith
    stale_ids s (e ∷ entries) sent stale =
        let more = any (λ x. text_eqb x.0 s) entries in
        let on = is_in s stale in
        elim (Bool-cases (holds exclude e.0)) [
          | inl q ↦
              rw q (
                kept_step e.0 s on more (unfold fails in rw q refl)
                  (stale_ids s entries sent stale))
          | inr q ↦ rw q (elim (Option-cases (get e.0 known)) [
            | inl n ↦ rw n (
                stale_step e.0 s on more (unfold fails in rw (q, n) refl) (
                  stale_ids s entries sent (stale ++ e.0 ∷ [])
                  ∙ rw (any-insert (λ x. text_eqb x s) stale e.0) refl))
            | inr (k, n) ↦ rw n (elim (Bool-cases (accepts k)) [
              | inl y ↦ rw y (
                  kept_step e.0 s on more (unfold fails in rw (q, n, y) refl)
                    (stale_ids s entries (sent + 1) stale))
              | inr y ↦ rw y (
                  stale_step e.0 s on more (unfold fails in rw (q, n, y) refl) (
                    stale_ids s entries sent (stale ++ e.0 ∷ [])
                    ∙ rw (any-insert (λ x. text_eqb x s) stale e.0) refl))
            ])
          ])
        ]

-- The sessions without the sockets whose ids are listed.
abbrev pub all_left : List Text → Sessions → Sessions
all_left [] a = a
all_left (t ∷ ids) a = all_left ids (left t a)

remove_each-Models :
    (ids : List Text) (a : Sessions) (hub : ChatHub)
    → Models a hub
    → Models (all_left ids a) (remove_each ids hub)
unfolding remove_each
remove_each-Models [] a hub h = h
remove_each-Models (t ∷ ids) a hub h =
    remove_each-Models ids (left t a) (remove_socket t hub).1 (remove_socket-Models a hub t h)

all_left-sockets :
    (ids : List Text) (a : Sessions) (s : Text)
    → (all_left ids a).sockets s ≡ (if is_in s ids then none else a.sockets s)
all_left-sockets [] a s = refl
all_left-sockets (t ∷ ids) a s = all_left-sockets ids (left t a) s ∙ ground arith

all_left-subscribed :
    (ids : List Text) (a : Sessions) (s c : Text)
    → (all_left ids a).subscribed s c ≡ (if is_in s ids then false else a.subscribed s c)
all_left-subscribed [] a s c = refl
all_left-subscribed (t ∷ ids) a s c = all_left-subscribed ids (left t a) s c ∙ ground arith

-- The sessions after an event went to the sockets that are listed: those that failed are gone.
abbrev pub without : (Text → Bool) → Sessions → Sessions
without gone a = record {
  sockets = λ s. if gone s then none else a.sockets s;
  subscribed = λ s c. if gone s then false else a.subscribed s c;
}

Models-same :
    (a b : Sessions) (hub : ChatHub)
    → ((s : Text) → a.sockets s ≡ b.sockets s)
    → ((s c : Text) → a.subscribed s c ≡ b.subscribed s c)
    → Models a hub
    → Models b hub
Models-same a b hub p q h = record {
  by_id = λ s. h.by_id s ∙ p s;
  by_profile = λ l s. h.by_profile l s ∙ ap (of_profile l) (p s);
  by_socket = λ s c. h.by_socket s c ∙ q s c;
  by_conversation = λ s c. h.by_conversation s c ∙ q s c;
  connected = λ s c on. sym (ap is_set (p s)) ∙ h.connected s c (q s c ∙ on);
  profiles_inhabited = h.profiles_inhabited;
  conversations_inhabited = h.conversations_inhabited;
  subscriptions_inhabited = h.subscriptions_inhabited;
}

select-same :
    {A : Type 0} (p q : A → Bool) (xs : List A)
    → ((x : A) → p x ≡ q x)
    → length (select p xs) ≡ length (select q xs)
unfolding select
select-same p q [] e = refl
select-same p q (x ∷ xs) e = elim (Bool-cases (q x)) [
  | inl y ↦ rw (e x, y) (ap suc (select-same p q xs e))
  | inr y ↦ rw (e x, y) (select-same p q xs e)
]

-- The sessions that a sending to the listed sockets ends, the excluded one left alone.
abbrev pub failed : (ChatSocket → Bool) → Option Text → (Text → Bool) → Sessions → Text → Bool
failed accepts exclude listed a s =
    listed s && (not (holds exclude s) && not (takes accepts (a.sockets s)))

module _ {V : Type 0} (accepts : ChatSocket → Bool) (exclude : Option Text)
    (entries : List (Text × V)) where
  pub send_to_sockets-Models :
      (a : Sessions) (hub : ChatHub) (listed : Text → Bool)
      → ((s : Text) → has s entries ≡ listed s)
      → Models a hub
      → Models
          (without (failed accepts exclude listed a) a)
          (send_to_sockets accepts entries exclude hub).1
  unfolding send_to_sockets
  send_to_sockets-Models a hub listed is_listed h =
      let ids = (send_each accepts exclude hub.sockets_by_id entries 0 []).1 in
      let gone : (s : Text) → is_in s ids ≡ failed accepts exclude listed a s = λ s.
        unfold fails in
        stale_ids accepts exclude hub.sockets_by_id s entries 0 []
        ∙ rw (any-has s entries, is_listed s, h.by_id s) refl in
      Models-same (all_left ids a) (without (failed accepts exclude listed a) a) _
        (λ s. all_left-sockets ids a s ∙ ap (λ b. if b then none else a.sockets s) (gone s))
        (λ s c.
          all_left-subscribed ids a s c ∙ ap (λ b. if b then false else a.subscribed s c) (gone s))
        (remove_each-Models ids a hub h)

  pub send_to_sockets-count :
      (a : Sessions) (hub : ChatHub)
      → Models a hub
      → (send_to_sockets accepts entries exclude hub).0
        ≡ length (select (λ e. not (holds exclude e.0) && takes accepts (a.sockets e.0)) entries)
  unfolding send_to_sockets
  send_to_sockets-count a hub h =
      let same =
        select-same
          (λ (e : Text × V). not (holds exclude e.0) && takes accepts (get e.0 hub.sockets_by_id))
          (λ e. not (holds exclude e.0) && takes accepts (a.sockets e.0)) entries
          (λ e. ap (λ o. not (holds exclude e.0) && takes accepts o) (h.by_id e.0)) in
      omega (arith, sent_count accepts exclude hub.sockets_by_id entries 0 [], same)

module _ (accepts : ChatSocket → Bool) (a : Sessions) (hub : ChatHub) (h : Models a hub) where
  pub send_to_profile-Models :
      (p : Text) (exclude : Option Text)
      → Models
          (without (failed accepts exclude (λ s. is_set (of_profile p (a.sockets s))) a) a)
          (send_to_profile accepts p exclude hub).1
  unfolding send_to_profile
  send_to_profile-Models p exclude =
      send_to_sockets-Models accepts exclude (or_empty (get p hub.sockets_by_profile_id)) a hub _
        (λ s. ap is_set (h.by_profile p s)) h

  -- An event to the subscribers of a conversation is counted once for each subscribed socket, other
  -- than the excluded one, whose send goes through. Those of them whose send throws are gone
  -- afterwards, with their subscriptions; the other sockets and subscriptions are as they were.
  pub send_to_conversation_subscribers-Models :
      (c : Text) (exclude : Option Text)
      → let out = send_to_conversation_subscribers accepts c exclude hub in
        (out.0
          ≡ length (
              select
                (λ e. not (holds exclude e.0) && takes accepts (a.sockets e.0))
                (or_empty (get c hub.conversation_subscriptions))))
        × Models (without (failed accepts exclude (λ s. a.subscribed s c) a) a) out.1
  unfolding send_to_conversation_subscribers
  send_to_conversation_subscribers-Models c exclude =
      let entries = or_empty (get c hub.conversation_subscriptions) in
      (
        send_to_sockets-count accepts exclude entries a hub h,
        send_to_sockets-Models accepts exclude entries a hub _ (λ s. h.by_conversation s c) h,
      )
