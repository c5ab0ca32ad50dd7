-- ===== src/Events/Examples.antt =====
-- Two events of a user, one of which is pruned.
use euphoria_api.Base.{
  ℕ, ◌+◌, ◌≡◌, refl, true, false, [], ◌∷◌, none, some, Text, text, ok, arith, text_eqb,
}
use euphoria_api.Sql.{is_among}
use euphoria_api.Validate.{natural}
use euphoria_api.Events.Schema.{
  Scope, notification_user, ScopeRow, Event, EventStore, EventInput, find_scope, sequences,
  assert_scope,
}
use euphoria_api.Events.Append.{
  append_event, append_events, new_event, new_scope, raised, accepted, validate_checkpoint,
}
use euphoria_api.Events.Authorize.{Directory, lower_case}
use euphoria_api.Events.Prune.{prune_events}
use euphoria_api.Events.Contiguous.{Contiguous, next_sequence}
use euphoria_api.Events.Appending.{append_event-Contiguous, validate_checkpoint_complete}
use euphoria_api.Events.Pruning.{prune_events-Contiguous}
use euphoria_api.Events.Lifecycle.{
  EventReach, here, next, appends, no_events, EventReach-Contiguous,
}

abbrev user_scope : Scope
user_scope = record { kind = notification_user; id = text "u1" }

abbrev input : ℕ → EventInput
input seconds = record {
  scope = user_scope;
  event_type = text "n";
  event_version = natural 1;
  payload = text "{}";
  retention_seconds = natural seconds;
}

abbrev clock : ℕ → ℕ
clock i = 10 + i

abbrev ids : ℕ → ℕ
ids i = 100 + i

abbrev first_event : Event
first_event = new_event 100 11 1 1 1 none (input 1)

abbrev second_event : Event
second_event = new_event 101 13 1 60 2 none (input 60)

abbrev scope_row : ScopeRow
scope_row = raised 12 (new_scope 5 10 1 user_scope)

abbrev two_events : EventStore
two_events = record { scopes = scope_row ∷ []; events = first_event ∷ second_event ∷ [] }

appended :
    append_events 5 ids clock none (input 1 ∷ input 60 ∷ []) no_events
    ≡ ok (first_event ∷ second_event ∷ [], two_events)
unfolding append_events
appended = refl

two_Reach : EventReach no_events two_events
two_Reach = next here (appends 5 ids clock none (input 1 ∷ input 60 ∷ []) _ appended)

EventReach-Contiguous_example : Contiguous two_events
EventReach-Contiguous_example = EventReach-Contiguous two_events two_Reach

two_Contiguous : Contiguous two_events
two_Contiguous = EventReach-Contiguous two_events two_Reach

abbrev one_row : ScopeRow
one_row = record scope_row { retention_floor = 2; updated_at = 5000001 }

abbrev one_event : EventStore
one_event = record { scopes = one_row ∷ []; events = second_event ∷ [] }

pruned :
    prune_events true (λ k. false) 5000000 5000001 (natural 10) two_events
    ≡ ok (first_event ∷ [], one_event)
unfolding prune_events text_eqb
pruned = refl

prune_events-Contiguous_example : Contiguous one_event
prune_events-Contiguous_example =
    prune_events-Contiguous true (λ k. false) 5000000 5000001 (natural 10) two_events one_event
      (first_event ∷ []) two_Contiguous pruned

one_Contiguous : Contiguous one_event
one_Contiguous =
    prune_events-Contiguous true (λ k. false) 5000000 5000001 (natural 10) two_events one_event
      (first_event ∷ []) two_Contiguous pruned

user_named : assert_scope user_scope ≡ ok tt
unfolding assert_scope
user_named = refl

checked : validate_checkpoint 9 9 (some 1) user_scope one_event ≡ ok (accepted 2 2, one_event)
unfolding validate_checkpoint find_scope text_eqb
checked = refl

validate_checkpoint_complete_example : is_among (sequences user_scope one_event.events) 2 ≡ true
validate_checkpoint_complete_example =
    validate_checkpoint_complete 9 9 1 2 2 2 user_scope one_event one_event one_Contiguous
      user_named checked (omega arith) (omega arith)

abbrev third_event : Event
third_event = new_event 102 21 1 60 3 none (input 60)

abbrev third_store : EventStore
third_store = record { scopes = raised 20 one_row ∷ []; events = second_event ∷ third_event ∷ [] }

appended_third :
    append_event 5 102 (λ i. 20 + i) none (input 60) one_event ≡ ok (third_event, third_store)
unfolding append_event text_eqb
appended_third = refl

append_event-Contiguous_example :
    (third_event.sequence ≡ next_sequence (find_scope user_scope one_event.scopes))
    × Contiguous third_store
append_event-Contiguous_example =
    append_event-Contiguous 5 102 (λ i. 20 + i) none (input 60) one_event third_store third_event
      one_Contiguous appended_third

abbrev conversation_id : Text
conversation_id = text "0000000A-0000-1000-8000-000000000000"

abbrev directory : Directory
directory = record {
  profiles = record { id = text "p"; deleted_at = none } ∷ [];
  members = record { profile_id = text "p"; user_id = text "u1" } ∷ [];
  conversations =
      record {
        id = lower_case conversation_id;
        profile_one_id = text "o";
        profile_two_id = text "p";
      }
      ∷ [];
}
