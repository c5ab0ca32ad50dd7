-- ===== src/Events/Prune.antt =====
-- pruneExpiredDurableEvents, with the trigger durable_event_after_delete of the migration
-- f3_durable_substrate. `acquired` says whether the advisory lock was free, `t` and `u` are the
-- clock at the query and at the update of the trigger, and `locked` the rows that others hold.
use euphoria_api.Base.{
  ℕ, ◌+◌, Bool, not, ◌&&◌, ◌||◌, List, [], ◌∷◌, map, any, take, length, Result, ok, err, ◌>>=◌, ltb,
  leb, nat_eqb, nat_eq, if◌then◌else◌, all,
}
use euphoria_api.Sql.{select, delete, update, order_by, is_among, ordered_by}
use euphoria_api.Validate.{Number, assert_positive_integer}
use euphoria_api.Events.Schema.{
  ScopeKind, chat_profile, chat_conversation, notification_user, ScopeRow, Event, EventStore,
  EventFault, invalid_argument, constraint_violation, same_scope, sequences,
}
use euphoria_api.Commands.Json.{text_before}

-- The expired rows whose scope has no earlier event that is still retained.
unfoldable pub is_expired_prefix : ℕ → List Event → Event → Bool
unfolding same_scope
is_expired_prefix now events e =
    leb e.retention_expires_at now
    && not (
        any
          (λ p.
            same_scope p.scope e.scope
            && ltb p.sequence e.sequence
            && ltb now p.retention_expires_at)
          events)

-- The order of the enum's values.
abbrev kind_rank : ScopeKind → ℕ
kind_rank chat_profile = 0
kind_rank chat_conversation = 1
kind_rank notification_user = 2

abbrev pub event_before : Event → Event → Bool
event_before x y = ordered_by (kind_rank x.scope.kind) (kind_rank y.scope.kind) (
    if same_scope x.scope y.scope
    then leb x.sequence y.sequence
    else text_before x.scope.id y.scope.id)

-- min(sequence), or `top` when nothing is retained
abbrev pub least : ℕ → List ℕ → ℕ
least top [] = top
least top (n ∷ ns) = let m = least top ns in if leb n m then n else m

abbrev pub greatest : ℕ → ℕ → ℕ
greatest a b = if leb a b then b else a

unfoldable pub raised_floor : ℕ → List Event → ScopeRow → ScopeRow
unfolding sequences
raised_floor u events r = record r {
  retention_floor =
      greatest r.retention_floor (least (r.high_water + 1) (sequences r.scope events));
  updated_at = u;
}

abbrev pub touches : List Event → ScopeRow → Bool
touches deleted r = any (λ e. same_scope e.scope r.scope) deleted

-- The number of retained events is that of the sequences from the floor to the high-water mark.
abbrev pub is_contiguous : List Event → ScopeRow → Bool
is_contiguous events r =
    nat_eqb (length (sequences r.scope events) + r.retention_floor) (r.high_water + 1)

-- durable_event_after_delete
unfoldable pub after_delete : ℕ → List Event → EventStore → Result EventFault EventStore
unfolding update raised_floor same_scope sequences
after_delete u deleted s =
    let scopes = update (touches deleted) (raised_floor u s.events) s.scopes in
    if all (λ r. not (touches deleted r) || is_contiguous s.events r) scopes
    then ok (record s { scopes = scopes })
    else err constraint_violation

abbrev pub event_ids : List Event → List ℕ
event_ids = map (λ e. e.id)

unfoldable pub prune_events :
    (acquired : Bool) (locked : ℕ → Bool) (t u : ℕ) (batch_size : Number)
    → EventStore
    → Result EventFault (List Event × EventStore)
unfolding assert_positive_integer select order_by is_expired_prefix delete after_delete
prune_events acquired locked t u batch_size s = do
  count ← assert_positive_integer batch_size invalid_argument
  let free = λ (e : Event). is_expired_prefix t s.events e && not (locked e.id)
  let ids = event_ids (take count (order_by event_before (select free s.events)))
  let deleted = select (λ e. is_among ids e.id) s.events
  let kept = delete (λ e. is_among ids e.id) s.events
  let pruned = after_delete u deleted (record s { events = kept })
  if not acquired then ok ([], s) else (do after ← pruned; ok (deleted, after))
