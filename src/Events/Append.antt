-- ===== src/Events/Append.antt =====
-- ensureDurableEventScopeInTransaction, appendDurableEventsInTransaction and
-- validateDurableEventCheckpoint, with the trigger durable_event_insert_guard of the migration
-- f3_durable_substrate. `clock` gives clock_timestamp() statement by statement, `started` is now().
use euphoria_api.Base.{
  ℕ, ◌+◌, ◌-◌, Bool, true, not, ◌&&◌, List, [], ◌∷◌, any, Option, none, some, Text, Result, ok,
  ◌>>=◌, ◌>>◌, guard, or_throw, ltb, leb, ◌==◌, nat_eq, if◌then◌else◌,
}
use euphoria_api.Sql.{seconds, update, insert, is_among}
use euphoria_api.Validate.{is_uuid, max_int4}
use euphoria_api.Events.Schema.{
  Scope, ScopeRow, Event, EventStore, EventFault, EventInput, invalid_argument, out_of_range,
  constraint_violation, same_scope, find_scope, sequences, assert_scope, assert_event_input,
}

-- The largest value of a bigint column.
abbrev pub max_int8 : ℕ
max_int8 = 9223372036854775807

abbrev pub new_scope : (started t high_water : ℕ) → Scope → ScopeRow
new_scope started t high_water s = record {
  scope = s;
  high_water = high_water;
  retention_floor = 1;
  created_at = started;
  updated_at = t;
}

abbrev pub ensured :
    (started t : ℕ) → Scope → List ScopeRow → Option ScopeRow → ScopeRow × List ScopeRow
ensured started t s rows (some r) = (r, rows)
ensured started t s rows none = (new_scope started t 0 s, insert (new_scope started t 0 s) rows)

-- The insert does nothing when the scope has its row; the row is read back.
unfoldable pub ensure_scope :
    (started t : ℕ) → Scope → List ScopeRow → Result EventFault (ScopeRow × List ScopeRow)
unfolding assert_scope find_scope
ensure_scope started t s rows = do assert_scope s; ok (ensured started t s rows (find_scope s rows))

abbrev pub raised : ℕ → ScopeRow → ScopeRow
raised t r = record r { high_water = r.high_water + 1; updated_at = t }

-- The upsert that allocates the next sequence: on conflict, high_water_sequence + 1.
abbrev pub allocate_beside :
    (started t : ℕ)
    → Scope
    → List ScopeRow
    → Option ScopeRow
    → Result EventFault (ℕ × List ScopeRow)
allocate_beside started t s rows none = ok (1, insert (new_scope started t 1 s) rows)
allocate_beside started t s rows (some r) = do
  guard (ltb r.high_water max_int8) out_of_range
  ok (r.high_water + 1, update (λ q. same_scope q.scope s) (raised t) rows)

unfoldable pub allocate :
    (started t : ℕ) → Scope → List ScopeRow → Result EventFault (ℕ × List ScopeRow)
unfolding find_scope update
allocate started t s rows = allocate_beside started t s rows (find_scope s rows)

-- durable_event_insert_guard
unfoldable pub insert_guard : Scope → ℕ → List ScopeRow → Result EventFault (Unit {0})
unfolding find_scope
insert_guard s sequence rows = do
  r ← or_throw (find_scope s rows) constraint_violation
  guard (sequence == r.high_water && leb r.retention_floor sequence) constraint_violation

abbrev pub new_event : (id t version retention sequence : ℕ) → Option Text → EventInput → Event
new_event id t version retention sequence causal_id event = record {
  id = id;
  scope = event.scope;
  sequence = sequence;
  event_type = event.event_type;
  event_version = version;
  payload = event.payload;
  causal_id = causal_id;
  occurred_at = t;
  committed_at = t;
  retention_expires_at = t + seconds retention;
}

-- One round of the loop.
unfoldable pub append_event :
    (started id : ℕ) (clock : ℕ → ℕ)
    → Option Text
    → EventInput
    → EventStore
    → Result EventFault (Event × EventStore)
unfolding assert_event_input allocate insert_guard sequences
append_event started id clock causal_id event s =
    assert_event_input event >>= λ (version, retention).
    allocate started (clock 0) event.scope s.scopes >>= λ (sequence, scopes).
    insert_guard event.scope sequence scopes
    >> guard (leb version max_int4) out_of_range
    >> guard (not (any (λ e. e.id == id) s.events)) constraint_violation
    >> guard (not (is_among (sequences event.scope s.events) sequence)) constraint_violation
    >> (let created = new_event id (clock 1) version retention sequence causal_id event in
        ok (created, record { scopes = scopes; events = insert created s.events }))

abbrev pub event_later : (ℕ → ℕ) → ℕ → ℕ → ℕ
event_later clock n i = clock (n + i)

unfoldable pub append_all :
    (started : ℕ) (ids clock : ℕ → ℕ)
    → Option Text
    → List EventInput
    → EventStore
    → Result EventFault (List Event × EventStore)
unfolding append_event
append_all started ids clock causal_id [] s = ok ([], s)
append_all started ids clock causal_id (event ∷ rest) s =
    append_event started (ids 0) clock causal_id event s >>= λ (created, s').
    append_all started (event_later ids 1) (event_later clock 2) causal_id rest s'
    >>= λ (events, s''). ok (created ∷ events, s'')

abbrev pub assert_inputs : List EventInput → Result EventFault (Unit {0})
assert_inputs [] = ok tt
assert_inputs (event ∷ rest) = assert_event_input event >> assert_inputs rest

abbrev pub is_causal : Option Text → Bool
is_causal none = true
is_causal (some id) = is_uuid b'5' id

-- Every input is checked before the first is appended.
unfoldable pub append_events :
    (started : ℕ) (ids clock : ℕ → ℕ)
    → Option Text
    → List EventInput
    → EventStore
    → Result EventFault (List Event × EventStore)
unfolding is_uuid assert_event_input append_all
append_events started ids clock causal_id events s = do
  guard (is_causal causal_id) invalid_argument
  assert_inputs events
  append_all started ids clock causal_id events s

pub data Checkpoint : Type 0 where
  accepted : (retention_floor high_water : ℕ) → Checkpoint
  before_retention : Scope → (retention_floor high_water : ℕ) → Checkpoint
  ahead : Scope → (retention_floor high_water : ℕ) → Checkpoint

-- The answer to a checkpoint by the row of its scope. The floor is positive, so that `- 1` is
-- exact.
abbrev pub answer_of : ℕ → Scope → ScopeRow → Checkpoint
answer_of after c r =
    if ltb after (r.retention_floor - 1)
    then before_retention c r.retention_floor r.high_water
    else if ltb r.high_water after
    then ahead c r.retention_floor r.high_water
    else accepted r.retention_floor r.high_water

-- A negative checkpoint, which throws, is `none`.
unfoldable pub validate_checkpoint :
    (started t : ℕ) → Option ℕ → Scope → EventStore → Result EventFault (Checkpoint × EventStore)
unfolding ensure_scope
validate_checkpoint started t after_sequence scope s =
    or_throw after_sequence invalid_argument >>= λ after.
    ensure_scope started t scope s.scopes >>= λ (metadata, scopes).
    ok (answer_of after scope metadata, record s { scopes = scopes })
