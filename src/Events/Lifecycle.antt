-- ===== src/Events/Lifecycle.antt =====
-- Every sequence of appends, checkpoints and prunings from empty tables. One transaction is one
-- step; one that throws is rolled back, and is no step.
use euphoria_api.Base.{
  ℕ, ◌≡◌, refl, subst, Bool, List, [], Option, none, some, Text, ok, >>=-eq-ok, ok_inj,
}
use euphoria_api.Validate.{Number}
use euphoria_api.Events.Schema.{
  Scope, Event, EventStore, EventInput, assert_scope, find_scope, sequences,
}
use euphoria_api.Events.Append.{append_events, ensure_scope, Checkpoint, validate_checkpoint}
use euphoria_api.Events.Prune.{prune_events}
use euphoria_api.Events.Contiguous.{Contiguous}
use euphoria_api.Events.Appending.{append_events-Contiguous, validate_checkpoint_total}
use euphoria_api.Events.Pruning.{prune_events-Contiguous}

pub data EventStep (s s' : EventStore) : Type 0 where
  appends :
      (started : ℕ) (ids clock : ℕ → ℕ) (causal_id : Option Text) (events : List EventInput)
      (created : List Event)
      → append_events started ids clock causal_id events s ≡ ok (created, s')
      → EventStep s s'
  validates :
      (started t : ℕ) (after : Option ℕ) (c : Scope) (answer : Checkpoint)
      → validate_checkpoint started t after c s ≡ ok (answer, s')
      → EventStep s s'
  prunes :
      (acquired : Bool) (locked : ℕ → Bool) (t u : ℕ) (batch_size : Number) (removed : List Event)
      → prune_events acquired locked t u batch_size s ≡ ok (removed, s')
      → EventStep s s'

pub data EventReach (s : EventStore) : EventStore → Type 0 where
  here : EventReach s s
  next : {t u : EventStore} → EventReach s t → EventStep t u → EventReach s u

validate_checkpoint-Contiguous :
    (started t : ℕ) (after : Option ℕ) (c : Scope) (answer : Checkpoint) (s s' : EventStore)
    → Contiguous s
    → validate_checkpoint started t after c s ≡ ok (answer, s')
    → Contiguous s'
unfolding validate_checkpoint
validate_checkpoint-Contiguous started t none c answer s s' v h = absurd (cc)
validate_checkpoint-Contiguous started t (some after) c answer s s' v h =
    let (p, ensured, h1) = >>=-eq-ok (ensure_scope started t c s.scopes) _ h in
    let (_, named, h2) = >>=-eq-ok (assert_scope c) _ ensured in
    let (r, s1, ran, found, kept) = validate_checkpoint_total started t after c s v named in
    let same = ok_inj (validate_checkpoint started t (some after) c s) ran h in
    subst (λ (x : Checkpoint × EventStore). Contiguous x.1) same kept

EventStep-Contiguous : (s s' : EventStore) → Contiguous s → EventStep s s' → Contiguous s'
EventStep-Contiguous s s' v (appends started ids clock causal_id events created h) =
    append_events-Contiguous started ids clock causal_id events s s' created v h
EventStep-Contiguous s s' v (validates started t after c answer h) =
    validate_checkpoint-Contiguous started t after c answer s s' v h
EventStep-Contiguous s s' v (prunes acquired locked t u batch_size removed h) =
    prune_events-Contiguous acquired locked t u batch_size s s' removed v h

abbrev pub no_events : EventStore
no_events = record { scopes = []; events = [] }

none_Contiguous : Contiguous no_events
unfolding find_scope sequences
none_Contiguous = record { tracked = λ c r h. absurd (cc); untracked = λ c h. refl }

EventReach-keeps : {s t : EventStore} → Contiguous s → EventReach s t → Contiguous t
EventReach-keeps v here = v
EventReach-keeps v (next {t} {u} r step) = EventStep-Contiguous t u (EventReach-keeps v r) step

-- Whatever has been appended, checked and pruned from empty tables, the retained events of every
-- scope are those from its retention floor to its high-water mark, each once, and the floor is at
-- most one above that mark.
pub EventReach-Contiguous : (s : EventStore) → EventReach no_events s → Contiguous s
EventReach-Contiguous s r = EventReach-keeps none_Contiguous r
