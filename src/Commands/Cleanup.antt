-- ===== src/Commands/Cleanup.antt =====
-- cleanupCompletedIdempotencyRecords and listNonterminalIdempotencyDiagnostics. `t` is the clock
-- at the query, and `locked` says which rows other transactions hold.
use euphoria_api.Base.{
  ℕ, ◌+◌, Bool, not, ◌&&◌, List, map, Text, Result, ok, ◌>>=◌, is_due, leb, take,
}
use euphoria_api.Sql.{select, delete, order_by, ordered_by, nulls_last, is_among, seconds}
use euphoria_api.Validate.{Number, assert_positive_integer}
use euphoria_api.Commands.Schema.{
  Command, CommandFault, invalid_argument, is_completed, is_in_progress,
}

-- where state = 'completed' and retention_expires_at <= clock_timestamp()
unfoldable pub is_expired : ℕ → Command → Bool
is_expired now r = is_completed r.state && is_due r.retention_expires_at now

abbrev pub expires_before : Command → Command → Bool
expires_before x y = nulls_last x.retention_expires_at y.retention_expires_at (leb x.id y.id)

abbrev pub command_ids : List Command → List ℕ
command_ids = map (λ r. r.id)

-- for("update", { skipLocked: true }).limit(count)
unfoldable pub lock_expired : (locked : ℕ → Bool) (t count : ℕ) → List Command → List Command
unfolding select order_by is_expired
lock_expired locked t count rows =
    take count (order_by expires_before (select (λ r. is_expired t r && not (locked r.id)) rows))

unfoldable pub cleanup_commands :
    (locked : ℕ → Bool) (t : ℕ) (batch_size : Number)
    → List Command
    → Result CommandFault (List ℕ × List Command)
unfolding assert_positive_integer lock_expired delete
cleanup_commands locked t batch_size rows = do
  count ← assert_positive_integer batch_size invalid_argument
  let ids = command_ids (lock_expired locked t count rows)
  ok (ids, delete (λ r. is_among ids r.id) rows)

pub record CommandDiagnostic : Type 0 where
  pub id : ℕ
  pub actor_user_id : Text
  pub command_name : Text
  pub command_version : ℕ
  pub created_at : ℕ
  pub updated_at : ℕ

abbrev diagnostic_of : Command → CommandDiagnostic
diagnostic_of r = record {
  id = r.id;
  actor_user_id = r.actor_user_id;
  command_name = r.command_name;
  command_version = r.command_version;
  created_at = r.created_at;
  updated_at = r.updated_at;
}

-- where state = 'in_progress' and created_at <= clock_timestamp() - older
unfoldable pub is_overdue : (t older : ℕ) → Command → Bool
is_overdue t older r = is_in_progress r.state && leb (r.created_at + seconds older) t

unfoldable pub list_nonterminal :
    (t : ℕ) (older_than_seconds limit : Number)
    → List Command
    → Result CommandFault (List CommandDiagnostic)
unfolding assert_positive_integer select order_by is_overdue
list_nonterminal t older_than_seconds limit rows = do
  older ← assert_positive_integer older_than_seconds invalid_argument
  count ← assert_positive_integer limit invalid_argument
  let before = λ (x : Command) (y : Command). ordered_by x.created_at y.created_at (leb x.id y.id)
  ok (map diagnostic_of (take count (order_by before (select (is_overdue t older) rows))))
