-- ===== src/Commands/Run.antt =====
-- createCommandRequestFingerprint, normalizeCommandOutcome, storedCommandOutcome and
-- runIdempotentCommand. `World` is what `execute` and `afterOutcomePersisted` may change, that is
-- the other tables; a fault rolls back everything, so a failed call has no state after it.
use euphoria_api.Base.{
  ℕ, ◌+◌, leb, Bool, true, false, not, ◌&&◌, ◌||◌, List, [], ◌∷◌, ◌++◌, Option, none, some, Text,
  text, Result, ok, err, ◌>>=◌, ◌>>◌, or_throw, guard, first, is_set, ◌==◌, nat_eq, text_eq,
  text_eqb, if◌then◌else◌,
}
use euphoria_api.Sql.{seconds, select, update, updated, insert}
use euphoria_api.Sql.Keys.{find}
use euphoria_api.Validate.{
  Number, max_int4, assert_positive_integer, assert_bounded_nonblank_string,
}
use euphoria_api.Commands.Json.{
  Json, string, number, object, field, no_fields, canonicalize, decimal,
}
use euphoria_api.Commands.Schema.{
  Command, CommandState, is_in_progress, is_completed, Verdict, succeeded, rejected, CommandOutcome,
  result, result_reference, idempotency_conflict, idempotency_in_progress, CommandFault,
  invalid_argument, invalid_outcome, no_outcome, no_stored_result, not_completed,
  constraint_violation, out_of_range, command_key, CommandAnswer, replied, refused, RawOutcome,
}

abbrev pub fingerprint_domain : Text
fingerprint_domain = text "euphoria-command-fingerprint-v1" ++ 0 ∷ []

unfoldable pub create_fingerprint :
    (sha256 : Text → Text) (command_name : Text) (command_version : Number) (request : Json)
    → Result CommandFault Text
unfolding assert_bounded_nonblank_string assert_positive_integer canonicalize decimal
create_fingerprint sha256 command_name command_version request = do
  assert_bounded_nonblank_string command_name 120 invalid_argument
  version ← assert_positive_integer command_version invalid_argument
  canonical ←
      or_throw
        (canonicalize (
          object (
            field (text "command") (string command_name) (
              field (text "request") request
                (field (text "version") (number (decimal version)) no_fields)))))
        invalid_argument
  ok (sha256 (fingerprint_domain ++ canonical))

abbrev pub verdict_of : Text → Option Verdict
verdict_of outcome =
    if outcome == text "succeeded"
    then some succeeded
    else if outcome == text "rejected"
    then some rejected
    else none

abbrev pub choose_result : Verdict → Option Json → Option Json → Result CommandFault CommandOutcome
choose_result verdict (some value) reference =
    or_throw (canonicalize value) invalid_argument >> ok (result verdict value)
choose_result verdict none (some reference) =
    or_throw (canonicalize reference) invalid_argument >> ok (result_reference verdict reference)
choose_result verdict none none = err invalid_outcome

unfoldable pub normalize_outcome : RawOutcome → Result CommandFault CommandOutcome
unfolding canonicalize text_eqb
normalize_outcome raw = do
  guard
      ((is_set raw.raw_result && not (is_set raw.raw_reference))
        || (not (is_set raw.raw_result) && is_set raw.raw_reference))
      invalid_outcome
  verdict ← or_throw (verdict_of raw.outcome) invalid_outcome
  choose_result verdict raw.raw_result raw.raw_reference

abbrev stored_result : Verdict → Option Json → Option Json → Result CommandFault CommandOutcome
stored_result verdict (some value) reference = ok (result verdict value)
stored_result verdict none (some reference) = ok (result_reference verdict reference)
stored_result verdict none none = err no_stored_result

unfoldable pub stored_outcome : Command → Result CommandFault CommandOutcome
stored_outcome row = do
  verdict ← or_throw row.outcome no_outcome
  stored_result verdict row.result_value row.reference

abbrev pub verdict_column : CommandOutcome → Verdict
verdict_column (result verdict value) = verdict
verdict_column (result_reference verdict reference) = verdict

abbrev pub result_column : CommandOutcome → Option Json
result_column (result verdict value) = some value
result_column (result_reference verdict reference) = none

abbrev pub reference_column : CommandOutcome → Option Json
reference_column (result verdict value) = none
reference_column (result_reference verdict reference) = some reference

-- The unique index on the actor, the command and the key.
unfoldable pub has_key : Text → Text → Text → Command → Bool
unfolding text_eqb
has_key actor name key r =
    r.actor_user_id == actor && r.command_name == name && r.idempotency_key == key

unfoldable pub claimed_row : (id started version : ℕ) (actor name key fingerprint : Text) → Command
claimed_row id started version actor name key fingerprint = record {
  id = id;
  actor_user_id = actor;
  command_name = name;
  command_version = version;
  idempotency_key = key;
  request_fingerprint = fingerprint;
  state = CommandState.in_progress;
  outcome = none;
  result_value = none;
  reference = none;
  created_at = started;
  completed_at = none;
  retention_expires_at = none;
  updated_at = started;
}

unfoldable pub completed_row : (t retention : ℕ) → CommandOutcome → Command → Command
completed_row t retention o r = record r {
  state = CommandState.completed;
  outcome = some (verdict_column o);
  result_value = result_column o;
  reference = reference_column o;
  completed_at = some t;
  retention_expires_at = some (t + seconds retention);
  updated_at = t;
}

-- The answer from the row that the insert ran into.
unfoldable pub answer_existing :
    (version : ℕ) (fingerprint : Text) → Command → Result CommandFault CommandAnswer
unfolding stored_outcome text_eqb
answer_existing version fingerprint existing =
    if not (existing.command_version == version)
      || not (existing.request_fingerprint == fingerprint)
    then ok (refused idempotency_conflict)
    else if not (is_completed existing.state)
    then ok (refused idempotency_in_progress)
    else (do o ← stored_outcome existing; ok (replied existing.id true o))

unfoldable pub is_claim : ℕ → Command → Bool
is_claim id r = r.id == id && is_in_progress r.state

pub record CommandInput : Type 0 where
  pub actor_user_id : Text
  pub command_name : Text
  pub command_version : Number
  pub idempotency_key : Text
  pub request : Json
  pub retention_seconds : Number

-- The checks before the transaction: the version, the retention and the fingerprint.
unfoldable pub check_command :
    (sha256 : Text → Text) → CommandInput → Result CommandFault (ℕ × ℕ × Text)
unfolding assert_bounded_nonblank_string assert_positive_integer create_fingerprint
check_command sha256 input = do
  assert_bounded_nonblank_string input.actor_user_id 1024 invalid_argument
  assert_bounded_nonblank_string input.command_name 120 invalid_argument
  assert_bounded_nonblank_string input.idempotency_key 255 invalid_argument
  version ← assert_positive_integer input.command_version invalid_argument
  retention ← assert_positive_integer input.retention_seconds invalid_argument
  fingerprint ← create_fingerprint sha256 input.command_name input.command_version input.request
  ok (version, retention, fingerprint)

module _ {World : Type 0} where
  -- The statements after a successful claim.
  unfoldable pub execute_claimed :
      (id t retention : ℕ) (execute : World → Result CommandFault (RawOutcome × World))
      (after_persisted : World → Result CommandFault World)
      → List Command
      → World
      → Result CommandFault (CommandAnswer × (List Command × World))
  unfolding normalize_outcome updated update is_claim completed_row
  execute_claimed id t retention execute after_persisted rows w = execute w >>= λ (raw, executed).
      normalize_outcome raw >>= λ o.
      or_throw (first (updated (is_claim id) (completed_row t retention o) rows)) not_completed
      >>= λ completed. after_persisted executed >>= λ settled. ok (
        replied completed.id false o,
        (update (is_claim id) (completed_row t retention o) rows, settled),
      )

  abbrev pub claim_or_answer :
      (id started t version retention : ℕ) (fingerprint : Text) (input : CommandInput)
      (execute : World → Result CommandFault (RawOutcome × World))
      (after_persisted : World → Result CommandFault World)
      → List Command
      → World
      → Option Command
      → Result CommandFault (CommandAnswer × (List Command × World))
  claim_or_answer id started t version retention fingerprint input execute after_persisted rows w
        (some existing) =
      answer_existing version fingerprint existing >>= λ answer. ok (answer, (rows, w))
  claim_or_answer id started t version retention fingerprint input execute after_persisted rows w
        none =
      do
        guard (not (is_set (find command_key id rows))) constraint_violation
        execute_claimed id t retention execute after_persisted
            (insert
              (claimed_row id started version input.actor_user_id input.command_name
                input.idempotency_key fingerprint)
              rows)
            w

  -- `id` is the default of the id column, `started` is now() and `t` the clock at the update.
  unfoldable pub run_command :
      (sha256 : Text → Text) (id started t : ℕ) (input : CommandInput)
      (execute : World → Result CommandFault (RawOutcome × World))
      (after_persisted : World → Result CommandFault World)
      → List Command
      → World
      → Result CommandFault (CommandAnswer × (List Command × World))
  unfolding select has_key find claimed_row execute_claimed answer_existing
  run_command sha256 id started t input execute after_persisted rows w =
      check_command sha256 input >>= λ (version, retention, fingerprint).
      guard (leb version max_int4) out_of_range
      >> claim_or_answer id started t version retention fingerprint input execute after_persisted
          rows w
          (first
            (select (has_key input.actor_user_id input.command_name input.idempotency_key) rows))
