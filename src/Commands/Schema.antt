-- ===== src/Commands/Schema.antt =====
-- The types of src/services/command-idempotency-service.ts and the command_idempotency table of
-- src/db/durable-schema.ts.
use euphoria_api.Base.{ℕ, Bool, true, false, Option, Text}
use euphoria_api.Commands.Json.{Json}

pub data CommandState : Type 0 where
  in_progress : CommandState
  completed : CommandState

abbrev pub is_in_progress : CommandState → Bool
is_in_progress in_progress = true
is_in_progress completed = false

abbrev pub is_completed : CommandState → Bool
is_completed in_progress = false
is_completed completed = true

pub data Verdict : Type 0 where
  succeeded : Verdict
  rejected : Verdict

pub data CommandOutcome : Type 0 where
  result : Verdict → Json → CommandOutcome
  result_reference : Verdict → Json → CommandOutcome

pub data CommandErrorCode : Type 0 where
  idempotency_conflict : CommandErrorCode
  idempotency_in_progress : CommandErrorCode

-- What is thrown.
pub data CommandFault : Type 0 where
  invalid_argument : CommandFault
  invalid_outcome : CommandFault
  no_outcome : CommandFault
  no_stored_result : CommandFault
  not_completed : CommandFault
  constraint_violation : CommandFault
  out_of_range : CommandFault
  failed_command : CommandFault

-- A row of command_idempotency. A stored result is wrapped as `{ value }`, so that `none` is the
-- null of the column and a stored JSON null is `some null`.
pub record Command : Type 0 where
  pub id : ℕ
  pub actor_user_id : Text
  pub command_name : Text
  pub command_version : ℕ
  pub idempotency_key : Text
  pub request_fingerprint : Text
  pub state : CommandState
  pub outcome : Option Verdict
  pub result_value : Option Json
  pub reference : Option Json
  pub created_at : ℕ
  pub completed_at : Option ℕ
  pub retention_expires_at : Option ℕ
  pub updated_at : ℕ

abbrev pub command_key : Command → ℕ
command_key r = r.id

pub data CommandAnswer : Type 0 where
  replied : (record_id : ℕ) (replayed : Bool) → CommandOutcome → CommandAnswer
  refused : CommandErrorCode → CommandAnswer

abbrev pub error_retryable : CommandErrorCode → Bool
error_retryable idempotency_conflict = false
error_retryable idempotency_in_progress = true

-- What `execute` hands back at run time: its `outcome` field, and the other two if present.
pub record RawOutcome : Type 0 where
  pub outcome : Text
  pub raw_result : Option Json
  pub raw_reference : Option Json
