-- ===== src/Jobs/Schema.antt =====
-- The tables delivery_job, delivery_job_attempt and delivery_job_manual_requeue, and the values
-- that the service returns. A uuid is a number, a timestamp counts microseconds, and a payload is
-- the JSON text of its jsonb column.
pub use euphoria_api.Sql.{seconds}
use euphoria_api.Base.{
  ℕ, Bool, true, false, ◌&&◌, List, Option, Text, Result, ok, or_throw, ◌>>◌, ◌==◌, nat_eq, text_eq,
  holds, is_after, first,
}
use euphoria_api.Sql.{update, updated}

pub data JobState : Type 0 where
  pending leased completed dead_letter : JobState

pub data DeadLetterReason : Type 0 where
  permanent_failure attempts_exhausted lease_expired_after_final_claim : DeadLetterReason

pub data DeadLetterOutcome : Type 0 where
  failed unknown : DeadLetterOutcome

pub data AttemptOutcome : Type 0 where
  open_lease finished retry_planned lease_expired dead_lettered_failed dead_lettered_unknown :
      AttemptOutcome

pub record Job : Type 0 where
  pub id : ℕ
  pub job_kind : Text
  pub job_version : ℕ
  pub payload : Text
  pub state : JobState
  pub available_at : ℕ
  pub max_attempts : ℕ
  pub attempt_count : ℕ
  pub terminal_retention_seconds : ℕ
  pub lease_owner : Option Text
  pub lease_token : Option ℕ
  pub leased_at : Option ℕ
  pub lease_expires_at : Option ℕ
  pub completed_at : Option ℕ
  pub dead_lettered_at : Option ℕ
  pub dead_letter_reason : Option DeadLetterReason
  pub dead_letter_outcome : Option DeadLetterOutcome
  pub last_failure_code : Option Text
  pub last_failure_at : Option ℕ
  pub retention_expires_at : Option ℕ
  pub manual_requeue_count : ℕ
  pub created_at : ℕ
  pub updated_at : ℕ

pub record Attempt : Type 0 where
  pub token : ℕ
  pub job_id : ℕ
  pub attempt_number : ℕ
  pub owner : Text
  pub leased_at : ℕ
  pub lease_expires_at : ℕ
  pub outcome : AttemptOutcome
  pub failure_code : Option Text
  pub next_available_at : Option ℕ
  pub finished_at : Option ℕ

pub record ManualRequeue : Type 0 where
  pub requeue_id : ℕ
  pub job_id : ℕ
  pub requested_by : Text
  pub reason_code : Text
  pub previous_dead_letter_reason : DeadLetterReason
  pub previous_dead_letter_outcome : DeadLetterOutcome
  pub previous_attempt_count : ℕ
  pub next_max_attempts : ℕ
  pub next_available_at : ℕ
  pub created_at : ℕ

pub record JobStore : Type 0 where
  pub jobs : List Job
  pub attempts : List Attempt
  pub requeues : List ManualRequeue

-- What the operations throw: a TypeError of an argument check, an Error of their own, or a
-- constraint or column range that the database enforces. The transaction is rolled back.
pub data JobFault : Type 0 where
  invalid_argument missing_lease_token missing_attempt_history not_enqueued not_claimed
        missing_lease_metadata audit_not_written not_requeued constraint_violation out_of_range :
      JobFault

-- The `status` of a transition that went through, and the `code` of one that did not.
pub data TransitionStatus : Type 0 where
  completed_now already_completed dead_lettered already_dead_lettered retry_scheduled
        already_retried :
      TransitionStatus

pub data TransitionErrorCode : Type 0 where
  invalid_transition lease_lost not_found : TransitionErrorCode

pub data TransitionResult : Type 0 where
  transitioned : TransitionStatus → TransitionResult
  refused : TransitionErrorCode → TransitionResult

abbrev pub is_pending : JobState → Bool
is_pending pending = true
is_pending _ = false

abbrev pub is_leased : JobState → Bool
is_leased leased = true
is_leased _ = false

abbrev pub is_dead_letter : JobState → Bool
is_dead_letter dead_letter = true
is_dead_letter _ = false

abbrev pub is_terminal : JobState → Bool
is_terminal completed = true
is_terminal dead_letter = true
is_terminal _ = false

abbrev pub is_open : AttemptOutcome → Bool
is_open open_lease = true
is_open _ = false

abbrev pub job_key : Job → ℕ
job_key j = j.id

abbrev pub attempt_key : Attempt → ℕ
attempt_key a = a.token

-- where id = … and state = 'leased' and lease_owner = … and lease_token = …
-- and lease_expires_at > clock_timestamp()
unfoldable pub owns_lease : ℕ → Text → ℕ → ℕ → Job → Bool
owns_lease job_id owner token now j =
    j.id == job_id
    && is_leased j.state
    && holds j.lease_owner owner
    && holds j.lease_token token
    && is_after j.lease_expires_at now

-- where job_id = … and lease_token = … and lease_owner = … and outcome = 'leased'
unfoldable pub is_open_attempt : ℕ → ℕ → Text → Attempt → Bool
is_open_attempt job_id token owner a =
    a.job_id == job_id && a.token == token && a.owner == owner && is_open a.outcome

-- The same without the owner.
unfoldable pub is_open_lease : ℕ → ℕ → Attempt → Bool
is_open_lease job_id token a = a.job_id == job_id && a.token == token && is_open a.outcome

-- const [closedAttempt] = await tx.update(deliveryJobAttempt)…returning(); and it throws when no
-- attempt was open.
unfoldable pub close_attempt :
    (Attempt → Bool) → (Attempt → Attempt) → JobStore → Result JobFault JobStore
unfolding updated
close_attempt p f s = do
  or_throw (first (updated p f s.attempts)) JobFault.missing_attempt_history
  ok (record s { attempts = update p f s.attempts })
