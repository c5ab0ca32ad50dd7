-- ===== src/Jobs/Maintenance.antt =====
-- manuallyRequeueDeliveryJob, listDeliveryJobDeadLetters and cleanupTerminalDeliveryJobs.
pub use euphoria_api.Sql.{is_among}
use euphoria_api.Base.{
  ℕ, suc, ◌+◌, Bool, not, ◌&&◌, ◌||◌, List, map, Option, none, some, Text, Result, ok, ◌>>=◌, ◌>>◌,
  or_throw, guard, first, is_null, is_due, leb, ◌==◌, nat_eq, text_eq, text_eqb, take,
  if◌then◌else◌,
}
use euphoria_api.Sql.{select, update, updated, delete, order_by, insert}
use euphoria_api.Sql.Keys.{find}
use euphoria_api.Validate.{
  Number, assert_positive_integer, assert_nonnegative_integer, assert_bounded_nonblank_string,
  matches_failure_code,
}
use euphoria_api.Jobs.Enqueue.{validate_job_identity, fits_int4}
use euphoria_api.Jobs.Claim.{lock_rows, nulls_last}
use euphoria_api.Jobs.Schema.{
  Job, JobState, ManualRequeue, JobStore, JobFault, DeadLetterReason, DeadLetterOutcome,
  TransitionErrorCode, invalid_transition, not_found, invalid_argument, not_requeued, out_of_range,
  job_key, seconds, is_dead_letter, is_terminal,
}

pub record RequeueInput : Type 0 where
  pub available_in_seconds : Number
  pub max_attempts : Number
  pub reason_code : Text
  pub requested_by : Text

pub data RequeueResult : Type 0 where
  requeued : ManualRequeue → Job → RequeueResult
  not_requeueable : TransitionErrorCode → RequeueResult

unfoldable pub requeued_job : ℕ → ManualRequeue → Job → Job
requeued_job t audit j = record j {
  state = JobState.pending;
  available_at = audit.next_available_at;
  max_attempts = audit.next_max_attempts;
  completed_at = none;
  dead_lettered_at = none;
  dead_letter_reason = none;
  dead_letter_outcome = none;
  last_failure_code = none;
  last_failure_at = none;
  retention_expires_at = none;
  manual_requeue_count = suc j.manual_requeue_count;
  updated_at = t;
}

unfoldable pub is_dead_row : ℕ → Job → Bool
is_dead_row job_id j = j.id == job_id && is_dead_letter j.state

-- The write of the audit row and of the job; `requeue_id` is gen_random_uuid(), `started` is now(),
-- `t` and `u` are the clock at the two statements.
unfoldable pub write_requeue :
    (requeue_id started t u job_id delay max_attempts : ℕ)
    → RequeueInput
    → Job
    → DeadLetterReason
    → DeadLetterOutcome
    → JobStore
    → Result JobFault (RequeueResult × JobStore)
unfolding requeued_job is_dead_row updated update
write_requeue requeue_id started t u job_id delay max_attempts input current reason outcome s = do
  guard (fits_int4 max_attempts && fits_int4 (suc current.manual_requeue_count)) out_of_range
  let audit : ManualRequeue = record {
    requeue_id = requeue_id;
    job_id = job_id;
    requested_by = input.requested_by;
    reason_code = input.reason_code;
    previous_dead_letter_reason = reason;
    previous_dead_letter_outcome = outcome;
    previous_attempt_count = current.attempt_count;
    next_max_attempts = max_attempts;
    next_available_at = t + seconds delay;
    created_at = started;
  }
  row ← or_throw (first (updated (is_dead_row job_id) (requeued_job u audit) s.jobs)) not_requeued
  ok (
    requeued audit row,
    record s {
      jobs = update (is_dead_row job_id) (requeued_job u audit) s.jobs;
      requeues = insert audit s.requeues;
    },
  )

requeue_current :
    (requeue_id started t u job_id delay max_attempts : ℕ)
    → RequeueInput
    → JobStore
    → Option Job
    → Result JobFault (RequeueResult × JobStore)
unfolding write_requeue
requeue_current requeue_id started t u job_id delay max_attempts input s none =
    ok (not_requeueable not_found, s)
requeue_current requeue_id started t u job_id delay max_attempts input s (some current) =
    if not (is_dead_letter current.state)
      || is_null current.dead_letter_reason
      || is_null current.dead_letter_outcome
      || leb max_attempts current.attempt_count
    then ok (not_requeueable invalid_transition, s)
    else (do
      reason ← or_throw current.dead_letter_reason not_requeued
      outcome ← or_throw current.dead_letter_outcome not_requeued
      write_requeue requeue_id started t u job_id delay max_attempts input current reason outcome s)

unfoldable pub requeue_job :
    (requeue_id started t u job_id : ℕ)
    → RequeueInput
    → JobStore
    → Result JobFault (RequeueResult × JobStore)
unfolding requeue_current assert_nonnegative_integer assert_positive_integer
    assert_bounded_nonblank_string matches_failure_code find
requeue_job requeue_id started t u job_id input s = do
  delay ← assert_nonnegative_integer input.available_in_seconds invalid_argument
  max_attempts ← assert_positive_integer input.max_attempts invalid_argument
  assert_bounded_nonblank_string input.requested_by 160 invalid_argument
  guard (matches_failure_code input.reason_code) invalid_argument
  requeue_current requeue_id started t u job_id delay max_attempts input s
      (find job_key job_id s.jobs)

-- The columns that the dead-letter list shows.
pub record DeadLetterSummary : Type 0 where
  pub id : ℕ
  pub job_kind : Text
  pub job_version : ℕ
  pub state : JobState
  pub attempt_count : ℕ
  pub max_attempts : ℕ
  pub dead_lettered_at : Option ℕ
  pub dead_letter_reason : Option DeadLetterReason
  pub dead_letter_outcome : Option DeadLetterOutcome
  pub last_failure_code : Option Text
  pub manual_requeue_count : ℕ

unfoldable pub summarize : Job → DeadLetterSummary
summarize j = record {
  id = j.id;
  job_kind = j.job_kind;
  job_version = j.job_version;
  state = j.state;
  attempt_count = j.attempt_count;
  max_attempts = j.max_attempts;
  dead_lettered_at = j.dead_lettered_at;
  dead_letter_reason = j.dead_letter_reason;
  dead_letter_outcome = j.dead_letter_outcome;
  last_failure_code = j.last_failure_code;
  manual_requeue_count = j.manual_requeue_count;
}

abbrev dead_before : Job → Job → Bool
dead_before x y = nulls_last x.dead_lettered_at y.dead_lettered_at (leb x.id y.id)

unfoldable pub list_dead_letters :
    Text → Number → Number → JobStore → Result JobFault (List DeadLetterSummary)
unfolding validate_job_identity assert_positive_integer select order_by summarize text_eqb
list_dead_letters job_kind job_version limit s = do
  version ← validate_job_identity job_kind job_version
  count ← assert_positive_integer limit invalid_argument
  let listed =
      λ (j : Job). j.job_kind == job_kind && j.job_version == version && is_dead_letter j.state
  ok (map summarize (take count (order_by dead_before (select listed s.jobs))))

-- where state in ('completed', 'dead_letter') and retention_expires_at <= clock_timestamp()
unfoldable pub is_expired_terminal : ℕ → Job → Bool
is_expired_terminal now j = is_terminal j.state && is_due j.retention_expires_at now

abbrev pub retention_before : Job → Job → Bool
retention_before x y = nulls_last x.retention_expires_at y.retention_expires_at (leb x.id y.id)

abbrev pub job_ids : List Job → List ℕ
job_ids = map (λ j. j.id)

-- The delete, with the `on delete cascade` of the attempts and of the requeue audit.
unfoldable pub delete_jobs : List ℕ → JobStore → JobStore
unfolding delete
delete_jobs ids s = record {
  jobs = delete (λ j. is_among ids j.id) s.jobs;
  attempts = delete (λ a. is_among ids a.job_id) s.attempts;
  requeues = delete (λ r. is_among ids r.job_id) s.requeues;
}

unfoldable pub cleanup_jobs :
    (locked : ℕ → Bool) (t : ℕ) (batch_size : Number)
    → JobStore
    → Result JobFault (List ℕ × JobStore)
unfolding assert_positive_integer lock_rows is_expired_terminal delete_jobs
cleanup_jobs locked t batch_size s = do
  count ← assert_positive_integer batch_size invalid_argument
  let expired = job_ids (lock_rows locked retention_before (is_expired_terminal t) count s.jobs)
  ok (expired, delete_jobs expired s)
