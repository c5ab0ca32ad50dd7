-- ===== src/Jobs/Enqueue.antt =====
-- sanitizeDeliveryJobFailureCode, validateJobIdentity and enqueueDeliveryJobInTransaction.
use euphoria_api.Base.{
  ℕ, ◌+◌, Bool, not, ◌&&◌, Option, none, some, Text, text, Result, ok, guard, ◌>>=◌, ◌>>◌, is_set,
  leb, if◌then◌else◌,
}
use euphoria_api.Sql.{insert}
use euphoria_api.Sql.Keys.{find}
use euphoria_api.Validate.{
  Number, assert_positive_integer, assert_nonnegative_integer, assert_bounded_nonblank_string,
  matches_failure_code, max_int4,
}
use euphoria_api.Jobs.Schema.{
  Job, JobStore, JobFault, JobState, invalid_argument, constraint_violation, out_of_range, job_key,
  seconds,
}

abbrev pub unspecified_failure : Text
unspecified_failure = text "unspecified_failure"

-- `some code` is a failure object with a string `code`, `none` any other value.
unfoldable pub sanitize_failure_code : Option Text → Text
unfolding matches_failure_code
sanitize_failure_code none = unspecified_failure
sanitize_failure_code (some code) = if matches_failure_code code then code else unspecified_failure

unfoldable pub validate_job_identity : Text → Number → Result JobFault ℕ
unfolding assert_bounded_nonblank_string assert_positive_integer
validate_job_identity job_kind job_version = do
  assert_bounded_nonblank_string job_kind 120 invalid_argument
  assert_positive_integer job_version invalid_argument

pub record EnqueueInput : Type 0 where
  pub available_in_seconds : Number
  pub job_kind : Text
  pub job_version : Number
  pub max_attempts : Number
  pub payload : Text
  pub terminal_retention_seconds : Number

abbrev pub fits_int4 : ℕ → Bool
fits_int4 n = leb n max_int4

-- The row with its column defaults: `id` is gen_random_uuid(), `started` is now(), the time at
-- which the transaction began, and `at` the statement's clock_timestamp().
unfoldable pub new_job : ℕ → ℕ → ℕ → Text → ℕ → Text → ℕ → ℕ → ℕ → Job
new_job id started at job_kind job_version payload delay max_attempts retention = record {
  id = id;
  job_kind = job_kind;
  job_version = job_version;
  payload = payload;
  state = JobState.pending;
  available_at = at + seconds delay;
  max_attempts = max_attempts;
  attempt_count = 0;
  terminal_retention_seconds = retention;
  lease_owner = none;
  lease_token = none;
  leased_at = none;
  lease_expires_at = none;
  completed_at = none;
  dead_lettered_at = none;
  dead_letter_reason = none;
  dead_letter_outcome = none;
  last_failure_code = none;
  last_failure_at = none;
  retention_expires_at = none;
  manual_requeue_count = 0;
  created_at = started;
  updated_at = at;
}

-- The insert returns the row that it created, so the `!created` branch is never taken.
unfoldable pub enqueue_job :
    (id started at : ℕ) → EnqueueInput → JobStore → Result JobFault (Job × JobStore)
unfolding validate_job_identity assert_positive_integer assert_nonnegative_integer find new_job
enqueue_job id started at input s = do
  job_version ← validate_job_identity input.job_kind input.job_version
  delay ← assert_nonnegative_integer input.available_in_seconds invalid_argument
  max_attempts ← assert_positive_integer input.max_attempts invalid_argument
  retention ← assert_positive_integer input.terminal_retention_seconds invalid_argument
  guard (fits_int4 job_version && fits_int4 max_attempts && fits_int4 retention) out_of_range
  guard (not (is_set (find job_key id s.jobs))) constraint_violation
  let created =
      new_job id started at input.job_kind job_version input.payload delay max_attempts retention
  ok (created, record s { jobs = insert created s.jobs })
