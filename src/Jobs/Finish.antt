-- ===== src/Jobs/Finish.antt =====
-- How a worker ends its lease: findIdempotentTransition, completeDeliveryJob, retryDeliveryJob and
-- deadLetterDeliveryJob. `t` and `u` are clock_timestamp() at the statements of an operation.
use euphoria_api.Base.{
  ℕ, ◌+◌, Bool, true, false, not, ◌&&◌, ◌||◌, Option, none, some, Text, Result, ok, ◌>>=◌, ◌>>◌,
  or_throw, first, is_set, holds, is_after, ltb, ◌==◌, nat_eq, text_eq, text_eqb, if◌then◌else◌,
}
use euphoria_api.Sql.{select, update, updated}
use euphoria_api.Sql.Keys.{find}
use euphoria_api.Validate.{assert_bounded_nonblank_string}
use euphoria_api.Jobs.Enqueue.{sanitize_failure_code}
use euphoria_api.Jobs.Schema.{
  Job, Attempt, JobStore, JobFault, JobState, AttemptOutcome, finished, retry_planned,
  dead_lettered_failed, DeadLetterReason, permanent_failure, attempts_exhausted, DeadLetterOutcome,
  failed, invalid_argument, TransitionStatus, TransitionResult, transitioned, refused,
  completed_now, already_completed, dead_lettered, already_dead_lettered, retry_scheduled,
  already_retried, lease_lost, not_found, job_key, seconds, is_leased, owns_lease, is_open_attempt,
  close_attempt,
}

-- The outcome of the attempt under this token, when it is one of the expected ones.
unfoldable pub find_idempotent_transition :
    (AttemptOutcome → Bool) → ℕ → ℕ → JobStore → Option Attempt
unfolding select
find_idempotent_transition expected job_id token s =
    first (select (λ a. a.job_id == job_id && a.token == token && expected a.outcome) s.attempts)

abbrev pub is_finished : AttemptOutcome → Bool
is_finished finished = true
is_finished _ = false

abbrev pub is_dead_lettered_failed : AttemptOutcome → Bool
is_dead_lettered_failed dead_lettered_failed = true
is_dead_lettered_failed _ = false

abbrev pub is_retry_planned : AttemptOutcome → Bool
is_retry_planned retry_planned = true
is_retry_planned _ = false

-- const [existing] = … where id = jobId; existing ? lease_lost : not_found
unfoldable pub lost_or_missing : ℕ → JobStore → TransitionResult
unfolding find
lost_or_missing job_id s =
    if is_set (find job_key job_id s.jobs) then refused lease_lost else refused not_found

unfoldable pub completed_job : ℕ → Job → Job
completed_job t j = record j {
  state = JobState.completed;
  lease_owner = none;
  lease_token = none;
  leased_at = none;
  lease_expires_at = none;
  completed_at = some t;
  retention_expires_at = some (t + seconds j.terminal_retention_seconds);
  updated_at = t;
}

unfoldable pub completed_attempt : ℕ → Attempt → Attempt
completed_attempt u a = record a { outcome = finished; finished_at = some u }

unfoldable pub retried_job : ℕ → ℕ → Text → Job → Job
retried_job t available_at failure_code j = record j {
  state = JobState.pending;
  available_at = available_at;
  lease_owner = none;
  lease_token = none;
  leased_at = none;
  lease_expires_at = none;
  last_failure_code = some failure_code;
  last_failure_at = some t;
  updated_at = t;
}

unfoldable pub retried_attempt : ℕ → ℕ → Text → Attempt → Attempt
retried_attempt u available_at failure_code a = record a {
  outcome = retry_planned;
  failure_code = some failure_code;
  next_available_at = some available_at;
  finished_at = some u;
}

-- The `set` that the three dead-letter updates share.
unfoldable pub dead_lettered_job : ℕ → DeadLetterReason → DeadLetterOutcome → Text → Job → Job
dead_lettered_job t reason outcome failure_code j = record j {
  state = JobState.dead_letter;
  lease_owner = none;
  lease_token = none;
  leased_at = none;
  lease_expires_at = none;
  dead_lettered_at = some t;
  dead_letter_reason = some reason;
  dead_letter_outcome = some outcome;
  last_failure_code = some failure_code;
  last_failure_at = some t;
  retention_expires_at = some (t + seconds j.terminal_retention_seconds);
  updated_at = t;
}

unfoldable pub dead_lettered_attempt : ℕ → Text → Attempt → Attempt
dead_lettered_attempt u failure_code a = record a {
  outcome = dead_lettered_failed;
  failure_code = some failure_code;
  finished_at = some u;
}

-- update deliveryJob … returning, then close the attempt of the same lease: `none` when no job was
-- updated, so that the attempt is left alone too.
unfoldable pub finish_lease :
    (job_id : ℕ) (owner : Text) (token t : ℕ) (set_job : Job → Job)
    (set_attempt : Attempt → Attempt)
    → JobStore
    → Result JobFault (Option JobStore)
unfolding owns_lease is_open_attempt close_attempt updated update
finish_lease job_id owner token t set_job set_attempt s =
    let mine = owns_lease job_id owner token t in
    if is_set (first (updated mine set_job s.jobs))
    then (do
      closed ←
          close_attempt (is_open_attempt job_id token owner) set_attempt
            (record s { jobs = update mine set_job s.jobs })
      ok (some closed))
    else ok none

-- What `prior` says of a lease that is no longer this worker's.
unfoldable pub retry_prior : Option Attempt → TransitionResult
retry_prior none = refused lease_lost
retry_prior (some prior) =
    if is_retry_planned prior.outcome
    then transitioned already_retried
    else if is_dead_lettered_failed prior.outcome
    then transitioned already_dead_lettered
    else refused lease_lost

module _ (job_id : ℕ) (lease_owner : Text) (lease_token : ℕ) where
  complete_after : JobStore → Option JobStore → TransitionResult × JobStore
  unfolding find_idempotent_transition lost_or_missing
  complete_after s (some done) = (transitioned completed_now, done)
  complete_after s none =
      if is_set (find_idempotent_transition is_finished job_id lease_token s)
      then (transitioned already_completed, s)
      else (lost_or_missing job_id s, s)

  unfoldable pub complete_job : (t u : ℕ) → JobStore → Result JobFault (TransitionResult × JobStore)
  unfolding complete_after assert_bounded_nonblank_string finish_lease completed_job
      completed_attempt
  complete_job t u s = do
    assert_bounded_nonblank_string lease_owner 160 invalid_argument
    done ← finish_lease job_id lease_owner lease_token t (completed_job t) (completed_attempt u) s
    ok (complete_after s done)

  dead_letter_after : JobStore → Option JobStore → TransitionResult × JobStore
  unfolding find_idempotent_transition lost_or_missing
  dead_letter_after s (some done) = (transitioned dead_lettered, done)
  dead_letter_after s none =
      if is_set (find_idempotent_transition is_dead_lettered_failed job_id lease_token s)
      then (transitioned already_dead_lettered, s)
      else (lost_or_missing job_id s, s)

  unfoldable pub dead_letter_job :
      (failure : Option Text) (t u : ℕ) → JobStore → Result JobFault (TransitionResult × JobStore)
  unfolding dead_letter_after assert_bounded_nonblank_string finish_lease dead_lettered_job
      dead_lettered_attempt sanitize_failure_code
  dead_letter_job failure t u s = do
    assert_bounded_nonblank_string lease_owner 160 invalid_argument
    let code = sanitize_failure_code failure
    done ←
        finish_lease job_id lease_owner lease_token t
          (dead_lettered_job t permanent_failure failed code) (dead_lettered_attempt u code) s
    ok (dead_letter_after s done)

  abbrev retry_after : TransitionStatus → JobStore → Option JobStore → TransitionResult × JobStore
  retry_after status s (some done) = (transitioned status, done)
  retry_after status s none = (refused lease_lost, s)

  -- The row that `for("update")` reads decides; `t` is the clock at that read.
  retry_current :
      (available_at : ℕ) (failure_code : Text) (t u v : ℕ)
      → JobStore
      → Option Job
      → Result JobFault (TransitionResult × JobStore)
  unfolding find_idempotent_transition retry_prior finish_lease retried_job retried_attempt
      dead_lettered_job dead_lettered_attempt text_eqb
  retry_current available_at failure_code t u v s none = ok (refused not_found, s)
  retry_current available_at failure_code t u v s (some current) =
      if not (is_leased current.state)
        || not (holds current.lease_owner lease_owner)
        || not (holds current.lease_token lease_token)
        || not (is_after current.lease_expires_at t)
      then ok (
        retry_prior (
            find_idempotent_transition (λ o. is_dead_lettered_failed o || is_retry_planned o) job_id
              lease_token s),
        s,
      )
      else if ltb current.attempt_count current.max_attempts
      then (do
        done ←
            finish_lease job_id lease_owner lease_token u (retried_job u available_at failure_code)
              (retried_attempt v available_at failure_code) s
        ok (retry_after retry_scheduled s done))
      else (do
        done ←
            finish_lease job_id lease_owner lease_token u
              (dead_lettered_job u attempts_exhausted failed failure_code)
              (dead_lettered_attempt v failure_code) s
        ok (retry_after dead_lettered s done))

  -- `none` for `availableAt` is an invalid Date.
  unfoldable pub retry_job :
      (available_at : Option ℕ) (failure : Option Text) (t u v : ℕ)
      → JobStore
      → Result JobFault (TransitionResult × JobStore)
  unfolding retry_current assert_bounded_nonblank_string find sanitize_failure_code
  retry_job available_at failure t u v s = do
    at ← or_throw available_at invalid_argument
    assert_bounded_nonblank_string lease_owner 160 invalid_argument
    retry_current at (sanitize_failure_code failure) t u v s (find job_key job_id s.jobs)
