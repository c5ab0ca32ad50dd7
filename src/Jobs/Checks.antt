-- ===== src/Jobs/Checks.antt =====
-- The check constraints of delivery_job and delivery_job_attempt (src/db/durable-schema.ts), and
-- what each write does to them. A comparison with a null column counts as a failed check here,
-- though PostgreSQL lets it pass.
use euphoria_api.Base.{
  ℕ, ◌≤◌, ◌<◌, ◌≡◌, refl, Bool, true, false, ◌&&◌, ◌||◌, Option, none, some, Text, arith, is_null,
  is_set, is_after, ltb, is_empty, trim,
}
use euphoria_api.Validate.{matches_failure_code}
use euphoria_api.Jobs.Schema.{
  Job, Attempt, JobState, pending, leased, completed, dead_letter, AttemptOutcome, open_lease,
  finished, retry_planned, DeadLetterReason, DeadLetterOutcome, ManualRequeue, is_leased,
  is_pending, is_dead_letter, is_open,
}
use euphoria_api.Jobs.Enqueue.{sanitize_failure_code}
use euphoria_api.Jobs.Claim.{claimed_job, expired_attempt, spent_attempt}
use euphoria_api.Jobs.Finish.{
  completed_job, retried_job, dead_lettered_job, completed_attempt, retried_attempt,
  dead_lettered_attempt,
}
use euphoria_api.Jobs.Maintenance.{requeued_job}

abbrev has_no_lease : Job → Bool
has_no_lease j =
    is_null j.lease_owner
    && is_null j.lease_token
    && is_null j.leased_at
    && is_null j.lease_expires_at

abbrev has_no_dead_letter : Job → Bool
has_no_dead_letter j =
    is_null j.dead_lettered_at && is_null j.dead_letter_reason && is_null j.dead_letter_outcome

-- left > right, with null on either side failing
abbrev exceeds : Option ℕ → Option ℕ → Bool
exceeds left none = false
exceeds left (some b) = is_after left b

abbrev state_rule : JobState → Job → Bool
state_rule pending j =
    has_no_lease j
    && is_null j.completed_at
    && has_no_dead_letter j
    && is_null j.retention_expires_at
state_rule leased j =
    ltb 0 j.attempt_count
    && is_set j.lease_owner
    && is_set j.lease_token
    && is_set j.leased_at
    && exceeds j.lease_expires_at j.leased_at
    && is_null j.completed_at
    && has_no_dead_letter j
    && is_null j.retention_expires_at
state_rule completed j =
    has_no_lease j
    && is_set j.completed_at
    && has_no_dead_letter j
    && exceeds j.retention_expires_at j.completed_at
state_rule dead_letter j =
    has_no_lease j
    && is_null j.completed_at
    && is_set j.dead_lettered_at
    && is_set j.dead_letter_reason
    && is_set j.dead_letter_outcome
    && exceeds j.retention_expires_at j.dead_lettered_at

-- delivery_job_state_check
unfoldable pub state_check : Job → Bool
state_check j = state_rule j.state j

abbrev code_check : Option Text → Bool
code_check none = true
code_check (some code) = matches_failure_code code

pub record JobChecks (j : Job) : Type 0 where
  pub kind_not_blank : is_empty (trim j.job_kind) ≡ false
  pub version_positive : 0 < j.job_version
  pub max_positive : 0 < j.max_attempts
  pub count_bounded : j.attempt_count ≤ j.max_attempts
  pub retention_positive : 0 < j.terminal_retention_seconds
  pub code_clean : code_check j.last_failure_code ≡ true
  pub state_clean : state_check j ≡ true

abbrev outcome_rule : AttemptOutcome → Attempt → Bool
outcome_rule open_lease a =
    is_null a.failure_code && is_null a.next_available_at && is_null a.finished_at
outcome_rule finished a =
    is_null a.failure_code && is_null a.next_available_at && is_set a.finished_at
outcome_rule retry_planned a =
    is_set a.failure_code && is_set a.next_available_at && is_set a.finished_at
outcome_rule _ a = is_set a.failure_code && is_null a.next_available_at && is_set a.finished_at

-- delivery_job_attempt_outcome_check
unfoldable pub outcome_check : Attempt → Bool
outcome_check a = outcome_rule a.outcome a

pub record AttemptChecks (a : Attempt) : Type 0 where
  pub number_positive : 0 < a.attempt_number
  pub lease_forward : a.leased_at < a.lease_expires_at
  pub code_clean : code_check a.failure_code ≡ true
  pub outcome_clean : outcome_check a ≡ true

pub sanitize-matches :
    (failure : Option Text) → matches_failure_code (sanitize_failure_code failure) ≡ true
unfolding sanitize_failure_code
sanitize-matches none = refl
sanitize-matches (some code) = ground arith

pub completed_job-JobChecks :
    (t : ℕ) (j : Job) → JobChecks j → is_leased j.state ≡ true → JobChecks (completed_job t j)
unfolding state_check completed_job
completed_job-JobChecks t j c h = ground arith

pub retried_job-JobChecks :
    (t at : ℕ) (code : Text) (j : Job)
    → JobChecks j
    → is_leased j.state ≡ true
    → matches_failure_code code ≡ true
    → JobChecks (retried_job t at code j)
unfolding state_check retried_job
retried_job-JobChecks t at code j c h m = ground arith

pub dead_lettered_job-JobChecks :
    (t : ℕ) (reason : DeadLetterReason) (outcome : DeadLetterOutcome) (code : Text) (j : Job)
    → JobChecks j
    → is_leased j.state ≡ true
    → matches_failure_code code ≡ true
    → JobChecks (dead_lettered_job t reason outcome code j)
unfolding state_check dead_lettered_job
dead_lettered_job-JobChecks t reason outcome code j c h m = ground arith

pub claimed_job-JobChecks :
    (t : ℕ) (owner : Text) (token duration : ℕ) (j : Job)
    → JobChecks j
    → (is_pending j.state || is_leased j.state) ≡ true
    → j.attempt_count < j.max_attempts
    → 0 < duration
    → JobChecks (claimed_job t owner token duration j)
unfolding state_check claimed_job
claimed_job-JobChecks t owner token duration j c h m d = ground arith

pub requeued_job-JobChecks :
    (t : ℕ) (audit : ManualRequeue) (j : Job)
    → JobChecks j
    → is_dead_letter j.state ≡ true
    → j.attempt_count < audit.next_max_attempts
    → JobChecks (requeued_job t audit j)
unfolding state_check requeued_job
requeued_job-JobChecks t audit j c h m = ground arith

pub completed_attempt-AttemptChecks :
    (u : ℕ) (a : Attempt)
    → AttemptChecks a
    → is_open a.outcome ≡ true
    → AttemptChecks (completed_attempt u a)
unfolding outcome_check completed_attempt
completed_attempt-AttemptChecks u a c h = ground arith

pub retried_attempt-AttemptChecks :
    (u at : ℕ) (code : Text) (a : Attempt)
    → AttemptChecks a
    → is_open a.outcome ≡ true
    → matches_failure_code code ≡ true
    → AttemptChecks (retried_attempt u at code a)
unfolding outcome_check retried_attempt
retried_attempt-AttemptChecks u at code a c h m = ground arith

pub dead_lettered_attempt-AttemptChecks :
    (u : ℕ) (code : Text) (a : Attempt)
    → AttemptChecks a
    → is_open a.outcome ≡ true
    → matches_failure_code code ≡ true
    → AttemptChecks (dead_lettered_attempt u code a)
unfolding outcome_check dead_lettered_attempt
dead_lettered_attempt-AttemptChecks u code a c h m = ground arith

pub expired_attempt-AttemptChecks :
    (u : ℕ) (a : Attempt)
    → AttemptChecks a
    → is_open a.outcome ≡ true
    → AttemptChecks (expired_attempt u a)
unfolding outcome_check expired_attempt matches_failure_code
expired_attempt-AttemptChecks u a c h = ground arith

pub spent_attempt-AttemptChecks :
    (u : ℕ) (a : Attempt)
    → AttemptChecks a
    → is_open a.outcome ≡ true
    → AttemptChecks (spent_attempt u a)
unfolding outcome_check spent_attempt matches_failure_code
spent_attempt-AttemptChecks u a c h = ground arith
