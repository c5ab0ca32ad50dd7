-- ===== src/Jobs/Sound.antt =====
-- What holds of the job tables between two transactions: keys are unique, every row passes its
-- check constraints, and leases and open attempts belong to one another.
use euphoria_api.Base.{ℕ, ◌≤◌, ◌≡◌, true, some, Text, All}
use euphoria_api.Sql.Keys.{Distinct, find}
use euphoria_api.Jobs.Schema.{Job, Attempt, JobStore, job_key, attempt_key, is_leased, is_open}
use euphoria_api.Jobs.Checks.{JobChecks, AttemptChecks}

-- The open attempt of a leased job.
pub record HasOpenAttempt (s : JobStore) (j : Job) : Type 0 where
  pub held : ℕ
  pub owner : Text
  pub attempt : Attempt
  pub token_held : j.lease_token ≡ some held
  pub owner_held : j.lease_owner ≡ some owner
  pub recorded : find attempt_key held s.attempts ≡ some attempt
  pub same_job : attempt.job_id ≡ j.id
  pub same_owner : attempt.owner ≡ owner
  pub still_open : is_open attempt.outcome ≡ true

-- The job of an attempt, which holds the attempt's lease while the attempt is open.
pub record HasJob (s : JobStore) (a : Attempt) : Type 0 where
  pub job : Job
  pub recorded : find job_key a.job_id s.jobs ≡ some job
  pub number_bounded : a.attempt_number ≤ job.attempt_count
  pub leased_while_open : is_open a.outcome ≡ true → is_leased job.state ≡ true
  pub token_while_open : is_open a.outcome ≡ true → job.lease_token ≡ some a.token

pub record Sound (s : JobStore) : Type 0 where
  pub jobs_distinct : Distinct job_key s.jobs
  pub tokens_distinct : Distinct attempt_key s.attempts
  pub jobs_checked : All JobChecks s.jobs
  pub attempts_checked : All AttemptChecks s.attempts
  pub leases_recorded :
      (k : ℕ) (j : Job)
      → find job_key k s.jobs ≡ some j
      → is_leased j.state ≡ true
      → HasOpenAttempt s j
  pub attempts_owned : (t : ℕ) (a : Attempt) → find attempt_key t s.attempts ≡ some a → HasJob s a
