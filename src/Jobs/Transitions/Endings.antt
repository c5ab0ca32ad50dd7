-- ===== src/Jobs/Transitions/Endings.antt =====
-- The three writes by which a worker gives up its lease are endings.
use euphoria_api.Base.{ℕ, ◌≡◌, refl, true, Text}
use euphoria_api.Validate.{matches_failure_code}
use euphoria_api.Jobs.Schema.{DeadLetterReason, DeadLetterOutcome}
use euphoria_api.Jobs.Checks.{
  completed_job-JobChecks, retried_job-JobChecks, dead_lettered_job-JobChecks,
  completed_attempt-AttemptChecks, retried_attempt-AttemptChecks,
  dead_lettered_attempt-AttemptChecks,
}
use euphoria_api.Jobs.Finish.{
  completed_job, completed_attempt, retried_job, retried_attempt, dead_lettered_job,
  dead_lettered_attempt,
}
use euphoria_api.Jobs.Leases.Keep.{Ending}

pub completed-Ending : (t u : ℕ) → Ending (completed_job t) (completed_attempt u)
unfolding completed_job completed_attempt
completed-Ending t u = record {
  job_same = λ j. refl;
  count_same = λ j. refl;
  released = λ j. refl;
  job_checked = completed_job-JobChecks t;
  attempt_same = λ a. refl;
  attempt_job = λ a. refl;
  number_same = λ a. refl;
  closed = λ a. refl;
  attempt_checked = completed_attempt-AttemptChecks u;
}

module _ (code : Text) (clean : matches_failure_code code ≡ true) where
  pub retried-Ending : (t u at : ℕ) → Ending (retried_job t at code) (retried_attempt u at code)
  unfolding retried_job retried_attempt
  retried-Ending t u at = record {
    job_same = λ j. refl;
    count_same = λ j. refl;
    released = λ j. refl;
    job_checked = λ j c l. retried_job-JobChecks t at code j c l clean;
    attempt_same = λ a. refl;
    attempt_job = λ a. refl;
    number_same = λ a. refl;
    closed = λ a. refl;
    attempt_checked = λ a c o. retried_attempt-AttemptChecks u at code a c o clean;
  }

  pub dead_lettered-Ending :
      (t u : ℕ) (reason : DeadLetterReason) (outcome : DeadLetterOutcome)
      → Ending (dead_lettered_job t reason outcome code) (dead_lettered_attempt u code)
  unfolding dead_lettered_job dead_lettered_attempt
  dead_lettered-Ending t u reason outcome = record {
    job_same = λ j. refl;
    count_same = λ j. refl;
    released = λ j. refl;
    job_checked = λ j c l. dead_lettered_job-JobChecks t reason outcome code j c l clean;
    attempt_same = λ a. refl;
    attempt_job = λ a. refl;
    number_same = λ a. refl;
    closed = λ a. refl;
    attempt_checked = λ a c o. dead_lettered_attempt-AttemptChecks u code a c o clean;
  }
