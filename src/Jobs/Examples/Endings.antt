-- ===== src/Jobs/Examples/Endings.antt =====
-- The worker of the example ends its lease, in every way that there is, and repeats itself.
use euphoria_api.Base.{
  ◌≡◌, refl, ◌||◌, true, false, Option, some, Text, text, ok, text_eqb, text_eq, nat_eq,
}
use euphoria_api.Jobs.Examples.{
  worker_name, leased_job, leased_store, found_leased, worker_named, leased_Sound, reclaimed_store,
}
use euphoria_api.Jobs.Schema.{JobStore, owns_lease, permanent_failure, attempts_exhausted, failed}
use euphoria_api.Jobs.Enqueue.{new_job, sanitize_failure_code}
use euphoria_api.Jobs.Claim.{claimed_job}
use euphoria_api.Jobs.Finish.{
  retry_job, find_idempotent_transition, is_retry_planned, is_dead_lettered_failed, completed_job,
  completed_attempt, retried_job, retried_attempt, dead_lettered_job, dead_lettered_attempt,
  retry_prior,
}
use euphoria_api.Jobs.Leases.{ended}
use euphoria_api.Jobs.Transitions.Retry.{retry_job_stale}

pub owned : owns_lease 7 worker_name 1000 300 leased_job ≡ true
unfolding owns_lease claimed_job new_job text_eqb
owned = refl

stranger : owns_lease 7 worker_name 1001 300 leased_job ≡ false
unfolding owns_lease claimed_job new_job text_eqb
stranger = refl

abbrev pub timeout_code : Option Text
timeout_code = some (text "apns_timeout")

abbrev pub cleaned : Text
cleaned = sanitize_failure_code timeout_code

abbrev completed_store : JobStore
completed_store =
    ended 7 worker_name 1000 300 (completed_job 300) (completed_attempt 301) leased_store

abbrev pub buried_store : JobStore
buried_store =
    ended 7 worker_name 1000 300 (dead_lettered_job 300 permanent_failure failed cleaned)
      (dead_lettered_attempt 301 cleaned) leased_store

abbrev retried_store : JobStore
retried_store =
    ended 7 worker_name 1000 300 (retried_job 300 900 cleaned) (retried_attempt 301 900 cleaned)
      leased_store

retry_job_of_stranger :
    retry_job 7 worker_name 1001 (some 900) timeout_code 300 300 301 leased_store
    ≡ ok (
      retry_prior (
          find_idempotent_transition
            (λ o. is_dead_lettered_failed o || is_retry_planned o)
            7
            1001
            leased_store),
      leased_store,
    )
retry_job_of_stranger =
    retry_job_stale 7 worker_name 1001 leased_store leased_Sound worker_named leased_job
      found_leased timeout_code 900 300 300 301 stranger

abbrev exhausted_store : JobStore
exhausted_store =
    ended 7 worker_name 2000 40000300 (dead_lettered_job 40000300 attempts_exhausted failed cleaned)
      (dead_lettered_attempt 40000301 cleaned) reclaimed_store
